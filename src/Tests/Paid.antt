-- ===== src/Tests/Paid.antt =====
-- The theorems on the wallet at concrete inputs.
use spaced.Wallet.Placeholders.{build_iter-enough, made, needs}
use spaced.Prepare.{is_magic_lock_time, cpsbt_from_script}
use spaced.Wallet.Recipients.{prepare_layout}
use spaced.Tests.Validated.{waiting_bid, out_of}
use spaced.Wallet.Bidouts.{list_bidouts-IsBidout, IsBidout}
use spaced.Spaces.{outpoint}
use spaced.Bitcoin.{
  TxOut, single_plus_anyone_can_pay, outpoint_eq_iff, seconds, outpoint_eq, LockTime, op_return,
}
use spaced.Wallet.Amounts.{magic_lock_time-bounds, magic_lock_time}
use spaced.Tests.Data.{toy-IsBitcoin, script_34, sig_64, toy}
use spaced.Tests.Rolled.{waiting_entry}
use spaced.Spaces.Signing.{refund_signing_info}
use spaced.Wallet.Selected.{coin_select-IsFunding, IsFunding, IsSelected, SelectLaw}
use spaced.Wallet.Reveals.{prepare_layout-Commits, Tracks}
use spaced.Wallet.Selection.{
  CoinSelectionResult, may_fund, no_change, retain, WeightedUtxo, not_required, utxos, coin_select,
  Utxo,
}
use spaced.Base.{
  length, inr, inl, All-imp, ◌+◌, ◌⊎◌, ◌≤◌, All-append, ◌<◌, length-append, leb, get_elem?, ◌%◌,
  if◌then◌else◌, arith, Result, suc, ◌++◌, true, refl, false, ok, [], Bool, Option, ◌≡◌, ◌∷◌, some,
  none, List, ℕ, All,
}
use spaced.Wallet.{
  unsigned_bid, external, list_bidouts, internal, LocalOutput, compress_bid_psbt, bid_template,
  DoubleUtxo, SpacesAwareCoinSelection,
}
use spaced.Wallet.Carried.{
  bid_template-refund_signing_info, compress_bid_psbt-cpsbt_from_script, with_witness, SignatureLaw,
}
use spaced.Wallet.Requests.{
  stack_of, arrange_one, arrange, auction_outputs_for, new_builder, count_requests, open_request,
  prepare, required_outputs, add_request, StackRequest, Builder, build_iter, BuilderIterator,
  SpaceTransfer,
}

abbrev toy_time : ℕ → Option LockTime
toy_time time = if leb 500_000_000 time then some (seconds time) else none

magic_lock_time-bounds_example :
    (time : ℕ) × (magic_lock_time toy_time 1_700_000_123 ≡ ok (seconds time))
    × (is_magic_lock_time (seconds time) ≡ true)
    × (time < 1_700_000_123)
    × (1_700_000_123 ≤ time + 1777)
magic_lock_time-bounds_example =
    magic_lock_time-bounds toy_time 1_700_000_123 (λ time. refl) (omega arith) (omega arith)

-- A pair of outputs for a bid.
abbrev connector_0 : LocalOutput
connector_0 = record {
  outpoint = record { txid = 1 ∷ []; vout = 0 };
  txout = record { value = 664; script_pubkey = [] };
  keychain = internal;
  is_confirmed = true;
}

abbrev auction_1 : LocalOutput
auction_1 = record {
  outpoint = record { txid = 1 ∷ []; vout = 1 };
  txout = record { value = 662; script_pubkey = script_34 };
  keychain = external;
  is_confirmed = true;
}

abbrev nothing_excluded : SpacesAwareCoinSelection
nothing_excluded = record { exclude_outputs = []; confirmed_only = true }

abbrev magic_times : List ℕ → Option LockTime
magic_times txid = some (seconds 500_000_222)

list_bidouts-IsBidout_example :
    All
      (IsBidout magic_times (auction_1 ∷ connector_0 ∷ []) nothing_excluded)
      (list_bidouts magic_times (auction_1 ∷ connector_0 ∷ []) nothing_excluded)
list_bidouts-IsBidout_example =
    list_bidouts-IsBidout magic_times (auction_1 ∷ connector_0 ∷ []) nothing_excluded

abbrev toy_op_return : List ℕ → List ℕ
toy_op_return bytes = op_return ∷ 65 ∷ bytes

toy-SignatureLaw : SignatureLaw toy toy_op_return
toy-SignatureLaw sig size = ground (arith, size)

compress_bid_psbt-cpsbt_from_script_example :
    (sig : List ℕ) × (more : List (List ℕ)) × (length sig ≡ 64)
    × (some ((sig_64 ++ (0x83 ∷ [])) ∷ []) ∷ []
        ≡ some ((sig ++ (single_plus_anyone_can_pay ∷ [])) ∷ more) ∷ [])
    × (cpsbt_from_script toy (toy_op_return (1 ∷ sig_64))
        ≡ ok (some (record { vout = 1; signature = sig })))
unfolding compress_bid_psbt
compress_bid_psbt-cpsbt_from_script_example =
    compress_bid_psbt-cpsbt_from_script toy toy_op_return 1
      (some ((sig_64 ++ (0x83 ∷ [])) ∷ []) ∷ []) (1 ∷ sig_64) (λ bytes size. refl) toy-SignatureLaw
      refl

-- The waiting bid as an output of the wallet.
abbrev placeholder : DoubleUtxo
placeholder = record {
  spend = record { outpoint = connector_0.outpoint; txout = connector_0.txout };
  auction = record { outpoint = outpoint waiting_entry; txout = out_of 662 };
  confirmed = true;
}

bid_template-refund_signing_info_example :
    refund_signing_info toy waiting_entry
    ≡ ok (
        some (
          with_witness
              (unsigned_bid 1662 placeholder)
              (toy.taproot_signature_to_vec waiting_bid.signature single_plus_anyone_can_pay ∷ []),
          out_of 662,
          waiting_bid.signature,
        ))
unfolding bid_template
bid_template-refund_signing_info_example =
    bid_template-refund_signing_info toy waiting_entry waiting_bid placeholder
      (unsigned_bid 1662 placeholder) toy-IsBitcoin refl refl refl refl

-- A selection of all that is given.
abbrev select_all : List WeightedUtxo → List WeightedUtxo → Result CoinSelectionResult
select_all required optional = ok (record {
  selected = utxos required ++ utxos optional;
  fee_amount = 100;
  excess = no_change 0 0 0;
})

weaken : (v : Utxo) (us vs : List Utxo) → All (IsSelected us) vs → All (IsSelected (v ∷ us)) vs
weaken v us [] a = tt
weaken v us (w ∷ vs) ((i, e), a) = ((suc i, e), weaken v us vs a)

All-IsSelected : (us : List Utxo) → All (IsSelected us) us
All-IsSelected [] = tt
All-IsSelected (u ∷ us) = ((0, refl), weaken u us us (All-IsSelected us))

select_all-SelectLaw : SelectLaw select_all
select_all-SelectLaw required optional r h =
    let made : record {
      selected = utxos required ++ utxos optional;
      fee_amount = 100;
      excess = no_change 0 0 0;
    }
        ≡ r =
      cc h in
    rw (← made) (
      omega (arith, length-append (utxos required) (utxos optional)),
      All-append (λ u. IsSelected (utxos required) u ⊎ IsSelected (utxos optional) u)
          (utxos required) (utxos optional)
          (All-imp (utxos required) (λ u p. inl p) (All-IsSelected (utxos required)))
          (All-imp (utxos optional) (λ u p. inr p) (All-IsSelected (utxos optional))),
    )

abbrev utxo_of : ℕ → ℕ → WeightedUtxo
utxo_of vout value = record {
  satisfaction_weight = 66;
  utxo = record {
    outpoint = record { txid = 3 ∷ []; vout = vout };
    txout = record { value = value; script_pubkey = [] };
    confirmation = some true;
  };
}

abbrev same_place : Utxo → Utxo → Bool
same_place a b = outpoint_eq a.outpoint b.outpoint

same_place_refl : (u : Utxo) → same_place u u ≡ true
same_place_refl u = (outpoint_eq_iff u.outpoint u.outpoint).1 refl

-- Of the two optional outputs one is below the threshold.
coin_select-IsFunding_example :
    (rest : List Utxo) × ((utxo_of 0 700).utxo ∷ (utxo_of 1 5000).utxo ∷ []
      ≡ utxos (utxo_of 0 700 ∷ []) ++ rest)
    × All (IsFunding nothing_excluded) rest
unfolding coin_select not_required retain may_fund outpoint_eq spaced.Base.Tests.bytes_eq
coin_select-IsFunding_example =
    coin_select-IsFunding same_place same_place_refl select_all nothing_excluded
      (utxo_of 0 700 ∷ []) (utxo_of 1 5000 ∷ utxo_of 2 800 ∷ [])
      (record {
        selected = (utxo_of 0 700).utxo ∷ (utxo_of 1 5000).utxo ∷ [];
        fee_amount = 100;
        excess = no_change 0 0 0;
      })
      select_all-SelectLaw refl

-- Two opens and no pair in the wallet.
abbrev open_of : List ℕ → StackRequest
open_of name = open_request (record { name = name; initial_amount = 1000 })

abbrev two_opens : Builder
two_opens = record (add_request (open_of (98 ∷ [])) (add_request (open_of (97 ∷ [])) new_builder)) {
  fee_rate = some 2;
}

abbrev built : BuilderIterator
built = record {
  stack =
      prepare (record {
        opens =
            (record { name = 97 ∷ []; initial_amount = 1000 })
            ∷ (record { name = 98 ∷ []; initial_amount = 1000 })
            ∷ [];
        executes = [];
        transfers = [];
        auction_outputs = some 2;
      })
      ∷ [];
  dust = none;
  fee_rate = 2;
  force = false;
  median_time = 0;
  coin_selection = nothing_excluded;
}

build_iter-enough_example : needs two_opens.requests ≤ 0 + made built.stack
unfolding build_iter required_outputs count_requests auction_outputs_for arrange arrange_one
    stack_of
build_iter-enough_example =
    build_iter-enough (λ selection. ok []) (λ i. []) none 0 nothing_excluded two_opens [] built
      (omega arith) (omega arith) refl refl

abbrev minimal : List ℕ → ℕ
minimal script = 330

abbrev no_address : ℕ → List ℕ
no_address i = []

abbrev moving : SpaceTransfer
moving = record { space = waiting_entry; recipient = script_34 }

prepare_layout-Commits_example :
    Tracks minimal none
      (prepare_layout minimal none no_address no_address [] (some 1) (script_34 ∷ []) [] []).outputs
      (prepare_layout minimal none no_address no_address []
        (some 1)
        (script_34 ∷ [])
        []
        []).tap_outputs
      (script_34 ∷ [])
    × Tracks minimal none
        (prepare_layout minimal none no_address no_address []
          (some 1)
          (script_34 ∷ [])
          []
          (moving ∷ [])).outputs
        (prepare_layout minimal none no_address no_address []
          (some 1)
          (script_34 ∷ [])
          []
          (moving ∷ [])).tap_outputs
        (script_34 ∷ [])
    × ((k : ℕ) × (out : TxOut) × (k % 2 ≡ 1)
        × (get_elem?
              (prepare_layout minimal none no_address no_address []
                (some 1)
                (script_34 ∷ [])
                []
                (moving ∷ [])).outputs
              k
            ≡ some out)
        × (out.script_pubkey ≡ script_34)
        × (out.value % 10 ≡ 6))
prepare_layout-Commits_example =
    prepare_layout-Commits minimal none no_address no_address [] (some 1) (script_34 ∷ []) [] moving
      [] (λ script. omega arith) (omega arith)
