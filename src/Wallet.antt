-- ===== src/Wallet.antt =====
-- wallet/src/lib.rs: the outputs that a wallet keeps for bids, the transaction that a bid carries, and
-- its compressed form. The wallet bdk_wallet is third-party code: its list of outputs, its transactions
-- and what it signs are parameters.
pub mod Amounts
pub mod Bidouts
pub mod Carried
pub mod Selection
pub mod Selected
pub mod Requests
pub mod Placeholders
pub mod Recipients
pub mod Reveals
pub mod Stack
pub mod Pushed
use spaced.Wallet.Amounts.{is_space_dust, is_connector_dust}
use spaced.Validate.{add_u32}
use spaced.Prepare.{is_magic_output, is_magic_lock_time}
use spaced.Keys.Order.{bytes_lt}
use spaced.Bitcoin.{
  single_plus_anyone_can_pay, enable_rbf_no_locktime, blocks, outpoint_eq, Transaction, TxOut,
  LockTime, Bitcoin, OutPoint,
}
use spaced.Base.{
  take, anyhow, err, length, ◌==◌, not, ltb, ok, expect, ◌>>=◌, ◌%◌, ◌||◌, index, false, ◌&&◌,
  if◌then◌else◌, [], get_elem?, Result, some, any, ◌∷◌, true, none, bytes_eq, ℕ, Bool, List, Option,
}

pub data KeychainKind : Type 0 where
  external internal : KeychainKind

-- What the code reads of a `LocalOutput` of bdk_wallet.
pub record LocalOutput : Type 0 where
  pub outpoint : OutPoint
  pub txout : TxOut
  pub keychain : KeychainKind
  pub is_confirmed : Bool

pub record FullTxOut : Type 0 where
  pub outpoint : OutPoint
  pub txout : TxOut

pub record DoubleUtxo : Type 0 where
  pub spend : FullTxOut
  pub auction : FullTxOut
  pub confirmed : Bool

-- `SelectionOutput` of wallet/src/builder.rs
pub record SelectionOutput : Type 0 where
  pub outpoint : OutPoint
  pub is_space : Bool
  pub is_spaceout : Bool

-- `SpacesAwareCoinSelection` of wallet/src/builder.rs, without the algorithm that it falls back to.
pub record SpacesAwareCoinSelection : Type 0 where
  pub exclude_outputs : List SelectionOutput
  pub confirmed_only : Bool

abbrev pub dust_threshold : ℕ
dust_threshold = 1200

-- The order of outputs by transaction and index.
unfoldable pub output_lt : LocalOutput → LocalOutput → Bool
output_lt a b =
    bytes_lt a.outpoint.txid b.outpoint.txid
    || (bytes_eq a.outpoint.txid b.outpoint.txid && ltb a.outpoint.vout b.outpoint.vout)

-- `sort_by`, a stable sort.
unfoldable pub insert_sorted : LocalOutput → List LocalOutput → List LocalOutput
insert_sorted u [] = u ∷ []
insert_sorted u (v ∷ vs) =
    let rest = insert_sorted u vs in if output_lt v u then v ∷ rest else u ∷ v ∷ vs

unfoldable pub sort_outputs : List LocalOutput → List LocalOutput
sort_outputs [] = []
sort_outputs (u ∷ us) = insert_sorted u (sort_outputs us)

abbrev pub is_internal : KeychainKind → Bool
is_internal internal = true
is_internal external = false

-- The test of a window of two outputs. `u32` addition wraps around in a release build.
unfoldable pub is_pair : SpacesAwareCoinSelection → LocalOutput → LocalOutput → Bool
is_pair selection utxo1 utxo2 =
    bytes_eq utxo1.outpoint.txid utxo2.outpoint.txid
    && utxo1.outpoint.vout % 2 == 0
    && is_internal utxo1.keychain
    && utxo2.outpoint.vout == add_u32 utxo1.outpoint.vout 1
    && not (is_internal utxo2.keychain)
    && ltb utxo1.txout.value dust_threshold
    && ltb utxo2.txout.value dust_threshold
    && is_connector_dust utxo1.txout.value
    && not (is_space_dust utxo2.txout.value)
    && is_magic_output utxo2.txout
    && not (
        any
          (λ sel.
            sel.is_space
            && (outpoint_eq sel.outpoint utxo1.outpoint || outpoint_eq sel.outpoint utxo2.outpoint))
          selection.exclude_outputs)
    && (not selection.confirmed_only || utxo1.is_confirmed)

-- Whether the transaction of an output is known and has the magic lock time.
abbrev pub has_magic_lock_time : Option LockTime → Bool
has_magic_lock_time none = false
has_magic_lock_time (some locktime) = is_magic_lock_time locktime

abbrev pub double_utxo : LocalOutput → LocalOutput → DoubleUtxo
double_utxo utxo1 utxo2 = record {
  spend = record { outpoint = utxo1.outpoint; txout = utxo1.txout };
  auction = record { outpoint = utxo2.outpoint; txout = utxo2.txout };
  confirmed = utxo1.is_confirmed;
}

-- The loop over the windows; `lock_time` is that of a transaction of the wallet.
unfoldable pub pairs :
    (List ℕ → Option LockTime) → SpacesAwareCoinSelection → List LocalOutput → List DoubleUtxo
pairs lock_time selection [] = []
pairs lock_time selection (utxo1 ∷ []) = []
pairs lock_time selection (utxo1 ∷ utxo2 ∷ us) =
    let rest = pairs lock_time selection (utxo2 ∷ us) in
    if is_pair selection utxo1 utxo2 && has_magic_lock_time (lock_time utxo2.outpoint.txid)
    then double_utxo utxo1 utxo2 ∷ rest
    else rest

-- `SpacesWallet::list_bidouts`, with what `list_unspent` gives.
abbrev pub list_bidouts :
    (List ℕ → Option LockTime) → List LocalOutput → SpacesAwareCoinSelection → List DoubleUtxo
list_bidouts lock_time unspent selection = pairs lock_time selection (sort_outputs unspent)

-- The placeholder of `SpacesWallet::new_bid_psbt`: the first that is confirmed, or the first.
unfoldable pub find_confirmed : List DoubleUtxo → Option DoubleUtxo
find_confirmed [] = none
find_confirmed (d ∷ ds) = if d.confirmed then some d else find_confirmed ds

unfoldable pub choose_placeholder : List DoubleUtxo → Option DoubleUtxo
choose_placeholder all = elim (find_confirmed all) [ some d ↦ some d | none ↦ get_elem? all 0 ]

-- The transaction that `SpacesWallet::new_bid_psbt` has the wallet build for a placeholder.
abbrev pub unsigned_bid : ℕ → DoubleUtxo → Transaction
unsigned_bid refund_value placeholder = record {
  version = 2;
  lock_time = blocks 0;
  input =
      (record {
        previous_output = placeholder.auction.outpoint;
        script_sig = [];
        sequence = enable_rbf_no_locktime;
        witness = [];
      })
      ∷ [];
  output =
      (record { value = refund_value; script_pubkey = placeholder.auction.txout.script_pubkey })
      ∷ [];
}

unfoldable pub bid_template : Bitcoin → ℕ → DoubleUtxo → Result Transaction
bid_template btc total_burned placeholder =
    expect (btc.amount_add total_burned placeholder.auction.txout.value) >>= λ refund_value.
    ok (unsigned_bid refund_value placeholder)

-- `SpacesWallet::compress_bid_psbt`, on the final witnesses of the inputs of the PSBT.
unfoldable pub compress_bid_psbt : ℕ → List (Option (List (List ℕ))) → Result (List ℕ)
compress_bid_psbt op_return_vout (some stack ∷ []) = index stack 0 >>= λ witness.
    if not (length witness == 65)
    then err
        (anyhow "bid psbt witness must be a taproot key spend with sighash type SingleAnyoneCanPay")
    else (index witness 64 >>= λ kind.
        if not (kind == single_plus_anyone_can_pay)
        then err (
            anyhow
              "bid psbt witness must be a taproot key spend with sighash type SingleAnyoneCanPay")
        else ok (op_return_vout ∷ take 64 witness))
compress_bid_psbt op_return_vout _ =
    err (anyhow "bid psbt witness stack must have exactly one input")
