-- ===== src/Prepare.antt =====
-- protocol/src/prepare.rs: what a transaction needs for its validation, loaded from a data source.
pub mod Inputs
pub mod Relevant
use spaced.Base.{
  ℕ, ◌+◌, ◌%◌, Bool, true, false, ◌&&◌, not, List, [], ◌∷◌, Option, none, some, ◌==◌, any,
  if◌then◌else◌, length, drop, Result, ok, ◌>>=◌, index,
}
use spaced.Bitcoin.{
  Bitcoin, OutPoint, TxIn, TxOut, LockTime, blocks, seconds, Transaction, op_return,
}
use spaced.Keys.{KeyHasher}
use spaced.Spaces.{SpaceOut}
use spaced.Script.{DataSource, SpaceScript, ScriptResult, eval}

abbrev pub compressed_psbt_size : ℕ
compressed_psbt_size = 65

pub record BidPsbt : Type 0 where
  pub outpoint : OutPoint
  pub signature : List ℕ
  pub burn_amount : ℕ

pub record AuctionedOutput : Type 0 where
  pub output : Option SpaceOut
  pub bid_psbt : BidPsbt

-- `sstxo` is the spent output that `SSTXO` wraps.
pub record InputContext : Type 0 where
  pub n : ℕ
  pub sstxo : SpaceOut
  pub script : Option (ScriptResult SpaceScript)

pub record TxContext : Type 0 where
  pub inputs : List InputContext
  pub auctioned_output : Option AuctionedOutput

pub record CPsbt : Type 0 where
  pub vout : ℕ
  pub signature : List ℕ

abbrev pub is_magic_lock_time : LockTime → Bool
is_magic_lock_time (blocks h) = false
is_magic_lock_time (seconds s) = s % 1000 == 222

abbrev pub is_magic_amount : ℕ → Bool
is_magic_amount amount = amount % 10 == 2

-- `TrackableOutput for TxOut`
abbrev pub is_magic_output : TxOut → Bool
is_magic_output out = is_magic_amount out.value

-- `TxContext::cpsbt_from_script`
unfoldable pub cpsbt_from_script : Bitcoin → List ℕ → Result (Option CPsbt)
cpsbt_from_script btc script =
    if not (length script == compressed_psbt_size + 2)
    then ok none
    else (index script 0 >>= λ code.
        if not (code == op_return)
        then ok none
        else (index (drop 2 script) 0 >>= λ vout. elim (btc.signature_from_slice (drop 3 script)) [
          | none ↦ ok none
          | some sig ↦ ok (some (record { vout = vout; signature = sig }))
        ]))

-- `TxContext::get_bid_psbt`
unfoldable pub get_bid_psbt : Bitcoin → List TxIn → List TxOut → Result (Option BidPsbt)
get_bid_psbt btc [] outputs = ok none
get_bid_psbt btc (first ∷ inputs) [] = ok none
get_bid_psbt btc (first ∷ inputs) (carrier ∷ outputs) =
    if not (btc.is_op_return carrier.script_pubkey)
    then ok none
    else (cpsbt_from_script btc carrier.script_pubkey >>= λ found. elim found [
      | none ↦ ok none
      | some cpsbt ↦ ok (
          some (record {
            outpoint = record { txid = first.previous_output.txid; vout = cpsbt.vout };
            signature = cpsbt.signature;
            burn_amount = carrier.value;
          }))
    ])

-- `TxContext::spending_spaces`
unfoldable pub spending_spaces : DataSource → List TxIn → Result Bool
spending_spaces src [] = ok false
spending_spaces src (input ∷ inputs) = src.get_spaceout input.previous_output >>= λ found.
    elim found [ none ↦ spending_spaces src inputs | some out ↦ ok true ]

module _ (btc : Bitcoin) (hash : KeyHasher) (src : DataSource) where
  -- The script that an input reveals, run.
  unfoldable pub run_script : TxIn → Result (Option (ScriptResult SpaceScript))
  run_script input = elim (btc.tapscript input.witness) [
    | none ↦ ok none
    | some script ↦ eval hash src (btc.instructions script)
  ]

  -- The loop over the inputs from the index `n` on.
  unfoldable pub load_inputs : ℕ → List TxIn → Result (List InputContext)
  load_inputs n [] = ok []
  load_inputs n (input ∷ inputs) = src.get_spaceout input.previous_output >>= λ found. elim found [
    | none ↦ load_inputs (n + 1) inputs
    | some out ↦ run_script input >>= λ script. load_inputs (n + 1) inputs >>= λ rest.
        ok ((record { n = n; sstxo = out; script = script }) ∷ rest)
  ]

  -- The auctioned output, looked up for the bid that the transaction carries.
  unfoldable pub load_auctioned : Transaction → Result (Option AuctionedOutput)
  load_auctioned tx = get_bid_psbt btc tx.input tx.output >>= λ carried. elim carried [
    | none ↦ ok none
    | some out ↦ src.get_spaceout out.outpoint >>= λ found.
        ok (some (record { output = found; bid_psbt = out }))
  ]

  -- `TxContext::from_tx`
  unfoldable pub from_tx : Transaction → Result (Option TxContext)
  from_tx tx = spending_spaces src tx.input >>= λ spending.
      if spending
      then (load_auctioned tx >>= λ auctioned. load_inputs 0 tx.input >>= λ inputs.
          ok (some (record { inputs = inputs; auctioned_output = auctioned })))
      else if is_magic_lock_time tx.lock_time && any is_magic_output tx.output
      then ok (some (record { inputs = []; auctioned_output = none }))
      else ok none
