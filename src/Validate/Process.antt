-- ===== src/Validate/Process.antt =====
-- `Validator::process`: the change set of one transaction.
use spaced.Base.{
  ℕ, ◌+◌, Bool, true, false, not, ◌&&◌, List, [], ◌∷◌, ◌++◌, map, Option, none, some, Result, ok,
  ◌>>=◌, if◌then◌else◌, any,
}
use spaced.Base.Loop.{for_each}
use spaced.Bitcoin.{Bitcoin, Transaction, TxIn, TxOut, outpoint_eq}
use spaced.Spaces.{SpaceOut, bid, transfer, reserved, is_empty, Bytes}
use spaced.Script.{ScriptResult, script_ok, script_err, SpaceScript, opening, set, reserve}
use spaced.Prepare.{AuctionedOutput, InputContext, TxContext, is_magic_output}
use spaced.Validate.{no_changes, TxChangeSet, set_last_error, creates_at}
use spaced.Validate.Spend.{process_spend}
use spaced.Validate.Opening.{process_open}

-- `Validator::clear_auctioned_spent`
unfoldable pub clear_auctioned_spent : List TxIn → Option AuctionedOutput → Option AuctionedOutput
clear_auctioned_spent inputs none = none
clear_auctioned_spent inputs (some auctioned) =
    if any (λ input. outpoint_eq input.previous_output auctioned.bid_psbt.outpoint) inputs
    then some (record auctioned { output = none })
    else some auctioned

-- The variables of the loop over the inputs.
pub record Progress : Type 0 where
  pub auctioned : Option AuctionedOutput
  pub changeset : TxChangeSet
  pub space_data : Bytes
  pub reserving : Bool

-- `changeset.spends.push(…)`
abbrev pub push_spend : ℕ → TxChangeSet → TxChangeSet
push_spend n cs = record cs { spends = cs.spends ++ ((record { n = n; script_error = none }) ∷ []) }

module _ (btc : Bitcoin) (height : ℕ) (tx : Transaction) where
  -- The script of an input, once its spend is processed.
  unfoldable pub process_script : ℕ → Option (ScriptResult SpaceScript) → Progress → Result Progress
  process_script n none p = ok p
  process_script n (some (script_ok (opening history))) p =
      process_open btc n height history p.auctioned p.changeset >>= λ (auctioned, cs).
      ok (record p { auctioned = auctioned; changeset = cs })
  process_script n (some (script_ok (set bytes))) p = ok (record p { space_data = bytes })
  process_script n (some (script_ok reserve)) p = ok (record p { reserving = true })
  process_script n (some (script_err e)) p = set_last_error e p.changeset.spends >>= λ spends.
      ok (record p { changeset = record (p.changeset) { spends = spends } })

  -- One round of the loop.
  unfoldable pub process_input : InputContext → Progress → Result Progress
  process_input input p =
      process_spend btc height tx p.auctioned input.n input.sstxo (push_spend input.n p.changeset)
      >>= λ (auctioned, cs).
          process_script input.n input.script (record p { auctioned = auctioned; changeset = cs })

  -- All rounds, from an empty change set.
  unfoldable pub process_inputs : TxContext → Result Progress
  process_inputs ctx = for_each process_input ctx.inputs (record {
    auctioned = clear_auctioned_spent tx.input ctx.auctioned_output;
    changeset = no_changes (btc.compute_txid tx);
    space_data = [];
    reserving = false;
  })

-- The body of the loop that reserves transferred spaces.
unfoldable pub reserve_output : SpaceOut → SpaceOut
reserve_output out = elim out.space [
  | none ↦ out
  | some space ↦ elim space.covenant [
    | bid _ ↦ out
    | transfer _ _ ↦ record out { space = some (record space { covenant = reserved }) }
    | reserved ↦ out
  ]
]

-- The body of the loop that sets the data of transferred spaces.
unfoldable pub set_data : Bytes → SpaceOut → SpaceOut
set_data space_data out = elim out.space [
  | none ↦ out
  | some space ↦ elim space.covenant [
    | bid _ ↦ out
    | transfer expire_height _ ↦ record out {
      space = some (record space { covenant = transfer expire_height (some space_data) });
    }
    | reserved ↦ out
  ]
]

unfoldable pub apply_covenants : Bool → Bytes → List SpaceOut → List SpaceOut
apply_covenants reserving space_data creates =
    let creates' = if reserving then map reserve_output creates else creates in
    if is_empty space_data then creates' else map (set_data space_data) creates'

-- The entry of an output that is tracked, and carries no space.
abbrev pub tracked : ℕ → TxOut → SpaceOut
tracked n output = record {
  n = n;
  space = none;
  value = output.value;
  script_pubkey = output.script_pubkey;
}

-- One round of the loop over the outputs: a magic output that has no entry gets one.
unfoldable pub track_output : ℕ → TxOut → List SpaceOut → List SpaceOut
track_output n output creates =
    if not (creates_at n creates) && is_magic_output output
    then creates ++ (tracked n output ∷ [])
    else creates

-- The loop over the outputs, from the index `n` on.
unfoldable pub track_outputs : ℕ → List TxOut → List SpaceOut → List SpaceOut
track_outputs n [] creates = creates
track_outputs n (output ∷ outputs) creates =
    track_outputs (n + 1) outputs (track_output n output creates)

unfoldable pub process : Bitcoin → ℕ → Transaction → TxContext → Result TxChangeSet
process btc height tx ctx = process_inputs btc height tx ctx >>= λ p. ok (record (p.changeset) {
  creates =
      track_outputs 0 tx.output (apply_covenants p.reserving p.space_data p.changeset.creates);
})
