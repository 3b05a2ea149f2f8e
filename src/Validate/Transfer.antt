-- ===== src/Validate/Transfer.antt =====
-- `Validator::process_transfer`: the space of input N moves to output N + 1.
use spaced.Base.{ℕ, ◌+◌, Option, none, some, Result, ok, ◌>>=◌, expect, get_elem?, if◌then◌else◌}
use spaced.Bitcoin.{Transaction, TxOut}
use spaced.Spaces.{SpaceOut, Space, Bytes, transfer, bad_spend}
use spaced.Spaces.Constants.{renewal_interval}
use spaced.Validate.{TxChangeSet, push_update, push_create, revocation, add_u32, creates_at}

-- The space output that output `n` of the transaction becomes.
abbrev pub transferred : ℕ → ℕ → TxOut → SpaceOut → Space → Option Bytes → SpaceOut
transferred height n output spaceout space existing_data = record {
  n = n;
  space =
      some (record space { covenant = transfer (add_u32 height renewal_interval) existing_data });
  value = output.value;
  script_pubkey = output.script_pubkey;
}

unfoldable pub process_transfer :
    ℕ → Transaction → ℕ → SpaceOut → Option Bytes → TxChangeSet → Result TxChangeSet
process_transfer height tx input_index spaceout existing_data cs =
    expect (get_elem? tx.input input_index) >>= λ input.
    elim (get_elem? tx.output (input_index + 1)) [
      | none ↦ ok (push_update (revocation bad_spend input.previous_output.txid spaceout) cs)
      | some output ↦
          if creates_at (input_index + 1) cs.creates
          then ok (push_update (revocation bad_spend input.previous_output.txid spaceout) cs)
          else (expect spaceout.space >>= λ space. ok (
              push_create (transferred height (input_index + 1) output spaceout space existing_data)
                cs))
    ]
