-- ===== src/Tests/Prepared.antt =====
-- The theorems on scripts and on the preparation of a transaction at concrete inputs.
use spaced.Base.{
  ◌++◌, ℕ, ◌≡◌, ◌↔◌, refl, List, [], ◌∷◌, none, some, ok, false, ◌==◌, if◌then◌else◌, All, ◌>>=◌,
}
use spaced.Bitcoin.{op_drop, TxIn, Transaction, blocks}
use spaced.Label.Owned.{buffer}
use spaced.Spaces.{SpaceOut}
use spaced.Script.{
  op_setfallback, magic, set, DataSource, script_ok, opening, create_open, open_history,
}
use spaced.Script.Create.{pushed, eval-create_open}
use spaced.Prepare.{
  TxContext, from_tx, spending_spaces, load_auctioned, load_inputs, get_bid_psbt, run_script,
}
use spaced.Prepare.Inputs.{Loads}
use spaced.Prepare.Relevant.{IsUnknown, is_magic_tx, from_tx-Loads, from_tx-none_iff}
use spaced.Tests.Data.{toy, toy-IsBitcoin, toy_hash, text_ab, script_34}
use spaced.Tests.Labels.{text_ab-IsText}

-- An output that carries no space, and a source that knows it at the outpoint 3 of every transaction.
abbrev plain_out : SpaceOut
plain_out = record { n = 3; space = none; value = 662; script_pubkey = script_34 }

abbrev toy_source : DataSource
toy_source = record {
  get_space_outpoint = λ key. ok none;
  get_spaceout = λ at. ok (if at.vout == 3 then some plain_out else none);
}

abbrev spend_of : ℕ → TxIn
spend_of vout = record {
  previous_output = record { txid = 9 ∷ []; vout = vout };
  script_sig = [];
  sequence = 0;
  witness = [];
}

-- A script that sets one byte of data.
abbrev set_7 : List ℕ
set_7 = op_drop ∷ magic ++ (op_setfallback ∷ 7 ∷ [])

-- A transaction whose second input spends that output and reveals the script, and one that spends nothing known.
abbrev relevant : Transaction
relevant = record {
  version = 2;
  lock_time = blocks 0;
  input = spend_of 0 ∷ record (spend_of 3) { witness = [] ∷ set_7 ∷ [] } ∷ [];
  output = (record { value = 1000; script_pubkey = script_34 }) ∷ [];
}

abbrev irrelevant : Transaction
irrelevant = record relevant { input = spend_of 0 ∷ [] }

abbrev loaded : TxContext
loaded = record {
  inputs = (record { n = 1; sstxo = plain_out; script = some (script_ok (set (7 ∷ []))) }) ∷ [];
  auctioned_output = none;
}

relevant-loaded : from_tx toy toy_hash toy_source relevant ≡ ok (some loaded)
unfolding from_tx spending_spaces load_auctioned load_inputs get_bid_psbt run_script
    spaced.Script.eval spaced.Script.eval_op spaced.Script.find_space_script
    spaced.Script.strip_magic spaced.Label.starts_with
relevant-loaded = refl

from_tx-Loads_example : Loads toy toy_hash toy_source 0 relevant.input loaded.inputs
from_tx-Loads_example = from_tx-Loads toy toy_hash toy_source relevant loaded relevant-loaded

from_tx-none_iff_example :
    (from_tx toy toy_hash toy_source irrelevant ≡ ok none)
    ↔ (All (IsUnknown toy_source) irrelevant.input × (is_magic_tx irrelevant ≡ false))
from_tx-none_iff_example = from_tx-none_iff toy toy_hash toy_source irrelevant

eval-create_open_example :
    (script : List ℕ) × (create_open (buffer text_ab) ≡ ok script)
    × (pushed toy toy_hash toy_source script ≡ (
        open_history toy_hash toy_source (2 ∷ text_ab) >>= λ kind.
        ok (some (script_ok (opening kind)))))
unfolding open_history spaced.Base.Tests.bytes_eq
eval-create_open_example =
    eval-create_open toy toy_hash toy_source toy-IsBitcoin text_ab text_ab-IsText
