-- ===== src/Tests/Checked.antt =====
-- The theorem on the checker at a concrete transaction.
use spaced.Checker.Overlay.{IsOverlay}
use spaced.Checker.Safe.{check_apply_tx-IsSafe, IsSafe}
use spaced.Validate.Process.{process}
use spaced.Prepare.{TxContext, from_tx}
use spaced.Tests.Data.{toy_hash, toy, script_34}
use spaced.Tests.Stored.{clean, toy_codec, toy_db}
use spaced.Base.{refl, ok, ◌≡◌, some, [], none, ◌∷◌}
use spaced.Validate.{TxChangeSet}
use spaced.Checker.{
  checker_source, apply_changes, check, new_checker, try_tx, check_apply_tx, TxChecker,
}
use spaced.Bitcoin.{seconds, Transaction}
use spaced.Spaces.{SpaceOut}

-- A transaction with an output that the protocol tracks.
abbrev tracked_tx : Transaction
tracked_tx = record {
  version = 2;
  lock_time = seconds 500_000_222;
  input = [];
  output = (record { value = 662; script_pubkey = script_34 }) ∷ [];
}

abbrev tracked_out : SpaceOut
tracked_out = record { n = 0; space = none; value = 662; script_pubkey = script_34 }

abbrev tracked_set : TxChangeSet
tracked_set = record { txid = 1 ∷ []; spends = []; creates = tracked_out ∷ []; updates = [] }

abbrev before_check : TxChecker toy_db
before_check = new_checker toy_db toy_codec toy toy_hash clean

abbrev after_check : TxChecker toy_db
after_check = record before_check {
  spaceouts = ((record { txid = 1 ∷ []; vout = 0 }), some tracked_out) ∷ [];
}

check_apply_tx-IsSafe_example :
    (ctx : TxContext) × (from_tx toy toy_hash
        (checker_source toy_db toy_codec toy toy_hash before_check)
        tracked_tx
      ≡ ok (some ctx))
    × (process toy 10 tracked_tx ctx ≡ ok tracked_set)
    × IsOverlay toy_db toy_codec toy toy_hash tracked_tx tracked_set before_check after_check
    × IsSafe tracked_set
unfolding check_apply_tx try_tx from_tx spaced.Prepare.spending_spaces check process
    spaced.Validate.Process.process_inputs spaced.Validate.Process.track_outputs
    spaced.Validate.Process.track_output spaced.Validate.Process.apply_covenants apply_changes
    spaced.Base.Loop.for_each spaced.Checker.check_create
check_apply_tx-IsSafe_example =
    check_apply_tx-IsSafe toy_db toy_codec toy toy_hash 10 tracked_tx before_check after_check
      tracked_set refl
