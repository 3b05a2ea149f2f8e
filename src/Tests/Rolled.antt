-- ===== src/Tests/Rolled.antt =====
-- The theorems on opens, rollouts and reserved spaces at concrete inputs.
use spaced.Base.{◌≤◌, ◌≡◌, inl, refl, [], ◌∷◌, none, some, arith, ok, err, panic, true, replicate}
use spaced.Bitcoin.{Transaction}
use spaced.Label.Owned.{buffer}
use spaced.Spaces.{FullSpaceOut, bid, reserved}
use spaced.Spaces.Signing.{verify_bid_sig}
use spaced.Script.{script_ok, opening, new_space}
use spaced.Validate.{TxChangeSet, UpdateOut, bid_update, no_changes, push_update}
use spaced.Validate.Opening.{process_open, open_history, open_name, detach_existing_space}
use spaced.Validate.Openings.{OpenCase, process_open-OpenCase}
use spaced.Validate.Process.{process}
use spaced.Validate.Rollout.{rollout, rollout_entry, rolling}
use spaced.Validate.Batch.{Rolls, rollout-Rolls, rollout_total}
use spaced.Validate.Panics.{process-reserved_panics}
use spaced.Tests.Data.{toy, text_ab}
use spaced.Tests.Validated.{holder, spend_0, moving, waiting_bid, waiting_space, carried, spent_0}

-- The carried bid opens the auction of a new name.
abbrev first_bid : UpdateOut
first_bid = record {
  kind = bid_update;
  output = record {
    txid = 9 ∷ [];
    spaceout = holder 4 (
        some (record {
          name = buffer text_ab;
          covenant = bid (record {
            burn_increment = 500;
            signature = replicate 64 6;
            total_burned = 500;
            claim_height = none;
          });
        }));
  };
}

process_open-OpenCase_example :
    OpenCase toy 0 1000
      (new_space (buffer text_ab))
      (some carried)
      spent_0
      none
      (push_update first_bid spent_0)
unfolding process_open open_history open_name detach_existing_space spaced.Validate.position
    verify_bid_sig spaced.Spaces.Signing.refund_signing_info
process_open-OpenCase_example =
    process_open-OpenCase toy 0 1000 (new_space (buffer text_ab)) (some carried) none spent_0
      (push_update first_bid spent_0) refl

-- A rollout of one space.
abbrev coinbase_tx : Transaction
coinbase_tx = record moving { input = [] }

abbrev pub waiting_entry : FullSpaceOut
waiting_entry = record { txid = 9 ∷ []; spaceout = holder 4 (some waiting_space) }

abbrev rolled_changes : TxChangeSet
rolled_changes =
    push_update (rolling 1000 waiting_entry waiting_space waiting_bid) (no_changes (1 ∷ []))

rollout-Rolls_example :
    (toy.is_coinbase coinbase_tx ≡ true)
    × (1 ≤ 10)
    × (rolled_changes.spends ≡ [])
    × (rolled_changes.creates ≡ [])
    × Rolls 1000 (waiting_entry ∷ []) rolled_changes.updates
unfolding rollout rollout_entry spaced.Base.Loop.for_each spaced.Validate.Rollout.is_none
rollout-Rolls_example = rollout-Rolls toy 1000 coinbase_tx (waiting_entry ∷ []) rolled_changes refl

rollout_total_example :
    (cs : TxChangeSet) × (rollout toy 1000 coinbase_tx (waiting_entry ∷ []) ≡ ok cs)
rollout_total_example =
    rollout_total toy 1000 coinbase_tx (waiting_entry ∷ []) refl (omega arith)
      ((waiting_space, waiting_bid, refl, refl, refl), tt)

process-reserved_panics_example :
    process toy 1000 moving (record {
      inputs =
          (record {
            n = 0;
            sstxo = holder 0 (some (record { name = buffer text_ab; covenant = reserved }));
            script = some (script_ok (opening (new_space (buffer text_ab))));
          })
          ∷ [];
      auctioned_output = none;
    })
    ≡ err panic
process-reserved_panics_example =
    process-reserved_panics toy 1000 moving
      (record {
        n = 0;
        sstxo = holder 0 (some (record { name = buffer text_ab; covenant = reserved }));
        script = some (script_ok (opening (new_space (buffer text_ab))));
      })
      [] none (record { name = buffer text_ab; covenant = reserved }) spend_0 refl refl refl
      (inl (new_space (buffer text_ab), refl))
