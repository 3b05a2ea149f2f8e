-- ===== src/Validate/Rollout.antt =====
-- `Validator::rollout`: the auctions of a batch of spaces begin.
use spaced.Base.{
  ℕ, Bool, List, Option, none, some, Result, ok, err, panic, ◌>>=◌, ◌>>◌, expect, assert, leb,
  length,
}
use spaced.Base.Loop.{for_each}
use spaced.Bitcoin.{Bitcoin, Transaction}
use spaced.Spaces.{Space, FullSpaceOut, bid, transfer, reserved, Bid}
use spaced.Spaces.Constants.{auction_duration, rollout_batch_size}
use spaced.Validate.{UpdateOut, no_changes, TxChangeSet, rolled_out, push_update, add_u32}

-- An entry with the end of its auction set.
abbrev pub started : ℕ → FullSpaceOut → Space → Bid → FullSpaceOut
started height entry space b = record entry {
  spaceout = record (entry.spaceout) {
    space = some (record space {
      covenant = bid (record b { claim_height = some (add_u32 height auction_duration) });
    });
  };
}

-- The update of an entry: the total burned so far is its priority.
abbrev pub rolling : ℕ → FullSpaceOut → Space → Bid → UpdateOut
rolling height entry space b = record {
  kind = rolled_out b.total_burned;
  output = started height entry space b;
}

unfoldable pub is_none : Option ℕ → Bool
is_none none = spaced.Base.true
is_none (some h) = spaced.Base.false

-- One round of the loop.
unfoldable pub rollout_entry : ℕ → FullSpaceOut → TxChangeSet → Result TxChangeSet
unfolding is_none
rollout_entry height entry cs = expect entry.spaceout.space >>= λ space. elim space.covenant [
  | bid b ↦
      assert (is_none b.claim_height)
      >> ok (
          push_update
            (record { kind = rolled_out b.total_burned; output = started height entry space b }) cs)
  | transfer _ _ ↦ err panic
  | reserved ↦ err panic
]

unfoldable pub rollout : Bitcoin → ℕ → Transaction → List FullSpaceOut → Result TxChangeSet
rollout btc height coinbase entries =
    assert (btc.is_coinbase coinbase)
    >> (assert (leb (length entries) rollout_batch_size)
        >> for_each (rollout_entry height) entries (no_changes (btc.compute_txid coinbase)))
