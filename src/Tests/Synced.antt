-- ===== src/Tests/Synced.antt =====
-- The theorems on blocks and the synchronisation at concrete inputs.
use spaced.Node.Advance.{apply_block-Advances}
use spaced.Tests.Committed.{toy_db-IsSpacedb}
use spaced.Tests.Data.{toy_hash, toy}
use spaced.Validate.{add_u32}
use spaced.Keys.Order.{bid_keys_last}
use spaced.Tests.Stored.{toy_codec, clean, toy_db}
use spaced.Bitcoin.{blocks, Transaction}
use spaced.Store.Refines.{IsState}
use spaced.Keys.Bytes.{IsHash}
use spaced.Base.{take, arith, map, false, none, ◌≡◌, ◌∷◌, ok, refl, [], Result, replicate, List, ℕ}
use spaced.Keys.{space_key, bid_key, Hash}
use spaced.Store.{restore, is_dirty, LiveSnapshot}
use spaced.Sync.Reachable.{mismatch_event, at_start, after, rollout_starts_clean, Reach}
use spaced.Node.Listing.{load_batch-pool, pool, load_entries, name_key, pool_key, Descends}
use spaced.Node.Block.{Block, BlockMeta, load_batch, apply_block}
use spaced.Sync.Restored.{Restores, restore_chain-newest}
use spaced.Sync.{restore_chain, restore_to, restore_from, Spaced}

abbrev none_wanted : BlockMeta → List ℕ
none_wanted block = []

-- A block on the tip of `clean`, whose one transaction is a coinbase: a rollout is due.
abbrev coinbase_tx : Transaction
coinbase_tx = record { version = 2; lock_time = blocks 0; input = []; output = [] }

abbrev block_1 : Block
block_1 = record { prev_blockhash = []; txdata = coinbase_tx ∷ [] }

abbrev clean-IsState : IsState toy_db toy_codec toy_db-IsSpacedb clean
clean-IsState = record { sorted = tt; fresh = λ e k. refl }

abbrev advanced : LiveSnapshot toy_db
advanced = record clean { tip = record { hash = 4 ∷ []; height = 1 } }

apply_block-Advances_example :
    (clean.tip.hash ≡ block_1.prev_blockhash)
    × (add_u32 0 1 ≡ 1)
    × (advanced.tip ≡ record { hash = 4 ∷ []; height = 1 })
    × (advanced.db ≡ clean.db)
    × (advanced.staged.snapshot_version ≡ clean.staged.snapshot_version)
    × IsState toy_db toy_codec toy_db-IsSpacedb advanced
unfolding apply_block spaced.Node.Block.apply_rollout_batch spaced.Node.Block.get_rollout_batch
    spaced.Node.Block.load_batch spaced.Node.Block.rollout_next spaced.Store.inner
    spaced.Store.update_snapshot spaced.Store.is_dirty spaced.Base.Tests.bytes_eq
    spaced.Validate.Rollout.rollout spaced.Base.Loop.for_each spaced.Node.apply_tx
    spaced.Node.Block.tx_entry spaced.Node.Block.apply_transactions
    spaced.Node.Block.apply_transaction spaced.Prepare.from_tx spaced.Prepare.spending_spaces
apply_block-Advances_example =
    apply_block-Advances toy_db toy_codec toy_db-IsSpacedb toy toy_hash false 1 false (4 ∷ [])
      block_1 none clean advanced clean-IsState refl

-- A listing with a bid above a name.
abbrev name_2 : Hash
name_2 = replicate 32 2

pub name_2-IsHash : IsHash name_2
name_2-IsHash = record { size = refl; bytes = refl }

abbrev listing : List (Hash × List ℕ)
listing = (bid_key 7 name_2, space_key name_2) ∷ (space_key name_2, 5 ∷ []) ∷ []

listing-Descends : Descends listing
listing-Descends = (
  pool_key 7 name_2,
  (bid_keys_last 7 name_2 name_2 name_2-IsHash).0,
  name_key name_2 name_2-IsHash,
)

load_batch-pool_example :
    load_batch toy_db toy_codec toy toy_hash 2 (map ok listing) clean
    ≡ load_entries toy_db toy_codec toy toy_hash (take 2 (pool listing)) clean
load_batch-pool_example =
    load_batch-pool toy_db toy_codec toy toy_hash 2 listing clean listing-Descends

-- A state that is rolled back to the one commit that its database has.
abbrev ahead : Spaced toy_db
ahead = record {
  chain = record clean {
    tip = record { hash = 9 ∷ []; height = 5 };
    staged = record { snapshot_version = 0; memory = (replicate 32 3, none) ∷ [] };
  };
  block_index = none;
}

abbrev rolled : Spaced toy_db
rolled = record { chain = clean; block_index = none }

abbrev source_hash : ℕ → Result (List ℕ)
source_hash height = ok []

restored : restore_chain toy_db toy_codec source_hash ahead ≡ ok rolled
unfolding restore_from restore_to restore spaced.Base.Tests.bytes_eq
restored = refl

restore_chain-newest_example :
    Restores toy_db toy_codec source_hash (toy_db.snapshots clean.db) rolled
restore_chain-newest_example =
    restore_chain-newest toy_db toy_codec source_hash ahead rolled restored

-- A run of one roll back.
restored_again : restore_chain toy_db toy_codec source_hash rolled ≡ ok rolled
unfolding restore_from restore_to restore spaced.Base.Tests.bytes_eq
restored_again = refl

run_back : Reach toy_db toy_codec toy toy_hash none_wanted false rolled rolled
run_back = after rolled rolled at_start (mismatch_event source_hash rolled rolled restored_again)

rollout_starts_clean_example : is_dirty clean ≡ false
rollout_starts_clean_example =
    rollout_starts_clean toy_db toy_codec toy toy_hash none_wanted false rolled rolled
      (record { hash = 4 ∷ []; height = 1 }) refl run_back (omega arith) refl refl
