-- ===== src/Sync.antt =====
-- node/src/sync.rs: blocks are applied to the state and committed at intervals, and a reorganised
-- chain is rolled back to the newest commit that is still on it. The block source is a parameter, and
-- the encoding of the data of a block another.
pub mod Reachable
pub mod Restored
use spaced.Keys.{KeyHasher}
use spaced.Node.Block.{apply_block, Block, BlockMeta}
use spaced.Bitcoin.{Bitcoin}
use spaced.Base.{
  [], is_some, ◌>>◌, ◌&&◌, ◌+◌, ◌==◌, bytes_eq, Bool, length, ◌∷◌, ◌%◌, assert, anyhow, some,
  if◌then◌else◌, none, get_elem?, panic, ◌>>=◌, Option, err, ChainAnchor, List, ok, Result, ℕ,
}
use spaced.Store.{insert_raw, restore, commit, LiveSnapshot, Codec, Spacedb}

abbrev pub commit_block_interval : ℕ
commit_block_interval = 36

module _ (sdb : Spacedb) where
  -- `Spaced`, the part of it that the synchronisation changes.
  pub record Spaced : Type 0 where
    pub chain : LiveSnapshot sdb
    pub block_index : Option (LiveSnapshot sdb)

-- `expect` on a result.
abbrev pub expect_ok : {A : Type 0} → Result A → Result A
expect_ok (ok a) = ok a
expect_ok (err fault) = err panic

module _ (sdb : Spacedb) (codec : Codec) where
  -- `ChainAnchor::try_from` on the metadata of a snapshot.
  abbrev pub anchor_of : sdb.ReadTx → Result ChainAnchor
  anchor_of snapshot = elim (codec.decode_anchor (sdb.metadata snapshot)) [
    | none ↦ err (anyhow "could not parse chain anchor")
    | some anchor ↦ ok anchor
  ]

  -- The roll back of a state to a snapshot. The database is shared by the store and the state.
  abbrev pub roll_back : sdb.ReadTx → ChainAnchor → LiveSnapshot sdb → Result (LiveSnapshot sdb)
  roll_back snapshot checkpoint s =
      sdb.rollback snapshot >>= λ db. ok (restore checkpoint (record s { db = db }))

  -- The block index follows the chain to the snapshot at the same position.
  unfoldable pub restore_index : ℕ → ChainAnchor → LiveSnapshot sdb → Result (LiveSnapshot sdb)
  restore_index snapshot_index chain_checkpoint index =
      elim (get_elem? (sdb.snapshots index.db) snapshot_index) [
        | none ↦ err (anyhow "Could not restore block index due to missing snapshot")
        | some found ↦ found >>= λ index_snapshot. anchor_of index_snapshot >>= λ index_checkpoint.
            if bytes_eq index_checkpoint.hash chain_checkpoint.hash
              && index_checkpoint.height == chain_checkpoint.height
            then roll_back index_snapshot chain_checkpoint index
            else err (anyhow "block index checkpoint does not match the chain's checkpoint")
      ]

  -- What is done for the snapshot that is on the chain.
  unfoldable pub restore_to : ℕ → sdb.ReadTx → ChainAnchor → Spaced sdb → Result (Spaced sdb)
  restore_to snapshot_index chain_snapshot chain_checkpoint s = elim s.block_index [
    | none ↦ roll_back chain_snapshot chain_checkpoint s.chain >>= λ chain.
        ok (record { chain = chain; block_index = none })
    | some index ↦ restore_index snapshot_index chain_checkpoint index >>= λ index'.
        roll_back chain_snapshot chain_checkpoint s.chain >>= λ chain.
        ok (record { chain = chain; block_index = some index' })
  ]

  -- The loop over the snapshots, from a position on; `get_block_hash` is the block source's.
  unfoldable pub restore_from :
      (ℕ → Result (List ℕ)) → ℕ → List (Result sdb.ReadTx) → Spaced sdb → Result (Spaced sdb)
  restore_from get_block_hash snapshot_index [] s =
      err (anyhow "Unable to restore to a valid state")
  restore_from get_block_hash snapshot_index (snapshot ∷ snapshots) s =
      let rest = restore_from get_block_hash (snapshot_index + 1) snapshots s in
      snapshot >>= λ chain_snapshot. anchor_of chain_snapshot >>= λ chain_checkpoint.
      get_block_hash chain_checkpoint.height >>= λ required_hash.
      if bytes_eq required_hash chain_checkpoint.hash
      then restore_to snapshot_index chain_snapshot chain_checkpoint s
      else rest

  -- `Spaced::restore`
  abbrev pub restore_chain : (ℕ → Result (List ℕ)) → Spaced sdb → Result (Spaced sdb)
  restore_chain get_block_hash s = restore_from get_block_hash 0 (sdb.snapshots s.chain.db) s

  -- `Spaced::save_block`: the data of a block under its hash, which is copied into 32 bytes.
  unfoldable pub save_block :
      (BlockMeta → List ℕ) → List ℕ → BlockMeta → LiveSnapshot sdb → Result (LiveSnapshot sdb)
  save_block encode_block block_hash block store =
      assert (length block_hash == 32) >> ok (insert_raw block_hash (encode_block block) store)

  -- The saving of the data of a block, where there is an index and there is data.
  unfoldable pub save_result :
      (BlockMeta → List ℕ)
      → List ℕ
      → Option BlockMeta
      → Option (LiveSnapshot sdb)
      → Result (Option (LiveSnapshot sdb))
  save_result encode_block block_hash none index = ok index
  save_result encode_block block_hash (some block) none = ok none
  save_result encode_block block_hash (some block) (some store) =
      save_block encode_block block_hash block store >>= λ store'. ok (some store')

  -- A commit in a transaction of the state's own database.
  abbrev pub commit_state : ChainAnchor → LiveSnapshot sdb → Result (LiveSnapshot sdb)
  commit_state state_meta s =
      expect_ok (sdb.begin_write s.db) >>= λ tx. commit sdb codec state_meta tx s

  unfoldable pub commit_index :
      ChainAnchor → Option (LiveSnapshot sdb) → Result (Option (LiveSnapshot sdb))
  commit_index state_meta none = ok none
  commit_index state_meta (some index) =
      commit_state state_meta index >>= λ index'. ok (some index')

  -- The commits of a block at a multiple of the interval.
  unfoldable pub commit_block : ChainAnchor → Spaced sdb → Result (Spaced sdb)
  commit_block id s =
      if id.height % commit_block_interval == 0
      then (commit_state id s.chain >>= λ chain. commit_index id s.block_index >>= λ index.
          ok (record { chain = chain; block_index = index }))
      else ok s

  module _ (btc : Bitcoin) (hash : KeyHasher) (encode_block : BlockMeta → List ℕ)
      (tx_data : Bool) where
    -- `Spaced::handle_block`; `tx_data` is the node's.
    unfoldable pub handle_block : ChainAnchor → Block → Spaced sdb → Result (Spaced sdb)
    handle_block id block s =
        apply_block sdb codec btc hash tx_data id.height (is_some s.block_index) id.hash block
          s.chain
        >>= λ (block_result, chain).
            save_result encode_block id.hash block_result s.block_index >>= λ index.
            commit_block id (record { chain = chain; block_index = index })
