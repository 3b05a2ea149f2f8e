-- ===== src/Store.antt =====
-- node/src/store.rs: the state of the chain. `LiveSnapshot` stages changes in memory over a snapshot
-- of the database; a state is passed on explicitly. The database `spacedb` and the encoding of
-- values by bincode are parameters, and the locks are left out.
pub mod Overlay
pub mod Contents
pub mod Refines
pub mod Follows
use spaced.Base.{
  ℕ, Bool, true, false, List, [], ◌∷◌, Option, none, some, bytes_eq, ◌==◌, if◌then◌else◌, Result,
  ok, err, failed, io_error, anyhow, ◌>>=◌, ◌>>◌, expect, assert, not, ChainAnchor,
}
use spaced.Base.Loop.{for_each}
use spaced.Bitcoin.{OutPoint}
use spaced.Keys.{Hash, KeyHasher, outpoint_key_of}
use spaced.Keys.Order.{bytes_lt}
use spaced.Spaces.{SpaceOut, FullSpaceOut}
use spaced.Script.{DataSource}

-- What the code uses of the database.
pub record Spacedb : Type 1 where
  pub Db : Type 0
  pub ReadTx : Type 0
  pub begin_read : Db → Result ReadTx
  pub metadata : ReadTx → List ℕ
  pub get : ReadTx → Hash → Result (Option (List ℕ))
  pub iter : ReadTx → List (Result (Hash × List ℕ))
  pub WriteTx : Type 0
  pub begin_write : Db → Result WriteTx
  pub insert : WriteTx → Hash → List ℕ → Result WriteTx
  pub delete : WriteTx → Hash → Result WriteTx
  pub set_metadata : WriteTx → List ℕ → Result WriteTx
  pub commit : WriteTx → Result Db
  pub snapshots : Db → List (Result ReadTx)
  pub rollback : ReadTx → Result Db

-- The encodings of what is stored. `none` stands for a `DecodeError`.
pub record Codec : Type 0 where
  pub encode_spaceout : SpaceOut → List ℕ
  pub decode_spaceout : List ℕ → Option SpaceOut
  pub encode_outpoint : OutPoint → List ℕ
  pub decode_outpoint : List ℕ → Option OutPoint
  pub encode_key : Hash → List ℕ
  pub encode_anchor : ChainAnchor → List ℕ
  pub decode_anchor : List ℕ → Option ChainAnchor

-- `WriteMemory`: the staged changes, by key; `none` is a removal.
abbrev pub WriteMemory : Type 0
WriteMemory = List (Hash × Option (List ℕ))

-- `BTreeMap::insert` and `BTreeMap::get`
unfoldable pub memory_insert : Hash → Option (List ℕ) → WriteMemory → WriteMemory
memory_insert k v [] = (k, v) ∷ []
memory_insert k v ((j, w) ∷ m) =
    let rest = memory_insert k v m in
    if bytes_eq k j then (k, v) ∷ m else if bytes_lt k j then (k, v) ∷ (j, w) ∷ m else (j, w) ∷ rest

unfoldable pub memory_get : Hash → WriteMemory → Option (Option (List ℕ))
memory_get k [] = none
memory_get k ((j, w) ∷ m) = if bytes_eq k j then some w else memory_get k m

pub record Staged : Type 0 where
  pub snapshot_version : ℕ
  pub memory : WriteMemory

module _ (sdb : Spacedb) where
  pub record LiveSnapshot : Type 0 where
    pub db : sdb.Db
    pub tip : ChainAnchor
    pub staged : Staged
    pub snapshot : ℕ × sdb.ReadTx

-- `LiveSnapshot::is_dirty`
unfoldable pub is_dirty : {sdb : Spacedb} → LiveSnapshot sdb → Bool
is_dirty s = elim s.staged.memory [ [] ↦ false | _ ∷ _ ↦ true ]

-- `LiveSnapshot::restore`
unfoldable pub restore : {sdb : Spacedb} → ChainAnchor → LiveSnapshot sdb → LiveSnapshot sdb
restore checkpoint s = record s {
  tip = checkpoint;
  staged = record { snapshot_version = checkpoint.height; memory = [] };
}

-- `LiveSnapshot::insert_raw`
unfoldable pub insert_raw : {sdb : Spacedb} → Hash → List ℕ → LiveSnapshot sdb → LiveSnapshot sdb
insert_raw key value s = record s {
  staged = record (s.staged) { memory = memory_insert key (some value) s.staged.memory };
}

-- `LiveSnapshot::remove_raw`, and `remove`.
unfoldable pub remove_raw : {sdb : Spacedb} → Hash → LiveSnapshot sdb → LiveSnapshot sdb
remove_raw key s = record s {
  staged = record (s.staged) { memory = memory_insert key none s.staged.memory };
}

module _ (sdb : Spacedb) (codec : Codec) where
  -- `LiveSnapshot::update_snapshot`
  unfoldable pub update_snapshot : ℕ → LiveSnapshot sdb → Result (LiveSnapshot sdb)
  update_snapshot version s =
      if s.snapshot.0 == version
      then ok s
      else (sdb.begin_read s.db >>= λ tx. elim (codec.decode_anchor (sdb.metadata tx)) [
        | none ↦ err (failed (io_error "could not parse metdata"))
        | some anchor ↦
            assert (version == anchor.height) >> ok (record s { snapshot = (version, tx) })
      ])

  -- `LiveSnapshot::get_raw`
  unfoldable pub get_raw : Hash → LiveSnapshot sdb → Result (Option (List ℕ) × LiveSnapshot sdb)
  get_raw key s = elim (memory_get key s.staged.memory) [
    | some value ↦ ok (value, s)
    | none ↦ update_snapshot s.staged.snapshot_version s >>= λ s'.
        sdb.get s'.snapshot.1 key >>= λ value. ok (value, s')
  ]

  -- `LiveSnapshot::get`, with the decoder of the type that is read.
  unfoldable pub get :
      {A : Type 0}
      → (List ℕ → Option A)
      → Hash
      → LiveSnapshot sdb
      → Result (Option A × LiveSnapshot sdb)
  get decode key s = get_raw key s >>= λ (value, s'). elim value [
    | none ↦ ok (none, s')
    | some bytes ↦ elim (decode bytes) [
      | none ↦ err (failed (io_error "decode"))
      | some a ↦ ok (some a, s')
    ]
  ]

  module _ (hash : KeyHasher) where
    -- `DataSource for LiveSnapshot`
    unfoldable pub get_space_outpoint :
        Hash → LiveSnapshot sdb → Result (Option OutPoint × LiveSnapshot sdb)
    get_space_outpoint space_hash s = get codec.decode_outpoint space_hash s

    unfoldable pub get_spaceout :
        OutPoint → LiveSnapshot sdb → Result (Option SpaceOut × LiveSnapshot sdb)
    get_spaceout outpoint s = get codec.decode_spaceout (outpoint_key_of hash outpoint) s

    -- `ChainState::get_space_info`
    unfoldable pub get_space_info :
        Hash → LiveSnapshot sdb → Result (Option FullSpaceOut × LiveSnapshot sdb)
    get_space_info space_hash s = get_space_outpoint space_hash s >>= λ (found, s'). elim found [
      | none ↦ ok (none, s')
      | some outpoint ↦ get_spaceout outpoint s' >>= λ (out, s''). expect out >>= λ spaceout.
          ok (some (record { txid = outpoint.txid; spaceout = spaceout }), s'')
    ]

    -- The state as a data source. The snapshot that a read may renew is a cache.
    abbrev pub data_source : LiveSnapshot sdb → DataSource
    data_source s = record {
      get_space_outpoint = λ key. get_space_outpoint key s >>= λ (found, _). ok found;
      get_spaceout = λ outpoint. get_spaceout outpoint s >>= λ (found, _). ok found;
    }

  -- `ChainState::insert_spaceout`, `insert_space` and `update_bid`
  abbrev pub insert_spaceout : Hash → SpaceOut → LiveSnapshot sdb → LiveSnapshot sdb
  insert_spaceout key spaceout s = insert_raw key (codec.encode_spaceout spaceout) s

  abbrev pub insert_space : Hash → OutPoint → LiveSnapshot sdb → LiveSnapshot sdb
  insert_space key outpoint s = insert_raw key (codec.encode_outpoint outpoint) s

  unfoldable pub update_bid : Option Hash → Hash → Hash → LiveSnapshot sdb → LiveSnapshot sdb
  update_bid none bid space s = insert_raw bid (codec.encode_key space) s
  update_bid (some previous) bid space s =
      insert_raw bid (codec.encode_key space) (remove_raw previous s)

  -- One round of the loop of `commit`.
  unfoldable pub write_change : Hash × Option (List ℕ) → sdb.WriteTx → Result sdb.WriteTx
  write_change (key, none) tx = sdb.delete tx key
  write_change (key, some value) tx = sdb.insert tx key value

  -- `LiveSnapshot::commit`. The handle of the database is shared.
  unfoldable pub commit : ChainAnchor → sdb.WriteTx → LiveSnapshot sdb → Result (LiveSnapshot sdb)
  commit metadata tx s = for_each write_change s.staged.memory tx >>= λ tx'.
      sdb.set_metadata tx' (codec.encode_anchor metadata) >>= λ tx''. sdb.commit tx'' >>= λ db.
      ok (record s { db = db; staged = record { snapshot_version = metadata.height; memory = [] } })

  -- `LiveSnapshot::inner`
  unfoldable pub inner : LiveSnapshot sdb → Result (sdb.ReadTx × LiveSnapshot sdb)
  inner s = update_snapshot s.staged.snapshot_version s >>= λ s'. ok (s'.snapshot.1, s')

  -- `Store::begin`, with the version that the state starts from.
  unfoldable pub begin : ChainAnchor → sdb.Db → Result (LiveSnapshot sdb)
  begin genesis_block db = sdb.begin_read db >>= λ snapshot.
      start_anchor genesis_block (sdb.metadata snapshot) >>= λ anchor. ok (record {
        db = db;
        tip = anchor;
        staged = record { snapshot_version = anchor.height; memory = [] };
        snapshot = (anchor.height, snapshot);
      })
    where
      start_anchor : ChainAnchor → List ℕ → Result ChainAnchor
      start_anchor genesis [] = ok genesis
      start_anchor genesis (b ∷ bs) = elim (codec.decode_anchor (b ∷ bs)) [
        | none ↦ err (anyhow "could not parse chain anchor")
        | some anchor ↦ ok anchor
      ]
