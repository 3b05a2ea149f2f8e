-- ===== src/Node/Found.antt =====
-- A space that a transaction creates is found under its name.
use spaced.Base.{
  ℕ, ◌≡◌, refl, Bool-cases, inl, inr, bytes_eq, bytes_eq→eq, bytes_eq_refl, List, ◌++◌, some, ok,
  arith,
}
use spaced.Bitcoin.{Bitcoin, OutPoint}
use spaced.Label.{as_ref}
use spaced.Keys.{Hash, KeyHasher, space_key, outpoint_key_of, to_be_bytes}
use spaced.Keys.Bytes.{IsHash}
use spaced.Keys.Kinds.{keys_distinct}
use spaced.Spaces.{SpaceOut, Space, Covenant, bid, transfer, reserved, as_u32}
use spaced.Store.{
  Spacedb, Codec, LiveSnapshot, insert_raw, insert_space, insert_spaceout, get_space_info,
  get_space_outpoint, get_spaceout, memory_get,
}
use spaced.Store.Overlay.{memory_get-memory_insert, get-staged}
use spaced.Node.{apply_create}

-- What is encoded is decoded.
pub record IsCodec (codec : Codec) : Type 0 where
  pub decode_spaceout_lem :
      (out : SpaceOut) → codec.decode_spaceout (codec.encode_spaceout out) ≡ some out
  pub decode_outpoint_lem :
      (at : OutPoint) → codec.decode_outpoint (codec.encode_outpoint at) ≡ some at

module _ (sdb : Spacedb) (codec : Codec) (btc : Bitcoin) (hash : KeyHasher) where
  -- The state with the entries of a created space.
  abbrev entered : Hash → OutPoint → SpaceOut → LiveSnapshot sdb → LiveSnapshot sdb
  entered base_hash at create s =
      insert_spaceout sdb codec (outpoint_key_of hash at) create
        (insert_space sdb codec (space_key base_hash) at s)

  covenant-entered :
      (txid : List ℕ) (create : SpaceOut) (space : Space) (c : Covenant) (bytes : List ℕ)
      (s s' : LiveSnapshot sdb)
      → create.space ≡ some space
      → space.covenant ≡ c
      → as_ref space.name ≡ ok bytes
      → apply_create sdb codec btc hash txid create s ≡ ok s'
      → s' ≡ entered (hash bytes) (record { txid = txid; vout = as_u32 create.n }) create s
  unfolding apply_create
  covenant-entered txid create space (bid b) bytes s s' there c name h =
      absurd (ground (arith, h, there, c))
  covenant-entered txid create space (transfer x y) bytes s s' there c name h =
      ground (arith, h, there, c, name)
  covenant-entered txid create space reserved bytes s s' there c name h =
      ground (arith, h, there, c, name)

  entered-found :
      IsCodec codec
      → ((bytes : List ℕ) → IsHash (hash bytes))
      → (bytes : List ℕ) (at : OutPoint) (create : SpaceOut) (s : LiveSnapshot sdb)
      → get_space_info sdb codec hash (space_key (hash bytes)) (entered (hash bytes) at create s)
        ≡ ok (some (record { txid = at.txid; spaceout = create }), entered (hash bytes) at create s)
  unfolding get_space_info get_space_outpoint get_spaceout insert_raw outpoint_key_of
  entered-found laws hashes bytes at create s =
      let ks = space_key (hash bytes) in
      let ko = outpoint_key_of hash at in
      let t = entered (hash bytes) at create s in
      let m = (insert_space sdb codec ks at s).staged.memory in
      elim (Bool-cases (bytes_eq ks ko)) [
        | inl same ↦ absurd (
            (keys_distinct 0 (hash bytes) (hash (at.txid ++ to_be_bytes at.vout)) (hash bytes)
                (hashes bytes) (hashes (at.txid ++ to_be_bytes at.vout))).0
              (bytes_eq→eq ks ko same))
        | inr other ↦
            let e₁ : memory_get ks t.staged.memory ≡ some (some (codec.encode_outpoint at)) =
              ground (
                arith,
                memory_get-memory_insert ko ks (some (codec.encode_spaceout create)) m,
                memory_get-memory_insert ks ks (some (codec.encode_outpoint at)) s.staged.memory,
                bytes_eq_refl ks,
                other,
              ) in
            let e₂ : memory_get ko t.staged.memory ≡ some (some (codec.encode_spaceout create)) =
              ground (
                arith,
                memory_get-memory_insert ko ko (some (codec.encode_spaceout create)) m,
                bytes_eq_refl ko,
              ) in
            rw
              (
                get-staged sdb codec codec.decode_outpoint ks t e₁ (laws.decode_outpoint_lem at),
                get-staged sdb codec codec.decode_spaceout ko t e₂
                    (laws.decode_spaceout_lem create),
              )
              refl
      ]

  -- When a created output with a space has been applied, the lookup of the space's name gives that
  -- output, whatever the state held before. Hashes are of 32 bytes, and decoding undoes encoding.
  pub apply_create-found :
      IsCodec codec
      → ((bytes : List ℕ) → IsHash (hash bytes))
      → (txid : List ℕ) (create : SpaceOut) (space : Space) (bytes : List ℕ)
        (s s' : LiveSnapshot sdb)
      → create.space ≡ some space
      → as_ref space.name ≡ ok bytes
      → apply_create sdb codec btc hash txid create s ≡ ok s'
      → get_space_info sdb codec hash (space_key (hash bytes)) s'
        ≡ ok (some (record { txid = txid; spaceout = create }), s')
  apply_create-found laws hashes txid create space bytes s s' there name h =
      let e = covenant-entered txid create space space.covenant bytes s s' there refl name h in
      rw e
        (entered-found laws hashes bytes (record { txid = txid; vout = as_u32 create.n }) create s)
