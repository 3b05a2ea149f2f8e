-- ===== src/Store/Follows.antt =====
-- What a state keeps while the transactions of a block are applied: its database, its tip, the version
-- that its changes start from, and that it is well-formed.
use spaced.Spaces.{FullSpaceOut}
use spaced.Store.Refines.{writes-view, IsState}
use spaced.Base.{
  expect, arith, inr, inl, ◌==◌, Bool-cases, [], >>=-eq-ok, Option-cases, Option, ok, refl, ℕ, ◌≡◌,
  List,
}
use spaced.Keys.{outpoint_key_of, KeyHasher, Hash}
use spaced.Store.Contents.{IsSpacedb}
use spaced.Store.{
  memory_get, get_spaceout, get_space_outpoint, update_snapshot, remove_raw, get_space_info,
  insert_raw, get, get_raw, LiveSnapshot, Codec, Spacedb,
}

module _ (sdb : Spacedb) (codec : Codec) (laws : IsSpacedb sdb) where
  pub record Follows (before s : LiveSnapshot sdb) : Type 0 where
    pub same_db : s.db ≡ before.db
    pub same_tip : s.tip ≡ before.tip
    pub same_version : s.staged.snapshot_version ≡ before.staged.snapshot_version
    pub state : IsState sdb codec laws s

  pub Follows-refl : (s : LiveSnapshot sdb) → IsState sdb codec laws s → Follows s s
  Follows-refl s w = record { same_db = refl; same_tip = refl; same_version = refl; state = w }

  pub insert_raw-Follows :
      (before : LiveSnapshot sdb) (k : Hash) (v : List ℕ) (s : LiveSnapshot sdb)
      → Follows before s
      → Follows before (insert_raw k v s)
  unfolding insert_raw
  insert_raw-Follows before k v s x = record {
    same_db = x.same_db;
    same_tip = x.same_tip;
    same_version = x.same_version;
    state = (writes-view sdb codec laws s k k v x.state).0;
  }

  pub remove_raw-Follows :
      (before : LiveSnapshot sdb) (k : Hash) (s : LiveSnapshot sdb)
      → Follows before s
      → Follows before (remove_raw k s)
  unfolding remove_raw
  remove_raw-Follows before k s x = record {
    same_db = x.same_db;
    same_tip = x.same_tip;
    same_version = x.same_version;
    state = (writes-view sdb codec laws s k k [] x.state).1;
  }

  -- A read at most renews the snapshot.
  renewed :
      (before s : LiveSnapshot sdb) (version : ℕ) (tx : sdb.ReadTx)
      → Follows before s
      → sdb.begin_read s.db ≡ ok tx
      → Follows before (record s { snapshot = (version, tx) })
  renewed before s version tx x e = record {
    same_db = x.same_db;
    same_tip = x.same_tip;
    same_version = x.same_version;
    state = record { sorted = x.state.sorted; fresh = λ same k. laws.begin_read_lem s.db tx k e };
  }

  pub update_snapshot-Follows :
      (before : LiveSnapshot sdb) (version : ℕ) (s t : LiveSnapshot sdb)
      → Follows before s
      → update_snapshot sdb codec version s ≡ ok t
      → Follows before t
  unfolding update_snapshot
  update_snapshot-Follows before version s t x h = elim (Bool-cases (s.snapshot.0 == version)) [
    | inl same ↦ let e : s ≡ t = ground (arith, h, same) in rw (← e) x
    | inr other ↦
        let h₁ = rw (update_snapshot, other) at h in
        let (tx, e, h₂) = >>=-eq-ok (sdb.begin_read s.db) _ h₁ in
        let made : record s { snapshot = (version, tx) } ≡ t = ground (arith, h₂) in
        rw (← made) (renewed before s version tx x e)
  ]

  get_raw-Follows :
      (before : LiveSnapshot sdb) (k : Hash) (v : Option (List ℕ)) (s t : LiveSnapshot sdb)
      → Follows before s
      → get_raw sdb codec k s ≡ ok (v, t)
      → Follows before t
  unfolding get_raw
  get_raw-Follows before k v s t x h = elim (Option-cases (memory_get k s.staged.memory)) [
    | inr (w, e) ↦ let at : s ≡ t = ground (arith, h, e) in rw (← at) x
    | inl e ↦
        let h₁ = rw (get_raw, e) at h in
        let (s', u, h₂) = >>=-eq-ok (update_snapshot sdb codec s.staged.snapshot_version s) _ h₁ in
        let (value, g, h₃) = >>=-eq-ok (sdb.get s'.snapshot.1 k) _ h₂ in
        let at : s' ≡ t = ground (arith, h₃) in
        rw (← at) (update_snapshot-Follows before s.staged.snapshot_version s s' x u)
  ]

  get-Follows :
      {A : Type 0} (decode : List ℕ → Option A) (before : LiveSnapshot sdb) (k : Hash)
      (v : Option A) (s t : LiveSnapshot sdb)
      → Follows before s
      → get sdb codec decode k s ≡ ok (v, t)
      → Follows before t
  unfolding get
  get-Follows decode before k v s t x h =
      let ((value, s'), g, h₁) = >>=-eq-ok (get_raw sdb codec k s) _ h in
      let at : s' ≡ t = elim (Option-cases value) [
        | inl e ↦ ground (arith, h₁, e)
        | inr (bytes, e) ↦ elim (Option-cases (decode bytes)) [
          | inl e' ↦ absurd (ground (arith, h₁, e, e'))
          | inr (a, e') ↦ ground (arith, h₁, e, e')
        ]
      ] in
      rw (← at) (get_raw-Follows before k value s s' x g)

  pub get_space_info-Follows :
      (hash : KeyHasher) (before : LiveSnapshot sdb) (k : Hash) (v : Option FullSpaceOut)
      (s t : LiveSnapshot sdb)
      → Follows before s
      → get_space_info sdb codec hash k s ≡ ok (v, t)
      → Follows before t
  unfolding get_space_info get_space_outpoint get_spaceout
  get_space_info-Follows hash before k v s t x h =
      let ((found, s'), g, h₁) = >>=-eq-ok (get_space_outpoint sdb codec hash k s) _ h in
      let x' = get-Follows codec.decode_outpoint before k found s s' x g in
      elim (Option-cases found) [
        | inl e ↦ let at : s' ≡ t = ground (arith, h₁, e) in rw (← at) x'
        | inr (outpoint, e) ↦
            let h₂ = rw e at h₁ in
            let ((out, s''), g', h₃) = >>=-eq-ok (get_spaceout sdb codec hash outpoint s') _ h₂ in
            let (spaceout, e', h₄) = >>=-eq-ok (expect out) _ h₃ in
            let at : s'' ≡ t = ground (arith, h₄) in
            rw (← at) (
              get-Follows codec.decode_spaceout before (outpoint_key_of hash outpoint) out s' s'' x'
                g')
      ]
