-- ===== src/Store/Contents.antt =====
-- The state as a map from keys to values, which leaves out what is staged and what is stored: what
-- reads see, what writes change, and that a commit changes nothing.
use spaced.Base.{
  ChainAnchor, ℕ, ◌≡◌, refl, sym, ap, ◌∙◌, true, Bool-cases, Option-cases, inl, inr, List, [], ◌∷◌,
  ◌==◌, ==_iff, Option, none, some, bytes_eq, bytes_eq→eq, if◌then◌else◌, ok, >>=-eq-ok, arith,
}
use spaced.Base.Loop.{for_each}
use spaced.Keys.{Hash}
use spaced.Keys.Order.{bytes_lt, bytes_lt_trans, bytes_lt_total, not-bytes_eq_of_lt}
use spaced.Store.{
  WriteMemory, memory_insert, memory_get, Spacedb, Codec, LiveSnapshot, update_snapshot,
  write_change, commit,
}
use spaced.Store.Overlay.{reads, reads-staged, reads-below}

-- What the database documents: a snapshot shows the contents of the time when it was begun, a
-- transaction starts from the contents and changes what it writes, and is what a commit leaves.
pub record IsSpacedb (sdb : Spacedb) : Type 0 where
  pub contents : sdb.Db → Hash → Option (List ℕ)
  pub pending : sdb.WriteTx → Hash → Option (List ℕ)
  pub begin_read_lem :
      (db : sdb.Db) (tx : sdb.ReadTx) (k : Hash)
      → sdb.begin_read db ≡ ok tx
      → sdb.get tx k ≡ ok (contents db k)
  pub begin_write_lem :
      (db : sdb.Db) (tx : sdb.WriteTx) (k : Hash)
      → sdb.begin_write db ≡ ok tx
      → pending tx k ≡ contents db k
  pub insert_lem :
      (tx tx' : sdb.WriteTx) (k j : Hash) (v : List ℕ)
      → sdb.insert tx k v ≡ ok tx'
      → pending tx' j ≡ (if bytes_eq j k then some v else pending tx j)
  pub delete_lem :
      (tx tx' : sdb.WriteTx) (k j : Hash)
      → sdb.delete tx k ≡ ok tx'
      → pending tx' j ≡ (if bytes_eq j k then none else pending tx j)
  pub set_metadata_lem :
      (tx tx' : sdb.WriteTx) (m : List ℕ) (k : Hash)
      → sdb.set_metadata tx m ≡ ok tx'
      → pending tx' k ≡ pending tx k
  pub commit_lem :
      (tx : sdb.WriteTx) (db : sdb.Db) (k : Hash)
      → sdb.commit tx ≡ ok db
      → contents db k ≡ pending tx k

-- The keys of the staged changes ascend.
abbrev Above : Hash → WriteMemory → Type 0
Above k [] = Unit
Above k ((j, w) ∷ m) = (bytes_lt k j ≡ true) × Above k m

abbrev pub IsSorted : WriteMemory → Type 0
IsSorted [] = Unit
IsSorted ((k, v) ∷ m) = Above k m × IsSorted m

Above-memory_get : (k : Hash) (m : WriteMemory) → Above k m → memory_get k m ≡ none
unfolding memory_get
Above-memory_get k [] a = refl
Above-memory_get k ((j, w) ∷ m) (lt, a) =
    ground (arith, not-bytes_eq_of_lt k j lt, Above-memory_get k m a)

Above-trans : (k j : Hash) (m : WriteMemory) → bytes_lt k j ≡ true → Above j m → Above k m
Above-trans k j [] lt a = tt
Above-trans k j ((l, u) ∷ m) lt (lt', a) = (bytes_lt_trans k j l lt lt', Above-trans k j m lt a)

Above-memory_insert :
    (j k : Hash) (v : Option (List ℕ)) (m : WriteMemory)
    → bytes_lt j k ≡ true
    → Above j m
    → Above j (memory_insert k v m)
unfolding memory_insert
Above-memory_insert j k v [] lt a = (lt, tt)
Above-memory_insert j k v ((l, u) ∷ m) lt (lt', a) =
    ground (arith, Above-memory_insert j k v m lt a)

pub memory_insert-IsSorted :
    (k : Hash) (v : Option (List ℕ)) (m : WriteMemory) → IsSorted m → IsSorted (memory_insert k v m)
unfolding memory_insert
memory_insert-IsSorted k v [] s = (tt, tt)
memory_insert-IsSorted k v ((j, w) ∷ m) (a, s) = elim (Bool-cases (bytes_eq k j)) [
  | inl same ↦ let e : k ≡ j = bytes_eq→eq k j same in rw same (rw e a, s)
  | inr other ↦ elim (Bool-cases (bytes_lt k j)) [
    | inl lt ↦ rw (other, lt) ((lt, Above-trans k j m lt a), (a, s))
    | inr ge ↦
        rw (other, ge)
          (
            Above-memory_insert j k v m (bytes_lt_total k j other ge) a,
            memory_insert-IsSorted k v m s,
          )
  ]
]

-- What is staged, over what is stored.
abbrev pub overlay : WriteMemory → (Hash → Option (List ℕ)) → Hash → Option (List ℕ)
overlay m stored k = elim (memory_get k m) [ none ↦ stored k | some value ↦ value ]

module _ (sdb : Spacedb) (codec : Codec) (laws : IsSpacedb sdb) where
  -- The map that a state stands for.
  abbrev pub view : LiveSnapshot sdb → Hash → Option (List ℕ)
  view s = overlay s.staged.memory (laws.contents s.db)

  write_change-pending :
      (k j : Hash) (v : Option (List ℕ)) (tx tx' : sdb.WriteTx)
      → write_change sdb codec (k, v) tx ≡ ok tx'
      → laws.pending tx' j ≡ (if bytes_eq j k then v else laws.pending tx j)
  unfolding write_change
  write_change-pending k j none tx tx' h = laws.delete_lem tx tx' k j h
  write_change-pending k j (some v) tx tx' h = laws.insert_lem tx tx' k j v h

  changes-pending :
      (m : WriteMemory) (tx tx' : sdb.WriteTx) (j : Hash)
      → IsSorted m
      → for_each (write_change sdb codec) m tx ≡ ok tx'
      → laws.pending tx' j ≡ overlay m (laws.pending tx) j
  unfolding for_each memory_get
  changes-pending [] tx tx' j s h = let e : tx' ≡ tx = cc in ap (λ t. laws.pending t j) e
  changes-pending ((k, v) ∷ m) tx tx' j (a, s) h =
      let (tx₁, e, r) = >>=-eq-ok (write_change sdb codec (k, v) tx) _ h in
      let rest = changes-pending m tx₁ tx' j s r in
      let first = write_change-pending k j v tx tx₁ e in
      elim (Bool-cases (bytes_eq j k)) [
        | inl same ↦
            let at : j ≡ k = bytes_eq→eq j k same in
            let gone : memory_get j m ≡ none = rw at (Above-memory_get k m a) in
            ground (arith, rest, first, gone, same)
        | inr other ↦ ground (arith, rest, first, other)
      ]

  -- A snapshot of the staged version shows the contents of the database.
  abbrev pub IsFresh : LiveSnapshot sdb → Type 0
  IsFresh s =
      s.snapshot.0 ≡ s.staged.snapshot_version
      → (k : Hash) → sdb.get s.snapshot.1 k ≡ ok (laws.contents s.db k)

  update_snapshot-get :
      (s s' : LiveSnapshot sdb) (k : Hash)
      → IsFresh s
      → update_snapshot sdb codec s.staged.snapshot_version s ≡ ok s'
      → sdb.get s'.snapshot.1 k ≡ ok (laws.contents s.db k)
  unfolding update_snapshot
  update_snapshot-get s s' k fresh h =
      elim (Bool-cases (s.snapshot.0 == s.staged.snapshot_version)) [
        | inl same ↦
            let e : s ≡ s' = ground (arith, h, same) in
            rw (← e) (fresh ((==_iff s.snapshot.0 s.staged.snapshot_version).0 same) k)
        | inr other ↦
            let h₁ = rw (update_snapshot, other) at h in
            let (tx, e, h₂) = >>=-eq-ok (sdb.begin_read s.db) _ h₁ in
            let at : s'.snapshot.1 ≡ tx = ground (arith, h₂) in
            rw at (laws.begin_read_lem s.db tx k e)
      ]

  -- A read that succeeds gives the value of the map.
  pub reads-view :
      (s : LiveSnapshot sdb) (k : Hash) (v : Option (List ℕ))
      → IsFresh s
      → reads sdb codec k s ≡ ok v
      → v ≡ view s k
  unfolding memory_get
  reads-view s k v fresh h = elim (Option-cases (memory_get k s.staged.memory)) [
    | inr (w, e) ↦ ground (arith, h, reads-staged sdb codec k w s e, e)
    | inl e ↦
        let h₁ = sym (reads-below sdb codec k s e) ∙ h in
        let (s', u, g) = >>=-eq-ok (update_snapshot sdb codec s.staged.snapshot_version s) _ h₁ in
        ground (arith, g, update_snapshot-get s s' k fresh u, e)
  ]

  -- A commit takes a transaction that was begun on the database, and succeeds.
  pub commit-view :
      (metadata : ChainAnchor) (tx : sdb.WriteTx) (s s' : LiveSnapshot sdb) (k : Hash)
      → IsSorted s.staged.memory
      → sdb.begin_write s.db ≡ ok tx
      → commit sdb codec metadata tx s ≡ ok s'
      → (view s' k ≡ view s k) × (s'.staged.memory ≡ [])
  unfolding commit memory_get
  commit-view metadata tx s s' k sorted began h =
      let (tx₁, e₁, h₁) = >>=-eq-ok (for_each (write_change sdb codec) s.staged.memory tx) _ h in
      let (tx₂, e₂, h₂) = >>=-eq-ok (sdb.set_metadata tx₁ (codec.encode_anchor metadata)) _ h₁ in
      let (db, e₃, h₃) = >>=-eq-ok (sdb.commit tx₂) _ h₂ in
      let made : record s {
        db = db;
        staged = record { snapshot_version = metadata.height; memory = [] };
      }
          ≡ s' =
        cc in
      rw (← made) (
        laws.commit_lem tx₂ db k e₃
            ∙ laws.set_metadata_lem tx₁ tx₂ (codec.encode_anchor metadata) k e₂
            ∙ changes-pending s.staged.memory tx tx₁ k sorted e₁
            ∙ ground (arith, laws.begin_write_lem s.db tx k began),
        refl,
      )
