-- ===== src/Store/Overlay.antt =====
-- Reads see the staged changes over the snapshot.
use spaced.Base.{
  ap, ℕ, ◌≡◌, refl, true, Bool-cases, Option-cases, inl, inr, List, [], ◌∷◌, Option, none, some,
  bytes_eq, if◌then◌else◌, bytes_eq_refl, bytes_eq→eq, ok, ◌>>=◌, Result, err, failed, io_error,
  >>=-eq-ok, arith,
}
use spaced.Keys.{Hash}
use spaced.Store.{
  WriteMemory, Staged, memory_insert, memory_get, Spacedb, Codec, LiveSnapshot, insert_raw,
  remove_raw, get_raw, get, update_snapshot,
}

same-key : (j k l : Hash) → bytes_eq j k ≡ true → bytes_eq k l ≡ true → bytes_eq j l ≡ true
same-key j k l p q = rw (bytes_eq→eq j k p) q

bytes_eq_comm : (j k : Hash) → bytes_eq j k ≡ true → bytes_eq k j ≡ true
bytes_eq_comm j k p = rw (bytes_eq→eq j k p) (bytes_eq_refl k)

-- A key that is written is read back, and another keeps what it had.
pub memory_get-memory_insert :
    (k j : Hash) (v : Option (List ℕ)) (m : WriteMemory)
    → memory_get j (memory_insert k v m) ≡ (if bytes_eq j k then some v else memory_get j m)
unfolding memory_get memory_insert
memory_get-memory_insert k j v [] = refl
memory_get-memory_insert k j v ((l, w) ∷ m) = ground (
  arith,
  memory_get-memory_insert k j v m,
  same-key j k l,
  same-key k j l,
  bytes_eq_comm j k,
  bytes_eq_comm k j,
  same-key j l k,
  bytes_eq_comm k l,
)

module _ (sdb : Spacedb) (codec : Codec) where
  -- The value at a key.
  abbrev pub reads : Hash → LiveSnapshot sdb → Result (Option (List ℕ))
  reads key s = get_raw sdb codec key s >>= λ (value, _). ok value

  -- A read that finds nothing staged goes to the snapshot.
  abbrev pub below : Hash → LiveSnapshot sdb → Result (Option (List ℕ))
  below key s =
      update_snapshot sdb codec s.staged.snapshot_version s >>= λ s'. sdb.get s'.snapshot.1 key

  get-ok :
      (r : Result (Option (List ℕ))) (s : LiveSnapshot sdb)
      → ((r >>= λ value. ok (value, s)) >>= λ (value, _). ok value) ≡ r
  get-ok (ok v) s = refl
  get-ok (err e) s = refl

  pub reads-below :
      (key : Hash) (s : LiveSnapshot sdb)
      → memory_get key s.staged.memory ≡ none
      → reads key s ≡ below key s
  unfolding get_raw
  reads-below key s e =
      rw (reads, get_raw, e) (go (update_snapshot sdb codec s.staged.snapshot_version s))
    where
      go :
          (r : Result (LiveSnapshot sdb))
          → ((r >>= λ s'. sdb.get s'.snapshot.1 key >>= λ value. ok (value, s')) >>= λ (value, _).
              ok value)
            ≡ (r >>= λ s'. sdb.get s'.snapshot.1 key)
      go (ok s') = get-ok (sdb.get s'.snapshot.1 key) s'
      go (err e) = refl

  pub reads-staged :
      (key : Hash) (value : Option (List ℕ)) (s : LiveSnapshot sdb)
      → memory_get key s.staged.memory ≡ some value
      → reads key s ≡ ok value
  unfolding get_raw
  reads-staged key value s e = rw (reads, get_raw, e) refl

  -- The snapshot does not depend on what is staged.
  below-memory :
      (key : Hash) (s : LiveSnapshot sdb) (m : WriteMemory)
      → below key (record s { staged = record (s.staged) { memory = m } }) ≡ below key s
  unfolding update_snapshot
  below-memory key s m = ground arith

  reads-memory_insert :
      (k j : Hash) (v : Option (List ℕ)) (s : LiveSnapshot sdb)
      → reads j
          (record s { staged = record (s.staged) { memory = memory_insert k v s.staged.memory } })
        ≡ (if bytes_eq j k then ok v else reads j s)
  reads-memory_insert k j v s =
      let s' = record s {
        staged = record (s.staged) { memory = memory_insert k v s.staged.memory };
      } in
      let law = memory_get-memory_insert k j v s.staged.memory in
      elim (Bool-cases (bytes_eq j k)) [
        | inl same ↦ rw same (reads-staged j v s' (ground (arith, law, same)))
        | inr other ↦ elim (Option-cases (memory_get j s.staged.memory)) [
          | inl e ↦
              rw (other, reads-below j s' (ground (arith, law, other, e)), reads-below j s e)
                (below-memory j s (memory_insert k v s.staged.memory))
          | inr (w, e) ↦
              rw (other, reads-staged j w s e, reads-staged j w s' (ground (arith, law, other, e)))
                refl
        ]
      ]

  -- A read after a write of the same key gives what was written, a read after a removal nothing, and a
  -- read of another key is as it was before.
  pub get_raw-insert_raw :
      (k j : Hash) (value : List ℕ) (s : LiveSnapshot sdb)
      → (reads j (insert_raw k value s) ≡ (if bytes_eq j k then ok (some value) else reads j s))
        × (reads j (remove_raw k s) ≡ (if bytes_eq j k then ok none else reads j s))
  unfolding get_raw insert_raw remove_raw update_snapshot
  get_raw-insert_raw k j value s =
      (reads-memory_insert k j (some value) s, reads-memory_insert k j none s)

  fst-ok :
      {A B : Type 0} (r : Result (A × B)) {a : A}
      → (r >>= λ (x, _). ok x) ≡ ok a
      → (b : B) × (r ≡ ok (a, b))
  fst-ok (ok (x, b)) {a} h = let e : x ≡ a = cc in (b, ap (λ y. ok (y, b)) e)
  fst-ok (err e) h = cc

  update_snapshot-staged :
      (version : ℕ) (s s' : LiveSnapshot sdb)
      → update_snapshot sdb codec version s ≡ ok s'
      → s'.staged ≡ s.staged
  unfolding update_snapshot
  update_snapshot-staged version s s' h = ground (arith, h)

  -- A read stages nothing.
  get_raw-staged :
      (key : Hash) (value : Option (List ℕ)) (s s' : LiveSnapshot sdb)
      → get_raw sdb codec key s ≡ ok (value, s')
      → s'.staged ≡ s.staged
  unfolding get_raw
  get_raw-staged key value s s' h = elim (Option-cases (memory_get key s.staged.memory)) [
    | inl e ↦
        let h₁ = rw (get_raw, e) at h in
        let (t, r, h₂) = >>=-eq-ok (update_snapshot sdb codec s.staged.snapshot_version s) _ h₁ in
        let (v, g, h₃) = >>=-eq-ok (sdb.get t.snapshot.1 key) _ h₂ in
        let same : t ≡ s' = cc in
        rw (← same) (update_snapshot-staged s.staged.snapshot_version s t r)
    | inr (v, e) ↦ ground (arith, h, e)
  ]

  -- The value at a key, decoded.
  abbrev pub decoded : {A : Type 0} → (List ℕ → Option A) → Option (List ℕ) → Result (Option A)
  decoded decode none = ok none
  decoded decode (some bytes) = elim (decode bytes) [
    | none ↦ err (failed (io_error "decode"))
    | some a ↦ ok (some a)
  ]

  pub get-reads :
      {A : Type 0} (decode : List ℕ → Option A) (key : Hash) (s : LiveSnapshot sdb)
      → (get sdb codec decode key s >>= λ (found, _). ok found) ≡ (reads key s >>= decoded decode)
  unfolding get
  get-reads decode key s = ground arith

  pub get-ok-staged :
      {A : Type 0} (decode : List ℕ → Option A) (key : Hash) (s : LiveSnapshot sdb) {a : Option A}
      → (get sdb codec decode key s >>= λ (found, _). ok found) ≡ ok a
      → (s' : LiveSnapshot sdb) × (get sdb codec decode key s ≡ ok (a, s')) × (s'.staged ≡ s.staged)
  unfolding get
  get-ok-staged decode key s {a} h =
      let (s', e) = fst-ok (get sdb codec decode key s) h in
      let ((value, t), r, h₁) = >>=-eq-ok (get_raw sdb codec key s) _ e in
      let same : t ≡ s' = ground (arith, h₁) in
      (s', e, rw (← same) (get_raw-staged key value s t r))

  -- A state that stages the removal of a key holds nothing there.
  pub get-remove_raw :
      {A : Type 0} (decode : List ℕ → Option A) (key : Hash) (s t : LiveSnapshot sdb)
      → t.staged ≡ (remove_raw key s).staged
      → get sdb codec decode key t ≡ ok (none, t)
  unfolding get get_raw remove_raw
  get-remove_raw decode key s t e =
      let gone : memory_get key t.staged.memory ≡ some none = ground (
        arith,
        ap Staged.memory e,
        memory_get-memory_insert key key none s.staged.memory,
        bytes_eq_refl key,
      ) in
      rw (get, get_raw, gone) refl

  -- A value that is staged is read and decoded.
  pub get-staged :
      {A : Type 0} (decode : List ℕ → Option A) (key : Hash) (s : LiveSnapshot sdb) {bytes : List ℕ}
      {a : A}
      → memory_get key s.staged.memory ≡ some (some bytes)
      → decode bytes ≡ some a
      → get sdb codec decode key s ≡ ok (some a, s)
  unfolding get get_raw
  get-staged decode key s e d = rw (get, get_raw, e, d) refl
