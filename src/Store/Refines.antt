-- ===== src/Store/Refines.antt =====
-- The state refines a map from keys to values: each operation keeps the state well-formed and acts on
-- the map as it should, and a commit does not change it.
use spaced.Base.{
  ChainAnchor, ℕ, ◌≡◌, ◌≢◌, sym, ap, ◌∙◌, true, List, [], Option, none, some, bytes_eq,
  if◌then◌else◌, ok, >>=-eq-ok, arith, ◌==◌, ==_iff,
}
use spaced.Base.Loop.{for_each}
use spaced.Keys.{Hash}
use spaced.Store.{
  Staged, Spacedb, Codec, LiveSnapshot, insert_raw, remove_raw, update_snapshot, commit, memory_get,
  write_change,
}
use spaced.Store.Overlay.{reads, reads-below, memory_get-memory_insert}
use spaced.Store.Contents.{
  IsSpacedb, IsSorted, IsFresh, view, memory_insert-IsSorted, commit-view, reads-view,
}

module _ (sdb : Spacedb) (codec : Codec) where
  -- What a commit leaves but the database.
  pub commit-parts :
      (metadata : ChainAnchor) (tx : sdb.WriteTx) (s s' : LiveSnapshot sdb)
      → commit sdb codec metadata tx s ≡ ok s'
      → (s'.snapshot ≡ s.snapshot)
        × (s'.staged ≡ record { snapshot_version = metadata.height; memory = [] })
  unfolding commit
  commit-parts metadata tx s s' h =
      let (tx₁, e₁, h₁) = >>=-eq-ok (for_each (write_change sdb codec) s.staged.memory tx) _ h in
      let (tx₂, e₂, h₂) = >>=-eq-ok (sdb.set_metadata tx₁ (codec.encode_anchor metadata)) _ h₁ in
      let (db, e₃, h₃) = >>=-eq-ok (sdb.commit tx₂) _ h₂ in (ground (arith, h₃), ground (arith, h₃))

module _ (sdb : Spacedb) (codec : Codec) (laws : IsSpacedb sdb) where
  pub record IsState (s : LiveSnapshot sdb) : Type 0 where
    pub sorted : IsSorted s.staged.memory
    pub fresh : IsFresh sdb codec laws s

  -- Writes and removals keep a state well-formed, and change its map at their key alone.
  pub writes-view :
      (s : LiveSnapshot sdb) (k j : Hash) (value : List ℕ)
      → IsState s
      → IsState (insert_raw k value s)
        × IsState (remove_raw k s)
        × (view sdb codec laws (insert_raw k value s) j
            ≡ (if bytes_eq j k then some value else view sdb codec laws s j))
        × (view sdb codec laws (remove_raw k s) j
            ≡ (if bytes_eq j k then none else view sdb codec laws s j))
  unfolding insert_raw remove_raw
  writes-view s k j value v = (
    record {
      sorted = memory_insert-IsSorted k (some value) s.staged.memory v.sorted;
      fresh = v.fresh;
    },
    record { sorted = memory_insert-IsSorted k none s.staged.memory v.sorted; fresh = v.fresh },
    ground (arith, memory_get-memory_insert k j (some value) s.staged.memory),
    ground (arith, memory_get-memory_insert k j none s.staged.memory),
  )

  -- A commit of a well-formed state, in a transaction begun on its database and at a height that is not
  -- that of the snapshot at hand, leaves a well-formed state that stages nothing, and a read of it gives
  -- what the state stood for before.
  pub commit_refines :
      (metadata : ChainAnchor) (tx : sdb.WriteTx) (s s' : LiveSnapshot sdb) (k : Hash)
      (v : Option (List ℕ))
      → IsState s
      → sdb.begin_write s.db ≡ ok tx
      → s.snapshot.0 ≢ metadata.height
      → commit sdb codec metadata tx s ≡ ok s'
      → reads sdb codec k s' ≡ ok v
      → IsState s' × (s'.staged.memory ≡ []) × (v ≡ view sdb codec laws s k)
  commit_refines metadata tx s s' k v w began other h r =
      let (snap, staged) = commit-parts sdb codec metadata tx s s' h in
      let (same, clean) = commit-view sdb codec laws metadata tx s s' k w.sorted began h in
      let stale : s'.snapshot.0 ≢ s'.staged.snapshot_version =
        λ e. other (sym (ap (λ p. p.0) snap) ∙ e ∙ ap Staged.snapshot_version staged) in
      let fresh : IsFresh sdb codec laws s' = λ e. absurd (stale e) in
      (
        record { sorted = rw clean tt; fresh = fresh },
        clean,
        reads-view sdb codec laws s' k v fresh r ∙ same,
      )

  -- Where the snapshot at hand has the height of the commit, it is kept: every read after the commit
  -- gives what that old snapshot holds, whatever was committed.
  pub commit-stale :
      (metadata : ChainAnchor) (tx : sdb.WriteTx) (s s' : LiveSnapshot sdb) (k : Hash)
      → s.snapshot.0 ≡ metadata.height
      → commit sdb codec metadata tx s ≡ ok s'
      → reads sdb codec k s' ≡ sdb.get s.snapshot.1 k
  unfolding update_snapshot memory_get
  commit-stale metadata tx s s' k e h =
      let (snap, staged) = commit-parts sdb codec metadata tx s s' h in
      let same : (s'.snapshot.0 == s'.staged.snapshot_version) ≡ true =
        (==_iff _ _).1 (ap (λ p. p.0) snap ∙ e ∙ ap Staged.snapshot_version (sym staged)) in
      reads-below sdb codec k s' (ap (λ t. memory_get k t.memory) staged)
      ∙ rw same (ap (λ (p : ℕ × sdb.ReadTx). sdb.get p.1 k) snap)
