-- ===== src/Tests/Committed.antt =====
-- The theorems on commits at concrete inputs.
use spaced.Store.Overlay.{reads}
use spaced.Store.{Codec, memory_insert, LiveSnapshot, commit, insert_raw}
use spaced.Store.Refines.{commit_refines, commit-stale, IsState}
use spaced.Base.{
  refl, some, replicate, ap, ChainAnchor, ℕ, ◌≡◌, List, [], ◌∷◌, none, arith, Bool-cases, inl, inr,
  bytes_eq, bytes_eq→eq, if◌then◌else◌,
}
use spaced.Keys.{Hash}
use spaced.Store.Contents.{view, IsSpacedb}
use spaced.Tests.Stored.{clean, toy_codec, toy_db, entry_at, without}

pub entry_at-without :
    (k j : Hash) (m : List (Hash × List ℕ))
    → entry_at (without k m) j ≡ (if bytes_eq j k then none else entry_at m j)
entry_at-without k j [] = ground arith
entry_at-without k j ((l, v) ∷ m) = elim (Bool-cases (bytes_eq k l)) [
  | inl same ↦
      let e = bytes_eq→eq k l same in
      ground (arith, entry_at-without k j m, same, ap (bytes_eq j) e)
  | inr other ↦ elim (Bool-cases (bytes_eq j k)) [
    | inl at ↦
        let e = bytes_eq→eq j k at in
        ground (arith, entry_at-without k j m, other, ap (λ x. bytes_eq x l) e, at)
    | inr away ↦ ground (arith, entry_at-without k j m, other, away)
  ]
]

abbrev pub toy_db-IsSpacedb : IsSpacedb toy_db
toy_db-IsSpacedb = record {
  contents = entry_at;
  pending = entry_at;
  begin_read_lem = λ db tx k h. ground (arith, h);
  begin_write_lem = λ db tx k h. ground (arith, h);
  insert_lem = λ tx tx' k j v h. ground (arith, h);
  delete_lem = λ tx tx' k j h. ground (arith, h, entry_at-without k j tx);
  set_metadata_lem = λ tx tx' m k h. ground (arith, h);
  commit_lem = λ tx db k h. ground (arith, h);
}

-- A state that stages a value for a stored key.
abbrev pub staging : LiveSnapshot toy_db
staging = insert_raw (replicate 32 1) (9 ∷ []) clean

abbrev anchor_36 : ChainAnchor
anchor_36 = record { hash = 7 ∷ []; height = 36 }

-- A codec whose snapshots have the anchor of the commit.
abbrev anchoring_codec : Codec
anchoring_codec = record toy_codec { decode_anchor = λ bytes. some anchor_36 }

pub staging-IsState : IsState toy_db anchoring_codec toy_db-IsSpacedb staging
unfolding insert_raw memory_insert
staging-IsState = record { sorted = (tt, tt); fresh = λ e k. refl }

abbrev anchor_0 : ChainAnchor
anchor_0 = record { hash = 6 ∷ []; height = 0 }

abbrev committed : ChainAnchor → LiveSnapshot toy_db
committed anchor = record staging {
  db = (replicate 32 1, 9 ∷ []) ∷ (replicate 32 1, 8 ∷ []) ∷ [];
  staged = record { snapshot_version = anchor.height; memory = [] };
}

-- The snapshot at hand is of height 0, and the commit of height 36.
commit_refines_example :
    IsState toy_db anchoring_codec toy_db-IsSpacedb (committed anchor_36)
    × ((committed anchor_36).staged.memory ≡ [])
    × (some (9 ∷ []) ≡ view toy_db anchoring_codec toy_db-IsSpacedb staging (replicate 32 1))
unfolding commit insert_raw memory_insert spaced.Base.Loop.for_each spaced.Store.write_change
    spaced.Store.get_raw spaced.Store.update_snapshot spaced.Store.memory_get
    spaced.Base.Tests.bytes_eq
commit_refines_example =
    commit_refines toy_db anchoring_codec toy_db-IsSpacedb anchor_36 clean.db staging
      (committed anchor_36) (replicate 32 1) (some (9 ∷ [])) staging-IsState refl
      (λ e. absurd (cc e)) refl refl

commit-stale_example :
    reads toy_db toy_codec (replicate 32 1) (committed anchor_0)
    ≡ toy_db.get clean.snapshot.1 (replicate 32 1)
unfolding commit insert_raw memory_insert spaced.Base.Loop.for_each spaced.Store.write_change
commit-stale_example =
    commit-stale toy_db toy_codec toy_db-IsSpacedb anchor_0 clean.db staging (committed anchor_0)
      (replicate 32 1) refl refl
