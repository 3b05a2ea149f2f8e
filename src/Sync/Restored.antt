-- ===== src/Sync/Restored.antt =====
-- The roll back takes the newest commit that is still on the chain.
use spaced.Sync.{
  restore_index, anchor_of, roll_back, restore_chain, restore_to, Spaced, restore_from,
}
use spaced.Base.{
  refl, bytes_eq_refl, arith, suc, ◌+◌, bytes_eq→eq, ◌∙◌, inr, ap, bytes_eq, none, take, Bool-cases,
  inl, ◌≢◌, Option-cases, All, >>=-eq-ok, [], ◌∷◌, ok, some, get_elem?, ◌≡◌, ChainAnchor, List,
  Result, ℕ,
}
use spaced.Store.{LiveSnapshot, restore, Codec, Spacedb}

module _ (sdb : Spacedb) (codec : Codec) (get_block_hash : ℕ → Result (List ℕ)) where
  -- A snapshot that the chain has left.
  abbrev pub IsOrphaned : Result sdb.ReadTx → Type 0
  IsOrphaned r =
      (snapshot : sdb.ReadTx) × (a : ChainAnchor) × (required : List ℕ) × (r ≡ ok snapshot)
      × (anchor_of sdb codec snapshot ≡ ok a)
      × (get_block_hash a.height ≡ ok required)
      × (required ≢ a.hash)

  -- The snapshot at a position is on the chain, the newer ones are not, and the state starts from it.
  pub record Restores (snapshots : List (Result sdb.ReadTx)) (t : Spaced sdb) : Type 0 where
    pub position : ℕ
    pub snapshot : sdb.ReadTx
    pub anchor : ChainAnchor
    pub found : get_elem? snapshots position ≡ some (ok snapshot)
    pub read : anchor_of sdb codec snapshot ≡ ok anchor
    pub on_chain : get_block_hash anchor.height ≡ ok anchor.hash
    pub newer : All IsOrphaned (take position snapshots)
    pub tip : t.chain.tip ≡ anchor
    pub staged : t.chain.staged ≡ record { snapshot_version = anchor.height; memory = [] }
    pub contents : sdb.rollback snapshot ≡ ok t.chain.db

  roll_back-parts :
      (snapshot : sdb.ReadTx) (a : ChainAnchor) (s t : LiveSnapshot sdb)
      → roll_back sdb codec snapshot a s ≡ ok t
      → (t.tip ≡ a)
        × (t.staged ≡ record { snapshot_version = a.height; memory = [] })
        × (sdb.rollback snapshot ≡ ok t.db)
  unfolding restore
  roll_back-parts snapshot a s t h =
      let (db, e, r) = >>=-eq-ok (sdb.rollback snapshot) _ h in
      let at : restore a (record s { db = db }) ≡ t = cc in rw (← at) (refl, refl, e)

  restore_to-parts :
      (i : ℕ) (snapshot : sdb.ReadTx) (a : ChainAnchor) (s t : Spaced sdb)
      → restore_to sdb codec i snapshot a s ≡ ok t
      → (t.chain.tip ≡ a)
        × (t.chain.staged ≡ record { snapshot_version = a.height; memory = [] })
        × (sdb.rollback snapshot ≡ ok t.chain.db)
  unfolding restore_to
  restore_to-parts i snapshot a s t h = elim (Option-cases s.block_index) [
    | inl e ↦
        let (chain, e₁, h₁) =
          >>=-eq-ok (roll_back sdb codec snapshot a s.chain) _ (rw (restore_to, e) at h) in
        let at : record { chain = chain; block_index = none } ≡ t = cc in
        rw (← at) (roll_back-parts snapshot a s.chain chain e₁)
    | inr (index, e) ↦
        let (index', e₁, h₁) =
          >>=-eq-ok (restore_index sdb codec i a index) _ (rw (restore_to, e) at h) in
        let (chain, e₂, h₂) = >>=-eq-ok (roll_back sdb codec snapshot a s.chain) _ h₁ in
        let at : record { chain = chain; block_index = some index' } ≡ t = cc in
        rw (← at) (roll_back-parts snapshot a s.chain chain e₂)
  ]

  restore_from-newest :
      (i : ℕ) (snapshots : List (Result sdb.ReadTx)) (s t : Spaced sdb)
      → restore_from sdb codec get_block_hash i snapshots s ≡ ok t
      → Restores snapshots t
  unfolding restore_from
  restore_from-newest i [] s t h = absurd (cc h)
  restore_from-newest i (first ∷ snapshots) s t h =
      let (snapshot, e₁, h₁) = >>=-eq-ok first _ h in
      let (a, e₂, h₂) = >>=-eq-ok (anchor_of sdb codec snapshot) _ h₁ in
      let (required, e₃, h₃) = >>=-eq-ok (get_block_hash a.height) _ h₂ in
      elim (Bool-cases (bytes_eq required a.hash)) [
        | inl same ↦
            let (tip, staged, contents) = restore_to-parts i snapshot a s t (rw same at h₃) in
            record {
              position = 0;
              snapshot = snapshot;
              anchor = a;
              found = ap some e₁;
              read = e₂;
              on_chain = e₃ ∙ ap ok (bytes_eq→eq required a.hash same);
              newer = tt;
              tip = tip;
              staged = staged;
              contents = contents;
            }
        | inr other ↦
            let r = restore_from-newest (i + 1) snapshots s t (rw other at h₃) in
            record {
              position = suc r.position;
              snapshot = r.snapshot;
              anchor = r.anchor;
              found = r.found;
              read = r.read;
              on_chain = r.on_chain;
              newer = (
                (
                  snapshot,
                  a,
                  required,
                  e₁,
                  e₂,
                  e₃,
                  λ e. ground (arith, other, bytes_eq_refl a.hash, ap (λ x. bytes_eq x a.hash) e),
                ),
                r.newer,
              );
              tip = r.tip;
              staged = r.staged;
              contents = r.contents;
            }
      ]

  -- A successful restoration takes the newest commit whose block the source has at its height: the
  -- anchors of all newer commits are of blocks that the chain has left. The database is rolled back to
  -- this commit, it becomes the tip, and nothing is staged.
  pub restore_chain-newest :
      (s t : Spaced sdb)
      → restore_chain sdb codec get_block_hash s ≡ ok t
      → Restores (sdb.snapshots s.chain.db) t
  restore_chain-newest s t h = restore_from-newest 0 (sdb.snapshots s.chain.db) s t h
