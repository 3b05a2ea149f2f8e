-- ===== src/Node/Batch.antt =====
-- The batch of a rollout is read, and at most renews the snapshot of the state.
use spaced.Store.Follows.{get_space_info-Follows, Follows-refl, update_snapshot-Follows, Follows}
use spaced.Store.Refines.{IsState}
use spaced.Base.{
  refl, expect, zero, inr, not, inl, bytes_eq, anyhow, err, ◌==◌, Option-cases, length, some, suc,
  assert, arith, >>=-eq-ok, ok, Result, ◌≡◌, Option, List, ℕ,
}
use spaced.Node.Block.{rollout_next, Listing, load_entry, get_rollout_batch, load_batch}
use spaced.Spaces.{reserved, transfer, bid, FullSpaceOut, Space, Covenant}
use spaced.Keys.{space_key_from_raw, KeyHasher}
use spaced.Bitcoin.{Bitcoin}
use spaced.Store.Contents.{IsSpacedb}
use spaced.Store.{is_dirty, get_space_info, update_snapshot, inner, LiveSnapshot, Codec, Spacedb}

module _ (sdb : Spacedb) (codec : Codec) (laws : IsSpacedb sdb) (btc : Bitcoin)
    (hash : KeyHasher) where
  bids :
      (c : Covenant) (space : Space) (out : FullSpaceOut) (s' : LiveSnapshot sdb)
      (v : Option FullSpaceOut) (t : LiveSnapshot sdb)
      → space.covenant ≡ c
      → ◌≡◌ {A = Result (Option FullSpaceOut × LiveSnapshot sdb)}
          (elim space.covenant [
            | bid _ ↦ ok (some out, s')
            | transfer _ _ ↦ err (anyhow "expected spaceouts with bid covenants")
            | reserved ↦ err (anyhow "expected spaceouts with bid covenants")
          ])
          (ok (v, t))
      → s' ≡ t
  bids (bid b) space out s' v t e h = ground (arith, rw e at h)
  bids (transfer x y) space out s' v t e h = absurd (cc (rw e at h))
  bids reserved space out s' v t e h = absurd (cc (rw e at h))

  load_entry-Follows :
      (before : LiveSnapshot sdb) (raw : List ℕ) (v : Option FullSpaceOut) (s t : LiveSnapshot sdb)
      → Follows sdb codec laws before s
      → load_entry sdb codec btc hash raw s ≡ ok (v, t)
      → Follows sdb codec laws before t
  unfolding load_entry
  load_entry-Follows before raw v s t x h =
      let (u, e₁, h₁) = >>=-eq-ok (assert (length raw == 32)) _ h in
      let (key, e₂, h₂) = >>=-eq-ok (space_key_from_raw raw) _ h₁ in
      let ((full, s'), e₃, h₃) = >>=-eq-ok (get_space_info sdb codec hash key s) _ h₂ in
      let x' = get_space_info-Follows sdb codec laws hash before key full s s' x e₃ in
      let at : s' ≡ t = elim (Option-cases full) [
        | inl e ↦ ground (arith, h₃, e)
        | inr (out, e) ↦
            let h₄ = rw e at h₃ in
            let (space, e₅, h₅) = >>=-eq-ok (expect out.spaceout.space) _ h₄ in
            bids space.covenant space out s' v t refl h₅
      ] in
      rw (← at) x'

  load_batch-Follows :
      (before : LiveSnapshot sdb) (size : ℕ) (iter : Listing) (outs : List FullSpaceOut)
      (s t : LiveSnapshot sdb)
      → Follows sdb codec laws before s
      → load_batch sdb codec btc hash size iter s ≡ ok (outs, t)
      → Follows sdb codec laws before t
  unfolding load_batch
  load_batch-Follows before zero iter outs s t x h =
      let at : s ≡ t = ground (arith, h) in rw (← at) x
  load_batch-Follows before (suc size) iter outs s t x h =
      let (step, e₁, h₁) = >>=-eq-ok (rollout_next iter) _ h in
      elim (Option-cases step) [
        | inl e ↦ let at : s ≡ t = ground (arith, h₁, e) in rw (← at) x
        | inr ((element, rest), e) ↦
            let h₂ = rw e at h₁ in
            let ((key, raw), e₃, h₃) = >>=-eq-ok element _ h₂ in
            let ((full, s'), e₄, h₄) = >>=-eq-ok (load_entry sdb codec btc hash raw s) _ h₃ in
            let x' = load_entry-Follows before raw full s s' x e₄ in
            let ((more, s''), e₅, h₅) =
              >>=-eq-ok (load_batch sdb codec btc hash size rest s') _ h₄ in
            let at : s'' ≡ t = ground (arith, h₅) in
            rw (← at) (load_batch-Follows before size rest more s' s'' x' e₅)
      ]

  pub get_rollout_batch-Follows :
      (size : ℕ) (outs : List FullSpaceOut) (s t : LiveSnapshot sdb)
      → IsState sdb codec laws s
      → get_rollout_batch sdb codec btc hash size s ≡ ok (outs, t)
      → Follows sdb codec laws s t
  unfolding get_rollout_batch inner
  get_rollout_batch-Follows size outs s t w h =
      let (snapshot, e₁, h₁) = >>=-eq-ok (sdb.begin_read s.db) _ h in
      let ((own, s'), e₂, h₂) = >>=-eq-ok (inner sdb codec s) _ h₁ in
      let (s₂, u, r) = >>=-eq-ok (update_snapshot sdb codec s.staged.snapshot_version s) _ e₂ in
      let at : s₂ ≡ s' = ground (arith, r) in
      let x =
        update_snapshot-Follows sdb codec laws s s.staged.snapshot_version s s₂
          (Follows-refl sdb codec laws s w) u in
      let (a, e₃, h₃) =
        >>=-eq-ok (assert (bytes_eq (sdb.metadata snapshot) (sdb.metadata own))) _ h₂ in
      let (b, e₄, h₄) = >>=-eq-ok (assert (not (is_dirty s'))) _ h₃ in
      load_batch-Follows s size (sdb.iter snapshot) outs s' t (rw (← at) x) h₄
