-- ===== src/Node/Writes.antt =====
-- The node changes the state by writes and removals alone: what these keep, `apply_tx` keeps.
use spaced.Validate.Rollout.{is_none}
use spaced.Base.Loop.{for_each_inv, for_each}
use spaced.Validate.{bid_update, rolled_out, revoke, UpdateKind, TxChangeSet, SpaceIn, UpdateOut}
use spaced.Spaces.{
  reserved, expired, bad_spend, premature_claim, transfer, bid, Bid, revoke_bid_psbt, Covenant,
  RevokeReason, SpaceOut, Space,
}
use spaced.Node.{
  bid_covenant, unwrap_bid_value, name_hash, apply_bid, revoke_name, apply_rollout, apply_tx,
  remove_bid, apply_spend, enter_bid, apply_update, apply_revoke, apply_create,
}
use spaced.Base.{
  ◌>>=◌, refl, index, expect, inr, >>=-eq-ok, Bool-cases, inl, Result, Option-cases, some, ◌≡◌, ok,
  ℕ, List,
}
use spaced.Keys.{space_key, Hash, KeyHasher}
use spaced.Bitcoin.{OutPoint, Transaction, Bitcoin}
use spaced.Store.{
  insert_space, insert_spaceout, update_bid, remove_raw, insert_raw, LiveSnapshot, Codec, Spacedb,
}

module _ {ℓ} (sdb : Spacedb) (codec : Codec) (btc : Bitcoin) (hash : KeyHasher)
    (P : LiveSnapshot sdb → Type ℓ)
    (inserts : (k : Hash) (v : List ℕ) (s : LiveSnapshot sdb) → P s → P (insert_raw k v s))
    (removes : (k : Hash) (s : LiveSnapshot sdb) → P s → P (remove_raw k s)) where
  carry : {s t : LiveSnapshot sdb} → P s → ◌≡◌ {A = Result (LiveSnapshot sdb)} (ok s) (ok t) → P t
  carry {s} {t} p h = let e : s ≡ t = cc in rw (← e) p

  spend-keeps :
      (tx : Transaction) (spend : SpaceIn) (s t : LiveSnapshot sdb)
      → P s
      → apply_spend sdb codec btc hash tx spend s ≡ ok t
      → P t
  unfolding apply_spend
  spend-keeps tx spend s t p h =
      let (input, e, r) = >>=-eq-ok (index tx.input spend.n) _ h in carry (removes _ s p) r

  named-keeps :
      (space : Space) (k : Hash) (out : SpaceOut) (at : OutPoint) (s t : LiveSnapshot sdb)
      → P s
      → (name_hash hash space >>= λ base_hash.
          ok (insert_spaceout sdb codec k out (insert_space sdb codec (space_key base_hash) at s)))
        ≡ ok t
      → P t
  named-keeps space k out at s t p h =
      let (base, e, r) = >>=-eq-ok (name_hash hash space) _ h in
      carry (inserts _ _ _ (inserts _ _ s p)) r

  create-named :
      (txid : List ℕ) (create : SpaceOut) (space : Space) (c : Covenant) (s t : LiveSnapshot sdb)
      → P s
      → create.space ≡ some space
      → space.covenant ≡ c
      → apply_create sdb codec btc hash txid create s ≡ ok t
      → P t
  unfolding apply_create
  create-named txid create space (bid b) s t p e ec h = absurd (cc (rw (apply_create, e, ec) at h))
  create-named txid create space (transfer x y) s t p e ec h =
      named-keeps space _ create _ s t p (rw (apply_create, e, ec) at h)
  create-named txid create space reserved s t p e ec h =
      named-keeps space _ create _ s t p (rw (apply_create, e, ec) at h)

  create-keeps :
      (txid : List ℕ) (create : SpaceOut) (s t : LiveSnapshot sdb)
      → P s
      → apply_create sdb codec btc hash txid create s ≡ ok t
      → P t
  unfolding apply_create
  create-keeps txid create s t p h = elim (Option-cases create.space) [
    | inl e ↦ carry (inserts _ _ s p) (rw (apply_create, e) at h)
    | inr (space, e) ↦ create-named txid create space space.covenant s t p e refl h
  ]

  remove_bid-keeps :
      (base : Hash) (space : Space) (c : Covenant) (s : LiveSnapshot sdb)
      → P s
      → space.covenant ≡ c
      → P (remove_bid sdb codec btc hash base space s)
  unfolding remove_bid
  remove_bid-keeps base space (bid b) s p e = elim (Bool-cases (is_none b.claim_height)) [
    | inl fresh_bid ↦ rw (remove_bid, e, fresh_bid) (removes _ s p)
    | inr claimed ↦ rw (remove_bid, e, claimed) p
  ]
  remove_bid-keeps base space (transfer x y) s p e = rw (remove_bid, e) p
  remove_bid-keeps base space reserved s p e = rw (remove_bid, e) p

  revoke-keeps :
      (update : UpdateOut) (s t : LiveSnapshot sdb)
      → P s
      → revoke_name sdb codec btc hash update s ≡ ok t
      → P t
  revoke-keeps update s t p h =
      let (space, e, r) = >>=-eq-ok (expect update.output.spaceout.space) _ h in
      let (base, e', r') = >>=-eq-ok (name_hash hash space) _ r in
      carry (remove_bid-keeps base space space.covenant _ (removes _ s p) refl) r'

  reason-keeps :
      (reason : RevokeReason) (update : UpdateOut) (s t : LiveSnapshot sdb)
      → P s
      → apply_revoke sdb codec btc hash reason update s ≡ ok t
      → P t
  unfolding apply_revoke
  reason-keeps premature_claim update s t p h = revoke-keeps update s t p h
  reason-keeps bad_spend update s t p h = revoke-keeps update s t p h
  reason-keeps (revoke_bid_psbt _) update s t p h = revoke-keeps update s t p h
  reason-keeps expired update s t p h = carry (removes _ s p) h

  enter_bid-keeps :
      (b : Bid) (v w : ℕ) (base : Hash) (s : LiveSnapshot sdb)
      → P s
      → P (enter_bid sdb codec btc hash b v w base s)
  unfolding enter_bid update_bid
  enter_bid-keeps b v w base s p = elim (Bool-cases (is_none b.claim_height)) [
    | inl fresh_bid ↦ rw (enter_bid, fresh_bid) (inserts _ _ _ (removes _ s p))
    | inr claimed ↦ rw (enter_bid, claimed) p
  ]

  update-keeps :
      (kind : UpdateKind) (update : UpdateOut) (s t : LiveSnapshot sdb)
      → P s
      → update.kind ≡ kind
      → apply_update sdb codec btc hash update s ≡ ok t
      → P t
  unfolding apply_update apply_rollout apply_bid
  update-keeps (revoke reason) update s t p e h =
      reason-keeps reason update s t p (rw (apply_update, e) at h)
  update-keeps (rolled_out priority) update s t p e h =
      let (space, e₁, r₁) =
        >>=-eq-ok (expect update.output.spaceout.space) _ (rw (apply_update, e) at h) in
      let (base, e₂, r₂) = >>=-eq-ok (name_hash hash space) _ r₁ in
      carry (inserts _ _ _ (removes _ s p)) r₂
  update-keeps bid_update update s t p e h =
      let (space, e₁, r₁) =
        >>=-eq-ok (expect update.output.spaceout.space) _ (rw (apply_update, e) at h) in
      let (base, e₂, r₂) = >>=-eq-ok (name_hash hash space) _ r₁ in
      let (values, e₃, r₃) = >>=-eq-ok (unwrap_bid_value btc update.output.spaceout) _ r₂ in
      let (b, e₄, r₄) = >>=-eq-ok (expect (bid_covenant update.output.spaceout)) _ r₃ in
      carry (inserts _ _ _ (inserts _ _ _ (enter_bid-keeps b values.0 values.1 base s p))) r₄

  pub apply_tx-keeps :
      (tx : Transaction) (changeset : TxChangeSet) (s t : LiveSnapshot sdb)
      → P s
      → apply_tx sdb codec btc hash tx changeset s ≡ ok t
      → P t
  unfolding apply_tx
  apply_tx-keeps tx changeset s t p h =
      let (s₁, e₁, r₁) =
        >>=-eq-ok (for_each (apply_spend sdb codec btc hash tx) changeset.spends s) _ h in
      let (s₂, e₂, r₂) =
        >>=-eq-ok (for_each (apply_create sdb codec btc hash changeset.txid) changeset.creates s₁) _
          r₁ in
      for_each_inv P (apply_update sdb codec btc hash)
        (λ update u v q. update-keeps update.kind update u v q refl) changeset.updates s₂ t
        (for_each_inv P (apply_create sdb codec btc hash changeset.txid)
          (create-keeps changeset.txid) changeset.creates s₁ s₂
          (for_each_inv P (apply_spend sdb codec btc hash tx) (spend-keeps tx) changeset.spends s s₁
            p e₁)
          e₂)
        r₂
