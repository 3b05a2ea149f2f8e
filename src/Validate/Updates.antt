-- ===== src/Validate/Updates.antt =====
-- The updates of a change set: every new bid is signed, there is one at most, and every revocation
-- names a space.
use spaced.Validate.OpenParts.{IsFirstBid}
use spaced.Base.{
  ◌⊎◌, Option-cases, ℕ, ◌+◌, ◌≤◌, ◌≡◌, refl, ap, true, Bool-cases, inl, inr, List, [], ◌∷◌, ◌++◌,
  Option, none, some, ok, arith, any, All, All-append, is_some,
}
use spaced.Bitcoin.{Bitcoin}
use spaced.Spaces.{SpaceOut, FullSpaceOut, RevokeReason, bad_spend}
use spaced.Spaces.Signing.{verify_bid_sig, bid_of}
use spaced.Script.{OpenHistory}
use spaced.Prepare.{AuctionedOutput, BidPsbt}
use spaced.Validate.{
  TxChangeSet, UpdateOut, UpdateKind, revoke, rolled_out, bid_update, push_update, revocation,
}
use spaced.Validate.Opening.{detach_existing_space, revokes_at}
use spaced.Validate.Openings.{NameCase, no_bid, forged, auctions, OpenCase, taken, reopened, fresh}

-- A bid is signed, and the output of a revocation carries a space.
abbrev pub IsSound : Bitcoin → UpdateOut → Type 0
IsSound btc u = elim u.kind [
  | revoke _ ↦ is_some u.output.spaceout.space ≡ true
  | rolled_out _ ↦ ⊥
  | bid_update ↦ (verify_bid_sig btc u.output ≡ ok true) × (is_some (bid_of u.output) ≡ true)
]

abbrev one_if_bid : UpdateKind → ℕ
one_if_bid (revoke _) = 0
one_if_bid (rolled_out _) = 0
one_if_bid bid_update = 1

-- The number of new bids.
abbrev pub bids : List UpdateOut → ℕ
bids [] = 0
bids (u ∷ us) = one_if_bid u.kind + bids us

abbrev one_if_some : Option AuctionedOutput → ℕ
one_if_some none = 0
one_if_some (some a) = 1

bids-append : (us vs : List UpdateOut) → bids (us ++ vs) ≡ bids us + bids vs
bids-append [] vs = omega arith
bids-append (u ∷ us) vs = omega (arith, bids-append us vs)

module _ (btc : Bitcoin) where
  -- What the loop keeps: the auctioned output is there for one bid at most.
  pub record Updates (auctioned : Option AuctionedOutput) (updates : List UpdateOut) : Type 0 where
    pub sound : All (IsSound btc) updates
    pub single : bids updates + one_if_some auctioned ≤ 1

  pub Updates-start : (a : Option AuctionedOutput) → Updates a []
  Updates-start none = record { sound = tt; single = omega arith }
  Updates-start (some a) = record { sound = tt; single = omega arith }

  pub push_revocation :
      {a : Option AuctionedOutput} (us : List UpdateOut) (reason : RevokeReason) (txid : List ℕ)
      (out : SpaceOut)
      → is_some out.space ≡ true
      → Updates a us
      → Updates a (us ++ (revocation reason txid out ∷ []))
  push_revocation {a} us reason txid out there v = record {
    sound = All-append (IsSound btc) us _ v.sound (there, tt);
    single = omega (arith, v.single, bids-append us (revocation reason txid out ∷ []));
  }

  pub push_bid :
      {a : AuctionedOutput} (us : List UpdateOut) (full : FullSpaceOut)
      → verify_bid_sig btc full ≡ ok true
      → is_some (bid_of full) ≡ true
      → Updates (some a) us
      → Updates none (us ++ (record { kind = bid_update; output = full } ∷ []))
  push_bid us full signed there v = record {
    sound = All-append (IsSound btc) us _ v.sound ((signed, there), tt);
    single =
        omega (arith, v.single, bids-append us (record { kind = bid_update; output = full } ∷ []));
  }

  pub use_up : {a : Option AuctionedOutput} {us : List UpdateOut} → Updates a us → Updates none us
  use_up {a} v = record { sound = v.sound; single = omega (arith, v.single) }

  pub same-Updates :
      {a b : Option AuctionedOutput} {us vs : List UpdateOut}
      → Updates a us
      → b ≡ a
      → vs ≡ us
      → Updates b vs
  same-Updates v e f = rw (e, f) v

  detach_cases :
      (psbt : BidPsbt) (carrier : SpaceOut) (cs : TxChangeSet)
      → let cs' = detach_existing_space (record { output = some carrier; bid_psbt = psbt }) cs in
        (cs' ≡ cs)
        ⊎ ((is_some carrier.space ≡ true)
            × (cs' ≡ push_update (revocation bad_spend psbt.outpoint.txid carrier) cs))
  unfolding detach_existing_space
  detach_cases psbt carrier cs = elim (Option-cases carrier.space) [
    | inl bare ↦ inl (ground (arith, bare))
    | inr (space, there) ↦
        elim (Bool-cases
          (any (revokes_at (revocation bad_spend psbt.outpoint.txid carrier).output) cs.updates)) [
            | inl done ↦ inl (ground (arith, there, done))
            | inr new ↦ inr (ground (arith, there), ground (arith, there, new))
          ]
  ]

  detach_keeps :
      {a : Option AuctionedOutput} (psbt : BidPsbt) (carrier : SpaceOut) (cs : TxChangeSet)
      → Updates a cs.updates
      → Updates a
          (detach_existing_space (record { output = some carrier; bid_psbt = psbt }) cs).updates
  detach_keeps psbt carrier cs v = elim (detach_cases psbt carrier cs) [
    | inl same ↦ rw same v
    | inr (there, e) ↦
        rw e (push_revocation cs.updates bad_spend psbt.outpoint.txid carrier there v)
  ]

  first-bid :
      {name : List ℕ} {carrier : SpaceOut} {psbt : BidPsbt} {full : FullSpaceOut}
      → IsFirstBid name carrier psbt full
      → is_some (bid_of full) ≡ true
  first-bid f = rw f.opens refl

  NameCase-Updates :
      {pos : ℕ} {name : List ℕ} {a : Option AuctionedOutput} {cs cs' : TxChangeSet}
      → NameCase btc pos name a cs cs'
      → Updates a cs.updates
      → Updates none cs'.updates
  NameCase-Updates {a} (no_bid reason _ e) v = same-Updates (use_up {a = a} v) refl e.same_updates
  NameCase-Updates {a} {cs} (forged psbt carrier _ _ _ _ _ e) v =
      same-Updates (use_up {a = a} (detach_keeps psbt carrier cs v)) refl e.same_updates
  NameCase-Updates {a} {cs} (auctions psbt carrier full there first signed _ e) v =
      same-Updates
        (push_bid _ full signed (first-bid first) (detach_keeps psbt carrier cs (rw there at v)))
        refl (ap TxChangeSet.updates e)

  pub OpenCase-Updates :
      {i height : ℕ} {history : OpenHistory} {a left : Option AuctionedOutput}
      {cs cs' : TxChangeSet}
      → OpenCase btc i height history a cs left cs'
      → Updates a cs.updates
      → Updates left cs'.updates
  OpenCase-Updates (taken _ _ _ _ _ _ _ l e) v = same-Updates v l e.same_updates
  OpenCase-Updates {cs} (reopened _ prev space _ _ there _ l c) v =
      same-Updates
        (NameCase-Updates c
          (push_revocation cs.updates _ prev.txid prev.spaceout (ground (arith, there)) v))
        l refl
  OpenCase-Updates (fresh _ _ _ _ l c) v = same-Updates (NameCase-Updates c v) l refl
