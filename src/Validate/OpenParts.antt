-- ===== src/Validate/OpenParts.antt =====
-- The parts of an open: the rejection of its spend, the auctioned output detached, the first bid.
use spaced.Base.{
  zero, [], suc, ap, ◌≢◌, ◌∷◌, any, Option-cases, get_elem?, List, ℕ, ◌≡◌, refl, true, Bool-cases,
  inl, inr, none, some, arith,
}
use spaced.Bitcoin.{outpoint_eq_iff, OutPoint}
use spaced.Label.{SLabel}
use spaced.Spaces.{
  outpoint, RevokeReason, bad_spend, bid, as_u32, SpaceOut, Space, FullSpaceOut, RejectReason,
}
use spaced.Script.{reject, ScriptError}
use spaced.Prepare.{BidPsbt}
use spaced.Validate.{
  rolled_out, revoke, UpdateKind, UpdateOut, SpaceIn, set_error_at, TxChangeSet, bid_update,
  push_update, revocation,
}
use spaced.Validate.Opening.{detach_existing_space, revokes_at, reject_at, opening_bid}

-- The spend at an index gets a rejection of the name as its error, and nothing else changes.
pub record IsRejected (pos : ℕ) (name : SLabel) (reason : RejectReason) (cs cs' : TxChangeSet)
    : Type 0 where
  pub same_tx : cs'.txid ≡ cs.txid
  pub same_creates : cs'.creates ≡ cs.creates
  pub same_updates : cs'.updates ≡ cs.updates
  pub marked :
      (spend : SpaceIn)
      → get_elem? cs.spends pos ≡ some spend
      → get_elem? cs'.spends pos
        ≡ some (record spend {
          script_error = some (reject (record { name = name; reason = reason }));
        })
  pub others : (k : ℕ) → k ≢ pos → get_elem? cs'.spends k ≡ get_elem? cs.spends k

-- Whether a change set revokes an outpoint already.
abbrev pub IsRevoked : OutPoint → TxChangeSet → Type 0
IsRevoked at cs =
    (i : ℕ) × (u : UpdateOut) × (reason : RevokeReason) × (get_elem? cs.updates i ≡ some u)
    × (u.kind ≡ revoke reason)
    × (outpoint u.output ≡ at)

-- The auctioned output is taken from the space that it carries: one update revokes that space, unless
-- there is no space, or one does so already.
pub data Detached (psbt : BidPsbt) (carrier : SpaceOut) (cs cs' : TxChangeSet) : Type 0 where
  bare : carrier.space ≡ none → cs' ≡ cs → Detached psbt carrier cs cs'
  revoked :
      (space : Space)
      → carrier.space ≡ some space
      → IsRevoked (record { txid = psbt.outpoint.txid; vout = as_u32 carrier.n }) cs
      → cs' ≡ cs
      → Detached psbt carrier cs cs'
  revokes :
      (space : Space)
      → carrier.space ≡ some space
      → ¬ IsRevoked (record { txid = psbt.outpoint.txid; vout = as_u32 carrier.n }) cs
      → cs' ≡ push_update (revocation bad_spend psbt.outpoint.txid carrier) cs
      → Detached psbt carrier cs cs'

-- The first bid on a name: it stands on the auctioned output at the outpoint of the carried bid, and
-- its total is what that burns.
pub record IsFirstBid (name : SLabel) (carrier : SpaceOut) (psbt : BidPsbt) (full : FullSpaceOut)
    : Type 0 where
  pub same_tx : full.txid ≡ psbt.outpoint.txid
  pub same_index : full.spaceout.n ≡ carrier.n
  pub same_value : full.spaceout.value ≡ carrier.value
  pub same_script : full.spaceout.script_pubkey ≡ carrier.script_pubkey
  pub opens :
      full.spaceout.space
      ≡ some (record {
        name = name;
        covenant = bid (record {
          burn_increment = psbt.burn_amount;
          signature = psbt.signature;
          total_burned = psbt.burn_amount;
          claim_height = none;
        });
      })

-- The change set with the auctioned output detached.
abbrev pub detached : BidPsbt → SpaceOut → TxChangeSet → TxChangeSet
detached psbt carrier cs =
    detach_existing_space (record { output = some carrier; bid_psbt = psbt }) cs

set_error_at-here :
    (k : ℕ) (e : ScriptError) (ss : List SpaceIn) (s : SpaceIn)
    → get_elem? ss k ≡ some s
    → get_elem? (set_error_at k e ss) k ≡ some (record s { script_error = some e })
unfolding set_error_at
set_error_at-here k e [] s h = absurd (cc h)
set_error_at-here zero e (t ∷ ss) s h =
    let same : t ≡ s = cc h in ap (λ (x : SpaceIn). some (record x { script_error = some e })) same
set_error_at-here (suc k) e (t ∷ ss) s h = set_error_at-here k e ss s h

set_error_at-others :
    (k : ℕ) (e : ScriptError) (ss : List SpaceIn) (j : ℕ)
    → j ≢ k
    → get_elem? (set_error_at k e ss) j ≡ get_elem? ss j
unfolding set_error_at
set_error_at-others k e [] j h = refl
set_error_at-others zero e (t ∷ ss) zero h = absurd (h refl)
set_error_at-others zero e (t ∷ ss) (suc j) h = refl
set_error_at-others (suc k) e (t ∷ ss) zero h = refl
set_error_at-others (suc k) e (t ∷ ss) (suc j) h =
    set_error_at-others k e ss j (λ same. h (ap suc same))

reject_at-IsRejected :
    (pos : ℕ) (name : SLabel) (reason : RejectReason) (cs : TxChangeSet)
    → IsRejected pos name reason cs (reject_at pos name reason cs)
reject_at-IsRejected pos name reason cs = record {
  same_tx = refl;
  same_creates = refl;
  same_updates = refl;
  marked = λ s h. set_error_at-here pos _ cs.spends s h;
  others = λ k h. set_error_at-others pos _ cs.spends k h;
}

pub made_by-IsRejected :
    (pos : ℕ) (name : SLabel) (reason : RejectReason) (cs cs' : TxChangeSet)
    → cs' ≡ reject_at pos name reason cs
    → IsRejected pos name reason cs cs'
made_by-IsRejected pos name reason cs cs' e = rw e (reject_at-IsRejected pos name reason cs)

revokes_at-true :
    (out : FullSpaceOut) (u : UpdateOut) (kind : UpdateKind)
    → u.kind ≡ kind
    → revokes_at out u ≡ true
    → (reason : RevokeReason) × (kind ≡ revoke reason) × (outpoint u.output ≡ outpoint out)
unfolding revokes_at
revokes_at-true out u (revoke reason) k h =
    (reason, refl, (outpoint_eq_iff (outpoint u.output) (outpoint out)).0 (rw (revokes_at, k) at h))
revokes_at-true out u (rolled_out p) k h = absurd (cc (rw (revokes_at, k) at h))
revokes_at-true out u bid_update k h = absurd (cc (rw (revokes_at, k) at h))

any-revokes :
    (out : FullSpaceOut) (us : List UpdateOut)
    → any (revokes_at out) us ≡ true
    → (i : ℕ) × (u : UpdateOut) × (reason : RevokeReason) × (get_elem? us i ≡ some u)
      × (u.kind ≡ revoke reason)
      × (outpoint u.output ≡ outpoint out)
any-revokes out [] h = absurd (cc h)
any-revokes out (u ∷ us) h = elim (Bool-cases (revokes_at out u)) [
  | inl here ↦
      let (reason, k, at) = revokes_at-true out u u.kind refl here in (0, u, reason, refl, k, at)
  | inr apart ↦
      let (i, v, reason, e, k, at) = any-revokes out us (rw apart at h) in
      (suc i, v, reason, e, k, at)
]

revoked-any :
    (out : FullSpaceOut) (us : List UpdateOut) (i : ℕ) (u : UpdateOut) (reason : RevokeReason)
    → get_elem? us i ≡ some u
    → u.kind ≡ revoke reason
    → outpoint u.output ≡ outpoint out
    → any (revokes_at out) us ≡ true
unfolding revokes_at
revoked-any out [] i u reason e k at = absurd (cc e)
revoked-any out (v ∷ us) zero u reason e k at =
    let same : v ≡ u = cc e in
    let hit = (outpoint_eq_iff (outpoint u.output) (outpoint out)).1 at in
    rw same (ground (arith, k, hit))
revoked-any out (v ∷ us) (suc i) u reason e k at =
    let rest = revoked-any out us i u reason e k at in ground (arith, rest)

pub detach_existing_space-Detached :
    (psbt : BidPsbt) (carrier : SpaceOut) (cs : TxChangeSet)
    → Detached psbt carrier cs (detached psbt carrier cs)
unfolding detach_existing_space
detach_existing_space-Detached psbt carrier cs =
    let full : FullSpaceOut = record { txid = psbt.outpoint.txid; spaceout = carrier } in
    elim (Option-cases carrier.space) [
      | inl nothing ↦ bare nothing (ground (arith, nothing))
      | inr (space, there) ↦ elim (Bool-cases (any (revokes_at full) cs.updates)) [
        | inl once ↦
            revoked space there (any-revokes full cs.updates once) (ground (arith, there, once))
        | inr never ↦
            revokes space there
              (λ (i, u, reason, e, k, at).
                cc (revoked-any full cs.updates i u reason e k at, never))
              (ground (arith, there, never))
      ]
    ]

pub opening_bid-IsFirstBid :
    (name : SLabel) (carrier : SpaceOut) (psbt : BidPsbt)
    → IsFirstBid name carrier psbt (opening_bid name carrier psbt)
opening_bid-IsFirstBid name carrier psbt = record {
  same_tx = refl;
  same_index = refl;
  same_value = refl;
  same_script = refl;
  opens = refl;
}
