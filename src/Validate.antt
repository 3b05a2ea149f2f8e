-- ===== src/Validate.antt =====
-- protocol/src/validate.rs: the change set of a transaction, and the edits that the validator makes
-- to it. The validator's methods stand in the children, one to a file.
pub mod Cases
pub mod Outcomes
pub mod OpenParts
pub mod TakenBack
pub mod Openings
pub mod Creates
pub mod ProcessCreates
pub mod FinalCreates
pub mod Flags
pub mod Tracking
pub mod Updates
pub mod ProcessUpdates
pub mod Raise
pub mod Batch
pub mod Panics
pub mod Transfer
pub mod BidSpend
pub mod Spend
pub mod Opening
pub mod Process
pub mod Rollout
use spaced.Base.{
  ◌≡◌, arith, ℕ, zero, suc, ◌+◌, ◌%◌, ◌^◌, Bool, true, false, List, [], ◌∷◌, ◌++◌, Option, none,
  some, ◌==◌, any, Result, ok, err, panic,
}
use spaced.Spaces.{SpaceOut, FullSpaceOut, RevokeReason}
use spaced.Script.{ScriptError}
use spaced.Prepare.{AuctionedOutput}

pub record SpaceIn : Type 0 where
  pub n : ℕ
  pub script_error : Option ScriptError

pub data UpdateKind : Type 0 where
  revoke : RevokeReason → UpdateKind
  rolled_out : ℕ → UpdateKind
  bid_update : UpdateKind

pub record UpdateOut : Type 0 where
  pub kind : UpdateKind
  pub output : FullSpaceOut

pub record TxChangeSet : Type 0 where
  pub txid : List ℕ
  pub spends : List SpaceIn
  pub creates : List SpaceOut
  pub updates : List UpdateOut

-- The change set that a transaction starts from.
abbrev pub no_changes : List ℕ → TxChangeSet
no_changes txid = record { txid = txid; spends = []; creates = []; updates = [] }

-- `changeset.updates.push(…)`
abbrev pub push_update : UpdateOut → TxChangeSet → TxChangeSet
push_update u cs = record cs { updates = cs.updates ++ (u ∷ []) }

-- The revocation of a space output of the transaction `txid`.
abbrev pub revocation : RevokeReason → List ℕ → SpaceOut → UpdateOut
revocation reason txid spaceout = record {
  kind = revoke reason;
  output = record { txid = txid; spaceout = spaceout };
}

-- `changeset.creates.push(…)`
abbrev pub push_create : SpaceOut → TxChangeSet → TxChangeSet
push_create out cs = record cs { creates = cs.creates ++ (out ∷ []) }

-- The auctioned output that is left, beside the change set of a step.
abbrev pub with_auctioned :
    Option AuctionedOutput → Result TxChangeSet → Result (Option AuctionedOutput × TxChangeSet)
with_auctioned auctioned (ok cs) = ok (auctioned, cs)
with_auctioned auctioned (err fault) = err fault

pub with_auctioned-ok :
    (auctioned : Option AuctionedOutput) (r : Result TxChangeSet) {left : Option AuctionedOutput}
    {cs : TxChangeSet}
    → with_auctioned auctioned r ≡ ok (left, cs)
    → (r ≡ ok cs) × (left ≡ auctioned)
with_auctioned-ok auctioned (ok cs) h = (ground (arith, h), ground (arith, h))
with_auctioned-ok auctioned (err fault) h = cc

-- `u32` addition, which wraps around in a release build.
abbrev pub add_u32 : ℕ → ℕ → ℕ
add_u32 a b = (a + b) % 2 ^ 32

-- `spends.iter().position(|s| s.n == input_index)`
unfoldable pub position : ℕ → List SpaceIn → Option ℕ
position i [] = none
position i (s ∷ ss) = elim (s.n == i) [
  | true ↦ some 0
  | false ↦ elim (position i ss) [ none ↦ none | some k ↦ some (suc k) ]
]

-- `spends.remove(pos)`
unfoldable pub remove_at : ℕ → List SpaceIn → List SpaceIn
remove_at k [] = []
remove_at zero (s ∷ ss) = ss
remove_at (suc k) (s ∷ ss) = s ∷ remove_at k ss

-- `spends[pos].script_error = Some(e)`
unfoldable pub set_error_at : ℕ → ScriptError → List SpaceIn → List SpaceIn
set_error_at k e [] = []
set_error_at zero e (s ∷ ss) = record s { script_error = some e } ∷ ss
set_error_at (suc k) e (s ∷ ss) = s ∷ set_error_at k e ss

-- `spends.last_mut().unwrap().script_error = Some(e)`
unfoldable pub set_last_error : ScriptError → List SpaceIn → Result (List SpaceIn)
set_last_error e [] = err panic
set_last_error e (s ∷ ss) = ok (go s ss)
  where
    go : SpaceIn → List SpaceIn → List SpaceIn
    go s [] = record s { script_error = some e } ∷ []
    go s (t ∷ ts) = s ∷ go t ts

-- Whether an output of the transaction has been given a space.
abbrev pub creates_at : ℕ → List SpaceOut → Bool
creates_at n creates = any (λ x. x.n == n) creates
