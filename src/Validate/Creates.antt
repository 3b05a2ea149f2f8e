-- ===== src/Validate/Creates.antt =====
-- The outputs that a transaction creates: one entry to an output, with the output's value and
-- script, and never with a bid.
use spaced.Base.{
  ℕ, ◌≡◌, refl, ap, ◌∙◌, false, ◌||◌, List, [], ◌∷◌, ◌++◌, Option, none, some, arith, get_elem?,
  All, All-append,
}
use spaced.Bitcoin.{Bitcoin, TxOut}
use spaced.Spaces.{SpaceOut, Space, bid, transfer, reserved}
use spaced.Script.{OpenHistory}
use spaced.Prepare.{AuctionedOutput}
use spaced.Validate.{TxChangeSet, creates_at}
use spaced.Validate.Opening.{detach_existing_space}
use spaced.Validate.Openings.{NameCase, no_bid, forged, auctions, OpenCase, taken, reopened, fresh}

-- No two entries are for the same output.
abbrev pub Distinct : List SpaceOut → Type 0
Distinct [] = Unit {0}
Distinct (x ∷ xs) = (creates_at x.n xs ≡ false) × Distinct xs

-- A space that was transferred by the transaction.
abbrev pub IsTransfer : Option Space → Type 0
IsTransfer none = ⊥
IsTransfer (some space) = elim space.covenant [ bid b ↦ ⊥ | transfer _ _ ↦ Unit {0} | reserved ↦ ⊥ ]

-- An entry stands for an output of the transaction, and carries a space of the kind `C`.
pub record IsOutput (C : Option Space → Type 0) (outputs : List TxOut) (out : SpaceOut)
    : Type 0 where
  pub output : TxOut
  pub there : get_elem? outputs out.n ≡ some output
  pub same_value : out.value ≡ output.value
  pub same_script : out.script_pubkey ≡ output.script_pubkey
  pub carries : C out.space

pub record AreOutputs (C : Option Space → Type 0) (outputs : List TxOut) (creates : List SpaceOut)
    : Type 0 where
  pub distinct : Distinct creates
  pub each : All (IsOutput C outputs) creates

pub creates_at-append :
    (n : ℕ) (xs ys : List SpaceOut) → creates_at n (xs ++ ys) ≡ (creates_at n xs || creates_at n ys)
creates_at-append n [] ys = refl
creates_at-append n (x ∷ xs) ys = ground (arith, creates_at-append n xs ys)

Distinct-snoc :
    (xs : List SpaceOut) (x : SpaceOut)
    → Distinct xs
    → creates_at x.n xs ≡ false
    → Distinct (xs ++ (x ∷ []))
Distinct-snoc [] x d f = (refl, tt)
Distinct-snoc (y ∷ ys) x (e, d) f = (
  creates_at-append y.n ys (x ∷ []) ∙ ground (arith, e, f),
  Distinct-snoc ys x d (ground (arith, f)),
)

pub AreOutputs-snoc :
    (C : Option Space → Type 0) (outputs : List TxOut) (xs : List SpaceOut) (x : SpaceOut)
    → AreOutputs C outputs xs
    → creates_at x.n xs ≡ false
    → IsOutput C outputs x
    → AreOutputs C outputs (xs ++ (x ∷ []))
AreOutputs-snoc C outputs xs x v f o = record {
  distinct = Distinct-snoc xs x v.distinct f;
  each = All-append (IsOutput C outputs) xs (x ∷ []) v.each (o, tt);
}

detach_existing_space-creates :
    (a : AuctionedOutput) (cs : TxChangeSet) → (detach_existing_space a cs).creates ≡ cs.creates
unfolding detach_existing_space
detach_existing_space-creates a cs = ground arith

NameCase-creates :
    {btc : Bitcoin} {pos : ℕ} {name : List ℕ} {a : Option AuctionedOutput} {cs cs' : TxChangeSet}
    → NameCase btc pos name a cs cs'
    → cs'.creates ≡ cs.creates
NameCase-creates {cs} (no_bid reason _ e) = e.same_creates
NameCase-creates {cs} (forged psbt carrier _ _ _ _ _ e) =
    e.same_creates
    ∙ detach_existing_space-creates (record { output = some carrier; bid_psbt = psbt }) cs
NameCase-creates {cs} (auctions psbt carrier _ _ _ _ _ e) =
    ap TxChangeSet.creates e
    ∙ detach_existing_space-creates (record { output = some carrier; bid_psbt = psbt }) cs

pub OpenCase-creates :
    {btc : Bitcoin} {i height : ℕ} {history : OpenHistory} {a left : Option AuctionedOutput}
    {cs cs' : TxChangeSet}
    → OpenCase btc i height history a cs left cs'
    → cs'.creates ≡ cs.creates
OpenCase-creates (taken _ _ _ _ _ _ _ _ e) = e.same_creates
OpenCase-creates (reopened _ _ _ _ _ _ _ _ c) = NameCase-creates c
OpenCase-creates (fresh _ _ _ _ _ c) = NameCase-creates c
