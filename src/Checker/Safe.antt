-- ===== src/Checker/Safe.antt =====
-- What a transaction that passes the checker does.
use spaced.Checker.Overlay.{apply_changes-IsOverlay, IsOverlay}
use spaced.Spaces.{
  bad_spend, premature_claim, revoke_bid_psbt, expired, reserved, RevokeReason, Space, SpaceOut,
}
use spaced.Validate.Process.{process}
use spaced.Prepare.{from_tx, TxContext}
use spaced.Keys.{KeyHasher}
use spaced.Bitcoin.{Transaction, Bitcoin}
use spaced.Base.{
  refl, ◌≢◌, sym, ap, ◌∙◌, >>=-eq-ok, some, ℕ, All-imp, inr, inl, [], ◌∷◌, arith, Option-cases,
  false, any, ok, none, List, All, ◌≡◌, Bool,
}
use spaced.Store.{Codec, Spacedb}
use spaced.Validate.{revoke, UpdateOut, TxChangeSet, SpaceIn}
use spaced.Checker.{
  apply_changes, checker_source, TxChecker, try_tx, check_apply_tx, is_revocation,
  is_reserved_create, has_script_error, check,
}

-- Every element fails a test.
abbrev pub Never : {A : Type 0} → (A → Bool) → List A → Type 0
Never p xs = All (λ x. p x ≡ false) xs

any-Never : {A : Type 0} (p : A → Bool) (xs : List A) → any p xs ≡ false → Never p xs
any-Never p [] h = tt
any-Never p (x ∷ xs) h = (ground (arith, h), any-Never p xs (ground (arith, h)))

-- A change set without script errors, without reserved spaces and without revocations, but for those
-- of expired spaces.
pub record IsSafe (cs : TxChangeSet) : Type 0 where
  pub scripts : All (λ (spend : SpaceIn). spend.script_error ≡ none) cs.spends
  pub creates :
      All
        (λ (out : SpaceOut). (space : Space) → out.space ≡ some space → space.covenant ≢ reserved)
        cs.creates
  pub updates :
      All
        (λ (u : UpdateOut). (reason : RevokeReason) → u.kind ≡ revoke reason → reason ≡ expired)
        cs.updates

no_error : (o : SpaceIn) → has_script_error o ≡ false → o.script_error ≡ none
no_error o h = elim (Option-cases o.script_error) [
  | inl e ↦ e
  | inr (x, e) ↦ absurd (cc (rw e at h))
]

not_reserved :
    (out : SpaceOut)
    → is_reserved_create out ≡ false
    → (space : Space) → out.space ≡ some space
    → space.covenant ≢ reserved
not_reserved out h space e c = cc (rw (e, c) at h)

only_expired :
    (u : UpdateOut)
    → is_revocation u ≡ false
    → (reason : RevokeReason) → u.kind ≡ revoke reason
    → reason ≡ expired
only_expired u h expired e = refl
only_expired u h premature_claim e = absurd (cc (rw e at h))
only_expired u h bad_spend e = absurd (cc (rw e at h))
only_expired u h (revoke_bid_psbt why) e = absurd (cc (rw e at h))

check-IsSafe : (cs : TxChangeSet) → check cs ≡ ok tt → IsSafe cs
unfolding check
check-IsSafe cs h =
    let a : any has_script_error cs.spends ≡ false = ground (arith, h) in
    let b : any is_reserved_create cs.creates ≡ false = ground (arith, h) in
    let c : any is_revocation cs.updates ≡ false = ground (arith, h) in
    record {
      scripts = All-imp cs.spends no_error (any-Never has_script_error cs.spends a);
      creates = All-imp cs.creates not_reserved (any-Never is_reserved_create cs.creates b);
      updates = All-imp cs.updates only_expired (any-Never is_revocation cs.updates c);
    }

module _ (sdb : Spacedb) (codec : Codec) (btc : Bitcoin) (hash : KeyHasher) where
  -- A change set that the checker returns is what the validator gives for the transaction over the
  -- overlay, and it is safe: no script has an error, no reserved space is created, and no space is
  -- revoked but for expiry. Later reads of an outpoint or a name give the last that the change set
  -- writes there (spent and revoked outputs are gone; created ones and those that get a bid or are
  -- rolled out are there, with their names), else what the overlay held, else what the snapshot holds.
  pub check_apply_tx-IsSafe :
      (height : ℕ) (tx : Transaction) (c c' : TxChecker sdb) (cs : TxChangeSet)
      → check_apply_tx sdb codec btc hash height tx c ≡ ok (some cs, c')
      → (ctx : TxContext) × (from_tx btc hash (checker_source sdb codec btc hash c) tx
          ≡ ok (some ctx))
        × (process btc height tx ctx ≡ ok cs)
        × IsOverlay sdb codec btc hash tx cs c c'
        × IsSafe cs
  unfolding check_apply_tx try_tx
  check_apply_tx-IsSafe height tx c c' cs h =
      let ((found, c₁), e₁, h₁) = >>=-eq-ok (try_tx sdb codec btc hash height tx c) _ h in
      let (prepared, e₂, h₂) =
        >>=-eq-ok (from_tx btc hash (checker_source sdb codec btc hash c) tx) _ e₁ in
      elim (Option-cases prepared) [
        | inl e ↦ absurd (ground (arith, h₁, rw e at h₂))
        | inr (ctx, e) ↦
            let (changeset, e₃, h₃) = >>=-eq-ok (process btc height tx ctx) _ (rw e at h₂) in
            let (c₂, e₄, h₄) = >>=-eq-ok (apply_changes sdb codec btc hash tx changeset c) _ h₃ in
            let at : found ≡ some changeset = ground (arith, h₄) in
            let (u, e₅, h₅) = >>=-eq-ok (check changeset) _ (rw at at h₁) in
            let same : changeset ≡ cs = ground (arith, h₅) in
            let state : c₂ ≡ c' = ground (arith, h₄, h₅) in
            (
              ctx,
              e₂ ∙ ap ok e,
              e₃ ∙ ap ok same,
              apply_changes-IsOverlay sdb codec btc hash tx cs c c'
                  (ap (λ x. apply_changes sdb codec btc hash tx x c) (sym same) ∙ e₄ ∙ ap ok state),
              rw (← same) (check-IsSafe changeset e₅),
            )
      ]
