-- ===== src/Wallet/Selected.antt =====
-- What a selection of coins spends.
use spaced.Bitcoin.{outpoint_eq}
use spaced.Wallet.{dust_threshold, SpacesAwareCoinSelection}
use spaced.Wallet.Selection.{
  is_unconfirmed, coin_select, may_fund, not_required, utxos, CoinSelectionResult, WeightedUtxo,
  Utxo, retain,
}
use spaced.Base.{
  All-imp, sym, ap, ◌&&◌, refl, false, leb, zero, assert, ◌<◌, [], >>=-eq-ok, inl, suc, ◌++◌, inr,
  arith, Bool-cases, any, ◌⊎◌, All, ◌≤◌, ◌∷◌, length, true, some, ok, ◌≡◌, get_elem?, ℕ, Bool,
  Result, List,
}

-- Membership, by an index.
abbrev pub IsSelected : List Utxo → Utxo → Type 0
IsSelected us u = (i : ℕ) × (get_elem? us i ≡ some u)

-- What the default algorithm documents: it selects from the outputs that it is given, all that are
-- required among them.
abbrev pub SelectLaw : (List WeightedUtxo → List WeightedUtxo → Result CoinSelectionResult) → Type 0
SelectLaw select =
    (required optional : List WeightedUtxo) (r : CoinSelectionResult)
    → select required optional ≡ ok r
    → (length (utxos required) ≤ length r.selected)
      × All (λ u. IsSelected (utxos required) u ⊎ IsSelected (utxos optional) u) r.selected

retain-utxos :
    (p : Utxo → Bool) (ws : List WeightedUtxo) (i : ℕ) (u : Utxo)
    → get_elem? (utxos (retain (λ w. p w.utxo) ws)) i ≡ some u
    → p u ≡ true
unfolding retain
retain-utxos p [] i u e = absurd (cc e)
retain-utxos p (w ∷ ws) zero u e = elim (Bool-cases (p w.utxo)) [
  | inr out ↦ retain-utxos p ws zero u (rw out at e)
  | inl fits ↦ let same : w.utxo ≡ u = cc (rw fits at e) in rw (← same) fits
]
retain-utxos p (w ∷ ws) (suc i) u e = elim (Bool-cases (p w.utxo)) [
  | inr out ↦ retain-utxos p ws (suc i) u (rw out at e)
  | inl fits ↦ retain-utxos p ws i u (rw fits at e)
]

any-IsSelected :
    (p : Utxo → Bool) (us : List Utxo) (i : ℕ) (u : Utxo)
    → get_elem? us i ≡ some u
    → p u ≡ true
    → any p us ≡ true
any-IsSelected p [] i u e h = absurd (cc e)
any-IsSelected p (v ∷ us) zero u e h = let same : v ≡ u = cc e in rw (same, h) refl
any-IsSelected p (v ∷ us) (suc i) u e h = ground (arith, any-IsSelected p us i u e h)

-- An output that may pay for a transaction: above the threshold of dust, not excluded, and confirmed
-- where the selection asks for it.
pub record IsFunding (selection : SpacesAwareCoinSelection) (u : Utxo) : Type 0 where
  pub above : dust_threshold < u.txout.value
  pub not_excluded : any (λ o. outpoint_eq o.outpoint u.outpoint) selection.exclude_outputs ≡ false
  pub confirmed : (selection.confirmed_only && is_unconfirmed u.confirmation) ≡ false

may_fund-IsFunding :
    (selection : SpacesAwareCoinSelection) (u : Utxo)
    → may_fund selection u ≡ true
    → IsFunding selection u
unfolding may_fund
may_fund-IsFunding selection u h = record {
  above = ground (arith, h);
  not_excluded = ground (arith, h);
  confirmed = ground (arith, h);
}

module _ (utxo_eq : Utxo → Utxo → Bool) (same_utxo : (u : Utxo) → utxo_eq u u ≡ true) where
  not_required-All :
      (select : List WeightedUtxo → List WeightedUtxo → Result CoinSelectionResult)
      (P : Utxo → Type 0) (required selected : List Utxo)
      → All (λ u. IsSelected required u ⊎ P u) selected
      → All P (not_required utxo_eq select required selected)
  unfolding not_required
  not_required-All select P required [] a = tt
  not_required-All select P required (u ∷ us) (x, a) =
      elim (Bool-cases (any (λ r. utxo_eq r u) required)) [
        | inl wanted ↦ rw wanted (not_required-All select P required us a)
        | inr fresh ↦ elim x [
          | inr p ↦ rw fresh (p, not_required-All select P required us a)
          | inl (i, e) ↦
              absurd (cc (any-IsSelected (λ r. utxo_eq r u) required i u e (same_utxo u), fresh))
        ]
      ]

  -- A selection that succeeds spends the required outputs first and in their order; every other output
  -- that it spends is above the threshold of dust, is not excluded, and is confirmed where the
  -- selection asks for it. The default algorithm selects from what it is given, all that is required
  -- among them, and an output equals itself.
  pub coin_select-IsFunding :
      (select : List WeightedUtxo → List WeightedUtxo → Result CoinSelectionResult)
      (selection : SpacesAwareCoinSelection) (required optional : List WeightedUtxo)
      (r : CoinSelectionResult)
      → SelectLaw select
      → coin_select utxo_eq select selection required optional ≡ ok r
      → (rest : List Utxo) × (r.selected ≡ utxos required ++ rest) × All (IsFunding selection) rest
  unfolding coin_select
  coin_select-IsFunding select selection required optional r law h =
      let kept = retain (λ w. may_fund selection w.utxo) optional in
      let (result, e₁, h₁) = >>=-eq-ok (select required kept) _ h in
      let (u, e₂, h₂) =
        >>=-eq-ok (assert (leb (length (utxos required)) (length result.selected))) _ h₁ in
      let (enough, among) = law required kept result e₁ in
      let made : record {
        selected = utxos required ++ not_required utxo_eq select (utxos required) result.selected;
        fee_amount = result.fee_amount;
        excess = result.excess;
      }
          ≡ r =
        cc h₂ in
      (
        not_required utxo_eq select (utxos required) result.selected,
        sym (ap CoinSelectionResult.selected made),
        All-imp (not_required utxo_eq select (utxos required) result.selected)
            (λ v (i, e).
              may_fund-IsFunding selection v (retain-utxos (may_fund selection) optional i v e))
            (not_required-All select (IsSelected (utxos kept)) (utxos required) result.selected
              among),
      )
