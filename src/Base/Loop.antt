-- ===== src/Base/Loop.antt =====
-- A `for` loop whose body can fail: one rule for invariants.
use mathlib.Core.Path.{◌≡◌}
use mathlib.Core.List.{List, [], ◌∷◌}
use spaced.Base.Results.{Result, ok, ◌>>=◌, >>=-eq-ok}

module _ {ℓ κ} {S : Type ℓ} {A : Type κ} where
  unfoldable pub for_each : (A → S → Result S) → List A → S → Result S
  for_each body [] s = ok s
  for_each body (x ∷ xs) s = body x s >>= λ s'. for_each body xs s'

  -- What every successful round keeps, a successful loop keeps.
  pub for_each_inv {μ} :
      (P : S → Type μ) (body : A → S → Result S)
      → ((x : A) (s t : S) → P s → body x s ≡ ok t → P t)
      → (xs : List A) (s t : S) → P s
      → for_each body xs s ≡ ok t
      → P t
  unfolding for_each
  for_each_inv P body keep [] s t p h = let e : s ≡ t = cc in rw (← e) p
  for_each_inv P body keep (x ∷ xs) s t p h =
      let (u, e, r) = >>=-eq-ok (body x s) (for_each body xs) h in
      for_each_inv P body keep xs u t (keep x s u p e) r
