-- ===== src/Prepare/Inputs.antt =====
-- `TxContext::from_tx`: the inputs of the context are those inputs of the transaction that spend a
-- tracked output, in order.
use spaced.Base.{
  none, sym, Option, ℕ, zero, suc, ◌+◌, ◌≤◌, ◌≡◌, ◌⊎◌, refl, ap, ◌∙◌, inl, inr, Option-cases, List,
  [], ◌∷◌, some, ok, >>=-eq-ok, arith, get_elem?, All,
}
use spaced.Bitcoin.{Bitcoin, TxIn}
use spaced.Keys.{KeyHasher}
use spaced.Spaces.{SpaceOut}
use spaced.Script.{eval, SpaceScript, ScriptResult, DataSource}
use spaced.Prepare.{InputContext, run_script, load_inputs}

module _ (btc : Bitcoin) (hash : KeyHasher) (src : DataSource) where
  -- What an input reveals: nothing without a tapscript, else what that means.
  abbrev pub Reveals : TxIn → Option (ScriptResult SpaceScript) → Type 0
  Reveals txin meaning =
      ((btc.tapscript txin.witness ≡ none) × (meaning ≡ none))
      ⊎ ((script : List ℕ) × (btc.tapscript txin.witness ≡ some script)
          × (eval hash src (btc.instructions script) ≡ ok meaning))

  run_script-Reveals :
      (txin : TxIn) (meaning : Option (ScriptResult SpaceScript))
      → run_script btc hash src txin ≡ ok meaning
      → Reveals txin meaning
  unfolding run_script
  run_script-Reveals txin meaning h = elim (Option-cases (btc.tapscript txin.witness)) [
    | inl nothing ↦ inl (nothing, sym (cc (rw (run_script, nothing) at h)))
    | inr (script, there) ↦ inr (script, there, rw (run_script, there) at h)
  ]

  -- The context of the input at a position in `inputs`, the first of which has the index `n`.
  abbrev pub LoadedFrom : ℕ → List TxIn → InputContext → Type 0
  LoadedFrom n inputs ic =
      (k : ℕ) × (txin : TxIn) × (ic.n ≡ n + k)
      × (get_elem? inputs k ≡ some txin)
      × (src.get_spaceout txin.previous_output ≡ ok (some ic.sstxo))
      × Reveals txin ic.script

  -- Indices from `n` on, strictly ascending.
  abbrev pub Ascending : ℕ → List InputContext → Type 0
  Ascending n [] = Unit
  Ascending n (ic ∷ ics) = (n ≤ ic.n) × Ascending (ic.n + 1) ics

  later :
      (n : ℕ) (input : TxIn) (inputs : List TxIn) (ics : List InputContext)
      → All (LoadedFrom (n + 1) inputs) ics
      → All (LoadedFrom n (input ∷ inputs)) ics
  later n input inputs [] l = tt
  later n input inputs (ic ∷ ics) ((k, txin, e, here, out, script), l) =
      ((suc k, txin, omega (arith, e), here, out, script), later n input inputs ics l)

  Ascending-weaken : (n : ℕ) (ics : List InputContext) → Ascending (n + 1) ics → Ascending n ics
  Ascending-weaken n [] a = tt
  Ascending-weaken n (ic ∷ ics) (le, a) = (omega (arith, le), a)

  -- What the loop over the inputs gives.
  abbrev pub Loads : ℕ → List TxIn → List InputContext → Type 0
  Loads n inputs ics = All (LoadedFrom n inputs) ics × Ascending n ics

  pub load_inputs-Loads :
      (n : ℕ) (inputs : List TxIn) (ics : List InputContext)
      → load_inputs btc hash src n inputs ≡ ok ics
      → Loads n inputs ics
  unfolding load_inputs
  load_inputs-Loads n [] ics h = let e : [] ≡ ics = cc in rw (← e) (tt, tt)
  load_inputs-Loads n (input ∷ inputs) ics h =
      let (found, e, h₁) = >>=-eq-ok (src.get_spaceout input.previous_output) _ h in
      elim (Option-cases found) [
        | inl nothing ↦
            let (l, a) = load_inputs-Loads (n + 1) inputs ics (ground (arith, h₁, nothing)) in
            (later n input inputs ics l, Ascending-weaken n ics a)
        | inr (out, there) ↦
            let (script, r, h₂) = >>=-eq-ok (run_script btc hash src input) _ (rw there at h₁) in
            let (rest, r', h₃) = >>=-eq-ok (load_inputs btc hash src (n + 1) inputs) _ h₂ in
            let (l, a) = load_inputs-Loads (n + 1) inputs rest r' in
            let same : (record { n = n; sstxo = out; script = script }) ∷ rest ≡ ics = cc in
            rw (← same) (
              (
                (0, input, omega arith, refl, e ∙ ap ok there, run_script-Reveals input script r),
                later n input inputs rest l,
              ),
              (omega arith, a),
            )
      ]

  -- A context in the list that has the index and the output.
  abbrev pub Has : ℕ → SpaceOut → List InputContext → Type 0
  Has i out [] = ⊥
  Has i out (ic ∷ ics) = ((ic.n ≡ i) × (ic.sstxo ≡ out)) ⊎ Has i out ics

  pub load_inputs-Has :
      (n : ℕ) (inputs : List TxIn) (ics : List InputContext) (k i : ℕ) (txin : TxIn)
      (out : SpaceOut)
      → i ≡ n + k
      → load_inputs btc hash src n inputs ≡ ok ics
      → get_elem? inputs k ≡ some txin
      → src.get_spaceout txin.previous_output ≡ ok (some out)
      → Has i out ics
  unfolding load_inputs
  load_inputs-Has n [] ics k i txin out at h here known = cc
  load_inputs-Has n (input ∷ inputs) ics zero i txin out at h here known =
      let same : input ≡ txin = cc in
      let known' : src.get_spaceout input.previous_output ≡ ok (some out) = rw same known in
      let h₀ = rw known' at h in
      let (script, r, h₂) = >>=-eq-ok (run_script btc hash src input) _ h₀ in
      let (rest, r', h₃) = >>=-eq-ok (load_inputs btc hash src (n + 1) inputs) _ h₂ in
      let e : (record { n = n; sstxo = out; script = script }) ∷ rest ≡ ics = cc in
      rw (← e) (inl (omega (arith, at), refl))
  load_inputs-Has n (input ∷ inputs) ics (suc k) i txin out at h here known =
      let at' : i ≡ n + 1 + k = omega (arith, at) in
      let (found, e, h₁) = >>=-eq-ok (src.get_spaceout input.previous_output) _ h in
      elim (Option-cases found) [
        | inl nothing ↦
            (load_inputs-Has (n + 1) inputs ics k i txin out at' (ground (arith, h₁, nothing)) here
              known)
        | inr (out', there) ↦
            let (script, r, h₂) = >>=-eq-ok (run_script btc hash src input) _ (rw there at h₁) in
            let (rest, r', h₃) = >>=-eq-ok (load_inputs btc hash src (n + 1) inputs) _ h₂ in
            let same : (record { n = n; sstxo = out'; script = script }) ∷ rest ≡ ics = cc in
            rw (← same) (inr ((load_inputs-Has (n + 1) inputs rest k i txin out at' r' here known)))
      ]
