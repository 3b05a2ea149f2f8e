-- ===== src/Prepare/Relevant.antt =====
-- `TxContext::from_tx`: which transactions have a context, and where its parts come from.
use spaced.Base.{
  ℕ, ◌≡◌, ◌⊎◌, ◌↔◌, refl, ap, ◌∙◌, inl, inr, true, false, Bool, ◌&&◌, Bool-cases, Option-cases,
  List, [], ◌∷◌, none, some, ok, >>=-eq-ok, arith, get_elem?, All, any, All-get,
}
use spaced.Bitcoin.{Bitcoin, TxIn, Transaction}
use spaced.Keys.{KeyHasher}
use spaced.Spaces.{SpaceOut}
use spaced.Script.{DataSource}
use spaced.Prepare.{
  TxContext, spending_spaces, load_inputs, load_auctioned, from_tx, is_magic_lock_time,
  is_magic_output,
}
use spaced.Prepare.Inputs.{Loads, Has, load_inputs-Loads, load_inputs-Has}

-- The source knows nothing of the output that an input spends.
abbrev pub IsUnknown : DataSource → TxIn → Type 0
IsUnknown src txin = src.get_spaceout txin.previous_output ≡ ok none

spending-none :
    (src : DataSource) (inputs : List TxIn)
    → spending_spaces src inputs ≡ ok false
    → All (IsUnknown src) inputs
unfolding spending_spaces
spending-none src [] h = tt
spending-none src (input ∷ inputs) h =
    let (found, e, h₁) = >>=-eq-ok (src.get_spaceout input.previous_output) _ h in
    elim (Option-cases found) [
      | inl nothing ↦ (e ∙ ap ok nothing, spending-none src inputs (ground (arith, h₁, nothing)))
      | inr (out, there) ↦ absurd (ground (arith, h₁, there))
    ]

none-spending :
    (src : DataSource) (inputs : List TxIn)
    → All (IsUnknown src) inputs
    → spending_spaces src inputs ≡ ok false
unfolding spending_spaces
none-spending src [] u = refl
none-spending src (input ∷ inputs) (u, us) = rw u (none-spending src inputs us)

-- The two conditions of a transaction that announces a tracked output.
abbrev pub is_magic_tx : Transaction → Bool
is_magic_tx tx = is_magic_lock_time tx.lock_time && any is_magic_output tx.output

module _ (btc : Bitcoin) (hash : KeyHasher) (src : DataSource) where
  -- Where the parts of a context come from.
  abbrev FromSource : Transaction → TxContext → Type 0
  FromSource tx ctx =
      (load_inputs btc hash src 0 tx.input ≡ ok ctx.inputs)
      × (load_auctioned btc hash src tx ≡ ok ctx.auctioned_output)

  abbrev FromMagic : Transaction → TxContext → Type 0
  FromMagic tx ctx =
      All (IsUnknown src) tx.input
      × (is_magic_tx tx ≡ true)
      × (ctx.inputs ≡ [])
      × (ctx.auctioned_output ≡ none)

  from_tx-parts :
      (tx : Transaction) (ctx : TxContext)
      → from_tx btc hash src tx ≡ ok (some ctx)
      → FromSource tx ctx ⊎ FromMagic tx ctx
  unfolding from_tx
  from_tx-parts tx ctx h =
      let (spending, e, h₁) = >>=-eq-ok (spending_spaces src tx.input) _ h in
      elim (Bool-cases spending) [
        | inl yes' ↦
            let h₁' = rw yes' at h₁ in
            let (auctioned, a, h₂) = >>=-eq-ok (load_auctioned btc hash src tx) _ h₁' in
            let (inputs, i, h₃) = >>=-eq-ok (load_inputs btc hash src 0 tx.input) _ h₂ in
            inl (ground (arith, i, h₃), ground (arith, a, h₃))
        | inr no' ↦
            let u = spending-none src tx.input (e ∙ ap ok no') in
            elim (Bool-cases (is_magic_tx tx)) [
              | inl m ↦ inr (u, m, ground (arith, h₁, no', m), ground (arith, h₁, no', m))
              | inr m ↦ absurd (ground (arith, h₁, no', m))
            ]
      ]

  -- The inputs of a context are at ascending indices of the transaction's inputs; each holds the output
  -- that the source knows for the outpoint spent there, and no script if the input has no tapscript,
  -- else what the evaluation of the tapscript's instructions gives.
  pub from_tx-Loads :
      (tx : Transaction) (ctx : TxContext)
      → from_tx btc hash src tx ≡ ok (some ctx)
      → Loads btc hash src 0 tx.input ctx.inputs
  from_tx-Loads tx ctx h = elim (from_tx-parts tx ctx h) [
    | inl (i, _) ↦ load_inputs-Loads btc hash src 0 tx.input ctx.inputs i
    | inr (_, _, e, _) ↦ rw e (tt, tt)
  ]

  All-get-unknown :
      (inputs : List TxIn) (k : ℕ) (txin : TxIn) (out : SpaceOut)
      → All (IsUnknown src) inputs
      → get_elem? inputs k ≡ some txin
      → src.get_spaceout txin.previous_output ≡ ok (some out)
      → ⊥
  All-get-unknown inputs k txin out u here known =
      cc (All-get (IsUnknown src) inputs k u here, known)

  -- Every input that spends an output known to the source is in the context, with its index and that
  -- output.
  pub from_tx-Has :
      (tx : Transaction) (ctx : TxContext) (k : ℕ) (txin : TxIn) (out : SpaceOut)
      → from_tx btc hash src tx ≡ ok (some ctx)
      → get_elem? tx.input k ≡ some txin
      → src.get_spaceout txin.previous_output ≡ ok (some out)
      → Has btc hash src k out ctx.inputs
  from_tx-Has tx ctx k txin out h here known = elim (from_tx-parts tx ctx h) [
    | inl (i, _) ↦
        (load_inputs-Has btc hash src 0 tx.input ctx.inputs k k txin out (omega arith) i here known)
    | inr (u, _, _, _) ↦ absurd (All-get-unknown tx.input k txin out u here known)
  ]

  none→unknown :
      (tx : Transaction)
      → from_tx btc hash src tx ≡ ok none
      → All (IsUnknown src) tx.input × (is_magic_tx tx ≡ false)
  unfolding from_tx
  none→unknown tx h =
      let (spending, e, h₁) = >>=-eq-ok (spending_spaces src tx.input) _ h in
      elim (Bool-cases spending) [
        | inl yes' ↦
            let (auctioned, a, h₂) = >>=-eq-ok (load_auctioned btc hash src tx) _ (rw yes' at h₁) in
            let (inputs, i, h₃) = >>=-eq-ok (load_inputs btc hash src 0 tx.input) _ h₂ in cc
        | inr no' ↦ (spending-none src tx.input (e ∙ ap ok no'), ground (arith, h₁, no'))
      ]

  -- A transaction is irrelevant exactly if the source knows no output that it spends, and its lock time
  -- or all its outputs lack the magic.
  pub from_tx-none_iff :
      (tx : Transaction)
      → (from_tx btc hash src tx ≡ ok none)
        ↔ (All (IsUnknown src) tx.input × (is_magic_tx tx ≡ false))
  unfolding from_tx
  from_tx-none_iff tx = (none→unknown tx, λ (u, m). rw (none-spending src tx.input u, m) refl)
