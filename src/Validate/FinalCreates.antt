-- ===== src/Validate/FinalCreates.antt =====
-- The created outputs at the end of `process`: the passes over the covenants, and the magic outputs.
use spaced.Base.{
  ℕ, ◌≡◌, refl, ◌∙◌, Bool, true, false, List, [], ◌∷◌, map, Option, none, some, arith, All,
}
use spaced.Bitcoin.{TxOut}
use spaced.Spaces.{SpaceOut, Space, Covenant, bid, transfer, reserved, is_empty, Bytes}
use spaced.Validate.{creates_at}
use spaced.Validate.Process.{reserve_output, set_data, apply_covenants}
use spaced.Validate.Creates.{AreOutputs, IsOutput, Distinct, IsTransfer}

-- A space at the end of the transaction: reserved if the transaction reserves, and else transferred,
-- with the data that the transaction sets, if any.
abbrev pub Settled : Bool → Bytes → Option Space → Type 0
Settled reserving bytes none = Unit {0}
Settled reserving bytes (some space) = elim space.covenant [
  | bid b ↦ ⊥
  | transfer _ held ↦ (reserving ≡ false) × ((is_empty bytes ≡ false) → held ≡ some bytes)
  | reserved ↦ reserving ≡ true
]

-- A pass over the entries that keeps all but the space.
record Pass (f : SpaceOut → SpaceOut) (C D : Option Space → Type 0) : Type 0 where
  keeps_n : (x : SpaceOut) → (f x).n ≡ x.n
  keeps_value : (x : SpaceOut) → (f x).value ≡ x.value
  keeps_script : (x : SpaceOut) → (f x).script_pubkey ≡ x.script_pubkey
  turns : (x : SpaceOut) → C x.space → D (f x).space

module _ (f : SpaceOut → SpaceOut) (C D : Option Space → Type 0) (pass : Pass f C D) where
  creates_at-map : (n : ℕ) (xs : List SpaceOut) → creates_at n (map f xs) ≡ creates_at n xs
  creates_at-map n [] = refl
  creates_at-map n (x ∷ xs) = ground (arith, pass.keeps_n x, creates_at-map n xs)

  Distinct-map : (xs : List SpaceOut) → Distinct xs → Distinct (map f xs)
  Distinct-map [] d = tt
  Distinct-map (x ∷ xs) (e, d) = (rw (pass.keeps_n x, creates_at-map x.n xs) e, Distinct-map xs d)

  IsOutput-pass :
      (outputs : List TxOut) (x : SpaceOut) → IsOutput C outputs x → IsOutput D outputs (f x)
  IsOutput-pass outputs x o = record {
    output = o.output;
    there = rw (pass.keeps_n x) o.there;
    same_value = pass.keeps_value x ∙ o.same_value;
    same_script = pass.keeps_script x ∙ o.same_script;
    carries = pass.turns x o.carries;
  }

  AllOutputs-pass :
      (outputs : List TxOut) (xs : List SpaceOut)
      → All (IsOutput C outputs) xs
      → All (IsOutput D outputs) (map f xs)
  AllOutputs-pass outputs [] a = tt
  AllOutputs-pass outputs (x ∷ xs) (o, a) =
      (IsOutput-pass outputs x o, AllOutputs-pass outputs xs a)

  AreOutputs-pass :
      (outputs : List TxOut) (xs : List SpaceOut)
      → AreOutputs C outputs xs
      → AreOutputs D outputs (map f xs)
  AreOutputs-pass outputs xs v = record {
    distinct = Distinct-map xs v.distinct;
    each = AllOutputs-pass outputs xs v.each;
  }

-- A claim about a pass, by the covenant of the space.
by_covenant {ℓ} :
    (P : SpaceOut → Type ℓ)
    → ((x : SpaceOut) → P (record x { space = none }))
    → ((x : SpaceOut) (name : List ℕ) (c : Covenant)
        → P (record x { space = some (record { name = name; covenant = c }) }))
    → (x : SpaceOut) → P x
by_covenant P bare held x = go x.space
  where
    go : (o : Option Space) → P (record x { space = o })
    go none = bare x
    go (some space) = held x space.name space.covenant

module _ (bytes : Bytes) where
  reserve_held :
      (x : SpaceOut) (name : List ℕ) (c : Covenant)
      → let y = record x { space = some (record { name = name; covenant = c }) } in
        IsTransfer y.space → Settled true bytes (reserve_output y).space
  unfolding reserve_output
  reserve_held x name (bid b) t = t
  reserve_held x name (transfer _ _) t = refl
  reserve_held x name reserved t = refl

  reserve-Pass : Pass reserve_output IsTransfer (Settled true bytes)
  unfolding reserve_output
  reserve-Pass = record {
    keeps_n = λ x. ground arith;
    keeps_value = λ x. ground arith;
    keeps_script = λ x. ground arith;
    turns =
        by_covenant (λ x. IsTransfer x.space → Settled true bytes (reserve_output x).space)
          (λ x t. absurd t) reserve_held;
  }

  set_held :
      (x : SpaceOut) (name : List ℕ) (c : Covenant)
      → let y = record x { space = some (record { name = name; covenant = c }) } in
        IsTransfer y.space → Settled false bytes (set_data bytes y).space
  unfolding set_data
  set_held x name (bid b) t = t
  set_held x name (transfer _ _) t = (refl, λ _. refl)
  set_held x name reserved t = absurd t

  set-Pass : Pass (set_data bytes) IsTransfer (Settled false bytes)
  unfolding set_data
  set-Pass = record {
    keeps_n = λ x. ground arith;
    keeps_value = λ x. ground arith;
    keeps_script = λ x. ground arith;
    turns =
        by_covenant (λ x. IsTransfer x.space → Settled false bytes (set_data bytes x).space)
          (λ x t. absurd t) set_held;
  }

  set_reserved :
      (x : SpaceOut) (name : List ℕ) (c : Covenant)
      → let y = record x { space = some (record { name = name; covenant = c }) } in
        Settled true bytes y.space → Settled true bytes (set_data bytes y).space
  unfolding set_data
  set_reserved x name (bid b) t = t
  set_reserved x name (transfer _ _) (e, _) = cc
  set_reserved x name reserved t = t

  set_after-Pass : Pass (set_data bytes) (Settled true bytes) (Settled true bytes)
  unfolding set_data
  set_after-Pass = record {
    keeps_n = λ x. ground arith;
    keeps_value = λ x. ground arith;
    keeps_script = λ x. ground arith;
    turns =
        by_covenant (λ x. Settled true bytes x.space → Settled true bytes (set_data bytes x).space)
          (λ x t. tt) set_reserved;
  }

  plain_held :
      (x : SpaceOut) (name : List ℕ) (c : Covenant)
      → is_empty bytes ≡ true
      → let y = record x { space = some (record { name = name; covenant = c }) } in
        IsTransfer y.space → Settled false bytes y.space
  plain_held x name (bid b) empty t = t
  plain_held x name (transfer _ _) empty t = (refl, λ full. cc)
  plain_held x name reserved empty t = absurd t

  plain-All :
      (outputs : List TxOut) (xs : List SpaceOut)
      → is_empty bytes ≡ true
      → All (IsOutput IsTransfer outputs) xs
      → All (IsOutput (Settled false bytes) outputs) xs
  plain-All outputs [] empty a = tt
  plain-All outputs (x ∷ xs) empty (o, a) = (
    record {
      output = o.output;
      there = o.there;
      same_value = o.same_value;
      same_script = o.same_script;
      carries =
          by_covenant (λ y. IsTransfer y.space → Settled false bytes y.space) (λ y t. absurd t)
            (λ y name c. plain_held y name c empty) x o.carries;
    },
    plain-All outputs xs empty a,
  )

-- The passes settle every space.
pub apply_covenants-Settled :
    (outputs : List TxOut) (reserving : Bool) (bytes : Bytes) (xs : List SpaceOut)
    → AreOutputs IsTransfer outputs xs
    → AreOutputs (Settled reserving bytes) outputs (apply_covenants reserving bytes xs)
unfolding apply_covenants
apply_covenants-Settled outputs true [] xs v =
    AreOutputs-pass reserve_output IsTransfer (Settled true []) (reserve-Pass []) outputs xs v
apply_covenants-Settled outputs true (b ∷ bs) xs v =
    AreOutputs-pass (set_data (b ∷ bs)) (Settled true (b ∷ bs)) (Settled true (b ∷ bs))
      (set_after-Pass (b ∷ bs)) outputs (map reserve_output xs)
      (AreOutputs-pass reserve_output IsTransfer (Settled true (b ∷ bs)) (reserve-Pass (b ∷ bs))
        outputs xs v)
apply_covenants-Settled outputs false [] xs v = record {
  distinct = v.distinct;
  each = plain-All [] outputs xs refl v.each;
}
apply_covenants-Settled outputs false (b ∷ bs) xs v =
    AreOutputs-pass (set_data (b ∷ bs)) IsTransfer (Settled false (b ∷ bs)) (set-Pass (b ∷ bs))
      outputs xs v
