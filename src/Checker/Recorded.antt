-- ===== src/Checker/Recorded.antt =====
-- What a change set writes, and how writes add up in the maps of an overlay.
use spaced.Base.{
  ◌≡◌, ◌∙◌, ap, sym, refl, inl, inr, Bool, Option-cases, List, [], ◌∷◌, ◌++◌, Option, none, some,
  Result, ok, err, >>=-eq-ok, get_elem?, bytes_eq, if◌then◌else◌, ℕ,
}
use spaced.Base.Loop.{for_each}
use spaced.Bitcoin.{Bitcoin, OutPoint, Transaction, outpoint_eq}
use spaced.Keys.{Hash, KeyHasher, space_key}
use spaced.Spaces.{SpaceOut, Space, as_u32}
use spaced.Store.{Spacedb}
use spaced.Node.{name_hash}
use spaced.Validate.{TxChangeSet, SpaceIn, UpdateOut, revoke, rolled_out, bid_update}
use spaced.Checker.{TxChecker, find_space, find_spaceout}

abbrev pub or_else : {A : Type 0} → Option A → Option A → Option A
or_else (some a) other = some a
or_else none other = other

or_else_assoc : {A : Type 0} (a b c : Option A) → or_else (or_else a b) c ≡ or_else a (or_else b c)
or_else_assoc none b c = refl
or_else_assoc (some a) b c = refl

module _ {K V : Type 0} (eq : K → K → Bool) (key : K) where
  -- The last of a sequence of writes to a key.
  abbrev pub last_write : List (K × V) → Option V
  last_write [] = none
  last_write ((k, v) ∷ ws) = or_else (last_write ws) (if eq key k then some v else none)

  last_write-append :
      (ws vs : List (K × V)) → last_write (ws ++ vs) ≡ or_else (last_write vs) (last_write ws)
  last_write-append [] vs = elim (Option-cases (last_write vs)) [
    | inl e ↦ rw e refl
    | inr (v, e) ↦ rw e refl
  ]
  last_write-append ((k, v) ∷ ws) vs =
      rw (last_write-append ws vs)
        (or_else_assoc (last_write vs) (last_write ws) (if eq key k then some v else none))

-- The writes of a list, in its order.
abbrev pub all_writes : {A B : Type 0} → (A → List B) → List A → List B
all_writes f [] = []
all_writes f (x ∷ xs) = f x ++ all_writes f xs

-- A spent output is gone.
abbrev pub spend_writes : Transaction → SpaceIn → List (OutPoint × Option SpaceOut)
spend_writes tx spend = elim (get_elem? tx.input spend.n) [
  | none ↦ []
  | some input ↦ (input.previous_output, none) ∷ []
]

abbrev pub place_of : List ℕ → SpaceOut → OutPoint
place_of txid out = record { txid = txid; vout = as_u32 out.n }

-- A created output is there.
abbrev pub create_writes : List ℕ → SpaceOut → List (OutPoint × Option SpaceOut)
create_writes txid create = (place_of txid create, some create) ∷ []

-- A revoked output is gone, and any other that is updated is there.
abbrev pub update_writes : UpdateOut → List (OutPoint × Option SpaceOut)
update_writes update = elim update.kind [
  | revoke _ ↦ (place_of update.output.txid update.output.spaceout, none) ∷ []
  | rolled_out _ ↦
      (place_of update.output.txid update.output.spaceout, some update.output.spaceout) ∷ []
  | bid_update ↦
      (place_of update.output.txid update.output.spaceout, some update.output.spaceout) ∷ []
]

-- The outputs that a change set writes: spends, then creates, then updates.
abbrev pub out_writes : Bitcoin → Transaction → TxChangeSet → List (OutPoint × Option SpaceOut)
out_writes btc tx cs =
    all_writes (spend_writes tx) cs.spends
    ++ (all_writes (create_writes (btc.compute_txid tx)) cs.creates
        ++ all_writes update_writes cs.updates)

abbrev pub no_names : SpaceIn → List (Hash × Option OutPoint)
no_names spend = []

module _ (hash : KeyHasher) where
  -- A name under its key, if it is one.
  abbrev pub name_write : Space → Option OutPoint → List (Hash × Option OutPoint)
  name_write space at = elim (name_hash hash space) [ ok h ↦ (space_key h, at) ∷ [] | err _ ↦ [] ]

  -- The name of a created output leads to it.
  abbrev pub create_names : List ℕ → SpaceOut → List (Hash × Option OutPoint)
  create_names txid create = elim create.space [
    | none ↦ []
    | some space ↦ name_write space (some (place_of txid create))
  ]

  -- The name of a revoked space leads nowhere, and that of any other to its output.
  abbrev pub update_names : UpdateOut → List (Hash × Option OutPoint)
  update_names update = elim update.output.spaceout.space [
    | none ↦ []
    | some space ↦ elim update.kind [
      | revoke _ ↦ name_write space none
      | rolled_out _ ↦ name_write space (some (place_of update.output.txid update.output.spaceout))
      | bid_update ↦ name_write space (some (place_of update.output.txid update.output.spaceout))
    ]
  ]

  abbrev pub name_writes : Bitcoin → Transaction → TxChangeSet → List (Hash × Option OutPoint)
  name_writes btc tx cs =
      all_writes (create_names (btc.compute_txid tx)) cs.creates
      ++ all_writes update_names cs.updates

module _ (sdb : Spacedb) where
  -- The maps of an overlay after writes.
  pub record Leaves (outs : List (OutPoint × Option SpaceOut))
      (names : List (Hash × Option OutPoint)) (c c' : TxChecker sdb) : Type 0 where
    pub same : c'.original ≡ c.original
    pub in_outs :
        (at : OutPoint)
        → find_spaceout at c'.spaceouts
          ≡ or_else (last_write outpoint_eq at outs) (find_spaceout at c.spaceouts)
    pub in_names :
        (key : Hash)
        → find_space key c'.spaces
          ≡ or_else (last_write bytes_eq key names) (find_space key c.spaces)

  no-Leaves : (c : TxChecker sdb) → Leaves [] [] c c
  no-Leaves c = record { same = refl; in_outs = λ at. refl; in_names = λ key. refl }

  pub then-Leaves :
      {outs outs' : List (OutPoint × Option SpaceOut)}
      {names names' : List (Hash × Option OutPoint)} {c₁ c₂ c₃ : TxChecker sdb}
      → Leaves outs names c₁ c₂
      → Leaves outs' names' c₂ c₃
      → Leaves (outs ++ outs') (names ++ names') c₁ c₃
  then-Leaves {outs} {outs'} {names} {names'} {c₁} w v = record {
    same = v.same ∙ w.same;
    in_outs = λ at.
        v.in_outs at
        ∙ ap (or_else (last_write outpoint_eq at outs')) (w.in_outs at)
        ∙ sym (
            or_else_assoc (last_write outpoint_eq at outs') (last_write outpoint_eq at outs)
              (find_spaceout at c₁.spaceouts))
        ∙ ap (λ o. or_else o (find_spaceout at c₁.spaceouts))
            (sym (last_write-append outpoint_eq at outs outs'));
    in_names = λ key.
        v.in_names key
        ∙ ap (or_else (last_write bytes_eq key names')) (w.in_names key)
        ∙ sym (
            or_else_assoc (last_write bytes_eq key names') (last_write bytes_eq key names)
              (find_space key c₁.spaces))
        ∙ ap (λ o. or_else o (find_space key c₁.spaces))
            (sym (last_write-append bytes_eq key names names'));
  }

  pub each-Leaves :
      {A : Type 0} (f : A → TxChecker sdb → Result (TxChecker sdb))
      (outs : A → List (OutPoint × Option SpaceOut)) (names : A → List (Hash × Option OutPoint))
      → ((x : A) (c c' : TxChecker sdb) → f x c ≡ ok c' → Leaves (outs x) (names x) c c')
      → (xs : List A) (c c' : TxChecker sdb) → for_each f xs c ≡ ok c'
      → Leaves (all_writes outs xs) (all_writes names xs) c c'
  unfolding for_each
  each-Leaves f outs names one [] c c' h = let same : c ≡ c' = cc h in rw (← same) (no-Leaves c)
  each-Leaves f outs names one (x ∷ xs) c c' h =
      let (c₁, e, k) = >>=-eq-ok (f x c) _ h in
      then-Leaves (one x c c₁ e) (each-Leaves f outs names one xs c₁ c' k)
