-- ===== src/Wallet/Reveals.antt =====
-- The commitments of a transaction are where the wallet will look for them.
use spaced.Wallet.Amounts.{space_dust, magic_dust}
use spaced.Wallet.Requests.{SpaceTransfer, CoinTransfer}
use spaced.Bitcoin.{TxOut}
use spaced.Wallet.Recipients.{
  add_commitment, add_padding, layout_before, prepare_layout, add_spaces, dust_for, add_recipient,
  add_placeholders, add_commitments, Layout, add_coins,
}
use mathlib.Core.List.{append-nil, append_assoc}
use spaced.Base.{
  ◌^◌, ◌≤◌, ◌<◌, inl, inr, ◌==◌, ◌*◌, Bool-cases, none, sym, ◌%◌, refl, arith, ap, [], zero, ◌∙◌,
  some, ◌+◌, ◌≡◌, length-append, ◌∷◌, ◌++◌, suc, get_elem?, length, Option, ℕ, List,
}

module _ (minimal_non_dust : List ℕ → ℕ) (dust : Option ℕ) where
  abbrev pub commitment : List ℕ → TxOut
  commitment address = record {
    value = magic_dust (dust_for minimal_non_dust dust address);
    script_pubkey = address;
  }

  -- Each index is that of an output which commits to the address at the same place.
  abbrev pub Commits : List TxOut → List ℕ → List (List ℕ) → Type 0
  Commits outputs [] [] = Unit
  Commits outputs [] (a ∷ rs) = ⊥
  Commits outputs (v ∷ vs) [] = ⊥
  Commits outputs (v ∷ vs) (a ∷ rs) =
      (get_elem? outputs v ≡ some (commitment a)) × Commits outputs vs rs

  get_elem?-more :
      (xs ys : List TxOut) (i : ℕ) (x : TxOut)
      → get_elem? xs i ≡ some x
      → get_elem? (xs ++ ys) i ≡ some x
  get_elem?-more [] ys i x e = absurd (cc e)
  get_elem?-more (z ∷ xs) ys zero x e = e
  get_elem?-more (z ∷ xs) ys (suc i) x e = get_elem?-more xs ys i x e

  Commits-more :
      (xs ys : List TxOut) (vs : List ℕ) (rs : List (List ℕ))
      → Commits xs vs rs
      → Commits (xs ++ ys) vs rs
  Commits-more xs ys [] [] c = tt
  Commits-more xs ys [] (a ∷ rs) c = c
  Commits-more xs ys (v ∷ vs) [] c = c
  Commits-more xs ys (v ∷ vs) (a ∷ rs) (e, c) =
      (get_elem?-more xs ys v (commitment a) e, Commits-more xs ys vs rs c)

  Commits-append :
      (xs : List TxOut) (vs : List ℕ) (rs : List (List ℕ)) (v : ℕ) (a : List ℕ)
      → Commits xs vs rs
      → get_elem? xs v ≡ some (commitment a)
      → Commits xs (vs ++ (v ∷ [])) (rs ++ (a ∷ []))
  Commits-append xs [] [] v a c e = (e, tt)
  Commits-append xs [] (b ∷ rs) v a c e = absurd c
  Commits-append xs (w ∷ vs) [] v a c e = absurd c
  Commits-append xs (w ∷ vs) (b ∷ rs) v a (d, c) e = (d, Commits-append xs vs rs v a c e)

  get_elem?-last :
      (xs : List TxOut) (x : TxOut) (k : ℕ) → length xs ≡ k → get_elem? (xs ++ (x ∷ [])) k ≡ some x
  get_elem?-last [] x k e = rw (← e) refl
  get_elem?-last (y ∷ xs) x zero e = absurd (omega (arith, e))
  get_elem?-last (y ∷ xs) x (suc k) e = get_elem?-last xs x k (omega (arith, e))

  -- A layout whose counter is right and whose commitments are to `rs`.
  pub record IsLaid (rs : List (List ℕ)) (l : Layout) : Type 0 where
    pub counted : length l.outputs ≡ l.vout
    pub commits : Commits l.outputs l.tap_outputs rs

  add_recipient-IsLaid :
      (rs : List (List ℕ)) (script : List ℕ) (value : ℕ) (l : Layout)
      → IsLaid rs l
      → IsLaid rs (add_recipient script value l)
  add_recipient-IsLaid rs script value l x = record {
    counted = length-append l.outputs _ ∙ ap (λ n. n + 1) x.counted;
    commits = Commits-more l.outputs _ l.tap_outputs rs x.commits;
  }

  add_placeholders-IsLaid :
      (addr1 addr2 : ℕ → List ℕ) (i left : ℕ) (rs : List (List ℕ)) (l : Layout)
      → IsLaid rs l
      → IsLaid rs (add_placeholders minimal_non_dust dust addr1 addr2 i left l)
  unfolding add_placeholders
  add_placeholders-IsLaid addr1 addr2 i zero rs l x = x
  add_placeholders-IsLaid addr1 addr2 i (suc left) rs l x =
      add_placeholders-IsLaid addr1 addr2 (i + 1) left rs _
        (add_recipient-IsLaid rs _ _ _ (add_recipient-IsLaid rs _ _ l x))

  add_commitments-IsLaid :
      (more rs : List (List ℕ)) (l : Layout)
      → IsLaid rs l
      → IsLaid (rs ++ more) (add_commitments minimal_non_dust dust more l)
  unfolding add_commitments
  add_commitments-IsLaid [] rs l x = rw (append-nil rs) x
  add_commitments-IsLaid (a ∷ more) rs l x =
      let y = add_recipient-IsLaid rs a (magic_dust (dust_for minimal_non_dust dust a)) l x in
      let z : IsLaid (rs ++ (a ∷ [])) (add_commitment minimal_non_dust dust a l) = record {
        counted = y.counted;
        commits =
            Commits-append _ l.tap_outputs rs l.vout a y.commits
              (get_elem?-last l.outputs (commitment a) l.vout x.counted);
      } in
      rw (← append_assoc rs (a ∷ []) more)
        (add_commitments-IsLaid more (rs ++ (a ∷ [])) (add_commitment minimal_non_dust dust a l) z)

  add_coins-IsLaid :
      (cs : List CoinTransfer) (rs : List (List ℕ)) (l : Layout)
      → IsLaid rs l
      → IsLaid rs (add_coins minimal_non_dust dust cs l)
  unfolding add_coins
  add_coins-IsLaid [] rs l x = x
  add_coins-IsLaid (c ∷ cs) rs l x =
      add_coins-IsLaid cs rs _ (add_recipient-IsLaid rs c.recipient c.amount l x)

  -- The output of a transferred space.
  abbrev pub moved : SpaceTransfer → TxOut
  moved t = record {
    value = space_dust (2 * minimal_non_dust t.space.spaceout.script_pubkey);
    script_pubkey = t.recipient;
  }

  -- Transfers of spaces add outputs at the end.
  add_spaces-parts :
      (ts : List SpaceTransfer) (l : Layout)
      → (ys : List TxOut) × ((add_spaces minimal_non_dust dust ts l).outputs ≡ l.outputs ++ ys)
        × ((add_spaces minimal_non_dust dust ts l).tap_outputs ≡ l.tap_outputs)
  unfolding add_spaces
  add_spaces-parts [] l = ([], sym (append-nil l.outputs), refl)
  add_spaces-parts (t ∷ ts) l =
      let l' = record l { outputs = l.outputs ++ (moved t ∷ []) } in
      let (ys, e, f) = add_spaces-parts ts l' in
      (moved t ∷ ys, e ∙ append_assoc l.outputs (moved t ∷ []) ys, f)

  add_padding-parts :
      (change : List ℕ) (rs : List (List ℕ)) (l : Layout)
      → IsLaid rs l
      → Commits
          (add_padding minimal_non_dust dust change l).outputs
          (add_padding minimal_non_dust dust change l).tap_outputs
          rs
        × (length (add_padding minimal_non_dust dust change l).outputs % 2 ≡ 1)
  unfolding add_padding
  add_padding-parts change rs l x = elim (Bool-cases (l.vout % 2 == 0)) [
    | inr odd ↦ rw odd (x.commits, ground (arith, x.counted, odd))
    | inl even ↦
        let out : TxOut = record {
          value = dust_for minimal_non_dust dust change;
          script_pubkey = change;
        } in
        rw even (
          Commits-more l.outputs (out ∷ []) l.tap_outputs rs x.commits,
          ground (arith, x.counted, even, length-append l.outputs (out ∷ [])),
        )
  ]

  layout_before-IsLaid :
      (addr1 addr2 : ℕ → List ℕ) (auction_outputs : Option ℕ) (reveals : List (List ℕ))
      (coins : List CoinTransfer)
      → IsLaid reveals
          (layout_before minimal_non_dust dust addr1 addr2 auction_outputs reveals coins)
  unfolding layout_before
  layout_before-IsLaid addr1 addr2 none reveals coins =
      add_coins-IsLaid coins reveals _
        (add_commitments-IsLaid reveals [] _ (record { counted = refl; commits = tt }))
  layout_before-IsLaid addr1 addr2 (some count) reveals coins = add_coins-IsLaid coins reveals _ (
      add_commitments-IsLaid reveals [] _ (
        add_placeholders-IsLaid addr1 addr2 0 count [] _ (record { counted = refl; commits = tt })))

  -- An output for a script: its amount is within ten of the dust, and the protocol tracks it.
  pub record IsTracked (script : List ℕ) (out : TxOut) : Type 0 where
    pub to_script : out.script_pubkey ≡ script
    pub magic : out.value % 10 ≡ 2
    pub least : dust_for minimal_non_dust dust script ≤ out.value + 7
    pub most : out.value ≤ dust_for minimal_non_dust dust script + 2

  commitment-IsTracked :
      (script : List ℕ)
      → dust_for minimal_non_dust dust script < 2 ^ 63
      → IsTracked script (commitment script)
  unfolding magic_dust
  commitment-IsTracked script small = record {
    to_script = refl;
    magic = omega (arith, small);
    least = omega (arith, small);
    most = omega (arith, small);
  }

  -- Each index is that of a tracked output for the script at the same place.
  abbrev pub Tracks : List TxOut → List ℕ → List (List ℕ) → Type 0
  Tracks outputs [] [] = Unit
  Tracks outputs [] (a ∷ rs) = ⊥
  Tracks outputs (v ∷ vs) [] = ⊥
  Tracks outputs (v ∷ vs) (a ∷ rs) =
      ((out : TxOut) × (get_elem? outputs v ≡ some out) × IsTracked a out) × Tracks outputs vs rs

  Commits-Tracks :
      (outputs : List TxOut) (vs : List ℕ) (rs : List (List ℕ))
      → ((script : List ℕ) → dust_for minimal_non_dust dust script < 2 ^ 63)
      → Commits outputs vs rs
      → Tracks outputs vs rs
  Commits-Tracks outputs [] [] small c = tt
  Commits-Tracks outputs [] (a ∷ rs) small c = c
  Commits-Tracks outputs (v ∷ vs) [] small c = c
  Commits-Tracks outputs (v ∷ vs) (a ∷ rs) small (e, c) =
      ((commitment a, e, commitment-IsTracked a (small a)), Commits-Tracks outputs vs rs small c)

  -- In the transaction that prepares requests, the recorded indices are those of outputs to the
  -- scripts which are to be revealed, each to its own, with an amount that ends in 2, as the protocol
  -- tracks it, and is within ten of the dust for the script, which is below 2 ^ 63. Where spaces are
  -- transferred, the first of them goes to its recipient by an output at an odd index, with an amount
  -- that ends in 6.
  pub prepare_layout-Commits :
      (addr1 addr2 : ℕ → List ℕ) (change : List ℕ) (auction_outputs : Option ℕ)
      (reveals : List (List ℕ)) (coins : List CoinTransfer) (t : SpaceTransfer)
      (ts : List SpaceTransfer)
      → ((script : List ℕ) → dust_for minimal_non_dust dust script < 2 ^ 63)
      → minimal_non_dust t.space.spaceout.script_pubkey < 2 ^ 62
      → Tracks
          (prepare_layout minimal_non_dust dust addr1 addr2 change auction_outputs reveals coins
            []).outputs
          (prepare_layout minimal_non_dust dust addr1 addr2 change auction_outputs reveals coins
            []).tap_outputs
          reveals
        × Tracks
            (prepare_layout minimal_non_dust dust addr1 addr2 change auction_outputs reveals coins
              (t ∷ ts)).outputs
            (prepare_layout minimal_non_dust dust addr1 addr2 change auction_outputs reveals coins
              (t ∷ ts)).tap_outputs
            reveals
        × ((k : ℕ) × (out : TxOut) × (k % 2 ≡ 1)
            × (get_elem?
                  (prepare_layout minimal_non_dust dust addr1 addr2 change auction_outputs reveals
                    coins
                    (t ∷ ts)).outputs
                  k
                ≡ some out)
            × (out.script_pubkey ≡ t.recipient)
            × (out.value % 10 ≡ 6))
  unfolding prepare_layout add_spaces space_dust
  prepare_layout-Commits addr1 addr2 change auction_outputs reveals coins t ts small small_space =
      let l = layout_before minimal_non_dust dust addr1 addr2 auction_outputs reveals coins in
      let x = layout_before-IsLaid addr1 addr2 auction_outputs reveals coins in
      let p = add_padding minimal_non_dust dust change l in
      let (c, odd) = add_padding-parts change reveals l x in
      let p' = record p { outputs = p.outputs ++ (moved t ∷ []) } in
      let (ys, e, f) = add_spaces-parts ts p' in
      let c' =
        Commits-more p'.outputs ys p.tap_outputs reveals
          (Commits-more p.outputs (moved t ∷ []) p.tap_outputs reveals c) in
      (
        Commits-Tracks _ _ reveals small x.commits,
        Commits-Tracks _ _ reveals small (rw (e, f) c'),
        (
          length p.outputs,
          moved t,
          odd,
          rw e (
              get_elem?-more p'.outputs ys (length p.outputs) (moved t)
                (get_elem?-last p.outputs (moved t) (length p.outputs) refl)),
          refl,
          omega (arith, small_space),
        ),
      )
