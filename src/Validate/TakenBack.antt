-- ===== src/Validate/TakenBack.antt =====
-- The spend of a reserved space is taken back from the spends of a change set.
use spaced.Base.{
  ℕ, ◌≡◌, ◌≢◌, ◌==◌, ==_iff, inl, inr, Bool-cases, Option-cases, List, [], ◌∷◌, none, some,
}
use spaced.Validate.{SpaceIn, TxChangeSet, position, remove_at}
use spaced.Validate.Spend.{unspend}

-- The first spend with an index is gone, if there is one, and the others stay in their order.
pub data TakenBack (i : ℕ) : List SpaceIn → List SpaceIn → Type 0 where
  absent : TakenBack i [] []
  found : (s : SpaceIn) (ss : List SpaceIn) → s.n ≡ i → TakenBack i (s ∷ ss) ss
  later :
      (s : SpaceIn) (ss ts : List SpaceIn)
      → s.n ≢ i
      → TakenBack i ss ts
      → TakenBack i (s ∷ ss) (s ∷ ts)

abbrev without : ℕ → List SpaceIn → List SpaceIn
without i ss = elim (position i ss) [ none ↦ ss | some pos ↦ remove_at pos ss ]

without-TakenBack : (i : ℕ) (ss : List SpaceIn) → TakenBack i ss (without i ss)
unfolding position remove_at
without-TakenBack i [] = absent
without-TakenBack i (s ∷ ss) = elim (Bool-cases (s.n == i)) [
  | inl same ↦ rw (without, same) (found s ss ((==_iff s.n i).0 same))
  | inr apart ↦
      let differs : s.n ≢ i = λ e. cc ((==_iff s.n i).1 e, apart) in
      let rest = without-TakenBack i ss in
      elim (Option-cases (position i ss)) [
        | inl away ↦ rw (without, apart, away) (later s ss ss differs (rw (without, away) at rest))
        | inr (k, there) ↦
            rw (without, apart, there)
              (later s ss (remove_at k ss) differs (rw (without, there) at rest))
      ]
]

pub unspend-TakenBack : (i : ℕ) (cs : TxChangeSet) → TakenBack i cs.spends (unspend i cs).spends
unfolding unspend
unspend-TakenBack i cs = elim (Option-cases (position i cs.spends)) [
  | inl away ↦ rw (unspend, away) (rw (without, away) at (without-TakenBack i cs.spends))
  | inr (k, there) ↦ rw (unspend, there) (rw (without, there) at (without-TakenBack i cs.spends))
]
