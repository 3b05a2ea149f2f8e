-- ===== src/Validate/Tracking.antt =====
-- The last loop of `process` and the result as a whole: which outputs a transaction creates.
use spaced.Base.{
  ℕ, zero, suc, ◌+◌, ◌≡◌, refl, sym, ap, ◌∙◌, Bool, true, not, ◌&&◌, Bool-cases, inl, inr, List, [],
  ◌∷◌, ◌++◌, some, ok, >>=-eq-ok, arith, get_elem?, length, length-append,
}
use mathlib.Core.List.{append_assoc}
use spaced.Bitcoin.{Bitcoin, Transaction, TxOut}
use spaced.Spaces.{SpaceOut, Bytes}
use spaced.Prepare.{TxContext, is_magic_output}
use spaced.Validate.{TxChangeSet, creates_at}
use spaced.Validate.Process.{
  Progress, process_inputs, process, apply_covenants, track_outputs, track_output, tracked,
}
use spaced.Validate.Creates.{AreOutputs, AreOutputs-snoc, creates_at-append}
use spaced.Validate.ProcessCreates.{process_inputs_creates}
use spaced.Validate.FinalCreates.{Settled, apply_covenants-Settled}
use spaced.Validate.Flags.{any_reserves, last_data, loop-Flags}

get_elem?-length :
    (pre : List TxOut) (o : TxOut) (os : List TxOut)
    → get_elem? (pre ++ (o ∷ os)) (length pre) ≡ some o
get_elem?-length [] o os = refl
get_elem?-length (p ∷ pre) o os = get_elem?-length pre o os

creates_at-track_output :
    (n : ℕ) (o : TxOut) (creates : List SpaceOut) (k : ℕ)
    → creates_at k creates ≡ true
    → creates_at k (track_output n o creates) ≡ true
unfolding track_output
creates_at-track_output n o creates k h =
    elim (Bool-cases (not (creates_at n creates) && is_magic_output o)) [
      | inl adds ↦ rw adds (creates_at-append k creates (tracked n o ∷ []) ∙ ground (arith, h))
      | inr skips ↦ rw skips h
    ]

track_output-magic :
    (n : ℕ) (o : TxOut) (creates : List SpaceOut)
    → is_magic_output o ≡ true
    → creates_at n (track_output n o creates) ≡ true
unfolding track_output
track_output-magic n o creates m = elim (Bool-cases (creates_at n creates)) [
  | inl there ↦ rw there there
  | inr new ↦ rw (new, m) (creates_at-append n creates (tracked n o ∷ []) ∙ ground (arith, new))
]

-- An entry stays, and every magic output gets one.
creates_at-track_outputs :
    (n : ℕ) (rest : List TxOut) (creates : List SpaceOut) (k : ℕ)
    → creates_at k creates ≡ true
    → creates_at k (track_outputs n rest creates) ≡ true
unfolding track_outputs
creates_at-track_outputs n [] creates k h = h
creates_at-track_outputs n (o ∷ rest) creates k h =
    creates_at-track_outputs (n + 1) rest (track_output n o creates) k
      (creates_at-track_output n o creates k h)

track_outputs-magic :
    (n : ℕ) (rest : List TxOut) (creates : List SpaceOut) (i : ℕ) (o : TxOut)
    → get_elem? rest i ≡ some o
    → is_magic_output o ≡ true
    → creates_at (n + i) (track_outputs n rest creates) ≡ true
unfolding track_outputs
track_outputs-magic n [] creates i o e m = cc
track_outputs-magic n (p ∷ rest) creates zero o e m =
    let same : p ≡ o = cc in
    let here : n + 0 ≡ n = omega arith in
    rw here (
      creates_at-track_outputs (n + 1) rest (track_output n p creates) n
        (track_output-magic n p creates (rw same m)))
track_outputs-magic n (p ∷ rest) creates (suc i) o e m =
    let next : n + suc i ≡ n + 1 + i = omega arith in
    rw next (track_outputs-magic (n + 1) rest (track_output n p creates) i o e m)

module _ (reserving : Bool) (bytes : Bytes) (outputs : List TxOut) where
  abbrev Tracks : List SpaceOut → Type 0
  Tracks = AreOutputs (Settled reserving bytes) outputs

  track_output-Tracks :
      (n : ℕ) (o : TxOut) (creates : List SpaceOut)
      → get_elem? outputs n ≡ some o
      → Tracks creates
      → Tracks (track_output n o creates)
  unfolding track_output
  track_output-Tracks n o creates e v =
      elim (Bool-cases (not (creates_at n creates) && is_magic_output o)) [
        | inl adds ↦ rw adds (
            AreOutputs-snoc (Settled reserving bytes) outputs creates (tracked n o) v
              (ground (arith, adds))
              (record {
                output = o;
                there = e;
                same_value = refl;
                same_script = refl;
                carries = tt;
              }))
        | inr skips ↦ rw skips v
      ]

  track_outputs-Tracks :
      (pre rest : List TxOut) (n : ℕ) (creates : List SpaceOut)
      → n ≡ length pre
      → outputs ≡ pre ++ rest
      → Tracks creates
      → Tracks (track_outputs n rest creates)
  unfolding track_outputs
  track_outputs-Tracks pre [] n creates l e v = v
  track_outputs-Tracks pre (o ∷ rest) n creates l e v =
      track_outputs-Tracks (pre ++ (o ∷ [])) rest (n + 1) (track_output n o creates)
        (omega (arith, l, length-append pre (o ∷ []))) (e ∙ sym (append_assoc pre (o ∷ []) rest))
        (track_output-Tracks n o creates (rw (e, l) (get_elem?-length pre o rest)) v)

module _ (btc : Bitcoin) (height : ℕ) (tx : Transaction) where
  -- A run of `process` is one of the loop, with the last passes on its creates.
  pub process_parts :
      (ctx : TxContext) (cs : TxChangeSet)
      → process btc height tx ctx ≡ ok cs
      → (p : Progress) × (process_inputs btc height tx ctx ≡ ok p)
        × (cs.creates
            ≡ track_outputs 0 tx.output
                (apply_covenants p.reserving p.space_data p.changeset.creates))
        × (cs.spends ≡ p.changeset.spends)
        × (cs.updates ≡ p.changeset.updates)
  unfolding process
  process_parts ctx cs h =
      let (p, e, k) = >>=-eq-ok (process_inputs btc height tx ctx) _ h in
      (p, e, ground (arith, k), ground (arith, k), ground (arith, k))

  final-AreOutputs :
      (ctx : TxContext) (p : Progress)
      → process_inputs btc height tx ctx ≡ ok p
      → AreOutputs
          (Settled (any_reserves ctx.inputs) (last_data ctx.inputs []))
          tx.output
          (track_outputs 0 tx.output (apply_covenants p.reserving p.space_data p.changeset.creates))
  unfolding process_inputs
  final-AreOutputs ctx p e =
      let (f, g) = loop-Flags btc height tx ctx.inputs _ p e in
      rw (f, g)
        (track_outputs-Tracks (any_reserves ctx.inputs) (last_data ctx.inputs []) tx.output []
          tx.output 0 _ refl refl
          (apply_covenants-Settled tx.output (any_reserves ctx.inputs) (last_data ctx.inputs [])
            p.changeset.creates (process_inputs_creates btc height tx ctx p e)))

  -- The created outputs of a transaction are outputs of it, no output twice, with their value and
  -- script. A space among them is reserved exactly if one of the scripts reserves; otherwise it has
  -- the transfer covenant, with the data of the last script that sets some, if that is not empty.
  pub process-AreOutputs :
      (ctx : TxContext) (cs : TxChangeSet)
      → process btc height tx ctx ≡ ok cs
      → AreOutputs
          (Settled (any_reserves ctx.inputs) (last_data ctx.inputs []))
          tx.output
          cs.creates
  process-AreOutputs ctx cs h =
      let (p, e, made, _, _) = process_parts ctx cs h in rw made (final-AreOutputs ctx p e)

  -- Every output of a transaction with a magic amount is tracked.
  pub process-magic :
      (ctx : TxContext) (cs : TxChangeSet) (i : ℕ) (output : TxOut)
      → process btc height tx ctx ≡ ok cs
      → get_elem? tx.output i ≡ some output
      → is_magic_output output ≡ true
      → creates_at i cs.creates ≡ true
  process-magic ctx cs i output h e m =
      let (p, _, made, _, _) = process_parts ctx cs h in
      let at_i : 0 + i ≡ i = omega arith in
      let settled = apply_covenants p.reserving p.space_data p.changeset.creates in
      rw made (
        ap (λ k. creates_at k (track_outputs 0 tx.output settled)) (sym at_i)
        ∙ track_outputs-magic 0 tx.output settled i output e m)
