-- ===== src/Spaces/Spends.antt =====
-- The form of a spend by which a bid is recognised, written out.
use spaced.Spaces.Constants.{bid_psbt_input_sequence, bid_psbt_tx_version}
use spaced.Base.{
  refl, take-length_append, length-append, get_elem?-snoc, bytes_eq→eq, ◌||◌, not, bytes_eq_refl,
  true, ℕ, ◌≡◌, ◌∙◌, ap, sym, inl, inr, Bool-cases, Option-cases, List, [], ◌∷◌, ◌++◌, some, arith,
  length, take, get_elem?, take-get_elem?, length-take, ◌==◌, ◌&&◌,
}
use spaced.Bitcoin.{TxIn, single_plus_anyone_can_pay}
use spaced.Spaces.{bid, Space, is_bid_spend, Bid, bid_witness}

-- The version and the sequence of a bid, and the signature of the bid with the type of hash 0x83 as the
-- whole witness.
pub record IsBidSpend (b : Bid) (version : ℕ) (input : TxIn) : Type 0 where
  pub versioned : version ≡ 2
  pub sequenced : input.sequence ≡ 0xFFFF_FFFD
  pub witnessed : input.witness ≡ (b.signature ++ (0x83 ∷ [])) ∷ []
  pub size : length b.signature ≡ 64

bid_witness-some :
    (witness : List (List ℕ)) (sig : List ℕ)
    → bid_witness witness ≡ some sig
    → (witness ≡ (sig ++ (0x83 ∷ [])) ∷ []) × (length sig ≡ 64)
unfolding bid_witness
bid_witness-some [] sig h = absurd (cc h)
bid_witness-some (w ∷ v ∷ ws) sig h = absurd (cc h)
bid_witness-some (w ∷ []) sig h = elim (Option-cases (get_elem? w 64)) [
  | inl short ↦ absurd (cc (rw (bid_witness, short) at h))
  | inr (kind, at) ↦
      let h₁ = rw (bid_witness, at) at h in
      elim (Bool-cases (length w == 65 && kind == single_plus_anyone_can_pay)) [
        | inr apart ↦ absurd (cc (rw apart at h₁))
        | inl same ↦
            let made : take 64 w ≡ sig = cc (rw same at h₁) in
            let size : length w ≡ 65 = ground (arith, same) in
            let kind_at : kind ≡ 0x83 = ground (arith, same) in
            (
              ap (λ x. x ∷ [])
                  (take-get_elem? 64 w 0x83 size (at ∙ ap some kind_at)
                    ∙ ap (λ s. s ++ (0x83 ∷ [])) made),
              ap length (sym made) ∙ omega (arith, size, length-take 64 w),
            )
      ]
]

-- The test of the code finds exactly the spends of that form.
pub is_bid_spend-IsBidSpend :
    (space : Space) (b : Bid) (version : ℕ) (input : TxIn)
    → space.covenant ≡ bid b
    → is_bid_spend space version input ≡ true
    → IsBidSpend b version input
unfolding is_bid_spend
is_bid_spend-IsBidSpend space b version input c h =
    elim (Bool-cases
      (not (version == bid_psbt_tx_version) || not (input.sequence == bid_psbt_input_sequence))) [
        | inl other ↦ absurd (cc (rw (is_bid_spend, other) at h))
        | inr fits ↦
            let h₁ = rw (is_bid_spend, fits) at h in
            elim (Option-cases (bid_witness input.witness)) [
              | inl bare ↦ absurd (cc (rw bare at h₁))
              | inr (sig, there) ↦
                  let (whole, size) = bid_witness-some input.witness sig there in
                  let same = bytes_eq→eq sig b.signature (rw (there, c) at h₁) in
                  record {
                    versioned = ground (arith, fits);
                    sequenced = ground (arith, fits);
                    witnessed = whole ∙ ap (λ s. (s ++ (0x83 ∷ [])) ∷ []) same;
                    size = ap length (sym same) ∙ size;
                  }
            ]
      ]

witness-some : (sig : List ℕ) → length sig ≡ 64 → bid_witness ((sig ++ (0x83 ∷ [])) ∷ []) ≡ some sig
unfolding bid_witness
witness-some sig size =
    let at : get_elem? (sig ++ (0x83 ∷ [])) 64 ≡ some 0x83 =
      rw (← size) (get_elem?-snoc sig 0x83) in
    let whole : (length (sig ++ (0x83 ∷ [])) == 65) ≡ true =
      ground (arith, size, length-append sig (0x83 ∷ [])) in
    let kept : take 64 (sig ++ (0x83 ∷ [])) ≡ sig =
      ap (λ n. take n (sig ++ (0x83 ∷ []))) (sym size) ∙ take-length_append sig (0x83 ∷ []) in
    rw (bid_witness, at, whole, kept) refl

pub IsBidSpend-is_bid_spend :
    (space : Space) (b : Bid) (version : ℕ) (input : TxIn)
    → space.covenant ≡ bid b
    → IsBidSpend b version input
    → is_bid_spend space version input ≡ true
unfolding is_bid_spend
IsBidSpend-is_bid_spend space b version input c f =
    let there : bid_witness input.witness ≡ some b.signature =
      ap bid_witness f.witnessed ∙ witness-some b.signature f.size in
    ground (arith, f.versioned, f.sequenced, there, c, bytes_eq_refl b.signature)
