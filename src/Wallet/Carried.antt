-- ===== src/Wallet/Carried.antt =====
-- The bid that a wallet makes is the one that the protocol reads and verifies.
use spaced.Spaces.{Bid, FullSpaceOut}
use spaced.Prepare.{compressed_psbt_size, cpsbt_from_script}
use spaced.Spaces.{outpoint}
use spaced.Spaces.Signing.{bid_of, refund_signing_info}
use spaced.Base.{
  take-get_elem?, ◌∙◌, sym, map, none, length-take, ==_iff, index, inl, refl, inr, ap, expect,
  >>=-eq-ok, true, Bool-cases, arith, [], ◌+◌, take, get_elem?, ◌++◌, ◌==◌, ◌∷◌, ok, some, Option,
  ◌≡◌, map, length, List, ℕ,
}
use spaced.Wallet.{unsigned_bid, DoubleUtxo, compress_bid_psbt, bid_template}
use spaced.Bitcoin.{
  TxOut, TxIn, single_plus_anyone_can_pay, IsBitcoin, op_return, Transaction, Bitcoin,
}

expect-ok : {A : Type 0} (o : Option A) {a : A} → expect o ≡ ok a → o ≡ some a
expect-ok none h = absurd (cc h)
expect-ok (some b) h = cc h

module _ (btc : Bitcoin) (new_op_return : List ℕ → List ℕ) where
  -- What the crate documents: a script that carries 65 bytes, and signatures of 64 bytes.
  abbrev pub OpReturnLaw : Type 0
  OpReturnLaw = (bytes : List ℕ) → length bytes ≡ 65 → new_op_return bytes ≡ op_return ∷ 65 ∷ bytes

  abbrev pub SignatureLaw : Type 0
  SignatureLaw = (sig : List ℕ) → length sig ≡ 64 → btc.signature_from_slice sig ≡ some sig

  carrier-parts :
      (vout : ℕ) (sig : List ℕ)
      → OpReturnLaw
      → SignatureLaw
      → length sig ≡ 64
      → cpsbt_from_script btc (new_op_return (vout ∷ sig))
        ≡ ok (some (record { vout = vout; signature = sig }))
  unfolding cpsbt_from_script
  carrier-parts vout sig carries signs size =
      let whole : (length (op_return ∷ 65 ∷ vout ∷ sig) == compressed_psbt_size + 2) ≡ true =
        ground (arith, size) in
      rw (carries (vout ∷ sig) (omega (arith, size)), cpsbt_from_script, whole, signs sig size) refl

  -- When a signed bid is compressed, it has one input, whose witness begins with a signature of 64
  -- bytes followed by the type of hash of a bid, and the protocol reads the index and this signature
  -- from the script that carries the compressed form. What else the witness holds is left open.
  pub compress_bid_psbt-cpsbt_from_script :
      (vout : ℕ) (witnesses : List (Option (List (List ℕ)))) (compressed : List ℕ)
      → OpReturnLaw
      → SignatureLaw
      → compress_bid_psbt vout witnesses ≡ ok compressed
      → (sig : List ℕ) × (more : List (List ℕ)) × (length sig ≡ 64)
        × (witnesses ≡ some ((sig ++ (single_plus_anyone_can_pay ∷ [])) ∷ more) ∷ [])
        × (cpsbt_from_script btc (new_op_return compressed)
            ≡ ok (some (record { vout = vout; signature = sig })))
  unfolding compress_bid_psbt
  compress_bid_psbt-cpsbt_from_script vout [] compressed carries signs h = absurd (cc h)
  compress_bid_psbt-cpsbt_from_script vout (none ∷ ws) compressed carries signs h = absurd (cc h)
  compress_bid_psbt-cpsbt_from_script vout (some stack ∷ w ∷ ws) compressed carries signs h =
      absurd (cc h)
  compress_bid_psbt-cpsbt_from_script vout (some [] ∷ []) compressed carries signs h = absurd (cc h)
  compress_bid_psbt-cpsbt_from_script vout (some (witness ∷ more) ∷ []) compressed carries signs h =
      elim (Bool-cases (length witness == 65)) [
        | inr short ↦ absurd (cc (rw (compress_bid_psbt, short) at h))
        | inl long ↦
            let h₁ = rw (compress_bid_psbt, long) at h in
            let (kind, e, h₂) = >>=-eq-ok (index witness 64) _ h₁ in
            elim (Bool-cases (kind == single_plus_anyone_can_pay)) [
              | inr apart ↦ absurd (cc (rw apart at h₂))
              | inl same ↦
                  let size : length witness ≡ 65 = (==_iff _ _).0 long in
                  let made : vout ∷ take 64 witness ≡ compressed = cc (rw same at h₂) in
                  let at : get_elem? witness 64 ≡ some single_plus_anyone_can_pay =
                    expect-ok (get_elem? witness 64)
                      (e ∙ ap ok ((==_iff kind single_plus_anyone_can_pay).0 same)) in
                  (
                    take 64 witness,
                    more,
                    omega (arith, size, length-take 64 witness),
                    ap (λ x. some (x ∷ more) ∷ [])
                        (take-get_elem? 64 witness single_plus_anyone_can_pay size at),
                    rw (← made) (
                        carrier-parts vout (take 64 witness) carries signs
                          (omega (arith, size, length-take 64 witness))),
                  )
            ]
      ]

abbrev sign_input : List (List ℕ) → TxIn → TxIn
sign_input stack input = record input { witness = stack }

-- The transaction with a witness for its only input.
abbrev pub with_witness : Transaction → List (List ℕ) → Transaction
with_witness tx stack = record tx { input = map (sign_input stack) tx.input }

-- For a bid on an auctioned output of the wallet with its total, the transaction that the wallet signs
-- is, with the signature in place, the one that the protocol verifies the signature on.
pub bid_template-refund_signing_info :
    (btc : Bitcoin) (out : FullSpaceOut) (b : Bid) (d : DoubleUtxo) (tx : Transaction)
    → IsBitcoin btc
    → bid_of out ≡ some b
    → outpoint out ≡ d.auction.outpoint
    → d.auction.txout
      ≡ record { value = out.spaceout.value; script_pubkey = out.spaceout.script_pubkey }
    → bid_template btc b.total_burned d ≡ ok tx
    → refund_signing_info btc out
      ≡ ok (
          some (
            with_witness tx
                (btc.taproot_signature_to_vec b.signature single_plus_anyone_can_pay ∷ []),
            d.auction.txout,
            b.signature,
          ))
unfolding bid_template refund_signing_info
bid_template-refund_signing_info btc out b d tx laws covenant at value h =
    let (refund, e, h₁) =
      >>=-eq-ok (expect (btc.amount_add b.total_burned d.auction.txout.value)) _ h in
    let sum = laws.amount_add_lem out.spaceout.value b.total_burned in
    let swapped : btc.amount_add b.total_burned d.auction.txout.value
        ≡ btc.amount_add out.spaceout.value b.total_burned =
      ground (
        arith,
        laws.amount_add_lem b.total_burned d.auction.txout.value,
        sum,
        ap TxOut.value value,
      ) in
    let flipped : expect (btc.amount_add out.spaceout.value b.total_burned) ≡ ok refund =
      ap expect (sym swapped) ∙ e in
    let made : unsigned_bid refund d ≡ tx = cc h₁ in
    rw (refund_signing_info, covenant, flipped, ← made, value, ← at) refl
