-- ===== src/Spaces/Refund.antt =====
-- The refund that a carried bid signs: what is verified, what the wallet fills in, and what the
-- validator takes for a bid spend are the same transaction.
use spaced.Base.{
  ℕ, ◌≡◌, refl, sym, ap, true, inl, inr, List, [], ◌∷◌, ◌++◌, some, ok, >>=-eq-ok, Option-cases,
  arith, length, get_elem?, take, length-append, take-length_append, bytes_eq_refl, expect,
}
use spaced.Bitcoin.{Bitcoin, IsBitcoin, TxIn, TxOut, Transaction, single_plus_anyone_can_pay}
use spaced.Spaces.{FullSpaceOut, Space, Bid, bid, outpoint, is_bid_spend, bid_witness}
use spaced.Spaces.Constants.{bid_psbt_input_sequence}
use spaced.Spaces.Signing.{bid_of, bid_psbt_tx, refund_signing_info, refund_psbt_data}

module _ (btc : Bitcoin) (out : FullSpaceOut) where
  -- The one input of the signed transaction.
  abbrev the_input : Bid → TxIn
  the_input b = record {
    previous_output = outpoint out;
    script_sig = [];
    sequence = bid_psbt_input_sequence;
    witness = btc.taproot_signature_to_vec b.signature single_plus_anyone_can_pay ∷ [];
  }

  -- The signed transaction spends the output of the bid alone and has the refund as its one output. The
  -- data that fill a PSBT are the witness of that spend, the spent output, and the refund.
  pub refund_psbt_data-refund_signing_info :
      (tx : Transaction) (utxo : TxOut) (signature : List ℕ)
      → refund_signing_info btc out ≡ ok (some (tx, utxo, signature))
      → (input : TxIn) × (refund : TxOut) × (tx.input ≡ input ∷ [])
        × (tx.output ≡ refund ∷ [])
        × (input.previous_output ≡ outpoint out)
        × (refund_psbt_data btc out
            ≡ ok (
                some
                  (record { witness_utxo = utxo; final_script_witness = input.witness }, refund)))
  unfolding refund_signing_info refund_psbt_data
  refund_psbt_data-refund_signing_info tx utxo signature h = elim (Option-cases (bid_of out)) [
    | inl bare ↦ absurd (ground (arith, h, bare))
    | inr (b, e) ↦
        let h₁ = rw (refund_signing_info, e) at h in
        let (refund, r, h₂) =
          >>=-eq-ok (expect (btc.amount_add out.spaceout.value b.total_burned)) _ h₁ in
        let made : bid_psbt_tx btc out refund b.signature ≡ tx = ground (arith, h₂) in
        (
          the_input b,
          record { value = refund; script_pubkey = out.spaceout.script_pubkey },
          sym (ap Transaction.input made),
          sym (ap Transaction.output made),
          refl,
          rw (refund_psbt_data, e, r) (ground (arith, h₂)),
        )
  ]

get_elem?-length_append : (xs ys : List ℕ) (x : ℕ) → get_elem? (xs ++ (x ∷ ys)) (length xs) ≡ some x
get_elem?-length_append [] ys x = refl
get_elem?-length_append (y ∷ xs) ys x = get_elem?-length_append xs ys x

bid_witness-signature :
    (signature : List ℕ)
    → length signature ≡ 64
    → bid_witness ((signature ++ (single_plus_anyone_can_pay ∷ [])) ∷ []) ≡ some signature
unfolding bid_witness
bid_witness-signature signature n =
    let at : get_elem? (signature ++ (single_plus_anyone_can_pay ∷ [])) 64
        ≡ some single_plus_anyone_can_pay =
      rw (← n) (get_elem?-length_append signature [] single_plus_anyone_can_pay) in
    let cut : take 64 (signature ++ (single_plus_anyone_can_pay ∷ [])) ≡ signature =
      rw (← n) (take-length_append signature (single_plus_anyone_can_pay ∷ [])) in
    ground (arith, at, cut, n, length-append signature (single_plus_anyone_can_pay ∷ []))

module _ (btc : Bitcoin) (out : FullSpaceOut) where
  bid_of-some :
      (space : Space) (b : Bid)
      → out.spaceout.space ≡ some space
      → space.covenant ≡ bid b
      → bid_of out ≡ some b
  bid_of-some space b there c = ground (arith, there, c)

  -- The transaction that a carried bid signs is recognised as a bid spend of the space that it spends,
  -- where the signature has 64 bytes.
  pub is_bid_spend-refund :
      IsBitcoin btc
      → (space : Space) (b : Bid) (tx : Transaction) (utxo : TxOut) (signature : List ℕ)
      → out.spaceout.space ≡ some space
      → space.covenant ≡ bid b
      → length b.signature ≡ 64
      → refund_signing_info btc out ≡ ok (some (tx, utxo, signature))
      → (input : TxIn) × (tx.input ≡ input ∷ []) × (is_bid_spend space tx.version input ≡ true)
  unfolding refund_signing_info is_bid_spend
  is_bid_spend-refund laws space b tx utxo signature there c n h =
      let h₁ = rw (refund_signing_info, bid_of-some space b there c) at h in
      let (refund, r, h₂) =
        >>=-eq-ok (expect (btc.amount_add out.spaceout.value b.total_burned)) _ h₁ in
      let made : bid_psbt_tx btc out refund b.signature ≡ tx = ground (arith, h₂) in
      let written = laws.signature_bytes b.signature single_plus_anyone_can_pay n (omega arith) in
      let read = bid_witness-signature b.signature n in
      (
        the_input btc out b,
        sym (ap Transaction.input made),
        rw (← made, is_bid_spend, written, read, c) (bytes_eq_refl b.signature),
      )
