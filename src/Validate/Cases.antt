-- ===== src/Validate/Cases.antt =====
-- The outcomes of `process_spend` and `process_open`, one constructor to each kind of edit, as a
-- specification that leaves out how the code branches.
use spaced.Base.{
  ◌^◌, ◌%◌, ◌⊎◌, ℕ, ◌+◌, ◌≡◌, inl, inr, refl, Bool, true, false, Bool-cases, Option-cases, Option,
  none, some, ok, >>=-eq-ok, expect, assert, get_elem?, arith, ◌==◌, ==_iff,
}
use spaced.Bitcoin.{Bitcoin, Transaction, TxIn, TxOut}
use spaced.Spaces.{
  transfer, SpaceOut, Space, Bid, Bytes, RevokeReason, revoke_bid_psbt, required, output_spent,
  low_bid_amount, bad_signature, bad_spend,
}
use spaced.Spaces.Signing.{verify_bid_sig}
use spaced.Prepare.{AuctionedOutput, BidPsbt}
use spaced.Validate.{TxChangeSet, bid_update, push_update, push_create, revocation, creates_at}
use spaced.Validate.Transfer.{process_transfer, transferred}
use spaced.Validate.BidSpend.{bid_spend, outbid, extended_claim}

-- The output that a space moves to: the name stays, and the lease is for a year of blocks.
pub record IsTransferred (height n : ℕ) (output : TxOut) (space : Space) (held : Option Bytes)
    (created : SpaceOut) : Type 0 where
  pub index : created.n ≡ n
  pub same_value : created.value ≡ output.value
  pub same_script : created.script_pubkey ≡ output.script_pubkey
  pub leased :
      created.space
      ≡ some (record { name = space.name; covenant = transfer ((height + 52560) % 2 ^ 32) held })

-- A transfer at input `i` revokes the space or creates output `i + 1`, if that is there and free.
pub data TransferCase (height : ℕ) (tx : Transaction) (i : ℕ) (out : SpaceOut) (held : Option Bytes)
    (cs cs' : TxChangeSet) : Type 0 where
  dropped :
      (input : TxIn)
      → get_elem? tx.input i ≡ some input
      → (get_elem? tx.output (i + 1) ≡ none) ⊎ (creates_at (i + 1) cs.creates ≡ true)
      → cs' ≡ push_update (revocation bad_spend input.previous_output.txid out) cs
      → TransferCase height tx i out held cs cs'
  moved :
      (output : TxOut) (space : Space)
      → get_elem? tx.output (i + 1) ≡ some output
      → out.space ≡ some space
      → creates_at (i + 1) cs.creates ≡ false
      → IsTransferred height
          (i + 1)
          output
          space
          held
          (transferred height (i + 1) output out space held)
      → cs' ≡ push_create (transferred height (i + 1) output out space held) cs
      → TransferCase height tx i out held cs cs'

pub process_transfer-TransferCase :
    (height : ℕ) (tx : Transaction) (i : ℕ) (out : SpaceOut) (held : Option Bytes)
    (cs cs' : TxChangeSet)
    → process_transfer height tx i out held cs ≡ ok cs'
    → TransferCase height tx i out held cs cs'
unfolding process_transfer
process_transfer-TransferCase height tx i out held cs cs' h =
    elim (Option-cases (get_elem? tx.input i)) [
      | inl gone ↦ cc (rw (gone, process_transfer) at h)
      | inr (input, here) ↦ elim (Option-cases (get_elem? tx.output (i + 1))) [
        | inl short ↦ dropped input here (inl short) (ground (arith, h))
        | inr (output, there) ↦ elim (Bool-cases (creates_at (i + 1) cs.creates)) [
          | inl taken ↦ dropped input here (inr taken) (ground (arith, h))
          | inr free ↦ elim (Option-cases out.space) [
            | inl bare ↦ absurd (ground (arith, h))
            | inr (space, e) ↦
                moved output space there e free
                  (record { index = refl; same_value = refl; same_script = refl; leased = refl })
                  (ground (arith, h))
          ]
        ]
      ]
    ]

-- The new bid of a bid spend.
abbrev pub raised : ℕ → ℕ → Option ℕ → BidPsbt → Bid
raised burned height claim psbt = record {
  burn_increment = psbt.burn_amount;
  signature = psbt.signature;
  total_burned = burned;
  claim_height = extended_claim height claim;
}

-- Why a bid spend revokes the space.
pub data Refusal (btc : Bitcoin) (height : ℕ) (out : SpaceOut) (total : ℕ) (claim : Option ℕ)
    (auctioned : Option AuctionedOutput) (reason : RevokeReason) : Type 0 where
  missing :
      auctioned ≡ none
      → reason ≡ revoke_bid_psbt required
      → Refusal btc height out total claim auctioned reason
  carrier_spent :
      (psbt : BidPsbt)
      → auctioned ≡ some (record { output = none; bid_psbt = psbt })
      → reason ≡ revoke_bid_psbt output_spent
      → Refusal btc height out total claim auctioned reason
  nothing_burned :
      (psbt : BidPsbt) (carrier : SpaceOut)
      → auctioned ≡ some (record { output = some carrier; bid_psbt = psbt })
      → psbt.burn_amount ≡ 0
      → reason ≡ revoke_bid_psbt low_bid_amount
      → Refusal btc height out total claim auctioned reason
  unsigned :
      (psbt : BidPsbt) (carrier : SpaceOut) (space : Space) (burned : ℕ)
      → auctioned ≡ some (record { output = some carrier; bid_psbt = psbt })
      → out.space ≡ some space
      → btc.amount_add total psbt.burn_amount ≡ some burned
      → (psbt.burn_amount == 0) ≡ false
      → verify_bid_sig btc (outbid carrier psbt space (raised burned height claim psbt)) ≡ ok false
      → reason ≡ revoke_bid_psbt bad_signature
      → Refusal btc height out total claim auctioned reason

-- A bid spend revokes the space, or puts it on the auctioned output with a bid that is signed.
pub data BidCase (btc : Bitcoin) (height : ℕ) (input : TxIn) (out : SpaceOut) (total : ℕ)
    (claim : Option ℕ) (auctioned : Option AuctionedOutput) (cs cs' : TxChangeSet) : Type 0 where
  refused :
      (reason : RevokeReason)
      → Refusal btc height out total claim auctioned reason
      → cs' ≡ push_update (revocation reason input.previous_output.txid out) cs
      → BidCase btc height input out total claim auctioned cs cs'
  placed :
      (psbt : BidPsbt) (carrier : SpaceOut) (space : Space) (burned : ℕ)
      → auctioned ≡ some (record { output = some carrier; bid_psbt = psbt })
      → out.space ≡ some space
      → btc.amount_add total psbt.burn_amount ≡ some burned
      → (psbt.burn_amount == 0) ≡ false
      → carrier.n ≡ psbt.outpoint.vout
      → verify_bid_sig btc (outbid carrier psbt space (raised burned height claim psbt)) ≡ ok true
      → cs'
        ≡ push_update
            (record {
              kind = bid_update;
              output = outbid carrier psbt space (raised burned height claim psbt);
            })
            cs
      → BidCase btc height input out total claim auctioned cs cs'

pub assert-ok : (b : Bool) → assert b ≡ ok tt → b ≡ true
assert-ok true h = refl
assert-ok false h = cc

pub expect-ok {ℓ} : {A : Type ℓ} (o : Option A) {a : A} → expect o ≡ ok a → o ≡ some a
expect-ok none h = cc
expect-ok (some b) h = cc

module _ (btc : Bitcoin) (height : ℕ) (tx : Transaction) (input : TxIn) (out : SpaceOut) (total : ℕ)
    (claim : Option ℕ) where
  -- The rest of a bid spend whose bid is not zero, step by step.
  placed-BidCase :
      (psbt : BidPsbt) (carrier : SpaceOut) (cs cs' : TxChangeSet)
      → (psbt.burn_amount == 0) ≡ false
      → bid_spend btc height tx input out total claim
          (some (record { output = some carrier; bid_psbt = psbt }))
          cs
        ≡ ok cs'
      → BidCase btc height input out total claim
          (some (record { output = some carrier; bid_psbt = psbt }))
          cs
          cs'
  unfolding bid_spend
  placed-BidCase psbt carrier cs cs' nonzero h =
      let h₁ = rw (nonzero, bid_spend) at h in
      let (burned, e₁, h₂) = >>=-eq-ok (expect (btc.amount_add total psbt.burn_amount)) _ h₁ in
      let (_, e₂, h₃) = >>=-eq-ok (assert (carrier.n == psbt.outpoint.vout)) _ h₂ in
      let (space, e₃, h₄) = >>=-eq-ok (expect out.space) _ h₃ in
      let full = outbid carrier psbt space (raised burned height claim psbt) in
      let (valid, e₄, h₅) = >>=-eq-ok (verify_bid_sig btc full) _ h₄ in
      elim (Bool-cases valid) [
        | inl yes' ↦
            placed psbt carrier space burned refl (expect-ok out.space e₃)
              (expect-ok (btc.amount_add total psbt.burn_amount) e₁) nonzero
              ((==_iff carrier.n psbt.outpoint.vout).0
                (assert-ok (carrier.n == psbt.outpoint.vout) (cc)))
              (rw yes' at e₄) (ground (arith, h₅, yes'))
        | inr no' ↦
            refused (revoke_bid_psbt bad_signature)
              (unsigned psbt carrier space burned refl (expect-ok out.space e₃)
                (expect-ok (btc.amount_add total psbt.burn_amount) e₁) nonzero (rw no' at e₄) refl)
              (ground (arith, h₅, no'))
      ]

  carried-BidCase :
      (psbt : BidPsbt) (carried : Option SpaceOut) (cs cs' : TxChangeSet)
      → bid_spend btc height tx input out total claim
          (some (record { output = carried; bid_psbt = psbt }))
          cs
        ≡ ok cs'
      → BidCase btc height input out total claim
          (some (record { output = carried; bid_psbt = psbt }))
          cs
          cs'
  unfolding bid_spend
  carried-BidCase psbt none cs cs' h =
      refused (revoke_bid_psbt output_spent) (carrier_spent psbt refl refl) (ground (arith, h))
  carried-BidCase psbt (some carrier) cs cs' h = elim (Bool-cases (psbt.burn_amount == 0)) [
    | inl nothing ↦
        refused (revoke_bid_psbt low_bid_amount)
          (nothing_burned psbt carrier refl ((==_iff psbt.burn_amount 0).0 nothing) refl)
          (ground (arith, h, nothing))
    | inr nonzero ↦ placed-BidCase psbt carrier cs cs' nonzero h
  ]

  pub bid_spend-BidCase :
      (auctioned : Option AuctionedOutput) (cs cs' : TxChangeSet)
      → bid_spend btc height tx input out total claim auctioned cs ≡ ok cs'
      → BidCase btc height input out total claim auctioned cs cs'
  unfolding bid_spend
  bid_spend-BidCase none cs cs' h =
      refused (revoke_bid_psbt required) (missing refl refl) (ground (arith, h))
  bid_spend-BidCase (some a) cs cs' h = carried-BidCase a.bid_psbt a.output cs cs' h
