-- ===== src/Validate/BidSpend.antt =====
-- `Validator::process_bid_spend`: a new bid on a space, its registration, or a revocation.
use spaced.Base.{
  ℕ, Bool, true, Option, none, some, Result, ok, ◌>>=◌, ◌>>◌, expect, assert, get_elem?,
  if◌then◌else◌, ltb, ◌==◌, max,
}
use spaced.Bitcoin.{Bitcoin, Transaction, TxIn}
use spaced.Spaces.{
  SpaceOut, Space, FullSpaceOut, bid, Bid, is_bid_spend, premature_claim, revoke_bid_psbt, required,
  output_spent, low_bid_amount, bad_signature,
}
use spaced.Spaces.Constants.{auction_extension_on_bid}
use spaced.Spaces.Signing.{verify_bid_sig}
use spaced.Prepare.{AuctionedOutput, BidPsbt}
use spaced.Validate.{with_auctioned, TxChangeSet, bid_update, push_update, revocation, add_u32}
use spaced.Validate.Transfer.{process_transfer}

-- An auction under way is extended to the given distance from `height` at least; one that has not
-- begun has no end.
abbrev pub extended_claim : ℕ → Option ℕ → Option ℕ
extended_claim height none = none
extended_claim height (some claim_height) =
    some (max (add_u32 height auction_extension_on_bid) claim_height)

-- The space on the auctioned output, with the new covenant.
abbrev pub outbid : SpaceOut → BidPsbt → Space → Bid → FullSpaceOut
outbid auctioned psbt space b = record {
  txid = psbt.outpoint.txid;
  spaceout = record auctioned { space = some (record space { covenant = bid b }) };
}

-- Whether the auction is still on: it has not begun, or its end lies ahead.
abbrev pub is_premature : ℕ → Option ℕ → Bool
is_premature height none = true
is_premature height (some claim_height) = ltb height claim_height

module _ (btc : Bitcoin) (height : ℕ) (tx : Transaction) where
  -- The spend once the carried bid is there with its output.
  place_bid : TxIn → SpaceOut → ℕ → Option ℕ → SpaceOut → BidPsbt → TxChangeSet → Result TxChangeSet
  place_bid input spaceout total_burned claim auctioned psbt cs =
      if psbt.burn_amount == 0
      then ok (
          push_update
            (revocation (revoke_bid_psbt low_bid_amount) input.previous_output.txid spaceout) cs)
      else (expect (btc.amount_add total_burned psbt.burn_amount) >>= λ burned.
          assert (auctioned.n == psbt.outpoint.vout)
          >> (expect spaceout.space >>= λ space.
              let full = outbid auctioned psbt space (record {
                burn_increment = psbt.burn_amount;
                signature = psbt.signature;
                total_burned = burned;
                claim_height = extended_claim height claim;
              }) in
              verify_bid_sig btc full >>= λ valid.
              if valid
              then ok (push_update (record { kind = bid_update; output = full }) cs)
              else ok (
                  push_update
                    (revocation (revoke_bid_psbt bad_signature) input.previous_output.txid spaceout)
                    cs)))

  -- The spend of an output with a bid in the form of a bid spend; it uses up the auctioned output.
  unfoldable pub bid_spend :
      TxIn → SpaceOut → ℕ → Option ℕ → Option AuctionedOutput → TxChangeSet → Result TxChangeSet
  unfolding place_bid
  bid_spend input spaceout total_burned claim none cs =
      ok
        (push_update (revocation (revoke_bid_psbt required) input.previous_output.txid spaceout) cs)
  bid_spend input spaceout total_burned claim (some auctioned) cs = elim auctioned.output [
    | none ↦ ok (
        push_update (revocation (revoke_bid_psbt output_spent) input.previous_output.txid spaceout)
          cs)
    | some out ↦ place_bid input spaceout total_burned claim out auctioned.bid_psbt cs
  ]

  -- Any other spend of such an output.
  unfoldable pub claim_spend : TxIn → ℕ → SpaceOut → Option ℕ → TxChangeSet → Result TxChangeSet
  claim_spend input input_index spaceout claim cs =
      if is_premature height claim
      then ok (push_update (revocation premature_claim input.previous_output.txid spaceout) cs)
      else process_transfer height tx input_index spaceout none cs

  -- The auctioned output that is left, and the change set.
  unfoldable pub process_bid_spend :
      Option AuctionedOutput
      → ℕ
      → SpaceOut
      → ℕ
      → Option ℕ
      → TxChangeSet
      → Result (Option AuctionedOutput × TxChangeSet)
  process_bid_spend auctioned input_index spaceout total_burned claim cs =
      expect (get_elem? tx.input input_index) >>= λ input. expect spaceout.space >>= λ space.
      if is_bid_spend space tx.version input
      then with_auctioned none (bid_spend input spaceout total_burned claim auctioned cs)
      else with_auctioned auctioned (claim_spend input input_index spaceout claim cs)
