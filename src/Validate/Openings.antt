-- ===== src/Validate/Openings.antt =====
-- The outcomes of `process_open`.
use spaced.Validate.OpenParts.{
  detached, Detached, detach_existing_space-Detached, opening_bid-IsFirstBid, IsFirstBid,
  IsRejected, made_by-IsRejected,
}
use spaced.Base.{
  ℕ, ◌≡◌, refl, true, false, Bool-cases, inl, inr, Option, none, some, ok, >>=-eq-ok, expect, arith,
}
use spaced.Bitcoin.{Bitcoin}
use spaced.Label.{SLabel}
use spaced.Spaces.{
  SpaceOut, Space, FullSpaceOut, is_expired, RejectReason, already_exists, reject_bid_psbt,
  required, output_spent, bad_signature, expired,
}
use spaced.Spaces.Signing.{verify_bid_sig}
use spaced.Script.{OpenHistory, existing_space, new_space}
use spaced.Prepare.{AuctionedOutput, BidPsbt}
use spaced.Validate.{TxChangeSet, bid_update, push_update, revocation, position, with_auctioned-ok}
use spaced.Validate.Opening.{opening_bid, open_name, open_history, process_open}
use spaced.Validate.Cases.{expect-ok}

-- Why there is no bid for a free name.
pub data NoBid (auctioned : Option AuctionedOutput) (reason : RejectReason) : Type 0 where
  not_carried : auctioned ≡ none → reason ≡ reject_bid_psbt required → NoBid auctioned reason
  not_there :
      (psbt : BidPsbt)
      → auctioned ≡ some (record { output = none; bid_psbt = psbt })
      → reason ≡ reject_bid_psbt output_spent
      → NoBid auctioned reason

-- A free name is rejected, or gets a signed first bid on the auctioned output, which is detached
-- from the space it may carry.
pub data NameCase (btc : Bitcoin) (pos : ℕ) (name : SLabel) (auctioned : Option AuctionedOutput)
    (cs cs' : TxChangeSet) : Type 0 where
  no_bid :
      (reason : RejectReason)
      → NoBid auctioned reason
      → IsRejected pos name reason cs cs'
      → NameCase btc pos name auctioned cs cs'
  forged :
      (psbt : BidPsbt) (carrier : SpaceOut) (full : FullSpaceOut)
      → auctioned ≡ some (record { output = some carrier; bid_psbt = psbt })
      → IsFirstBid name carrier psbt full
      → verify_bid_sig btc full ≡ ok false
      → Detached psbt carrier cs (detached psbt carrier cs)
      → IsRejected pos name (reject_bid_psbt bad_signature) (detached psbt carrier cs) cs'
      → NameCase btc pos name auctioned cs cs'
  auctions :
      (psbt : BidPsbt) (carrier : SpaceOut) (full : FullSpaceOut)
      → auctioned ≡ some (record { output = some carrier; bid_psbt = psbt })
      → IsFirstBid name carrier psbt full
      → verify_bid_sig btc full ≡ ok true
      → Detached psbt carrier cs (detached psbt carrier cs)
      → cs' ≡ push_update (record { kind = bid_update; output = full }) (detached psbt carrier cs)
      → NameCase btc pos name auctioned cs cs'

module _ (btc : Bitcoin) (pos : ℕ) (name : SLabel) where
  carried-NameCase :
      (psbt : BidPsbt) (carried : Option SpaceOut) (cs cs' : TxChangeSet)
      → open_name btc pos name (some (record { output = carried; bid_psbt = psbt })) cs ≡ ok cs'
      → NameCase btc pos name (some (record { output = carried; bid_psbt = psbt })) cs cs'
  unfolding open_name
  carried-NameCase psbt none cs cs' h =
      no_bid (reject_bid_psbt output_spent) (not_there psbt refl refl)
        (made_by-IsRejected pos name _ cs cs' (ground (arith, h)))
  carried-NameCase psbt (some carrier) cs cs' h =
      let (valid, e, k) = >>=-eq-ok (verify_bid_sig btc (opening_bid name carrier psbt)) _ h in
      elim (Bool-cases valid) [
        | inl signed ↦
            auctions psbt carrier (opening_bid name carrier psbt) refl
              (opening_bid-IsFirstBid name carrier psbt) (rw signed at e)
              (detach_existing_space-Detached psbt carrier cs) (ground (arith, k, signed))
        | inr unsigned ↦
            forged psbt carrier (opening_bid name carrier psbt) refl
              (opening_bid-IsFirstBid name carrier psbt) (rw unsigned at e)
              (detach_existing_space-Detached psbt carrier cs)
              (made_by-IsRejected pos name _ (detached psbt carrier cs) cs'
                (ground (arith, k, unsigned)))
      ]

  open_name-NameCase :
      (auctioned : Option AuctionedOutput) (cs cs' : TxChangeSet)
      → open_name btc pos name auctioned cs ≡ ok cs'
      → NameCase btc pos name auctioned cs cs'
  unfolding open_name
  open_name-NameCase none cs cs' h =
      no_bid (reject_bid_psbt required) (not_carried refl refl)
        (made_by-IsRejected pos name _ cs cs' (ground (arith, h)))
  open_name-NameCase (some a) cs cs' h = carried-NameCase a.bid_psbt a.output cs cs' h

-- An open rejects a name that is taken; else it opens a free one, after it revoked the lapsed space.
pub data OpenCase (btc : Bitcoin) (i height : ℕ) (history : OpenHistory)
    (auctioned : Option AuctionedOutput) (cs : TxChangeSet) (left : Option AuctionedOutput)
    (cs' : TxChangeSet) : Type 0 where
  taken :
      (pos : ℕ) (prev : FullSpaceOut) (space : Space)
      → position i cs.spends ≡ some pos
      → history ≡ existing_space prev
      → prev.spaceout.space ≡ some space
      → is_expired space height ≡ false
      → left ≡ auctioned
      → IsRejected pos space.name already_exists cs cs'
      → OpenCase btc i height history auctioned cs left cs'
  reopened :
      (pos : ℕ) (prev : FullSpaceOut) (space : Space)
      → position i cs.spends ≡ some pos
      → history ≡ existing_space prev
      → prev.spaceout.space ≡ some space
      → is_expired space height ≡ true
      → left ≡ none
      → NameCase btc pos space.name auctioned
          (push_update (revocation expired prev.txid prev.spaceout) cs)
          cs'
      → OpenCase btc i height history auctioned cs left cs'
  fresh :
      (pos : ℕ) (name : SLabel)
      → position i cs.spends ≡ some pos
      → history ≡ new_space name
      → left ≡ none
      → NameCase btc pos name auctioned cs cs'
      → OpenCase btc i height history auctioned cs left cs'

module _ (btc : Bitcoin) (i height : ℕ) where
  history-OpenCase :
      (pos : ℕ) (history : OpenHistory) (auctioned left : Option AuctionedOutput)
      (cs cs' : TxChangeSet)
      → position i cs.spends ≡ some pos
      → open_history btc pos height history auctioned cs ≡ ok (left, cs')
      → OpenCase btc i height history auctioned cs left cs'
  unfolding open_history
  history-OpenCase pos (new_space name) auctioned left cs cs' at_pos h =
      let (r, l) = with_auctioned-ok none _ h in
      fresh pos name at_pos refl l (open_name-NameCase btc pos name auctioned cs cs' r)
  history-OpenCase pos (existing_space prev) auctioned left cs cs' at_pos h =
      let (space, e, k) = >>=-eq-ok (expect prev.spaceout.space) _ h in
      let there = expect-ok prev.spaceout.space e in
      elim (Bool-cases (is_expired space height)) [
        | inl old ↦
            let (r, l) = with_auctioned-ok none _ (rw old at k) in
            reopened pos prev space at_pos refl there old l
              (open_name-NameCase btc pos space.name auctioned _ cs' r)
        | inr live ↦
            taken pos prev space at_pos refl there live (ground (arith, k, live))
              (made_by-IsRejected pos space.name already_exists cs cs' (ground (arith, k, live)))
      ]

  -- If the processing of an open succeeds, the input is among the spends, and it has one of these
  -- outcomes. A space that exists and has not expired is left, and the spend is marked as rejected;
  -- one that has expired is revoked first. Then, as for a new name, the spend is marked as rejected
  -- if no bid is carried or its output is not there. Otherwise the space that the auctioned output
  -- carries is revoked, unless it has been; then the output gets the first bid if its signature
  -- verifies, and else the spend is marked as rejected. The auctioned output is used up.
  pub process_open-OpenCase :
      (history : OpenHistory) (auctioned left : Option AuctionedOutput) (cs cs' : TxChangeSet)
      → process_open btc i height history auctioned cs ≡ ok (left, cs')
      → OpenCase btc i height history auctioned cs left cs'
  unfolding process_open
  process_open-OpenCase history auctioned left cs cs' h =
      let (pos, e, k) = >>=-eq-ok (expect (position i cs.spends)) _ h in
      history-OpenCase pos history auctioned left cs cs' (expect-ok (position i cs.spends) e) k
