-- ===== src/Validate/Raise.antt =====
-- What a bid spend changes.
use spaced.Base.{
  false, List, ℕ, ◌+◌, ◌^◌, ◌≤◌, ◌<◌, ◌≡◌, refl, true, Option, none, some, ok, arith, max,
}
use spaced.Bitcoin.{Bitcoin, IsBitcoin, Transaction, TxIn}
use spaced.Spaces.{
  bid, FullSpaceOut, required, output_spent, low_bid_amount, bad_signature, Space, revoke_bid_psbt,
  SpaceOut, Bid,
}
use spaced.Spaces.Constants.{auction_extension_on_bid}
use spaced.Spaces.Signing.{verify_bid_sig}
use spaced.Prepare.{BidPsbt, AuctionedOutput}
use spaced.Validate.{TxChangeSet, UpdateOut, bid_update, push_update, revocation, add_u32}
use spaced.Validate.BidSpend.{bid_spend, outbid, extended_claim}
use spaced.Validate.Cases.{
  missing, carrier_spent, nothing_burned, unsigned, BidCase, refused, placed, raised,
  bid_spend-BidCase,
}

-- The end of an auction after a bid at `height`: not before the old one, nor too close.
abbrev pub Extends : ℕ → Option ℕ → Option ℕ → Type 0
Extends height none new = new ≡ none
Extends height (some old) new =
    (claim : ℕ) × (new ≡ some claim) × (old ≤ claim) × (height + auction_extension_on_bid ≤ claim)

-- The output of a bid: it stands at the place that the carried bid names, with the value and script of
-- the auctioned output and the name of the space that is spent. Its total is what was burned before
-- and the increment.
pub record IsOutbid (height : ℕ) (out : SpaceOut) (total : ℕ) (claim : Option ℕ) (psbt : BidPsbt)
    (carrier : SpaceOut) (full : FullSpaceOut) : Type 0 where
  pub spent : Space
  pub new : Bid
  pub carried : out.space ≡ some spent
  pub same_tx : full.txid ≡ psbt.outpoint.txid
  pub same_index : full.spaceout.n ≡ carrier.n
  pub same_value : full.spaceout.value ≡ carrier.value
  pub same_script : full.spaceout.script_pubkey ≡ carrier.script_pubkey
  pub named : full.spaceout.space ≡ some (record { name = spent.name; covenant = bid new })
  pub signature : new.signature ≡ psbt.signature
  pub increment : new.burn_increment ≡ psbt.burn_amount
  pub raises : new.total_burned ≡ total + psbt.burn_amount
  pub ends : Extends height claim new.claim_height

-- What a bid spend leads to: one of four revocations, or the bid.
pub data RaiseCase (btc : Bitcoin) (height : ℕ) (txid : List ℕ) (out : SpaceOut) (total : ℕ)
    (claim : Option ℕ) (auctioned : Option AuctionedOutput) (u : UpdateOut) : Type 0 where
  not_carried :
      auctioned ≡ none
      → u ≡ revocation (revoke_bid_psbt required) txid out
      → RaiseCase btc height txid out total claim auctioned u
  not_there :
      (psbt : BidPsbt)
      → auctioned ≡ some (record { output = none; bid_psbt = psbt })
      → u ≡ revocation (revoke_bid_psbt output_spent) txid out
      → RaiseCase btc height txid out total claim auctioned u
  too_low :
      (psbt : BidPsbt) (carrier : SpaceOut)
      → auctioned ≡ some (record { output = some carrier; bid_psbt = psbt })
      → psbt.burn_amount ≡ 0
      → u ≡ revocation (revoke_bid_psbt low_bid_amount) txid out
      → RaiseCase btc height txid out total claim auctioned u
  not_signed :
      (psbt : BidPsbt) (carrier : SpaceOut) (full : FullSpaceOut)
      → auctioned ≡ some (record { output = some carrier; bid_psbt = psbt })
      → 1 ≤ psbt.burn_amount
      → IsOutbid height out total claim psbt carrier full
      → verify_bid_sig btc full ≡ ok false
      → u ≡ revocation (revoke_bid_psbt bad_signature) txid out
      → RaiseCase btc height txid out total claim auctioned u
  raise :
      (psbt : BidPsbt) (carrier : SpaceOut)
      → auctioned ≡ some (record { output = some carrier; bid_psbt = psbt })
      → 1 ≤ psbt.burn_amount
      → carrier.n ≡ psbt.outpoint.vout
      → IsOutbid height out total claim psbt carrier u.output
      → verify_bid_sig btc u.output ≡ ok true
      → u.kind ≡ bid_update
      → RaiseCase btc height txid out total claim auctioned u

amount_add-some :
    {btc : Bitcoin} (laws : IsBitcoin btc) (a b : ℕ) {c : ℕ}
    → btc.amount_add a b ≡ some c
    → c ≡ a + b
amount_add-some laws a b e = ground (arith, e, laws.amount_add_lem a b)

extended_claim-Extends :
    (height : ℕ) (claim : Option ℕ)
    → height + auction_extension_on_bid < 2 ^ 32
    → Extends height claim (extended_claim height claim)
extended_claim-Extends height none h = refl
extended_claim-Extends height (some old) h =
    (max (add_u32 height auction_extension_on_bid) old, refl, omega arith, omega arith)

outbid-IsOutbid :
    {btc : Bitcoin} (laws : IsBitcoin btc) (height : ℕ) (out : SpaceOut) (total : ℕ)
    (claim : Option ℕ) (psbt : BidPsbt) (carrier : SpaceOut) (space : Space) (burned : ℕ)
    → height + auction_extension_on_bid < 2 ^ 32
    → out.space ≡ some space
    → btc.amount_add total psbt.burn_amount ≡ some burned
    → IsOutbid height out total claim psbt carrier
        (outbid carrier psbt space (raised burned height claim psbt))
outbid-IsOutbid laws height out total claim psbt carrier space burned low carried sum = record {
  spent = space;
  new = raised burned height claim psbt;
  carried = carried;
  same_tx = refl;
  same_index = refl;
  same_value = refl;
  same_script = refl;
  named = refl;
  signature = refl;
  increment = refl;
  raises = amount_add-some laws total psbt.burn_amount sum;
  ends = extended_claim-Extends height claim low;
}

-- A bid spend adds one update. Without a carried bid, without the output that it names, with an
-- increment of zero or with a signature that does not verify, the update revokes the space, as an
-- output of the transaction that the input spends from, for that reason. Otherwise it is a bid on the space that is spent, whose
-- signature verifies: it stands on the auctioned output, at the outpoint of the carried bid, and has
-- the name of the space, the carried signature and increment, and the total that adds up. The end of
-- the auction does not come nearer and is 144 blocks away at least, and an auction that has not begun
-- stays so. Heights stay below 2 ^ 32.
pub bid_spend-Raises :
    (btc : Bitcoin) (height : ℕ) (tx : Transaction) (input : TxIn) (out : SpaceOut) (total : ℕ)
    (claim : Option ℕ) (auctioned : Option AuctionedOutput) (cs cs' : TxChangeSet)
    → IsBitcoin btc
    → height + auction_extension_on_bid < 2 ^ 32
    → bid_spend btc height tx input out total claim auctioned cs ≡ ok cs'
    → (u : UpdateOut) × (cs' ≡ push_update u cs)
      × RaiseCase btc height input.previous_output.txid out total claim auctioned u
bid_spend-Raises btc height tx input out total claim auctioned cs cs' laws low h =
    go (bid_spend-BidCase btc height tx input out total claim auctioned cs cs' h)
  where
    go :
        BidCase btc height input out total claim auctioned cs cs'
        → (u : UpdateOut) × (cs' ≡ push_update u cs)
          × RaiseCase btc height input.previous_output.txid out total claim auctioned u
    go (refused reason (missing a r) e) = (_, e, not_carried a (rw r refl))
    go (refused reason (carrier_spent psbt a r) e) = (_, e, not_there psbt a (rw r refl))
    go (refused reason (nothing_burned psbt carrier a z r) e) =
        (_, e, too_low psbt carrier a z (rw r refl))
    go (refused reason (unsigned psbt carrier space burned a s sum nonzero v r) e) = (
      _,
      e,
      not_signed psbt carrier _ a (ground (arith, nonzero))
          (outbid-IsOutbid laws height out total claim psbt carrier space burned low s sum) v
          (rw r refl),
    )
    go (placed psbt carrier space burned a s sum nonzero at signed e) = (
      _,
      e,
      raise psbt carrier a (ground (arith, nonzero)) at
          (outbid-IsOutbid laws height out total claim psbt carrier space burned low s sum) signed
          refl,
    )
