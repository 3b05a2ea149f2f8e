-- ===== src/Validate/Opening.antt =====
-- `Validator::process_open`: an auction is opened for a name, with the carried bid as its first.
use spaced.Base.{ℕ, Bool, false, Option, none, some, Result, ok, ◌>>=◌, expect, if◌then◌else◌, any}
use spaced.Bitcoin.{Bitcoin, outpoint_eq}
use spaced.Label.{SLabel}
use spaced.Spaces.{
  SpaceOut, FullSpaceOut, bid, is_expired, expired, bad_spend, RejectReason, already_exists,
  reject_bid_psbt, required, output_spent, bad_signature, outpoint,
}
use spaced.Spaces.Signing.{verify_bid_sig}
use spaced.Script.{OpenHistory, existing_space, new_space, reject}
use spaced.Prepare.{AuctionedOutput, BidPsbt}
use spaced.Validate.{
  with_auctioned, TxChangeSet, UpdateOut, revoke, rolled_out, bid_update, push_update, revocation,
  position, set_error_at,
}

-- The spend at `pos` is marked with a rejection of `name`.
abbrev pub reject_at : ℕ → SLabel → RejectReason → TxChangeSet → TxChangeSet
reject_at pos name reason cs = record cs {
  spends = set_error_at pos (reject (record { name = name; reason = reason })) cs.spends;
}

-- Whether an update revokes the space at an outpoint.
unfoldable pub revokes_at : FullSpaceOut → UpdateOut → Bool
revokes_at out update = elim update.kind [
  | revoke _ ↦ outpoint_eq (outpoint update.output) (outpoint out)
  | rolled_out _ ↦ false
  | bid_update ↦ false
]

-- `Validator::detach_existing_space`
unfoldable pub detach_existing_space : AuctionedOutput → TxChangeSet → TxChangeSet
detach_existing_space auctioned cs = elim auctioned.output [
  | none ↦ cs
  | some spaceout ↦ elim spaceout.space [
    | none ↦ cs
    | some _ ↦
        let update = revocation bad_spend auctioned.bid_psbt.outpoint.txid spaceout in
        if any (revokes_at update.output) cs.updates then cs else push_update update cs
  ]
]

-- The first bid on `name`, on the auctioned output.
abbrev pub opening_bid : SLabel → SpaceOut → BidPsbt → FullSpaceOut
opening_bid name auctioned psbt = record {
  txid = psbt.outpoint.txid;
  spaceout = record auctioned {
    space = some (record {
      name = name;
      covenant = bid (record {
        burn_increment = psbt.burn_amount;
        signature = psbt.signature;
        total_burned = psbt.burn_amount;
        claim_height = none;
      });
    });
  };
}

module _ (btc : Bitcoin) (pos : ℕ) where
  -- The auctioned output, and the change set.
  abbrev Opened : Type 0
  Opened = Option AuctionedOutput × TxChangeSet

  -- The name is free. The auctioned output is used up, also where it does not serve.
  unfoldable pub open_name : SLabel → Option AuctionedOutput → TxChangeSet → Result TxChangeSet
  open_name name none cs = ok (reject_at pos name (reject_bid_psbt required) cs)
  open_name name (some auctioned) cs = elim auctioned.output [
    | none ↦ ok (reject_at pos name (reject_bid_psbt output_spent) cs)
    | some out ↦
        let cs' = detach_existing_space auctioned cs in
        let full = opening_bid name out auctioned.bid_psbt in
        verify_bid_sig btc full >>= λ valid.
        if valid
        then ok (push_update (record { kind = bid_update; output = full }) cs')
        else ok (reject_at pos name (reject_bid_psbt bad_signature) cs')
  ]

  -- An existing space must have expired; then it is revoked.
  unfoldable pub open_history :
      ℕ
      → OpenHistory
      → Option AuctionedOutput
      → TxChangeSet
      → Result (Option AuctionedOutput × TxChangeSet)
  open_history height (new_space name) auctioned cs =
      with_auctioned none (open_name name auctioned cs)
  open_history height (existing_space prev) auctioned cs =
      expect prev.spaceout.space >>= λ prev_space.
      if is_expired prev_space height
      then with_auctioned none (
          open_name prev_space.name auctioned
            (push_update (revocation expired prev.txid prev.spaceout) cs))
      else ok (auctioned, reject_at pos prev_space.name already_exists cs)

unfoldable pub process_open :
    Bitcoin
    → ℕ
    → ℕ
    → OpenHistory
    → Option AuctionedOutput
    → TxChangeSet
    → Result (Option AuctionedOutput × TxChangeSet)
process_open btc input_index height history auctioned cs =
    expect (position input_index cs.spends) >>= λ spend_index.
    open_history btc spend_index height history auctioned cs
