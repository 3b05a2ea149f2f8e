-- ===== src/Validate/Spend.antt =====
-- `Validator::process_spend`: what the spend of a tracked output does to its space.
use spaced.Base.{ℕ, Option, none, some, Result, ok, ◌>>=◌, expect, get_elem?, if◌then◌else◌}
use spaced.Bitcoin.{Bitcoin, Transaction}
use spaced.Spaces.{SpaceOut, Space, bid, transfer, reserved, is_expired, data_owned, expired}
use spaced.Prepare.{AuctionedOutput}
use spaced.Validate.{with_auctioned, TxChangeSet, push_update, revocation, position, remove_at}
use spaced.Validate.Transfer.{process_transfer}
use spaced.Validate.BidSpend.{process_bid_spend}

-- The spend of a reserved space is taken back.
unfoldable pub unspend : ℕ → TxChangeSet → TxChangeSet
unspend input_index cs = elim (position input_index cs.spends) [
  | none ↦ cs
  | some pos ↦ record cs { spends = remove_at pos cs.spends }
]

module _ (btc : Bitcoin) (height : ℕ) (tx : Transaction) where
  -- The spend of an output that carries `space`.
  unfoldable pub spend_space :
      Option AuctionedOutput
      → ℕ
      → SpaceOut
      → Space
      → TxChangeSet
      → Result (Option AuctionedOutput × TxChangeSet)
  spend_space auctioned input_index spaceout space cs =
      expect (get_elem? tx.input input_index) >>= λ input.
      if is_expired space height
      then ok (auctioned, push_update (revocation expired input.previous_output.txid spaceout) cs)
      else elim space.covenant [
        | bid b ↦
            process_bid_spend btc height tx auctioned input_index spaceout b.total_burned
              b.claim_height cs
        | transfer _ _ ↦
            with_auctioned auctioned
              (process_transfer height tx input_index spaceout (data_owned space) cs)
        | reserved ↦ ok (auctioned, unspend input_index cs)
      ]

  -- The spend of an output, by the space that it carries, if any.
  unfoldable pub spend_if :
      Option AuctionedOutput
      → ℕ
      → SpaceOut
      → Option Space
      → TxChangeSet
      → Result (Option AuctionedOutput × TxChangeSet)
  spend_if auctioned input_index spaceout none cs = ok (auctioned, cs)
  spend_if auctioned input_index spaceout (some space) cs =
      spend_space auctioned input_index spaceout space cs

  unfoldable pub process_spend :
      Option AuctionedOutput
      → ℕ
      → SpaceOut
      → TxChangeSet
      → Result (Option AuctionedOutput × TxChangeSet)
  unfolding spend_if
  process_spend auctioned input_index spaceout cs =
      spend_if auctioned input_index spaceout spaceout.space cs
