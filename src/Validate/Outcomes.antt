-- ===== src/Validate/Outcomes.antt =====
-- The outcomes of `process_spend` and `process_open` as a whole.
use spaced.Validate.TakenBack.{unspend-TakenBack, TakenBack}
use spaced.Spaces.Spends.{IsBidSpend-is_bid_spend, IsBidSpend, is_bid_spend-IsBidSpend}
use spaced.Base.{
  ◌<◌, ◌≤◌, ◌⊎◌, ℕ, ◌≡◌, inl, inr, refl, true, false, Bool-cases, Option, none, some, ok, >>=-eq-ok,
  expect, get_elem?, arith,
}
use spaced.Bitcoin.{Bitcoin, Transaction, TxIn}
use spaced.Spaces.{
  SpaceOut, Space, Covenant, bid, transfer, reserved, Bid, Bytes, is_expired, data_owned, expired,
  is_bid_spend, premature_claim,
}
use spaced.Prepare.{AuctionedOutput}
use spaced.Validate.{with_auctioned, with_auctioned-ok, TxChangeSet, push_update, revocation}
use spaced.Validate.Transfer.{process_transfer}
use spaced.Validate.BidSpend.{claim_spend, process_bid_spend, is_premature}
use spaced.Validate.Spend.{unspend, spend_space, spend_if, process_spend}
use spaced.Validate.Cases.{
  TransferCase, process_transfer-TransferCase, BidCase, bid_spend-BidCase, expect-ok,
}

-- The auction is still on: it has not begun, or its end lies ahead.
abbrev pub IsEarly : ℕ → Option ℕ → Type 0
IsEarly height claim = (claim ≡ none) ⊎ ((end : ℕ) × (claim ≡ some end) × (height < end))

premature-IsEarly :
    (height : ℕ) (claim : Option ℕ) → is_premature height claim ≡ true → IsEarly height claim
premature-IsEarly height none h = inl refl
premature-IsEarly height (some end) h = inr (end, refl, ground (arith, h))

due-over :
    (height : ℕ) (claim : Option ℕ)
    → is_premature height claim ≡ false
    → (end : ℕ) × (claim ≡ some end) × (end ≤ height)
due-over height none h = absurd (cc h)
due-over height (some end) h = (end, refl, ground (arith, h))

expired-over :
    (space : Space) (height : ℕ) (c : Covenant)
    → space.covenant ≡ c
    → is_expired space height ≡ true
    → (expire_height : ℕ) × (held : Option Bytes) × (c ≡ transfer expire_height held)
      × (expire_height < height)
unfolding is_expired
expired-over space height (bid b) c h = absurd (cc (rw (is_expired, c) at h))
expired-over space height (transfer end held) c h =
    (end, held, refl, ground (arith, rw (is_expired, c) at h))
expired-over space height reserved c h = absurd (cc (rw (is_expired, c) at h))

live-leased :
    (space : Space) (height end : ℕ) (held : Option Bytes)
    → space.covenant ≡ transfer end held
    → is_expired space height ≡ false
    → height ≤ end
unfolding is_expired
live-leased space height end held c h = ground (arith, rw (is_expired, c) at h)

module _ (btc : Bitcoin) (height : ℕ) (tx : Transaction) (i : ℕ) (out : SpaceOut) where
  pub data SpendCase (auctioned : Option AuctionedOutput) (cs : TxChangeSet)
      (left : Option AuctionedOutput) (cs' : TxChangeSet) : Type 0 where
    -- A tracked output that carries no space.
    untouched : out.space ≡ none → left ≡ auctioned → cs' ≡ cs → SpendCase auctioned cs left cs'
    -- The lease has run out.
    lapsed :
        (space : Space) (input : TxIn) (expire_height : ℕ) (held : Option Bytes)
        → out.space ≡ some space
        → get_elem? tx.input i ≡ some input
        → space.covenant ≡ transfer expire_height held
        → expire_height < height
        → left ≡ auctioned
        → cs' ≡ push_update (revocation expired input.previous_output.txid out) cs
        → SpendCase auctioned cs left cs'
    -- The owner moves the space.
    transfers :
        (space : Space)
        → out.space ≡ some space
        → (expire_height : ℕ) (held : Option Bytes) → space.covenant ≡ transfer expire_height held
        → height ≤ expire_height
        → left ≡ auctioned
        → TransferCase height tx i out held cs cs'
        → SpendCase auctioned cs left cs'
    -- The space is registered after the end of its auction.
    registers :
        (space : Space) (b : Bid) (input : TxIn) (claim_height : ℕ)
        → out.space ≡ some space
        → space.covenant ≡ bid b
        → get_elem? tx.input i ≡ some input
        → ¬ IsBidSpend b tx.version input
        → b.claim_height ≡ some claim_height
        → claim_height ≤ height
        → left ≡ auctioned
        → TransferCase height tx i out none cs cs'
        → SpendCase auctioned cs left cs'
    -- The space is spent while its auction is on.
    premature :
        (space : Space) (b : Bid) (input : TxIn)
        → out.space ≡ some space
        → space.covenant ≡ bid b
        → get_elem? tx.input i ≡ some input
        → ¬ IsBidSpend b tx.version input
        → IsEarly height b.claim_height
        → left ≡ auctioned
        → cs' ≡ push_update (revocation premature_claim input.previous_output.txid out) cs
        → SpendCase auctioned cs left cs'
    -- The space is spent in the form of a new bid.
    outbids :
        (space : Space) (b : Bid) (input : TxIn)
        → out.space ≡ some space
        → space.covenant ≡ bid b
        → get_elem? tx.input i ≡ some input
        → IsBidSpend b tx.version input
        → left ≡ none
        → BidCase btc height input out b.total_burned b.claim_height auctioned cs cs'
        → SpendCase auctioned cs left cs'
    -- A reserved space stays where it is.
    locked :
        (space : Space)
        → out.space ≡ some space
        → space.covenant ≡ reserved
        → left ≡ auctioned
        → TakenBack i cs.spends cs'.spends
        → cs' ≡ unspend i cs
        → SpendCase auctioned cs left cs'

  bid-SpendCase :
      (space : Space) (b : Bid) (auctioned left : Option AuctionedOutput) (cs cs' : TxChangeSet)
      → out.space ≡ some space
      → space.covenant ≡ bid b
      → process_bid_spend btc height tx auctioned i out b.total_burned b.claim_height cs
        ≡ ok (left, cs')
      → SpendCase auctioned cs left cs'
  unfolding process_bid_spend claim_spend
  bid-SpendCase space b auctioned left cs cs' e c h =
      let (input, e₁, h₁) = >>=-eq-ok (expect (get_elem? tx.input i)) _ h in
      let (space', e₂, h') = >>=-eq-ok (expect out.space) _ h₁ in
      let spent : space' ≡ space = cc (expect-ok out.space e₂) in
      let h₂ = rw spent at h' in
      elim (Bool-cases (is_bid_spend space tx.version input)) [
        | inl bids ↦
            let (r, l) = with_auctioned-ok none _ (rw bids at h₂) in
            outbids space b input e c (expect-ok (get_elem? tx.input i) e₁)
              (is_bid_spend-IsBidSpend space b tx.version input c bids) l
              (bid_spend-BidCase btc height tx input out b.total_burned b.claim_height auctioned cs
                cs' r)
        | inr claims ↦
            let (r, l) = with_auctioned-ok auctioned _ (rw claims at h₂) in
            let here = expect-ok (get_elem? tx.input i) e₁ in
            let other : ¬ IsBidSpend b tx.version input =
              λ f. cc (IsBidSpend-is_bid_spend space b tx.version input c f, claims) in
            elim (Bool-cases (is_premature height b.claim_height)) [
              | inl early ↦
                  premature space b input e c here other
                    (premature-IsEarly height b.claim_height early) l (ground (arith, r, early))
              | inr due ↦
                  let (end, known, over) = due-over height b.claim_height due in
                  registers space b input end e c here other known over l
                    (process_transfer-TransferCase height tx i out none cs cs' (rw due at r))
            ]
      ]

  covenant-SpendCase :
      (space : Space) (c : Covenant) (auctioned left : Option AuctionedOutput)
      (cs cs' : TxChangeSet)
      → out.space ≡ some space
      → space.covenant ≡ c
      → is_expired space height ≡ false
      → spend_space btc height tx auctioned i out space cs ≡ ok (left, cs')
      → SpendCase auctioned cs left cs'
  unfolding spend_space data_owned
  covenant-SpendCase space (bid b) auctioned left cs cs' e c live h =
      let (input, e₁, h₁) = >>=-eq-ok (expect (get_elem? tx.input i)) _ h in
      bid-SpendCase space b auctioned left cs cs' e c (ground (arith, h₁, live, c))
  covenant-SpendCase space (transfer expire_height held) auctioned left cs cs' e c live h =
      let (input, e₁, h₁) = >>=-eq-ok (expect (get_elem? tx.input i)) _ h in
      let h₂ : with_auctioned auctioned (process_transfer height tx i out held cs)
          ≡ ok (left, cs') =
        ground (arith, h₁, live, c) in
      let (r, l) = with_auctioned-ok auctioned (process_transfer height tx i out held cs) h₂ in
      transfers space e expire_height held c (live-leased space height expire_height held c live) l
        (process_transfer-TransferCase height tx i out held cs cs' r)
  covenant-SpendCase space reserved auctioned left cs cs' e c live h =
      let (input, e₁, h₁) = >>=-eq-ok (expect (get_elem? tx.input i)) _ h in
      let back : cs' ≡ unspend i cs = ground (arith, h₁, live, c) in
      locked space e c (ground (arith, h₁, live, c)) (rw back (unspend-TakenBack i cs)) back

  space-SpendCase :
      (space : Space) (auctioned left : Option AuctionedOutput) (cs cs' : TxChangeSet)
      → out.space ≡ some space
      → spend_space btc height tx auctioned i out space cs ≡ ok (left, cs')
      → SpendCase auctioned cs left cs'
  unfolding spend_space
  space-SpendCase space auctioned left cs cs' e h = elim (Bool-cases (is_expired space height)) [
    | inl old ↦
        let (input, e₁, h₁) = >>=-eq-ok (expect (get_elem? tx.input i)) _ h in
        let (end, held, c, over) = expired-over space height space.covenant refl old in
        lapsed space input end held e (expect-ok (get_elem? tx.input i) e₁) c over
          (ground (arith, h₁, old)) (ground (arith, h₁, old))
    | inr live ↦ covenant-SpendCase space space.covenant auctioned left cs cs' e refl live h
  ]

  spent-SpendCase :
      (spent : Option Space) (auctioned left : Option AuctionedOutput) (cs cs' : TxChangeSet)
      → out.space ≡ spent
      → spend_if btc height tx auctioned i out spent cs ≡ ok (left, cs')
      → SpendCase auctioned cs left cs'
  unfolding spend_if
  spent-SpendCase none auctioned left cs cs' e h =
      untouched e (ground (arith, h)) (ground (arith, h))
  spent-SpendCase (some space) auctioned left cs cs' e h =
      space-SpendCase space auctioned left cs cs' e h

  -- If the processing of a spend succeeds, it has one of these outcomes. An output without a space
  -- changes nothing; a space whose lease has run out is revoked; a space with a lease moves to the
  -- output behind the input's index, with the lease renewed, or is revoked if that output is missing
  -- or taken. A space in auction is bid for if version, sequence and witness are those of its bid,
  -- which uses up the auctioned output, as the cases of a bid spend say; otherwise it moves, or is
  -- revoked, in the same way after the end of its auction, and is revoked before it. The first spend
  -- with the index of a reserved space's input is taken back. What is revoked is the spent output, as
  -- one of the transaction that the input spends from.
  pub process_spend-SpendCase :
      (auctioned left : Option AuctionedOutput) (cs cs' : TxChangeSet)
      → process_spend btc height tx auctioned i out cs ≡ ok (left, cs')
      → SpendCase auctioned cs left cs'
  unfolding process_spend
  process_spend-SpendCase auctioned left cs cs' h =
      spent-SpendCase out.space auctioned left cs cs' refl h
