-- ===== src/Wallet/Stack.antt =====
-- wallet/src/builder.rs, `BuilderIterator::next`: the operations of the stack become transactions. What
-- the wallet builds and signs for an operation is a parameter.
use spaced.Wallet.{FullTxOut}
use spaced.Base.{
  drop, take, err, length, ◌>>=◌, ◌||◌, true, some, is_some, ok, false, ◌++◌, none, ◌∷◌, Result,
  Option, not, [], ℕ, Bool, List,
}
use spaced.Wallet.Requests.{
  place_bid, prepare, BidRequest, ExecuteParams, execute, OpenRequest, ExecuteRequest, open_space,
  SpaceTransfer, OpenParams, is_nil, StackOp, SigningInfo, CreateParams,
}
use spaced.Bitcoin.{Transaction}

pub data TransactionTag : Type 0 where
  fee_bump_tag bidouts_tag commitment_tag transfers_tag open_tag bid_tag : TransactionTag
  script_tag force_spend_test_only_tag : TransactionTag

pub record TaggedTransaction : Type 0 where
  pub tx : Transaction
  pub tags : List TransactionTag

-- `stack.pop()`: the top is at the end.
unfoldable pub pop : List StackOp → Option (StackOp × List StackOp)
pop [] = none
pop (op ∷ ops) = elim (pop ops) [ none ↦ some (op, []) | some (top, rest) ↦ some (top, op ∷ rest) ]

abbrev pub tag_if : Bool → TransactionTag → List TransactionTag
tag_if false tag = []
tag_if true tag = tag ∷ []

-- The tags of the first transaction.
abbrev pub prepare_tags : CreateParams → List TransactionTag
prepare_tags params =
    tag_if (not (is_nil params.transfers)) transfers_tag
    ++ (tag_if (is_some params.auction_outputs) bidouts_tag
        ++ tag_if (not (is_nil params.opens) || not (is_nil params.executes)) commitment_tag)

module _ (open_tap_data : List ℕ → Result SigningInfo)
    (signing_info : List ℕ → Result SigningInfo) where
  -- The loop over the opens: what they reveal, and their amounts.
  unfoldable pub open_reveals : List OpenRequest → Result (List SigningInfo × List ℕ)
  open_reveals [] = ok ([], [])
  open_reveals (req ∷ reqs) = open_tap_data req.name >>= λ tap.
      open_reveals reqs >>= λ (reveals, amounts). ok (tap ∷ reveals, req.initial_amount ∷ amounts)

  -- The loop over the scripts: what they reveal, and their transfers.
  unfoldable pub execute_reveals :
      List ExecuteRequest → Result (List SigningInfo × List (List SpaceTransfer))
  execute_reveals [] = ok ([], [])
  execute_reveals (req ∷ reqs) = signing_info req.script >>= λ signing.
      execute_reveals reqs >>= λ (reveals, contexts). ok (signing ∷ reveals, req.context ∷ contexts)

-- `zip`, which stops at the shortest list.
unfoldable pub zip_opens : List SigningInfo → List FullTxOut → List ℕ → List StackOp
zip_opens (s ∷ ss) (c ∷ cs) (a ∷ amounts) =
    open_space (record { reveals = (record { signing = s; commitment = c }) ∷ []; amount = a })
    ∷ zip_opens ss cs amounts
zip_opens _ _ _ = []

unfoldable pub zip_executes :
    List SigningInfo → List FullTxOut → List (List SpaceTransfer) → List StackOp
zip_executes (s ∷ ss) (c ∷ cs) (x ∷ contexts) =
    execute (record { reveal = record { signing = s; commitment = c }; context = x })
    ∷ zip_executes ss cs contexts
zip_executes _ _ _ = []

module _ (open_tap_data : List ℕ → Result SigningInfo) (signing_info : List ℕ → Result SigningInfo)
    (prepare_all : CreateParams → List SigningInfo → Result (Transaction × List FullTxOut))
    (open_tx : OpenParams → Result Transaction) (execute_tx : ExecuteParams → Result Transaction)
    (bid_tx : BidRequest → Result Transaction) where
  abbrev pub tagged : TransactionTag → Result Transaction → Result TaggedTransaction
  tagged tag r = r >>= λ tx. ok (record { tx = tx; tags = tag ∷ [] })

  -- The first transaction, and the operations that it puts on the stack.
  unfoldable pub prepare_op : CreateParams → Result (TaggedTransaction × List StackOp)
  prepare_op params = open_reveals open_tap_data signing_info params.opens >>= λ (opened, amounts).
      execute_reveals open_tap_data signing_info params.executes >>= λ (scripts, contexts).
      prepare_all params (opened ++ scripts) >>= λ (tx, commitments).
      let n = length amounts in
      let reveals = opened ++ scripts in
      ok (
        record { tx = tx; tags = prepare_tags params },
        zip_opens (take n reveals) (take n commitments) amounts
            ++ zip_executes (drop n reveals) (drop n commitments) contexts,
      )

  abbrev pub after_prepare :
      List StackOp
      → Result (TaggedTransaction × List StackOp)
      → Result TaggedTransaction × List StackOp
  after_prepare rest (err e) = (err e, rest)
  after_prepare rest (ok (tagged_tx, pushed)) = (ok tagged_tx, rest ++ pushed)

  -- `BuilderIterator::next`: the item, where there is one, and the stack that is left.
  unfoldable pub next : List StackOp → Option (Result TaggedTransaction × List StackOp)
  next stack = elim (pop stack) [
    | none ↦ none
    | some (op, rest) ↦ elim op [
      | prepare params ↦ some (after_prepare rest (prepare_op params))
      | open_space params ↦ some (tagged open_tag (open_tx params), rest)
      | execute params ↦ some (tagged script_tag (execute_tx params), rest)
      | place_bid bid ↦ some (tagged bid_tag (bid_tx bid), rest)
    ]
  ]
