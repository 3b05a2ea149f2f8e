-- ===== src/Wallet/Placeholders.antt =====
-- A wallet makes as many outputs for auctions as its requests need.
use spaced.Wallet.{DoubleUtxo, SpacesAwareCoinSelection}
use spaced.Base.{
  >>=-eq-ok, ltb, Bool-cases, inr, inl, Option-cases, false, length, true, is_some, ◌||◌, Result,
  not, ◌∙◌, refl, ok, [], suc, ◌≡◌, ◌++◌, none, arith, ◌≤◌, ◌<◌, ◌∷◌, some, ◌+◌, ℕ, Option, List,
}
use spaced.Wallet.Requests.{
  execute, open_space, arrange, BuilderIterator, Builder, is_nil, build_iter, execute_request,
  transfer_request, register_request, bid_request, place_bid, add_u8, prepare, open_request,
  push_bids, StackRequest, StackOp, BidRequest, Arranged, count_requests, stack_of,
  auction_outputs_for, required_outputs,
}

-- An open or a bid takes one output for its auction.
abbrev pub needs : List StackRequest → ℕ
needs [] = 0
needs (open_request r ∷ rs) = suc (needs rs)
needs (bid_request r ∷ rs) = suc (needs rs)
needs (register_request r ∷ rs) = needs rs
needs (transfer_request r ∷ rs) = needs rs
needs (execute_request r ∷ rs) = needs rs

-- The outputs that a stack makes.
abbrev pub or_zero : Option ℕ → ℕ
or_zero none = 0
or_zero (some n) = n

abbrev pub made : List StackOp → ℕ
made [] = 0
made (prepare params ∷ ops) = or_zero params.auction_outputs + made ops
made (place_bid b ∷ ops) = made ops
made (open_space params ∷ ops) = made ops
made (execute params ∷ ops) = made ops

count_requests-needs :
    (rs : List StackRequest) (opens bids : ℕ)
    → opens + bids + needs rs < 256
    → (count_requests rs (opens, bids)).0 + (count_requests rs (opens, bids)).1
      ≡ opens + bids + needs rs
unfolding count_requests
count_requests-needs [] opens bids small = omega arith
count_requests-needs (open_request r ∷ rs) opens bids small =
    let up : add_u8 opens 1 ≡ opens + 1 = omega (arith, small) in
    let rest = count_requests-needs rs (opens + 1) bids (omega (arith, small)) in
    rw (count_requests, up) (rest ∙ omega arith)
count_requests-needs (bid_request r ∷ rs) opens bids small =
    count_requests-needs rs opens (bids + 1) (omega (arith, small)) ∙ omega arith
count_requests-needs (register_request r ∷ rs) opens bids small =
    count_requests-needs rs opens bids small
count_requests-needs (transfer_request r ∷ rs) opens bids small =
    count_requests-needs rs opens bids small
count_requests-needs (execute_request r ∷ rs) opens bids small =
    count_requests-needs rs opens bids small

required_outputs-needs : (rs : List StackRequest) → needs rs < 256 → required_outputs rs ≡ needs rs
unfolding required_outputs
required_outputs-needs rs small =
    omega (arith, small, count_requests-needs rs 0 0 (omega (arith, small)))

auction_outputs_for-enough :
    (bidouts : Option ℕ) (required available : ℕ) (out : Option ℕ)
    → required < 256
    → available + or_zero bidouts < 256
    → auction_outputs_for bidouts required available ≡ ok out
    → required ≤ available + or_zero out
unfolding auction_outputs_for
auction_outputs_for-enough none required available none few some_left h =
    ground (arith, h, few, some_left)
auction_outputs_for-enough none required available (some n) few some_left h =
    ground (arith, h, few, some_left)
auction_outputs_for-enough (some count) required available none few some_left h =
    absurd (ground (arith, h))
auction_outputs_for-enough (some count) required available (some n) few some_left h =
    ground (arith, h, few, some_left)

made-push_bids : (bs : List BidRequest) (ops : List StackOp) → made (push_bids bs ++ ops) ≡ made ops
made-push_bids [] ops = refl
made-push_bids (b ∷ bs) ops = made-push_bids bs ops

made-stack_of : (a : Arranged) (out : Option ℕ) → or_zero out ≤ made (stack_of a out)
unfolding stack_of
made-stack_of a none = omega arith
made-stack_of a (some n) =
    let due : (not (is_nil a.opens)
          || not (is_nil a.transfers)
          || not (is_nil a.executes)
          || is_some (some n))
        ≡ true =
      ground arith in
    let last : List StackOp =
      prepare (record {
        opens = a.opens;
        executes = a.executes;
        transfers = a.transfers;
        auction_outputs = some n;
      })
      ∷ [] in
    rw (stack_of, due) (omega (arith, made-push_bids a.bids last))

-- When the stack of a wallet has been built, with at most 255 opens and bids together, the pairs that
-- the wallet lists for auctions, confirmed or not, and the outputs that the stack makes are enough for
-- all of them. There are at most 255 pairs with those that were asked for.
pub build_iter-enough :
    (list : SpacesAwareCoinSelection → Result (List DoubleUtxo)) (unused : ℕ → List ℕ)
    (dust : Option ℕ) (median_time : ℕ) (selection : SpacesAwareCoinSelection) (b : Builder)
    (available : List DoubleUtxo) (it : BuilderIterator)
    → needs b.requests < 256
    → length available + or_zero b.bidouts < 256
    → list (record selection { confirmed_only = false }) ≡ ok available
    → build_iter list unused dust median_time selection b ≡ ok it
    → needs b.requests ≤ length available + made it.stack
unfolding build_iter
build_iter-enough list unused dust median_time selection b available it few some_left listed h =
    elim (Option-cases b.fee_rate) [
      | inl e ↦ absurd (cc (rw (build_iter, e) at h))
      | inr (fee_rate, e) ↦
          let h₁ = rw (build_iter, e) at h in
          let same = required_outputs-needs b.requests few in
          elim (Bool-cases (ltb 0 (required_outputs b.requests))) [
            | inr nothing ↦ ground (arith, nothing, same)
            | inl wanted ↦
                let h₂ = rw (wanted, listed) at h₁ in
                let (out, e₃, h₃) =
                  >>=-eq-ok
                    (auction_outputs_for b.bidouts (required_outputs b.requests) (length available))
                    _ h₂ in
                let enough =
                  auction_outputs_for-enough b.bidouts (required_outputs b.requests)
                    (length available) out (omega (arith, few, same)) some_left e₃ in
                let a =
                  arrange unused 0 b.requests
                    (record { opens = []; bids = []; transfers = []; executes = [] }) in
                let at : stack_of a out ≡ it.stack = ground (arith, h₃) in
                rw (← at) (omega (arith, enough, same, made-stack_of a out))
          ]
    ]
