-- ===== src/Wallet/Requests.antt =====
-- wallet/src/builder.rs: the requests of a wallet are arranged into transactions. An address is the
-- script that pays to it, a name a string of bytes. `u8` arithmetic wraps around in a release build.
use spaced.Spaces.{reserved, transfer, bid, Space, FullSpaceOut}
use spaced.Wallet.{FullTxOut, DoubleUtxo, SpacesAwareCoinSelection}
use spaced.Bitcoin.{Bitcoin}
use spaced.Base.{
  length, ◌>>=◌, anyhow, expect, is_some, ◌||◌, err, not, true, ltb, some, false, ok, ◌-◌, ◌∷◌, ◌∷◌,
  Result, ◌%◌, none, if◌then◌else◌, Bool, ◌+◌, Option, List, [], ℕ, ◌++◌,
}

pub record OpenRequest : Type 0 where
  pub name : List ℕ
  pub initial_amount : ℕ

pub record BidRequest : Type 0 where
  pub space : FullSpaceOut
  pub amount : ℕ

pub record RegisterRequest : Type 0 where
  pub space : FullSpaceOut
  pub to : Option (List ℕ)

pub record SpaceTransfer : Type 0 where
  pub space : FullSpaceOut
  pub recipient : List ℕ

pub record CoinTransfer : Type 0 where
  pub amount : ℕ
  pub recipient : List ℕ

pub data TransferRequest : Type 0 where
  space_transfer : SpaceTransfer → TransferRequest
  coin_transfer : CoinTransfer → TransferRequest

pub record ExecuteRequest : Type 0 where
  pub context : List SpaceTransfer
  pub script : List ℕ

pub data StackRequest : Type 0 where
  open_request : OpenRequest → StackRequest
  bid_request : BidRequest → StackRequest
  register_request : RegisterRequest → StackRequest
  transfer_request : TransferRequest → StackRequest
  execute_request : ExecuteRequest → StackRequest

pub record CreateParams : Type 0 where
  pub opens : List OpenRequest
  pub executes : List ExecuteRequest
  pub transfers : List TransferRequest
  pub auction_outputs : Option ℕ

-- What the code reads of a `SpaceScriptSigningInfo`: the script and the address that commits to it.
pub record SigningInfo : Type 0 where
  pub script : List ℕ
  pub tweaked_address : List ℕ

pub record RevealParams : Type 0 where
  pub signing : SigningInfo
  pub commitment : FullTxOut

pub record OpenParams : Type 0 where
  pub reveals : List RevealParams
  pub amount : ℕ

pub record ExecuteParams : Type 0 where
  pub reveal : RevealParams
  pub context : List SpaceTransfer

-- `StackOp`
pub data StackOp : Type 0 where
  prepare : CreateParams → StackOp
  open_space : OpenParams → StackOp
  place_bid : BidRequest → StackOp
  execute : ExecuteParams → StackOp

pub record Builder : Type 0 where
  pub requests : List StackRequest
  pub fee_rate : Option ℕ
  pub bidouts : Option ℕ
  pub force : Bool

pub record BuilderIterator : Type 0 where
  pub stack : List StackOp
  pub dust : Option ℕ
  pub fee_rate : ℕ
  pub force : Bool
  pub median_time : ℕ
  pub coin_selection : SpacesAwareCoinSelection

-- `Builder::new`
abbrev pub new_builder : Builder
new_builder = record { requests = []; fee_rate = none; bidouts = none; force = false }

-- `Builder::add_bid`, `add_open`, `add_register`, `add_transfer` and `add_execute` push a request.
abbrev pub add_request : StackRequest → Builder → Builder
add_request r b = record b { requests = b.requests ++ (r ∷ []) }

abbrev pub add_u8 : ℕ → ℕ → ℕ
add_u8 a b = (a + b) % 256

abbrev pub sub_u8 : ℕ → ℕ → ℕ
sub_u8 a b = (a + (256 - b)) % 256

abbrev pub as_u8 : ℕ → ℕ
as_u8 n = n % 256

-- The fold over the requests: the opens, as a `u8`, and the bids.
unfoldable pub count_requests : List StackRequest → ℕ × ℕ → ℕ × ℕ
count_requests [] counts = counts
count_requests (open_request r ∷ rs) (opens, bids) = count_requests rs (add_u8 opens 1, bids)
count_requests (bid_request r ∷ rs) (opens, bids) = count_requests rs (opens, bids + 1)
count_requests (register_request r ∷ rs) counts = count_requests rs counts
count_requests (transfer_request r ∷ rs) counts = count_requests rs counts
count_requests (execute_request r ∷ rs) counts = count_requests rs counts

unfoldable pub required_outputs : List StackRequest → ℕ
required_outputs rs = let counts = count_requests rs (0, 0) in add_u8 counts.0 (as_u8 counts.1)

-- How many outputs for auctions are to be made, of how many there are.
unfoldable pub auction_outputs_for : Option ℕ → ℕ → ℕ → Result (Option ℕ)
auction_outputs_for none required available =
    if ltb (as_u8 available) required
    then ok (some (sub_u8 required (as_u8 available)))
    else ok none
auction_outputs_for (some count) required available =
    if ltb (add_u8 (as_u8 available) count) required
    then err (anyhow "number of required placeholders exceeds currently available + requested")
    else ok (some count)

-- The requests by kind, which the loop fills.
pub record Arranged : Type 0 where
  pub opens : List OpenRequest
  pub bids : List BidRequest
  pub transfers : List TransferRequest
  pub executes : List ExecuteRequest

-- A request that joins the others of its kind; `unused` is the wallet's next unused space address.
unfoldable pub arrange_one : List ℕ → StackRequest → Arranged → Arranged
arrange_one unused (open_request r) a = record a { opens = a.opens ++ (r ∷ []) }
arrange_one unused (bid_request r) a = record a { bids = a.bids ++ (r ∷ []) }
arrange_one unused (register_request r) a =
    let to : List ℕ = elim r.to [ none ↦ unused | some address ↦ address ] in
    record a {
      transfers = a.transfers ++ (space_transfer (record { space = r.space; recipient = to }) ∷ []);
    }
arrange_one unused (transfer_request r) a = record a { transfers = a.transfers ++ (r ∷ []) }
arrange_one unused (execute_request r) a = record a { executes = a.executes ++ (r ∷ []) }

-- The loop over the requests; the wallet's address may change from one to the next.
unfoldable pub arrange : (ℕ → List ℕ) → ℕ → List StackRequest → Arranged → Arranged
arrange unused i [] a = a
arrange unused i (r ∷ rs) a = arrange unused (i + 1) rs (arrange_one (unused i) r a)

abbrev pub push_bids : List BidRequest → List StackOp
push_bids [] = []
push_bids (b ∷ bs) = place_bid b ∷ push_bids bs

abbrev pub is_nil : {A : Type 0} → List A → Bool
is_nil [] = true
is_nil (x ∷ xs) = false

-- The stack, whose top is at its end.
unfoldable pub stack_of : Arranged → Option ℕ → List StackOp
stack_of a auction_outputs =
    if not (is_nil a.opens)
      || not (is_nil a.transfers)
      || not (is_nil a.executes)
      || is_some auction_outputs
    then push_bids a.bids
      ++ (prepare (record {
        opens = a.opens;
        executes = a.executes;
        transfers = a.transfers;
        auction_outputs = auction_outputs;
      })
          ∷ [])
    else push_bids a.bids

-- `Builder::build_iter`; `list` gives the pairs for bids that the wallet lists for a selection.
unfoldable pub build_iter :
    (SpacesAwareCoinSelection → Result (List DoubleUtxo))
    → (ℕ → List ℕ)
    → Option ℕ
    → ℕ
    → SpacesAwareCoinSelection
    → Builder
    → Result BuilderIterator
build_iter list unused dust median_time coin_selection b = elim b.fee_rate [
  | none ↦ err (anyhow "fee_rate is required")
  | some fee_rate ↦
      let required = required_outputs b.requests in
      (if ltb 0 required then list (record coin_selection { confirmed_only = false }) else ok [])
      >>= λ available.
          auction_outputs_for b.bidouts required (length available) >>= λ auction_outputs.
          ok (record {
            stack =
                stack_of
                  (arrange unused 0 b.requests
                    (record { opens = []; bids = []; transfers = []; executes = [] }))
                  auction_outputs;
            dust = dust;
            fee_rate = fee_rate;
            force = b.force;
            median_time = median_time;
            coin_selection = coin_selection;
          })
]

-- The amount that a bid burns, in `add_bid` of the transaction builder. Sums and differences of amounts
-- panic out of range.
unfoldable pub burn_amount : Bitcoin → Option Space → ℕ → Bool → Result ℕ
burn_amount btc none amount force = ok amount
burn_amount btc (some space) amount force = elim space.covenant [
  | bid b ↦
      (if force then ok b.total_burned else expect (btc.amount_add b.total_burned 1)) >>= λ min_bid.
      if ltb amount min_bid
      then err (anyhow "Minimum bid")
      else expect (btc.amount_sub amount b.total_burned)
  | transfer _ _ ↦ err (anyhow "Space not in auction")
  | reserved ↦ err (anyhow "Space not in auction")
]
