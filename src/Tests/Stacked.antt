-- ===== src/Tests/Stacked.antt =====
-- The theorem on the stack of the wallet at a concrete stack.
use spaced.Wallet.Pushed.{Pushes, next-Pushes}
use spaced.Tests.Data.{script_34}
use spaced.Wallet.{FullTxOut}
use spaced.Wallet.Stack.{
  zip_executes, zip_opens, execute_reveals, open_reveals, prepare_op, commitment_tag, pop, next,
  TaggedTransaction,
}
use spaced.Bitcoin.{seconds, Transaction}
use spaced.Base.{refl, ◌++◌, ◌≡◌, none, ok, [], ◌∷◌, Result, ℕ, List}
use spaced.Wallet.Requests.{
  execute, open_space, RevealParams, SigningInfo, StackOp, BidRequest, ExecuteParams, CreateParams,
  OpenParams,
}

abbrev tap_of : List ℕ → Result SigningInfo
tap_of name = ok (record { script = name; tweaked_address = script_34 })

abbrev commitment_at : ℕ → FullTxOut
commitment_at vout = record {
  outpoint = record { txid = 1 ∷ []; vout = vout };
  txout = record { value = 662; script_pubkey = script_34 };
}

abbrev commit_tx : Transaction
commit_tx = record {
  version = 2;
  lock_time = seconds 500_000_222;
  input = [];
  output =
      (record { value = 662; script_pubkey = script_34 })
      ∷ (record { value = 662; script_pubkey = script_34 })
      ∷ [];
}

abbrev commit_all : CreateParams → List SigningInfo → Result (Transaction × List FullTxOut)
commit_all params reveals = ok (commit_tx, commitment_at 0 ∷ commitment_at 1 ∷ [])

-- One open and one script.
abbrev two_requests : CreateParams
two_requests = record {
  opens = (record { name = 97 ∷ []; initial_amount = 1000 }) ∷ [];
  executes = (record { context = []; script = 5 ∷ [] }) ∷ [];
  transfers = [];
  auction_outputs = none;
}

abbrev done_tx : TaggedTransaction
done_tx = record { tx = commit_tx; tags = commitment_tag ∷ [] }

abbrev reveal_at : List ℕ → ℕ → RevealParams
reveal_at name vout = record {
  signing = record { script = name; tweaked_address = script_34 };
  commitment = commitment_at vout;
}

abbrev left_over : List StackOp
left_over =
    open_space (record { reveals = reveal_at (97 ∷ []) 0 ∷ []; amount = 1000 })
    ∷ execute (record { reveal = reveal_at (5 ∷ []) 1; context = [] })
    ∷ []

abbrev never_open : OpenParams → Result Transaction
never_open params = ok commit_tx

abbrev never_execute : ExecuteParams → Result Transaction
never_execute params = ok commit_tx

abbrev never_bid : BidRequest → Result Transaction
never_bid bid = ok commit_tx

next-Pushes_example :
    (pushed : List StackOp) × (left_over ≡ [] ++ pushed)
    × Pushes tap_of tap_of commit_all never_open never_execute never_bid two_requests done_tx pushed
unfolding next pop prepare_op open_reveals execute_reveals zip_opens zip_executes
next-Pushes_example =
    next-Pushes tap_of tap_of commit_all never_open never_execute never_bid [] left_over
      two_requests done_tx refl
