-- ===== src/Tests/Validated.antt =====
-- The theorems on the validator at concrete inputs.
use spaced.Base.{
  ℕ, ◌≤◌, ◌≡◌, refl, [], ◌∷◌, ◌++◌, Option, none, some, arith, ok, false, replicate, All,
}
use spaced.Bitcoin.{TxIn, TxOut, Transaction, blocks, enable_rbf_no_locktime}
use spaced.Label.Owned.{buffer}
use spaced.Spaces.{Bid, Space, SpaceOut, bid, transfer, is_expired, is_bid_spend}
use spaced.Spaces.Signing.{verify_bid_sig}
use spaced.Script.{script_ok, set}
use spaced.Prepare.{AuctionedOutput, TxContext}
use spaced.Validate.{TxChangeSet, UpdateOut, bid_update, push_update}
use spaced.Validate.BidSpend.{bid_spend, process_bid_spend}
use spaced.Validate.Transfer.{process_transfer}
use spaced.Validate.Spend.{process_spend, spend_space, spend_if}
use spaced.Validate.Outcomes.{SpendCase, process_spend-SpendCase}
use spaced.Validate.Process.{
  process, process_inputs, process_input, process_script, clear_auctioned_spent,
}
use spaced.Validate.Creates.{AreOutputs}
use spaced.Validate.FinalCreates.{Settled}
use spaced.Validate.Tracking.{process-AreOutputs}
use spaced.Validate.Updates.{IsSound, bids}
use spaced.Validate.ProcessUpdates.{process-Updates}
use spaced.Validate.Raise.{RaiseCase, bid_spend-Raises}
use spaced.Tests.Data.{toy, toy-IsBitcoin, text_ab, script_34, sig_64}

-- An output that carries the space "@ab" under some covenant.
abbrev pub holder : ℕ → Option Space → SpaceOut
holder n space = record { n = n; space = space; value = 662; script_pubkey = script_34 }

abbrev owned_space : Space
owned_space = record { name = buffer text_ab; covenant = transfer 60_000 none }

abbrev pub spend_0 : TxIn
spend_0 = record {
  previous_output = record { txid = 9 ∷ []; vout = 0 };
  script_sig = [];
  sequence = enable_rbf_no_locktime;
  witness = (sig_64 ++ (0x83 ∷ [])) ∷ [];
}

abbrev pub out_of : ℕ → TxOut
out_of value = record { value = value; script_pubkey = script_34 }

-- The owner moves the space to the second output, and sets its data.
abbrev pub moving : Transaction
moving = record {
  version = 2;
  lock_time = blocks 0;
  input = spend_0 ∷ [];
  output = out_of 662 ∷ out_of 1000 ∷ [];
}

abbrev moving_context : TxContext
moving_context = record {
  inputs =
      (record {
        n = 0;
        sstxo = holder 0 (some owned_space);
        script = some (script_ok (set (7 ∷ [])));
      })
      ∷ [];
  auctioned_output = none;
}

abbrev moved_changes : TxChangeSet
moved_changes = record {
  txid = 1 ∷ [];
  spends = (record { n = 0; script_error = none }) ∷ [];
  creates =
      (record {
        n = 1;
        space = some (record { name = buffer text_ab; covenant = transfer 53_560 (some (7 ∷ [])) });
        value = 1000;
        script_pubkey = script_34;
      })
      ∷ holder 0 none
      ∷ [];
  updates = [];
}

moving-ok : process toy 1000 moving moving_context ≡ ok moved_changes
unfolding process process_inputs spaced.Base.Loop.for_each process_input process_script
    clear_auctioned_spent process_spend spend_if spend_space is_expired process_transfer
    spaced.Validate.Process.track_outputs spaced.Validate.Process.track_output
    spaced.Validate.Process.apply_covenants spaced.Validate.Process.set_data
    spaced.Spaces.data_owned
moving-ok = refl

process-AreOutputs_example : AreOutputs (Settled false (7 ∷ [])) moving.output moved_changes.creates
process-AreOutputs_example =
    process-AreOutputs toy 1000 moving moving_context moved_changes moving-ok

-- A bid of 500 on a space in the pre-auction for which 1000 were burned, carried for the output 4.
abbrev pub waiting_bid : Bid
waiting_bid = record {
  burn_increment = 400;
  signature = sig_64;
  total_burned = 1000;
  claim_height = none;
}

abbrev pub waiting_space : Space
waiting_space = record { name = buffer text_ab; covenant = bid waiting_bid }

abbrev pub carried : AuctionedOutput
carried = record {
  output = some (holder 4 none);
  bid_psbt = record {
    outpoint = record { txid = 9 ∷ []; vout = 4 };
    signature = replicate 64 6;
    burn_amount = 500;
  };
}

abbrev new_bid : UpdateOut
new_bid = record {
  kind = bid_update;
  output = record {
    txid = 9 ∷ [];
    spaceout = holder 4 (
        some (record {
          name = buffer text_ab;
          covenant = bid (record {
            burn_increment = 500;
            signature = replicate 64 6;
            total_burned = 1500;
            claim_height = none;
          });
        }));
  };
}

abbrev bidding : Transaction
bidding = record moving { output = out_of 1000 ∷ [] }

abbrev pub spent_0 : TxChangeSet
spent_0 = record {
  txid = 1 ∷ [];
  spends = (record { n = 0; script_error = none }) ∷ [];
  creates = [];
  updates = [];
}

bidding-ok :
    process toy 1000 bidding (record {
      inputs = (record { n = 0; sstxo = holder 0 (some waiting_space); script = none }) ∷ [];
      auctioned_output = some carried;
    })
    ≡ ok (push_update new_bid spent_0)
unfolding process process_inputs spaced.Base.Loop.for_each process_input process_script
    clear_auctioned_spent process_spend spend_if spend_space is_expired process_bid_spend bid_spend
    is_bid_spend spaced.Spaces.bid_witness verify_bid_sig spaced.Spaces.Signing.refund_signing_info
    spaced.Validate.Process.track_outputs spaced.Validate.Process.track_output
    spaced.Validate.Process.apply_covenants spaced.Bitcoin.outpoint_eq spaced.Base.Tests.bytes_eq
bidding-ok = refl

process-Updates_example : All (IsSound toy) (new_bid ∷ []) × (bids (new_bid ∷ []) ≤ 1)
process-Updates_example =
    process-Updates toy 1000 bidding
      (record {
        inputs = (record { n = 0; sstxo = holder 0 (some waiting_space); script = none }) ∷ [];
        auctioned_output = some carried;
      })
      (push_update new_bid spent_0) bidding-ok

process_spend-SpendCase_example :
    SpendCase toy 1000 bidding 0
      (holder 0 (some waiting_space))
      (some carried)
      spent_0
      none
      (push_update new_bid spent_0)
unfolding process_spend spend_if spend_space is_expired process_bid_spend bid_spend is_bid_spend
    spaced.Spaces.bid_witness verify_bid_sig spaced.Spaces.Signing.refund_signing_info
    spaced.Base.Tests.bytes_eq
process_spend-SpendCase_example =
    process_spend-SpendCase toy 1000 bidding 0 (holder 0 (some waiting_space)) (some carried) none
      spent_0 (push_update new_bid spent_0) refl

bid_spend-Raises_example :
    (u : UpdateOut) × (push_update new_bid spent_0 ≡ push_update u spent_0)
    × RaiseCase toy 1000 (9 ∷ []) (holder 0 (some waiting_space)) 1000 none (some carried) u
unfolding bid_spend verify_bid_sig spaced.Spaces.Signing.refund_signing_info
bid_spend-Raises_example =
    bid_spend-Raises toy 1000 bidding spend_0 (holder 0 (some waiting_space)) 1000 none
      (some carried) spent_0 (push_update new_bid spent_0) toy-IsBitcoin (omega arith) refl
