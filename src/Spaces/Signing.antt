-- ===== src/Spaces/Signing.antt =====
-- The carried bid of `FullSpaceOut`: the transaction that its signature commits to, the refund, and
-- the check of the signature.
use spaced.Base.{
  ℕ, Bool, false, List, [], ◌∷◌, Option, none, some, Result, ok, err, ◌>>=◌, expect, drop,
  if◌then◌else◌, panic, length, ltb,
}
use spaced.Bitcoin.{Bitcoin, TxOut, Transaction, single_plus_anyone_can_pay}
use spaced.Spaces.{FullSpaceOut, bid, transfer, reserved, Bid, outpoint}
use spaced.Spaces.Constants.{bid_psbt_tx_version, bid_psbt_tx_lock_time, bid_psbt_input_sequence}

-- The part of `psbt::Input` that is filled in.
pub record RefundInput : Type 0 where
  pub witness_utxo : TxOut
  pub final_script_witness : List (List ℕ)

-- The bid covenant of an output, if it has one.
abbrev pub bid_of : FullSpaceOut → Option Bid
bid_of out = elim out.spaceout.space [
  | none ↦ none
  | some space ↦ elim space.covenant [ bid b ↦ some b | transfer _ _ ↦ none | reserved ↦ none ]
]

abbrev prevout : FullSpaceOut → TxOut
prevout out = record { value = out.spaceout.value; script_pubkey = out.spaceout.script_pubkey }

module _ (btc : Bitcoin) where
  -- `FullSpaceOut::bid_psbt_tx`
  abbrev pub bid_psbt_tx : FullSpaceOut → ℕ → List ℕ → Transaction
  bid_psbt_tx auctioned_utxo refund_amount signature = record {
    version = bid_psbt_tx_version;
    lock_time = bid_psbt_tx_lock_time;
    input =
        (record {
          previous_output = outpoint auctioned_utxo;
          script_sig = [];
          sequence = bid_psbt_input_sequence;
          witness = btc.taproot_signature_to_vec signature single_plus_anyone_can_pay ∷ [];
        })
        ∷ [];
    output =
        (record { value = refund_amount; script_pubkey = auctioned_utxo.spaceout.script_pubkey })
        ∷ [];
  }

  -- `FullSpaceOut::refund_signing_info`; the sum of the amounts can panic.
  unfoldable pub refund_signing_info : FullSpaceOut → Result (Option (Transaction × TxOut × List ℕ))
  refund_signing_info out = elim (bid_of out) [
    | none ↦ ok none
    | some b ↦ expect (btc.amount_add out.spaceout.value b.total_burned) >>= λ refund_amount.
        ok (some (bid_psbt_tx out refund_amount b.signature, prevout out, b.signature))
  ]

  -- `FullSpaceOut::refund_psbt_data`
  unfoldable pub refund_psbt_data : FullSpaceOut → Result (Option (RefundInput × TxOut))
  refund_psbt_data out = elim (bid_of out) [
    | none ↦ ok none
    | some b ↦ expect (btc.amount_add out.spaceout.value b.total_burned) >>= λ refund_amount. ok (
        some (
          record {
            witness_utxo = prevout out;
            final_script_witness =
                btc.taproot_signature_to_vec b.signature single_plus_anyone_can_pay ∷ [];
          },
          record { value = refund_amount; script_pubkey = out.spaceout.script_pubkey },
        ))
  ]

  -- The chain of `match`es on the signature hash, the message, the key and the signature, each of
  -- which returns `false` on an error.
  check_signature : Transaction → TxOut → List ℕ → Result Bool
  check_signature tx utxo signature = elim (btc.key_spend_signature_hash tx utxo) [
    | none ↦ ok false
    | some sighash ↦ elim (btc.message_from_digest sighash) [
      | none ↦ ok false
      | some msg ↦
          if ltb (length utxo.script_pubkey) 2
          then err panic
          else elim (btc.public_key_from_slice (drop 2 utxo.script_pubkey)) [
            | none ↦ ok false
            | some pubkey ↦ elim (btc.signature_from_slice signature) [
              | none ↦ ok false
              | some schnorr_sig ↦ ok (btc.verify_schnorr schnorr_sig msg pubkey)
            ]
          ]
    ]
  ]

  check_signing_info : Option (Transaction × TxOut × List ℕ) → Result Bool
  check_signing_info none = ok false
  check_signing_info (some (tx, utxo, signature)) = check_signature tx utxo signature

  -- `FullSpaceOut::verify_bid_sig`
  unfoldable pub verify_bid_sig : FullSpaceOut → Result Bool
  unfolding check_signing_info check_signature refund_signing_info
  verify_bid_sig out =
      if btc.is_p2tr out.spaceout.script_pubkey
      then (refund_signing_info out >>= check_signing_info)
      else ok false
