-- ===== src/Tests/Refunded.antt =====
-- The theorems on refunds at a concrete bid.
use spaced.Base.{◌≡◌, refl, ◌∷◌, [], some, ok, true}
use spaced.Bitcoin.{TxIn, Transaction}
use spaced.Spaces.{is_bid_spend}
use spaced.Spaces.Signing.{bid_psbt_tx, refund_signing_info}
use spaced.Spaces.Refund.{is_bid_spend-refund}
use spaced.Tests.Data.{toy, toy-IsBitcoin, sig_64}
use spaced.Tests.Validated.{out_of, waiting_bid, waiting_space}
use spaced.Tests.Rolled.{waiting_entry}

-- The output's value and what was burned: 662 and 1000.
abbrev refund_tx : Transaction
refund_tx = bid_psbt_tx toy waiting_entry 1662 sig_64

waiting-signed : refund_signing_info toy waiting_entry ≡ ok (some (refund_tx, out_of 662, sig_64))
unfolding refund_signing_info
waiting-signed = refl

is_bid_spend-refund_example :
    (input : TxIn) × (refund_tx.input ≡ input ∷ []) × (is_bid_spend waiting_space 2 input ≡ true)
is_bid_spend-refund_example =
    is_bid_spend-refund toy waiting_entry toy-IsBitcoin waiting_space waiting_bid refund_tx
      (out_of 662) sig_64 refl refl refl waiting-signed
