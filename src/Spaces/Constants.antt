-- ===== src/Spaces/Constants.antt =====
-- protocol/src/constants.rs
use spaced.Base.{ℕ, ◌*◌, List, [], ◌∷◌}
use spaced.Bitcoin.{LockTime, blocks, version_two, enable_rbf_no_locktime}

-- "\x07example", "\x04test" and "\x05local"
abbrev pub reserved_spaces : List (List ℕ)
reserved_spaces =
    (7 ∷ b'e' ∷ b'x' ∷ b'a' ∷ b'm' ∷ b'p' ∷ b'l' ∷ b'e' ∷ [])
    ∷ (4 ∷ b't' ∷ b'e' ∷ b's' ∷ b't' ∷ [])
    ∷ (5 ∷ b'l' ∷ b'o' ∷ b'c' ∷ b'a' ∷ b'l' ∷ [])
    ∷ []

abbrev pub rollout_block_interval : ℕ
rollout_block_interval = 144

abbrev pub rollout_batch_size : ℕ
rollout_batch_size = 10

abbrev pub auction_duration : ℕ
auction_duration = 144 * 10

abbrev pub auction_extension_on_bid : ℕ
auction_extension_on_bid = 144

abbrev pub renewal_interval : ℕ
renewal_interval = 144 * 365

abbrev pub bid_psbt_tx_version : ℕ
bid_psbt_tx_version = version_two

abbrev pub bid_psbt_tx_lock_time : LockTime
bid_psbt_tx_lock_time = blocks 0

abbrev pub bid_psbt_input_sequence : ℕ
bid_psbt_input_sequence = enable_rbf_no_locktime
