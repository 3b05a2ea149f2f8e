-- ===== src/Keys/Priority.antt =====
-- The priority in a bid key.
use spaced.Base.{ℕ, ◌+◌, ◌/◌, ◌%◌, ◌^◌, ◌≡◌, ap, ◌∷◌, min, drop, arith}
use spaced.Keys.{Hash, bid_key, priority, max_priority}
use spaced.Keys.Bytes.{bit_or-0x80, bit_and-0x7f}

-- The bytes of a bid key: the capped bid with the top bit set, and the rest of the hash.
pub bid_key_bytes :
    (bid_value : ℕ) (h : Hash)
    → let p = min bid_value max_priority in
      bid_key bid_value h
      ≡ (128 + p / 2 ^ 24) ∷ (p / 2 ^ 16 % 256) ∷ (p / 2 ^ 8 % 256) ∷ (p % 256) ∷ drop 4 h
unfolding bid_key
bid_key_bytes bid_value h =
    let p : ℕ = min bid_value max_priority in
    ap (λ (b : ℕ). b ∷ (p / 2 ^ 16 % 256) ∷ (p / 2 ^ 8 % 256) ∷ (p % 256) ∷ drop 4 h)
      (omega (arith, bit_or-0x80 (p / 2 ^ 24 % 256)))

-- The priority of a bid key is the bid in satoshis, capped at 2 ^ 31 - 1.
pub priority-bid_key :
    (bid_value : ℕ) (h : Hash) → priority (bid_key bid_value h) ≡ min bid_value max_priority
unfolding priority
priority-bid_key bid_value h =
    let p : ℕ = min bid_value max_priority in
    rw (bid_key_bytes bid_value h) (omega (arith, bit_and-0x7f (128 + p / 2 ^ 24)))
