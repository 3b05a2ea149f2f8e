-- ===== src/Keys.antt =====
-- protocol/src/hasher.rs: the keys of the store. All are 32 bytes; the top bit of the first byte and
-- the low bit of the last one say which kind of key it is. The hash function is a parameter.
pub mod Bytes
pub mod Kinds
pub mod Priority
pub mod Order
use spaced.Bitcoin.{OutPoint}
use spaced.Base.{
  ℕ, zero, suc, ◌+◌, ◌-◌, ◌*◌, ◌/◌, ◌%◌, ◌^◌, Bool, ◌&&◌, List, [], ◌∷◌, ◌++◌, ◌==◌, if◌then◌else◌,
  take, drop, min, bit_and, bit_or, Result, ok, err, failed, io_error, get_elem?, none, some,
}

-- `type Hash = [u8; 32]`
abbrev pub Hash : Type 0
Hash = List ℕ

-- `trait KeyHasher`
abbrev pub KeyHasher : Type 0
KeyHasher = List ℕ → Hash

-- `value[i] = f(value[i])` on an array that has the index.
abbrev pub modify : ℕ → (ℕ → ℕ) → List ℕ → List ℕ
modify i f [] = []
modify zero f (x ∷ xs) = f x ∷ xs
modify (suc i) f (x ∷ xs) = x ∷ modify i f xs

-- `u32::to_be_bytes`
abbrev pub to_be_bytes : ℕ → List ℕ
to_be_bytes n = (n / 2 ^ 24 % 256) ∷ (n / 2 ^ 16 % 256) ∷ (n / 2 ^ 8 % 256) ∷ (n % 256) ∷ []

-- `u32::from_be_bytes`
abbrev pub from_be_bytes : List ℕ → ℕ
from_be_bytes (a ∷ b ∷ c ∷ d ∷ []) = ((a * 256 + b) * 256 + c) * 256 + d
from_be_bytes _ = 0

-- `From<Hash> for SpaceKey`
unfoldable pub space_key : Hash → Hash
space_key value =
    modify 31 (λ b. bit_and b 0b1111_1110) (modify 0 (λ b. bit_and b 0b0111_1111) value)

-- `SpaceKey::from_raw`
unfoldable pub space_key_from_raw : Hash → Result Hash
space_key_from_raw value = elim (get_elem? value 0) [
  | none ↦ err spaced.Base.panic
  | some first ↦ elim (get_elem? value 31) [
    | none ↦ err spaced.Base.panic
    | some final ↦
        if bit_and first 0b1000_0000 == 0 && bit_and final 0b0000_0001 == 0
        then ok value
        else err (failed (io_error "bad space hash"))
  ]
]

-- `From<Hash> for OutpointKey`
unfoldable pub outpoint_key : Hash → Hash
outpoint_key value =
    modify 31 (λ b. bit_or b 0b0000_0001) (modify 0 (λ b. bit_and b 0b0111_1111) value)

-- `OutpointKey::from_outpoint`
unfoldable pub outpoint_key_of : KeyHasher → OutPoint → Hash
outpoint_key_of hash value = outpoint_key (hash (value.txid ++ to_be_bytes value.vout))

abbrev pub max_priority : ℕ
max_priority = 2 ^ 31 - 1

-- `BidKey::from_bid`
unfoldable pub bid_key : ℕ → Hash → Hash
bid_key bid_value base_hash =
    modify 0 (λ b. bit_or b 0b1000_0000)
      (to_be_bytes (min bid_value max_priority) ++ drop 4 base_hash)

-- `From<Hash> for BidKey`
unfoldable pub bid_key_from_hash : Hash → Hash
bid_key_from_hash value =
    modify 31 (λ b. bit_or b 0b0000_0001) (modify 0 (λ b. bit_and b 0b0111_1111) value)

-- `BidKey::priority`
unfoldable pub priority : Hash → ℕ
priority key = from_be_bytes (modify 0 (λ b. bit_and b 0b0111_1111) (take 4 key))

-- `BidKey::is_valid`
unfoldable pub bid_key_is_valid : Hash → Result Bool
bid_key_is_valid key = elim (get_elem? key 0) [
  | none ↦ err spaced.Base.panic
  | some first ↦ ok (bit_and first 0b1000_0000 == 0b1000_0000)
]
