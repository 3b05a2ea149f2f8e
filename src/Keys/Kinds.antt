-- ===== src/Keys/Kinds.antt =====
-- Keys of different kinds never meet in the store, and `from_raw` tells space keys.
use spaced.Base.{
  ℕ, zero, suc, ◌/◌, ◌%◌, ◌^◌, ◌≤◌, ◌<◌, ◌≡◌, ◌≢◌, ◌↔◌, refl, sym, ap, ◌∙◌, true, false, List, [],
  ◌∷◌, min, some, get_elem?, ok, arith, bit_and, bit_or,
}
use spaced.Keys.{
  Hash, modify, space_key, space_key_from_raw, outpoint_key, bid_key, bid_key_is_valid,
  max_priority,
}
use spaced.Keys.Bytes.{
  IsHash, hash_ends, get_elem?-modify, bit_and-0x7f, bit_and-0xfe, bit_and-0x80, bit_and-0x01,
  bit_or-0x01, bit_or-0x80,
}

-- The first and the last byte of a key are `a` and `z`.
abbrev pub Ends : Hash → ℕ → ℕ → Type 0
Ends key a z = (get_elem? key 0 ≡ some a) × (get_elem? key 31 ≡ some z)

masked-Ends :
    (f g : ℕ → ℕ) (h : Hash) {a z : ℕ} → Ends h a z → Ends (modify 31 g (modify 0 f h)) (f a) (g z)
masked-Ends f g h {a} {z} (p, q) = (
  get_elem?-modify 31 g (modify 0 f h) 0 (f a) (get_elem?-modify 0 f h 0 a p),
  get_elem?-modify 31 g (modify 0 f h) 31 z (get_elem?-modify 0 f h 31 z q),
)

pub space_key-Ends :
    (h : Hash)
    → IsHash h
    → (a : ℕ) × (z : ℕ) × Ends (space_key h) a z × (a < 128) × (z % 2 ≡ 0) × (z < 256)
unfolding space_key
space_key-Ends h v =
    let (a, z, p, q, la, lz) = hash_ends h v in
    (
      bit_and a 0x7f,
      bit_and z 0xfe,
      masked-Ends _ _ h (p, q),
      omega (arith, bit_and-0x7f a la),
      omega (arith, bit_and-0xfe z lz),
      omega (arith, bit_and-0xfe z lz),
    )

pub outpoint_key-Ends :
    (h : Hash) → IsHash h → (a : ℕ) × (z : ℕ) × Ends (outpoint_key h) a z × (a < 128) × (z % 2 ≡ 1)
unfolding outpoint_key
outpoint_key-Ends h v =
    let (a, z, p, q, la, lz) = hash_ends h v in
    (
      bit_and a 0x7f,
      bit_or z 0x01,
      masked-Ends _ _ h (p, q),
      omega (arith, bit_and-0x7f a la),
      omega (arith, bit_or-0x01 z lz),
    )

pub bid_key_top :
    (bid_value : ℕ) (h : Hash)
    → (a : ℕ) × (get_elem? (bid_key bid_value h) 0 ≡ some a) × (128 ≤ a) × (a < 256)
unfolding bid_key
bid_key_top bid_value h =
    let b : ℕ = min bid_value max_priority / 2 ^ 24 % 256 in
    (bit_or b 0x80, refl, omega (arith, bit_or-0x80 b), omega (arith, bit_or-0x80 b))

-- Space, outpoint and bid keys are told apart whatever the hashes of 32 bytes and the bid are, so that the three
-- kinds of entries of the store never overwrite one another.
pub keys_distinct :
    (bid_value : ℕ) (g h k : Hash)
    → IsHash g
    → IsHash h
    → (space_key g ≢ outpoint_key h)
      × (space_key g ≢ bid_key bid_value k)
      × (outpoint_key h ≢ bid_key bid_value k)
keys_distinct bid_value g h k vg vh =
    let (a, z, (pa, pz), la, lz, sz) = space_key-Ends g vg in
    let (a', z', (pa', pz'), la', lz') = outpoint_key-Ends h vh in
    let (t, pt, lt, st) = bid_key_top bid_value k in
    (
      λ e. ground (arith, ap (λ key. get_elem? key 31) e),
      λ e. ground (arith, ap (λ key. get_elem? key 0) e),
      λ e. ground (arith, ap (λ key. get_elem? key 0) e),
    )

-- Of the keys made from hashes of 32 bytes, `BidKey::is_valid` accepts every bid key, and no space key
-- and no outpoint key.
pub bid_key_is_valid_lem :
    (bid_value : ℕ) (g h k : Hash)
    → IsHash g
    → IsHash h
    → (bid_key_is_valid (bid_key bid_value k) ≡ ok true)
      × (bid_key_is_valid (space_key g) ≡ ok false)
      × (bid_key_is_valid (outpoint_key h) ≡ ok false)
unfolding bid_key_is_valid
bid_key_is_valid_lem bid_value g h k vg vh =
    let (a, z, (pa, pz), la, lz, sz) = space_key-Ends g vg in
    let (a', z', (pa', pz'), la', lz') = outpoint_key-Ends h vh in
    let (t, pt, lt, st) = bid_key_top bid_value k in
    (
      ground (arith, pt, bit_and-0x80 t),
      ground (arith, pa, bit_and-0x80 a),
      ground (arith, pa', bit_and-0x80 a'),
    )

modify-id :
    (i : ℕ) (f : ℕ → ℕ) (xs : List ℕ) (x : ℕ)
    → get_elem? xs i ≡ some x
    → f x ≡ x
    → modify i f xs ≡ xs
modify-id i f [] x h e = refl
modify-id zero f (y ∷ xs) x h e =
    let same : y ≡ x = cc in ap (λ b. b ∷ xs) (ap f same ∙ e ∙ sym same)
modify-id (suc i) f (y ∷ xs) x h e = ap (◌∷◌ y) (modify-id i f xs x h e)

from_raw→masked :
    (h key : Hash) → IsHash h → space_key_from_raw h ≡ ok key → (key ≡ h) × (space_key h ≡ h)
unfolding space_key_from_raw space_key
from_raw→masked h key v e =
    let (a, z, p, q, la, lz) = hash_ends h v in
    let clear : (key ≡ h) × (a < 128) × (z % 2 ≡ 0) = (
      ground (arith, e, p, q),
      ground (arith, e, p, q, bit_and-0x80 a la),
      ground (arith, e, p, q, bit_and-0x01 z lz),
    ) in
    let first = modify-id 0 (λ b. bit_and b 0x7f) h a p (omega (arith, bit_and-0x7f a la, clear)) in
    let final =
      modify-id 31 (λ b. bit_and b 0xfe) h z q (omega (arith, bit_and-0xfe z lz, clear)) in
    (clear.0, ap (modify 31 (λ b. bit_and b 0xfe)) first ∙ final)

masked→from_raw : (h : Hash) → IsHash h → space_key h ≡ h → space_key_from_raw h ≡ ok h
unfolding space_key_from_raw
masked→from_raw h v e =
    let (a, z, p, q, la, lz) = hash_ends h v in
    let (a', z', (pa, pz), la', lz', sz) = space_key-Ends h v in
    let low : a ≡ a' = cc (ap (λ key. get_elem? key 0) e) in
    let even : z ≡ z' = cc (ap (λ key. get_elem? key 31) e) in
    ground (arith, p, q, bit_and-0x80 a la, bit_and-0x01 z lz, low, even)

-- `SpaceKey::from_raw` accepts exactly the hashes of 32 bytes that `SpaceKey::from` would leave unchanged, and
-- returns them as they are.
pub space_key_from_raw_iff :
    (h key : Hash) → IsHash h → (space_key_from_raw h ≡ ok key) ↔ ((key ≡ h) × (space_key h ≡ h))
space_key_from_raw_iff h key v = (from_raw→masked h key v, λ (e, m). rw e (masked→from_raw h v m))
