-- ===== src/Keys/Bytes.antt =====
-- The bit operations of the keys on one byte, by a table over all bytes, and arrays of bytes.
use spaced.Base.{
  ◌≤◌, Bool-cases, inl, inr, ℕ, zero, suc, ◌+◌, ◌-◌, ◌%◌, ◌<◌, ◌≡◌, refl, Bool, true, ◌&&◌, List,
  [], ◌∷◌, ◌==◌, ==_iff, if◌then◌else◌, bit_and, bit_or, arith, length, get_elem?, some, ltb, all,
}
use spaced.Keys.{Hash, modify}

-- `p` holds of `count` numbers, the first of which is `start`.
unfoldable pub holds_from : (ℕ → Bool) → ℕ → ℕ → Bool
holds_from p start zero = true
holds_from p start (suc count) = p start && holds_from p (start + 1) count

holds_from-true :
    (p : ℕ → Bool) (start count x : ℕ)
    → holds_from p start count ≡ true
    → start ≤ x
    → x < start + count
    → p x ≡ true
unfolding holds_from
holds_from-true p start zero x e low high = absurd (omega arith)
holds_from-true p start (suc count) x e low high = elim (Bool-cases (start == x)) [
  | inl first ↦ rw (← ((==_iff start x).0 first)) (ground (arith, e))
  | inr later ↦
      holds_from-true p (start + 1) count x (ground (arith, e)) (ground arith) (omega arith)
]

pub of_byte : (p : ℕ → Bool) (x : ℕ) → holds_from p 0 256 ≡ true → x < 256 → p x ≡ true
of_byte p x e high = holds_from-true p 0 256 x e (omega arith) high

table_0x7f : holds_from (λ x. bit_and x 0x7f == x % 128) 0 256 ≡ true
unfolding holds_from
table_0x7f = refl

table_0xfe : holds_from (λ x. bit_and x 0xfe == x - x % 2) 0 256 ≡ true
unfolding holds_from
table_0xfe = refl

table_0x80 : holds_from (λ x. bit_and x 0x80 == (if ltb x 128 then 0 else 128)) 0 256 ≡ true
unfolding holds_from
table_0x80 = refl

table_0x01 : holds_from (λ x. bit_and x 0x01 == x % 2) 0 256 ≡ true
unfolding holds_from
table_0x01 = refl

table_or_0x01 : holds_from (λ x. bit_or x 0x01 == x - x % 2 + 1) 0 256 ≡ true
unfolding holds_from
table_or_0x01 = refl

table_or_0x80 : holds_from (λ x. bit_or x 0x80 == x % 128 + 128) 0 256 ≡ true
unfolding holds_from
table_or_0x80 = refl

pub bit_and-0x7f : (x : ℕ) → x < 256 → bit_and x 0x7f ≡ x % 128
bit_and-0x7f x h = (==_iff _ _).0 (of_byte _ x table_0x7f h)

pub bit_and-0xfe : (x : ℕ) → x < 256 → bit_and x 0xfe ≡ x - x % 2
bit_and-0xfe x h = (==_iff _ _).0 (of_byte _ x table_0xfe h)

pub bit_and-0x80 : (x : ℕ) → x < 256 → bit_and x 0x80 ≡ (if ltb x 128 then 0 else 128)
bit_and-0x80 x h = (==_iff _ _).0 (of_byte _ x table_0x80 h)

pub bit_and-0x01 : (x : ℕ) → x < 256 → bit_and x 0x01 ≡ x % 2
bit_and-0x01 x h = (==_iff _ _).0 (of_byte _ x table_0x01 h)

pub bit_or-0x01 : (x : ℕ) → x < 256 → bit_or x 0x01 ≡ x - x % 2 + 1
bit_or-0x01 x h = (==_iff _ _).0 (of_byte _ x table_or_0x01 h)

pub bit_or-0x80 : (x : ℕ) → x < 256 → bit_or x 0x80 ≡ x % 128 + 128
bit_or-0x80 x h = (==_iff _ _).0 (of_byte _ x table_or_0x80 h)

-- An array of 32 bytes.
pub record IsHash (h : Hash) : Type 0 where
  pub size : length h ≡ 32
  pub bytes : all (λ b. ltb b 256) h ≡ true

pub get_elem?-modify :
    (i : ℕ) (f : ℕ → ℕ) (xs : List ℕ) (j x : ℕ)
    → get_elem? xs j ≡ some x
    → get_elem? (modify i f xs) j ≡ some (if i == j then f x else x)
get_elem?-modify i f [] j x h = cc
get_elem?-modify zero f (y ∷ xs) zero x h = ground arith
get_elem?-modify zero f (y ∷ xs) (suc j) x h = ground arith
get_elem?-modify (suc i) f (y ∷ xs) zero x h = ground arith
get_elem?-modify (suc i) f (y ∷ xs) (suc j) x h = ground (arith, get_elem?-modify i f xs j x h)

pub get_elem?-byte :
    (xs : List ℕ) (i : ℕ)
    → all (λ b. ltb b 256) xs ≡ true
    → i < length xs
    → (x : ℕ) × (get_elem? xs i ≡ some x) × (x < 256)
get_elem?-byte [] i h lt = absurd (omega arith)
get_elem?-byte (x ∷ xs) zero h lt = (x, refl, ground arith)
get_elem?-byte (x ∷ xs) (suc i) h lt = get_elem?-byte xs i (ground arith) (omega arith)

-- The first and the last byte of a hash.
pub hash_ends :
    (h : Hash)
    → IsHash h
    → (first : ℕ) × (final : ℕ) × (get_elem? h 0 ≡ some first)
      × (get_elem? h 31 ≡ some final)
      × (first < 256)
      × (final < 256)
hash_ends h v =
    let (first, e, lt) = get_elem?-byte h 0 v.bytes (omega (arith, v.size)) in
    let (final, e', lt') = get_elem?-byte h 31 v.bytes (omega (arith, v.size)) in
    (first, final, e, e', lt, lt')
