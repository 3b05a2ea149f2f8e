-- ===== src/Keys/Order.antt =====
-- The store lists keys in the order of their bytes, and the rollout takes the greatest keys first.
use spaced.Base.{
  refl, bytes_eq, bytes_eq→eq, Bool-cases, inl, inr, ℕ, ◌+◌, ◌/◌, ◌%◌, ◌^◌, ◌<◌, ◌≡◌, List, [], ◌∷◌,
  min, drop, Bool, true, false, arith, ltb, ◌==◌, ◌||◌, ◌&&◌, get_elem?, some,
}
use spaced.Keys.{Hash, bid_key, space_key, outpoint_key, max_priority}
use spaced.Keys.Priority.{bid_key_bytes}
use spaced.Keys.Kinds.{space_key-Ends, outpoint_key-Ends, bid_key_top}
use spaced.Keys.Bytes.{IsHash}

-- The derived order on `[u8; 32]`: lexicographic.
unfoldable pub bytes_lt : List ℕ → List ℕ → Bool
bytes_lt [] [] = false
bytes_lt [] (y ∷ ys) = true
bytes_lt (x ∷ xs) [] = false
bytes_lt (x ∷ xs) (y ∷ ys) = ltb x y || (x == y && bytes_lt xs ys)

big_endian_lt :
    (p q : ℕ) (xs ys : List ℕ)
    → p < q
    → bytes_lt
        ((128 + p / 2 ^ 24) ∷ (p / 2 ^ 16 % 256) ∷ (p / 2 ^ 8 % 256) ∷ (p % 256) ∷ xs)
        ((128 + q / 2 ^ 24) ∷ (q / 2 ^ 16 % 256) ∷ (q / 2 ^ 8 % 256) ∷ (q % 256) ∷ ys)
      ≡ true
unfolding bytes_lt
big_endian_lt p q xs ys h = ground arith

-- A higher bid has the greater key, whatever the hashes, until bids reach the cap.
pub bid_key_mono :
    (low high : ℕ) (g h : Hash)
    → low < high
    → low < max_priority
    → bytes_lt (bid_key low g) (bid_key high h) ≡ true
bid_key_mono low high g h lt cap =
    rw (bid_key_bytes low g, bid_key_bytes high h)
      (big_endian_lt (min low max_priority) (min high max_priority) (drop 4 g) (drop 4 h)
        (omega arith))

bytes_lt_of_head :
    (xs ys : List ℕ) {a b : ℕ}
    → get_elem? xs 0 ≡ some a
    → get_elem? ys 0 ≡ some b
    → a < b
    → bytes_lt xs ys ≡ true
unfolding bytes_lt
bytes_lt_of_head [] ys p q h = cc
bytes_lt_of_head (x ∷ xs) [] p q h = cc
bytes_lt_of_head (x ∷ xs) (y ∷ ys) p q h = ground arith

-- Every bid key is greater than every space key and every outpoint key, for hashes of 32 bytes.
pub bid_keys_last :
    (bid_value : ℕ) (g h : Hash)
    → IsHash h
    → (bytes_lt (space_key h) (bid_key bid_value g) ≡ true)
      × (bytes_lt (outpoint_key h) (bid_key bid_value g) ≡ true)
bid_keys_last bid_value g h v =
    let (a, z, (pa, pz), la, lz, sz) = space_key-Ends h v in
    let (a', z', (pa', pz'), la', lz') = outpoint_key-Ends h v in
    let (t, pt, lt, st) = bid_key_top bid_value g in
    (
      bytes_lt_of_head (space_key h) (bid_key bid_value g) pa pt (omega arith),
      bytes_lt_of_head (outpoint_key h) (bid_key bid_value g) pa' pt (omega arith),
    )

-- The order is strict, transitive and total.
pub bytes_lt_irrefl : (xs : List ℕ) → bytes_lt xs xs ≡ false
unfolding bytes_lt
bytes_lt_irrefl [] = refl
bytes_lt_irrefl (x ∷ xs) = ground (arith, bytes_lt_irrefl xs)

pub bytes_lt_trans :
    (xs ys zs : List ℕ) → bytes_lt xs ys ≡ true → bytes_lt ys zs ≡ true → bytes_lt xs zs ≡ true
unfolding bytes_lt
bytes_lt_trans [] [] zs p q = cc
bytes_lt_trans [] (y ∷ ys) [] p q = cc
bytes_lt_trans [] (y ∷ ys) (z ∷ zs) p q = refl
bytes_lt_trans (x ∷ xs) [] zs p q = cc
bytes_lt_trans (x ∷ xs) (y ∷ ys) [] p q = cc
bytes_lt_trans (x ∷ xs) (y ∷ ys) (z ∷ zs) p q = ground (arith, bytes_lt_trans xs ys zs)

pub bytes_lt_total :
    (xs ys : List ℕ) → bytes_eq xs ys ≡ false → bytes_lt xs ys ≡ false → bytes_lt ys xs ≡ true
unfolding bytes_lt spaced.Base.Tests.bytes_eq
bytes_lt_total [] [] p q = cc
bytes_lt_total [] (y ∷ ys) p q = cc
bytes_lt_total (x ∷ xs) [] p q = refl
bytes_lt_total (x ∷ xs) (y ∷ ys) p q = ground (arith, bytes_lt_total xs ys)

pub not-bytes_eq_of_lt : (xs ys : List ℕ) → bytes_lt xs ys ≡ true → bytes_eq xs ys ≡ false
not-bytes_eq_of_lt xs ys h = elim (Bool-cases (bytes_eq xs ys)) [
  | inl same ↦
      absurd (let e = bytes_eq→eq xs ys same in let k = rw e at h in cc (k, bytes_lt_irrefl ys))
  | inr other ↦ other
]
