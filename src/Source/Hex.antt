-- ===== src/Source/Hex.antt =====
-- The decoding of hexadecimal digits in place.
use spaced.Source.{hex_to_bytes, store_at, val, hex_from}
use mathlib.Core.List.{append_assoc}
use spaced.Base.{
  expect, index, ◌∙◌, take-length_append, ◌==◌, length-append, sym, zero, refl, ==_iff, ap, [],
  some, ◌%◌, true, ◌*◌, ◌+◌, arith, ok, all, get_elem?, suc, ltb, bit_or, ◌/◌, ◌++◌, ◌∷◌,
  if◌then◌else◌, ◌<◌, length, ◌≡◌, List, ℕ,
}
use spaced.Keys.Bytes.{of_byte, holds_from}

-- The two lower-case digits of every byte.
abbrev pub digit : ℕ → ℕ
digit n = if ltb n 10 then 48 + n else 87 + n

abbrev pub digits : List ℕ → List ℕ
digits [] = []
digits (b ∷ bs) = digit (b / 16) ∷ digit (b % 16) ∷ digits bs

val-digit : (n idx : ℕ) → n < 16 → val (digit n) idx ≡ ok n
unfolding val
val-digit n idx h = ground (arith, h)

table_halves : holds_from (λ b. bit_or (b / 16 * 16 % 256) (b % 16) == b) 0 256 ≡ true
unfolding holds_from
table_halves = refl

halves : (b : ℕ) → b < 256 → bit_or (b / 16 * 16 % 256) (b % 16) ≡ b
halves b h = (==_iff _ _).0 (of_byte _ b table_halves h)

-- The element behind two lists.
get_elem?-append :
    (xs ys : List ℕ) (y k : ℕ) → k ≡ length xs → get_elem? (xs ++ (y ∷ ys)) k ≡ some y
get_elem?-append [] ys y k e = rw e refl
get_elem?-append (x ∷ xs) ys y zero e = absurd (omega (arith, e))
get_elem?-append (x ∷ xs) ys y (suc k) e = get_elem?-append xs ys y k (omega (arith, e))

store_at-append :
    (xs ys : List ℕ) (y b k : ℕ) → k ≡ length xs → store_at k b (xs ++ (y ∷ ys)) ≡ xs ++ (b ∷ ys)
store_at-append [] ys y b k e = rw e refl
store_at-append (x ∷ xs) ys y b zero e = absurd (omega (arith, e))
store_at-append (x ∷ xs) ys y b (suc k) e =
    ap (◌∷◌ x) (store_at-append xs ys y b k (omega (arith, e)))

-- What stands from the place that is written, after the digits of a byte have been read.
rest_of :
    (c d : ℕ) (mid tail : List ℕ)
    → (x : ℕ) × (mid' : List ℕ) × (mid ++ (c ∷ d ∷ tail) ≡ x ∷ (mid' ++ tail))
      × (length mid' ≡ suc (length mid))
rest_of c d [] tail = (c, d ∷ [], refl, refl)
rest_of c d (m ∷ ms) tail = (
  m,
  ms ++ (c ∷ d ∷ []),
  ap (◌∷◌ m) (sym (append_assoc ms (c ∷ d ∷ []) tail)),
  omega (arith, length-append ms (c ∷ d ∷ [])),
)

-- The loop behind `out`, the bytes that are written, with as many digits that were read.
hex_from-digits :
    (bytes out mid : List ℕ)
    → length mid ≡ length out
    → all (λ b. ltb b 256) bytes ≡ true
    → (junk : List ℕ) × (hex_from (length bytes) (length out) (out ++ (mid ++ digits bytes))
        ≡ ok (out ++ (bytes ++ junk)))
unfolding hex_from
hex_from-digits [] out mid same small = (mid ++ [], refl)
hex_from-digits (b ∷ bytes) out mid same small =
    let i = length out in
    let c = digit (b / 16) in
    let d = digit (b % 16) in
    let small_b : b < 256 = ground (arith, small) in
    let (x, mid', behind, count) = rest_of c d mid (digits bytes) in
    let (junk, run) =
      hex_from-digits bytes (out ++ (b ∷ [])) mid'
        (omega (arith, count, same, length-append out (b ∷ []))) (ground (arith, small)) in
    let in_place : out ++ (mid ++ (c ∷ d ∷ digits bytes)) ≡ (out ++ mid) ++ (c ∷ d ∷ digits bytes) =
      sym (append_assoc out mid (c ∷ d ∷ digits bytes)) in
    let in_place' : out ++ (mid ++ (c ∷ d ∷ digits bytes))
        ≡ (out ++ (mid ++ (c ∷ []))) ++ (d ∷ digits bytes) =
      ap (◌++◌ out) (sym (append_assoc mid (c ∷ []) (d ∷ digits bytes)))
      ∙ sym (append_assoc out (mid ++ (c ∷ [])) (d ∷ digits bytes)) in
    let first : index (out ++ (mid ++ (c ∷ d ∷ digits bytes))) (2 * i) ≡ ok c =
      ap (λ l. index l (2 * i)) in_place
      ∙ ap expect (
          get_elem?-append (out ++ mid) (d ∷ digits bytes) c (2 * i)
            (omega (arith, same, length-append out mid))) in
    let second : index (out ++ (mid ++ (c ∷ d ∷ digits bytes))) (2 * i + 1) ≡ ok d =
      ap (λ l. index l (2 * i + 1)) in_place'
      ∙ ap expect (
          get_elem?-append (out ++ (mid ++ (c ∷ []))) (digits bytes) d (2 * i + 1) (
            omega
              (arith, same, length-append out (mid ++ (c ∷ [])), length-append mid (c ∷ [])))) in
    let next : length (out ++ (b ∷ [])) ≡ i + 1 = length-append out (b ∷ []) in
    let run' : hex_from (length bytes) (i + 1) (out ++ (b ∷ (mid' ++ digits bytes)))
        ≡ ok (out ++ (b ∷ (bytes ++ junk))) =
      ap (λ p. hex_from (length bytes) p (out ++ (b ∷ (mid' ++ digits bytes)))) (sym next)
      ∙ ap (hex_from (length bytes) (length (out ++ (b ∷ []))))
          (sym (append_assoc out (b ∷ []) (mid' ++ digits bytes)))
      ∙ run
      ∙ ap ok (append_assoc out (b ∷ []) (bytes ++ junk)) in
    (
      junk,
      rw
          (
            first,
            val-digit (b / 16) (2 * i) (omega (arith, small_b)),
            second,
            val-digit (b % 16) (2 * i + 1) (omega arith),
            halves b small_b,
            behind,
            store_at-append out (mid' ++ digits bytes) x b i refl,
          )
          run',
    )

length-digits : (bytes : List ℕ) → length (digits bytes) ≡ 2 * length bytes
length-digits [] = refl
length-digits (b ∷ bytes) = omega (arith, length-digits bytes)

-- The digits of bytes are decoded to the bytes.
pub hex_to_bytes-digits :
    (bytes : List ℕ) → all (λ b. ltb b 256) bytes ≡ true → hex_to_bytes (digits bytes) ≡ ok bytes
unfolding hex_to_bytes
hex_to_bytes-digits bytes small =
    let (junk, run) = hex_from-digits bytes [] [] refl small in
    let half : length (digits bytes) / 2 ≡ length bytes = omega (arith, length-digits bytes) in
    rw (hex_to_bytes, half, run) (ap ok (take-length_append bytes junk))
