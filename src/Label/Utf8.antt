-- ===== src/Label/Utf8.antt =====
-- `core::str::from_utf8`, as the standard library documents it: the bytes are read one by one, and
-- a state says how many continuation bytes are due and in which range the next one lies.
use spaced.Base.{
  ℕ, ◌-◌, ◌≡◌, refl, Bool, true, false, ◌&&◌, List, [], ◌∷◌, Option, none, some, ltb, leb, ◌==◌,
  if◌then◌else◌, all, arith, Result, ok, err, fmt_error,
}

abbrev in_range : ℕ → ℕ → ℕ → Bool
in_range lo hi c = leb lo c && leb c hi

pub record Due : Type 0 where
  pub count : ℕ
  pub low : ℕ
  pub high : ℕ

abbrev due : ℕ → ℕ → ℕ → Due
due n lo hi = record { count = n; low = lo; high = hi }

-- The first byte of a character.
lead : ℕ → Option Due
lead c =
    if ltb c 0x80
    then some (due 0 0 0)
    else if in_range 0xc2 0xdf c
    then some (due 1 0x80 0xbf)
    else if c == 0xe0
    then some (due 2 0xa0 0xbf)
    else if c == 0xed
    then some (due 2 0x80 0x9f)
    else if in_range 0xe1 0xef c
    then some (due 2 0x80 0xbf)
    else if c == 0xf0
    then some (due 3 0x90 0xbf)
    else if c == 0xf4
    then some (due 3 0x80 0x8f)
    else if in_range 0xf1 0xf3 c
    then some (due 3 0x80 0xbf)
    else none

utf8_step : Due → ℕ → Option Due
unfolding lead
utf8_step d c =
    if d.count == 0
    then lead c
    else if in_range d.low d.high c
    then some (due (d.count - 1) 0x80 0xbf)
    else none

utf8_from : Due → List ℕ → Bool
utf8_from d [] = d.count == 0
utf8_from d (c ∷ cs) = elim (utf8_step d c) [ none ↦ false | some e ↦ utf8_from e cs ]

unfoldable pub is_utf8 : List ℕ → Bool
unfolding utf8_from utf8_step
is_utf8 = utf8_from (due 0 0 0)

unfoldable pub from_utf8 : List ℕ → Result (List ℕ)
unfolding is_utf8
from_utf8 bytes = if is_utf8 bytes then ok bytes else err fmt_error

utf8_from_ascii : (cs : List ℕ) → all (λ c. ltb c 0x80) cs ≡ true → utf8_from (due 0 0 0) cs ≡ true
unfolding utf8_from utf8_step
utf8_from_ascii [] h = refl
utf8_from_ascii (c ∷ cs) h = ground (arith, utf8_from_ascii cs)

pub from_utf8_ascii : (cs : List ℕ) → all (λ c. ltb c 0x80) cs ≡ true → from_utf8 cs ≡ ok cs
unfolding from_utf8
from_utf8_ascii cs h = ground (arith, utf8_from_ascii cs h)
