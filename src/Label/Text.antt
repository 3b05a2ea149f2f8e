-- ===== src/Label/Text.antt =====
-- Labels as text: `try_from(&str)` and `Display`, which undo one another.
use spaced.Base.{
  ◌&&◌, ℕ, ◌+◌, ◌-◌, ◌≤◌, ◌≡◌, refl, ap, sym, ◌∙◌, ◌↔◌, Bool, true, List, [], ◌∷◌, ◌++◌, length,
  take, drop, replicate, Result, ok, arith, take-length_append, length-replicate, slice_to, index,
  ◌>>=◌, all, ltb, Bool-cases, inl, inr,
}
use spaced.Label.{
  SLabel, starts_with, punycode_prefix, verify_range, max_label_len, label_bytes, from_label,
  try_from_str, try_from_slice,
}
use spaced.Label.Grammar.{Hyphenated, single, letter, hyphen, IsText}
use spaced.Label.Owned.{drop-replicate, buffer, IsLabel, try_from_slice_iff, length-buffer}
use spaced.Label.Utf8.{from_utf8, from_utf8_ascii}

-- `Display for SLabel`: `@` and the text, which must be UTF-8.
unfoldable pub display : SLabel → Result (List ℕ)
display label = index label 0 >>= λ label_len. slice_to label (label_len + 1) >>= λ label'.
    from_utf8 (drop 1 label') >>= λ label_str. ok (b'@' ∷ label_str)

abbrev is_ascii : ℕ → Bool
is_ascii c = ltb c 0x80

Hyphenated-ascii : {cs : List ℕ} → Hyphenated cs → all is_ascii cs ≡ true
Hyphenated-ascii (single c a) = ground arith
Hyphenated-ascii (letter c cs a h) = ground (arith, Hyphenated-ascii h)
Hyphenated-ascii (hyphen c cs a h) = ground (arith, Hyphenated-ascii h)

starts_with-append :
    (bytes p : List ℕ) → starts_with bytes p ≡ true → bytes ≡ p ++ drop (length p) bytes
unfolding starts_with
starts_with-append bytes [] h = refl
starts_with-append [] (p ∷ ps) h = cc
starts_with-append (b ∷ bytes) (p ∷ ps) h = ground (arith, starts_with-append bytes ps)

verify_range-ascii :
    (text : List ℕ) → all is_ascii (verify_range text) ≡ true → all is_ascii text ≡ true
unfolding verify_range
verify_range-ascii text h =
    elim (Bool-cases
      (starts_with text punycode_prefix && ltb (length punycode_prefix) (length text))) [
        | inl puny ↦
            let e = starts_with-append text punycode_prefix (ground arith) in
            ap (all is_ascii) e ∙ (rw puny at h)
        | inr plain ↦ rw plain at h
      ]

IsText-ascii : (text : List ℕ) → IsText text → all is_ascii text ≡ true
IsText-ascii text t = verify_range-ascii text (Hyphenated-ascii t.words)

display-buffer : (text : List ℕ) → IsText text → display (buffer text) ≡ ok (b'@' ∷ text)
unfolding display
display-buffer text t = ground (
  arith,
  t.short,
  length-buffer text t.short,
  take-length_append text (replicate (max_label_len - length text) 0),
  from_utf8_ascii text (IsText-ascii text t),
)

label_bytes-buffer :
    (text : List ℕ) → length text ≤ max_label_len → label_bytes text ≡ ok (buffer text)
unfolding label_bytes
label_bytes-buffer text h =
    ground (arith, drop-replicate (length text) 62 0, length-replicate {A = ℕ} 62 0)

-- What a label parsed from a string is.
abbrev pub Parses : List ℕ → SLabel → Type 0
Parses s label = (text : List ℕ) × (s ≡ b'@' ∷ text) × (label ≡ buffer text) × IsText text

append_prefix : (xs ys rs ss : List ℕ) → length xs ≡ length ys → xs ++ rs ≡ ys ++ ss → xs ≡ ys
append_prefix xs ys rs ss n e =
    sym (take-length_append xs rs)
    ∙ ap (take (length xs)) e
    ∙ ap (λ k. take k (ys ++ ss)) n
    ∙ take-length_append ys ss

from_label-accepts :
    (text : List ℕ) (label : SLabel)
    → from_label text ≡ ok label
    → (length text ≤ max_label_len) × (try_from_slice (buffer text) ≡ ok label)
unfolding from_label
from_label-accepts [] label h = cc
from_label-accepts (c ∷ cs) label h = elim (Bool-cases (ltb max_label_len (length (c ∷ cs)))) [
  | inl long ↦ absurd (ground (arith, h))
  | inr short ↦ (ground arith, ground (arith, label_bytes-buffer (c ∷ cs), h))
]

from_label→IsText :
    (text : List ℕ) (label : SLabel)
    → from_label text ≡ ok label
    → (label ≡ buffer text) × IsText text
from_label→IsText text label h =
    let (short, r) = from_label-accepts text label h in
    let (text', rest, e, l, t) = (try_from_slice_iff (buffer text) label).0 r in
    let same : text ≡ text' =
      append_prefix text text' (replicate (max_label_len - length text) 0) rest (ground arith)
        (ground arith) in
    rw same (l, t)

IsText→from_label : (text : List ℕ) → IsText text → from_label text ≡ ok (buffer text)
unfolding from_label
IsText→from_label [] t = absurd (omega (arith, t.nonempty))
IsText→from_label (c ∷ cs) t = ground (
  arith,
  t.short,
  label_bytes-buffer (c ∷ cs) t.short,
  (try_from_slice_iff (buffer (c ∷ cs)) (buffer (c ∷ cs))).1
      (c ∷ cs, replicate (max_label_len - length (c ∷ cs)) 0, refl, refl, t),
)

try_from_str→Parses : (s : List ℕ) (label : SLabel) → try_from_str s ≡ ok label → Parses s label
unfolding try_from_str
try_from_str→Parses [] label h = cc
try_from_str→Parses (c ∷ text) label h =
    let (l, t) = from_label→IsText text label (ground arith) in (text, ground arith, l, t)

Parses→try_from_str : (s : List ℕ) (label : SLabel) → Parses s label → try_from_str s ≡ ok label
unfolding try_from_str
Parses→try_from_str s label (text, e, l, t) = rw (e, l) (IsText→from_label text t)

-- `SLabel::try_from(&str)` succeeds exactly on `@` with label text behind it, and returns the buffer
-- of that text.
pub try_from_str_iff : (s : List ℕ) (label : SLabel) → (try_from_str s ≡ ok label) ↔ Parses s label
try_from_str_iff s label = (try_from_str→Parses s label, Parses→try_from_str s label)

-- Displaying a label and parsing the result gives the label, and displaying a parsed label gives
-- the string that was parsed.
pub display_round_trip :
    (s : List ℕ) (label : SLabel)
    → IsLabel label
    → (try_from_str s ≡ ok label) ↔ (display label ≡ ok s)
display_round_trip s label (text, l, t) = (
  λ h.
      let (text', e, l', t') = try_from_str→Parses s label h in rw (l', display-buffer text' t', e),
  λ h. Parses→try_from_str s label (text, ground (arith, h, l, display-buffer text t), l, t),
)
