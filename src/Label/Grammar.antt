-- ===== src/Label/Grammar.antt =====
-- Which byte strings `SLabelRef::try_from(&[u8])` accepts: a grammar of labels, and the function
-- as its decision procedure.
use spaced.Base.{
  ℕ, ◌-◌, ◌≤◌, ◌≡◌, refl, ◌↔◌, true, ◌||◌, List, [], ◌∷◌, ◌==◌, if◌then◌else◌, length, take, drop,
  ok, get_elem?, some, arith, ◌++◌, Bool-cases, inl, inr, take-append-drop, take-length_append,
  length-append, length-take, ◌≢◌, index, expect, ==_iff,
}
use spaced.Label.{
  is_alnum, check_chars, verify, verify_range, try_from_ref, bad_name, max_label_len,
}

-- Words of lower-case letters and digits, joined by single hyphens.
pub data Hyphenated : List ℕ → Type 0 where
  single : (c : ℕ) → is_alnum c ≡ true → Hyphenated (c ∷ [])
  letter : (c : ℕ) (cs : List ℕ) → is_alnum c ≡ true → Hyphenated cs → Hyphenated (c ∷ cs)
  hyphen : (c : ℕ) (cs : List ℕ) → is_alnum c ≡ true → Hyphenated cs → Hyphenated (c ∷ b'-' ∷ cs)

-- The text of a label: 1 to 62 bytes, hyphenated words behind an optional punycode prefix.
pub record IsText (text : List ℕ) : Type 0 where
  pub nonempty : 1 ≤ length text
  pub short : length text ≤ max_label_len
  pub words : Hyphenated (verify_range text)

last : ℕ → List ℕ → ℕ
last c [] = c
last c (d ∷ ds) = last d ds

get_elem?-last : (c : ℕ) (cs : List ℕ) → get_elem? (c ∷ cs) (length cs) ≡ some (last c cs)
unfolding last
get_elem?-last c [] = refl
get_elem?-last c (d ∷ ds) = get_elem?-last d ds

verify-cons :
    (c : ℕ) (cs : List ℕ)
    → verify (c ∷ cs) ≡ (
        if c == b'-' || last c cs == b'-'
        then bad_name spaced.Base.invalid_character
        else check_chars 0 (c ∷ cs))
unfolding verify
verify-cons c cs =
    let e : length (c ∷ cs) - 1 ≡ length cs = omega arith in
    rw (e, index, expect, get_elem?-last c cs)

-- From a letter on, what the loop accepts is hyphenated, unless it ends in a hyphen.
check_chars-Hyphenated :
    (c : ℕ) (cs : List ℕ)
    → is_alnum c ≡ true
    → check_chars c cs ≡ ok tt
    → last c cs ≢ b'-'
    → Hyphenated (c ∷ cs)
unfolding check_chars last
check_chars-Hyphenated c [] a h l = single c a
check_chars-Hyphenated c (d ∷ []) a h l = letter c (d ∷ []) a (single d (ground arith))
check_chars-Hyphenated c (d ∷ e ∷ es) a h l = elim (Bool-cases (d == b'-')) [
  | inl dash ↦
      let same : d ≡ b'-' = (==_iff d b'-').0 dash in
      rw same (hyphen c (e ∷ es) a (check_chars-Hyphenated e es (ground arith) (ground arith) l))
  | inr word ↦
      letter c (d ∷ e ∷ es) a (check_chars-Hyphenated d (e ∷ es) (ground arith) (ground arith) l)
]

abbrev EndsInWord : List ℕ → Type 0
EndsInWord [] = ⊥
EndsInWord (c ∷ cs) = last c cs ≢ b'-'

EndsInWord-cons : (c : ℕ) (cs : List ℕ) → EndsInWord cs → EndsInWord (c ∷ cs)
unfolding last
EndsInWord-cons c [] e = absurd e
EndsInWord-cons c (d ∷ ds) e = e

Hyphenated-EndsInWord : {cs : List ℕ} → Hyphenated cs → EndsInWord cs
unfolding last
Hyphenated-EndsInWord (single c a) = ground arith
Hyphenated-EndsInWord (letter c cs a h) = EndsInWord-cons c cs (Hyphenated-EndsInWord h)
Hyphenated-EndsInWord (hyphen c cs a h) =
    EndsInWord-cons c (b'-' ∷ cs) (EndsInWord-cons b'-' cs (Hyphenated-EndsInWord h))

abbrev BeginsWithWord : List ℕ → Type 0
BeginsWithWord [] = ⊥
BeginsWithWord (c ∷ cs) = is_alnum c ≡ true

Hyphenated-BeginsWithWord : {cs : List ℕ} → Hyphenated cs → BeginsWithWord cs
Hyphenated-BeginsWithWord (single c a) = a
Hyphenated-BeginsWithWord (letter c cs a h) = a
Hyphenated-BeginsWithWord (hyphen c cs a h) = a

Hyphenated-check_chars : {cs : List ℕ} → Hyphenated cs → (prev : ℕ) → check_chars prev cs ≡ ok tt
unfolding check_chars
Hyphenated-check_chars (single c a) prev = ground arith
Hyphenated-check_chars (letter c cs a h) prev = ground (arith, Hyphenated-check_chars h c)
Hyphenated-check_chars (hyphen c cs a h) prev = ground (arith, Hyphenated-check_chars h b'-')

verify→Hyphenated : (range : List ℕ) → verify range ≡ ok tt → Hyphenated range
unfolding check_chars
verify→Hyphenated [] h = unfold verify in cc h
verify→Hyphenated (c ∷ cs) h =
    let k = rw (verify-cons c cs) at h in
    check_chars-Hyphenated c cs (ground (arith, k)) (ground (arith, k)) (ground (arith, k))

Hyphenated→verify : (range : List ℕ) → Hyphenated range → verify range ≡ ok tt
Hyphenated→verify [] h = absurd (Hyphenated-EndsInWord h)
Hyphenated→verify (c ∷ cs) h = rw (verify-cons c cs) (
    ground
      (arith, Hyphenated-EndsInWord h, Hyphenated-BeginsWithWord h, Hyphenated-check_chars h 0))

-- What a label borrowed from `bytes` is: the text that stands there behind its length.
abbrev pub Borrows : List ℕ → List ℕ → Type 0
Borrows bytes label =
    (text : List ℕ) × (rest : List ℕ) × (bytes ≡ length text ∷ (text ++ rest))
    × (label ≡ length text ∷ text)
    × IsText text

try_from_ref-accepts :
    (len : ℕ) (rest : List ℕ) (label : List ℕ)
    → try_from_ref (len ∷ rest) ≡ ok label
    → ((1 ≤ len) × (len ≤ max_label_len) × (len ≤ length rest))
      × (verify (verify_range (take len rest)) ≡ ok tt)
      × (label ≡ len ∷ take len rest)
unfolding try_from_ref
try_from_ref-accepts len rest label h =
    ((ground arith, ground arith, ground arith), ground arith, ground arith)

try_from_ref→Borrows : (bytes label : List ℕ) → try_from_ref bytes ≡ ok label → Borrows bytes label
unfolding try_from_ref
try_from_ref→Borrows [] label h = cc
try_from_ref→Borrows (len ∷ rest) label h =
    let text = take len rest in
    let (small, valid, e) = try_from_ref-accepts len rest label h in
    let n : length text ≡ len = omega (arith, length-take len rest, small) in
    (
      text,
      drop len rest,
      ground (arith, n, take-append-drop len rest),
      ground (arith, n, e),
      record {
        nonempty = omega (arith, n, small);
        short = omega (arith, n, small);
        words = verify→Hyphenated (verify_range text) valid;
      },
    )

Borrows→try_from_ref : (bytes label : List ℕ) → Borrows bytes label → try_from_ref bytes ≡ ok label
unfolding try_from_ref
Borrows→try_from_ref bytes label (text, rest, e, l, t) =
    rw (e, l, take-length_append text rest)
      (ground (
        arith,
        t.nonempty,
        t.short,
        length-append text rest,
        Hyphenated→verify (verify_range text) t.words,
      ))

-- `SLabelRef::try_from` accepts exactly the byte strings that begin with a length byte and that
-- many bytes of label text, and returns the length byte and the text.
pub try_from_ref_iff :
    (bytes label : List ℕ) → (try_from_ref bytes ≡ ok label) ↔ Borrows bytes label
try_from_ref_iff bytes label = (try_from_ref→Borrows bytes label, Borrows→try_from_ref bytes label)
