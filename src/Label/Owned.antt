-- ===== src/Label/Owned.antt =====
-- `to_owned`, `as_ref` and `try_from(&[u8])`: labels in their buffer of 63 bytes.
use spaced.Base.{
  ℕ, zero, suc, ◌-◌, ◌≤◌, ◌≡◌, refl, ◌↔◌, List, ◌∷◌, ◌++◌, length, drop, replicate, ok, arith,
  take-length_append, length-append, length-replicate, copy_into, >>=-eq-ok,
}
use spaced.Label.{SLabel, as_ref, to_owned, try_from_ref, try_from_slice, max_label_len}
use spaced.Label.Grammar.{IsText, try_from_ref_iff}

-- The buffer that holds a text: its length, the text, and zeros.
abbrev pub buffer : List ℕ → SLabel
buffer text = length text ∷ (text ++ replicate (max_label_len - length text) 0)

-- A label that owns its buffer.
abbrev pub IsLabel : SLabel → Type 0
IsLabel label = (text : List ℕ) × (label ≡ buffer text) × IsText text

pub drop-replicate : (n m a : ℕ) → drop n (replicate m a) ≡ replicate (m - n) a
drop-replicate zero m a = ground arith
drop-replicate (suc n) zero a = ground arith
drop-replicate (suc n) (suc m) a = ground (arith, drop-replicate n m a)

pub length-buffer : (text : List ℕ) → length text ≤ max_label_len → length (buffer text) ≡ 63
length-buffer text h = omega (
  arith,
  length-append text (replicate (max_label_len - length text) 0),
  length-replicate {A = ℕ} (max_label_len - length text) 0,
)

pub copy_into-zeros :
    (src : List ℕ)
    → length src ≤ 63
    → copy_into (replicate 63 0) 0 src ≡ ok (src ++ replicate (63 - length src) 0)
copy_into-zeros src h = ground (arith, drop-replicate (length src) 63 0)

pub to_owned-buffer :
    (text : List ℕ) → IsText text → to_owned (length text ∷ text) ≡ ok (buffer text)
unfolding to_owned
to_owned-buffer text t = ground (arith, copy_into-zeros (length text ∷ text), t.short)

pub as_ref-buffer : (text : List ℕ) → IsText text → as_ref (buffer text) ≡ ok (length text ∷ text)
unfolding as_ref
as_ref-buffer text t = ground (
  arith,
  t.short,
  length-buffer text t.short,
  take-length_append text (replicate (max_label_len - length text) 0),
)

-- What an owned label read from `bytes` is.
abbrev pub Reads : List ℕ → SLabel → Type 0
Reads bytes label =
    (text : List ℕ) × (rest : List ℕ) × (bytes ≡ length text ∷ (text ++ rest))
    × (label ≡ buffer text)
    × IsText text

try_from_slice→Reads :
    (bytes : List ℕ) (label : SLabel) → try_from_slice bytes ≡ ok label → Reads bytes label
unfolding try_from_slice
try_from_slice→Reads bytes label h =
    let (r, e, o) = >>=-eq-ok (try_from_ref bytes) to_owned h in
    let (text, rest, f, g, t) = (try_from_ref_iff bytes r).0 e in
    (text, rest, f, ground (arith, to_owned-buffer text t), t)

Reads→try_from_slice :
    (bytes : List ℕ) (label : SLabel) → Reads bytes label → try_from_slice bytes ≡ ok label
unfolding try_from_slice
Reads→try_from_slice bytes label (text, rest, e, l, t) = rw (
  (try_from_ref_iff bytes (length text ∷ text)).1 (text, rest, e, refl, t),
  to_owned-buffer text t,
  l,
)

-- `SLabel::try_from(&[u8])` succeeds exactly on a length byte with that many bytes of label text
-- behind it, whatever follows, and returns the buffer of that text.
pub try_from_slice_iff :
    (bytes : List ℕ) (label : SLabel) → (try_from_slice bytes ≡ ok label) ↔ Reads bytes label
try_from_slice_iff bytes label =
    (try_from_slice→Reads bytes label, Reads→try_from_slice bytes label)
