-- ===== src/Label.antt =====
-- protocol/src/slabel.rs: space labels. A label is its wire form: one length byte and that many
-- bytes of text. `SLabel` owns a buffer of 63 bytes, `SLabelRef` borrows a slice of any length.
-- Rust strings are lists of bytes in UTF-8.
pub mod Grammar
pub mod Owned
pub mod Utf8
pub mod Text
pub mod Codec
use spaced.Base.{
  ℕ, ◌+◌, ◌-◌, ◌%◌, Bool, true, false, ◌&&◌, ◌||◌, List, [], ◌∷◌, ltb, leb, ◌==◌, if◌then◌else◌,
  length, take, drop, replicate, Result, ok, err, failed, NameErrorKind, name_error, zero_length,
  too_long, eof, invalid_character, not_canonical, ◌>>=◌, ◌>>◌, index, slice_to, copy_into,
}

abbrev pub max_label_len : ℕ
max_label_len = 62

-- "xn--"
abbrev pub punycode_prefix : List ℕ
punycode_prefix = b'x' ∷ b'n' ∷ b'-' ∷ b'-' ∷ []

-- `struct SLabel([u8; MAX_LABEL_LEN + 1])`
abbrev pub SLabel : Type 0
SLabel = List ℕ

-- `struct SLabelRef<'a>(&'a [u8])`
abbrev pub SLabelRef : Type 0
SLabelRef = List ℕ

-- `AsRef<[u8]>` of both: the slice up to the length that the first byte gives.
unfoldable pub as_ref : List ℕ → Result (List ℕ)
as_ref label = index label 0 >>= λ len. slice_to label (len + 1)

abbrev pub bad_name {ℓ} : {A : Type ℓ} → NameErrorKind → Result A
bad_name kind = err (failed (name_error kind))

unfoldable pub starts_with : List ℕ → List ℕ → Bool
starts_with bytes [] = true
starts_with [] (p ∷ ps) = false
starts_with (b ∷ bytes) (p ∷ ps) = b == p && starts_with bytes ps

-- The bytes of the text that the rules on hyphens range over.
unfoldable pub verify_range : List ℕ → List ℕ
verify_range text =
    if starts_with text punycode_prefix && ltb (length punycode_prefix) (length text)
    then drop (length punycode_prefix) text
    else text

abbrev pub is_alnum : ℕ → Bool
is_alnum c = (leb b'a' c && leb c b'z') || (leb b'0' c && leb c b'9')

-- The loop over `verify_range`.
unfoldable pub check_chars : ℕ → List ℕ → Result (Unit {0})
check_chars prev [] = ok tt
check_chars prev (c ∷ cs) =
    if c == b'-' && prev == b'-'
    then bad_name invalid_character
    else if is_alnum c || c == b'-'
    then check_chars c cs
    else bad_name invalid_character

-- The checks on `verify_range`, whose two ends must be there.
unfoldable pub verify : List ℕ → Result (Unit {0})
verify range = index range 0 >>= λ first. index range (length range - 1) >>= λ last.
    if first == b'-' || last == b'-' then bad_name invalid_character else check_chars 0 range

-- `SLabelRef::try_from(&[u8])`
unfoldable pub try_from_ref : List ℕ → Result SLabelRef
try_from_ref [] = bad_name NameErrorKind.empty
try_from_ref (len ∷ rest) =
    if len == 0
    then bad_name zero_length
    else if ltb max_label_len len
    then bad_name too_long
    else if ltb (length (len ∷ rest)) (len + 1)
    then bad_name eof
    else verify (verify_range (take len rest)) >> ok (len ∷ take len rest)

-- `SLabelRef::to_owned`
unfoldable pub to_owned : SLabelRef → Result SLabel
to_owned label = copy_into (replicate 63 0) 0 label

-- `SLabel::try_from(&[u8])`
unfoldable pub try_from_slice : List ℕ → Result SLabel
try_from_slice value = try_from_ref value >>= λ name_ref. to_owned name_ref

-- The buffer of 63 bytes that `SLabel::try_from(&str)` fills.
unfoldable pub label_bytes : List ℕ → Result (List ℕ)
label_bytes label =
    copy_into (replicate 63 0) 0 (length label % 256 ∷ []) >>= λ buf. copy_into buf 1 label

-- The part of `SLabel::try_from(&str)` behind the `@`.
unfoldable pub from_label : List ℕ → Result SLabel
from_label [] = bad_name zero_length
from_label (c ∷ cs) =
    if ltb max_label_len (length (c ∷ cs))
    then bad_name too_long
    else label_bytes (c ∷ cs) >>= λ bytes. try_from_slice bytes

-- `SLabel::try_from(&str)`, which `from_str` and `try_from(String)` call.
unfoldable pub try_from_str : List ℕ → Result SLabel
try_from_str [] = bad_name not_canonical
try_from_str (c ∷ label) = if c == b'@' then from_label label else bad_name not_canonical

-- `SLabel::as_name_ref`
abbrev pub as_name_ref : SLabel → SLabelRef
as_name_ref label = label
