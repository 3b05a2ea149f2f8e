-- ===== src/Tests/Labels.antt =====
-- The theorems on labels, keys and scripts at concrete inputs.
use spaced.Base.{ℕ, ◌≡◌, ◌≢◌, ◌↔◌, refl, List, [], ◌∷◌, true, arith, ok, replicate}
use spaced.Label.{try_from_ref, try_from_str}
use spaced.Label.Grammar.{single, letter, IsText, Borrows, try_from_ref_iff}
use spaced.Label.Owned.{buffer, IsLabel}
use spaced.Label.Text.{display, Parses, try_from_str_iff, display_round_trip}
use spaced.Keys.{Hash, space_key, outpoint_key, bid_key}
use spaced.Keys.Bytes.{IsHash}
use spaced.Keys.Kinds.{keys_distinct}
use spaced.Keys.Order.{bytes_lt, bid_key_mono}
use spaced.Tests.Data.{text_ab}

pub text_ab-IsText : IsText text_ab
unfolding spaced.Label.verify_range spaced.Label.starts_with
text_ab-IsText = record {
  nonempty = omega arith;
  short = omega arith;
  words = letter b'a' (b'b' ∷ []) refl (single b'b' refl);
}

-- "@ab"
abbrev at_ab : List ℕ
at_ab = b'@' ∷ text_ab

buffer_ab-IsLabel : IsLabel (buffer text_ab)
buffer_ab-IsLabel = (text_ab, refl, text_ab-IsText)

try_from_ref_iff_example :
    (try_from_ref (2 ∷ b'a' ∷ b'b' ∷ 9 ∷ []) ≡ ok (2 ∷ text_ab))
    ↔ Borrows (2 ∷ b'a' ∷ b'b' ∷ 9 ∷ []) (2 ∷ text_ab)
try_from_ref_iff_example = try_from_ref_iff (2 ∷ b'a' ∷ b'b' ∷ 9 ∷ []) (2 ∷ text_ab)

try_from_str_iff_example :
    (try_from_str at_ab ≡ ok (buffer text_ab)) ↔ Parses at_ab (buffer text_ab)
try_from_str_iff_example = try_from_str_iff at_ab (buffer text_ab)

display_round_trip_example :
    (try_from_str at_ab ≡ ok (buffer text_ab)) ↔ (display (buffer text_ab) ≡ ok at_ab)
display_round_trip_example = display_round_trip at_ab (buffer text_ab) buffer_ab-IsLabel

-- A hash of thirty-two bytes 255, and one whose ends are those of a space key.
abbrev hash_255 : Hash
hash_255 = replicate 32 255

abbrev hash_2 : Hash
hash_2 = replicate 32 2

hash_255-IsHash : IsHash hash_255
hash_255-IsHash = record { size = refl; bytes = refl }

hash_2-IsHash : IsHash hash_2
hash_2-IsHash = record { size = refl; bytes = refl }

keys_distinct_example :
    (space_key hash_255 ≢ outpoint_key hash_2)
    × (space_key hash_255 ≢ bid_key 5 hash_255)
    × (outpoint_key hash_2 ≢ bid_key 5 hash_255)
keys_distinct_example = keys_distinct 5 hash_255 hash_2 hash_255 hash_255-IsHash hash_2-IsHash

bid_key_mono_example : bytes_lt (bid_key 255 hash_255) (bid_key 256 hash_2) ≡ true
bid_key_mono_example = bid_key_mono 255 256 hash_255 hash_2 (omega arith) (omega arith)
