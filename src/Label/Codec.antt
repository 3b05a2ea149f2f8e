-- ===== src/Label/Codec.antt =====
-- The binary encodings of labels: bincode, and serde's form that no human reads. bincode is a
-- parameter.
use spaced.Base.{
  ℕ, ◌<◌, ◌≡◌, List, [], ◌∷◌, ◌++◌, length, drop, replicate, ltb, ◌==◌, if◌then◌else◌, Result, ok,
  err, panic, anyhow, arith, index, copy_into, ◌>>=◌, length-replicate,
}
use spaced.Label.{SLabel, as_ref, max_label_len}
use spaced.Label.Owned.{IsLabel, as_ref-buffer, drop-replicate}

-- What the code uses of bincode: the encoding of a byte slice, and a reader that fills a buffer.
pub record Bincode : Type 1 where
  pub Reader : Type 0
  pub from_bytes : List ℕ → Reader
  pub encode_slice : List ℕ → List ℕ
  pub read : ℕ → Reader → Result (List ℕ × Reader)

-- Its documentation: a slice shorter than 251 bytes is written as one byte of length and the bytes,
-- and a reader over a buffer hands out the bytes in order.
pub record IsBincode (b : Bincode) : Type 0 where
  pub encode_slice_short :
      (bytes : List ℕ) → length bytes < 251 → Bincode.encode_slice b bytes ≡ length bytes ∷ bytes
  pub read_next :
      (bytes rest : List ℕ)
      → Bincode.read b (length bytes) (Bincode.from_bytes b (bytes ++ rest))
        ≡ ok (bytes, Bincode.from_bytes b rest)

module _ (b : Bincode) where
  -- `Encode for SLabel`
  unfoldable pub encode : SLabel → Result (List ℕ)
  encode label = as_ref label >>= λ bytes. ok (b.encode_slice (drop 1 bytes))

  -- `Decode for SLabel`
  unfoldable pub decode : b.Reader → Result (SLabel × b.Reader)
  decode reader = b.read 1 reader >>= λ (first, reader').
      copy_into (replicate 63 0) 0 first >>= λ buf. index buf 0 >>= λ len.
      if ltb max_label_len len
      then err (anyhow "length exceeds maximum for the label")
      else b.read len reader' >>= λ (bytes, reader'').
          copy_into buf 1 bytes >>= λ buf'. ok (buf', reader'')

  -- Decoding what was encoded gives the label and leaves the reader behind it.
  pub decode-encode :
      IsBincode b
      → (label : SLabel) (rest : List ℕ) → IsLabel label
      → (bytes : List ℕ) × (encode label ≡ ok bytes)
        × (decode (b.from_bytes (bytes ++ rest)) ≡ ok (label, b.from_bytes rest))
  unfolding encode decode
  decode-encode laws label rest (text, l, t) = (
    length text ∷ text,
    ground (arith, l, as_ref-buffer text t, laws.encode_slice_short text, t.short),
    ground (
      arith,
      l,
      laws.read_next (length text ∷ []) (text ++ rest),
      laws.read_next text rest,
      t.short,
      drop-replicate (length text) 62 0,
      length-replicate {A = ℕ} 62 0,
    ),
  )

-- `Deserialize for SLabel` from bytes: `buf.copy_from_slice(&bytes)`, whose two lengths must agree.
unfoldable pub deserialize_bytes : List ℕ → Result SLabel
deserialize_bytes bytes = if length bytes == 63 then ok bytes else err panic
