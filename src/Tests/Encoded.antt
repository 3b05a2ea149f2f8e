-- ===== src/Tests/Encoded.antt =====
-- An encoding of stored values that is undone by its decoder, and a created space that is found.
use spaced.Base.{
  ℕ, zero, suc, ◌%◌, ◌≡◌, refl, List, [], ◌∷◌, ◌++◌, Option, none, some, ok, length, take, drop,
  replicate, arith, take-length_append, drop-length_append,
}
use spaced.Bitcoin.{OutPoint}
use spaced.Label.{as_ref}
use spaced.Keys.{KeyHasher, space_key}
use spaced.Keys.Bytes.{IsHash}
use spaced.Spaces.{SpaceOut, Space, Covenant, bid, transfer, reserved}
use spaced.Store.{Codec, LiveSnapshot, get_space_info, insert_space, insert_spaceout}
use spaced.Node.{apply_create}
use spaced.Node.Found.{IsCodec, apply_create-found}
use spaced.Tests.Data.{toy, text_ab}
use spaced.Tests.Stored.{toy_db, toy_out, clean}

-- A list behind its length.
abbrev sized : List ℕ → List ℕ → List ℕ
sized xs rest = length xs ∷ (xs ++ rest)

abbrev write_claim : Option ℕ → List ℕ → List ℕ
write_claim none rest = 0 ∷ rest
write_claim (some h) rest = 1 ∷ h ∷ rest

abbrev write_covenant : Covenant → List ℕ
write_covenant (bid b) =
    0 ∷ b.burn_increment ∷ b.total_burned ∷ write_claim b.claim_height b.signature
write_covenant (transfer h none) = 1 ∷ h ∷ []
write_covenant (transfer h (some d)) = 2 ∷ h ∷ d
write_covenant reserved = 3 ∷ []

abbrev write_space : Option Space → List ℕ
write_space none = []
write_space (some space) = sized space.name (write_covenant space.covenant)

abbrev write_out : SpaceOut → List ℕ
write_out out = out.n ∷ out.value ∷ sized out.script_pubkey (write_space out.space)

abbrev bid_with : ℕ → ℕ → Option ℕ → List ℕ → Covenant
bid_with inc total claim sig =
    bid
      (record { burn_increment = inc; signature = sig; total_burned = total; claim_height = claim })

abbrev read_covenant : List ℕ → Covenant
read_covenant (zero ∷ inc ∷ total ∷ zero ∷ sig) = bid_with inc total none sig
read_covenant (zero ∷ inc ∷ total ∷ suc zero ∷ h ∷ sig) = bid_with inc total (some h) sig
read_covenant (suc zero ∷ h ∷ _) = transfer h none
read_covenant (suc (suc zero) ∷ h ∷ d) = transfer h (some d)
read_covenant _ = reserved

abbrev read_space : List ℕ → Option Space
read_space [] = none
read_space (n ∷ rest) = some (record { name = take n rest; covenant = read_covenant (drop n rest) })

abbrev read_out : List ℕ → Option SpaceOut
read_out (n ∷ value ∷ k ∷ rest) =
    some (record {
      n = n;
      space = read_space (drop k rest);
      value = value;
      script_pubkey = take k rest;
    })
read_out _ = none

abbrev read_at : List ℕ → Option OutPoint
read_at [] = none
read_at (vout ∷ txid) = some (record { txid = txid; vout = vout })

abbrev round_codec : Codec
round_codec = record {
  encode_spaceout = write_out;
  decode_spaceout = read_out;
  encode_outpoint = λ at. at.vout ∷ at.txid;
  decode_outpoint = read_at;
  encode_key = λ key. key;
  encode_anchor = λ anchor. anchor.height ∷ anchor.hash;
  decode_anchor = λ bytes. none;
}

read_covenant-bid_with :
    (inc total : ℕ) (claim : Option ℕ) (sig : List ℕ)
    → read_covenant (write_covenant (bid_with inc total claim sig)) ≡ bid_with inc total claim sig
read_covenant-bid_with inc total none sig = refl
read_covenant-bid_with inc total (some h) sig = refl

read_covenant-write_covenant : (c : Covenant) → read_covenant (write_covenant c) ≡ c
read_covenant-write_covenant (bid b) =
    read_covenant-bid_with b.burn_increment b.total_burned b.claim_height b.signature
read_covenant-write_covenant (transfer h none) = refl
read_covenant-write_covenant (transfer h (some d)) = refl
read_covenant-write_covenant reserved = refl

read_space-write_space : (s : Option Space) → read_space (write_space s) ≡ s
read_space-write_space none = refl
read_space-write_space (some space) = ground (
  arith,
  take-length_append space.name (write_covenant space.covenant),
  drop-length_append space.name (write_covenant space.covenant),
  read_covenant-write_covenant space.covenant,
)

round_codec-IsCodec : IsCodec round_codec
round_codec-IsCodec = record {
  decode_spaceout_lem = λ out. ground (
    arith,
    take-length_append out.script_pubkey (write_space out.space),
    drop-length_append out.script_pubkey (write_space out.space),
    read_space-write_space out.space,
  );
  decode_outpoint_lem = λ at. refl;
}

-- A hash function all of whose values are arrays of 32 bytes.
abbrev byte_hash : KeyHasher
byte_hash bytes = length bytes % 256 ∷ replicate 31 3

byte_hash-IsHash : (bytes : List ℕ) → IsHash (byte_hash bytes)
byte_hash-IsHash bytes = record { size = refl; bytes = ground arith }

-- The state after `toy_out` of the transaction 1 is applied.
abbrev after_toy_out : LiveSnapshot toy_db
after_toy_out =
    insert_spaceout toy_db round_codec
      (spaced.Keys.outpoint_key_of byte_hash (record { txid = 1 ∷ []; vout = 1 })) toy_out
      (insert_space toy_db round_codec (space_key (byte_hash (2 ∷ text_ab)))
        (record { txid = 1 ∷ []; vout = 1 }) clean)

apply_create-found_example :
    get_space_info toy_db round_codec byte_hash (space_key (byte_hash (2 ∷ text_ab))) after_toy_out
    ≡ ok (some (record { txid = 1 ∷ []; spaceout = toy_out }), after_toy_out)
unfolding apply_create as_ref
apply_create-found_example =
    apply_create-found toy_db round_codec toy byte_hash round_codec-IsCodec byte_hash-IsHash
      (1 ∷ []) toy_out
      (record { name = spaced.Label.Owned.buffer text_ab; covenant = transfer 100 none })
      (2 ∷ text_ab) clean after_toy_out refl refl refl
