-- ===== src/Base/Results.antt =====
-- protocol/src/errors.rs, and how a run of the program can stop early: it panics, or it returns an
-- error of the protocol crate, a formatting error or an `anyhow` error. One type of results serves
-- all, with `do` for the `?` operator and for the statements that follow an `expect`.
use Prim.Native.Nat.{ℕ, ◌+◌}
use Prim.Native.String.{String}
use mathlib.Core.Path.{◌≡◌, refl}
use mathlib.Core.Bool.{Bool, true, false}
use mathlib.Core.List.{List, ◌++◌}
use mathlib.Core.Option.{Option, none, some}
use spaced.Base.Tests.{ltb, if◌then◌else◌}
use spaced.Base.Lists.{length, get_elem?, take, drop}

pub data NameErrorKind : Type 0 where
  empty zero_length too_long eof invalid_character not_canonical : NameErrorKind

pub data TxErrorKind : Type 0 where
  space_already_exists missing_auctioned_output : TxErrorKind
  auctioned_output_already_spent invalid_bid_psbt_signature invalid_bid_psbt_format : TxErrorKind

pub data Error : Type 0 where
  tx_error : TxErrorKind → Error
  io_error : String → Error
  name_error : NameErrorKind → Error

-- `ChainAnchor` of protocol/src/constants.rs: a block of the chain, by its hash and height.
pub record ChainAnchor : Type 0 where
  pub hash : List ℕ
  pub height : ℕ

-- `SyncError` of node/src/node.rs
pub record SyncError : Type 0 where
  pub checkpoint : ChainAnchor
  pub connect_to : ℕ × List ℕ

-- A 32-bit code of an error; `negsuc n` is `-(n + 1)`.
pub data ℤ : Type 0 where
  pos negsuc : ℕ → ℤ

-- `JsonRpcError` of node/src/source.rs
pub record JsonRpcError : Type 0 where
  pub code : ℤ
  pub message : String

-- What the code reads of an error of the crate reqwest.
pub record TransportError : Type 0 where
  pub is_timeout : Bool
  pub is_connect : Bool
  pub status : Option ℕ

-- `BitcoinRpcError` of node/src/source.rs
pub data BitcoinRpcError : Type 0 where
  rpc : JsonRpcError → BitcoinRpcError
  transport : TransportError → BitcoinRpcError
  other : String → BitcoinRpcError

-- `BlockFetchError` of node/src/source.rs.
pub data BlockFetchError : Type 0 where
  rpc_error : BitcoinRpcError → BlockFetchError
  block_mismatch channel_closed : BlockFetchError

pub data Fault : Type 0 where
  panic : Fault
  failed : Error → Fault
  fmt_error : Fault
  anyhow : String → Fault
  sync_error : SyncError → Fault
  fetch_error : BlockFetchError → Fault
  invalid_hex_character : ℕ → ℕ → Fault

pub data Result {ℓ} (A : Type ℓ) : Type ℓ where
  ok : A → Result A
  err : Fault → Result A

infixl 5 ◌>>=◌ ◌>>◌
-- What follows a `?`, an `expect` or an `assert!`.
abbrev pub ◌>>=◌ {ℓ κ} : {X : Type ℓ} {Y : Type κ} → Result X → (X → Result Y) → Result Y
err fault >>= next = err fault
ok x >>= next = next x

abbrev pub ◌>>◌ {κ} : {Y : Type κ} → Result (Unit {0}) → Result Y → Result Y
first >> second = first >>= λ done. second

-- A run that succeeds has succeeded in its first step.
pub >>=-eq-ok {ℓ κ} :
    {X : Type ℓ} {Y : Type κ} (first : Result X) (next : X → Result Y) {y : Y}
    → (first >>= next) ≡ ok y
    → (x : X) × (first ≡ ok x) × (next x ≡ ok y)
>>=-eq-ok (err fault) next e = cc
>>=-eq-ok (ok x) next e = (x, refl, e)

-- Two continuations that agree give the same.
pub >>=-cong {ℓ κ} :
    {X : Type ℓ} {Y : Type κ} (first : Result X) (f g : X → Result Y)
    → ((x : X) → f x ≡ g x)
    → (first >>= f) ≡ (first >>= g)
>>=-cong (err fault) f g same = refl
>>=-cong (ok x) f g same = same x

-- `assert!`
abbrev pub assert : Bool → Result (Unit {0})
assert true = ok tt
assert false = err panic

-- `expect` and `unwrap` of an option.
abbrev pub expect {ℓ} : {A : Type ℓ} → Option A → Result A
expect none = err panic
expect (some a) = ok a

-- Indexing with `v[i]`, which panics out of range.
abbrev pub index {ℓ} : {A : Type ℓ} → List A → ℕ → Result A
index xs i = expect (get_elem? xs i)

-- The slice `v[..n]`, which panics out of range.
abbrev pub slice_to {ℓ} : {A : Type ℓ} → List A → ℕ → Result (List A)
slice_to xs n = if ltb (length xs) n then err panic else ok (take n xs)

-- `buf[at..at + src.len()].copy_from_slice(src)`, which panics out of range.
abbrev pub copy_into {ℓ} : {A : Type ℓ} → List A → ℕ → List A → Result (List A)
copy_into buf at src =
    if ltb (length buf) (at + length src)
    then err panic
    else ok (take at buf ++ (src ++ drop (at + length src) buf))
