-- ===== src/Spaces.antt =====
-- protocol/src/lib.rs: spaces, their covenants, and the outputs that carry them; the constants of
-- protocol/src/constants.rs.
pub mod Constants
pub mod Signing
pub mod Spends
pub mod Refund
use spaced.Base.{
  ℕ, ◌%◌, ◌^◌, Bool, true, false, ◌&&◌, ◌||◌, not, List, [], ◌∷◌, Option, none, some, ltb, ◌==◌,
  bytes_eq, if◌then◌else◌, length, get_elem?, take,
}
use spaced.Bitcoin.{OutPoint, TxIn, single_plus_anyone_can_pay}
use spaced.Label.{SLabel}
use Constants.{bid_psbt_tx_version, bid_psbt_input_sequence}

-- `struct Bytes(Vec<u8>)`
abbrev pub Bytes : Type 0
Bytes = List ℕ

-- The fields of `Covenant::Bid`.
pub record Bid : Type 0 where
  pub burn_increment : ℕ
  pub signature : List ℕ
  pub total_burned : ℕ
  pub claim_height : Option ℕ

pub data Covenant : Type 0 where
  bid : Bid → Covenant
  transfer : ℕ → Option Bytes → Covenant
  reserved : Covenant

pub record Space : Type 0 where
  pub name : SLabel
  pub covenant : Covenant

pub record SpaceOut : Type 0 where
  pub n : ℕ
  pub space : Option Space
  pub value : ℕ
  pub script_pubkey : List ℕ

pub record FullSpaceOut : Type 0 where
  pub txid : List ℕ
  pub spaceout : SpaceOut

pub data BidPsbtReason : Type 0 where
  required low_bid_amount bad_signature output_spent : BidPsbtReason

pub data RevokeReason : Type 0 where
  premature_claim bad_spend expired : RevokeReason
  revoke_bid_psbt : BidPsbtReason → RevokeReason

pub data RejectReason : Type 0 where
  already_exists : RejectReason
  reject_bid_psbt : BidPsbtReason → RejectReason

-- `Bytes::is_empty`
abbrev pub is_empty : Bytes → Bool
is_empty [] = true
is_empty (b ∷ bs) = false

-- `Space::is_expired`
unfoldable pub is_expired : Space → ℕ → Bool
is_expired space height = elim space.covenant [
  | bid b ↦ false
  | transfer expire_height _ ↦ ltb expire_height height
  | reserved ↦ false
]

-- `Space::is_owned`
unfoldable pub is_owned : Space → Bool
is_owned space = elim space.covenant [ bid b ↦ false | transfer _ _ ↦ true | reserved ↦ false ]

-- `Space::claim_height`
unfoldable pub claim_height : Space → Option ℕ
claim_height space = elim space.covenant [
  | bid b ↦ b.claim_height
  | transfer _ _ ↦ none
  | reserved ↦ none
]

-- `Space::data`, and `Space::data_owned`, which copies the bytes.
unfoldable pub data_owned : Space → Option Bytes
data_owned space = elim space.covenant [ bid b ↦ none | transfer _ d ↦ d | reserved ↦ none ]

-- The signature in a witness of the form that a bid spend has: one element of 65 bytes, the last
-- one of which is the type of the signature hash.
unfoldable pub bid_witness : List (List ℕ) → Option (List ℕ)
bid_witness (w ∷ []) = elim (get_elem? w 64) [
  | none ↦ none
  | some kind ↦
      if length w == 65 && kind == single_plus_anyone_can_pay then some (take 64 w) else none
]
bid_witness _ = none

-- `Space::is_bid_spend`
unfoldable pub is_bid_spend : Space → ℕ → TxIn → Bool
is_bid_spend space tx_version txin =
    if not (tx_version == bid_psbt_tx_version) || not (txin.sequence == bid_psbt_input_sequence)
    then false
    else elim (bid_witness txin.witness) [
      | none ↦ false
      | some signature ↦ elim space.covenant [
        | bid b ↦ bytes_eq signature b.signature
        | transfer _ _ ↦ false
        | reserved ↦ false
      ]
    ]

-- `n as u32`
abbrev pub as_u32 : ℕ → ℕ
as_u32 n = n % 2 ^ 32

-- `FullSpaceOut::outpoint`
abbrev pub outpoint : FullSpaceOut → OutPoint
outpoint out = record { txid = out.txid; vout = as_u32 out.spaceout.n }
