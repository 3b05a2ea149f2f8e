-- ===== src/Bitcoin.antt =====
-- The `bitcoin` crate as the program uses it, which is not part of the repository: the data that the
-- code reads and writes, and the crate's operations as parameters. Amounts are numbers of satoshis,
-- hashes, scripts and signatures are lists of bytes.
use spaced.Base.{
  none, some, ◌≤◌, ◌++◌, ◌+◌, ◌-◌, ◌<◌, ◌^◌, [], ◌∷◌, length, ltb, if◌then◌else◌, ℕ, ◌≡◌, Bool,
  ◌&&◌, true, List, Option, bytes_eq, bytes_eq→eq, bytes_eq_refl, ◌==◌, ◌↔◌, arith, ap,
}

pub record OutPoint : Type 0 where
  pub txid : List ℕ
  pub vout : ℕ

pub record TxIn : Type 0 where
  pub previous_output : OutPoint
  pub script_sig : List ℕ
  pub sequence : ℕ
  pub witness : List (List ℕ)

pub record TxOut : Type 0 where
  pub value : ℕ
  pub script_pubkey : List ℕ

pub data LockTime : Type 0 where
  blocks seconds : ℕ → LockTime

pub record Transaction : Type 0 where
  pub version : ℕ
  pub lock_time : LockTime
  pub input : List TxIn
  pub output : List TxOut

pub data Instruction : Type 0 where
  op : ℕ → Instruction
  push_bytes : List ℕ → Instruction

-- Documented constants: `OP_RETURN`, `OP_DROP`, `Version::TWO`, `Sequence::ENABLE_RBF_NO_LOCKTIME`
-- and `TapSighashType::SinglePlusAnyoneCanPay`.
abbrev pub op_return : ℕ
op_return = 0x6a

abbrev pub op_drop : ℕ
op_drop = 0x75

abbrev pub version_two : ℕ
version_two = 2

abbrev pub enable_rbf_no_locktime : ℕ
enable_rbf_no_locktime = 0xffff_fffd

abbrev pub single_plus_anyone_can_pay : ℕ
single_plus_anyone_can_pay = 0x83

-- The operations. `none` stands for an `Err`, and for a panic of the two on amounts. An instruction
-- that cannot be read is `none` too.
pub record Bitcoin : Type 0 where
  pub compute_txid : Transaction → List ℕ
  pub serialize : Transaction → List ℕ
  pub coinbase : List Transaction → Option Transaction
  pub is_coinbase : Transaction → Bool
  pub is_p2tr : List ℕ → Bool
  pub is_op_return : List ℕ → Bool
  pub tapscript : List (List ℕ) → Option (List ℕ)
  pub instructions : List ℕ → List (Option Instruction)
  pub push_slice : List ℕ → List ℕ → List ℕ
  pub push_opcode : ℕ → List ℕ → List ℕ
  pub amount_add : ℕ → ℕ → Option ℕ
  pub amount_sub : ℕ → ℕ → Option ℕ
  pub signature_from_slice : List ℕ → Option (List ℕ)
  pub taproot_signature_to_vec : List ℕ → ℕ → List ℕ
  pub key_spend_signature_hash : Transaction → TxOut → Option (List ℕ)
  pub message_from_digest : List ℕ → Option (List ℕ)
  pub public_key_from_slice : List ℕ → Option (List ℕ)
  pub verify_schnorr : List ℕ → List ℕ → List ℕ → Bool

-- What the crate documents of its operations: amounts are 64 bits wide and their sums and differences
-- panic out of range; a P2TR script has 34 bytes; a signature with an explicit
-- type of hash is written as its 64 bytes and the type; a pushed slice followed by `OP_DROP` reads back.
pub record IsBitcoin (btc : Bitcoin) : Type 0 where
  pub amount_add_lem :
      (a b : ℕ) → btc.amount_add a b ≡ (if ltb (a + b) (2 ^ 64) then some (a + b) else none)
  pub amount_sub_lem : (a b : ℕ) → btc.amount_sub a b ≡ (if ltb a b then none else some (a - b))
  pub p2tr_size : (script : List ℕ) → btc.is_p2tr script ≡ true → length script ≡ 34
  pub signature_bytes :
      (sig : List ℕ) (kind : ℕ)
      → length sig ≡ 64
      → 1 ≤ kind
      → btc.taproot_signature_to_vec sig kind ≡ sig ++ (kind ∷ [])
  pub instructions_push :
      (bytes : List ℕ)
      → length bytes < 2 ^ 32
      → btc.instructions (btc.push_opcode op_drop (btc.push_slice bytes []))
        ≡ some (push_bytes bytes) ∷ some (op op_drop) ∷ []

unfoldable pub outpoint_eq : OutPoint → OutPoint → Bool
outpoint_eq a b = bytes_eq a.txid b.txid && a.vout == b.vout

pub outpoint_eq_iff : (a b : OutPoint) → (outpoint_eq a b ≡ true) ↔ (a ≡ b)
unfolding outpoint_eq
outpoint_eq_iff a b = (
  λ h. ground (arith, bytes_eq→eq a.txid b.txid, h),
  λ e. ground (arith, e, bytes_eq_refl a.txid, ap OutPoint.txid e),
)
