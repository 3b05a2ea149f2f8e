-- ===== src/Tests/Data.antt =====
-- A model of the `bitcoin` crate that keeps the laws asked of it, and transactions for the examples.
use spaced.Base.{
  ℕ, ◌+◌, ◌-◌, ◌^◌, ◌≡◌, refl, Bool, true, false, List, [], ◌∷◌, ◌++◌, Option, none, some, length,
  replicate, get_elem?, ltb, ◌==◌, ==_iff, if◌then◌else◌,
}
use spaced.Bitcoin.{op_drop, Bitcoin, IsBitcoin, TxIn, Transaction, Instruction, op, push_bytes}
use spaced.Keys.{KeyHasher}

abbrev first_of : List Transaction → Option Transaction
first_of [] = none
first_of (tx ∷ txs) = some tx

abbrev no_inputs : List TxIn → Bool
no_inputs [] = true
no_inputs (i ∷ is) = false

abbrev starts_op_return : List ℕ → Bool
starts_op_return [] = false
starts_op_return (b ∷ bs) = b == 0x6a

-- A script is an op code and the bytes pushed before it.
abbrev toy_instructions : List ℕ → List (Option Instruction)
toy_instructions [] = []
toy_instructions (code ∷ bytes) = some (push_bytes bytes) ∷ some (op code) ∷ []

abbrev toy_signature : List ℕ → Option (List ℕ)
toy_signature sig = if length sig == 64 then some sig else none

abbrev pub toy : Bitcoin
toy = record {
  compute_txid = λ tx. 1 ∷ [];
  serialize = λ tx. [];
  coinbase = first_of;
  is_coinbase = λ tx. no_inputs tx.input;
  is_p2tr = λ script. length script == 34;
  is_op_return = starts_op_return;
  tapscript = λ witness. get_elem? witness 1;
  instructions = toy_instructions;
  push_slice = λ bytes script. bytes ++ script;
  push_opcode = λ code script. code ∷ script;
  amount_add = λ a b. if ltb (a + b) (2 ^ 64) then some (a + b) else none;
  amount_sub = λ a b. if ltb a b then none else some (a - b);
  signature_from_slice = toy_signature;
  taproot_signature_to_vec = λ sig kind. sig ++ (kind ∷ []);
  key_spend_signature_hash = λ tx utxo. some [];
  message_from_digest = λ digest. some digest;
  public_key_from_slice = λ key. if length key == 32 then some key else none;
  verify_schnorr = λ sig msg key. true;
}

append_nil : (xs : List ℕ) → xs ++ [] ≡ xs
append_nil [] = refl
append_nil (x ∷ xs) = spaced.Base.ap (◌∷◌ x) (append_nil xs)

pub toy-IsBitcoin : IsBitcoin toy
toy-IsBitcoin = record {
  amount_add_lem = λ a b. refl;
  amount_sub_lem = λ a b. refl;
  p2tr_size = λ script h. (==_iff (length script) 34).0 h;
  signature_bytes = λ sig kind h pos. refl;
  instructions_push = λ bytes h.
      spaced.Base.ap (λ s. some (push_bytes s) ∷ some (op op_drop) ∷ []) (append_nil bytes);
}

-- A hash function into 32 bytes.
abbrev pub toy_hash : KeyHasher
toy_hash bytes = (length bytes ∷ replicate 31 3)

abbrev pub script_34 : List ℕ
script_34 = replicate 34 7

abbrev pub sig_64 : List ℕ
sig_64 = replicate 64 5

-- The text "ab", and the buffer of the label "@ab".
abbrev pub text_ab : List ℕ
text_ab = b'a' ∷ b'b' ∷ []
