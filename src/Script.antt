-- ===== src/Script.antt =====
-- protocol/src/script.rs: the scripts that a spend reveals. A data source is what it answers while
-- one transaction is prepared; the crate's `&mut self` is there for caches.
pub mod Create
use spaced.Base.{
  ◌^◌, ℕ, ◌+◌, List, [], ◌∷◌, ◌++◌, Option, none, some, ltb, leb, ◌==◌, bytes_eq, any,
  if◌then◌else◌, length, drop, Result, ok, err, panic, ◌>>=◌, expect, index,
}
use spaced.Bitcoin.{Bitcoin, OutPoint, Instruction, op, push_bytes, op_drop}
use spaced.Label.{SLabel, SLabelRef, as_ref, try_from_ref, to_owned, starts_with}
use spaced.Keys.{Hash, KeyHasher, space_key}
use spaced.Spaces.{SpaceOut, FullSpaceOut, RejectReason}
use spaced.Spaces.Constants.{reserved_spaces}

-- `trait DataSource` of protocol/src/prepare.rs
pub record DataSource : Type 0 where
  pub get_space_outpoint : Hash → Result (Option OutPoint)
  pub get_spaceout : OutPoint → Result (Option SpaceOut)

-- `RejectParams` of protocol/src/validate.rs
pub record RejectParams : Type 0 where
  pub name : SLabel
  pub reason : RejectReason

pub data ScriptError : Type 0 where
  malformed_name reserved_name : ScriptError
  reject : RejectParams → ScriptError

-- `ScriptResult<T>`
pub data ScriptResult (A : Type 0) : Type 0 where
  script_ok : A → ScriptResult A
  script_err : ScriptError → ScriptResult A

abbrev pub op_open_code : ℕ
op_open_code = 1

abbrev pub op_setfallback : ℕ
op_setfallback = 2

abbrev pub op_reserve_1 : ℕ
op_reserve_1 = 252

abbrev pub magic : List ℕ
magic = 0xde ∷ 0xde ∷ 0xde ∷ 0xde ∷ []

pub data OpenHistory : Type 0 where
  existing_space : FullSpaceOut → OpenHistory
  new_space : SLabel → OpenHistory

pub data SpaceScript : Type 0 where
  opening : OpenHistory → SpaceScript
  set : List ℕ → SpaceScript
  reserve : SpaceScript

-- `SpaceScript::create_open`
unfoldable pub create_open : SLabel → Result (List ℕ)
create_open name = as_ref name >>= λ bytes. ok (magic ++ (op_open_code ∷ bytes))

-- `SpaceScript::create_set_fallback`
abbrev pub create_set_fallback : List ℕ → List ℕ
create_set_fallback bytes = magic ++ (op_setfallback ∷ bytes)

-- `SpaceScript::create_reserve`
abbrev pub create_reserve : List ℕ
create_reserve = magic ++ (op_reserve_1 ∷ [])

-- `SpaceScript::nop_script`. `PushBytesBuf::try_from` of the crate refuses 2 ^ 32 bytes and more.
unfoldable pub nop_script : Bitcoin → List ℕ → Result (List ℕ)
nop_script btc space_script =
    if ltb (length space_script) (2 ^ 32)
    then ok (btc.push_opcode op_drop (btc.push_slice space_script []))
    else err panic

-- The bytes behind the magic prefix, if at least one follows it.
unfoldable pub strip_magic : List ℕ → Option (List ℕ)
strip_magic bytes =
    if ltb (length bytes) (length magic + 1)
    then none
    else if starts_with bytes magic
    then some (drop (length magic) bytes)
    else none

-- `SpaceScript::find_space_script`, over the instructions of the script.
unfoldable pub find_space_script : List (Option Instruction) → Option (List ℕ)
find_space_script [] = none
find_space_script (none ∷ ops) = none
find_space_script (some (op code) ∷ ops) = find_space_script ops
find_space_script (some (push_bytes bytes) ∷ ops) = elim (strip_magic bytes) [
  | none ↦ find_space_script ops
  | some script ↦ some script
]

-- The name of an `OP_OPEN` that cannot be read is an error of the script, not of the run.
abbrev catch_name : Result SLabelRef → Result (Option SLabelRef)
catch_name (ok name) = ok (some name)
catch_name (err panic) = err panic
catch_name (err fault) = ok none

module _ (hash : KeyHasher) (src : DataSource) where
  -- The history of a name: the space that the source knows under it, if any.
  unfoldable pub open_history : SLabelRef → Result OpenHistory
  open_history name = as_ref name >>= λ bytes.
      src.get_space_outpoint (space_key (hash bytes)) >>= λ existing. elim existing [
        | none ↦ to_owned name >>= λ owned. ok (new_space owned)
        | some outpoint ↦ src.get_spaceout outpoint >>= λ found. expect found >>= λ spaceout.
            ok (existing_space (record { txid = outpoint.txid; spaceout = spaceout }))
      ]

  -- `SpaceScript::op_open`
  unfoldable pub op_open : List ℕ → Result (ScriptResult OpenHistory)
  op_open op_data = catch_name (try_from_ref op_data) >>= λ parsed. elim parsed [
    | none ↦ ok (script_err malformed_name)
    | some name ↦ as_ref name >>= λ bytes.
        if any (λ reserved. bytes_eq reserved bytes) reserved_spaces
        then ok (script_err reserved_name)
        else open_history name >>= λ kind. ok (script_ok kind)
  ]

  abbrev opened : ScriptResult OpenHistory → ScriptResult SpaceScript
  opened (script_ok history) = script_ok (opening history)
  opened (script_err e) = script_err e

  -- The `match` of `SpaceScript::eval` on the op code. A byte is at most 255.
  unfoldable pub eval_op : ℕ → List ℕ → Result (Option (ScriptResult SpaceScript))
  eval_op code op_data =
      if code == op_open_code
      then (op_open op_data >>= λ open_result. ok (some (opened open_result)))
      else if code == op_setfallback
      then ok (some (script_ok (set op_data)))
      else if leb op_reserve_1 code
      then ok (some (script_ok reserve))
      else ok none

  -- `SpaceScript::eval`
  unfoldable pub eval : List (Option Instruction) → Result (Option (ScriptResult SpaceScript))
  eval ops = elim (find_space_script ops) [
    | none ↦ ok none
    | some space_script ↦ index space_script 0 >>= λ code. eval_op code (drop 1 space_script)
  ]
