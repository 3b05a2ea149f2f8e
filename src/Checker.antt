-- ===== src/Checker.antt =====
-- node/src/checker.rs: a transaction is tried on an overlay of the state before it is broadcast.
pub mod Safe
pub mod Recorded
pub mod Overlay
use spaced.Validate.Process.{process}
use spaced.Node.{name_hash}
use spaced.Base.Loop.{for_each}
use spaced.Prepare.{from_tx}
use spaced.Script.{DataSource}
use spaced.Base.{
  ◌>>◌, ok, ◌>>=◌, bytes_eq, anyhow, index, err, ◌∷◌, true, ℕ, [], some, expect, false, any, none,
  if◌then◌else◌, Option, List, Bool, Result,
}
use spaced.Bitcoin.{outpoint_eq, Transaction, Bitcoin, OutPoint}
use spaced.Store.{data_source, LiveSnapshot, Codec, Spacedb}
use spaced.Validate.{bid_update, rolled_out, revoke, TxChangeSet, UpdateOut, SpaceIn}
use spaced.Keys.{space_key, KeyHasher, Hash}
use spaced.Spaces.{
  outpoint, bad_spend, reserved, premature_claim, transfer, revoke_bid_psbt, bid, as_u32, expired,
  SpaceOut,
}

module _ (sdb : Spacedb) where
  -- `TxChecker`. The maps are only read by key, so that a newer entry stands before an older one.
  pub record TxChecker : Type 0 where
    pub original : LiveSnapshot sdb
    pub spaces : List (Hash × Option OutPoint)
    pub spaceouts : List (OutPoint × Option SpaceOut)

-- `BTreeMap::get`
unfoldable pub find_space : Hash → List (Hash × Option OutPoint) → Option (Option OutPoint)
find_space key [] = none
find_space key ((k, v) ∷ m) = if bytes_eq key k then some v else find_space key m

unfoldable pub find_spaceout :
    OutPoint → List (OutPoint × Option SpaceOut) → Option (Option SpaceOut)
find_spaceout key [] = none
find_spaceout key ((k, v) ∷ m) = if outpoint_eq key k then some v else find_spaceout key m

-- `TxChecker::check`: the tests of the loops.
abbrev pub has_script_error : SpaceIn → Bool
has_script_error spend = elim spend.script_error [ none ↦ false | some _ ↦ true ]

abbrev pub is_reserved_create : SpaceOut → Bool
is_reserved_create create = elim create.space [
  | none ↦ false
  | some space ↦ elim space.covenant [ bid _ ↦ false | transfer _ _ ↦ false | reserved ↦ true ]
]

abbrev pub is_revocation : UpdateOut → Bool
is_revocation update = elim update.kind [
  | revoke reason ↦ elim reason [
    | expired ↦ false
    | premature_claim ↦ true
    | bad_spend ↦ true
    | revoke_bid_psbt _ ↦ true
  ]
  | rolled_out _ ↦ false
  | bid_update ↦ false
]

unfoldable pub check : TxChangeSet → Result (Unit {0})
check changeset =
    if any has_script_error changeset.spends
    then err (anyhow "tx-check: an open that will be rejected")
    else if any is_reserved_create changeset.creates
    then err (anyhow "tx-check: a reserved covenant")
    else if any is_revocation changeset.updates
    then err (anyhow "tx-check: a space to be revoked")
    else ok tt

module _ (sdb : Spacedb) (codec : Codec) (btc : Bitcoin) (hash : KeyHasher) where
  -- `TxChecker::new`
  abbrev pub new_checker : LiveSnapshot sdb → TxChecker sdb
  new_checker snap = record { original = snap; spaces = []; spaceouts = [] }

  -- `DataSource for TxChecker`
  abbrev pub checker_source : TxChecker sdb → DataSource
  checker_source c = record {
    get_space_outpoint = λ space_hash. elim (find_space space_hash c.spaces) [
      | none ↦ (data_source sdb codec hash c.original).get_space_outpoint space_hash
      | some found ↦ ok found
    ];
    get_spaceout = λ outpoint. elim (find_spaceout outpoint c.spaceouts) [
      | none ↦ (data_source sdb codec hash c.original).get_spaceout outpoint
      | some found ↦ ok found
    ];
  }

  abbrev pub put_space : Hash → Option OutPoint → TxChecker sdb → TxChecker sdb
  put_space key at c = record c { spaces = (key, at) ∷ c.spaces }

  abbrev pub put_spaceout : OutPoint → Option SpaceOut → TxChecker sdb → TxChecker sdb
  put_spaceout at out c = record c { spaceouts = (at, out) ∷ c.spaceouts }

  -- The rounds of the loops of `TxChecker::apply_tx`.
  unfoldable pub check_spend : Transaction → SpaceIn → TxChecker sdb → Result (TxChecker sdb)
  check_spend tx spend c =
      index tx.input spend.n >>= λ input. ok (put_spaceout input.previous_output none c)

  unfoldable pub check_create : List ℕ → SpaceOut → TxChecker sdb → Result (TxChecker sdb)
  check_create txid create c =
      let at : OutPoint = record { txid = txid; vout = as_u32 create.n } in
      elim create.space [
        | none ↦ ok (put_spaceout at (some create) c)
        | some space ↦ name_hash hash space >>= λ base_hash.
            ok (put_spaceout at (some create) (put_space (space_key base_hash) (some at) c))
      ]

  unfoldable pub check_update : UpdateOut → TxChecker sdb → Result (TxChecker sdb)
  check_update update c = expect update.output.spaceout.space >>= λ space.
      name_hash hash space >>= λ base_hash.
      let at = outpoint update.output in
      let moved =
        put_spaceout at (some update.output.spaceout)
          (put_space (space_key base_hash) (some at) c) in
      elim update.kind [
        | revoke _ ↦ ok (put_spaceout at none (put_space (space_key base_hash) none c))
        | rolled_out _ ↦ ok moved
        | bid_update ↦ ok moved
      ]

  -- The overlay of a change set.
  unfoldable pub apply_changes : Transaction → TxChangeSet → TxChecker sdb → Result (TxChecker sdb)
  apply_changes tx changeset c = for_each (check_spend tx) changeset.spends c >>= λ c₁.
      for_each (check_create (btc.compute_txid tx)) changeset.creates c₁ >>= λ c₂.
      for_each check_update changeset.updates c₂

  -- `TxChecker::apply_tx`
  unfoldable pub try_tx :
      ℕ → Transaction → TxChecker sdb → Result (Option TxChangeSet × TxChecker sdb)
  try_tx height tx c = from_tx btc hash (checker_source c) tx >>= λ prepared. elim prepared [
    | none ↦ ok (none, c)
    | some ctx ↦ process btc height tx ctx >>= λ changeset.
        apply_changes tx changeset c >>= λ c'. ok (some changeset, c')
  ]

  -- `TxChecker::apply_package`
  unfoldable pub apply_package :
      ℕ → List Transaction → TxChecker sdb → Result (List (Option TxChangeSet) × TxChecker sdb)
  apply_package height [] c = ok ([], c)
  apply_package height (tx ∷ txs) c = try_tx height tx c >>= λ (changeset, c').
      apply_package height txs c' >>= λ (sets, c''). ok (changeset ∷ sets, c'')

  -- `TxChecker::check_apply_tx`
  unfoldable pub check_apply_tx :
      ℕ → Transaction → TxChecker sdb → Result (Option TxChangeSet × TxChecker sdb)
  check_apply_tx height tx c = try_tx height tx c >>= λ (changeset, c'). elim changeset [
    | none ↦ ok (none, c')
    | some cs ↦ check cs >> ok (some cs, c')
  ]
