-- ===== src/Node.antt =====
-- node/src/node.rs: how the node applies the change sets of a block's transactions to the state of
-- the chain. What a failing run leaves behind in the state is not modelled.
pub mod Dangling
pub mod Found
pub mod Block
pub mod Writes
pub mod Advance
pub mod Batch
pub mod Listing
use spaced.Base.{
  ℕ, true, false, List, Option, none, some, Result, ok, err, panic, ◌>>=◌, expect, index,
}
use spaced.Base.Loop.{for_each}
use spaced.Bitcoin.{Bitcoin, OutPoint, Transaction}
use spaced.Label.{as_ref}
use spaced.Keys.{Hash, KeyHasher, space_key, outpoint_key_of, bid_key}
use spaced.Spaces.{
  SpaceOut, Space, Bid, bid, transfer, reserved, RevokeReason, expired, premature_claim, bad_spend,
  revoke_bid_psbt, as_u32, outpoint,
}
use spaced.Validate.{TxChangeSet, SpaceIn, UpdateOut, revoke, rolled_out, bid_update}
use spaced.Validate.Rollout.{is_none}
use spaced.Store.{
  Spacedb, Codec, LiveSnapshot, remove_raw, insert_spaceout, insert_space, update_bid,
}

-- The bid covenant of an output.
abbrev pub bid_covenant : SpaceOut → Option Bid
bid_covenant out = elim out.space [
  | none ↦ none
  | some space ↦ elim space.covenant [ bid b ↦ some b | transfer _ _ ↦ none | reserved ↦ none ]
]

-- `unwrap_bid_value`: the total burned, and the total before the last bid. The subtraction of amounts
-- can panic.
unfoldable pub unwrap_bid_value : Bitcoin → SpaceOut → Result (ℕ × ℕ)
unwrap_bid_value btc spaceout = expect (bid_covenant spaceout) >>= λ b.
    expect (btc.amount_sub b.total_burned b.burn_increment) >>= λ previous.
    ok (b.total_burned, previous)

-- `Sha256::hash(space.name.as_ref())`
abbrev pub name_hash : KeyHasher → Space → Result Hash
name_hash hash space = as_ref space.name >>= λ bytes. ok (hash bytes)

module _ (sdb : Spacedb) (codec : Codec) (btc : Bitcoin) (hash : KeyHasher) where
  -- The removal of a spent output.
  unfoldable pub apply_spend : Transaction → SpaceIn → LiveSnapshot sdb → Result (LiveSnapshot sdb)
  apply_spend tx spend s = index tx.input spend.n >>= λ input.
      ok (remove_raw (outpoint_key_of hash input.previous_output) s)

  -- A created output; with a space, which must not be in auction, the name points to it.
  unfoldable pub apply_create : List ℕ → SpaceOut → LiveSnapshot sdb → Result (LiveSnapshot sdb)
  apply_create txid create s =
      let at : OutPoint = record { txid = txid; vout = as_u32 create.n } in
      elim create.space [
        | none ↦ ok (insert_spaceout sdb codec (outpoint_key_of hash at) create s)
        | some space ↦ elim space.covenant [
          | bid _ ↦ err panic
          | transfer _ _ ↦ name_hash hash space >>= λ base_hash. ok (
              insert_spaceout sdb codec (outpoint_key_of hash at) create
                (insert_space sdb codec (space_key base_hash) at s))
          | reserved ↦ name_hash hash space >>= λ base_hash. ok (
              insert_spaceout sdb codec (outpoint_key_of hash at) create
                (insert_space sdb codec (space_key base_hash) at s))
        ]
      ]

  -- The entry of the pre-auction pool of a bid that has not begun is removed.
  unfoldable pub remove_bid : Hash → Space → LiveSnapshot sdb → LiveSnapshot sdb
  remove_bid base_hash space s = elim space.covenant [
    | bid b ↦ elim (is_none b.claim_height) [
      | true ↦ remove_raw (bid_key b.total_burned base_hash) s
      | false ↦ s
    ]
    | transfer _ _ ↦ s
    | reserved ↦ s
  ]

  -- The revocation of a space whose output a spend has removed.
  abbrev pub revoke_name : UpdateOut → LiveSnapshot sdb → Result (LiveSnapshot sdb)
  revoke_name update s = expect update.output.spaceout.space >>= λ space.
      name_hash hash space >>= λ base_hash.
      ok (remove_bid base_hash space (remove_raw (space_key base_hash) s))

  unfoldable pub apply_revoke :
      RevokeReason → UpdateOut → LiveSnapshot sdb → Result (LiveSnapshot sdb)
  apply_revoke premature_claim update s = revoke_name update s
  apply_revoke bad_spend update s = revoke_name update s
  apply_revoke (revoke_bid_psbt _) update s = revoke_name update s
  apply_revoke expired update s = ok (remove_raw (outpoint_key_of hash (outpoint update.output)) s)

  -- The pool has the new bid in place of the one before, while the auction has not begun.
  unfoldable pub enter_bid : Bid → ℕ → ℕ → Hash → LiveSnapshot sdb → LiveSnapshot sdb
  enter_bid b bid_value previous_bid base_hash s = elim (is_none b.claim_height) [
    | true ↦
        update_bid sdb codec (some (bid_key previous_bid base_hash)) (bid_key bid_value base_hash)
          (space_key base_hash) s
    | false ↦ s
  ]

  unfoldable pub apply_bid : UpdateOut → LiveSnapshot sdb → Result (LiveSnapshot sdb)
  apply_bid update s = expect update.output.spaceout.space >>= λ space.
      name_hash hash space >>= λ base_hash.
      unwrap_bid_value btc update.output.spaceout >>= λ (bid_value, previous_bid).
      expect (bid_covenant update.output.spaceout) >>= λ b. ok (
        insert_spaceout sdb codec (outpoint_key_of hash (outpoint update.output))
          update.output.spaceout
          (insert_space sdb codec (space_key base_hash) (outpoint update.output)
            (enter_bid b bid_value previous_bid base_hash s)))

  -- The space of a rollout leaves the pool.
  unfoldable pub apply_rollout : ℕ → UpdateOut → LiveSnapshot sdb → Result (LiveSnapshot sdb)
  apply_rollout priority update s = expect update.output.spaceout.space >>= λ space.
      name_hash hash space >>= λ base_hash. ok (
        insert_spaceout sdb codec (outpoint_key_of hash (outpoint update.output))
          update.output.spaceout (remove_raw (bid_key priority base_hash) s))

  unfoldable pub apply_update : UpdateOut → LiveSnapshot sdb → Result (LiveSnapshot sdb)
  apply_update update s = elim update.kind [
    | revoke reason ↦ apply_revoke reason update s
    | rolled_out priority ↦ apply_rollout priority update s
    | bid_update ↦ apply_bid update s
  ]

  -- `Node::apply_tx`
  unfoldable pub apply_tx : Transaction → TxChangeSet → LiveSnapshot sdb → Result (LiveSnapshot sdb)
  apply_tx tx changeset s = for_each (apply_spend tx) changeset.spends s >>= λ s₁.
      for_each (apply_create changeset.txid) changeset.creates s₁ >>= λ s₂.
      for_each apply_update changeset.updates s₂
