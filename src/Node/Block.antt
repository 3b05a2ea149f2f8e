-- ===== src/Node/Block.antt =====
-- node/src/node.rs, `Node::apply_block`: the node applies the transactions of a block to the state,
-- after the batch of the rollout where one is due. The store and the state of a `LiveStore` share one
-- database, so that the state stands for both.
use spaced.Node.{apply_tx}
use spaced.Validate.Rollout.{rollout}
use spaced.Validate.Process.{process}
use spaced.Prepare.{from_tx}
use spaced.Spaces.Constants.{rollout_block_interval, rollout_batch_size}
use spaced.Spaces.{reserved, transfer, bid, as_u32, FullSpaceOut}
use spaced.Keys.{space_key_from_raw, bid_key_is_valid, KeyHasher, Hash}
use spaced.Bitcoin.{Transaction, Bitcoin}
use spaced.Validate.{add_u32, TxChangeSet}
use spaced.Store.{get_space_info, is_dirty, inner, data_source, LiveSnapshot, Codec, Spacedb}
use spaced.Base.{
  anyhow, true, ◌%◌, ◌-◌, sync_error, zero, ◌^◌, expect, not, ◌>>◌, ◌>>=◌, ◌==◌, false, ◌&&◌, err,
  ◌++◌, suc, ◌+◌, if◌then◌else◌, length, assert, some, [], ◌∷◌, none, ok, Option, bytes_eq, Bool,
  ChainAnchor, List, ℕ, Result,
}

-- `BlockMeta`, `TxEntry` and `TxData`
pub record TxData : Type 0 where
  pub position : ℕ
  pub raw : List ℕ

pub record TxEntry : Type 0 where
  pub changeset : TxChangeSet
  pub tx : Option TxData

pub record BlockMeta : Type 0 where
  pub height : ℕ
  pub tx_meta : List TxEntry

-- What the code reads of a block of the bitcoin crate.
pub record Block : Type 0 where
  pub prev_blockhash : List ℕ
  pub txdata : List Transaction

-- The keys and values that a snapshot lists.
abbrev pub Listing : Type 0
Listing = List (Result (Hash × List ℕ))

-- `RolloutIterator::next`, whose counter is never read: the item and what is left.
unfoldable pub rollout_next : Listing → Result (Option (Result (Hash × List ℕ) × Listing))
rollout_next [] = ok none
rollout_next (err error ∷ rest) = ok (some (err error, rest))
rollout_next (ok (key, value) ∷ rest) =
    bid_key_is_valid key >>= λ valid. if valid then ok (some (ok (key, value), rest)) else ok none

-- `u32` subtraction, which wraps around in a release build.
abbrev pub sub_u32 : ℕ → ℕ → ℕ
sub_u32 a b = (a + (2 ^ 32 - b)) % 2 ^ 32

-- What one transaction leaves in the data of a block.
unfoldable pub tx_entry : Bitcoin → Bool → ℕ → Transaction → TxChangeSet → TxEntry
tx_entry btc tx_data position tx changeset = record {
  changeset = changeset;
  tx =
      if tx_data
      then some (record { position = as_u32 position; raw = btc.serialize tx })
      else none;
}

-- `block_data.tx_meta.push(…)`, where the data of the block is wanted.
abbrev pub push_entry : Bool → TxEntry → List TxEntry → List TxEntry
push_entry false entry entries = entries
push_entry true entry entries = entries ++ (entry ∷ [])

-- Whether a block connects to the tip.
abbrev pub connects : ChainAnchor → ℕ → Block → Bool
connects tip height block = bytes_eq tip.hash block.prev_blockhash && add_u32 tip.height 1 == height

-- What `apply_block` returns of the data of a block.
abbrev pub block_meta : Bool → ℕ → List TxEntry → Option BlockMeta
block_meta false height entries = none
block_meta true height [] = none
block_meta true height (e ∷ es) = some (record { height = height; tx_meta = e ∷ es })

module _ (sdb : Spacedb) (codec : Codec) (btc : Bitcoin) (hash : KeyHasher) where
  -- One element of the batch.
  unfoldable pub load_entry :
      List ℕ → LiveSnapshot sdb → Result (Option FullSpaceOut × LiveSnapshot sdb)
  load_entry raw_hash s =
      assert (length raw_hash == 32)
      >> (space_key_from_raw raw_hash >>= λ space_hash.
          get_space_info sdb codec hash space_hash s >>= λ (full, s'). elim full [
            | none ↦ ok (none, s')
            | some out ↦ expect out.spaceout.space >>= λ space. elim space.covenant [
              | bid _ ↦ ok (some out, s')
              | transfer _ _ ↦ err (anyhow "expected spaceouts with bid covenants")
              | reserved ↦ err (anyhow "expected spaceouts with bid covenants")
            ]
          ])

  abbrev pub push_found : Option FullSpaceOut → List FullSpaceOut → List FullSpaceOut
  push_found none outs = outs
  push_found (some out) outs = out ∷ outs

  -- The loop over `iter.take(size)`.
  unfoldable pub load_batch :
      ℕ → Listing → LiveSnapshot sdb → Result (List FullSpaceOut × LiveSnapshot sdb)
  load_batch zero iter s = ok ([], s)
  load_batch (suc size) iter s = rollout_next iter >>= λ step. elim step [
    | none ↦ ok ([], s)
    | some (element, rest) ↦ element >>= λ (_, raw_hash). load_entry raw_hash s >>= λ (full, s').
        load_batch size rest s' >>= λ (outs, s''). ok (push_found full outs, s'')
  ]

  -- `Node::get_rollout_batch`, with `Store::rollout_iter`.
  unfoldable pub get_rollout_batch :
      ℕ → LiveSnapshot sdb → Result (List FullSpaceOut × LiveSnapshot sdb)
  get_rollout_batch size s = sdb.begin_read s.db >>= λ snapshot. inner sdb codec s >>= λ (own, s').
      assert (bytes_eq (sdb.metadata snapshot) (sdb.metadata own))
      >> (assert (not (is_dirty s')) >> load_batch size (sdb.iter snapshot) s')

  -- The node's `tx_data`, and what is known of the block: its height and whether its data is wanted.
  module _ (tx_data : Bool) (height : ℕ) (get_block_data : Bool) where
    -- The rollout of a batch.
    unfoldable pub apply_rollout_batch :
        Block → LiveSnapshot sdb → Result (List TxEntry × LiveSnapshot sdb)
    apply_rollout_batch block s = get_rollout_batch rollout_batch_size s >>= λ (batch, s').
        expect (btc.coinbase block.txdata) >>= λ coinbase.
        rollout btc height coinbase batch >>= λ validated.
        apply_tx sdb codec btc hash coinbase validated s' >>= λ s''.
        ok (push_entry get_block_data (tx_entry btc tx_data 0 coinbase validated) [], s'')

    -- One round of the loop over the transactions: the transaction at a position.
    unfoldable pub apply_transaction :
        ℕ → Transaction → List TxEntry × LiveSnapshot sdb → Result (List TxEntry × LiveSnapshot sdb)
    apply_transaction position tx (entries, s) =
        from_tx btc hash (data_source sdb codec hash s) tx >>= λ prepared_tx. elim prepared_tx [
          | none ↦ ok (entries, s)
          | some ctx ↦ process btc height tx ctx >>= λ validated_tx.
              apply_tx sdb codec btc hash tx validated_tx s >>= λ s'. ok (
                push_entry get_block_data (tx_entry btc tx_data position tx validated_tx) entries,
                s',
              )
        ]

    unfoldable pub apply_transactions :
        ℕ
        → List Transaction
        → List TxEntry × LiveSnapshot sdb
        → Result (List TxEntry × LiveSnapshot sdb)
    apply_transactions position [] p = ok p
    apply_transactions position (tx ∷ txs) p =
        apply_transaction position tx p >>= λ p'. apply_transactions (position + 1) txs p'

    -- `Node::apply_block`
    unfoldable pub apply_block :
        List ℕ → Block → LiveSnapshot sdb → Result (Option BlockMeta × LiveSnapshot sdb)
    apply_block block_hash block s =
        if not (connects s.tip height block)
        then err (sync_error (record { checkpoint = s.tip; connect_to = (height, block_hash) }))
        else ((if sub_u32 height 1 % rollout_block_interval == 0
              then apply_rollout_batch block s
              else ok ([], s))
            >>= λ p. apply_transactions 0 block.txdata p >>= λ (entries, s'). ok (
              block_meta get_block_data height entries,
              record s' { tip = record { hash = block_hash; height = height } },
            ))
