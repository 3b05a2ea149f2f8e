-- ===== src/Node/Advance.antt =====
-- A block that is applied extends the tip, and changes what is staged alone.
use spaced.Validate.Process.{process}
use spaced.Validate.Rollout.{rollout}
use spaced.Spaces.Constants.{rollout_block_interval, rollout_batch_size}
use spaced.Node.Writes.{apply_tx-keeps}
use spaced.Prepare.{from_tx}
use spaced.Node.{apply_tx}
use spaced.Validate.{add_u32, TxChangeSet}
use spaced.Store.Follows.{remove_raw-Follows, insert_raw-Follows, Follows-refl, Follows}
use spaced.Store.Refines.{IsState}
use spaced.Base.{
  ==_iff, ◌%◌, bytes_eq→eq, true, if◌then◌else◌, Bool-cases, ChainAnchor, [], ◌∷◌, ◌+◌, ◌∷◌, Bool,
  refl, expect, inr, inl, ◌==◌, Option-cases, arith, >>=-eq-ok, ok, Result, ◌≡◌, Option, List, ℕ,
}
use spaced.Node.Block.{
  sub_u32, BlockMeta, connects, Block, TxEntry, apply_rollout_batch, apply_transactions,
  apply_block, apply_transaction, get_rollout_batch,
}
use spaced.Keys.{KeyHasher}
use spaced.Bitcoin.{Transaction, Bitcoin}
use spaced.Store.Contents.{IsSpacedb}
use spaced.Store.{data_source, LiveSnapshot, Codec, Spacedb}
use spaced.Node.Batch.{get_rollout_batch-Follows}

module _ (sdb : Spacedb) (codec : Codec) (btc : Bitcoin) (hash : KeyHasher) (tx_data : Bool)
    (height : ℕ) (get_block_data : Bool) where
  connects-parts :
      (tip : ChainAnchor) (block : Block)
      → connects tip height block ≡ true
      → (tip.hash ≡ block.prev_blockhash) × (add_u32 tip.height 1 ≡ height)
  connects-parts tip block h = (
    bytes_eq→eq tip.hash block.prev_blockhash (ground (arith, h)),
    (==_iff (add_u32 tip.height 1) height).0 (ground (arith, h)),
  )

  -- The rollout of a batch, where one is due.
  abbrev batch_first : Block → LiveSnapshot sdb → Result (List TxEntry × LiveSnapshot sdb)
  batch_first block s =
      if sub_u32 height 1 % rollout_block_interval == 0
      then apply_rollout_batch sdb codec btc hash tx_data height get_block_data block s
      else ok ([], s)

  pub apply_block-tip :
      (block_hash : List ℕ) (block : Block) (meta : Option BlockMeta) (s t : LiveSnapshot sdb)
      → apply_block sdb codec btc hash tx_data height get_block_data block_hash block s
        ≡ ok (meta, t)
      → t.tip ≡ record { hash = block_hash; height = height }
  unfolding apply_block
  apply_block-tip block_hash block meta s t h = elim (Bool-cases (connects s.tip height block)) [
    | inr apart ↦ absurd (cc (rw (apply_block, apart) at h))
    | inl joined ↦
        let (p, e₁, h₁) = >>=-eq-ok (batch_first block s) _ (rw (apply_block, joined) at h) in
        let (q, e₂, h₂) =
          >>=-eq-ok
            (apply_transactions sdb codec btc hash tx_data height get_block_data 0 block.txdata p) _
            h₁ in
        ground (arith, h₂)
  ]

module _ (sdb : Spacedb) (codec : Codec) (laws : IsSpacedb sdb) (btc : Bitcoin)
    (hash : KeyHasher) where
  apply_tx-Follows :
      (before : LiveSnapshot sdb) (tx : Transaction) (cs : TxChangeSet) (s t : LiveSnapshot sdb)
      → Follows sdb codec laws before s
      → apply_tx sdb codec btc hash tx cs s ≡ ok t
      → Follows sdb codec laws before t
  apply_tx-Follows before =
      apply_tx-keeps sdb codec btc hash (Follows sdb codec laws before)
        (insert_raw-Follows sdb codec laws before) (remove_raw-Follows sdb codec laws before)

  module _ (tx_data : Bool) (height : ℕ) (get_block_data : Bool) where
    apply_rollout_batch-Follows :
        (block : Block) (entries : List TxEntry) (s t : LiveSnapshot sdb)
        → IsState sdb codec laws s
        → apply_rollout_batch sdb codec btc hash tx_data height get_block_data block s
          ≡ ok (entries, t)
        → Follows sdb codec laws s t
    unfolding apply_rollout_batch
    apply_rollout_batch-Follows block entries s t w h =
        let ((batch, s₁), e₁, h₁) =
          >>=-eq-ok (get_rollout_batch sdb codec btc hash rollout_batch_size s) _ h in
        let (coinbase, e₂, h₂) = >>=-eq-ok (expect (btc.coinbase block.txdata)) _ h₁ in
        let (validated, e₃, h₃) = >>=-eq-ok (rollout btc height coinbase batch) _ h₂ in
        let (s₂, e₄, h₄) = >>=-eq-ok (apply_tx sdb codec btc hash coinbase validated s₁) _ h₃ in
        let at : s₂ ≡ t = ground (arith, h₄) in
        rw (← at) (
          apply_tx-Follows s coinbase validated s₁ s₂
            (get_rollout_batch-Follows sdb codec laws btc hash rollout_batch_size batch s s₁ w e₁)
            e₄)

    apply_transaction-Follows :
        (before : LiveSnapshot sdb) (position : ℕ) (tx : Transaction)
        (entries entries' : List TxEntry) (s t : LiveSnapshot sdb)
        → Follows sdb codec laws before s
        → apply_transaction sdb codec btc hash tx_data height get_block_data position tx
            (entries, s)
          ≡ ok (entries', t)
        → Follows sdb codec laws before t
    unfolding apply_transaction
    apply_transaction-Follows before position tx entries entries' s t x h =
        let (prepared, e₁, h₁) =
          >>=-eq-ok (from_tx btc hash (data_source sdb codec hash s) tx) _ h in
        elim (Option-cases prepared) [
          | inl e ↦ let at : s ≡ t = ground (arith, h₁, e) in rw (← at) x
          | inr (ctx, e) ↦
              let h₂ = rw e at h₁ in
              let (validated, e₃, h₃) = >>=-eq-ok (process btc height tx ctx) _ h₂ in
              let (s', e₄, h₄) = >>=-eq-ok (apply_tx sdb codec btc hash tx validated s) _ h₃ in
              let at : s' ≡ t = ground (arith, h₄) in
              rw (← at) (apply_tx-Follows before tx validated s s' x e₄)
        ]

    apply_transactions-Follows :
        (before : LiveSnapshot sdb) (position : ℕ) (txs : List Transaction)
        (entries entries' : List TxEntry) (s t : LiveSnapshot sdb)
        → Follows sdb codec laws before s
        → apply_transactions sdb codec btc hash tx_data height get_block_data position txs
            (entries, s)
          ≡ ok (entries', t)
        → Follows sdb codec laws before t
    unfolding apply_transactions
    apply_transactions-Follows before position [] entries entries' s t x h =
        let at : s ≡ t = ground (arith, h) in rw (← at) x
    apply_transactions-Follows before position (tx ∷ txs) entries entries' s t x h =
        let ((more, s'), e, r) =
          >>=-eq-ok
            (apply_transaction sdb codec btc hash tx_data height get_block_data position tx
              (entries, s))
            _ h in
        apply_transactions-Follows before (position + 1) txs more entries' s' t
          (apply_transaction-Follows before position tx entries more s s' x e) r

    batch_first-Follows :
        (block : Block) (entries : List TxEntry) (s t : LiveSnapshot sdb)
        → IsState sdb codec laws s
        → batch_first sdb codec btc hash tx_data height get_block_data block s ≡ ok (entries, t)
        → Follows sdb codec laws s t
    batch_first-Follows block entries s t w h =
        elim (Bool-cases (sub_u32 height 1 % rollout_block_interval == 0)) [
          | inl due ↦ apply_rollout_batch-Follows block entries s t w (rw due at h)
          | inr early ↦
              let at : s ≡ t = cc (rw early at h) in rw (← at) (Follows-refl sdb codec laws s w)
        ]

    -- A block that is applied connects to the tip: its parent is the tip and its height is the next.
    -- On a well-formed state, a successful run makes the block the tip and leaves a well-formed state
    -- over the same database, with changes that start from the same version.
    pub apply_block-Advances :
        (block_hash : List ℕ) (block : Block) (meta : Option BlockMeta) (s t : LiveSnapshot sdb)
        → IsState sdb codec laws s
        → apply_block sdb codec btc hash tx_data height get_block_data block_hash block s
          ≡ ok (meta, t)
        → (s.tip.hash ≡ block.prev_blockhash)
          × (add_u32 s.tip.height 1 ≡ height)
          × (t.tip ≡ record { hash = block_hash; height = height })
          × (t.db ≡ s.db)
          × (t.staged.snapshot_version ≡ s.staged.snapshot_version)
          × IsState sdb codec laws t
    unfolding apply_block
    apply_block-Advances block_hash block meta s t w h =
        elim (Bool-cases (connects s.tip height block)) [
          | inr apart ↦ absurd (cc (rw (apply_block, apart) at h))
          | inl joined ↦
              let ((entries, s₁), e₁, h₁) =
                >>=-eq-ok (batch_first sdb codec btc hash tx_data height get_block_data block s) _
                  (rw (apply_block, joined) at h) in
              let ((more, s₂), e₂, h₂) =
                >>=-eq-ok
                  (apply_transactions sdb codec btc hash tx_data height get_block_data 0
                    block.txdata (entries, s₁))
                  _ h₁ in
              let x =
                apply_transactions-Follows s 0 block.txdata entries more s₁ s₂
                  (batch_first-Follows block entries s s₁ w e₁) e₂ in
              let at : record s₂ { tip = record { hash = block_hash; height = height } } ≡ t =
                ground (arith, h₂) in
              let (same, next) =
                connects-parts sdb codec btc hash tx_data height get_block_data s.tip block
                  joined in
              (
                same,
                next,
                rw (← at) refl,
                rw (← at) x.same_db,
                rw (← at) x.same_version,
                rw (← at) (record { sorted = x.state.sorted; fresh = x.state.fresh }),
              )
        ]
