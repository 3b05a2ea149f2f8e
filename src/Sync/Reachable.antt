-- ===== src/Sync/Reachable.antt =====
-- What holds of the state whenever a block arrives.
use spaced.Sync.Restored.{restore_chain-newest}
use spaced.Spaces.Constants.{rollout_block_interval}
use spaced.Validate.{add_u32}
use spaced.Store.Refines.{commit-parts}
use spaced.Node.Advance.{apply_block-tip}
use spaced.Sync.{
  expect_ok, commit_index, commit_state, save_result, commit_block_interval, restore_chain,
  handle_block, commit_block, Spaced,
}
use spaced.Base.{
  refl, false, ◌^◌, ◌<◌, ap, inl, arith, inr, is_some, [], ◌==◌, >>=-eq-ok, ◌%◌, Bool-cases, Result,
  ok, ◌≡◌, ChainAnchor, Bool, ℕ, List,
}
use spaced.Node.Block.{sub_u32, apply_block, Block, BlockMeta}
use spaced.Keys.{KeyHasher}
use spaced.Bitcoin.{Bitcoin}
use spaced.Store.{is_dirty, Staged, Codec, Spacedb}

module _ (sdb : Spacedb) (codec : Codec) (btc : Bitcoin) (hash : KeyHasher)
    (encode_block : BlockMeta → List ℕ) (tx_data : Bool) where
  -- An event of the synchronisation: a block of the fetcher, or a mismatch.
  pub data Step : Spaced sdb → Spaced sdb → Type 0 where
    block_event :
        (id : ChainAnchor) (block : Block) (s t : Spaced sdb)
        → handle_block sdb codec btc hash encode_block tx_data id block s ≡ ok t
        → Step s t
    mismatch_event :
        (get_block_hash : ℕ → Result (List ℕ)) (s t : Spaced sdb)
        → restore_chain sdb codec get_block_hash s ≡ ok t
        → Step s t

  pub data Reach (start : Spaced sdb) : Spaced sdb → Type 0 where
    at_start : Reach start start
    after : (s t : Spaced sdb) → Reach start s → Step s t → Reach start t

  -- Nothing is staged at the heights of the commits.
  abbrev pub IsAligned : Spaced sdb → Type 0
  IsAligned s = s.chain.tip.height % commit_block_interval ≡ 0 → s.chain.staged.memory ≡ []

  commit_block-IsAligned :
      (id : ChainAnchor) (s t : Spaced sdb)
      → s.chain.tip ≡ id
      → commit_block sdb codec id s ≡ ok t
      → IsAligned t
  unfolding commit_block
  commit_block-IsAligned id s t tip h = elim (Bool-cases (id.height % commit_block_interval == 0)) [
    | inr early ↦
        let at : s ≡ t = cc (rw (commit_block, early) at h) in
        rw (← at)
          (λ e. absurd (ground (arith, early, ap (λ a. a.height % commit_block_interval) tip, e)))
    | inl due ↦
        let (chain, e₁, h₁) =
          >>=-eq-ok (commit_state sdb codec id s.chain) _ (rw (commit_block, due) at h) in
        let (index, e₂, h₂) = >>=-eq-ok (commit_index sdb codec id s.block_index) _ h₁ in
        let (tx, e₃, h₃) = >>=-eq-ok (expect_ok (sdb.begin_write s.chain.db)) _ e₁ in
        let (snap, staged) = commit-parts sdb codec id tx s.chain chain h₃ in
        let at : record { chain = chain; block_index = index } ≡ t = ground (arith, h₂) in
        rw (← at) (λ e. ap Staged.memory staged)
  ]

  handle_block-IsAligned :
      (id : ChainAnchor) (block : Block) (s t : Spaced sdb)
      → handle_block sdb codec btc hash encode_block tx_data id block s ≡ ok t
      → IsAligned t
  unfolding handle_block
  handle_block-IsAligned id block s t h =
      let ((result, chain), e₁, h₁) =
        >>=-eq-ok
          (apply_block sdb codec btc hash tx_data id.height (is_some s.block_index) id.hash block
            s.chain)
          _ h in
      let (index, e₂, h₂) =
        >>=-eq-ok (save_result sdb codec encode_block id.hash result s.block_index) _ h₁ in
      commit_block-IsAligned id (record { chain = chain; block_index = index }) t
        (apply_block-tip sdb codec btc hash tx_data id.height (is_some s.block_index) id.hash block
          result s.chain chain e₁)
        h₂

  Reach-IsAligned :
      (start s : Spaced sdb) → start.chain.staged.memory ≡ [] → Reach start s → IsAligned s
  Reach-IsAligned start s clean at_start = λ e. clean
  Reach-IsAligned start t clean (after s _ run (block_event id block _ _ h)) =
      handle_block-IsAligned id block s t h
  Reach-IsAligned start t clean (after s _ run (mismatch_event get_block_hash _ _ h)) =
      λ e. ap Staged.memory (restore_chain-newest sdb codec get_block_hash s t h).staged

  -- Whenever a block arrives that is due a rollout, after any run that began with nothing staged, the
  -- state has no staged changes, as the rollout asserts. Heights are of 32 bits.
  pub rollout_starts_clean :
      (start s : Spaced sdb) (id : ChainAnchor)
      → start.chain.staged.memory ≡ []
      → Reach start s
      → s.chain.tip.height < 2 ^ 32
      → add_u32 s.chain.tip.height 1 ≡ id.height
      → sub_u32 id.height 1 % rollout_block_interval ≡ 0
      → is_dirty s.chain ≡ false
  unfolding is_dirty
  rollout_starts_clean start s id clean run small next due =
      rw (Reach-IsAligned start s clean run (omega (arith, small, next, due))) refl
