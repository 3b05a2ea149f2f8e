-- ===== src/Validate/Batch.antt =====
-- What a rollout does to the entries of its batch.
use spaced.Base.{
  ◌^◌, ◌%◌, ◌+◌, ℕ, ◌≤◌, ◌≡◌, inl, inr, refl, true, Option-cases, List, [], ◌∷◌, ◌++◌, none, some,
  ok, >>=-eq-ok, arith, expect, assert, leb, length, All,
}
use mathlib.Core.List.{append-nil, append_assoc}
use spaced.Base.Loop.{for_each}
use spaced.Bitcoin.{Bitcoin, Transaction}
use spaced.Spaces.{Space, FullSpaceOut, Covenant, bid, transfer, reserved, Bid}
use spaced.Spaces.Constants.{rollout_batch_size}
use spaced.Validate.{rolled_out, no_changes, TxChangeSet, UpdateOut, push_update}
use spaced.Validate.Cases.{expect-ok, assert-ok}
use spaced.Validate.Rollout.{rollout, rollout_entry, rolling}

-- The update of an entry: its priority is the total that has been burned. The output stays as it is, and
-- so do the name and the bid of the space, but that the auction ends in 1440 blocks.
pub record IsRolled (height : ℕ) (entry : FullSpaceOut) (space : Space) (b : Bid) (u : UpdateOut)
    : Type 0 where
  pub priority : u.kind ≡ rolled_out b.total_burned
  pub same_tx : u.output.txid ≡ entry.txid
  pub same_index : u.output.spaceout.n ≡ entry.spaceout.n
  pub same_value : u.output.spaceout.value ≡ entry.spaceout.value
  pub same_script : u.output.spaceout.script_pubkey ≡ entry.spaceout.script_pubkey
  pub ends :
      u.output.spaceout.space
      ≡ some (record {
        name = space.name;
        covenant = bid (record {
          burn_increment = b.burn_increment;
          signature = b.signature;
          total_burned = b.total_burned;
          claim_height = some ((height + 1440) % 2 ^ 32);
        });
      })

-- The entries of a batch and the updates for them, one by one.
abbrev pub Rolls : ℕ → List FullSpaceOut → List UpdateOut → Type 0
Rolls height [] updates = updates ≡ []
Rolls height (entry ∷ entries) updates =
    (space : Space) × (b : Bid) × (u : UpdateOut) × (rest : List UpdateOut) × (entry.spaceout.space
      ≡ some space)
    × (space.covenant ≡ bid b)
    × (b.claim_height ≡ none)
    × (updates ≡ u ∷ rest)
    × IsRolled height entry space b u
    × Rolls height entries rest

-- The entry is a space in the pre-auction.
abbrev pub IsWaiting : FullSpaceOut → Type 0
IsWaiting entry =
    (space : Space) × (b : Bid) × (entry.spaceout.space ≡ some space)
    × (space.covenant ≡ bid b)
    × (b.claim_height ≡ none)

covenant-waits :
    (height : ℕ) (entry : FullSpaceOut) (space : Space) (c : Covenant) (cs cs' : TxChangeSet)
    → entry.spaceout.space ≡ some space
    → space.covenant ≡ c
    → rollout_entry height entry cs ≡ ok cs'
    → (b : Bid) × (c ≡ bid b)
      × (b.claim_height ≡ none)
      × (cs' ≡ push_update (rolling height entry space b) cs)
unfolding rollout_entry
covenant-waits height entry space (bid b) cs cs' e c h = elim (Option-cases b.claim_height) [
  | inl waiting ↦ (b, refl, waiting, ground (arith, h, e, c, waiting))
  | inr (claim, begun) ↦ absurd (ground (arith, h, e, c, begun))
]
covenant-waits height entry space (transfer x y) cs cs' e c h = absurd (ground (arith, h, e, c))
covenant-waits height entry space reserved cs cs' e c h = absurd (ground (arith, h, e, c))

entry-space :
    (height : ℕ) (entry : FullSpaceOut) (cs cs' : TxChangeSet)
    → rollout_entry height entry cs ≡ ok cs'
    → (space : Space) × (entry.spaceout.space ≡ some space)
unfolding rollout_entry
entry-space height entry cs cs' h =
    let (space, e, _) = >>=-eq-ok (expect entry.spaceout.space) _ h in
    (space, expect-ok entry.spaceout.space e)

loop-Rolls :
    (height : ℕ) (entries : List FullSpaceOut) (cs cs' : TxChangeSet)
    → for_each (rollout_entry height) entries cs ≡ ok cs'
    → (rest : List UpdateOut) × (cs' ≡ record cs { updates = cs.updates ++ rest })
      × Rolls height entries rest
unfolding for_each
loop-Rolls height [] cs cs' h = ([], ground (arith, h, append-nil cs.updates), refl)
loop-Rolls height (entry ∷ entries) cs cs' h =
    let (cs₁, r, k) = >>=-eq-ok (rollout_entry height entry cs) _ h in
    let (space, there) = entry-space height entry cs cs₁ r in
    let (b, c, waits, e₁) = covenant-waits height entry space space.covenant cs cs₁ there refl r in
    let (rest, e₂, rolls) = loop-Rolls height entries cs₁ cs' k in
    let u = rolling height entry space b in
    (
      u ∷ rest,
      ground (arith, e₁, e₂, append_assoc cs.updates (u ∷ []) rest),
      (
        space,
        b,
        u,
        rest,
        there,
        c,
        waits,
        refl,
        record {
          priority = refl;
          same_tx = refl;
          same_index = refl;
          same_value = refl;
          same_script = refl;
          ends = refl;
        },
        rolls,
      ),
    )

-- A rollout that succeeds is of a coinbase transaction and of ten spaces at most, all of them in the
-- pre-auction. Its change set has one update for each, in order: the total burned as the priority,
-- and the same output and space with the end of the auction set to 1440 blocks ahead, modulo 2 ^ 32.
pub rollout-Rolls :
    (btc : Bitcoin) (height : ℕ) (coinbase : Transaction) (entries : List FullSpaceOut)
    (cs : TxChangeSet)
    → rollout btc height coinbase entries ≡ ok cs
    → (btc.is_coinbase coinbase ≡ true)
      × (length entries ≤ rollout_batch_size)
      × (cs.spends ≡ [])
      × (cs.creates ≡ [])
      × Rolls height entries cs.updates
unfolding rollout
rollout-Rolls btc height coinbase entries cs h =
    let (_, e₁, h₁) = >>=-eq-ok (assert (btc.is_coinbase coinbase)) _ h in
    let (_, e₂, h₂) = >>=-eq-ok (assert (leb (length entries) rollout_batch_size)) _ h₁ in
    let (rest, e, rolls) =
      loop-Rolls height entries (no_changes (btc.compute_txid coinbase)) cs h₂ in
    let small = assert-ok (leb (length entries) rollout_batch_size) (cc e₂) in
    (
      assert-ok (btc.is_coinbase coinbase) (cc e₁),
      ground (arith, small),
      ground (arith, e),
      ground (arith, e),
      rw e rolls,
    )

entry_total :
    (height : ℕ) (entry : FullSpaceOut) (cs : TxChangeSet)
    → IsWaiting entry
    → (cs' : TxChangeSet) × (rollout_entry height entry cs ≡ ok cs')
unfolding rollout_entry
entry_total height entry cs (space, b, there, c, waits) =
    (push_update (rolling height entry space b) cs, ground (arith, there, c, waits))

loop_total :
    (height : ℕ) (entries : List FullSpaceOut) (cs : TxChangeSet)
    → All IsWaiting entries
    → (cs' : TxChangeSet) × (for_each (rollout_entry height) entries cs ≡ ok cs')
unfolding for_each
loop_total height [] cs w = (cs, refl)
loop_total height (entry ∷ entries) cs (w, ws) =
    let (cs₁, e) = entry_total height entry cs w in
    let (cs₂, k) = loop_total height entries cs₁ ws in (cs₂, rw e k)

-- A rollout of ten spaces at most in the pre-auction, on a coinbase transaction, does not panic.
pub rollout_total :
    (btc : Bitcoin) (height : ℕ) (coinbase : Transaction) (entries : List FullSpaceOut)
    → btc.is_coinbase coinbase ≡ true
    → length entries ≤ rollout_batch_size
    → All IsWaiting entries
    → (cs : TxChangeSet) × (rollout btc height coinbase entries ≡ ok cs)
unfolding rollout
rollout_total btc height coinbase entries is small waits =
    let (cs, e) = loop_total height entries (no_changes (btc.compute_txid coinbase)) waits in
    let fits : leb (length entries) rollout_batch_size ≡ true = ground (arith, small) in
    (cs, rw (is, fits) e)
