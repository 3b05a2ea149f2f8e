-- ===== src/Wallet/Bidouts.antt =====
-- The outputs that the wallet lists for bids.
use spaced.Prepare.{is_magic_lock_time, is_magic_output}
use spaced.Validate.{add_u32}
use spaced.Bitcoin.{outpoint_eq, LockTime}
use spaced.Base.{
  none, ◌||◌, bytes_eq→eq, ◌&&◌, not, refl, true, ◌<◌, suc, ◌%◌, inr, arith, inl, some, get_elem?,
  false, [], Bool-cases, ◌≡◌, ◌∷◌, any, All, Option, ℕ, List,
}
use spaced.Wallet.{
  is_internal, list_bidouts, has_magic_lock_time, is_pair, pairs, KeychainKind, dust_threshold,
  external, internal, double_utxo, DoubleUtxo, output_lt, SpacesAwareCoinSelection, insert_sorted,
  sort_outputs, LocalOutput,
}

-- What a wallet of the protocol can rely on: the two outputs are unspent outputs of one transaction
-- that the protocol tracks, the connector comes first at an even index and the auctioned output is the
-- next, both are small, and neither is excluded as a space.
pub record IsBidout (lock_time : List ℕ → Option LockTime) (unspent : List LocalOutput)
    (selection : SpacesAwareCoinSelection) (d : DoubleUtxo) : Type 0 where
  pub connector : LocalOutput
  pub auctioned : LocalOutput
  pub connector_unspent : (i : ℕ) × (get_elem? unspent i ≡ some connector)
  pub auctioned_unspent : (i : ℕ) × (get_elem? unspent i ≡ some auctioned)
  pub parts : d ≡ double_utxo connector auctioned
  pub same_tx : connector.outpoint.txid ≡ auctioned.outpoint.txid
  pub even : connector.outpoint.vout % 2 ≡ 0
  pub next : auctioned.outpoint.vout ≡ add_u32 connector.outpoint.vout 1
  pub internal_first : connector.keychain ≡ internal
  pub external_next : auctioned.keychain ≡ external
  pub small : connector.txout.value < dust_threshold
  pub small_next : auctioned.txout.value < dust_threshold
  pub tracked : is_magic_output auctioned.txout ≡ true
  pub lock :
      (l : LockTime) × (lock_time auctioned.outpoint.txid ≡ some l) × (is_magic_lock_time l ≡ true)
  pub confirmed : (not selection.confirmed_only || d.confirmed) ≡ true
  pub not_spaces :
      any
        (λ sel.
          sel.is_space
          && (outpoint_eq sel.outpoint connector.outpoint
              || outpoint_eq sel.outpoint auctioned.outpoint))
        selection.exclude_outputs
      ≡ false

module _ {ℓ} (P : LocalOutput → Type ℓ) where
  insert_sorted-All :
      (u : LocalOutput) (us : List LocalOutput) → P u → All P us → All P (insert_sorted u us)
  unfolding insert_sorted
  insert_sorted-All u [] p a = (p, tt)
  insert_sorted-All u (v ∷ vs) p (q, a) = elim (Bool-cases (output_lt v u)) [
    | inl below ↦ rw below (q, insert_sorted-All u vs p a)
    | inr above ↦ rw above (p, (q, a))
  ]

  sort_outputs-All : (us : List LocalOutput) → All P us → All P (sort_outputs us)
  unfolding sort_outputs
  sort_outputs-All [] a = tt
  sort_outputs-All (u ∷ us) (p, a) = insert_sorted-All u (sort_outputs us) p (sort_outputs-All us a)

-- Every element of a list is in it.
abbrev IsIn : List LocalOutput → LocalOutput → Type 0
IsIn us u = (i : ℕ) × (get_elem? us i ≡ some u)

All-weaken :
    (v : LocalOutput) (us vs : List LocalOutput) → All (IsIn us) vs → All (IsIn (v ∷ us)) vs
All-weaken v us [] a = tt
All-weaken v us (w ∷ vs) ((i, e), a) = ((suc i, e), All-weaken v us vs a)

All-IsIn : (us : List LocalOutput) → All (IsIn us) us
All-IsIn [] = tt
All-IsIn (u ∷ us) = ((0, refl), All-weaken u us us (All-IsIn us))

is_internal-true : (k : KeychainKind) → is_internal k ≡ true → k ≡ internal
is_internal-true external h = absurd (cc h)
is_internal-true internal h = refl

is_internal-false : (k : KeychainKind) → is_internal k ≡ false → k ≡ external
is_internal-false external h = refl
is_internal-false internal h = absurd (cc h)

module _ (lock_time : List ℕ → Option LockTime) (unspent : List LocalOutput)
    (selection : SpacesAwareCoinSelection) where
  locked :
      (l : Option LockTime)
      → has_magic_lock_time l ≡ true
      → (k : LockTime) × (l ≡ some k) × (is_magic_lock_time k ≡ true)
  locked none h = absurd (cc h)
  locked (some k) h = (k, refl, h)

  pair-IsBidout :
      (u v : LocalOutput)
      → IsIn unspent u
      → IsIn unspent v
      → is_pair selection u v ≡ true
      → has_magic_lock_time (lock_time v.outpoint.txid) ≡ true
      → IsBidout lock_time unspent selection (double_utxo u v)
  unfolding is_pair
  pair-IsBidout u v pu pv h l = record {
    connector = u;
    auctioned = v;
    connector_unspent = pu;
    auctioned_unspent = pv;
    parts = refl;
    same_tx = bytes_eq→eq u.outpoint.txid v.outpoint.txid (ground (arith, h));
    even = ground (arith, h);
    next = ground (arith, h);
    internal_first = is_internal-true u.keychain (ground (arith, h));
    external_next = is_internal-false v.keychain (ground (arith, h));
    small = ground (arith, h);
    small_next = ground (arith, h);
    tracked = ground (arith, h);
    lock = locked (lock_time v.outpoint.txid) l;
    confirmed = ground (arith, h);
    not_spaces = ground (arith, h);
  }

  pairs-IsBidout :
      (us : List LocalOutput)
      → All (IsIn unspent) us
      → All (IsBidout lock_time unspent selection) (pairs lock_time selection us)
  unfolding pairs
  pairs-IsBidout [] a = tt
  pairs-IsBidout (u ∷ []) a = tt
  pairs-IsBidout (u ∷ v ∷ us) (pu, (pv, a)) =
      elim (Bool-cases (is_pair selection u v && has_magic_lock_time (lock_time v.outpoint.txid))) [
        | inr apart ↦ rw apart (pairs-IsBidout (v ∷ us) (pv, a))
        | inl joined ↦ rw joined (
          pair-IsBidout u v pu pv (ground (arith, joined)) (ground (arith, joined)),
          pairs-IsBidout (v ∷ us) (pv, a),
        )
      ]

  -- Every pair that the wallet lists for a bid is made of two unspent outputs of one transaction with
  -- the lock time of the protocol: the connector at an even index from the internal keychain, and the
  -- auctioned output, which the protocol tracks, next to it from the external one. Both are below the
  -- threshold of dust, neither is excluded as a space, and the connector is confirmed where the
  -- selection asks for it.
  pub list_bidouts-IsBidout :
      All (IsBidout lock_time unspent selection) (list_bidouts lock_time unspent selection)
  list_bidouts-IsBidout =
      pairs-IsBidout (sort_outputs unspent)
        (sort_outputs-All (IsIn unspent) unspent (All-IsIn unspent))
