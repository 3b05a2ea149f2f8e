-- ===== src/Node/Listing.antt =====
-- The batch of a rollout is made of the greatest bid keys that the database holds.
use spaced.Spaces.{FullSpaceOut}
use spaced.Node.Block.{push_found, load_entry, rollout_next, load_batch}
use spaced.Bitcoin.{Bitcoin}
use spaced.Store.{LiveSnapshot, Codec, Spacedb}
use spaced.Keys.Kinds.{bid_key_is_valid_lem}
use spaced.Keys.Order.{bytes_lt_irrefl, bytes_lt_trans, bid_keys_last, bytes_lt}
use spaced.Keys.Bytes.{IsHash}
use spaced.Keys.{KeyHasher, bid_key, outpoint_key, space_key, bid_key_is_valid, Hash}
use spaced.Base.{
  ◌∙◌, ap, >>=-cong, zero, ◌>>=◌, suc, take, map, Result, inl, replicate, if◌then◌else◌, refl, [],
  ◌∷◌, inr, ◌⊎◌, true, false, err, ◌≡◌, ok, ℕ, Bool, List,
}

-- The keys that the code stores.
pub data IsStored : Hash → Type 0 where
  name_key : (h : Hash) → IsHash h → IsStored (space_key h)
  out_key : (h : Hash) → IsHash h → IsStored (outpoint_key h)
  pool_key : (value : ℕ) (h : Hash) → IsStored (bid_key value h)

-- The database lists its entries by descending key.
abbrev pub Descends : List (Hash × List ℕ) → Type 0
Descends [] = Unit
Descends ((k, v) ∷ []) = IsStored k
Descends ((k, v) ∷ (j, w) ∷ es) = IsStored k × (bytes_lt j k ≡ true) × Descends ((j, w) ∷ es)

abbrev pub is_bid : Hash → Bool
is_bid key = elim (bid_key_is_valid key) [ ok valid ↦ valid | err _ ↦ false ]

-- The entries of the pool, in their order.
abbrev pub pool : List (Hash × List ℕ) → List (Hash × List ℕ)
pool [] = []
pool ((k, v) ∷ es) = let rest = pool es in if is_bid k then (k, v) ∷ rest else rest

abbrev zeros : Hash
zeros = replicate 32 0

zeros-IsHash : IsHash zeros
zeros-IsHash = record { size = refl; bytes = refl }

-- A key is a bid key, or smaller than every bid key.
stored-cases :
    (k : Hash)
    → IsStored k
    → (bid_key_is_valid k ≡ ok true)
      ⊎ ((bid_key_is_valid k ≡ ok false)
          × ((value : ℕ) (g : Hash) → bytes_lt k (bid_key value g) ≡ true))
stored-cases k (name_key h v) =
    inr ((bid_key_is_valid_lem 0 h h h v v).1, λ value g. (bid_keys_last value g h v).0)
stored-cases k (out_key h v) =
    inr ((bid_key_is_valid_lem 0 h h h v v).2, λ value g. (bid_keys_last value g h v).1)
stored-cases k (pool_key value h) =
    inl (bid_key_is_valid_lem value zeros zeros h zeros-IsHash zeros-IsHash).0

-- Below a key that is no bid key there is none.
not_bid-below :
    (k j : Hash)
    → bid_key_is_valid k ≡ ok false
    → ((value : ℕ) (g : Hash) → bytes_lt k (bid_key value g) ≡ true)
    → IsStored j
    → bytes_lt j k ≡ true
    → bid_key_is_valid j ≡ ok false
not_bid-below k j out last (name_key h v) lt = (bid_key_is_valid_lem 0 h h h v v).1
not_bid-below k j out last (out_key h v) lt = (bid_key_is_valid_lem 0 h h h v v).2
not_bid-below k j out last (pool_key value h) lt = absurd (
    cc (
      bytes_lt_trans (bid_key value h) k (bid_key value h) lt (last value h),
      bytes_lt_irrefl (bid_key value h),
    ))

Descends-head :
    (k : Hash) (v : List ℕ) (es : List (Hash × List ℕ)) → Descends ((k, v) ∷ es) → IsStored k
Descends-head k v [] st = st
Descends-head k v ((j, w) ∷ es) (st, lt, d) = st

Descends-tail :
    (k : Hash) (v : List ℕ) (es : List (Hash × List ℕ)) → Descends ((k, v) ∷ es) → Descends es
Descends-tail k v [] st = tt
Descends-tail k v ((j, w) ∷ es) (st, lt, d) = d

pool-bid :
    (k : Hash) (v : List ℕ) (es : List (Hash × List ℕ))
    → bid_key_is_valid k ≡ ok true
    → pool ((k, v) ∷ es) ≡ (k, v) ∷ pool es
pool-bid k v es valid = rw (pool, is_bid, valid) refl

pool-other :
    (k : Hash) (v : List ℕ) (es : List (Hash × List ℕ))
    → bid_key_is_valid k ≡ ok false
    → pool ((k, v) ∷ es) ≡ pool es
pool-other k v es out = rw (pool, is_bid, out) refl

-- Past a key that is no bid key the pool is empty.
pool-below :
    (k : Hash) (v : List ℕ) (es : List (Hash × List ℕ))
    → Descends ((k, v) ∷ es)
    → bid_key_is_valid k ≡ ok false
    → ((value : ℕ) (g : Hash) → bytes_lt k (bid_key value g) ≡ true)
    → pool es ≡ []
pool-below k v [] d out last = refl
pool-below k v ((j, w) ∷ es) (st, lt, d) out last =
    let away = not_bid-below k j out last (Descends-head j w es d) lt in
    let rest =
      pool-below j w es d away
        (λ value g. bytes_lt_trans j k (bid_key value g) lt (last value g)) in
    pool-other j w es away ∙ rest

module _ (sdb : Spacedb) (codec : Codec) (btc : Bitcoin) (hash : KeyHasher) where
  -- The batch that is loaded from a list of entries.
  unfoldable pub load_entries :
      List (Hash × List ℕ) → LiveSnapshot sdb → Result (List FullSpaceOut × LiveSnapshot sdb)
  load_entries [] s = ok ([], s)
  load_entries ((k, raw) ∷ es) s = load_entry sdb codec btc hash raw s >>= λ (full, s').
      load_entries es s' >>= λ (outs, s''). ok (push_found sdb codec btc hash full outs, s'')

  -- On a listing of the database by descending key, the load of a batch of a size has the result and
  -- the effects of loading, in order, that many entries of the pool, those with the greatest keys.
  pub load_batch-pool :
      (size : ℕ) (es : List (Hash × List ℕ)) (s : LiveSnapshot sdb)
      → Descends es
      → load_batch sdb codec btc hash size (map ok es) s ≡ load_entries (take size (pool es)) s
  unfolding load_batch load_entries rollout_next
  load_batch-pool zero es s d = refl
  load_batch-pool (suc size) [] s d = refl
  load_batch-pool (suc size) ((k, raw) ∷ es) s d =
      elim (stored-cases k (Descends-head k raw es d)) [
        | inl valid ↦
            rw (pool-bid k raw es valid, load_batch, rollout_next, valid)
              (>>=-cong (load_entry sdb codec btc hash raw s)
                (λ p. load_batch sdb codec btc hash size (map ok es) p.1 >>= λ q.
                  ok (push_found sdb codec btc hash p.0 q.0, q.1))
                (λ p. load_entries (take size (pool es)) p.1 >>= λ q.
                  ok (push_found sdb codec btc hash p.0 q.0, q.1))
                (λ p.
                  ap (λ r. r >>= λ q. ok (push_found sdb codec btc hash p.0 q.0, q.1))
                    (load_batch-pool size es p.1 (Descends-tail k raw es d))))
        | inr (out, last) ↦
            rw
              (
                pool-other k raw es out,
                pool-below k raw es d out last,
                load_batch,
                rollout_next,
                out,
              )
              refl
      ]
