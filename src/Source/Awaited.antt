-- ===== src/Source/Awaited.antt =====
-- The replies to a broadcast, and the wait for the entry of its transaction.
use spaced.Source.{await_entry, error_for_rpc, JsonRpcResponse, RpcResult}
use spaced.Base.{
  rpc, ◌≢◌, sym, JsonRpcError, panic, err, zero, ◌∙◌, ap, ==_iff, ◌==◌, some, Bool-cases, refl, ◌⊎◌,
  suc, inr, arith, none, ◌+◌, ok, inl, Option, ◌<◌, ◌≡◌, ◌≤◌, BitcoinRpcError, ℕ,
}

-- What a call ends with: an error, a reply without result or error, or a result.
module _ {A : Type 0} where
  abbrev pub IsEmpty : RpcResult (JsonRpcResponse A) → Type 0
  IsEmpty reply = reply ≡ inr (record { result = none; error = none })

  abbrev pub Gives : A → RpcResult (JsonRpcResponse A) → Type 0
  Gives a reply = reply ≡ inr (record { result = some a; error = none })

  Gives-runs :
      {a : A} (reply : RpcResult (JsonRpcResponse A))
      → Gives a reply
      → error_for_rpc reply ≡ ok (inr a)
  unfolding error_for_rpc
  Gives-runs reply g = rw g refl

  IsEmpty-runs :
      (reply : RpcResult (JsonRpcResponse A)) → IsEmpty reply → error_for_rpc reply ≡ err panic
  unfolding error_for_rpc
  IsEmpty-runs reply hit = rw hit refl

  pub data Replies (reply : RpcResult (JsonRpcResponse A)) : Type 0 where
    fails : (e : BitcoinRpcError) → error_for_rpc reply ≡ ok (inl e) → Replies reply
    lacks : IsEmpty reply → error_for_rpc reply ≡ err panic → Replies reply
    gives : (a : A) → Gives a reply → error_for_rpc reply ≡ ok (inr a) → Replies reply

  parts-Replies :
      (result : Option A) (error : Option JsonRpcError)
      → Replies (inr (record { result = result; error = error }))
  unfolding error_for_rpc
  parts-Replies result (some e) = fails (rpc e) refl
  parts-Replies none none = lacks refl refl
  parts-Replies (some a) none = gives a refl refl

  pub all-Replies : (reply : RpcResult (JsonRpcResponse A)) → Replies reply
  unfolding error_for_rpc
  all-Replies (inl e) = fails e refl
  all-Replies (inr reply) = parts-Replies reply.result reply.error

-- When the wait for an entry panics.
module _ (entry : ℕ → RpcResult (JsonRpcResponse (Option ℕ))) where
  -- The reply has a result, which has no time.
  abbrev pub IsTimeless : ℕ → Type 0
  IsTimeless i = Gives none (entry i)

  -- Some reply is and no earlier one has a time.
  abbrev pub IsCutOff : ℕ → ℕ → Type 0
  IsCutOff start end =
      (j : ℕ) × (start ≤ j)
      × (j < end)
      × IsEmpty (entry j)
      × ((i : ℕ) → start ≤ i → i < j → (time : ℕ) → ¬ Gives (some time) (entry i))

  -- No reply has a time at `start`, so that what cuts the calls after it off cuts off those from it on.
  IsCutOff-later :
      (left start : ℕ)
      → ((time : ℕ) → ¬ Gives (some time) (entry start))
      → IsCutOff (start + 1) (start + 1 + left)
      → IsCutOff start (start + suc left)
  IsCutOff-later left start away (j, p, q, hit, before) = (
    j,
    omega (arith, p),
    omega (arith, q),
    hit,
    λ i low high time g. elim (Bool-cases (i == start)) [
      | inl same ↦ away time (ap entry (sym ((==_iff i start).0 same)) ∙ g)
      | inr apart ↦ before i (ground (arith, low, apart)) high time g
    ],
  )

  pub await_entry-cases :
      (left start : ℕ) (last : Option BitcoinRpcError)
      → await_entry entry left start last ≡ err panic
      → IsCutOff start (start + left)
        ⊎ ((last ≡ none) × ((j : ℕ) → start ≤ j → j < start + left → IsTimeless j))
  unfolding await_entry
  await_entry-cases zero start none h = inr (refl, λ j p q. absurd (omega (arith, p, q)))
  await_entry-cases zero start (some e) h = absurd (cc h)
  await_entry-cases (suc left) start last h =
      go (await_entry-cases left (start + 1)) (all-Replies (entry start))
    where
      go :
          ((last : Option BitcoinRpcError)
            → await_entry entry left (start + 1) last ≡ err panic
            → IsCutOff (start + 1) (start + 1 + left)
              ⊎ ((last ≡ none) × ((j : ℕ) → start + 1 ≤ j → j < start + 1 + left → IsTimeless j)))
          → Replies (entry start)
          → IsCutOff start (start + suc left)
            ⊎ ((last ≡ none) × ((j : ℕ) → start ≤ j → j < start + suc left → IsTimeless j))
      go ih (lacks hit _) =
          inl
            (start, omega arith, omega arith, hit, λ i low high. absurd (omega (arith, low, high)))
      go ih (fails e run) = elim (ih (some e) (rw (await_entry, run) at h)) [
        | inl cut ↦
            inl (IsCutOff-later left start (λ time g. cc (Gives-runs (entry start) g, run)) cut)
        | inr (never, _) ↦ absurd (cc never)
      ]
      go ih (gives (some time) g run) = absurd (cc (rw (await_entry, run) at h))
      go ih (gives none g run) = elim (ih last (rw (await_entry, run) at h)) [
        | inl cut ↦ inl (IsCutOff-later left start (λ time g'. cc (g, g')) cut)
        | inr (same, later) ↦ inr (
          same,
          λ j p q. elim (Bool-cases (j == start)) [
            | inl at ↦ ap entry ((==_iff j start).0 at) ∙ g
            | inr apart ↦ later j (ground (arith, p, apart)) (omega (arith, q))
          ],
        )
      ]

  pub cut_off-await_entry :
      (left start : ℕ) (last : Option BitcoinRpcError)
      → IsCutOff start (start + left)
      → await_entry entry left start last ≡ err panic
  unfolding await_entry
  cut_off-await_entry zero start last (j, p, q, _, _) = absurd (omega (arith, p, q))
  cut_off-await_entry (suc left) start last (j, p, q, hit, before) =
      go (cut_off-await_entry left (start + 1)) (all-Replies (entry start))
    where
      later : error_for_rpc (entry start) ≢ err panic → IsCutOff (start + 1) (start + 1 + left)
      later runs = elim (Bool-cases (j == start)) [
        | inl at ↦ absurd (runs (cc (ap entry ((==_iff j start).0 at), IsEmpty-runs (entry j) hit)))
        | inr apart ↦ (
          j,
          ground (arith, p, apart),
          omega (arith, q),
          hit,
          λ i low high. before i (omega (arith, low)) high,
        )
      ]

      go :
          ((last : Option BitcoinRpcError)
            → IsCutOff (start + 1) (start + 1 + left)
            → await_entry entry left (start + 1) last ≡ err panic)
          → Replies (entry start)
          → await_entry entry (suc left) start last ≡ err panic
      go ih (lacks _ run) = rw (await_entry, run) refl
      go ih (fails e run) = rw (await_entry, run) (ih (some e) (later (λ stop. cc (run, stop))))
      go ih (gives none g run) = rw (await_entry, run) (ih last (later (λ stop. cc (run, stop))))
      go ih (gives (some time) g run) = elim (Bool-cases (j == start)) [
        | inl at ↦ absurd (cc (ap entry ((==_iff j start).0 at), hit, g))
        | inr apart ↦ absurd (before start (omega arith) (ground (arith, p, apart)) time g)
      ]

  pub timeless-await_entry :
      (left start : ℕ)
      → ((j : ℕ) → start ≤ j → j < start + left → IsTimeless j)
      → await_entry entry left start none ≡ err panic
  unfolding await_entry error_for_rpc
  timeless-await_entry zero start h = refl
  timeless-await_entry (suc left) start h =
      rw (await_entry, h start (omega arith) (omega arith))
        (timeless-await_entry left (start + 1) (λ j p q. h j (omega (arith, p)) (omega (arith, q))))
