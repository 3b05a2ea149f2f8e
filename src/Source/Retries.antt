-- ===== src/Source/Retries.antt =====
-- Failed calls are repeated a bounded number of times.
use spaced.Source.Awaited.{
  await_entry-cases, IsTimeless, gives, IsCutOff, fails, Gives, lacks, IsEmpty,
  timeless-await_entry, Replies, cut_off-await_entry, all-Replies,
}
use spaced.Source.{
  error_for_rpc, JsonRpcResponse, broadcast_tx, max_retries, is_temporary, send_from, send_request,
  RpcResult,
}
use spaced.Base.{
  ◌↔◌, List, panic, err, zero, ◌∙◌, ap, ==_iff, ◌==◌, some, ◌-◌, ltb, Bool-cases, sum-cases, ◌&&◌,
  false, refl, ◌⊎◌, suc, true, inr, arith, none, ◌+◌, ok, inl, Option, ◌<◌, ◌≡◌, ◌≤◌,
  BitcoinRpcError, ℕ,
}

-- The first attempt from `start` on whose answer ends the loop, before `start + left`: all earlier ones
-- have failed for a while.
module _ {Response : Type 0} (send : ℕ → RpcResult Response) where
  abbrev pub IsTemporary : ℕ → Type 0
  IsTemporary i = (e : BitcoinRpcError) × (send i ≡ inl e) × (is_temporary e ≡ true)

  pub record Settles (clean : Response → RpcResult Response) (start left : ℕ)
      (r : RpcResult Response) : Type 0 where
    pub attempt : ℕ
    pub low : start ≤ attempt
    pub high : attempt < start + left
    pub earlier : (j : ℕ) → start ≤ j → j < attempt → IsTemporary j
    pub answer :
        ((res : Response) × (send attempt ≡ inr res) × (r ≡ clean res))
        ⊎ ((e : BitcoinRpcError) × (send attempt ≡ inl e)
            × (r ≡ inl e)
            × ((is_temporary e ≡ false) ⊎ (attempt ≡ 9)))

  for_good :
      (e : BitcoinRpcError) (start : ℕ)
      → (is_temporary e && ltb start (max_retries - 1)) ≡ false
      → start < 10
      → (is_temporary e ≡ false) ⊎ (start ≡ 9)
  for_good e start final small = elim (Bool-cases (is_temporary e)) [
    | inr lasting ↦ inl lasting
    | inl passing ↦ inr (ground (arith, final, passing, small))
  ]

  send_from-Settles :
      (clean : Response → RpcResult Response) (left start : ℕ) (o : Option BitcoinRpcError)
      → 1 ≤ left
      → start + left ≡ 10
      → (r : RpcResult Response) × (send_from send clean left start o ≡ ok r)
        × Settles clean start left r
  unfolding send_from
  send_from-Settles clean zero start o some_left whole = absurd (omega (arith, some_left))
  send_from-Settles clean (suc left) start o some_left whole = elim (sum-cases (send start)) [
    | inl (e, at) ↦ elim (Bool-cases (is_temporary e && ltb start (max_retries - 1))) [
      | inr final ↦ (
        inl e,
        rw (send_from, at, final) refl,
        record {
          attempt = start;
          low = omega arith;
          high = omega arith;
          earlier = λ j p q. absurd (omega (arith, p, q));
          answer = inr (e, at, refl, for_good e start final (omega (arith, whole)));
        },
      )
      | inl again ↦
          let (r, run, x) =
            send_from-Settles clean left (start + 1) (some e) (ground (arith, again, whole))
              (omega (arith, whole)) in
          (
            r,
            rw (send_from, at, again) run,
            record {
              attempt = x.attempt;
              low = omega (arith, x.low);
              high = omega (arith, x.high);
              earlier = λ j p q. elim (Bool-cases (j == start)) [
                | inl same ↦
                    let at_j = (==_iff j start).0 same in
                    (e, ap send at_j ∙ at, ground (arith, again))
                | inr apart ↦ x.earlier j (ground (arith, p, apart)) q
              ];
              answer = x.answer;
            },
          )
    ]
    | inr (res, at) ↦ (
      clean res,
      rw (send_from, at) refl,
      record {
        attempt = start;
        low = omega arith;
        high = omega arith;
        earlier = λ j p q. absurd (omega (arith, p, q));
        answer = inl (res, at, refl);
      },
    )
  ]

  -- A call is tried at most ten times and never panics: its result is that of the first attempt, of
  -- the ten, that succeeds or fails for good, or of the last one.
  pub send_request-Settles :
      (clean : Response → RpcResult Response)
      → (r : RpcResult Response) × (send_request send clean ≡ ok r) × Settles clean 0 10 r
  send_request-Settles clean = send_from-Settles clean 10 0 none (omega arith) refl

-- Why a broadcast panics: the reply to it is or it gives an identifier, and then one of the ten
-- replies for the entry is empty with no earlier one that has a time, or all ten lack a time.
abbrev pub Stops :
    RpcResult (JsonRpcResponse (List ℕ))
    → (List ℕ → ℕ → RpcResult (JsonRpcResponse (Option ℕ)))
    → Type 0
Stops sent entry =
    IsEmpty sent
    ⊎ ((txid : List ℕ) × Gives txid sent
        × (IsCutOff (entry txid) 0 10 ⊎ ((j : ℕ) → 0 ≤ j → j < 10 → IsTimeless (entry txid) j)))

panics→Stops :
    (sent : RpcResult (JsonRpcResponse (List ℕ)))
    (entry : List ℕ → ℕ → RpcResult (JsonRpcResponse (Option ℕ)))
    → Replies sent
    → broadcast_tx sent entry ≡ err panic
    → Stops sent entry
unfolding broadcast_tx
panics→Stops sent entry (lacks hit run) h = inl hit
panics→Stops sent entry (fails e run) h = absurd (cc (rw (broadcast_tx, run) at h))
panics→Stops sent entry (gives txid g run) h =
    elim (await_entry-cases (entry txid) 10 0 none (rw (broadcast_tx, run) at h)) [
      | inl cut ↦ inr (txid, g, inl cut)
      | inr (_, all) ↦ inr (txid, g, inr all)
    ]

Stops→panics :
    (sent : RpcResult (JsonRpcResponse (List ℕ)))
    (entry : List ℕ → ℕ → RpcResult (JsonRpcResponse (Option ℕ)))
    → Stops sent entry
    → broadcast_tx sent entry ≡ err panic
unfolding broadcast_tx error_for_rpc
Stops→panics sent entry (inl hit) = rw hit refl
Stops→panics sent entry (inr (txid, g, inl cut)) =
    rw g (cut_off-await_entry (entry txid) 10 0 none cut)
Stops→panics sent entry (inr (txid, g, inr all)) = rw g (timeless-await_entry (entry txid) 10 0 all)

-- A broadcast panics exactly when the reply to it has neither result nor error, or it is accepted and
-- either a reply to one of the ten calls for its entry has neither result nor error while no earlier
-- one has a time, or all ten have results without a time.
pub broadcast_tx-panics_iff :
    (sent : RpcResult (JsonRpcResponse (List ℕ)))
    (entry : List ℕ → ℕ → RpcResult (JsonRpcResponse (Option ℕ)))
    → (broadcast_tx sent entry ≡ err panic) ↔ Stops sent entry
broadcast_tx-panics_iff sent entry =
    (panics→Stops sent entry (all-Replies sent), Stops→panics sent entry)
