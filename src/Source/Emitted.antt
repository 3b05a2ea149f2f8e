-- ===== src/Source/Emitted.antt =====
-- What the workers emit is a chain from the block that they start at.
use spaced.Validate.{add_u32}
use spaced.Source.{called, RpcResult}
use spaced.Node.Block.{connects}
use spaced.Base.{
  bytes_eq_refl, ap, length, sym, ==_iff, Option-cases, bytes_eq→eq, arith, ltb, ◌+◌, false,
  >>=-eq-ok, inr, refl, inl, ◌==◌, [], bytes_eq, Bool-cases, ◌++◌, ◌∷◌, ok, some, true, ◌≡◌, All,
  Bool, List, ChainAnchor, ℕ,
}
use spaced.Source.Workers.{
  can_add_workers, try_emit_next_block, Fetched, new_workers, insert_key, Unordered, Workers,
  find_key, emit, remove_key, collect,
}

-- Every block connects to the one before: its parent is that block, and its height is the next.
abbrev pub Linked : ChainAnchor → List Fetched → ChainAnchor → Type 0
Linked a [] z = a ≡ z
Linked a (e ∷ es) z = (connects a e.id.height e.block ≡ true) × Linked e.id es z

Linked-append :
    (a y : ChainAnchor) (es : List Fetched) (e : Fetched)
    → Linked a es y
    → connects y e.id.height e.block ≡ true
    → Linked a (es ++ (e ∷ [])) e.id
Linked-append a y [] e l c = (rw l c, refl)
Linked-append a y (f ∷ es) e (d, l) c = (d, Linked-append f.id y es e l c)

-- A block is kept under its height.
abbrev IsKeyed : ℕ × Fetched → Type 0
IsKeyed (k, fetched) = fetched.id.height ≡ k

remove_key-All : (k : ℕ) (m : Unordered) → All IsKeyed m → All IsKeyed (remove_key k m)
unfolding remove_key
remove_key-All k [] a = tt
remove_key-All k ((j, v) ∷ m) (e, a) = elim (Bool-cases (k == j)) [
  | inl same ↦ rw same (remove_key-All k m a)
  | inr apart ↦ rw apart (e, remove_key-All k m a)
]

find_key-height :
    (k : ℕ) (m : Unordered) (fetched : Fetched)
    → All IsKeyed m
    → find_key k m ≡ some fetched
    → fetched.id.height ≡ k
unfolding find_key
find_key-height k [] fetched a h = absurd (cc h)
find_key-height k ((j, v) ∷ m) fetched (e, a) h = elim (Bool-cases (k == j)) [
  | inl same ↦ ground (arith, h, e, same)
  | inr apart ↦ find_key-height k m fetched a (rw apart at h)
]

collect-All :
    (stops : ℕ → Bool) (n : ℕ) (received : List (RpcResult Fetched)) (m m' : Unordered)
    → All IsKeyed m
    → collect stops n received m ≡ ok m'
    → All IsKeyed m'
unfolding collect
collect-All stops n [] m m' a h = let e : m ≡ m' = cc in rw (← e) a
collect-All stops n (r ∷ received) m m' a h = elim (Bool-cases (stops n)) [
  | inl stopped ↦ absurd (cc (rw (collect, stopped) at h))
  | inr going ↦
      let (fetched, e, h₁) = >>=-eq-ok (called r) _ (rw (collect, going) at h) in
      collect-All stops (n + 1) received (insert_key fetched.id.height fetched m) m'
        (refl, remove_key-All fetched.id.height m a) h₁
]

-- A well-formed state of workers that started at a block.
pub record Emits (start : ChainAnchor) (w : Workers) : Type 0 where
  pub keyed : All IsKeyed w.out_of_order
  pub linked : Linked start w.sent w.last_emitted

fits :
    (tip : ChainAnchor) (fetched : Fetched)
    → bytes_eq fetched.block.prev_blockhash tip.hash ≡ true
    → fetched.id.height ≡ add_u32 tip.height 1
    → connects tip fetched.id.height fetched.block ≡ true
fits tip fetched joined at =
    let e = bytes_eq→eq fetched.block.prev_blockhash tip.hash joined in
    ground (
      arith,
      (==_iff (add_u32 tip.height 1) fetched.id.height).1 (sym at),
      ap (bytes_eq tip.hash) e,
      bytes_eq_refl tip.hash,
    )

emit-Emits :
    (start : ChainAnchor) (stopped listening : Bool) (fetched : Fetched) (w w' : Workers)
    → Emits start w
    → fetched.id.height ≡ add_u32 w.last_emitted.height 1
    → emit stopped listening fetched w ≡ ok w'
    → Emits start w'
unfolding emit
emit-Emits start true listening fetched w w' x at h = absurd (cc h)
emit-Emits start false listening fetched w w' x at h =
    elim (Bool-cases (bytes_eq fetched.block.prev_blockhash w.last_emitted.hash)) [
      | inr apart ↦ absurd (cc (rw (emit, apart) at h))
      | inl joined ↦ elim (Bool-cases listening) [
        | inr closed ↦ absurd (cc (rw (emit, joined, closed) at h))
        | inl heard ↦
            let made : record w { last_emitted = fetched.id; sent = w.sent ++ (fetched ∷ []) }
                ≡ w' =
              cc (rw (emit, joined, heard) at h) in
            rw (← made) (record {
              keyed = x.keyed;
              linked =
                  Linked-append start w.last_emitted w.sent fetched x.linked
                    (fits w.last_emitted fetched joined at);
            })
      ]
    ]

try_emit_next_block-Emits :
    (start : ChainAnchor) (stops : ℕ → Bool) (listening : Bool)
    (received : List (RpcResult Fetched)) (emitted : Bool) (w w' : Workers)
    → Emits start w
    → try_emit_next_block stops listening received w ≡ ok (emitted, w')
    → Emits start w'
unfolding try_emit_next_block
try_emit_next_block-Emits start stops listening received emitted w w' x h =
    let next = add_u32 w.last_emitted.height 1 in
    let (m, e₁, h₁) = >>=-eq-ok (collect stops 0 received w.out_of_order) _ h in
    let a = collect-All stops 0 received w.out_of_order m x.keyed e₁ in
    elim (Bool-cases (ltb w.end_height next)) [
      | inl done ↦
          let made : record w { out_of_order = m } ≡ w' = cc (rw done at h₁) in
          rw (← made) (record { keyed = a; linked = x.linked })
      | inr left ↦ elim (Option-cases (find_key next m)) [
        | inl away ↦
            let made : record w { out_of_order = m } ≡ w' = cc (rw (left, away) at h₁) in
            rw (← made) (record { keyed = a; linked = x.linked })
        | inr (fetched, there) ↦
            let (w₁, e₂, h₂) =
              >>=-eq-ok
                (emit (stops (length received)) listening fetched
                  (record w { out_of_order = remove_key next m }))
                _ (rw (left, there) at h₁) in
            let made : w₁ ≡ w' = cc in
            rw (← made) (
              emit-Emits start (stops (length received)) listening fetched
                (record w { out_of_order = remove_key next m }) w₁
                (record { keyed = remove_key-All next m a; linked = x.linked })
                (find_key-height next m fetched a there) e₂)
      ]
    ]

-- A run of the workers: `BlockFetcher::run_workers` starts it, and `Workers::run` queues the next height
-- or tries to emit a block, in any order.
pub data Run (start : ChainAnchor) (end_height num_workers : ℕ) : Workers → Type 0 where
  begun : Run start end_height num_workers (new_workers start end_height num_workers)
  queue :
      (queued_count : ℕ) (w : Workers)
      → Run start end_height num_workers w
      → can_add_workers queued_count w ≡ true
      → Run start end_height num_workers (record w { queued_height = add_u32 w.queued_height 1 })
  emission :
      (stops : ℕ → Bool) (listening : Bool) (received : List (RpcResult Fetched)) (emitted : Bool)
      (w w' : Workers)
      → Run start end_height num_workers w
      → try_emit_next_block stops listening received w ≡ ok (emitted, w')
      → Run start end_height num_workers w'

-- Whatever the order in which blocks arrive, the blocks that have been sent at any time of a run are a
-- chain: each connects to the one before, the first to the start, and the last is the one recorded.
pub Run-Emits :
    (start : ChainAnchor) (end_height num_workers : ℕ) (w : Workers)
    → Run start end_height num_workers w
    → Linked start w.sent w.last_emitted
Run-Emits start end_height num_workers w run = (go w run).linked
  where
    go : (w : Workers) → Run start end_height num_workers w → Emits start w
    go w begun = record { keyed = tt; linked = refl }
    go w (queue queued_count v r free) = record { keyed = (go v r).keyed; linked = (go v r).linked }
    go w (emission stops listening received emitted v _ r h) =
        try_emit_next_block-Emits start stops listening received emitted v w (go v r) h
