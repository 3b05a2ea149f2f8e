-- ===== src/Checker/Overlay.antt =====
-- What a tried transaction leaves in the overlay, as the reads that follow see it.
use spaced.Checker.Recorded.{
  each-Leaves, name_writes, create_names, then-Leaves, create_writes, last_write, update_writes,
  out_writes, Leaves, or_else, no_names, update_names, spend_writes, place_of, all_writes,
}
use spaced.Validate.Cases.{expect-ok}
use spaced.Base.{
  expect, arith, Bool-cases, subst, index, ◌≢◌, ◌≡◌, ◌∙◌, ap, refl, inl, inr, List, [], ◌∷◌, Option,
  none, some, Result, ok, >>=-eq-ok, get_elem?, bytes_eq, ℕ,
}
use spaced.Base.Loop.{for_each}
use spaced.Bitcoin.{TxIn, Bitcoin, OutPoint, Transaction, outpoint_eq}
use spaced.Keys.{Hash, KeyHasher, space_key}
use spaced.Spaces.{RevokeReason, SpaceOut, Space}
use spaced.Store.{LiveSnapshot, data_source, Codec, Spacedb}
use spaced.Node.{name_hash}
use spaced.Validate.{UpdateKind, TxChangeSet, SpaceIn, UpdateOut, revoke, rolled_out, bid_update}
use spaced.Checker.{
  put_space, put_spaceout, apply_changes, check_spend, checker_source, check_update, check_create,
  TxChecker, find_space, find_spaceout,
}

module _ (sdb : Spacedb) (codec : Codec) (btc : Bitcoin) (hash : KeyHasher) where
  put_spaceout-Leaves :
      (at : OutPoint) (out : Option SpaceOut) (c : TxChecker sdb)
      → Leaves sdb ((at, out) ∷ []) [] c (put_spaceout sdb codec btc hash at out c)
  unfolding find_spaceout
  put_spaceout-Leaves at out c = record {
    same = refl;
    in_outs = λ key. elim (Bool-cases (outpoint_eq key at)) [
      | inl hit ↦ rw hit refl
      | inr miss ↦ rw miss refl
    ];
    in_names = λ key. refl;
  }

  put_space-Leaves :
      (key : Hash) (at : Option OutPoint) (c : TxChecker sdb)
      → Leaves sdb [] ((key, at) ∷ []) c (put_space sdb codec btc hash key at c)
  unfolding find_space
  put_space-Leaves key at c = record {
    same = refl;
    in_outs = λ k. refl;
    in_names =
        λ k. elim (Bool-cases (bytes_eq k key)) [ inl hit ↦ rw hit refl | inr miss ↦ rw miss refl ];
  }

  both-Leaves :
      (key : Hash) (place : Option OutPoint) (at : OutPoint) (out : Option SpaceOut)
      (c : TxChecker sdb)
      → Leaves sdb
          ((at, out) ∷ [])
          ((key, place) ∷ [])
          c
          (put_spaceout sdb codec btc hash at out (put_space sdb codec btc hash key place c))
  both-Leaves key place at out c =
      then-Leaves sdb (put_space-Leaves key place c)
        (put_spaceout-Leaves at out (put_space sdb codec btc hash key place c))

  as-Leaves :
      {outs outs' : List (OutPoint × Option SpaceOut)}
      {names names' : List (Hash × Option OutPoint)} {c d d' : TxChecker sdb}
      → outs ≡ outs'
      → names ≡ names'
      → d ≡ d'
      → Leaves sdb outs names c d
      → Leaves sdb outs' names' c d'
  as-Leaves {outs} {outs'} {names} {names'} {c} {d} {d'} p q r w =
      subst (λ d. Leaves sdb outs' names' c d) r
        (subst (λ names. Leaves sdb outs' names c d) q
          (subst (λ outs. Leaves sdb outs names c d) p w))

  spent-writes :
      (tx : Transaction) (spend : SpaceIn) (input : TxIn)
      → get_elem? tx.input spend.n ≡ some input
      → (input.previous_output, none) ∷ [] ≡ spend_writes tx spend
  spent-writes tx spend input e = rw (spend_writes, e) refl

  check_spend-Leaves :
      (tx : Transaction) (spend : SpaceIn) (c c' : TxChecker sdb)
      → check_spend sdb codec btc hash tx spend c ≡ ok c'
      → Leaves sdb (spend_writes tx spend) (no_names spend) c c'
  unfolding check_spend
  check_spend-Leaves tx spend c c' h =
      let (input, e, k) = >>=-eq-ok (index tx.input spend.n) _ h in
      let there : get_elem? tx.input spend.n ≡ some input =
        expect-ok (get_elem? tx.input spend.n) e in
      as-Leaves (spent-writes tx spend input there) refl (cc k)
        (put_spaceout-Leaves input.previous_output none c)

  create_parts-Leaves :
      (txid : List ℕ) (create : SpaceOut) (space : Option Space) (c c' : TxChecker sdb)
      → create.space ≡ space
      → check_create sdb codec btc hash txid create c ≡ ok c'
      → Leaves sdb (create_writes txid create) (create_names hash txid create) c c'
  unfolding check_create
  create_parts-Leaves txid create none c c' e h =
      as-Leaves refl (ground (arith, e)) (cc (rw (check_create, e) at h))
        (put_spaceout-Leaves (place_of txid create) (some create) c)
  create_parts-Leaves txid create (some space) c c' e h =
      let (base, named, k) = >>=-eq-ok (name_hash hash space) _ (rw (check_create, e) at h) in
      as-Leaves refl (ground (arith, e, named)) (cc k) (
        both-Leaves (space_key base) (some (place_of txid create)) (place_of txid create)
          (some create) c)

  revoked-names :
      (u : UpdateOut) (reason : RevokeReason) (space : Space) (base : Hash)
      → u.kind ≡ revoke reason
      → u.output.spaceout.space ≡ some space
      → name_hash hash space ≡ ok base
      → (space_key base, none) ∷ [] ≡ update_names hash u
  revoked-names u reason space base e held named = ground (arith, e, held, named)

  kept-names :
      (u : UpdateOut) (kind : UpdateKind) (space : Space) (base : Hash)
      → u.kind ≡ kind
      → ((reason : RevokeReason) → kind ≢ revoke reason)
      → u.output.spaceout.space ≡ some space
      → name_hash hash space ≡ ok base
      → (space_key base, some (place_of u.output.txid u.output.spaceout)) ∷ [] ≡ update_names hash u
  kept-names u (revoke reason) space base e live held named = absurd (live reason refl)
  kept-names u (rolled_out p) space base e live held named = ground (arith, e, held, named)
  kept-names u bid_update space base e live held named = ground (arith, e, held, named)

  -- What an update does once its name has been hashed.
  abbrev check_named : Hash → UpdateOut → TxChecker sdb → Result (TxChecker sdb)
  check_named base u c =
      let at = place_of u.output.txid u.output.spaceout in
      let moved =
        put_spaceout sdb codec btc hash at (some u.output.spaceout)
          (put_space sdb codec btc hash (space_key base) (some at) c) in
      elim u.kind [
        | revoke _ ↦ ok (
            put_spaceout sdb codec btc hash at none
              (put_space sdb codec btc hash (space_key base) none c))
        | rolled_out _ ↦ ok moved
        | bid_update ↦ ok moved
      ]

  -- The round of an update with its name.
  named_parts-Leaves :
      (u : UpdateOut) (kind : UpdateKind) (space : Space) (base : Hash) (c c' : TxChecker sdb)
      → u.kind ≡ kind
      → u.output.spaceout.space ≡ some space
      → name_hash hash space ≡ ok base
      → check_named base u c ≡ ok c'
      → Leaves sdb (update_writes u) (update_names hash u) c c'
  named_parts-Leaves u (revoke reason) space base c c' e held named k =
      as-Leaves (ground (arith, e)) (revoked-names u reason space base e held named)
        (cc (rw e at k))
        (both-Leaves (space_key base) none (place_of u.output.txid u.output.spaceout) none c)
  named_parts-Leaves u (rolled_out p) space base c c' e held named k =
      let at = place_of u.output.txid u.output.spaceout in
      as-Leaves (ground (arith, e))
        (kept-names u (rolled_out p) space base e (λ reason x. cc x) held named) (cc (rw e at k))
        (both-Leaves (space_key base) (some at) at (some u.output.spaceout) c)
  named_parts-Leaves u bid_update space base c c' e held named k =
      let at = place_of u.output.txid u.output.spaceout in
      as-Leaves (ground (arith, e))
        (kept-names u bid_update space base e (λ reason x. cc x) held named) (cc (rw e at k))
        (both-Leaves (space_key base) (some at) at (some u.output.spaceout) c)

  update_parts-Leaves :
      (u : UpdateOut) (kind : UpdateKind) (c c' : TxChecker sdb)
      → u.kind ≡ kind
      → check_update sdb codec btc hash u c ≡ ok c'
      → Leaves sdb (update_writes u) (update_names hash u) c c'
  unfolding check_update
  update_parts-Leaves u kind c c' e h =
      let (space, there, h₁) = >>=-eq-ok (expect u.output.spaceout.space) _ h in
      let (base, named, k) = >>=-eq-ok (name_hash hash space) _ h₁ in
      named_parts-Leaves u kind space base c c' e (expect-ok u.output.spaceout.space there) named k

  all_writes-none : (xs : List SpaceIn) → all_writes no_names xs ≡ []
  all_writes-none [] = refl
  all_writes-none (x ∷ xs) = all_writes-none xs

  apply_changes-Leaves :
      (tx : Transaction) (cs : TxChangeSet) (c c' : TxChecker sdb)
      → apply_changes sdb codec btc hash tx cs c ≡ ok c'
      → Leaves sdb (out_writes btc tx cs) (name_writes hash btc tx cs) c c'
  unfolding apply_changes
  apply_changes-Leaves tx cs c c' h =
      let txid = btc.compute_txid tx in
      let (c₁, e₁, h₁) = >>=-eq-ok (for_each (check_spend sdb codec btc hash tx) cs.spends c) _ h in
      let (c₂, e₂, h₂) =
        >>=-eq-ok (for_each (check_create sdb codec btc hash txid) cs.creates c₁) _ h₁ in
      let spends =
        each-Leaves sdb (check_spend sdb codec btc hash tx) (spend_writes tx) no_names
          (check_spend-Leaves tx) cs.spends c c₁ e₁ in
      let creates =
        each-Leaves sdb (check_create sdb codec btc hash txid) (create_writes txid)
          (create_names hash txid) (λ out d d'. create_parts-Leaves txid out out.space d d' refl)
          cs.creates c₁ c₂ e₂ in
      let updates =
        each-Leaves sdb (check_update sdb codec btc hash) update_writes (update_names hash)
          (λ u d d'. update_parts-Leaves u u.kind d d' refl) cs.updates c₂ c' h₂ in
      let all = then-Leaves sdb spends (then-Leaves sdb creates updates) in
      rw (all_writes-none cs.spends) at all

  abbrev pub or_base : {A : Type 0} → Option A → Result A → Result A
  or_base (some a) base = ok a
  or_base none base = base

  -- What the reads after a transaction give: the last of its writes, else what the overlay held before,
  -- else what the snapshot below gives.
  pub record IsOverlay (tx : Transaction) (cs : TxChangeSet) (c c' : TxChecker sdb) : Type 0 where
    pub outs :
        (at : OutPoint)
        → (checker_source sdb codec btc hash c').get_spaceout at
          ≡ or_base
              (or_else
                (last_write outpoint_eq at (out_writes btc tx cs))
                (find_spaceout at c.spaceouts))
              ((data_source sdb codec hash c.original).get_spaceout at)
    pub names :
        (key : Hash)
        → (checker_source sdb codec btc hash c').get_space_outpoint key
          ≡ or_base
              (or_else
                (last_write bytes_eq key (name_writes hash btc tx cs))
                (find_space key c.spaces))
              ((data_source sdb codec hash c.original).get_space_outpoint key)

  read_out :
      (c : TxChecker sdb) (at : OutPoint) (found : Option (Option SpaceOut))
      → find_spaceout at c.spaceouts ≡ found
      → (checker_source sdb codec btc hash c).get_spaceout at
        ≡ or_base found ((data_source sdb codec hash c.original).get_spaceout at)
  read_out c at none e = rw (checker_source, e) refl
  read_out c at (some v) e = rw (checker_source, e) refl

  read_name :
      (c : TxChecker sdb) (key : Hash) (found : Option (Option OutPoint))
      → find_space key c.spaces ≡ found
      → (checker_source sdb codec btc hash c).get_space_outpoint key
        ≡ or_base found ((data_source sdb codec hash c.original).get_space_outpoint key)
  read_name c key none e = rw (checker_source, e) refl
  read_name c key (some v) e = rw (checker_source, e) refl

  pub apply_changes-IsOverlay :
      (tx : Transaction) (cs : TxChangeSet) (c c' : TxChecker sdb)
      → apply_changes sdb codec btc hash tx cs c ≡ ok c'
      → IsOverlay tx cs c c'
  apply_changes-IsOverlay tx cs c c' h =
      let w = apply_changes-Leaves tx cs c c' h in
      record {
        outs = λ at.
            let found =
              or_else (last_write outpoint_eq at (out_writes btc tx cs))
                (find_spaceout at c.spaceouts) in
            read_out c' at found (w.in_outs at)
            ∙ ap
                (λ (o : LiveSnapshot sdb).
                  or_base found ((data_source sdb codec hash o).get_spaceout at))
                w.same;
        names = λ key.
            let found =
              or_else (last_write bytes_eq key (name_writes hash btc tx cs))
                (find_space key c.spaces) in
            read_name c' key found (w.in_names key)
            ∙ ap
                (λ (o : LiveSnapshot sdb).
                  or_base found ((data_source sdb codec hash o).get_space_outpoint key))
                w.same;
      }
