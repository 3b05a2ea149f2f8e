-- ===== src/Validate/ProcessUpdates.antt =====
-- The updates of a change set through the loop of `process`.
use spaced.Base.{
  ℕ, ◌≤◌, ◌≡◌, refl, ap, ◌∙◌, true, Option, none, some, ok, >>=-eq-ok, arith, All, is_some,
}
use spaced.Base.Loop.{for_each_inv}
use spaced.Bitcoin.{Bitcoin, Transaction, TxIn}
use spaced.Spaces.{SpaceOut, Bytes, bad_spend}
use spaced.Script.{ScriptResult, script_ok, script_err, SpaceScript, opening, set, reserve}
use spaced.Prepare.{AuctionedOutput, InputContext, TxContext}
use spaced.Validate.{TxChangeSet, set_last_error}
use spaced.Validate.Cases.{TransferCase, dropped, moved, BidCase, refused, placed}
use spaced.Validate.Spend.{process_spend, unspend}
use spaced.Validate.Outcomes.{
  SpendCase, untouched, lapsed, transfers, registers, premature, outbids, locked,
  process_spend-SpendCase,
}
use spaced.Validate.Opening.{process_open}
use spaced.Validate.Openings.{process_open-OpenCase}
use spaced.Validate.Process.{
  Progress, push_spend, process_script, process_input, process_inputs, process,
}
use spaced.Validate.Tracking.{process_parts}
use spaced.Validate.Updates.{
  Updates-start, IsSound, bids, Updates, push_revocation, push_bid, use_up, same-Updates,
  OpenCase-Updates,
}

module _ (btc : Bitcoin) where
  TransferCase-Updates :
      {height : ℕ} {tx : Transaction} {i : ℕ} {out : SpaceOut} {held : Option Bytes}
      {a : Option AuctionedOutput} {cs cs' : TxChangeSet}
      → TransferCase height tx i out held cs cs'
      → is_some out.space ≡ true
      → Updates btc a cs.updates
      → Updates btc a cs'.updates
  TransferCase-Updates {out} {cs} (dropped input _ _ e) there v =
      same-Updates btc
        (push_revocation btc cs.updates bad_spend input.previous_output.txid out there v) refl
        (ap TxChangeSet.updates e)
  TransferCase-Updates (moved _ _ _ _ _ _ e) there v =
      same-Updates btc v refl (ap TxChangeSet.updates e)

  BidCase-Updates :
      {height : ℕ} {input : TxIn} {out : SpaceOut} {total : ℕ} {claim : Option ℕ}
      {a : Option AuctionedOutput} {cs cs' : TxChangeSet}
      → BidCase btc height input out total claim a cs cs'
      → is_some out.space ≡ true
      → Updates btc a cs.updates
      → Updates btc none cs'.updates
  BidCase-Updates {input} {out} {a} {cs} (refused reason _ e) there v =
      same-Updates btc
        (use_up btc {a = a}
          (push_revocation btc cs.updates reason input.previous_output.txid out there v))
        refl (ap TxChangeSet.updates e)
  BidCase-Updates {cs} (placed _ _ _ _ carried _ _ _ _ signed e) there v =
      same-Updates btc (push_bid btc cs.updates _ signed refl (rw carried at v)) refl
        (ap TxChangeSet.updates e)

  unspend-updates : (i : ℕ) (cs : TxChangeSet) → (unspend i cs).updates ≡ cs.updates
  unfolding unspend
  unspend-updates i cs = ground arith

  SpendCase-Updates :
      {height : ℕ} {tx : Transaction} {i : ℕ} {out : SpaceOut} {a left : Option AuctionedOutput}
      {cs cs' : TxChangeSet}
      → SpendCase btc height tx i out a cs left cs'
      → Updates btc a cs.updates
      → Updates btc left cs'.updates
  SpendCase-Updates (untouched _ l e) v = same-Updates btc v l (ap TxChangeSet.updates e)
  SpendCase-Updates {out} {cs} (lapsed _ input _ _ there _ _ _ l e) v =
      same-Updates btc
        (push_revocation btc cs.updates _ input.previous_output.txid out (ground (arith, there)) v)
        l (ap TxChangeSet.updates e)
  SpendCase-Updates (transfers _ there _ _ _ _ l c) v =
      same-Updates btc (TransferCase-Updates c (ground (arith, there)) v) l refl
  SpendCase-Updates (registers _ _ _ _ there _ _ _ _ _ l c) v =
      same-Updates btc (TransferCase-Updates c (ground (arith, there)) v) l refl
  SpendCase-Updates {out} {cs} (premature _ _ input there _ _ _ _ l e) v =
      same-Updates btc
        (push_revocation btc cs.updates _ input.previous_output.txid out (ground (arith, there)) v)
        l (ap TxChangeSet.updates e)
  SpendCase-Updates (outbids _ _ _ there _ _ _ l c) v =
      same-Updates btc (BidCase-Updates c (ground (arith, there)) v) l refl
  SpendCase-Updates {i} {cs} (locked _ _ _ l _ e) v =
      same-Updates btc v l (ap TxChangeSet.updates e ∙ unspend-updates i cs)

module _ (btc : Bitcoin) (height : ℕ) (tx : Transaction) where
  script-Updates :
      (n : ℕ) (script : Option (ScriptResult SpaceScript)) (p q : Progress)
      → process_script btc height tx n script p ≡ ok q
      → Updates btc p.auctioned p.changeset.updates
      → Updates btc q.auctioned q.changeset.updates
  unfolding process_script
  script-Updates n none p q h v = let same : p ≡ q = cc in rw (← same) v
  script-Updates n (some (script_ok (opening history))) p q h v =
      let ((left, cs'), e, k) =
        >>=-eq-ok (process_open btc n height history p.auctioned p.changeset) _ h in
      same-Updates btc
        (OpenCase-Updates btc
          (process_open-OpenCase btc n height history p.auctioned left p.changeset cs' e) v)
        (ground (arith, k)) (ground (arith, k))
  script-Updates n (some (script_ok (set bytes))) p q h v =
      same-Updates btc v (ground (arith, h)) (ground (arith, h))
  script-Updates n (some (script_ok reserve)) p q h v =
      same-Updates btc v (ground (arith, h)) (ground (arith, h))
  script-Updates n (some (script_err e)) p q h v =
      let (spends, _, k) = >>=-eq-ok (set_last_error e p.changeset.spends) _ h in
      same-Updates btc v (ground (arith, k)) (ground (arith, k))

  input-Updates :
      (input : InputContext) (p q : Progress)
      → Updates btc p.auctioned p.changeset.updates
      → process_input btc height tx input p ≡ ok q
      → Updates btc q.auctioned q.changeset.updates
  unfolding process_input
  input-Updates input p q v h =
      let ((left, cs'), e, k) =
        >>=-eq-ok
          (process_spend btc height tx p.auctioned input.n input.sstxo
            (push_spend input.n p.changeset))
          _ h in
      script-Updates input.n input.script _ q k (
        SpendCase-Updates btc
          (process_spend-SpendCase btc height tx input.n input.sstxo p.auctioned left
            (push_spend input.n p.changeset) cs' e)
          v)

  loop-Updates :
      (ctx : TxContext) (p : Progress)
      → process_inputs btc height tx ctx ≡ ok p
      → Updates btc p.auctioned p.changeset.updates
  unfolding process_inputs
  loop-Updates ctx p e =
      for_each_inv (λ q. Updates btc q.auctioned q.changeset.updates) (process_input btc height tx)
        input-Updates ctx.inputs _ p (Updates-start btc _) e

  -- Every new bid in the change set of a transaction passed the check of its signature and has the
  -- bid covenant, every revocation is of an output with a space, no rollout is among the updates,
  -- and there is one new bid at most.
  pub process-Updates :
      (ctx : TxContext) (cs : TxChangeSet)
      → process btc height tx ctx ≡ ok cs
      → All (IsSound btc) cs.updates × (bids cs.updates ≤ 1)
  process-Updates ctx cs h =
      let (p, e, _, _, same) = process_parts btc height tx ctx cs h in
      let v = loop-Updates ctx p e in rw same (v.sound, omega (arith, v.single))
