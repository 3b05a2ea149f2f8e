-- ===== src/Validate/ProcessCreates.antt =====
-- The created outputs through the loop of `process`, and through its last passes.
use spaced.Base.{
  ℕ, ◌≡◌, refl, sym, ap, ◌∙◌, subst, List, Option, none, some, ok, >>=-eq-ok, arith, >>=-eq-ok,
}
use spaced.Base.Loop.{for_each_inv}
use spaced.Bitcoin.{Bitcoin, Transaction, TxIn, TxOut}
use spaced.Spaces.{SpaceOut, Bytes}
use spaced.Script.{ScriptResult, script_ok, script_err, SpaceScript, opening, set, reserve}
use spaced.Prepare.{AuctionedOutput, InputContext, TxContext}
use spaced.Validate.{TxChangeSet, set_last_error}
use spaced.Validate.Cases.{TransferCase, dropped, moved, BidCase, refused, placed}
use spaced.Validate.Spend.{process_spend, unspend}
use spaced.Validate.Outcomes.{
  SpendCase, untouched, lapsed, transfers, registers, premature, outbids, locked,
  process_spend-SpendCase,
}
use spaced.Validate.Opening.{process_open}
use spaced.Validate.Openings.{process_open-OpenCase}
use spaced.Validate.Process.{Progress, push_spend, process_script, process_input, process_inputs}
use spaced.Validate.Creates.{AreOutputs, AreOutputs-snoc, IsTransfer, OpenCase-creates}

-- Property of a change set: its creates are outputs of the transaction.
abbrev CreatesOutputs : Transaction → TxChangeSet → Type 0
CreatesOutputs tx cs = AreOutputs IsTransfer tx.output cs.creates

same_creates :
    {outputs : List TxOut} {xs ys : List SpaceOut}
    → AreOutputs IsTransfer outputs xs
    → ys ≡ xs
    → AreOutputs IsTransfer outputs ys
same_creates {outputs} v e = subst (AreOutputs IsTransfer outputs) (sym e) v

transfer_keeps :
    {height : ℕ} {tx : Transaction} {i : ℕ} {out : SpaceOut} {held : Option Bytes}
    {cs cs' : TxChangeSet}
    → TransferCase height tx i out held cs cs'
    → CreatesOutputs tx cs
    → CreatesOutputs tx cs'
transfer_keeps (dropped input _ _ e) v = same_creates v (ap TxChangeSet.creates e)
transfer_keeps {tx} {cs} (moved output space there _ free _ e) v =
    subst (AreOutputs IsTransfer tx.output) (sym (ap TxChangeSet.creates e)) (
      AreOutputs-snoc IsTransfer tx.output cs.creates _ v free (record {
        output = output;
        there = there;
        same_value = refl;
        same_script = refl;
        carries = tt;
      }))

bid_keeps :
    {btc : Bitcoin} {height : ℕ} {input : TxIn} {out : SpaceOut} {total : ℕ} {claim : Option ℕ}
    {a : Option AuctionedOutput} {cs cs' : TxChangeSet}
    → BidCase btc height input out total claim a cs cs'
    → cs'.creates ≡ cs.creates
bid_keeps (refused _ _ e) = ap TxChangeSet.creates e
bid_keeps (placed _ _ _ _ _ _ _ _ _ _ e) = ap TxChangeSet.creates e

unspend-creates : (i : ℕ) (cs : TxChangeSet) → (unspend i cs).creates ≡ cs.creates
unfolding unspend
unspend-creates i cs = ground arith

spend_keeps :
    {btc : Bitcoin} {height : ℕ} {tx : Transaction} {i : ℕ} {out : SpaceOut}
    {a left : Option AuctionedOutput} {cs cs' : TxChangeSet}
    → SpendCase btc height tx i out a cs left cs'
    → CreatesOutputs tx cs
    → CreatesOutputs tx cs'
spend_keeps (untouched _ _ e) v = same_creates v (ap TxChangeSet.creates e)
spend_keeps (lapsed _ _ _ _ _ _ _ _ _ e) v = same_creates v (ap TxChangeSet.creates e)
spend_keeps (transfers _ _ _ _ _ _ _ c) v = transfer_keeps c v
spend_keeps (registers _ _ _ _ _ _ _ _ _ _ _ c) v = transfer_keeps c v
spend_keeps (premature _ _ _ _ _ _ _ _ _ e) v = same_creates v (ap TxChangeSet.creates e)
spend_keeps (outbids _ _ _ _ _ _ _ _ c) v = same_creates v (bid_keeps c)
spend_keeps {i} {cs} (locked _ _ _ _ _ e) v =
    same_creates v (ap TxChangeSet.creates e ∙ unspend-creates i cs)

module _ (btc : Bitcoin) (height : ℕ) (tx : Transaction) where
  script-creates :
      (n : ℕ) (script : Option (ScriptResult SpaceScript)) (p q : Progress)
      → process_script btc height tx n script p ≡ ok q
      → q.changeset.creates ≡ p.changeset.creates
  unfolding process_script
  script-creates n none p q h = ground (arith, h)
  script-creates n (some (script_ok (opening history))) p q h =
      let ((left, cs'), e, k) =
        >>=-eq-ok (process_open btc n height history p.auctioned p.changeset) _ h in
      ground (
        arith,
        k,
        OpenCase-creates
            (process_open-OpenCase btc n height history p.auctioned left p.changeset cs' e),
      )
  script-creates n (some (script_ok (set bytes))) p q h = ground (arith, h)
  script-creates n (some (script_ok reserve)) p q h = ground (arith, h)
  script-creates n (some (script_err e)) p q h =
      let (spends, _, k) = >>=-eq-ok (set_last_error e p.changeset.spends) _ h in ground (arith, k)

  input_keeps :
      (input : InputContext) (p q : Progress)
      → CreatesOutputs tx p.changeset
      → process_input btc height tx input p ≡ ok q
      → CreatesOutputs tx q.changeset
  unfolding process_input
  input_keeps input p q v h =
      let ((left, cs'), e, k) =
        >>=-eq-ok
          (process_spend btc height tx p.auctioned input.n input.sstxo
            (push_spend input.n p.changeset))
          _ h in
      let c =
        process_spend-SpendCase btc height tx input.n input.sstxo p.auctioned left
          (push_spend input.n p.changeset) cs' e in
      same_creates (spend_keeps c v) (script-creates input.n input.script _ q k)

  pub process_inputs_creates :
      (ctx : TxContext) (p : Progress)
      → process_inputs btc height tx ctx ≡ ok p
      → CreatesOutputs tx p.changeset
  unfolding process_inputs
  process_inputs_creates ctx p h =
      for_each_inv (λ q. CreatesOutputs tx q.changeset) (process_input btc height tx) input_keeps
        ctx.inputs _ p (record { distinct = tt; each = tt }) h
