-- ===== src/Validate/Panics.antt =====
-- Where `process` panics: the spend of a reserved space is taken out of the list of spends, which the
-- scripts of the same input rely on.
use spaced.Base.{
  ℕ, ◌≡◌, ◌⊎◌, inl, inr, refl, false, List, [], ◌∷◌, Option, some, ok, err, panic, arith, get_elem?,
}
use spaced.Base.Loop.{for_each}
use spaced.Bitcoin.{Bitcoin, Transaction, TxIn}
use spaced.Spaces.{SpaceOut, Space, reserved, is_expired}
use spaced.Script.{
  OpenHistory, ScriptResult, script_ok, script_err, SpaceScript, opening, ScriptError,
}
use spaced.Prepare.{AuctionedOutput, InputContext}
use spaced.Validate.{TxChangeSet, no_changes, position, remove_at, set_last_error}
use spaced.Validate.Spend.{process_spend, spend_space, unspend}
use spaced.Validate.Opening.{process_open}
use spaced.Validate.Process.{
  Progress, push_spend, process_script, process_input, process_inputs, process,
  clear_auctioned_spent,
}

-- The script of an input opens a name, or is an error.
abbrev pub NeedsSpend : Option (ScriptResult SpaceScript) → Type 0
NeedsSpend script =
    ((history : OpenHistory) × (script ≡ some (script_ok (opening history))))
    ⊎ ((e : ScriptError) × (script ≡ some (script_err e)))

module _ (btc : Bitcoin) (height : ℕ) (tx : Transaction) where
  pub process_spend-reserved :
      (a : Option AuctionedOutput) (i : ℕ) (out : SpaceOut) (space : Space) (txin : TxIn)
      (cs : TxChangeSet)
      → get_elem? tx.input i ≡ some txin
      → out.space ≡ some space
      → space.covenant ≡ reserved
      → process_spend btc height tx a i out cs ≡ ok (a, unspend i cs)
  unfolding process_spend spend_space is_expired
  process_spend-reserved a i out space txin cs here there c = ground (arith, here, there, c)

  unspend-push_spend :
      (i : ℕ) (cs : TxChangeSet) → cs.spends ≡ [] → (unspend i (push_spend i cs)).spends ≡ []
  unfolding unspend position remove_at
  unspend-push_spend i cs e = ground (arith, e)

  script_panics :
      (n : ℕ) (script : Option (ScriptResult SpaceScript)) (p : Progress)
      → p.changeset.spends ≡ []
      → NeedsSpend script
      → process_script btc height tx n script p ≡ err panic
  unfolding process_script process_open position set_last_error
  script_panics n script p e (inl (history, s)) = ground (arith, e, s)
  script_panics n script p e (inr (err', s)) = ground (arith, e, s)

  -- A transaction whose first relevant input spends a reserved space and reveals a script that opens
  -- a name or is an error makes the validator panic.
  pub process-reserved_panics :
      (input : InputContext) (rest : List InputContext) (auctioned : Option AuctionedOutput)
      (space : Space) (txin : TxIn)
      → get_elem? tx.input input.n ≡ some txin
      → input.sstxo.space ≡ some space
      → space.covenant ≡ reserved
      → NeedsSpend input.script
      → process btc height tx (record { inputs = input ∷ rest; auctioned_output = auctioned })
        ≡ err panic
  unfolding process process_inputs for_each process_input
  process-reserved_panics input rest auctioned space txin here there c needs =
      let a = clear_auctioned_spent tx.input auctioned in
      let cs = push_spend input.n (no_changes (btc.compute_txid tx)) in
      rw (
        process_spend-reserved a input.n input.sstxo space txin cs here there c,
        script_panics input.n input.script
            (record {
              auctioned = a;
              changeset = unspend input.n cs;
              space_data = [];
              reserving = false;
            })
            (unspend-push_spend input.n (no_changes (btc.compute_txid tx)) refl) needs,
      )
