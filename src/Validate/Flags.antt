-- ===== src/Validate/Flags.antt =====
-- What the scripts of a transaction's inputs ask for: data to set, and reservation.
use spaced.Base.{
  ℕ, ◌≡◌, ap, ◌∙◌, Bool, true, false, ◌||◌, List, [], ◌∷◌, Option, none, some, ok, >>=-eq-ok, arith,
}
use spaced.Base.Loop.{for_each}
use spaced.Bitcoin.{Bitcoin, Transaction}
use spaced.Spaces.{Bytes}
use spaced.Script.{ScriptResult, script_ok, script_err, SpaceScript, opening, set, reserve}
use spaced.Prepare.{InputContext}
use spaced.Validate.{set_last_error}
use spaced.Validate.Spend.{process_spend}
use spaced.Validate.Opening.{process_open}
use spaced.Validate.Process.{Progress, push_spend, process_script, process_input}

-- Whether a revealed script reserves the spaces.
abbrev pub reserves : Option (ScriptResult SpaceScript) → Bool
reserves (some (script_ok reserve)) = true
reserves (some (script_ok (opening history))) = false
reserves (some (script_ok (set bytes))) = false
reserves (some (script_err e)) = false
reserves none = false

-- The data that is set after a script, if `held` was set before it.
abbrev pub data_after : Option (ScriptResult SpaceScript) → Bytes → Bytes
data_after (some (script_ok (set bytes))) held = bytes
data_after (some (script_ok (opening history))) held = held
data_after (some (script_ok reserve)) held = held
data_after (some (script_err e)) held = held
data_after none held = held

-- The data that a transaction sets: that of its last script of this kind.
abbrev pub last_data : List InputContext → Bytes → Bytes
last_data [] held = held
last_data (input ∷ inputs) held = last_data inputs (data_after input.script held)

-- Whether one of the scripts of a transaction reserves the spaces.
abbrev pub any_reserves : List InputContext → Bool
any_reserves [] = false
any_reserves (input ∷ inputs) = reserves input.script || any_reserves inputs

module _ (btc : Bitcoin) (height : ℕ) (tx : Transaction) where
  -- What the loop has gathered from the scripts.
  abbrev pub Flags : Progress → Bool → Bytes → Type 0
  Flags p reserving bytes = (p.reserving ≡ reserving) × (p.space_data ≡ bytes)

  script-Flags :
      (n : ℕ) (script : Option (ScriptResult SpaceScript)) (p q : Progress)
      → process_script btc height tx n script p ≡ ok q
      → Flags q (p.reserving || reserves script) (data_after script p.space_data)
  unfolding process_script
  script-Flags n none p q h = (ground (arith, h), ground (arith, h))
  script-Flags n (some (script_ok (opening history))) p q h =
      let (a, e, k) = >>=-eq-ok (process_open btc n height history p.auctioned p.changeset) _ h in
      (ground (arith, k), ground (arith, k))
  script-Flags n (some (script_ok (set bytes))) p q h = (ground (arith, h), ground (arith, h))
  script-Flags n (some (script_ok reserve)) p q h = (ground (arith, h), ground (arith, h))
  script-Flags n (some (script_err e)) p q h =
      let (spends, _, k) = >>=-eq-ok (set_last_error e p.changeset.spends) _ h in
      (ground (arith, k), ground (arith, k))

  input-Flags :
      (input : InputContext) (p q : Progress)
      → process_input btc height tx input p ≡ ok q
      → Flags q (p.reserving || reserves input.script) (data_after input.script p.space_data)
  unfolding process_input
  input-Flags input p q h =
      let (a, e, k) =
        >>=-eq-ok
          (process_spend btc height tx p.auctioned input.n input.sstxo
            (push_spend input.n p.changeset))
          _ h in
      script-Flags input.n input.script _ q k

  pub loop-Flags :
      (inputs : List InputContext) (p q : Progress)
      → for_each (process_input btc height tx) inputs p ≡ ok q
      → Flags q (p.reserving || any_reserves inputs) (last_data inputs p.space_data)
  unfolding for_each
  loop-Flags [] p q h = (ground (arith, h), ground (arith, h))
  loop-Flags (input ∷ inputs) p q h =
      let (r, e, k) = >>=-eq-ok (process_input btc height tx input p) _ h in
      let (f, g) = input-Flags input p r e in
      let (f', g') = loop-Flags inputs r q k in
      (ground (arith, f, f'), g' ∙ ap (last_data inputs) g)
