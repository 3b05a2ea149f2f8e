-- ===== src/Script/Create.antt =====
-- What the scripts that the crate writes mean when they are read back.
use spaced.Base.{
  true, Option, Result, ltb, ℕ, ◌+◌, ◌^◌, ◌<◌, ◌≡◌, refl, List, [], ◌∷◌, ◌++◌, some, ok, arith, any,
  bytes_eq, length, ◌>>=◌, if◌then◌else◌, sym, ap, take-length_append,
}
use mathlib.Core.List.{append-nil}
use spaced.Bitcoin.{Bitcoin, IsBitcoin, op_drop}
use spaced.Label.{as_ref}
use spaced.Label.Grammar.{IsText, try_from_ref_iff}
use spaced.Label.Owned.{buffer, as_ref-buffer}
use spaced.Keys.{KeyHasher}
use spaced.Spaces.Constants.{reserved_spaces}
use spaced.Script.{
  SpaceScript, ScriptResult, DataSource, script_ok, script_err, reserved_name, magic, opening, set,
  reserve, create_open, create_set_fallback, create_reserve, nop_script, strip_magic,
  find_space_script, open_history, op_open, eval_op, eval, op_open_code,
}

module _ (btc : Bitcoin) (hash : KeyHasher) (src : DataSource) where
  -- A script that is pushed is found again behind its magic prefix.
  find-push :
      IsBitcoin btc
      → (code : ℕ) (bytes : List ℕ) → length bytes + 5 < 2 ^ 32
      → find_space_script
          (btc.instructions (btc.push_opcode op_drop (btc.push_slice (magic ++ (code ∷ bytes)) [])))
        ≡ some (code ∷ bytes)
  unfolding find_space_script strip_magic spaced.Label.starts_with
  find-push laws code bytes small =
      rw (laws.instructions_push (magic ++ (code ∷ bytes)) (omega arith)) (ground arith)

  -- What a script means that is pushed, without effect, and read back.
  abbrev pub pushed : List ℕ → Result (Option (ScriptResult SpaceScript))
  pushed script = nop_script btc script >>= λ revealed. eval hash src (btc.instructions revealed)

  -- The evaluation of a pushed script runs its op code on the bytes behind.
  eval-nop_script :
      IsBitcoin btc
      → (code : ℕ) (bytes : List ℕ) → length bytes + 5 < 2 ^ 32
      → pushed (magic ++ (code ∷ bytes)) ≡ eval_op hash src code bytes
  unfolding eval nop_script
  eval-nop_script laws code bytes small =
      let fits : ltb (length (magic ++ (code ∷ bytes))) (2 ^ 32) ≡ true = ground (arith, small) in
      rw fits (rw (eval, find-push laws code bytes small) refl)

  -- A script that sets data of less than 2 ^ 32 - 5 bytes reads back as the data, and one that
  -- reserves as that.
  pub eval-create_set_fallback :
      IsBitcoin btc
      → (bytes : List ℕ) → length bytes + 5 < 2 ^ 32
      → (pushed (create_set_fallback bytes) ≡ ok (some (script_ok (set bytes))))
        × (pushed create_reserve ≡ ok (some (script_ok reserve)))
  unfolding eval_op
  eval-create_set_fallback laws bytes small =
      (eval-nop_script laws 2 bytes small, eval-nop_script laws 252 [] (omega arith))

  as_ref-borrowed : (text : List ℕ) → as_ref (length text ∷ text) ≡ ok (length text ∷ text)
  unfolding as_ref
  as_ref-borrowed text = ground (arith, take-length_append text [], append-nil text)

  op_open-label :
      (text : List ℕ)
      → IsText text
      → op_open hash src (length text ∷ text) ≡ (
          if any (λ reserved. bytes_eq reserved (length text ∷ text)) reserved_spaces
          then ok (script_err reserved_name)
          else (open_history hash src (length text ∷ text) >>= λ kind. ok (script_ok kind)))
  unfolding op_open
  op_open-label text t =
      let e =
        (try_from_ref_iff (length text ∷ text) (length text ∷ text)).1
          (text, [], ap (◌∷◌ (length text)) (sym (append-nil text)), refl, t) in
      rw (e, as_ref-borrowed text) refl

  -- A script that opens a name reads back as that: one of the reserved names is an error, and for
  -- any other the history of the name is looked up.
  pub eval-create_open :
      IsBitcoin btc
      → (text : List ℕ) → IsText text
      → (script : List ℕ) × (create_open (buffer text) ≡ ok script)
        × (pushed script ≡ (
            if any (λ reserved. bytes_eq reserved (length text ∷ text)) reserved_spaces
            then ok (some (script_err reserved_name))
            else (open_history hash src (length text ∷ text) >>= λ kind.
                ok (some (script_ok (opening kind))))))
  unfolding create_open eval_op
  eval-create_open laws text t = (
    magic ++ (op_open_code ∷ length text ∷ text),
    rw (as_ref-buffer text t) refl,
    rw
        (
          eval-nop_script laws op_open_code (length text ∷ text) (omega (arith, t.short)),
          op_open-label text t,
        )
        (ground arith),
  )
