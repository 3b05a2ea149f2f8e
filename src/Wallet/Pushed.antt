-- ===== src/Wallet/Pushed.antt =====
-- The operations that the first transaction of a stack leaves to be done.
use spaced.Bitcoin.{Transaction}
use spaced.Wallet.Stack.{
  after_prepare, next, prepare_op, TaggedTransaction, open_reveals, execute_reveals, zip_executes,
  pop, zip_opens,
}
use spaced.Wallet.{FullTxOut}
use spaced.Wallet.Requests.{
  BidRequest, ExecuteParams, OpenParams, ExecuteRequest, OpenRequest, CreateParams, SpaceTransfer,
  execute, open_space, prepare, SigningInfo, StackOp,
}
use spaced.Base.{
  ◌+◌, ◌≤◌, err, >>=-eq-ok, ok, suc, sym, arith, ◌∙◌, drop, length, take, ap, Result, some, refl, ℕ,
  ◌≡◌, [], ◌++◌, ◌∷◌, List,
}

-- The operations for requests: each open and then each execution, with the next script and the next
-- commitment. They end where one of the lists does.
abbrev pub left_by :
    List OpenRequest → List ExecuteRequest → List SigningInfo → List FullTxOut → List StackOp
left_by (o ∷ os) es (s ∷ ss) (c ∷ cs) =
    open_space (record {
      reveals = (record { signing = s; commitment = c }) ∷ [];
      amount = o.initial_amount;
    })
    ∷ left_by os es ss cs
left_by (o ∷ os) es (s ∷ ss) [] = []
left_by (o ∷ os) es [] cs = []
left_by [] (e ∷ es) (s ∷ ss) (c ∷ cs) =
    execute (record { reveal = record { signing = s; commitment = c }; context = e.context })
    ∷ left_by [] es ss cs
left_by [] (e ∷ es) (s ∷ ss) [] = []
left_by [] (e ∷ es) [] cs = []
left_by [] [] ss cs = []

zip_executes-nil :
    (ss : List SigningInfo) (contexts : List (List SpaceTransfer))
    → zip_executes ss [] contexts ≡ []
unfolding zip_executes
zip_executes-nil [] contexts = refl
zip_executes-nil (s ∷ ss) contexts = refl

pop-append : (xs : List StackOp) (x : StackOp) → pop (xs ++ (x ∷ [])) ≡ some (x, xs)
unfolding pop
pop-append [] x = refl
pop-append (y ∷ xs) x = rw (pop-append xs x) refl

module _ (open_tap_data : List ℕ → Result SigningInfo)
    (signing_info : List ℕ → Result SigningInfo) where
  -- The scripts of requests, in order: that of the name of each open, and what each execution reveals.
  abbrev pub AreScripts : List OpenRequest → List ExecuteRequest → List SigningInfo → Type 0
  AreScripts (o ∷ os) es [] = ⊥
  AreScripts (o ∷ os) es (s ∷ ss) = (open_tap_data o.name ≡ ok s) × AreScripts os es ss
  AreScripts [] (e ∷ es) [] = ⊥
  AreScripts [] (e ∷ es) (s ∷ ss) = (signing_info e.script ≡ ok s) × AreScripts [] es ss
  AreScripts [] [] [] = Unit
  AreScripts [] [] (s ∷ ss) = ⊥

  -- What the loop over the executions gives.
  executes-left_by :
      (es : List ExecuteRequest) (ss : List SigningInfo) (contexts : List (List SpaceTransfer))
      → execute_reveals open_tap_data signing_info es ≡ ok (ss, contexts)
      → AreScripts [] es ss
        × ((cs : List FullTxOut) → zip_executes ss cs contexts ≡ left_by [] es ss cs)
  unfolding execute_reveals zip_executes
  executes-left_by [] ss contexts h =
      let none_left : [] ≡ ss = ground (arith, h) in rw (← none_left) (tt, λ cs. refl)
  executes-left_by (e ∷ es) ss contexts h =
      let (s, e₁, h₁) = >>=-eq-ok (signing_info e.script) _ h in
      let ((rs, more), e₂, h₂) = >>=-eq-ok (execute_reveals open_tap_data signing_info es) _ h₁ in
      let (scripts, same) = executes-left_by es rs more e₂ in
      let at : s ∷ rs ≡ ss = ground (arith, h₂) in
      let at' : e.context ∷ more ≡ contexts = ground (arith, h₂) in
      rw (← at, ← at')
        (
          (e₁, scripts),
          λ cs.
              elim cs
                as (λ (cs : List FullTxOut).
                  zip_executes (s ∷ rs) cs (e.context ∷ more) ≡ left_by [] (e ∷ es) (s ∷ rs) cs) [
                    | [] ↦ refl
                    | c ∷ cs' ↦
                        ap
                          (◌∷◌ (
                            execute (record {
                              reveal = record { signing = s; commitment = c };
                              context = e.context;
                            })))
                          (same cs')
                  ],
        )

  -- With a commitment for each script no request is left out.
  left_by-length :
      (os : List OpenRequest) (es : List ExecuteRequest) (ss : List SigningInfo)
      (cs : List FullTxOut)
      → AreScripts os es ss
      → length ss ≤ length cs
      → length (left_by os es ss cs) ≡ length os + length es
  left_by-length (o ∷ os) es [] cs a enough = absurd a
  left_by-length (o ∷ os) es (s ∷ ss) [] a enough = absurd (omega (arith, enough))
  left_by-length (o ∷ os) es (s ∷ ss) (c ∷ cs) (_, a) enough =
      omega (arith, left_by-length os es ss cs a (omega (arith, enough)))
  left_by-length [] (e ∷ es) [] cs a enough = absurd a
  left_by-length [] (e ∷ es) (s ∷ ss) [] a enough = absurd (omega (arith, enough))
  left_by-length [] (e ∷ es) (s ∷ ss) (c ∷ cs) (_, a) enough =
      omega (arith, left_by-length [] es ss cs a (omega (arith, enough)))
  left_by-length [] [] [] cs a enough = refl
  left_by-length [] [] (s ∷ ss) cs a enough = absurd a

  -- What both loops give: the scripts of the requests, and, split where the opens end and zipped with
  -- the commitments, the operations that are left.
  opens-left_by :
      (es : List ExecuteRequest) (scripts : List SigningInfo) (contexts : List (List SpaceTransfer))
      → execute_reveals open_tap_data signing_info es ≡ ok (scripts, contexts)
      → (os : List OpenRequest) (opened : List SigningInfo) (amounts : List ℕ)
      → open_reveals open_tap_data signing_info os ≡ ok (opened, amounts)
      → AreScripts os es (opened ++ scripts)
        × ((cs : List FullTxOut)
            → zip_opens
                  (take (length amounts) (opened ++ scripts))
                  (take (length amounts) cs)
                  amounts
                ++ zip_executes
                    (drop (length amounts) (opened ++ scripts))
                    (drop (length amounts) cs)
                    contexts
              ≡ left_by os es (opened ++ scripts) cs)
  unfolding open_reveals zip_opens
  opens-left_by es scripts contexts x [] opened amounts h =
      let none_left : [] ≡ opened = ground (arith, h) in
      let none_left' : [] ≡ amounts = ground (arith, h) in
      rw (← none_left, ← none_left') (executes-left_by es scripts contexts x)
  opens-left_by es scripts contexts x (o ∷ os) opened amounts h =
      let (s, e₁, h₁) = >>=-eq-ok (open_tap_data o.name) _ h in
      let ((rs, more), e₂, h₂) = >>=-eq-ok (open_reveals open_tap_data signing_info os) _ h₁ in
      let (signs, same) = opens-left_by es scripts contexts x os rs more e₂ in
      let at : s ∷ rs ≡ opened = ground (arith, h₂) in
      let at' : o.initial_amount ∷ more ≡ amounts = ground (arith, h₂) in
      rw (← at, ← at')
        (
          (e₁, signs),
          λ cs.
              elim cs
                as (λ (cs : List FullTxOut).
                  zip_opens (s ∷ take (length more) (rs ++ scripts)) (take (suc (length more)) cs)
                      (o.initial_amount ∷ more)
                    ++ zip_executes (drop (length more) (rs ++ scripts))
                        (drop (suc (length more)) cs) contexts
                  ≡ left_by (o ∷ os) es (s ∷ rs ++ scripts) cs) [
                    | [] ↦ zip_executes-nil (drop (length more) (rs ++ scripts)) contexts
                    | c ∷ cs' ↦
                        ap
                          (◌∷◌ (
                            open_space (record {
                              reveals = (record { signing = s; commitment = c }) ∷ [];
                              amount = o.initial_amount;
                            })))
                          (same cs')
                  ],
        )

module _ (open_tap_data : List ℕ → Result SigningInfo) (signing_info : List ℕ → Result SigningInfo)
    (prepare_all : CreateParams → List SigningInfo → Result (Transaction × List FullTxOut))
    (open_tx : OpenParams → Result Transaction) (execute_tx : ExecuteParams → Result Transaction)
    (bid_tx : BidRequest → Result Transaction) where
  -- What the first transaction leaves: it is built for the scripts of the requests, and the operations
  -- that are pushed are those for the requests, with these scripts and its commitments.
  pub record Pushes (params : CreateParams) (t : TaggedTransaction) (pushed : List StackOp)
      : Type 0 where
    pub scripts : List SigningInfo
    pub commitments : List FullTxOut
    pub are_scripts : AreScripts open_tap_data signing_info params.opens params.executes scripts
    pub built : prepare_all params scripts ≡ ok (t.tx, commitments)
    pub left : pushed ≡ left_by params.opens params.executes scripts commitments
    pub whole :
        length scripts ≤ length commitments
        → length pushed ≡ length params.opens + length params.executes

  prepare_op-Pushes :
      (params : CreateParams) (t : TaggedTransaction) (pushed : List StackOp)
      → prepare_op open_tap_data signing_info prepare_all open_tx execute_tx bid_tx params
        ≡ ok (t, pushed)
      → Pushes params t pushed
  unfolding prepare_op
  prepare_op-Pushes params t pushed h =
      let ((opened, amounts), e₁, h₁) =
        >>=-eq-ok (open_reveals open_tap_data signing_info params.opens) _ h in
      let ((scripts, contexts), e₂, h₂) =
        >>=-eq-ok (execute_reveals open_tap_data signing_info params.executes) _ h₁ in
      let ((tx, commitments), e₃, h₃) = >>=-eq-ok (prepare_all params (opened ++ scripts)) _ h₂ in
      let (signs, same) =
        opens-left_by open_tap_data signing_info params.executes scripts contexts e₂ params.opens
          opened amounts e₁ in
      let n = length amounts in
      let rs = opened ++ scripts in
      let at : zip_opens (take n rs) (take n commitments) amounts
            ++ zip_executes (drop n rs) (drop n commitments) contexts
          ≡ pushed =
        ground (arith, h₃) in
      let tx_at : tx ≡ t.tx = ground (arith, h₃) in
      record {
        scripts = rs;
        commitments = commitments;
        are_scripts = signs;
        built = e₃ ∙ ap (λ x. ok (x, commitments)) tx_at;
        left = sym at ∙ same commitments;
        whole = λ enough.
            ap length (sym at ∙ same commitments)
            ∙ left_by-length open_tap_data signing_info params.opens params.executes rs commitments
                signs enough;
      }

  after_prepare-ok :
      (rest left : List StackOp) (r : Result (TaggedTransaction × List StackOp))
      (t : TaggedTransaction)
      → after_prepare open_tap_data signing_info prepare_all open_tx execute_tx bid_tx rest r
        ≡ (ok t, left)
      → (pushed : List StackOp) × (r ≡ ok (t, pushed)) × (left ≡ rest ++ pushed)
  after_prepare-ok rest left (err e) t h = absurd (ground (arith, h))
  after_prepare-ok rest left (ok (u, pushed)) t h =
      let same : u ≡ t = ground (arith, ap (λ p. p.0) h) in
      (pushed, ap (λ x. ok (x, pushed)) same, sym (ap (λ p. p.1) h))

  -- When the first transaction of a stack has been made, the stack has in its place one operation for
  -- each open and then for each execution, as far as the commitments go. It reveals the script that
  -- belongs to the request, with the commitment that the transaction has at its place, and has the
  -- amount of the open or the transfers of the execution. With as many commitments as scripts, no
  -- request is left out.
  pub next-Pushes :
      (rest left : List StackOp) (params : CreateParams) (t : TaggedTransaction)
      → next open_tap_data signing_info prepare_all open_tx execute_tx bid_tx
          (rest ++ (prepare params ∷ []))
        ≡ some (ok t, left)
      → (pushed : List StackOp) × (left ≡ rest ++ pushed) × Pushes params t pushed
  unfolding next
  next-Pushes rest left params t h =
      let h₁ = rw (next, pop-append rest (prepare params)) at h in
      let same : after_prepare open_tap_data signing_info prepare_all open_tx execute_tx bid_tx rest
            (prepare_op open_tap_data signing_info prepare_all open_tx execute_tx bid_tx params)
          ≡ (ok t, left) =
        cc h₁ in
      let (pushed, e, at) = after_prepare-ok rest left _ t same in
      (pushed, at, prepare_op-Pushes params t pushed e)
