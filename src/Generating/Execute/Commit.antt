-- ===== src/Generating/Execute/Commit.antt =====
-- What `executeTransaction`, `commitTransaction` and `Recover` of internal/compiler/transaction.go
-- leave in the project, whichever call fails and wherever the run is stopped.
use stego.Prelude.{
  String, ◌≡◌, ◌≢◌, refl, sym, ap, subst, none, some, ◌⊎◌, inl, inr, if◌then◌else◌, Outcome, ok,
  err, In, All, All-of_In, ◌∙◌, Bool-cases, leb,
}
use stego.Prelude.Dict.{Dict}
use stego.Generating.Snapshot.{Bytes}
use stego.Generating.State.{Codec}
use stego.Generating.Transaction.{Operation, Transaction, Fault, Point, Io, validate_transaction}
use stego.Generating.Execute.{
  Env, Project, Exec, ◌>>◌, skip, stop, hit, call, set_journal, wrap, needs_recovery,
  execute_transaction, commit_valid, commit_transaction, recover_from, recover,
  max_transaction_bytes,
}
use stego.Generating.Execute.Effects.{Passive, hit-Passive, call-Passive, state_of}
use stego.Generating.Execute.Recovery.{EachDone, execute_transaction-Executed}

module _ (codec : Codec) where
  open codec use {hash_bytes}

  -- Every file of the transaction is as its operation leaves it.
  abbrev pub AllDone : Transaction → Project → Type 0
  AllDone tx p = All (λ op. state_of hash_bytes p op.path ≡ op.after) tx.operations

  all_done : (tx : Transaction) (p : Project) → EachDone codec tx p → AllDone tx p
  all_done tx p h = All-of_In (λ op. state_of hash_bytes p op.path ≡ op.after) tx.operations h

  -- A run of a transaction, however it ends, changes no file that no operation names.
  pub execute_transaction-others :
      (env : Env) (tx : Transaction) (p : Project) (name : String)
      → ((op : Operation) → In op tx.operations → name ≢ op.path)
      → (execute_transaction codec env tx p).1.disk.files name ≡ p.disk.files name
  execute_transaction-others env tx p name away =
      (execute_transaction-Executed codec env tx p).others name away

  -- A run of a transaction, however it ends, leaves the file of each operation with the snapshot
  -- that it had or with the one that the operation states; there is no third state.
  pub execute_transaction-each :
      (env : Env) (tx : Transaction) (p : Project) (op : Operation)
      → In op tx.operations
      → (state_of hash_bytes (execute_transaction codec env tx p).1 op.path
          ≡ state_of hash_bytes p op.path)
        ⊎ (state_of hash_bytes (execute_transaction codec env tx p).1 op.path ≡ op.after)
  execute_transaction-each env tx p op i = (execute_transaction-Executed codec env tx p).each op i

  -- A run of a transaction, however it ends, keeps the journal, or has removed it with the file of
  -- every operation as that operation states.
  pub execute_transaction-journal :
      (env : Env) (tx : Transaction) (p : Project)
      → ((execute_transaction codec env tx p).1.journal ≡ p.journal)
        ⊎ (((execute_transaction codec env tx p).1.journal ≡ none)
            × AllDone tx (execute_transaction codec env tx p).1)
  execute_transaction-journal env tx p =
      elim (execute_transaction-Executed codec env tx p).journal [
        | inl same ↦ inl same
        | inr (gone, each) ↦ inr (gone, all_done tx (execute_transaction codec env tx p).1 each)
      ]

  pub execute_transaction-done :
      (env : Env) (tx : Transaction) (p : Project)
      → (execute_transaction codec env tx p).0 ≡ ok tt
      → ((execute_transaction codec env tx p).1.journal ≡ none)
        × AllDone tx (execute_transaction codec env tx p).1
  execute_transaction-done env tx p h =
      let (gone, each) = (execute_transaction-Executed codec env tx p).done h in
      (gone, all_done tx (execute_transaction codec env tx p).1 each)

  -- What a commit leaves: nothing has happened, or the journal holds the transaction, or the journal
  -- is gone and every operation is done.
  abbrev pub Committed : Transaction → Project → Outcome {0, 0} Fault Unit × Project → Type 0
  Committed tx p (r, p') =
      ((p'.disk ≡ p.disk) × (p'.journal ≡ p.journal))
      ⊎ ((p'.journal ≡ some tx) ⊎ ((p'.journal ≡ none) × AllDone tx p'))

  untouched :
      (m f : Exec) (tx : Transaction) (p : Project)
      → Passive m
      → Committed tx p (f p)
      → Committed tx p ((m >> f) p)
  untouched m f tx p passive h = elim (passive p) [
    | inl on ↦ rw on h
    | inr (e, off) ↦ rw off (inl (refl, refl))
  ]

  -- With the journal saved, a call that can only fail leaves it so.
  saved :
      (m f : Exec) (tx : Transaction) (p q : Project)
      → q.journal ≡ some tx
      → Passive m
      → Committed tx p (f q)
      → Committed tx p ((m >> f) q)
  saved m f tx p q j passive h = elim (passive q) [
    | inl on ↦ rw on h
    | inr (e, off) ↦ rw off (inr (inl j))
  ]

  executed :
      (env : Env) (tx : Transaction) (p q : Project)
      → q.journal ≡ some tx
      → Committed tx p (execute_transaction codec env tx q)
  executed env tx p q j = elim (execute_transaction-journal env tx q) [
    | inl same ↦ inr (inl (same ∙ j))
    | inr gone ↦ inr (inr gone)
  ]

  pub limit-Passive :
      (env : Env) (tx : Transaction)
      → Passive (
          if leb (env.journal_size tx) max_transaction_bytes
          then skip
          else stop Fault.journal_limit)
  limit-Passive env tx p = elim (Bool-cases (leb (env.journal_size tx) max_transaction_bytes)) [
    | inl fits ↦ rw fits (inl refl)
    | inr large ↦ rw large (inr (Fault.journal_limit, refl))
  ]

  commit_valid-Committed :
      (env : Env) (tx : Transaction) (checked : Outcome Fault (Dict String Bytes)) (p : Project)
      → Committed tx p (commit_valid codec env tx checked p)
  commit_valid-Committed env tx (err e) p = inl (refl, refl)
  commit_valid-Committed env tx (ok contents) p =
      let run =
        call env Io.sync_journal >> hit env Point.prepared >> execute_transaction codec env tx in
      let save = set_journal (some tx) >> needs_recovery codec run in
      let q : Project = record p { journal = some tx } in
      untouched
        (if leb (env.journal_size tx) max_transaction_bytes then skip else stop Fault.journal_limit)
        (hit env Point.before_prepare >> call env Io.write_journal >> save) tx p
        (limit-Passive env tx)
        (untouched (hit env Point.before_prepare) (call env Io.write_journal >> save) tx p
          (hit-Passive env Point.before_prepare)
          (untouched (call env Io.write_journal) save tx p (call-Passive env Io.write_journal) (
            saved (call env Io.sync_journal)
              (hit env Point.prepared >> execute_transaction codec env tx) tx p q refl
              (call-Passive env Io.sync_journal)
              (saved (hit env Point.prepared) (execute_transaction codec env tx) tx p q refl
                (hit-Passive env Point.prepared) (executed env tx p q refl)))))

  -- A commit, whichever call fails and wherever it is stopped, has left the project as it was, or
  -- has saved the transaction in the journal, or has done every operation and removed the journal.
  pub commit_transaction-Committed :
      (env : Env) (tx : Transaction) (p : Project)
      → Committed tx p (commit_transaction codec env tx p)
  unfolding commit_transaction
  commit_transaction-Committed env tx p =
      commit_valid-Committed env tx (validate_transaction codec tx) p

  wrap-ok : (r : Outcome {0, 0} Fault Unit) → wrap codec r ≡ ok tt → r ≡ ok tt
  wrap-ok (ok tt) h = refl
  wrap-ok (err e) h = cc

  passed : (m f : Exec) (p : Project) → Passive m → ((m >> f) p).0 ≡ ok tt → (m >> f) p ≡ f p
  passed m f p passive h = elim (passive p) [
    | inl on ↦ rw on refl
    | inr (e, off) ↦ let k = rw off at h in cc
  ]

  commit_valid-done :
      (env : Env) (tx : Transaction) (checked : Outcome Fault (Dict String Bytes)) (p : Project)
      → (commit_valid codec env tx checked p).0 ≡ ok tt
      → ((commit_valid codec env tx checked p).1.journal ≡ none)
        × AllDone tx (commit_valid codec env tx checked p).1
  commit_valid-done env tx (err e) p h = cc
  commit_valid-done env tx (ok contents) p h =
      let execute = execute_transaction codec env tx in
      let run = call env Io.sync_journal >> hit env Point.prepared >> execute in
      let save = set_journal (some tx) >> needs_recovery codec run in
      let q : Project = record p { journal = some tx } in
      let size =
        if leb (env.journal_size tx) max_transaction_bytes
        then skip
        else stop Fault.journal_limit in
      let e₁ =
        passed size (hit env Point.before_prepare >> call env Io.write_journal >> save) p
          (limit-Passive env tx) h in
      let h₁ = ap (λ c. c.0) (sym e₁) ∙ h in
      let e₂ =
        passed (hit env Point.before_prepare) (call env Io.write_journal >> save) p
          (hit-Passive env Point.before_prepare) h₁ in
      let h₂ = ap (λ c. c.0) (sym e₂) ∙ h₁ in
      let e₃ = passed (call env Io.write_journal) save p (call-Passive env Io.write_journal) h₂ in
      let h₃ = wrap-ok (run q).0 (ap (λ c. c.0) (sym e₃) ∙ h₂) in
      let e₄ =
        passed (call env Io.sync_journal) (hit env Point.prepared >> execute) q
          (call-Passive env Io.sync_journal) h₃ in
      let h₄ = ap (λ c. c.0) (sym e₄) ∙ h₃ in
      let e₅ = passed (hit env Point.prepared) execute q (hit-Passive env Point.prepared) h₄ in
      let h₅ = ap (λ c. c.0) (sym e₅) ∙ h₄ in
      subst (λ r. (r.journal ≡ none) × AllDone tx r)
        (sym (ap (λ c. c.1) (e₁ ∙ e₂ ∙ e₃) ∙ ap (λ c. c.1) (e₄ ∙ e₅)))
        (execute_transaction-done env tx q h₅)

  -- A commit that returns has removed the journal and done every operation.
  pub commit_transaction-done :
      (env : Env) (tx : Transaction) (p : Project)
      → (commit_transaction codec env tx p).0 ≡ ok tt
      → ((commit_transaction codec env tx p).1.journal ≡ none)
        × AllDone tx (commit_transaction codec env tx p).1
  unfolding commit_transaction
  commit_transaction-done env tx p h = commit_valid-done env tx (validate_transaction codec tx) p h

  -- A recovery that returns on a project whose journal holds a transaction has removed the journal
  -- and left every file of the transaction as its operation states.
  pub recover-done :
      (env : Env) (tx : Transaction) (p : Project)
      → p.journal ≡ some tx
      → (recover codec env p).0 ≡ ok tt
      → ((recover codec env p).1.journal ≡ none) × AllDone tx (recover codec env p).1
  unfolding recover
  recover-done env tx p j h =
      subst
        (λ o.
          (recover_from codec env o p).0 ≡ ok tt
          → ((recover_from codec env o p).1.journal ≡ none)
            × AllDone tx (recover_from codec env o p).1)
        (sym j)
        (λ k. execute_transaction-done env tx p (wrap-ok (execute_transaction codec env tx p).0 k))
        h
