-- ===== src/Generating/Planning/Applied.antt =====
-- What an apply leaves in the project, from the plan on: `computePlan`, `bindPlanInputs` and
-- `applyWithFault` of internal/compiler/reconciler.go with the journal of transaction.go.
use stego.Prelude.{
  String, ◌≡◌, ◌≢◌, refl, sym, ap, subst, Bool, true, false, not, ◌&&◌, ◌||◌, List, [], ◌∷◌, ◌++◌,
  Option, none, some, arith, ◌==◌, string_eq, if◌then◌else◌, Outcome, ok, err, In, In-cons, All,
  All-In, In-append_left, In-append_right, In-append_cases, In-single, ◌∙◌, ◌⊎◌, inl, inr,
  Bool-cases, Option-cases, eq_of_beq, beq_ne, is_empty,
}
use stego.Prelude.Dict.{Dict}
use stego.Generating.Paths.{output_relative, state_path, is_project_root_file, project_file_path}
use stego.Generating.Paths.Names.{IsReserved, project_file_path-free, project_file_path-injective}
use stego.Generating.Snapshot.{Bytes, FileSnapshot, snapshot_of}
use stego.Generating.State.{Codec}
use stego.Generating.Transaction.{Operation, Transaction, Fault, Io}
use stego.Generating.Execute.{Env, Project, start_apply, commit_transaction}
use stego.Generating.Execute.Effects.{call-Passive}
use stego.Generating.Execute.Commit.{commit_transaction-done}
use stego.Generating.Execute.Protocol.{start_apply-none, Frame-commit_transaction}
use stego.Generating.Planning.Types.{Plan, PlanFault}
use stego.Generating.Planning.Prepare.{expected_of, transaction_of, prepare_transaction}
use stego.Generating.Planning.Prepared.{Effect, Prepared, prepare_transaction-Prepared}
use stego.Generating.Planning.Checked.{Accepted, check_apply-Accepted}
use stego.Generating.Planning.Apply.{
  Session, saved_plan_path, check_apply, lift_run, remove_saved_plan, and_remove, run_prepared,
  run_checked, apply,
}

state_path-IsReserved : IsReserved state_path
unfolding IsReserved
state_path-IsReserved = refl

saved_plan_path-IsReserved : IsReserved saved_plan_path
unfolding IsReserved
saved_plan_path-IsReserved = refl

state_path-own : is_project_root_file state_path ≡ false
unfolding is_project_root_file
state_path-own = refl

saved_plan_path-own : is_project_root_file saved_plan_path ≡ false
unfolding is_project_root_file
saved_plan_path-own = refl

pub state_path-free :
    (out path : String) → output_relative out ≡ true → project_file_path out path ≢ state_path
state_path-free out path valid =
    project_file_path-free out path state_path valid state_path-IsReserved state_path-own

pub saved_plan_path-free :
    (out path : String) → output_relative out ≡ true → project_file_path out path ≢ saved_plan_path
saved_plan_path-free out path valid =
    project_file_path-free out path saved_plan_path valid saved_plan_path-IsReserved
      saved_plan_path-own

module _ (codec : Codec) where
  open codec use {hash_bytes, utf8}

  -- Removing the saved plan touches no other file.
  removed-others :
      (env : Env) (q : Project) (name : String)
      → name ≢ saved_plan_path
      → (lift_run codec (remove_saved_plan codec env q)).1.disk.files name ≡ q.disk.files name
  removed-others env q name away = elim (call-Passive env (Io.remove_file saved_plan_path) q) [
    | inl on ↦ rw (on, beq_ne saved_plan_path name (λ e. away (sym e))) refl
    | inr (e, off) ↦ rw off refl
  ]

  and_remove-others :
      (env : Env) (r : Outcome {0, 0} Fault Unit) (q : Project) (name : String)
      → name ≢ saved_plan_path
      → (and_remove codec env (r, q)).1.disk.files name ≡ q.disk.files name
  and_remove-others env (ok u) q name away = removed-others env q name away
  and_remove-others env (err e) q name away = refl

  and_remove-ok :
      (env : Env) (r : Outcome {0, 0} Fault Unit) (q : Project)
      → (and_remove codec env (r, q)).0 ≡ ok tt
      → r ≡ ok tt
  and_remove-ok env (ok tt) q h = refl
  and_remove-ok env (err e) q h = cc

  -- What the commit of prepared operations does, beside the record and the saved plan.
  pub record Ran (ops : List Operation) (p q : Project) : Type 0 where
    pub done :
        (o : Operation)
        → In o ops
        → o.path ≢ saved_plan_path
        → snapshot_of hash_bytes (q.disk.files o.path) ≡ o.after
    pub others :
        (name : String)
        → name ≢ saved_plan_path
        → name ≢ state_path
        → ((o : Operation) → In o ops → name ≢ o.path)
        → q.disk.files name ≡ p.disk.files name

  away_from :
      (out : String) (expected : Dict String FileSnapshot) (ops : List Operation) (data' : Bytes)
      (name : String)
      → name ≢ state_path
      → ((o : Operation) → In o ops → name ≢ o.path)
      → (o : Operation) → In o (transaction_of codec out expected ops data').operations
      → name ≢ o.path
  away_from out expected ops data' name own away o i e = elim (In-append_cases ops _ i) [
    | inl j ↦ away o j e
    | inr j ↦ own (e ∙ ap (λ x. x.path) (sym (In-single j)))
  ]

  pub Prepared-others :
      (env : Env) (plan : Plan) (out : String) (tx : Option Transaction) (p : Project)
      (prepared : Prepared codec plan out tx) (name : String)
      → p.journal ≡ none
      → name ≢ saved_plan_path
      → name ≢ state_path
      → ((o : Operation) → In o prepared.ops → name ≢ o.path)
      → (run_prepared codec env (ok tx) p).1.disk.files name ≡ p.disk.files name
  Prepared-others env plan out tx p prepared name empty not_saved own away = elim prepared.result [
    | inl (e, _) ↦
        subst (λ t. (run_prepared codec env (ok t) p).1.disk.files name ≡ p.disk.files name) (sym e)
          (removed-others env p name not_saved)
    | inr e ↦
        let t =
          transaction_of codec out (expected_of out plan.snapshots) prepared.ops
            prepared.state_data in
        let run = commit_transaction codec env t p in
        subst (λ x. (run_prepared codec env (ok x) p).1.disk.files name ≡ p.disk.files name) (sym e)
          (subst (λ c. (and_remove codec env c).1.disk.files name ≡ p.disk.files name)
            (sym (start_apply-none codec t env p empty))
            (and_remove-others env run.0 run.1 name not_saved
              ∙ (Frame-commit_transaction codec t env p).others name (
                  away_from out (expected_of out plan.snapshots) prepared.ops prepared.state_data
                    name own away)))
  ]

  Prepared-done :
      (env : Env) (plan : Plan) (out : String) (tx : Option Transaction) (p : Project)
      (prepared : Prepared codec plan out tx)
      → p.journal ≡ none
      → (run_prepared codec env (ok tx) p).0 ≡ ok tt
      → (o : Operation) → In o prepared.ops
      → o.path ≢ saved_plan_path
      → snapshot_of hash_bytes ((run_prepared codec env (ok tx) p).1.disk.files o.path) ≡ o.after
  Prepared-done env plan out tx p prepared empty h o i not_saved = elim prepared.result [
    | inl (_, no_ops) ↦ elim (subst (λ l. In o l) no_ops i) [ ]
    | inr e ↦
        let t =
          transaction_of codec out (expected_of out plan.snapshots) prepared.ops
            prepared.state_data in
        let run = commit_transaction codec env t p in
        let h₁ : (and_remove codec env (start_apply codec env t p)).0 ≡ ok tt =
          subst (λ x. (run_prepared codec env (ok x) p).0 ≡ ok tt) e h in
        let h₂ : (and_remove codec env run).0 ≡ ok tt =
          subst (λ c. (and_remove codec env c).0 ≡ ok tt) (start_apply-none codec t env p empty)
            h₁ in
        let returned = and_remove-ok env run.0 run.1 h₂ in
        let (_, all_done) = commit_transaction-done codec env t p returned in
        subst
          (λ x.
            snapshot_of hash_bytes ((run_prepared codec env (ok x) p).1.disk.files o.path)
            ≡ o.after)
          (sym e)
          (subst
            (λ c. snapshot_of hash_bytes ((and_remove codec env c).1.disk.files o.path) ≡ o.after)
            (sym (start_apply-none codec t env p empty))
            (ap (snapshot_of hash_bytes) (and_remove-others env run.0 run.1 o.path not_saved)
              ∙ All-In (λ x. snapshot_of hash_bytes (run.1.disk.files x.path) ≡ x.after)
                  t.operations all_done (In-append_left _ i)))
  ]

  -- An apply that returns has passed the checks, prepared a journal and run it.
  pub record Done (session : Session) (plan : Plan) (out : String) (p q : Project) : Type 0 where
    pub accepted : Accepted codec session plan out p
    pub tx : Option Transaction
    pub prepared : Prepared codec plan out tx
    pub ran : Ran prepared.ops p q

  run_prepared-Done :
      (session : Session) (env : Env) (plan : Plan) (out : String) (p : Project)
      (made : Outcome PlanFault (Option Transaction))
      → Accepted codec session plan out p
      → prepare_transaction codec plan out ≡ made
      → (run_prepared codec env made p).0 ≡ ok tt
      → Done session plan out p (run_prepared codec env made p).1
  run_prepared-Done session env plan out p (err e) accepted made h = cc
  run_prepared-Done session env plan out p (ok tx) accepted made h =
      let prepared = prepare_transaction-Prepared codec plan out tx made in
      record {
        accepted = accepted;
        tx = tx;
        prepared = prepared;
        ran = record {
          done = Prepared-done env plan out tx p prepared accepted.journal h;
          others = λ n not_saved own away.
              Prepared-others env plan out tx p prepared n accepted.journal not_saved own away;
        };
      }

  run_checked-Done :
      (session : Session) (env : Env) (plan : Plan) (out : String) (p : Project)
      (checked : Outcome {0, 0} PlanFault Unit)
      → check_apply codec session plan out p ≡ checked
      → (run_checked codec env checked plan out p).0 ≡ ok tt
      → Done session plan out p (run_checked codec env checked plan out p).1
  run_checked-Done session env plan out p (err e) checked h = cc
  run_checked-Done session env plan out p (ok tt) checked h =
      run_prepared-Done session env plan out p (prepare_transaction codec plan out)
        (check_apply-Accepted codec session plan out p checked) refl h

  pub apply-Done :
      (session : Session) (env : Env) (plan : Plan) (out : String) (p : Project)
      → (apply codec session env plan out p).0 ≡ ok tt
      → Done session plan out p (apply codec session env plan out p).1
  unfolding apply
  apply-Done session env plan out p h =
      run_checked-Done session env plan out p (check_apply codec session plan out p) refl h

  -- Either an operation names a file, or none does.
  named_by :
      (ops : List Operation) (name : String)
      → ((o : Operation) × In o ops × (o.path ≡ name))
        ⊎ ((o : Operation) → In o ops → name ≢ o.path)
  named_by [] name = inr (λ o i. elim i [ ])
  named_by (op ∷ ops) name = elim (named_by ops name) [
    | inl (o, i, e) ↦ inl (o, In.there i, e)
    | inr away ↦ elim (Bool-cases (op.path == name)) [
      | inl same ↦ inl (op, In.here, eq_of_beq op.path name same)
      | inr other ↦ inr (
          In-cons (λ (o : Operation). name ≢ o.path)
            (λ e.
              let k : (op.path == op.path) ≡ false = rw e at other in
              cc (k, stego.Prelude.beq_refl op.path))
            away)
    ]
  ]

  -- The file of a planned path when the apply has returned: as an operation has left it, or as it was.
  pub planned_fate :
      (session : Session) (plan : Plan) (out : String) (p q : Project) (path : String)
      (done : Done session plan out p q)
      → Effect codec done.prepared.contents path
          (snapshot_of hash_bytes (q.disk.files (project_file_path out path)))
        ⊎ ((q.disk.files (project_file_path out path) ≡ p.disk.files (project_file_path out path))
            × ((o : Operation) → In o done.prepared.ops → project_file_path out path ≢ o.path))
  planned_fate session plan out p q path done =
      let name = project_file_path out path in
      let valid = done.accepted.valid in
      elim (named_by done.prepared.ops name) [
        | inl (o, i, e) ↦
            let (f, j, at', effect) = done.prepared.made.effects o i in
            let same : f.path ≡ path =
              project_file_path-injective out f.path path valid (sym at' ∙ e) in
            let ended = done.ran.done o i (λ k. saved_plan_path-free out path valid (sym e ∙ k)) in
            let there : snapshot_of hash_bytes (q.disk.files name) ≡ o.after =
              ap (λ n. snapshot_of hash_bytes (q.disk.files n)) (sym e) ∙ ended in
            inl (
              subst (λ s. Effect codec done.prepared.contents path s) (sym there)
                (subst (λ x. Effect codec done.prepared.contents x o.after) same effect))
        | inr away ↦ inr (
          done.ran.others name (saved_plan_path-free out path valid)
              (state_path-free out path valid) away,
          away,
        )
      ]
