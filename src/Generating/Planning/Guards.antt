-- ===== src/Generating/Planning/Guards.antt =====
-- What an apply refuses and what it never touches, for `applyWithFault` and `refuseHandEdits` of
-- internal/compiler/reconciler.go and `StillApplies` of saved_plan.go.
use stego.Prelude.{
  String, ◌≡◌, ◌≢◌, refl, ap, subst, Bool, true, false, ◌&&◌, ◌||◌, List, [], ◌∷◌, Option, none,
  some, arith, ◌==◌, string_eq, Outcome, ok, err, In, ◌∙◌, eq_of_beq, eq_iff, is_empty,
  append-empty, require-eq-ok, >>=-eq-ok,
}
use stego.Prelude.Dict.{Dict, lookup}
use stego.Generating.Paths.{state_path, is_project_root_file, project_file_path}
use stego.Generating.Snapshot.{Disk, FileSnapshot}
use stego.Generating.State.{Codec, BuildRecord}
use stego.Generating.Transaction.{Transaction}
use stego.Generating.Execute.{Env, Project}
use stego.Generating.Planning.Types.{Action, SavedPlanFile, SavedPlan, PlannedFile, Plan, PlanFault}
use stego.Generating.Planning.Compute.{PlanInput, recorded_files, is_edited}
use stego.Generating.Planning.Loops.{seen}
use stego.Generating.Planning.Edits.{compute_plan-hand_edited}
use stego.Generating.Planning.Prepare.{prepare_transaction}
use stego.Generating.Planning.Prepared.{prepare_transaction-Prepared}
use stego.Generating.Planning.Saved.{
  action_beq, build_beq, saved_file_beq, saved_files_beq, differs, differences, new_saved_plan,
  still_applies,
}
use stego.Generating.Planning.Checked.{check_apply-Accepted}
use stego.Generating.Planning.Apply.{
  Session, ApplyFault, saved_plan_path, check_apply, run_prepared, run_checked, apply,
}
use stego.Generating.Planning.Applied.{Prepared-others, apply-Done}
use stego.Generating.Planning.Reconcile.{confirmed, make_plan, make_plan-Made}

module _ (codec : Codec) where
  open codec use {hash_bytes}

  run_prepared-others :
      (env : Env) (plan : Plan) (out : String) (made : Outcome PlanFault (Option Transaction))
      (p : Project) (name : String)
      → prepare_transaction codec plan out ≡ made
      → p.journal ≡ none
      → name ≢ saved_plan_path
      → name ≢ state_path
      → ((f : PlannedFile) → In f plan.files → name ≢ project_file_path out f.path)
      → (run_prepared codec env made p).1.disk.files name ≡ p.disk.files name
  run_prepared-others env plan out (err e) p name h empty not_saved own away = refl
  run_prepared-others env plan out (ok tx) p name h empty not_saved own away =
      let prepared = prepare_transaction-Prepared codec plan out tx h in
      Prepared-others codec env plan out tx p prepared name empty not_saved own
        (λ o i e. let (f, j, at', _) = prepared.made.effects o i in away f j (e ∙ at'))

  run_checked-others :
      (session : Session) (env : Env) (plan : Plan) (out : String)
      (checked : Outcome {0, 0} PlanFault Unit) (p : Project) (name : String)
      → check_apply codec session plan out p ≡ checked
      → name ≢ saved_plan_path
      → name ≢ state_path
      → ((f : PlannedFile) → In f plan.files → name ≢ project_file_path out f.path)
      → (run_checked codec env checked plan out p).1.disk.files name ≡ p.disk.files name
  run_checked-others session env plan out (err e) p name h not_saved own away = refl
  run_checked-others session env plan out (ok tt) p name h not_saved own away =
      run_prepared-others env plan out (prepare_transaction codec plan out) p name refl
        (check_apply-Accepted codec session plan out p h).journal not_saved own away

  -- An apply, however it ends, changes no file but those that the plan lists, the record and the
  -- saved plan.
  pub apply-others :
      (session : Session) (env : Env) (plan : Plan) (out : String) (p : Project) (name : String)
      → name ≢ saved_plan_path
      → name ≢ state_path
      → ((f : PlannedFile) → In f plan.files → name ≢ project_file_path out f.path)
      → (apply codec session env plan out p).1.disk.files name ≡ p.disk.files name
  unfolding apply
  apply-others session env plan out p name not_saved own away =
      run_checked-others session env plan out (check_apply codec session plan out p) p name refl
        not_saved own away

  refused :
      (env : Env) (checked : Outcome {0, 0} PlanFault Unit) (plan : Plan) (out : String)
      (p : Project)
      → checked ≢ ok tt
      → (e : ApplyFault) × (run_checked codec env checked plan out p ≡ (err e, p))
  refused env (ok tt) plan out p h = absurd (h refl)
  refused env (err e) plan out p h = (ApplyFault.refused e, refl)

  In-nonempty : (l : List String) {x : String} → In x l → is_empty l ≡ false
  In-nonempty (y ∷ l) i = refl
  In-nonempty [] i = elim i [ ]

  -- An apply of a plan that would replace a recorded file that was missing or not as recorded when the
  -- plan was made fails and leaves the project as it was, unless the author lets it replace such files.
  pub apply-hand_edits :
      (session : Session) (env : Env) (d : Disk) (input : PlanInput)
      (inputs : Dict String FileSnapshot) (plan : Plan) (saved : Option SavedPlan) (p : Project)
      (path hash : String)
      → make_plan codec session d input inputs ≡ ok plan
      → lookup path (recorded_files input.existing.last_applied) ≡ some hash
      → is_project_root_file path ≡ false
      → is_edited (seen codec d (project_file_path input.out path)) hash ≡ true
      → (e : ApplyFault) × (apply codec session env (confirmed false saved plan) input.out p
          ≡ (err e, p))
  unfolding apply
  apply-hand_edits session env d input inputs plan saved p path hash makes known own changed =
      let m = make_plan-Made codec session d input inputs plan makes in
      let found =
        compute_plan-hand_edited codec d session.build input m.planned path hash m.computed known
          own changed in
      let listed : In path plan.hand_edited =
        subst (λ (x : Plan). In path x.hand_edited) m.result found in
      let now = confirmed false saved plan in
      refused env (check_apply codec session now input.out p) now input.out p (λ passes.
        let test = (check_apply-Accepted codec session now input.out p passes).hand_edits in
        let some_edit = In-nonempty plan.hand_edited listed in
        contradicts (is_empty plan.hand_edited) some_edit test)
    where
      contradicts : (b : Bool) → b ≡ false → (b || false) ≢ true
      contradicts b h k = ground arith

  action_beq-eq : (a b : Action) → action_beq a b ≡ true → a ≡ b
  action_beq-eq Action.generate Action.generate h = refl
  action_beq-eq Action.generate Action.update h = cc
  action_beq-eq Action.generate Action.unchanged h = cc
  action_beq-eq Action.generate Action.delete h = cc
  action_beq-eq Action.generate (Action.other t) h = cc
  action_beq-eq Action.update Action.generate h = cc
  action_beq-eq Action.update Action.update h = refl
  action_beq-eq Action.update Action.unchanged h = cc
  action_beq-eq Action.update Action.delete h = cc
  action_beq-eq Action.update (Action.other t) h = cc
  action_beq-eq Action.unchanged Action.generate h = cc
  action_beq-eq Action.unchanged Action.update h = cc
  action_beq-eq Action.unchanged Action.unchanged h = refl
  action_beq-eq Action.unchanged Action.delete h = cc
  action_beq-eq Action.unchanged (Action.other t) h = cc
  action_beq-eq Action.delete Action.generate h = cc
  action_beq-eq Action.delete Action.update h = cc
  action_beq-eq Action.delete Action.unchanged h = cc
  action_beq-eq Action.delete Action.delete h = refl
  action_beq-eq Action.delete (Action.other t) h = cc
  action_beq-eq (Action.other s) Action.generate h = cc
  action_beq-eq (Action.other s) Action.update h = cc
  action_beq-eq (Action.other s) Action.unchanged h = cc
  action_beq-eq (Action.other s) Action.delete h = cc
  action_beq-eq (Action.other s) (Action.other t) h = ap Action.other (eq_of_beq s t h)

  saved_file-eq : (a b : SavedPlanFile) → saved_file_beq a b ≡ true → a ≡ b
  saved_file-eq a b h =
      ground
        (arith, eq_iff a.path b.path, eq_iff a.sha256 b.sha256, action_beq-eq a.action b.action)

  saved_files-eq : (a b : List SavedPlanFile) → saved_files_beq a b ≡ true → a ≡ b
  unfolding saved_files_beq
  saved_files-eq [] [] h = refl
  saved_files-eq (x ∷ xs) (y ∷ ys) h =
      let (first, rest) = both (saved_file_beq x y) (saved_files_beq xs ys) h in
      let e = saved_file-eq x y first in let es = saved_files-eq xs ys rest in cc
    where
      both : (p q : Bool) → (p && q) ≡ true → (p ≡ true) × (q ≡ true)
      both p q h = ground arith
  saved_files-eq [] (y ∷ ys) h = cc
  saved_files-eq (x ∷ xs) [] h = cc

  build-eq : (a b : BuildRecord) → build_beq a b ≡ true → a ≡ b
  build-eq a b h = ground (
    arith,
    eq_iff a.go_version b.go_version,
    eq_iff a.go_os b.go_os,
    eq_iff a.go_arch b.go_arch,
    eq_iff a.module_version b.module_version,
    eq_iff a.vcs b.vcs,
    eq_iff a.revision b.revision,
    eq_iff a.source_state b.source_state,
  )

  same_of : (b : Bool) (what : String) → differs b what ≡ [] → b ≡ true
  same_of true what h = refl
  same_of false what h = cc

  differences-eq : (a b : SavedPlan) → differences a b ≡ [] → b ≡ a
  unfolding differences
  differences-eq a b h =
      let (base, h₁) =
        append-empty (differs (a.base_record_sha256 == b.base_record_sha256) "the record") _ h in
      let (service, h₂) =
        append-empty (differs (a.service_hash == b.service_hash) "the declaration") _ h₁ in
      let (registry, h₃) =
        append-empty
          (differs (a.registry_content_sha256 == b.registry_content_sha256) "the registry content")
          _ h₂ in
      let (build, files) =
        append-empty (differs (build_beq a.compiler_build b.compiler_build) "the compiler") _ h₃ in
      let e₁ = eq_of_beq a.base_record_sha256 b.base_record_sha256 (same_of _ "the record" base) in
      let e₂ = eq_of_beq a.service_hash b.service_hash (same_of _ "the declaration" service) in
      let e₃ =
        eq_of_beq a.registry_content_sha256 b.registry_content_sha256
          (same_of _ "the registry content" registry) in
      let e₄ = build-eq a.compiler_build b.compiler_build (same_of _ "the compiler" build) in
      let (out, recorded, listed) =
        three (a.output_dir == b.output_dir) (a.record_sha256 == b.record_sha256)
          (saved_files_beq a.files b.files) (same_of _ "the planned files" files) in
      let e₅ = eq_of_beq a.output_dir b.output_dir out in
      let e₆ = eq_of_beq a.record_sha256 b.record_sha256 recorded in
      let e₇ = saved_files-eq a.files b.files listed in cc
    where
      three : (p q r : Bool) → (p && q && r) ≡ true → (p ≡ true) × (q ≡ true) × (r ≡ true)
      three p q r h = ground arith

  empty_list : (l : List String) → is_empty l ≡ true → l ≡ []
  empty_list [] h = refl
  empty_list (x ∷ l) h = cc

  -- An apply that is given a saved plan returns only if the saved form of its plan is that saved plan:
  -- the same record to start from, declaration, registry, compiler, files, contents and new record.
  pub apply-saved_plan :
      (session : Session) (env : Env) (plan : Plan) (replace : Bool) (saved : SavedPlan)
      (out : String) (p : Project)
      → (apply codec session env (confirmed replace (some saved) plan) out p).0 ≡ ok tt
      → new_saved_plan codec (confirmed replace (some saved) plan) ≡ ok saved
  unfolding still_applies
  apply-saved_plan session env plan replace saved out p h =
      let now = confirmed replace (some saved) plan in
      let applies = (apply-Done codec session env now out p h).accepted.saved in
      let (current, made, h₁) = >>=-eq-ok (new_saved_plan codec now) _ applies in
      let none_differs =
        require-eq-ok (is_empty (differences saved current))
          (PlanFault.stale (differences saved current)) h₁ in
      made
      ∙ ap ok (differences-eq saved current (empty_list (differences saved current) none_differs))
