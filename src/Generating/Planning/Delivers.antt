-- ===== src/Generating/Planning/Delivers.antt =====
-- What a plan promises once its apply returns, for `Reconcile` and `Apply` of
-- internal/compiler/reconciler.go: the files that the plan names are as the plan says.
use stego.Prelude.{
  String, ◌≡◌, ◌≢◌, refl, sym, ap, subst, Bool, true, false, [], Option, none, some, ◌==◌,
  string_eq, ok, In, ◌∙◌, ◌⊎◌, inl, inr, Bool-cases, eq_of_beq,
}
use stego.Prelude.Dict.{Dict, lookup, lookup-nil}
use stego.Generating.Paths.{is_project_root_file, project_file_path}
use stego.Generating.Snapshot.{Bytes, File, Disk, FileSnapshot, snapshot_of}
use stego.Generating.State.{Codec}
use stego.Generating.Execute.{Env, Project}
use stego.Generating.Planning.Types.{GenFile, file_bytes, Action, SavedPlan, PlannedFile, Plan}
use stego.Generating.Planning.Compute.{PlanInput, action_of, file_hash, recorded_files}
use stego.Generating.Planning.Computed.{compute_plan-IsPlanned, compute_plan-deletes}
use stego.Generating.Planning.Loops.{seen, IsPlanned, entry_of, deletion_of}
use stego.Generating.Planning.Contents.{collect_contents-each, collect_contents-away}
use stego.Generating.Planning.Checked.{lookup-expected_of}
use stego.Generating.Planning.Apply.{Session, apply}
use stego.Generating.Planning.Applied.{Done, apply-Done, planned_fate}
use stego.Generating.Planning.Reconcile.{confirmed, make_plan, Made, make_plan-Made}

module _ (codec : Codec) where
  open codec use {hash_bytes, utf8}

  -- What a plan that was made, and confirmed, says of a path.
  abbrev Says : PlanInput → Disk → Plan → PlannedFile → Type 0
  Says input d plan f = IsPlanned codec d input.out plan.files plan.snapshots f

  Says-confirmed :
      (session : Session) (d : Disk) (input : PlanInput) (plan : Plan) (replace : Bool)
      (saved : Option SavedPlan) (f : PlannedFile) (m : Made codec session d input plan)
      → IsPlanned codec d input.out m.planned.files m.planned.snapshots f
      → Says input d (confirmed replace saved plan) f
  Says-confirmed session d input plan replace saved f m (i, held) =
      subst (λ (x : Plan). Says input d (confirmed replace saved x) f) m.result
        (
          i,
          m.keeps (project_file_path input.out f.path)
              (seen codec d (project_file_path input.out f.path)) held,
        )

  -- With no operation on its path, a file is planned as unchanged, or as a deletion that is done.
  untouched :
      (session : Session) (d : Disk) (plan : Plan) (out : String) (p q : Project) (f : PlannedFile)
      (done : Done codec session plan out p q)
      → IsPlanned codec d out plan.files plan.snapshots f
      → q.disk.files (project_file_path out f.path) ≡ p.disk.files (project_file_path out f.path)
      → ((o : stego.Generating.Transaction.Operation)
          → In o done.prepared.ops
          → project_file_path out f.path ≢ o.path)
      → (snapshot_of hash_bytes (q.disk.files (project_file_path out f.path))
          ≡ seen codec d (project_file_path out f.path))
        × ((f.action ≡ Action.unchanged)
            ⊎ ((f.action ≡ Action.delete)
                × ((seen codec d (project_file_path out f.path)).present ≡ false)))
  untouched session d plan out p q f done (i, held) same away =
      let name = project_file_path out f.path in
      (
        ap (snapshot_of hash_bytes) same ∙ done.accepted.unchanged name (seen codec d name) held,
        elim (done.prepared.made.covered f i) [
          | inl e ↦ inl e
          | inr (inl (o, j, at')) ↦ absurd (away o j (sym at'))
          | inr (inr (e, (before, k, absent))) ↦
              let found = lookup-expected_of out name plan.snapshots before k in
              let b : seen codec d name ≡ before =
                one (lookup name plan.snapshots) _ _ held found in
              inr (e, ap (λ s. s.present) b ∙ absent)
        ],
      )
    where
      one : (o : Option FileSnapshot) (a b : FileSnapshot) → o ≡ some a → o ≡ some b → a ≡ b
      one o a b x y = cc

  unchanged-is :
      (s : FileSnapshot) (hash : String)
      → action_of s hash ≡ Action.unchanged
      → (s.present ≡ true) × (s.hash ≡ hash)
  unchanged-is s hash h = elim (Bool-cases s.present) [
    | inl present ↦ elim (Bool-cases (s.hash == hash)) [
      | inl same ↦ (present, eq_of_beq s.hash hash same)
      | inr other ↦ let k = rw (present, other) at h in cc
    ]
    | inr absent ↦ let k = rw absent at h in cc
  ]

  generated-kept : (s : FileSnapshot) (hash : String) → action_of s hash ≢ Action.delete
  generated-kept s hash h = elim (Bool-cases s.present) [
    | inl present ↦ elim (Bool-cases (s.hash == hash)) [
      | inl same ↦ let k = rw (present, same) at h in cc
      | inr other ↦ let k = rw (present, other) at h in cc
    ]
    | inr absent ↦ let k = rw absent at h in cc
  ]

  absent-is : (o : Option File) → (snapshot_of hash_bytes o).present ≡ false → o ≡ none
  absent-is none h = refl
  absent-is (some f) h = cc

  -- The file of a generated path once the apply has returned.
  delivered :
      (session : Session) (d : Disk) (plan : Plan) (out : String) (p q : Project) (f : GenFile)
      (done : Done codec session plan out p q)
      → IsPlanned codec d out plan.files plan.snapshots (entry_of codec d out f)
      → In f plan.generated_files
      → ((snapshot_of hash_bytes (q.disk.files (project_file_path out f.path))).present ≡ true)
        × ((snapshot_of hash_bytes (q.disk.files (project_file_path out f.path))).hash
            ≡ file_hash codec f)
  delivered session d plan out p q f done planned i =
      let name = project_file_path out f.path in
      let content =
        collect_contents-each codec done.prepared.applied.files plan.generated_files []
          done.prepared.contents done.prepared.collected f i in
      elim (planned_fate codec session plan out p q f.path done) [
        | inl (inl (bytes, held, present, hash)) ↦
            let same : bytes ≡ file_bytes utf8 f =
              one (lookup f.path done.prepared.contents) _ _ held content in
            (present, hash ∙ ap hash_bytes same)
        | inl (inr (gone, _)) ↦ absurd (clash (lookup f.path done.prepared.contents) _ gone content)
        | inr (same, away) ↦
            let (as_seen, why) =
              untouched session d plan out p q (entry_of codec d out f) done planned same away in
            elim why [
              | inl e ↦
                  let (present, hash) = unchanged-is (seen codec d name) (file_hash codec f) e in
                  (ap (λ s. s.present) as_seen ∙ present, ap (λ s. s.hash) as_seen ∙ hash)
              | inr (e, _) ↦ absurd (generated-kept (seen codec d name) (file_hash codec f) e)
            ]
      ]
    where
      one : (o : Option Bytes) (a b : Bytes) → o ≡ some a → o ≡ some b → a ≡ b
      one o a b x y = cc

      clash : (o : Option Bytes) (a : Bytes) → o ≡ none → o ≢ some a
      clash o a x y = cc

  -- The file of a path that the plan deletes once the apply has returned.
  deleted :
      (session : Session) (d : Disk) (plan : Plan) (out : String) (p q : Project) (path : String)
      (done : Done codec session plan out p q)
      → IsPlanned codec d out plan.files plan.snapshots (deletion_of codec d path)
      → ((f : GenFile) → In f plan.generated_files → f.path ≢ path)
      → q.disk.files (project_file_path out path) ≡ none
  deleted session d plan out p q path done planned away =
      let name = project_file_path out path in
      let content =
        collect_contents-away codec done.prepared.applied.files plan.generated_files []
          done.prepared.contents path done.prepared.collected away
        ∙ lookup-nil path in
      elim (planned_fate codec session plan out p q path done) [
        | inl (inl (bytes, held, _, _)) ↦
            absurd (clash (lookup path done.prepared.contents) _ content held)
        | inl (inr (_, gone)) ↦ absent-is (q.disk.files name) (ap (λ s. s.present) gone)
        | inr (same, off) ↦
            let (as_seen, why) =
              untouched session d plan out p q (deletion_of codec d path) done planned same off in
            elim why [
              | inl e ↦ absurd (never e)
              | inr (_, absent) ↦
                  absent-is (q.disk.files name) (ap (λ s. s.present) as_seen ∙ absent)
            ]
      ]
    where
      clash : (o : Option Bytes) (a : Bytes) → o ≡ none → o ≢ some a
      clash o a x y = cc

      never : Action.delete ≢ Action.unchanged
      never e = cc

  generated_of :
      (session : Session) (d : Disk) (input : PlanInput) (plan : Plan)
      (m : Made codec session d input plan)
      → plan.generated_files ≡ input.generated
  generated_of session d input plan m =
      ap (λ (x : Plan). x.generated_files) (sym m.result)
      ∙ ap (λ (x : Plan). x.generated_files)
          (sym
            (stego.Generating.Planning.Computed.compute_plan-Stages codec d session.build input
              m.planned m.computed).result)

  -- When an apply of a plan returns, every generated file is in the project with the digest of its
  -- content: the plan was made on the project as it was then, and the apply may have been made later.
  pub apply-generated :
      (session : Session) (env : Env) (d : Disk) (input : PlanInput)
      (inputs : Dict String FileSnapshot) (plan : Plan) (replace : Bool) (saved : Option SavedPlan)
      (p : Project) (f : GenFile)
      → make_plan codec session d input inputs ≡ ok plan
      → (apply codec session env (confirmed replace saved plan) input.out p).0 ≡ ok tt
      → In f input.generated
      → ((snapshot_of hash_bytes (
            (apply codec session env (confirmed replace saved plan) input.out p).1.disk.files
              (project_file_path input.out f.path))).present
          ≡ true)
        × ((snapshot_of hash_bytes (
              (apply codec session env (confirmed replace saved plan) input.out p).1.disk.files
                (project_file_path input.out f.path))).hash
            ≡ file_hash codec f)
  apply-generated session env d input inputs plan replace saved p f makes returns i =
      let m = make_plan-Made codec session d input inputs plan makes in
      let now = confirmed replace saved plan in
      delivered session d now input.out p (apply codec session env now input.out p).1 f
        (apply-Done codec session env now input.out p returns)
        (Says-confirmed session d input plan replace saved (entry_of codec d input.out f) m
          (compute_plan-IsPlanned codec d session.build input m.planned m.computed f i))
        (subst (λ l. In f l) (sym (generated_of session d input plan m)) i)

  -- When an apply of a plan returns, no recorded file that is not generated any more is left in the
  -- project, but for the module files, which the application owns.
  pub apply-deletes :
      (session : Session) (env : Env) (d : Disk) (input : PlanInput)
      (inputs : Dict String FileSnapshot) (plan : Plan) (replace : Bool) (saved : Option SavedPlan)
      (p : Project) (path recorded : String)
      → make_plan codec session d input inputs ≡ ok plan
      → (apply codec session env (confirmed replace saved plan) input.out p).0 ≡ ok tt
      → lookup path (recorded_files input.existing.last_applied) ≡ some recorded
      → is_project_root_file path ≡ false
      → ((f : GenFile) → In f input.generated → f.path ≢ path)
      → (apply codec session env (confirmed replace saved plan) input.out p).1.disk.files
          (project_file_path input.out path)
        ≡ none
  apply-deletes session env d input inputs plan replace saved p path recorded makes returns known
        own away =
      let m = make_plan-Made codec session d input inputs plan makes in
      let now = confirmed replace saved plan in
      deleted session d now input.out p (apply codec session env now input.out p).1 path
        (apply-Done codec session env now input.out p returns)
        (Says-confirmed session d input plan replace saved (deletion_of codec d path) m (
          compute_plan-deletes codec d session.build input m.planned path recorded m.computed known
            own away))
        (λ f i. away f (subst (λ l. In f l) (generated_of session d input plan m) i))
