-- ===== src/Generating/Planning/Again.antt =====
-- A second plan from the same files, for `computePlan` of internal/compiler/reconciler.go.
use stego.Prelude.{
  String, ◌≡◌, ◌≢◌, refl, sym, ap, subst, Bool, true, false, not, ◌&&◌, ◌||◌, List, [], ◌∷◌, ◌++◌,
  Option, none, some, arith, ◌==◌, string_eq, if◌then◌else◌, Outcome, ok, err, >>=-eq-ok, In,
  In-cons, In-append_cases, In-single, All, All-of_In, ◌∙◌, ◌⊎◌, inl, inr, Bool-cases, eq_of_beq,
  beq_ne, beq_refl,
}
use stego.Prelude.Dict.{Dict, keys, lookup, insert, lookup-insert}
use stego.Prelude.Sort.{sort_by, In_of_sort_by, sort_texts}
use stego.Generating.Paths.{is_project_root_file, project_file_path}
use stego.Generating.Snapshot.{Disk, FileSnapshot}
use stego.Generating.State.{Codec, BuildRecord}
use stego.Generating.Planning.Types.{GenFile, Action, PlannedFile, Plan}
use stego.Generating.Planning.Compute.{
  Progress, PlanInput, is_held, action_of, file_hash, add_generated, plan_file, plan_files,
  plan_orphan, plan_orphans, snapshot_at, is_edited, find_hand_edits, compute_plan, no_progress,
  recorded_files, planned_le,
}
use stego.Generating.Planning.Computed.{compute_plan-Stages}
use stego.Generating.Planning.Loops.{seen, entry_of, plan_file-ok}
use stego.Generating.Planning.Edits.{Sound, snapshot_at-seen, plan_files-Sound, nothing_held}

module _ (codec : Codec) (d : Disk) where
  held-insert :
      (k name hash : String) (m : Dict String String)
      → is_held (lookup name m) ≡ true
      → is_held (lookup name (insert k hash m)) ≡ true
  held-insert k name hash m h = elim (Bool-cases (k == name)) [
    | inl same ↦ rw (lookup-insert k name hash m, same) refl
    | inr other ↦ rw (lookup-insert k name hash m, other) h
  ]

  add_generated-held :
      (out : String) (f : GenFile) (s : FileSnapshot) (p : Progress) (name : String)
      → is_held (lookup name p.hashes) ≡ true
      → is_held (lookup name (add_generated codec out f s p).hashes) ≡ true
  add_generated-held out f s p name h = elim (Bool-cases (is_project_root_file f.path)) [
    | inl root ↦ rw root h
    | inr own ↦ rw own (held-insert f.path name (file_hash codec f) p.hashes h)
  ]

  plan_files-holds :
      (out : String) (fs : List GenFile) (p q : Progress) (name : String)
      → plan_files codec d out fs p ≡ ok q
      → is_held (lookup name p.hashes) ≡ true
      → is_held (lookup name q.hashes) ≡ true
  unfolding plan_files
  plan_files-holds out [] p q name h held =
      let e : p ≡ q = cc in subst (λ (x : Progress). is_held (lookup name x.hashes) ≡ true) e held
  plan_files-holds out (f ∷ fs) p q name h held =
      let (next, first, rest) =
        >>=-eq-ok (plan_file codec d out f p) (plan_files codec d out fs) h in
      plan_files-holds out fs next q name rest (
        subst (λ (x : Progress). is_held (lookup name x.hashes) ≡ true)
          (plan_file-ok codec d out f p next first)
          (add_generated-held out f (seen codec d (project_file_path out f.path)) p name held))

  -- A generated file that the application does not own has a new digest.
  plan_files-held :
      (out : String) (fs : List GenFile) (p q : Progress)
      → plan_files codec d out fs p ≡ ok q
      → (f : GenFile) → In f fs
      → is_project_root_file f.path ≡ false
      → is_held (lookup f.path q.hashes) ≡ true
  unfolding plan_files
  plan_files-held out [] p q h f i = elim i [ ]
  plan_files-held out (g ∷ fs) p q h f i =
      let (next, first, rest) =
        >>=-eq-ok (plan_file codec d out g p) (plan_files codec d out fs) h in
      In-cons
        (λ (k : GenFile).
          is_project_root_file k.path ≡ false → is_held (lookup k.path q.hashes) ≡ true)
        (λ own. plan_files-holds out fs next q g.path rest (
          subst (λ (x : Progress). is_held (lookup g.path x.hashes) ≡ true)
            (plan_file-ok codec d out g p next first)
            (rw (own, lookup-insert g.path g.path (file_hash codec g) p.hashes, beq_refl g.path)
              refl)))
        (λ k j. plan_files-held out fs next q rest k j) f i

  -- Only generated files are planned by the first loop.
  plan_files-only :
      (out : String) (fs : List GenFile) (p q : Progress) (x : PlannedFile)
      → plan_files codec d out fs p ≡ ok q
      → In x q.planned
      → In x p.planned ⊎ ((f : GenFile) × In f fs × (entry_of codec d out f ≡ x))
  unfolding plan_files
  plan_files-only out [] p q x h i =
      let e : q ≡ p = cc in inl (subst (λ (y : Progress). In x y.planned) e i)
  plan_files-only out (f ∷ fs) p q x h i =
      let (next, first, rest) =
        >>=-eq-ok (plan_file codec d out f p) (plan_files codec d out fs) h in
      elim (plan_files-only out fs next q x rest i) [
        | inr (g, j, e) ↦ inr (g, In.there j, e)
        | inl before ↦
            let k =
              subst (λ (y : Progress). In x y.planned)
                (sym (plan_file-ok codec d out f p next first)) before in
            elim (In-append_cases p.planned _ k) [
              | inl old ↦ inl old
              | inr new ↦ inr (f, In.here, In-single new)
            ]
      ]

  -- With every path kept, the second loop plans nothing.
  plan_orphans-idle :
      (out : String) (paths : List String) (p q : Progress)
      → ((path : String)
          → In path paths
          → (is_project_root_file path || is_held (lookup path p.hashes)) ≡ true)
      → plan_orphans codec d out paths p ≡ ok q
      → p ≡ q
  unfolding plan_orphans plan_orphan
  plan_orphans-idle out [] p q kept h = cc
  plan_orphans-idle out (path ∷ paths) p q kept h =
      plan_orphans-idle out paths p q (λ x i. kept x (In.there i)) (rw (kept path In.here) at h)

  -- With every recorded file as it was recorded, there are no hand edits.
  find_hand_edits-none :
      (out : String) (m : Dict String FileSnapshot) (recorded : Dict String String)
      (edited : List String)
      → Sound codec d m
      → ((path hash : String)
          → In (path, hash) recorded
          → is_edited (seen codec d (project_file_path out path)) hash ≡ false)
      → find_hand_edits codec d out m recorded ≡ ok edited
      → edited ≡ []
  unfolding find_hand_edits
  find_hand_edits-none out m [] edited sound clean h = cc
  find_hand_edits-none out m ((x, v) ∷ recorded) edited sound clean h =
      elim (Bool-cases (is_project_root_file x)) [
        | inl root ↦
            find_hand_edits-none out m recorded edited sound (λ y w i. clean y w (In.there i))
              (rw root at h)
        | inr own ↦
            let (s, reads, h₁) =
              >>=-eq-ok
                (snapshot_at codec d (project_file_path out x) (lookup (project_file_path out x) m))
                _ (rw own at h) in
            let (more, others, h₂) = >>=-eq-ok (find_hand_edits codec d out m recorded) _ h₁ in
            let is_seen = snapshot_at-seen codec d (project_file_path out x) m s sound reads in
            let test : is_edited s v ≡ false =
              ap (λ t. is_edited t v) is_seen ∙ clean x v In.here in
            let k : ok more ≡ ok edited = rw test at h₂ in
            let same : edited ≡ more = cc in
            same
            ∙ find_hand_edits-none out m recorded more sound (λ y w i. clean y w (In.there i))
                others
      ]

  -- What the project and the record hold after an apply of the generated files.
  abbrev pub IsDelivered : PlanInput → GenFile → Type 0
  IsDelivered input f =
      ((seen codec d (project_file_path input.out f.path)).present ≡ true)
      × ((seen codec d (project_file_path input.out f.path)).hash ≡ file_hash codec f)

  abbrev pub IsFromGenerated : PlanInput → String → String → Type 0
  IsFromGenerated input path hash =
      (f : GenFile) × In f input.generated × (f.path ≡ path) × (file_hash codec f ≡ hash)

  In-keys_entry :
      (m : Dict String String) (path : String)
      → In path (keys m)
      → (hash : String) × In (path, hash) m
  In-keys_entry [] path i = elim i [ ]
  In-keys_entry ((k, v) ∷ m) path In.here = (v, In.here)
  In-keys_entry ((k, v) ∷ m) path (In.there i) =
      let (hash, j) = In-keys_entry m path i in (hash, In.there j)

  unchanged_of :
      (s : FileSnapshot) (hash : String)
      → s.present ≡ true
      → s.hash ≡ hash
      → action_of s hash ≡ Action.unchanged
  unchanged_of s hash present same = rw (present, same, beq_refl hash) refl

  unedited_of :
      (s : FileSnapshot) (hash : String)
      → s.present ≡ true
      → s.hash ≡ hash
      → is_edited s hash ≡ false
  unedited_of s hash present same = rw (present, same, beq_refl hash) refl

  -- When every generated file is in the project with the digest of its content, and the record holds
  -- generated files only, with these digests, a plan changes no file and finds no hand edit.
  pub compute_plan-settled :
      (build : BuildRecord) (input : PlanInput) (plan : Plan)
      → compute_plan codec build d input ≡ ok plan
      → All (IsDelivered input) input.generated
      → All
          (λ (e : String × String). IsFromGenerated input e.0 e.1)
          (recorded_files input.existing.last_applied)
      → All (λ (x : PlannedFile). x.action ≡ Action.unchanged) plan.files × (plan.hand_edited ≡ [])
  unfolding sort_texts sort_by
  compute_plan-settled build input plan h delivered recorded =
      let s = compute_plan-Stages codec d build input plan h in
      let old = recorded_files input.existing.last_applied in
      let idle =
        plan_orphans-idle input.out (keys old) s.generated s.orphans
          (λ path i.
            let (hash, j) = In-keys_entry old path i in
            let (f, k, e, _) =
              stego.Prelude.All-In (λ (e : String × String). IsFromGenerated input e.0 e.1) old
                recorded j in
            elim (Bool-cases (is_project_root_file path)) [
              | inl root ↦ rw root refl
              | inr own ↦ rw own (
                  subst (λ n. is_held (lookup n s.generated.hashes) ≡ true) e
                    (plan_files-held input.out input.generated (no_progress input.manifest)
                      s.generated s.files_done f k (ap is_project_root_file e ∙ own)))
            ])
          s.orphans_done in
      let sound =
        plan_files-Sound codec d input.out input.generated (no_progress input.manifest) s.generated
          s.files_done (nothing_held codec d) in
      let none_edited =
        find_hand_edits-none input.out s.orphans.snapshots old s.edited
          (subst (λ (x : Progress). Sound codec d x.snapshots) idle sound)
          (λ path hash i.
            let (f, k, e, same) =
              stego.Prelude.All-In (λ (e : String × String). IsFromGenerated input e.0 e.1) old
                recorded i in
            let (present, digest) =
              stego.Prelude.All-In (IsDelivered input) input.generated delivered k in
            subst (λ n. is_edited (seen codec d (project_file_path input.out n)) hash ≡ false) e
              (unedited_of (seen codec d (project_file_path input.out f.path)) hash present
                (digest ∙ same)))
          s.edits_done in
      (
        All-of_In (λ (x : PlannedFile). x.action ≡ Action.unchanged) plan.files
            (λ x i.
              let i₁ = subst (λ (y : Plan). In x y.files) (sym s.result) i in
              let i₂ = In_of_sort_by planned_le s.orphans.planned i₁ in
              let i₃ = subst (λ (y : Progress). In x y.planned) (sym idle) i₂ in
              elim (plan_files-only input.out input.generated (no_progress input.manifest)
                s.generated x s.files_done i₃) [
                  | inl nothing ↦ elim nothing [ ]
                  | inr (f, k, e) ↦
                      let (present, digest) =
                        stego.Prelude.All-In (IsDelivered input) input.generated delivered k in
                      ap (λ (y : PlannedFile). y.action) (sym e)
                      ∙ unchanged_of (seen codec d (project_file_path input.out f.path))
                          (file_hash codec f) present digest
                ]),
        ap (λ (y : Plan). y.hand_edited) (sym s.result) ∙ ap sort_texts none_edited,
      )
