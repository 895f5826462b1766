-- ===== src/Generating/Planning/Edits.antt =====
-- Hand edits: `handEdited` of `computePlan` of internal/compiler/reconciler.go.
use stego.Prelude.{
  String, ◌≡◌, sym, ap, subst, true, false, List, [], ◌∷◌, none, some, ◌==◌, string_eq,
  if◌then◌else◌, ok, >>=-eq-ok, In, ◌∙◌, ◌⊎◌, inl, inr, Bool-cases, Option-cases, eq_of_beq,
}
use stego.Prelude.Dict.{Dict, keys, lookup, insert, lookup-insert}
use stego.Generating.Paths.{is_project_root_file, project_file_path}
use stego.Generating.Snapshot.{
  Disk, FileSnapshot, snapshot_eq, read_snapshot, read_snapshot-state, max_tracked_file_bytes,
}
use stego.Generating.State.{Codec, BuildRecord}
use stego.Generating.Planning.Types.{GenFile, Plan}
use stego.Generating.Planning.Compute.{
  Progress, PlanInput, lift_read, plan_file, plan_files, plan_orphan, plan_orphans, find_hand_edits,
  compute_plan, no_progress, recorded_files, snapshot_at, is_edited,
}
use stego.Prelude.Sort.{In-sort_texts}
use stego.Generating.Planning.Computed.{compute_plan-Stages}
use stego.Generating.Planning.Loops.{lift_read-ok, seen, plan_file-ok, plan_orphan-cases}

module _ (codec : Codec) (d : Disk) where
  open codec use {hash_bytes}

  -- Every snapshot that is held is the one of the file.
  abbrev pub Sound : Dict String FileSnapshot → Type 0
  Sound m = (name : String) (s : FileSnapshot) → lookup name m ≡ some s → s ≡ seen codec d name

  Sound-insert :
      (k : String) (m : Dict String FileSnapshot) → Sound m → Sound (insert k (seen codec d k) m)
  Sound-insert k m sound name s h =
      of_test (Bool-cases (k == name)) (sym (lookup-insert k name (seen codec d k) m) ∙ h)
    where
      of_test :
          ((k == name) ≡ true) ⊎ ((k == name) ≡ false)
          → (if k == name then some (seen codec d k) else lookup name m) ≡ some s
          → s ≡ seen codec d name
      of_test (inl e) held =
          let found : some (seen codec d k) ≡ some s = rw e at held in
          let same : seen codec d k ≡ s = cc in sym same ∙ ap (seen codec d) (eq_of_beq k name e)
      of_test (inr n) held = sound name s (rw n at held)

  pub plan_files-Sound :
      (out : String) (fs : List GenFile) (p q : Progress)
      → plan_files codec d out fs p ≡ ok q
      → Sound p.snapshots
      → Sound q.snapshots
  unfolding plan_files
  plan_files-Sound out [] p q h sound =
      let e : p ≡ q = cc in subst (λ (x : Progress). Sound x.snapshots) e sound
  plan_files-Sound out (f ∷ fs) p q h sound =
      let (next, first, rest) =
        >>=-eq-ok (plan_file codec d out f p) (plan_files codec d out fs) h in
      plan_files-Sound out fs next q rest (
        subst (λ (x : Progress). Sound x.snapshots) (plan_file-ok codec d out f p next first)
          (Sound-insert (project_file_path out f.path) p.snapshots sound))

  plan_orphans-Sound :
      (out : String) (paths : List String) (p q : Progress)
      → plan_orphans codec d out paths p ≡ ok q
      → Sound p.snapshots
      → Sound q.snapshots
  unfolding plan_orphans
  plan_orphans-Sound out [] p q h sound =
      let e : p ≡ q = cc in subst (λ (x : Progress). Sound x.snapshots) e sound
  plan_orphans-Sound out (path ∷ paths) p q h sound =
      let (next, first, rest) =
        >>=-eq-ok (plan_orphan codec d out path p) (plan_orphans codec d out paths) h in
      plan_orphans-Sound out paths next q rest
        (elim (plan_orphan-cases codec d out path p next first) [
          | inl (_, e) ↦ subst (λ (x : Progress). Sound x.snapshots) e sound
          | inr e ↦
              subst (λ (x : Progress). Sound x.snapshots) e
                (Sound-insert (project_file_path out path) p.snapshots sound)
        ])

  pub snapshot_at-seen :
      (name : String) (m : Dict String FileSnapshot) (s : FileSnapshot)
      → Sound m
      → snapshot_at codec d name (lookup name m) ≡ ok s
      → s ≡ seen codec d name
  snapshot_at-seen name m s sound h = elim (Option-cases (lookup name m)) [
    | inl gone ↦
        let h₁ : snapshot_at codec d name none ≡ ok s =
          ap (snapshot_at codec d name) (sym gone) ∙ h in
        let (found, reads, h₂) =
          >>=-eq-ok (lift_read (read_snapshot hash_bytes d name max_tracked_file_bytes)) _ h₁ in
        let e : found.1 ≡ s = cc in
        sym e
        ∙ read_snapshot-state hash_bytes d name max_tracked_file_bytes found
            (lift_read-ok (read_snapshot hash_bytes d name max_tracked_file_bytes) reads)
    | inr (t, held) ↦
        let h₁ : snapshot_at codec d name (some t) ≡ ok s =
          ap (snapshot_at codec d name) (sym held) ∙ h in
        let e : t ≡ s = cc in sound name s (held ∙ ap some e)
  ]

  -- A recorded file that is missing or not as recorded is found.
  find_hand_edits-In :
      (out : String) (m : Dict String FileSnapshot) (recorded : Dict String String)
      (edited : List String) (path hash : String)
      → Sound m
      → find_hand_edits codec d out m recorded ≡ ok edited
      → lookup path recorded ≡ some hash
      → is_project_root_file path ≡ false
      → is_edited (seen codec d (project_file_path out path)) hash ≡ true
      → In path edited
  unfolding find_hand_edits lookup
  find_hand_edits-In out m [] edited path hash sound h known own changed = cc
  find_hand_edits-In out m ((x, v) ∷ recorded) edited path hash sound h known own changed =
      elim (Bool-cases (x == path)) [
        | inl same ↦
            let e = eq_of_beq x path same in
            let e₁ : some v ≡ some hash = rw same at known in
            let value : v ≡ hash = cc in
            let h₁ = rw (ap is_project_root_file e ∙ own) at h in
            let (s, reads, h₂) =
              >>=-eq-ok
                (snapshot_at codec d (project_file_path out x) (lookup (project_file_path out x) m))
                _ h₁ in
            let (more, others, h₃) = >>=-eq-ok (find_hand_edits codec d out m recorded) _ h₂ in
            let is_seen = snapshot_at-seen (project_file_path out x) m s sound reads in
            let test : is_edited s v ≡ true =
              ap (λ t. is_edited t v) is_seen
              ∙ ap (λ y. is_edited (seen codec d (project_file_path out y)) v) e
              ∙ ap (is_edited (seen codec d (project_file_path out path))) value
              ∙ changed in
            let k : ok (x ∷ more) ≡ ok edited = rw test at h₃ in
            let list : x ∷ more ≡ edited = cc in
            subst (λ l. In path l) list (subst (λ y. In y (x ∷ more)) e In.here)
        | inr other ↦
            let rest_known : lookup path recorded ≡ some hash = rw other at known in
            of_head
              (λ more k.
                find_hand_edits-In out m recorded more path hash sound k rest_known own changed)
              (Bool-cases (is_project_root_file x))
      ]
    where
      of_head :
          ((more : List String) → find_hand_edits codec d out m recorded ≡ ok more → In path more)
          → ((is_project_root_file x ≡ true) ⊎ (is_project_root_file x ≡ false))
          → In path edited
      of_head of_others (inl root) = of_others edited (rw root at h)
      of_head of_others (inr mine) =
          let (s, reads, h₂) =
            >>=-eq-ok
              (snapshot_at codec d (project_file_path out x) (lookup (project_file_path out x) m)) _
              (rw mine at h) in
          let (more, others, h₃) = >>=-eq-ok (find_hand_edits codec d out m recorded) _ h₂ in
          elim (Bool-cases (is_edited s v)) [
            | inl bad ↦
                let k : ok (x ∷ more) ≡ ok edited = rw bad at h₃ in
                let list : x ∷ more ≡ edited = cc in
                subst (λ l. In path l) list (In.there (of_others more others))
            | inr good ↦
                let k : ok more ≡ ok edited = rw good at h₃ in
                let list : more ≡ edited = cc in subst (λ l. In path l) list (of_others more others)
          ]

  pub nothing_held : Sound []
  unfolding lookup
  nothing_held n t k = cc

  -- A recorded file that the application does not own, and that is missing or not as recorded, is among
  -- the hand edits of the plan.
  pub compute_plan-hand_edited :
      (build : BuildRecord) (input : PlanInput) (plan : Plan) (path hash : String)
      → compute_plan codec build d input ≡ ok plan
      → lookup path (recorded_files input.existing.last_applied) ≡ some hash
      → is_project_root_file path ≡ false
      → is_edited (seen codec d (project_file_path input.out path)) hash ≡ true
      → In path plan.hand_edited
  compute_plan-hand_edited build input plan path hash h known own changed =
      let s = compute_plan-Stages codec d build input plan h in
      let recorded = recorded_files input.existing.last_applied in
      let sound =
        plan_orphans-Sound input.out (keys recorded) s.generated s.orphans s.orphans_done (
          plan_files-Sound input.out input.generated (no_progress input.manifest) s.generated
            s.files_done nothing_held) in
      subst (λ (x : Plan). In path x.hand_edited) s.result
        (In-sort_texts s.edited (
          find_hand_edits-In input.out s.orphans.snapshots recorded s.edited path hash sound
            s.edits_done known own changed))
