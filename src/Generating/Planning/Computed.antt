-- ===== src/Generating/Planning/Computed.antt =====
-- What `computePlan` of internal/compiler/reconciler.go puts in a plan, and what `bindPlanInputs` of
-- snapshot.go leaves of it.
use stego.Prelude.{
  String, ◌≡◌, ◌≢◌, refl, sym, ap, subst, Bool, true, false, not, ◌&&◌, ◌||◌, List, [], ◌∷◌, ◌++◌,
  Option, none, some, arith, ◌==◌, string_eq, if◌then◌else◌, Outcome, ok, err, require-step,
  >>-step, >>=-eq-ok, In, In-cons, In-append_left, In-append_right, ◌∙◌, ◌⊎◌, inl, inr, Bool-cases,
  Option-cases, eq_of_beq, beq_ne, leb, length,
}
use stego.Prelude.Dict.{Dict, keys, lookup, insert, lookup-insert, In-keys}
use stego.Prelude.Sort.{In-sort_by, sorted_keys}
use stego.Generating.Paths.{output_relative, valid_layout, is_project_root_file}
use stego.Generating.Snapshot.{Disk, snapshot_eq}
use stego.Generating.State.{Codec, BuildRecord}
use stego.Generating.Planning.Types.{GenFile, Plan, PlanFault}
use stego.Generating.Planning.Compute.{
  Progress, PlanInput, plan_files, plan_orphans, find_hand_edits, compute_plan, plan_from,
  no_progress, recorded_files, planned_le,
}
use stego.Generating.Planning.Loops.{
  IsPlanned, IsPlanned-Grows, entry_of, deletion_of, plan_files-IsPlanned, plan_files-hashes,
  plan_orphans-Grows, plan_orphans-IsPlanned,
}

module _ (codec : Codec) (d : Disk) where
  open codec use {hash_bytes}

  -- The stages of a plan.
  pub record Stages (build : BuildRecord) (input : PlanInput) (plan : Plan) : Type 0 where
    pub valid : output_relative input.out ≡ true
    pub generated : Progress
    pub orphans : Progress
    pub edited : List String
    pub files_done :
        plan_files codec d input.out input.generated (no_progress input.manifest) ≡ ok generated
    pub orphans_done :
        plan_orphans codec d input.out (keys (recorded_files input.existing.last_applied)) generated
        ≡ ok orphans
    pub edits_done :
        find_hand_edits codec d input.out orphans.snapshots
          (recorded_files input.existing.last_applied)
        ≡ ok edited
    pub result : plan_from codec build input orphans edited ≡ plan

  pub compute_plan-Stages :
      (build : BuildRecord) (input : PlanInput) (plan : Plan)
      → compute_plan codec build d input ≡ ok plan
      → Stages build input plan
  unfolding compute_plan
  compute_plan-Stages build input plan h =
      let recorded = recorded_files input.existing.last_applied in
      let (valid, h₁) = require-step (output_relative input.out) PlanFault.bad_output _ h in
      let (generated, files_done, h₂) =
        >>=-eq-ok (plan_files codec d input.out input.generated (no_progress input.manifest)) _
          h₁ in
      let (orphans, orphans_done, h₃) =
        >>=-eq-ok (plan_orphans codec d input.out (keys recorded) generated) _ h₂ in
      let (edited, edits_done, h₄) =
        >>=-eq-ok (find_hand_edits codec d input.out orphans.snapshots recorded) _ h₃ in
      let (_, h₅) =
        require-step (valid_layout codec.to_lower (sorted_keys orphans.snapshots)) PlanFault.layout
          _ h₄ in
      record {
        valid = valid;
        generated = generated;
        orphans = orphans;
        edited = edited;
        files_done = files_done;
        orphans_done = orphans_done;
        edits_done = edits_done;
        result = cc;
      }

  -- Every generated file is planned, with the action that its snapshot and its digest give.
  pub compute_plan-IsPlanned :
      (build : BuildRecord) (input : PlanInput) (plan : Plan)
      → compute_plan codec build d input ≡ ok plan
      → (f : GenFile) → In f input.generated
      → IsPlanned codec d input.out plan.files plan.snapshots (entry_of codec d input.out f)
  compute_plan-IsPlanned build input plan h f i =
      let s = compute_plan-Stages build input plan h in
      let (j, held) =
        IsPlanned-Grows codec d input.out s.generated s.orphans (entry_of codec d input.out f)
          (plan_orphans-Grows codec d input.out (keys (recorded_files input.existing.last_applied))
            s.generated s.orphans s.orphans_done)
          (plan_files-IsPlanned codec d input.out input.generated (no_progress input.manifest)
            s.generated s.files_done f i) in
      subst
        (λ (x : Plan).
          IsPlanned codec d input.out x.files x.snapshots (entry_of codec d input.out f))
        s.result (In-sort_by planned_le s.orphans.planned j, held)

  -- Every recorded file that is not generated any more is planned for deletion.
  pub compute_plan-deletes :
      (build : BuildRecord) (input : PlanInput) (plan : Plan) (path recorded : String)
      → compute_plan codec build d input ≡ ok plan
      → lookup path (recorded_files input.existing.last_applied) ≡ some recorded
      → is_project_root_file path ≡ false
      → ((f : GenFile) → In f input.generated → f.path ≢ path)
      → IsPlanned codec d input.out plan.files plan.snapshots (deletion_of codec d path)
  compute_plan-deletes build input plan path recorded h known own away =
      let s = compute_plan-Stages build input plan h in
      let gone : lookup path s.generated.hashes ≡ none =
        plan_files-hashes codec d input.out input.generated (no_progress input.manifest) s.generated
          path s.files_done away
        ∙ stego.Prelude.Dict.lookup-nil path in
      let (j, held) =
        plan_orphans-IsPlanned codec d input.out (keys (recorded_files input.existing.last_applied))
          s.generated s.orphans path s.orphans_done own gone
          (In-keys path (recorded_files input.existing.last_applied) known) in
      subst
        (λ (x : Plan). IsPlanned codec d input.out x.files x.snapshots (deletion_of codec d path))
        s.result (In-sort_by planned_le s.orphans.planned j, held)
