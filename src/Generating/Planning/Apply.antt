-- ===== src/Generating/Planning/Apply.antt =====
-- `applyWithFault` of internal/compiler/reconciler.go, with `verifyRegistry` and `verifyPlanLocation`
-- of snapshot.go. Nobody else changes the project between its checks and its lock.
use stego.Prelude.{
  String, Bool, true, false, not, ◌&&◌, ◌||◌, List, [], ◌∷◌, Option, none, some, ◌==◌, string_eq,
  Outcome, ok, err, require, ◌>>◌, is_empty,
}
use stego.Generating.Paths.{valid_path, output_relative, project_file_path, state_path}
use stego.Generating.Snapshot.{Disk, verify_snapshots}
use stego.Generating.State.{
  Codec, AppliedState, InputManifest, BuildRecord, validate_state, valid_manifest,
}
use stego.Generating.Transaction.{Fault, Transaction, Io}
use stego.Generating.Execute.{Env, Project, Exec, ◌>>◌ as and_then, call, set_file, start_apply}
use stego.Generating.Planning.Types.{GenFile, PlannedFile, SavedPlan, Plan, PlanFault}
use stego.Generating.Planning.Compute.{lift_read}
use stego.Generating.Planning.Prepare.{prepare_transaction, lift_state}
use stego.Generating.Planning.Saved.{still_applies, build_beq}

-- What else the checks of an apply read: the compiler, and whether the registry is as it was captured.
pub record Session : Type 0 where
  pub build : BuildRecord
  pub registry_verifies : Bool

pub data ApplyFault : Type 0 where
  refused : PlanFault → ApplyFault
  failed : Fault → ApplyFault

abbrev pub saved_plan_path : String
saved_plan_path = ".stego/plan.yaml"

-- `refuseHandEdits`
abbrev pub refuse_hand_edits : Plan → Outcome PlanFault (Unit {0})
refuse_hand_edits plan =
    require (is_empty plan.hand_edited || plan.replace_hand_edits)
      (PlanFault.hand_edits plan.hand_edited)

-- `gen.ValidatePath` on each path
unfoldable pub check_valid : List String → Outcome PlanFault (Unit {0})
check_valid [] = ok tt
check_valid (path ∷ paths) =
    let rest = check_valid paths in do require (valid_path path) (PlanFault.bad_path path); rest

-- `checkFileTarget` on each file
unfoldable pub check_targets : Disk → String → List String → Outcome PlanFault (Unit {0})
check_targets d out [] = ok tt
check_targets d out (path ∷ paths) =
    let rest = check_targets d out paths in
    do require (not (d.blocked (project_file_path out path))) (PlanFault.blocked path); rest

-- The paths of a plan, generated and planned.
abbrev pub generated_paths : List GenFile → List String
generated_paths [] = []
generated_paths (f ∷ fs) = f.path ∷ generated_paths fs

abbrev pub planned_paths : List PlannedFile → List String
planned_paths [] = []
planned_paths (f ∷ fs) = f.path ∷ planned_paths fs

abbrev pub no_journal : Option Transaction → Bool
no_journal none = true
no_journal (some tx) = false

abbrev same_content : Option String → AppliedState → Bool
same_content none applied = false
same_content (some content) applied = applied.registry_content_sha256 == content

abbrev same_build : Option BuildRecord → BuildRecord → Bool
same_build none build = false
same_build (some b) build = build_beq b build

module _ (codec : Codec) where
  open codec use {hash_bytes}

  abbrev same_manifest : Option InputManifest → String → Bool
  same_manifest none sha = false
  same_manifest (some m) sha = valid_manifest codec m && m.sha256 == sha

  abbrev verify_applied : Session → Plan → Option AppliedState → Outcome PlanFault (Unit {0})
  verify_applied session plan none = err PlanFault.registry
  verify_applied session plan (some applied) = do
    require (same_content plan.registry_content applied) PlanFault.registry
    require (same_build applied.compiler_build session.build) PlanFault.build
    require (same_manifest applied.inputs plan.input_manifest_sha) PlanFault.manifest
    require session.registry_verifies PlanFault.registry

  -- `verifyRegistry`
  unfoldable pub verify_registry : Session → Plan → Outcome PlanFault (Unit {0})
  verify_registry session plan = verify_applied session plan plan.new_state.last_applied

  abbrev pub saved_still_applies : Plan → Option SavedPlan → Outcome PlanFault (Unit {0})
  saved_still_applies plan none = ok tt
  saved_still_applies plan (some saved) = still_applies codec saved plan

  -- What `applyWithFault` checks before the commit.
  unfoldable pub check_apply : Session → Plan → String → Project → Outcome PlanFault (Unit {0})
  unfolding check_valid check_targets verify_registry
  check_apply session plan out p = do
    require (output_relative out) PlanFault.bad_output
    lift_state (validate_state codec plan.new_state)
    check_valid (generated_paths plan.generated_files)
    check_valid (planned_paths plan.files)
    require (no_journal p.journal) PlanFault.pending
    require (not (p.disk.blocked out)) (PlanFault.blocked out)
    require (not (p.disk.blocked state_path)) (PlanFault.blocked state_path)
    check_targets p.disk out (generated_paths plan.generated_files)
    check_targets p.disk out (planned_paths plan.files)
    require (plan.out_dir == out) PlanFault.other_location
    lift_read (verify_snapshots hash_bytes p.disk plan.snapshots)
    refuse_hand_edits plan
    verify_registry session plan
    saved_still_applies plan plan.saved

  abbrev pub Applied : Type 0
  Applied = Outcome {0, 0} ApplyFault Unit × Project

  abbrev pub lift_run : Outcome {0, 0} Fault Unit × Project → Applied
  lift_run (ok u, p) = (ok tt, p)
  lift_run (err e, p) = (err (ApplyFault.failed e), p)

  -- `removeSavedPlan`
  abbrev pub remove_saved_plan : Env → Exec
  remove_saved_plan env p =
      and_then (call env (Io.remove_file saved_plan_path)) (set_file saved_plan_path none) p

  abbrev pub and_remove : Env → Outcome {0, 0} Fault Unit × Project → Applied
  and_remove env (ok u, p) = lift_run (remove_saved_plan env p)
  and_remove env (err e, p) = (err (ApplyFault.failed e), p)

  abbrev pub run_prepared : Env → Outcome PlanFault (Option Transaction) → Project → Applied
  run_prepared env (err e) p = (err (ApplyFault.refused e), p)
  run_prepared env (ok none) p = lift_run (remove_saved_plan env p)
  run_prepared env (ok (some tx)) p = and_remove env (start_apply codec env tx p)

  abbrev pub run_checked : Env → Outcome {0, 0} PlanFault Unit → Plan → String → Project → Applied
  run_checked env (err e) plan out p = (err (ApplyFault.refused e), p)
  run_checked env (ok u) plan out p = run_prepared env (prepare_transaction codec plan out) p

  -- `applyWithFault`
  unfoldable pub apply : Session → Env → Plan → String → Project → Applied
  unfolding check_apply
  apply session env plan out p = run_checked env (check_apply session plan out p) plan out p
