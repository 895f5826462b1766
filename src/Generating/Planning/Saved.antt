-- ===== src/Generating/Planning/Saved.antt =====
-- Saved plans: internal/compiler/saved_plan.go, without the YAML file that holds one.
use stego.Prelude.{
  String, Bool, true, false, ◌&&◌, List, [], ◌∷◌, ◌++◌, Option, none, some, ◌==◌, string_eq,
  if◌then◌else◌, Outcome, ok, err, require, ◌>>=◌, is_empty,
}
use stego.Prelude.Dict.{Dict, lookup, insert}
use stego.Generating.Paths.{state_path}
use stego.Generating.Snapshot.{FileSnapshot}
use stego.Generating.State.{Codec, AppliedState, InputManifest, BuildRecord, encode_state}
use stego.Generating.Planning.Types.{
  GenFile, Action, PlannedFile, SavedPlanFile, SavedPlan, Plan, PlanFault,
}
use stego.Generating.Planning.Compute.{file_hash}
use stego.Generating.Planning.Prepare.{lift_state, recorded_hash}

-- `==` on the texts of actions.
abbrev pub action_beq : Action → Action → Bool
action_beq Action.generate Action.generate = true
action_beq Action.update Action.update = true
action_beq Action.unchanged Action.unchanged = true
action_beq Action.delete Action.delete = true
action_beq (Action.other s) (Action.other t) = s == t
action_beq _ _ = false

abbrev pub build_beq : BuildRecord → BuildRecord → Bool
build_beq a b =
    a.go_version == b.go_version
    && a.go_os == b.go_os
    && a.go_arch == b.go_arch
    && a.module_version == b.module_version
    && a.vcs == b.vcs
    && a.revision == b.revision
    && a.source_state == b.source_state

abbrev pub saved_file_beq : SavedPlanFile → SavedPlanFile → Bool
saved_file_beq a b = a.path == b.path && action_beq a.action b.action && a.sha256 == b.sha256

-- `reflect.DeepEqual` on the files of two saved plans
unfoldable pub saved_files_beq : List SavedPlanFile → List SavedPlanFile → Bool
saved_files_beq [] [] = true
saved_files_beq (a ∷ as') (b ∷ bs) = saved_file_beq a b && saved_files_beq as' bs
saved_files_beq [] (b ∷ bs) = false
saved_files_beq (a ∷ as') [] = false

abbrev base_hash : Option FileSnapshot → String
base_hash none = ""
base_hash (some s) = if s.present then s.hash else ""

abbrev output_of : Option InputManifest → String
output_of none = ""
output_of (some m) = m.options.output_dir

abbrev pub differs : Bool → String → List String
differs same what = if same then [] else what ∷ []

-- `differences` of `StillApplies`
unfoldable pub differences : SavedPlan → SavedPlan → List String
unfolding saved_files_beq
differences saved current =
    differs (saved.base_record_sha256 == current.base_record_sha256) "the record"
    ++ (differs (saved.service_hash == current.service_hash) "the declaration"
        ++ (differs (saved.registry_content_sha256 == current.registry_content_sha256)
              "the registry content"
            ++ (differs (build_beq saved.compiler_build current.compiler_build) "the compiler"
                ++ differs
                    (saved.output_dir == current.output_dir
                      && saved.record_sha256 == current.record_sha256
                      && saved_files_beq saved.files current.files)
                    "the planned files")))

module _ (codec : Codec) where
  open codec use {hash_bytes}

  unfoldable pub content_hashes : List GenFile → Dict String String → Dict String String
  content_hashes [] m = m
  content_hashes (f ∷ fs) m = content_hashes fs (insert f.path (file_hash codec f) m)

  abbrev pub saved_entry : Dict String String → PlannedFile → Action → List SavedPlanFile
  saved_entry contents f Action.unchanged = []
  saved_entry contents f Action.delete =
      record { path = f.path; action = f.action; sha256 = "" } ∷ []
  saved_entry contents f action =
      record { path = f.path; action = f.action; sha256 = recorded_hash (lookup f.path contents) }
      ∷ []

  unfoldable pub saved_entries : Dict String String → List PlannedFile → List SavedPlanFile
  saved_entries contents [] = []
  saved_entries contents (f ∷ fs) = saved_entry contents f f.action ++ saved_entries contents fs

  -- The digest of the record that the apply would save.
  abbrev record_hash : Plan → Outcome PlanFault String
  record_hash plan =
      if plan.state_changed
      then (do data' ← lift_state (encode_state codec plan.new_state); ok (hash_bytes data'))
      else ok ""

  abbrev pub saved_from : Plan → AppliedState → BuildRecord → String → SavedPlan
  saved_from plan applied build record_sha = record {
    base_record_sha256 = base_hash (lookup state_path plan.snapshots);
    service_hash = applied.service_hash;
    registry_content_sha256 = applied.registry_content_sha256;
    compiler_build = build;
    output_dir = output_of applied.inputs;
    record_sha256 = record_sha;
    files = saved_entries (content_hashes plan.generated_files []) plan.files;
  }

  abbrev saved_with : Plan → AppliedState → Option BuildRecord → Outcome PlanFault SavedPlan
  saved_with plan applied none = err PlanFault.cannot_be_saved
  saved_with plan applied (some build) = do
    record_sha ← record_hash plan
    ok (saved_from plan applied build record_sha)

  abbrev saved_applied : Plan → Option AppliedState → Outcome PlanFault SavedPlan
  saved_applied plan none = err PlanFault.cannot_be_saved
  saved_applied plan (some applied) = saved_with plan applied applied.compiler_build

  -- `newSavedPlan`
  unfoldable pub new_saved_plan : Plan → Outcome PlanFault SavedPlan
  unfolding saved_entries content_hashes
  new_saved_plan plan = saved_applied plan plan.new_state.last_applied

  -- `StillApplies`
  unfoldable pub still_applies : SavedPlan → Plan → Outcome PlanFault (Unit {0})
  unfolding differences
  still_applies saved plan = do
    current ← new_saved_plan plan
    require (is_empty (differences saved current)) (PlanFault.stale (differences saved current))
