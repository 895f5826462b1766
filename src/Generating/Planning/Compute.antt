-- ===== src/Generating/Planning/Compute.antt =====
-- `computePlan` of internal/compiler/reconciler.go, `bindPlanInputs` of snapshot.go, and the checks of
-- the generated paths. The project folder is a `Disk`, as it is when the plan is made.
use stego.Prelude.{
  ◌%◌, ℕ, String, Bool, true, false, not, ◌&&◌, ◌||◌, List, [], ◌∷◌, ◌++◌, Option, none, some, map,
  ◌==◌, string_eq, nat_eq, leb, if◌then◌else◌, Outcome, ok, err, require, ◌>>=◌, ◌>>◌, length,
  contains, is_empty, any,
}
use stego.Prelude.Dict.{Dict, keys, lookup, insert}
use stego.Prelude.Sort.{sort_texts, sort_by, text_le, sorted_keys}
use stego.Generating.Paths.{
  valid_path, valid_layout, output_relative, is_project_root_file, project_file_path, same_codes,
}
use stego.Generating.Snapshot.{
  Bytes, Disk, FileSnapshot, snapshot_eq, ReadFault, read_snapshot, verify_snapshots,
  max_tracked_file_bytes,
}
use stego.Generating.State.{
  Codec, State, AppliedState, InputManifest, InputFile, EntityFieldState, ComponentState,
  BuildRecord, manifest_digest, state_format_version,
}
use stego.Generating.Planning.Types.{
  GenFile, file_bytes, Action, PlannedFile, Field, Entity, Plan, PlanFault,
}
use stego.Generating.Planning.Entities.{compute_entity_changes}

-- 0644, on a system that is not Windows
abbrev pub default_output_mode : ℕ
default_output_mode = 420

-- The permissions of a file that is written over, or of a new one.
abbrev pub kept_mode : FileSnapshot → ℕ
kept_mode s = if s.present then s.mode % 512 else default_output_mode

abbrev pub lift_read {ℓ} : {A : Type ℓ} → Outcome ReadFault A → Outcome PlanFault A
lift_read (ok a) = ok a
lift_read (err e) = err (PlanFault.read e)

abbrev pub is_held {ℓ} : {A : Type ℓ} → Option A → Bool
is_held none = false
is_held (some a) = true

-- The variables of the loops in `computePlan`: `planned`, `newFileHashes`, `snapshots`, `manifest`.
pub record Progress : Type 0 where
  pub planned : List PlannedFile
  pub hashes : Dict String String
  pub snapshots : Dict String FileSnapshot
  pub manifest : Option InputManifest

abbrev pub action_of : FileSnapshot → String → Action
action_of s hash =
    if not s.present
    then Action.generate
    else (if s.hash == hash then Action.unchanged else Action.update)

abbrev pub is_unchanged : Action → Bool
is_unchanged Action.unchanged = true
is_unchanged Action.generate = false
is_unchanged Action.update = false
is_unchanged Action.delete = false
is_unchanged (Action.other s) = false

-- `HasChanges`, with `hasOutputChanges`
unfoldable pub has_changes : Plan → Bool
has_changes plan =
    plan.state_changed
    || not (is_empty plan.entity_changes)
    || any (λ f. not (is_unchanged f.action)) plan.files

-- `validateUniqueFilePaths`
unfoldable pub duplicates : List String → List GenFile → List String
duplicates seen [] = []
duplicates seen (f ∷ fs) =
    let rest = duplicates (f.path ∷ seen) fs in if contains seen f.path then f.path ∷ rest else rest

unfoldable pub check_paths : List GenFile → Outcome PlanFault (Unit {0})
check_paths [] = ok tt
check_paths (f ∷ fs) =
    let rest = check_paths fs in do require (valid_path f.path) (PlanFault.bad_path f.path); rest

unfoldable pub validate_unique_file_paths : (ℕ → ℕ) → List GenFile → Outcome PlanFault (Unit {0})
unfolding check_paths duplicates
validate_unique_file_paths lower files = do
  check_paths files
  require (is_empty (duplicates [] files))
      (PlanFault.duplicate_paths (sort_texts (duplicates [] files)))
  require (valid_layout lower (map (λ f. project_file_path "out" f.path) files)) PlanFault.layout

-- The arguments of `computePlan`.
pub record PlanInput : Type 0 where
  pub generated : List GenFile
  pub existing : State
  pub service_data : Bytes
  pub service_name : String
  pub entities : List Entity
  pub pins : Dict String ComponentState
  pub out : String
  pub registry_sha : String
  pub registry_content : String
  pub manifest : Option InputManifest

abbrev pub recorded_files : Option AppliedState → Dict String String
recorded_files none = []
recorded_files (some a) = a.files

abbrev recorded_entities : Option AppliedState → Dict String (List EntityFieldState)
recorded_entities none = []
recorded_entities (some a) = a.entities

abbrev pub planned_le : PlannedFile → PlannedFile → Bool
planned_le f g = text_le f.path g.path

abbrev pub add_orphan : String → String → FileSnapshot → Progress → Progress
add_orphan out path s p = record p {
  planned = p.planned ++ record { path = path; action = Action.delete } ∷ [];
  snapshots = insert (project_file_path out path) s p.snapshots;
}

abbrev pub no_progress : Option InputManifest → Progress
no_progress manifest = record { planned = []; hashes = []; snapshots = []; manifest = manifest }

abbrev pub agrees : FileSnapshot → Option FileSnapshot → Bool
agrees snapshot none = true
agrees snapshot (some prior) = prior == snapshot

unfoldable pub merge_inputs :
    Dict String FileSnapshot
    → Dict String FileSnapshot
    → Outcome PlanFault (Dict String FileSnapshot)
merge_inputs [] snapshots = ok snapshots
merge_inputs ((name, snapshot) ∷ inputs) snapshots = do
  require (agrees snapshot (lookup name snapshots)) (PlanFault.input_changed name)
  merge_inputs inputs (insert name snapshot snapshots)

abbrev pub is_edited : FileSnapshot → String → Bool
is_edited s recorded = not s.present || not (s.hash == recorded)

module _ (codec : Codec) where
  open codec use {hash_bytes, utf8, marshal}

  -- The digest of a generated file.
  abbrev pub file_hash : GenFile → String
  file_hash f = hash_bytes (file_bytes utf8 f)

  abbrev with_module : String → String → FileSnapshot → InputManifest → InputManifest
  with_module name hash s m =
      let file : InputFile = record { present = true; sha256 = hash; mode = kept_mode s } in
      let changed : InputManifest = record m { files = insert name file m.files } in
      record changed { sha256 = manifest_digest codec changed }

  -- A module file that this run changes stands in the manifest as the run leaves it.
  abbrev note_module : String → GenFile → FileSnapshot → Option InputManifest → Option InputManifest
  note_module name f s none = none
  note_module name f s (some m) =
      if is_project_root_file f.path && not (is_unchanged (action_of s (file_hash f)))
      then some (with_module name (file_hash f) s m)
      else some m

  abbrev pub add_generated : String → GenFile → FileSnapshot → Progress → Progress
  add_generated out f s p = record {
    planned = p.planned ++ record { path = f.path; action = action_of s (file_hash f) } ∷ [];
    hashes = if is_project_root_file f.path then p.hashes else insert f.path (file_hash f) p.hashes;
    snapshots = insert (project_file_path out f.path) s p.snapshots;
    manifest = note_module (project_file_path out f.path) f s p.manifest;
  }

  -- The loop over the generated files.
  unfoldable pub plan_file : Disk → String → GenFile → Progress → Outcome PlanFault Progress
  plan_file d out f p = do
    require (leb (length (file_bytes utf8 f)) max_tracked_file_bytes) (PlanFault.too_large f.path)
    found ←
        lift_read (read_snapshot hash_bytes d (project_file_path out f.path) max_tracked_file_bytes)
    ok (add_generated out f found.1 p)

  unfoldable pub plan_files : Disk → String → List GenFile → Progress → Outcome PlanFault Progress
  plan_files d out [] p = ok p
  plan_files d out (f ∷ fs) p = do next ← plan_file d out f p; plan_files d out fs next

  abbrev pub delete_file : Disk → String → String → Progress → Outcome PlanFault Progress
  delete_file d out path p = do
    found ←
        lift_read (read_snapshot hash_bytes d (project_file_path out path) max_tracked_file_bytes)
    ok (add_orphan out path found.1 p)

  -- The loop over the recorded files that are not generated any more.
  unfoldable pub plan_orphan : Disk → String → String → Progress → Outcome PlanFault Progress
  plan_orphan d out path p =
      if is_project_root_file path || is_held (lookup path p.hashes)
      then ok p
      else delete_file d out path p

  unfoldable pub plan_orphans : Disk → String → List String → Progress → Outcome PlanFault Progress
  plan_orphans d out [] p = ok p
  plan_orphans d out (path ∷ paths) p = do
    next ← plan_orphan d out path p
    plan_orphans d out paths next

  -- The snapshot that a loop above has read, or a new one.
  abbrev pub snapshot_at : Disk → String → Option FileSnapshot → Outcome PlanFault FileSnapshot
  snapshot_at d name (some s) = ok s
  snapshot_at d name none = do
    found ← lift_read (read_snapshot hash_bytes d name max_tracked_file_bytes)
    ok found.1

  -- The loop that finds the files that are missing or not as recorded.
  unfoldable pub find_hand_edits :
      Disk
      → String
      → Dict String FileSnapshot
      → Dict String String
      → Outcome PlanFault (List String)
  find_hand_edits d out snapshots [] = ok []
  find_hand_edits d out snapshots ((path, recorded) ∷ rest) =
      let others = find_hand_edits d out snapshots rest in
      if is_project_root_file path then others else (do
        s ←
            snapshot_at d (project_file_path out path)
              (lookup (project_file_path out path) snapshots)
        more ← others
        ok (if is_edited s recorded then path ∷ more else more))

  field_state : Field → EntityFieldState
  field_state f = record { name = f.name; field_type = f.field_type; hash = hash_bytes f.yaml }

  unfoldable pub entity_snapshot :
      List Entity → Dict String (List EntityFieldState) → Dict String (List EntityFieldState)
  unfolding field_state
  entity_snapshot [] m = m
  entity_snapshot (e ∷ es) m = entity_snapshot es (insert e.name (map field_state e.fields) m)

  unfoldable pub new_state_of : BuildRecord → PlanInput → Progress → State
  unfolding entity_snapshot
  new_state_of build input p = record {
    format_version = state_format_version;
    last_applied = some (record {
      inputs = p.manifest;
      compiler_build = some build;
      service_name = input.service_name;
      service_hash = hash_bytes input.service_data;
      registry_sha = input.registry_sha;
      registry_content_sha256 = input.registry_content;
      components = input.pins;
      entities = entity_snapshot input.entities [];
      files = p.hashes;
    });
  }

  abbrev pub plan_from : BuildRecord → PlanInput → Progress → List String → Plan
  plan_from build input p edited = record {
    files = sort_by planned_le p.planned;
    entity_changes =
        compute_entity_changes hash_bytes input.entities
          (recorded_entities input.existing.last_applied);
    generated_files = input.generated;
    new_state = new_state_of build input p;
    state_changed =
        not (same_codes (marshal input.existing) (marshal (new_state_of build input p)));
    hand_edited = sort_texts edited;
    replace_hand_edits = false;
    saved = none;
    input_manifest_sha = "";
    registry_content = none;
    snapshots = p.snapshots;
    out_dir = input.out;
  }

  -- `computePlan`
  unfoldable pub compute_plan : BuildRecord → Disk → PlanInput → Outcome PlanFault Plan
  compute_plan build d input = do
    require (output_relative input.out) PlanFault.bad_output
    generated ← plan_files d input.out input.generated (no_progress input.manifest)
    all_planned ←
        plan_orphans d input.out (keys (recorded_files input.existing.last_applied)) generated
    edited ←
        find_hand_edits d input.out all_planned.snapshots
          (recorded_files input.existing.last_applied)
    require (valid_layout codec.to_lower (sorted_keys all_planned.snapshots)) PlanFault.layout
    ok (plan_from build input all_planned edited)

  -- `bindPlanInputs`
  unfoldable pub bind_plan_inputs : Disk → Dict String FileSnapshot → Plan → Outcome PlanFault Plan
  unfolding merge_inputs
  bind_plan_inputs d inputs plan = do
    lift_read (verify_snapshots hash_bytes d inputs)
    bound ← merge_inputs inputs plan.snapshots
    ok (record plan { snapshots = bound })
