-- ===== src/Generating/PlanExamples.antt =====
-- Runs of planning and applying on a small project, for internal/compiler/reconciler.go.
use stego.Prelude.{
  err, String, ◌≡◌, ◌≢◌, refl, true, false, [], ◌∷◌, none, some, ◌==◌, string_eq, nat_eq, List,
  Outcome, ok, In, All, if◌then◌else◌,
}
use stego.Prelude.Dict.{Dict, lookup, insert}
use stego.Prelude.Sort.{sorted_keys, sort_texts, sort_by, place}
use stego.Prelude.Text.{all_codes, cut_prefix, has_prefix, trim_prefix}
use stego.Generating.Paths.{
  valid_path, output_relative, valid_layout, is_below, is_project_root_file, project_file_path,
  validate_transaction_path, same_codes, state_path,
}
use stego.Generating.Snapshot.{
  Disk, FileSnapshot, no_file, snapshot_eq, snapshot_of, read_snapshot, verify_names,
  verify_snapshots, valid_snapshot,
}
use stego.Generating.State.{
  State, InputManifest, InputFile, EntityFieldState, decode_state, encode_state, validate_state,
  valid_manifest, valid_manifest_fields, manifest_digest, valid_build, valid_digest,
}
use stego.Generating.Transaction.{
  validate_transaction, check_expected, check_operations, check_operation, check_recorded,
  check_tracked,
}
use stego.Generating.Execute.{
  Project, read_current, run_operation, run_operations, with_after, execute_transaction,
  commit_transaction, start_apply,
}
use stego.Generating.Sample.{toy, calm, crash, main_bytes, digest_of_main, digest_of_state}
use stego.Generating.Planning.Types.{
  GenFile, file_bytes, is_go_file, Action, PlannedFile, Field, Entity, SavedPlan, Plan, PlanFault,
}
use stego.Generating.Planning.Entities.{
  compute_entity_changes, current_changes, diff_fields, by_name,
}
use stego.Generating.Planning.Compute.{
  PlanInput, file_hash, validate_unique_file_paths, check_paths, duplicates, compute_plan,
  plan_files, plan_file, plan_orphans, plan_orphan, find_hand_edits, new_state_of, entity_snapshot,
  bind_plan_inputs, merge_inputs,
}
use stego.Generating.Planning.Prepare.{
  prepare_transaction, collect_contents, prepare_files, prepare_file,
}
use stego.Generating.Planning.Saved.{
  new_saved_plan, saved_entries, content_hashes, still_applies, differences, saved_files_beq,
}
use stego.Generating.Planning.Apply.{
  Session, ApplyFault, apply, check_apply, check_valid, check_targets, verify_registry,
}
use stego.Generating.Planning.Reconcile.{confirmed, make_plan}
use stego.Generating.Planning.Delivers.{apply-generated, apply-deletes}
use stego.Generating.Planning.Guards.{apply-others, apply-hand_edits, apply-saved_plan}
use stego.Generating.Planning.EntityDiff.{compute_entity_changes-silent, IsKept}
use stego.Generating.Planning.Again.{compute_plan-settled}

abbrev here : Session
here = record {
  build = record {
    go_version = "go1.25";
    go_os = "linux";
    go_arch = "amd64";
    module_version = "devel";
    vcs = "git";
    revision = "abc";
    source_state = "clean";
  };
  registry_verifies = true;
}

abbrev main_go : GenFile
main_go = record { path = "main.go"; content = main_bytes }

abbrev absent_input : InputFile
absent_input = record { present = false; sha256 = ""; mode = 0 }

abbrev sample_manifest : InputManifest
sample_manifest = record {
  version = 1;
  options = record {
    module_name = "m";
    go_version = "1.25";
    output_dir = "out";
    registry_ref = "";
  };
  files =
      ("service.yaml", record { present = true; sha256 = digest_of_main; mode = 420 })
      ∷ ("go.mod", absent_input)
      ∷ ("go.sum", absent_input)
      ∷ (".stego/config.yaml", absent_input)
      ∷ [];
  sha256 = digest_of_state;
}

-- The record of an earlier apply, which generated another file.
abbrev earlier : String → State
earlier path = record {
  format_version = 2;
  last_applied = some (record {
    inputs = none;
    compiler_build = none;
    service_name = "orders";
    service_hash = "";
    registry_sha = "";
    registry_content_sha256 = "";
    components = [];
    entities = [];
    files = (path, digest_of_main) ∷ [];
  });
}

abbrev sample_input : String → PlanInput
sample_input recorded = record {
  generated = main_go ∷ [];
  existing = earlier recorded;
  service_data = main_bytes;
  service_name = "orders";
  entities = [];
  pins = [];
  out = "out";
  registry_sha = "";
  registry_content = digest_of_main;
  manifest = some sample_manifest;
}

abbrev no_record : Dict String FileSnapshot
no_record = (state_path, no_file) ∷ []

abbrev old_project : Project
old_project = record {
  disk = record {
    files =
        λ n. if n == "out/old.go" then some (record { content = main_bytes; mode = 420 }) else none;
    blocked = λ n. false;
  };
  journal = none;
}

abbrev empty_disk : Disk
empty_disk = record { files = λ n. none; blocked = λ n. false }

-- The plan of a call that returned one.
abbrev plan_in : Plan → Outcome {0, 0} PlanFault Plan → Plan
plan_in other (ok plan) = plan
plan_in other (err e) = other

abbrev blank : Plan
blank = record {
  files = [];
  entity_changes = [];
  generated_files = [];
  new_state = earlier "";
  state_changed = false;
  hand_edited = [];
  replace_hand_edits = false;
  saved = none;
  input_manifest_sha = "";
  registry_content = none;
  snapshots = [];
  out_dir = "";
}

abbrev sample_plan : Plan
sample_plan = plan_in blank (make_plan toy here old_project.disk (sample_input "old.go") no_record)

sample_plan-made :
    make_plan toy here old_project.disk (sample_input "old.go") no_record ≡ ok sample_plan
unfolding make_plan validate_unique_file_paths check_paths duplicates compute_plan plan_files
    plan_file plan_orphans plan_orphan find_hand_edits new_state_of entity_snapshot
    compute_entity_changes current_changes bind_plan_inputs merge_inputs verify_registry
    valid_manifest valid_manifest_fields manifest_digest valid_build valid_digest file_bytes
    is_go_file same_codes project_file_path is_project_root_file sort_texts sort_by place
    sorted_keys valid_path output_relative valid_layout lookup insert read_snapshot verify_snapshots
    verify_names all_codes has_prefix cut_prefix trim_prefix is_below apply check_apply check_valid
    check_targets validate_state prepare_transaction collect_contents prepare_files prepare_file
    encode_state start_apply commit_transaction validate_transaction check_expected check_operations
    check_operation decode_state check_recorded check_tracked execute_transaction read_current
    run_operation run_operations with_after validate_transaction_path valid_snapshot new_saved_plan
    saved_entries content_hashes still_applies differences saved_files_beq
sample_plan-made = refl

sample_plan-files :
    sample_plan.files
    ≡ record { path = "main.go"; action = Action.generate }
      ∷ record { path = "old.go"; action = Action.delete }
      ∷ []
unfolding make_plan validate_unique_file_paths check_paths duplicates compute_plan plan_files
    plan_file plan_orphans plan_orphan find_hand_edits new_state_of entity_snapshot
    compute_entity_changes current_changes bind_plan_inputs merge_inputs verify_registry
    valid_manifest valid_manifest_fields manifest_digest valid_build valid_digest file_bytes
    is_go_file same_codes project_file_path is_project_root_file sort_texts sort_by place
    sorted_keys valid_path output_relative valid_layout lookup insert read_snapshot verify_snapshots
    verify_names all_codes has_prefix cut_prefix trim_prefix is_below apply check_apply check_valid
    check_targets validate_state prepare_transaction collect_contents prepare_files prepare_file
    encode_state start_apply commit_transaction validate_transaction check_expected check_operations
    check_operation decode_state check_recorded check_tracked execute_transaction read_current
    run_operation run_operations with_after validate_transaction_path valid_snapshot new_saved_plan
    saved_entries content_hashes still_applies differences saved_files_beq
sample_plan-files = refl

sample_returns :
    (apply toy here calm (confirmed false none sample_plan) "out" old_project).0 ≡ ok tt
unfolding make_plan validate_unique_file_paths check_paths duplicates compute_plan plan_files
    plan_file plan_orphans plan_orphan find_hand_edits new_state_of entity_snapshot
    compute_entity_changes current_changes bind_plan_inputs merge_inputs verify_registry
    valid_manifest valid_manifest_fields manifest_digest valid_build valid_digest file_bytes
    is_go_file same_codes project_file_path is_project_root_file sort_texts sort_by place
    sorted_keys valid_path output_relative valid_layout lookup insert read_snapshot verify_snapshots
    verify_names all_codes has_prefix cut_prefix trim_prefix is_below apply check_apply check_valid
    check_targets validate_state prepare_transaction collect_contents prepare_files prepare_file
    encode_state start_apply commit_transaction validate_transaction check_expected check_operations
    check_operation decode_state check_recorded check_tracked execute_transaction read_current
    run_operation run_operations with_after validate_transaction_path valid_snapshot new_saved_plan
    saved_entries content_hashes still_applies differences saved_files_beq
sample_returns = refl

not_main : (f : GenFile) → In f (sample_input "old.go").generated → f.path ≢ "old.go"
not_main f In.here e = cc
not_main f (In.there i) e = elim i [ ]

abbrev old_files : Dict String String
old_files = ("old.go", digest_of_main) ∷ []

old_recorded : lookup "old.go" old_files ≡ some digest_of_main
unfolding lookup
old_recorded = refl

old_is_output : is_project_root_file "old.go" ≡ false
unfolding is_project_root_file
old_is_output = refl

abbrev applied_project : Project
applied_project = (apply toy here calm (confirmed false none sample_plan) "out" old_project).1

apply-generated_example :
    ((snapshot_of toy.hash_bytes
        (applied_project.disk.files (project_file_path "out" "main.go"))).present
      ≡ true)
    × ((snapshot_of toy.hash_bytes
          (applied_project.disk.files (project_file_path "out" "main.go"))).hash
        ≡ file_hash toy main_go)
apply-generated_example =
    apply-generated toy here calm old_project.disk (sample_input "old.go") no_record sample_plan
      false none old_project main_go sample_plan-made sample_returns In.here

apply-deletes_example : applied_project.disk.files (project_file_path "out" "old.go") ≡ none
apply-deletes_example =
    apply-deletes toy here calm old_project.disk (sample_input "old.go") no_record sample_plan false
      none old_project "old.go" digest_of_main sample_plan-made sample_returns old_recorded
      old_is_output not_main

not_planned :
    (f : PlannedFile) → In f sample_plan.files → "README.md" ≢ project_file_path "out" f.path
unfolding make_plan validate_unique_file_paths check_paths duplicates compute_plan plan_files
    plan_file plan_orphans plan_orphan find_hand_edits new_state_of entity_snapshot
    compute_entity_changes current_changes bind_plan_inputs merge_inputs verify_registry
    valid_manifest valid_manifest_fields manifest_digest valid_build valid_digest file_bytes
    is_go_file same_codes project_file_path is_project_root_file sort_texts sort_by place
    sorted_keys valid_path output_relative valid_layout lookup insert read_snapshot verify_snapshots
    verify_names all_codes has_prefix cut_prefix trim_prefix is_below apply check_apply check_valid
    check_targets validate_state prepare_transaction collect_contents prepare_files prepare_file
    encode_state start_apply commit_transaction validate_transaction check_expected check_operations
    check_operation decode_state check_recorded check_tracked execute_transaction read_current
    run_operation run_operations with_after validate_transaction_path valid_snapshot new_saved_plan
    saved_entries content_hashes still_applies differences saved_files_beq
not_planned f In.here e = cc
not_planned f (In.there In.here) e = cc
not_planned f (In.there (In.there i)) e = elim i [ ]

apply-others_example :
    (apply toy here crash sample_plan "out" old_project).1.disk.files "README.md" ≡ none
apply-others_example =
    apply-others toy here crash sample_plan "out" old_project "README.md" (λ e. cc) (λ e. cc)
      not_planned

-- The recorded file is missing.
abbrev edited_plan : Plan
edited_plan = plan_in blank (make_plan toy here empty_disk (sample_input "old.go") no_record)

edited_plan-made : make_plan toy here empty_disk (sample_input "old.go") no_record ≡ ok edited_plan
unfolding make_plan validate_unique_file_paths check_paths duplicates compute_plan plan_files
    plan_file plan_orphans plan_orphan find_hand_edits new_state_of entity_snapshot
    compute_entity_changes current_changes bind_plan_inputs merge_inputs verify_registry
    valid_manifest valid_manifest_fields manifest_digest valid_build valid_digest file_bytes
    is_go_file same_codes project_file_path is_project_root_file sort_texts sort_by place
    sorted_keys valid_path output_relative valid_layout lookup insert read_snapshot verify_snapshots
    verify_names all_codes has_prefix cut_prefix trim_prefix is_below apply check_apply check_valid
    check_targets validate_state prepare_transaction collect_contents prepare_files prepare_file
    encode_state start_apply commit_transaction validate_transaction check_expected check_operations
    check_operation decode_state check_recorded check_tracked execute_transaction read_current
    run_operation run_operations with_after validate_transaction_path valid_snapshot new_saved_plan
    saved_entries content_hashes still_applies differences saved_files_beq
edited_plan-made = refl

abbrev empty_project : Project
empty_project = record { disk = empty_disk; journal = none }

apply-hand_edits_example :
    (e : ApplyFault) × (apply toy here calm (confirmed false none edited_plan) "out" empty_project
      ≡ (err e, empty_project))
unfolding project_file_path is_project_root_file
apply-hand_edits_example =
    apply-hand_edits toy here calm empty_disk (sample_input "old.go") no_record edited_plan none
      empty_project "old.go" digest_of_main edited_plan-made old_recorded old_is_output refl

abbrev saved_in : SavedPlan → Outcome {0, 0} PlanFault SavedPlan → SavedPlan
saved_in other (ok plan) = plan
saved_in other (err e) = other

abbrev blank_saved : SavedPlan
blank_saved = record {
  base_record_sha256 = "";
  service_hash = "";
  registry_content_sha256 = "";
  compiler_build = here.build;
  output_dir = "";
  record_sha256 = "";
  files = [];
}

abbrev sample_saved : SavedPlan
sample_saved = saved_in blank_saved (new_saved_plan toy sample_plan)

saved_returns :
    (apply toy here calm (confirmed false (some sample_saved) sample_plan) "out" old_project).0
    ≡ ok tt
unfolding make_plan validate_unique_file_paths check_paths duplicates compute_plan plan_files
    plan_file plan_orphans plan_orphan find_hand_edits new_state_of entity_snapshot
    compute_entity_changes current_changes bind_plan_inputs merge_inputs verify_registry
    valid_manifest valid_manifest_fields manifest_digest valid_build valid_digest file_bytes
    is_go_file same_codes project_file_path is_project_root_file sort_texts sort_by place
    sorted_keys valid_path output_relative valid_layout lookup insert read_snapshot verify_snapshots
    verify_names all_codes has_prefix cut_prefix trim_prefix is_below apply check_apply check_valid
    check_targets validate_state prepare_transaction collect_contents prepare_files prepare_file
    encode_state start_apply commit_transaction validate_transaction check_expected check_operations
    check_operation decode_state check_recorded check_tracked execute_transaction read_current
    run_operation run_operations with_after validate_transaction_path valid_snapshot new_saved_plan
    saved_entries content_hashes still_applies differences saved_files_beq
saved_returns = refl

apply-saved_plan_example :
    new_saved_plan toy (confirmed false (some sample_saved) sample_plan) ≡ ok sample_saved
apply-saved_plan_example =
    apply-saved_plan toy here calm sample_plan false sample_saved "out" old_project saved_returns

-- A plan from the same files on the project that the apply left.
abbrev second_plan : Plan
second_plan =
    plan_in blank (compute_plan toy here.build applied_project.disk (sample_input "main.go"))

second_plan-made :
    compute_plan toy here.build applied_project.disk (sample_input "main.go") ≡ ok second_plan
unfolding make_plan validate_unique_file_paths check_paths duplicates compute_plan plan_files
    plan_file plan_orphans plan_orphan find_hand_edits new_state_of entity_snapshot
    compute_entity_changes current_changes bind_plan_inputs merge_inputs verify_registry
    valid_manifest valid_manifest_fields manifest_digest valid_build valid_digest file_bytes
    is_go_file same_codes project_file_path is_project_root_file sort_texts sort_by place
    sorted_keys valid_path output_relative valid_layout lookup insert read_snapshot verify_snapshots
    verify_names all_codes has_prefix cut_prefix trim_prefix is_below apply check_apply check_valid
    check_targets validate_state prepare_transaction collect_contents prepare_files prepare_file
    encode_state start_apply commit_transaction validate_transaction check_expected check_operations
    check_operation decode_state check_recorded check_tracked execute_transaction read_current
    run_operation run_operations with_after validate_transaction_path valid_snapshot new_saved_plan
    saved_entries content_hashes still_applies differences saved_files_beq
second_plan-made = refl

compute_plan-settled_example :
    All (λ (x : PlannedFile). x.action ≡ Action.unchanged) second_plan.files
    × (second_plan.hand_edited ≡ [])
unfolding make_plan validate_unique_file_paths check_paths duplicates compute_plan plan_files
    plan_file plan_orphans plan_orphan find_hand_edits new_state_of entity_snapshot
    compute_entity_changes current_changes bind_plan_inputs merge_inputs verify_registry
    valid_manifest valid_manifest_fields manifest_digest valid_build valid_digest file_bytes
    is_go_file same_codes project_file_path is_project_root_file sort_texts sort_by place
    sorted_keys valid_path output_relative valid_layout lookup insert read_snapshot verify_snapshots
    verify_names all_codes has_prefix cut_prefix trim_prefix is_below apply check_apply check_valid
    check_targets validate_state prepare_transaction collect_contents prepare_files prepare_file
    encode_state start_apply commit_transaction validate_transaction check_expected check_operations
    check_operation decode_state check_recorded check_tracked execute_transaction read_current
    run_operation run_operations with_after validate_transaction_path valid_snapshot new_saved_plan
    saved_entries content_hashes still_applies differences saved_files_beq
compute_plan-settled_example =
    compute_plan-settled toy applied_project.disk here.build (sample_input "main.go") second_plan
      second_plan-made ((refl, refl), tt) ((main_go, In.here, refl, refl), tt)

abbrev id_field : Field
id_field = record { name = "id"; field_type = "string"; yaml = main_bytes }

abbrev order_entity : Entity
order_entity = record { name = "Order"; fields = id_field ∷ [] }

abbrev recorded_id : EntityFieldState
recorded_id = record { name = "id"; field_type = "string"; hash = digest_of_main }

abbrev recorded_orders : Dict String (List EntityFieldState)
recorded_orders = ("Order", recorded_id ∷ []) ∷ []

no_change : compute_entity_changes toy.hash_bytes (order_entity ∷ []) recorded_orders ≡ []
unfolding compute_entity_changes current_changes diff_fields by_name insert lookup sort_texts
    sort_by place
no_change = refl

compute_entity_changes-silent_example : IsKept toy.hash_bytes recorded_orders order_entity id_field
compute_entity_changes-silent_example =
    compute_entity_changes-silent toy.hash_bytes (order_entity ∷ []) recorded_orders order_entity
      id_field (λ e. cc) no_change In.here In.here
