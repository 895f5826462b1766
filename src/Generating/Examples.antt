-- ===== src/Generating/Examples.antt =====
-- Runs of the model on a small project, for internal/compiler/transaction.go, state.go and drift.go.
use stego.Prelude.{
  map, ◌++◌, err, String, ◌≡◌, ◌≢◌, refl, false, [], ◌∷◌, none, some, ◌⊎◌, ◌==◌, string_eq, nat_eq,
  ok, In, if◌then◌else◌,
}
use stego.Prelude.Dict.{Dict, keys, lookup, insert}
use stego.Prelude.Sort.{sorted_keys, sort_texts, sort_by, place}
use stego.Prelude.Text.{all_codes, cut_prefix, has_prefix, trim_prefix}
use stego.Generating.Paths.{
  codes, valid_path, output_relative, valid_layout, is_below, is_project_root_file,
  project_file_path, validate_transaction_path,
}
use stego.Generating.Snapshot.{
  Bytes, no_file, snapshot_eq, read_snapshot, verify_names, verify_snapshots, valid_snapshot,
}
use stego.Generating.State.{AppliedState, decode_state, encode_state, validate_state}
use stego.Generating.Yaml.{Kind, Node, Nodes, YamlFault, check_nodes}
use stego.Generating.Transaction.{
  Operation, Fault, validate_transaction, check_expected, check_operations, check_operation,
  check_recorded, check_tracked,
}
use stego.Generating.Drift.{
  detect_drift, drift_of, file_drift, detect_drift-clean, IsOnDisk, DriftResult,
}
use stego.Generating.Execute.{
  Project, read_current, run_operation, run_operations, with_after, execute_transaction,
  commit_transaction, recover,
}
use stego.Generating.Execute.Resume.{Resumable}
use stego.Generating.Execute.Complete.{execute_transaction-returns, recover-completes}
use stego.Registry.{Component}
use stego.Generating.Namespaces.{
  validate_component_namespaces, namespace_faults, name_faults, overlaps,
  validate_component_namespaces_sound,
}
use stego.Generating.Execute.Conflict.{execute_transaction-conflict}
use stego.Generating.Execute.Effects.{state_of}
use stego.Generating.Execute.Commit.{
  execute_transaction-others, execute_transaction-each, execute_transaction-journal,
  commit_transaction-Committed, recover-done, Committed, AllDone,
}
use stego.Generating.Sample.{
  digest_of_main, main_bytes, state_bytes, new_state, toy, main_file, write_main, first_apply, calm,
  crash, empty_project,
}

-- An apply that is not disturbed returns and leaves no journal.
apply_returns : (commit_transaction toy calm first_apply empty_project).0 ≡ ok tt
unfolding commit_transaction recover validate_transaction valid_path output_relative check_expected
    valid_layout sorted_keys check_operations check_operation lookup insert decode_state
    validate_state check_recorded check_tracked execute_transaction read_current read_snapshot
    run_operation run_operations with_after is_below is_project_root_file validate_transaction_path
    valid_snapshot verify_names verify_snapshots place sort_by sort_texts all_codes cut_prefix
    has_prefix trim_prefix
apply_returns = refl

-- The project that the crash leaves: the first file is written, the record is not.
abbrev crashed : Project
crashed = (commit_transaction toy crash first_apply empty_project).1

crashed-journal : crashed.journal ≡ some first_apply
unfolding commit_transaction recover validate_transaction valid_path output_relative check_expected
    valid_layout sorted_keys check_operations check_operation lookup insert decode_state
    validate_state check_recorded check_tracked execute_transaction read_current read_snapshot
    run_operation run_operations with_after is_below is_project_root_file validate_transaction_path
    valid_snapshot verify_names verify_snapshots place sort_by sort_texts all_codes cut_prefix
    has_prefix trim_prefix
crashed-journal = refl

crashed-record : crashed.disk.files ".stego/state.yaml" ≡ none
unfolding commit_transaction recover validate_transaction valid_path output_relative check_expected
    valid_layout sorted_keys check_operations check_operation lookup insert decode_state
    validate_state check_recorded check_tracked execute_transaction read_current read_snapshot
    run_operation run_operations with_after is_below is_project_root_file validate_transaction_path
    valid_snapshot verify_names verify_snapshots place sort_by sort_texts all_codes cut_prefix
    has_prefix trim_prefix
crashed-record = refl

recovery_returns : (recover toy calm crashed).0 ≡ ok tt
unfolding commit_transaction recover validate_transaction valid_path output_relative check_expected
    valid_layout sorted_keys check_operations check_operation lookup insert decode_state
    validate_state check_recorded check_tracked execute_transaction read_current read_snapshot
    run_operation run_operations with_after is_below is_project_root_file validate_transaction_path
    valid_snapshot verify_names verify_snapshots place sort_by sort_texts all_codes cut_prefix
    has_prefix trim_prefix
recovery_returns = refl

recover-done_example :
    ((recover toy calm crashed).1.journal ≡ none)
    × AllDone toy first_apply (recover toy calm crashed).1
recover-done_example = recover-done toy calm first_apply crashed crashed-journal recovery_returns

commit_transaction-Committed_example :
    Committed toy first_apply empty_project (commit_transaction toy crash first_apply empty_project)
commit_transaction-Committed_example =
    commit_transaction-Committed toy crash first_apply empty_project

not_readme : (op : Operation) → In op first_apply.operations → "README.md" ≢ op.path
not_readme op In.here e = cc
not_readme op (In.there In.here) e = cc
not_readme op (In.there (In.there i)) e = elim i [ ]

execute_transaction-others_example :
    (execute_transaction toy crash first_apply empty_project).1.disk.files "README.md" ≡ none
execute_transaction-others_example =
    execute_transaction-others toy crash first_apply empty_project "README.md" not_readme

execute_transaction-each_example :
    (state_of toy.hash_bytes
        (execute_transaction toy crash first_apply empty_project).1
        "out/main.go"
      ≡ no_file)
    ⊎ (state_of toy.hash_bytes
          (execute_transaction toy crash first_apply empty_project).1
          "out/main.go"
        ≡ main_file)
execute_transaction-each_example =
    execute_transaction-each toy crash first_apply empty_project write_main In.here

execute_transaction-journal_example :
    ((execute_transaction toy crash first_apply empty_project).1.journal ≡ none)
    ⊎ (((execute_transaction toy crash first_apply empty_project).1.journal ≡ none)
        × AllDone toy first_apply (execute_transaction toy crash first_apply empty_project).1)
execute_transaction-journal_example =
    execute_transaction-journal toy crash first_apply empty_project

new_state-encoded : encode_state toy new_state ≡ ok state_bytes
unfolding encode_state validate_state valid_path
new_state-encoded = refl

-- A document with a key that comes twice is refused.
version_twice : Nodes
version_twice = Nodes.cons (Node.node Kind.scalar_node "!!str" "format_version" "" Nodes.nil) (
    Nodes.cons (Node.node Kind.scalar_node "!!int" "2" "" Nodes.nil) (
      Nodes.cons (Node.node Kind.scalar_node "!!str" "format_version" "" Nodes.nil)
        (Nodes.cons (Node.node Kind.scalar_node "!!int" "1" "" Nodes.nil) Nodes.nil)))

duplicate-refused :
    check_nodes 0 (Node.node Kind.mapping_node "!!map" "" "" version_twice)
    ≡ err (YamlFault.duplicate_key "format_version")
unfolding check_nodes version_twice
duplicate-refused = refl

abbrev recovered : Project
recovered = (recover toy calm crashed).1

abbrev clean : DriftResult
clean = record { modified = []; deleted = []; inputs = [] }

recovered-clean : detect_drift toy recovered "out" ≡ ok clean
unfolding detect_drift drift_of file_drift project_file_path commit_transaction recover
    validate_transaction valid_path output_relative check_expected valid_layout sorted_keys
    check_operations check_operation lookup insert decode_state validate_state check_recorded
    check_tracked execute_transaction read_current read_snapshot run_operation run_operations
    with_after is_below is_project_root_file validate_transaction_path valid_snapshot verify_names
    verify_snapshots place sort_by sort_texts all_codes cut_prefix has_prefix trim_prefix
recovered-clean = refl

abbrev first_record : AppliedState
first_record = record {
  inputs = none;
  compiler_build = none;
  service_name = "orders";
  service_hash = "";
  registry_sha = "";
  registry_content_sha256 = "";
  components = [];
  entities = [];
  files = ("main.go", digest_of_main) ∷ [];
}

detect_drift-clean_example :
    IsOnDisk toy.hash_bytes recovered.disk (project_file_path "out" "main.go") digest_of_main
unfolding commit_transaction recover validate_transaction valid_path output_relative check_expected
    valid_layout sorted_keys check_operations check_operation lookup insert decode_state
    validate_state check_recorded check_tracked execute_transaction read_current read_snapshot
    run_operation run_operations with_after is_below is_project_root_file validate_transaction_path
    valid_snapshot verify_names verify_snapshots place sort_by sort_texts all_codes cut_prefix
    has_prefix trim_prefix
detect_drift-clean_example =
    detect_drift-clean toy recovered "out" clean (record { content = state_bytes; mode = 420 })
      new_state first_record "main.go" digest_of_main recovered-clean refl refl refl refl refl refl

abbrev first_contents : Dict String Bytes
first_contents = ("out/main.go", main_bytes) ∷ (".stego/state.yaml", state_bytes) ∷ []

first_apply-valid : validate_transaction toy first_apply ≡ ok first_contents
unfolding commit_transaction recover validate_transaction valid_path output_relative check_expected
    valid_layout sorted_keys check_operations check_operation lookup insert decode_state
    validate_state check_recorded check_tracked execute_transaction read_current read_snapshot
    run_operation run_operations with_after is_below is_project_root_file validate_transaction_path
    valid_snapshot verify_names verify_snapshots place sort_by sort_texts all_codes cut_prefix
    has_prefix trim_prefix
first_apply-valid = refl

fresh-Resumable :
    (name : String)
    → In name (keys first_apply.expected)
    → Resumable toy first_apply empty_project name
unfolding lookup with_after insert
fresh-Resumable name In.here = record { free = refl; small = refl; continues = refl }
fresh-Resumable name (In.there In.here) = record { free = refl; small = refl; continues = refl }
fresh-Resumable name (In.there (In.there i)) = elim i [ ]

execute_transaction-returns_example :
    (execute_transaction toy calm first_apply empty_project).0 ≡ ok tt
execute_transaction-returns_example =
    execute_transaction-returns toy calm (λ point. refl) (λ io. refl) first_apply first_contents
      empty_project first_apply-valid fresh-Resumable

-- The project with the journal of the first apply, before any file is written.
abbrev journaled : Project
journaled = record { disk = empty_project.disk; journal = some first_apply }

journaled-Resumable :
    (name : String) → In name (keys first_apply.expected) → Resumable toy first_apply journaled name
unfolding lookup with_after insert
journaled-Resumable name In.here = record { free = refl; small = refl; continues = refl }
journaled-Resumable name (In.there In.here) = record { free = refl; small = refl; continues = refl }
journaled-Resumable name (In.there (In.there i)) = elim i [ ]

cut_off-journal : (execute_transaction toy crash first_apply journaled).1.journal ≡ some first_apply
unfolding commit_transaction recover validate_transaction valid_path output_relative check_expected
    valid_layout sorted_keys check_operations check_operation lookup insert decode_state
    validate_state check_recorded check_tracked execute_transaction read_current read_snapshot
    run_operation run_operations with_after is_below is_project_root_file validate_transaction_path
    valid_snapshot verify_names verify_snapshots place sort_by sort_texts all_codes cut_prefix
    has_prefix trim_prefix
cut_off-journal = refl

recover-completes_example :
    ((recover toy calm (execute_transaction toy crash first_apply journaled).1).0 ≡ ok tt)
    × ((recover toy calm (execute_transaction toy crash first_apply journaled).1).1.journal ≡ none)
    × AllDone toy first_apply
        (recover toy calm (execute_transaction toy crash first_apply journaled).1).1
recover-completes_example =
    recover-completes toy crash calm (λ point. refl) (λ io. refl) first_apply first_contents
      journaled first_apply-valid journaled-Resumable cut_off-journal

-- Someone has written a file of three bytes where the first apply expects none.
abbrev taken : Project
taken = record {
  disk = record {
    files = λ n.
        if n == "out/main.go" then some (record { content = 7 ∷ 7 ∷ 7 ∷ []; mode = 420 }) else none;
    blocked = λ n. false;
  };
  journal = some first_apply;
}

execute_transaction-conflict_example :
    ((e : Fault) × ((execute_transaction toy calm first_apply taken).0 ≡ err e))
    × ((execute_transaction toy calm first_apply taken).1 ≡ taken)
unfolding lookup with_after insert
execute_transaction-conflict_example =
    execute_transaction-conflict toy calm first_apply taken "out/main.go" In.here refl

abbrev placed : String → String → Component
placed name namespace = record {
  name = name;
  version = "1.0.0";
  stage = "ga";
  sunset = "";
  requires = [];
  provides = [];
  output_namespace = namespace;
}

abbrev two_components : Dict String Component
two_components =
    ("rest-api", placed "rest-api" "internal/api")
    ∷ ("jwt-auth", placed "jwt-auth" "internal/auth")
    ∷ []

two_components-pass : validate_component_namespaces toy.to_lower two_components ≡ []
unfolding validate_component_namespaces namespace_faults name_faults overlaps lookup sorted_keys
    sort_texts sort_by place valid_path
two_components-pass = refl

two_components-order : sorted_keys two_components ≡ "jwt-auth" ∷ "rest-api" ∷ []
unfolding sorted_keys sort_texts sort_by place
two_components-order = refl

validate_component_namespaces_sound_example :
    (map toy.to_lower (codes "internal/auth") ≢ map toy.to_lower (codes "internal/api"))
    × (map toy.to_lower (codes "internal/auth")
        ≢ map toy.to_lower (codes "internal/api") ++ b'/' ∷ b'v' ∷ [])
    × (map toy.to_lower (codes "internal/api")
        ≢ map toy.to_lower (codes "internal/auth") ++ b'/' ∷ b'v' ∷ [])
unfolding lookup
validate_component_namespaces_sound_example =
    validate_component_namespaces_sound toy.to_lower two_components ("jwt-auth" ∷ []) [] "rest-api"
      "jwt-auth" (b'v' ∷ []) two_components-pass two_components-order refl refl In.here
