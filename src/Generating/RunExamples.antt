-- ===== src/Generating/RunExamples.antt =====
-- Runs of applies and recoveries on the sample project, for internal/compiler/reconciler.go and transaction.go.
use stego.Prelude.{String, ◌≡◌, ◌≢◌, refl, [], ◌∷◌, none, some, ◌⊎◌, string_eq, nat_eq, ok, In}
use stego.Prelude.Dict.{Dict, keys, lookup, insert}
use stego.Prelude.Sort.{sorted_keys, sort_texts, sort_by, place}
use stego.Prelude.Text.{all_codes, cut_prefix, has_prefix, trim_prefix}
use stego.Generating.Paths.{
  valid_path, output_relative, valid_layout, is_below, is_project_root_file,
  validate_transaction_path,
}
use stego.Generating.Snapshot.{
  Bytes, no_file, snapshot_eq, read_snapshot, verify_names, verify_snapshots, valid_snapshot,
}
use stego.Generating.State.{decode_state, validate_state}
use stego.Generating.Transaction.{
  Operation, validate_transaction, check_expected, check_operations, check_operation,
  check_recorded, check_tracked,
}
use stego.Generating.Execute.{
  Project, read_current, run_operation, run_operations, with_after, execute_transaction,
  commit_transaction, recover,
}
use stego.Generating.Execute.Resume.{Resumable}
use stego.Generating.Execute.Effects.{state_of}
use stego.Generating.Execute.Commit.{AllDone}
use stego.Generating.Sample.{
  main_bytes, state_bytes, toy, main_file, write_main, first_apply, calm, crash, empty_project,
}
use stego.Generating.Execute.{start_apply}
use stego.Generating.Execute.Protocol.{
  Phase, Move, Step, Reach, InPhase, Step-refines, Reach-files, Reach-recovers,
}

-- The project after an apply that stops when the first file is written.
abbrev half_applied : Project
half_applied = (start_apply toy crash first_apply empty_project).1

half_applied-journal : half_applied.journal ≡ some first_apply
unfolding start_apply commit_transaction recover validate_transaction valid_path output_relative
    check_expected valid_layout sorted_keys check_operations check_operation lookup insert
    decode_state validate_state check_recorded check_tracked execute_transaction read_current
    read_snapshot run_operation run_operations with_after is_below is_project_root_file
    validate_transaction_path valid_snapshot verify_names verify_snapshots place sort_by sort_texts
    all_codes cut_prefix has_prefix trim_prefix
half_applied-journal = refl

crash-Step : Step toy first_apply empty_project half_applied
crash-Step = Step.applies crash refl

half_applied-Reach : Reach toy first_apply empty_project half_applied
half_applied-Reach = Reach.next Reach.start crash-Step

abbrev first_contents : Dict String Bytes
first_contents = ("out/main.go", main_bytes) ∷ (".stego/state.yaml", state_bytes) ∷ []

first_apply-valid : validate_transaction toy first_apply ≡ ok first_contents
unfolding commit_transaction recover validate_transaction valid_path output_relative check_expected
    valid_layout sorted_keys check_operations check_operation lookup insert decode_state
    validate_state check_recorded check_tracked execute_transaction read_current read_snapshot
    run_operation run_operations with_after is_below is_project_root_file validate_transaction_path
    valid_snapshot verify_names verify_snapshots place sort_by sort_texts all_codes cut_prefix
    has_prefix trim_prefix
first_apply-valid = refl

not_readme : (op : Operation) → In op first_apply.operations → "README.md" ≢ op.path
not_readme op In.here e = cc
not_readme op (In.there In.here) e = cc
not_readme op (In.there (In.there i)) e = elim i [ ]

fresh-Resumable :
    (name : String)
    → In name (keys first_apply.expected)
    → Resumable toy first_apply empty_project name
unfolding lookup with_after insert
fresh-Resumable name In.here = record { free = refl; small = refl; continues = refl }
fresh-Resumable name (In.there In.here) = record { free = refl; small = refl; continues = refl }
fresh-Resumable name (In.there (In.there i)) = elim i [ ]

Step-refines_example :
    (b : Phase) × Move Phase.idle b × InPhase toy first_apply empty_project half_applied b
Step-refines_example =
    Step-refines toy first_apply empty_project empty_project half_applied Phase.idle (refl, refl)
      crash-Step

Reach-files_example :
    (half_applied.disk.files "README.md" ≡ none)
    × ((state_of toy.hash_bytes half_applied "out/main.go" ≡ no_file)
        ⊎ (state_of toy.hash_bytes half_applied "out/main.go" ≡ main_file))
Reach-files_example =
    Reach-files toy first_apply empty_project half_applied "README.md" write_main refl
      half_applied-Reach In.here not_readme

Reach-recovers_example :
    ((recover toy calm half_applied).0 ≡ ok tt)
    × ((recover toy calm half_applied).1.journal ≡ none)
    × AllDone toy first_apply (recover toy calm half_applied).1
Reach-recovers_example =
    Reach-recovers toy first_apply calm (λ point. refl) (λ io. refl) first_contents empty_project
      half_applied first_apply-valid fresh-Resumable refl half_applied-Reach half_applied-journal
