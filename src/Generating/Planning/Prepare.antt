-- ===== src/Generating/Planning/Prepare.antt =====
-- `prepareTransaction` of internal/compiler/transaction.go: the journal of a plan.
use stego.Prelude.{
  ℕ, ◌+◌, String, Bool, true, not, ◌&&◌, ◌||◌, List, [], ◌∷◌, ◌++◌, Option, none, some, ◌==◌,
  string_eq, leb, if◌then◌else◌, Outcome, ok, err, require, ◌>>=◌, ◌>>◌, length, is_empty, keep,
}
use stego.Prelude.Dict.{Dict, lookup, insert}
use stego.Generating.Paths.{is_below, is_project_root_file, project_file_path, state_path}
use stego.Generating.Snapshot.{Bytes, FileSnapshot, no_file, snapshot_eq, max_tracked_file_bytes}
use stego.Generating.State.{Codec, StateFault, AppliedState, encode_state}
use stego.Generating.Transaction.{Operation, Transaction}
use stego.Generating.Execute.{or_no_file}
use stego.Generating.Planning.Types.{GenFile, file_bytes, Action, PlannedFile, Plan, PlanFault}
use stego.Generating.Planning.Compute.{kept_mode, is_held, file_hash}

-- The snapshots that recovery may still see: output, module files and the record.
abbrev pub is_output : String → String → Bool
is_output out name = is_project_root_file name || name == state_path || is_below out name

abbrev pub expected_of : String → Dict String FileSnapshot → Dict String FileSnapshot
expected_of out m = keep (λ (e : String × FileSnapshot). is_output out e.0) m

-- A name without an entry has the empty digest.
abbrev pub recorded_hash : Option String → String
recorded_hash none = ""
recorded_hash (some h) = h

abbrev pub lift_state {ℓ} : {A : Type ℓ} → Outcome StateFault A → Outcome PlanFault A
lift_state (ok a) = ok a
lift_state (err e) = err (PlanFault.bad_state e)

-- The operation of one planned file, if it has one, and the size of the content so far.
abbrev pub Made : Type 0
Made = Option Operation × ℕ

abbrev pub with_operation : Option Operation → List Operation → List Operation
with_operation none ops = ops
with_operation (some op) ops = op ∷ ops

module _ (codec : Codec) where
  open codec use {hash_bytes, utf8, encode64}

  unfoldable pub collect_contents :
      Dict String String → List GenFile → Dict String Bytes → Outcome PlanFault (Dict String Bytes)
  collect_contents recorded [] m = ok m
  collect_contents recorded (f ∷ fs) m = do
    require (not (is_held (lookup f.path m))) (PlanFault.duplicate_file f.path)
    require
        (is_project_root_file f.path || recorded_hash (lookup f.path recorded) == file_hash codec f)
        (PlanFault.not_in_state f.path)
    collect_contents recorded fs (insert f.path (file_bytes utf8 f) m)

  -- A file that is written keeps the permissions of the one that it replaces.
  abbrev pub snapshot_after : FileSnapshot → Bytes → FileSnapshot
  snapshot_after before bytes = record {
    present = true;
    hash = hash_bytes bytes;
    mode = kept_mode before;
  }

  abbrev pub write_operation : String → FileSnapshot → Bytes → Operation
  write_operation name before bytes = record {
    path = name;
    before = before;
    after = snapshot_after before bytes;
    content = encode64 bytes;
  }

  abbrev pub delete_operation : String → FileSnapshot → Operation
  delete_operation name before = record {
    path = name;
    before = before;
    after = no_file;
    content = "";
  }

  abbrev pub make_write : String → FileSnapshot → Option Bytes → ℕ → Outcome PlanFault Made
  make_write name before none total = err (PlanFault.no_content name)
  make_write name before (some bytes) total = do
    require (leb (total + length bytes) max_tracked_file_bytes) PlanFault.content_limit
    ok (some (write_operation name before bytes), total + length bytes)

  abbrev pub make_delete : String → FileSnapshot → Option Bytes → ℕ → Outcome PlanFault Made
  make_delete name before content total = do
    require (not (is_held content)) (PlanFault.deletes_generated name)
    ok (if before.present then some (delete_operation name before) else none, total)

  abbrev pub make_operation :
      String → FileSnapshot → Option Bytes → ℕ → Action → Outcome PlanFault Made
  make_operation name before content total Action.unchanged = ok (none, total)
  make_operation name before content total Action.generate = make_write name before content total
  make_operation name before content total Action.update = make_write name before content total
  make_operation name before content total Action.delete = make_delete name before content total
  make_operation name before content total (Action.other s) = err (PlanFault.unknown_action s)

  abbrev pub make_from :
      String → Option FileSnapshot → Option Bytes → ℕ → Action → Outcome PlanFault Made
  make_from name none content total action = err (PlanFault.no_snapshot name)
  make_from name (some before) content total action =
      make_operation name before content total action

  -- One round of the loop over the planned files.
  unfoldable pub prepare_file :
      Dict String FileSnapshot
      → Dict String Bytes
      → String
      → PlannedFile
      → ℕ
      → Outcome PlanFault Made
  prepare_file expected contents out f total =
      make_from (project_file_path out f.path) (lookup (project_file_path out f.path) expected)
        (lookup f.path contents) total f.action

  unfoldable pub prepare_files :
      Dict String FileSnapshot
      → Dict String Bytes
      → String
      → List PlannedFile
      → ℕ
      → Outcome PlanFault (List Operation × ℕ)
  prepare_files expected contents out [] total = ok ([], total)
  prepare_files expected contents out (f ∷ fs) total = do
    made ← prepare_file expected contents out f total
    rest ← prepare_files expected contents out fs made.1
    ok (with_operation made.0 rest.0, rest.1)

  abbrev pub transaction_of :
      String → Dict String FileSnapshot → List Operation → Bytes → Transaction
  transaction_of out expected ops state_data = record {
    version = 1;
    output_dir = out;
    expected = expected;
    operations =
        ops ++ write_operation state_path (or_no_file (lookup state_path expected)) state_data ∷ [];
  }

  -- Nothing to write, and the record as it is: no journal.
  abbrev pub close_transaction :
      String
      → Dict String FileSnapshot
      → List Operation × ℕ
      → Bytes
      → Outcome PlanFault (Option Transaction)
  close_transaction out expected (ops, total) state_data =
      let before = or_no_file (lookup state_path expected) in
      if is_empty ops && before == snapshot_after before state_data then ok none else (do
        require (leb (total + length state_data) max_tracked_file_bytes) PlanFault.state_limit
        ok (some (transaction_of out expected ops state_data)))

  abbrev pub prepare_applied :
      Plan → String → Option AppliedState → Outcome PlanFault (Option Transaction)
  prepare_applied plan out none = err PlanFault.no_record
  prepare_applied plan out (some applied) = do
    contents ← collect_contents applied.files plan.generated_files []
    ops ← prepare_files (expected_of out plan.snapshots) contents out plan.files 0
    state_data ← lift_state (encode_state codec plan.new_state)
    close_transaction out (expected_of out plan.snapshots) ops state_data

  -- `prepareTransaction`
  unfoldable pub prepare_transaction : Plan → String → Outcome PlanFault (Option Transaction)
  prepare_transaction plan out = prepare_applied plan out plan.new_state.last_applied
