-- ===== src/Generating/Transaction.antt =====
-- The apply journal: internal/compiler/transaction.go. A call that fails leaves the project as it
-- is; `Env` says which calls fail and at which points of the journal the run is stopped.
pub mod Valid
use Prim.Native.String.{len}
use stego.Prelude.{
  ℕ, suc, ◌+◌, ◌%◌, String, Bool, true, false, not, ◌&&◌, ◌||◌, List, [], ◌∷◌, ◌++◌, Option, none,
  some, ◌==◌, string_eq, nat_eq, ltb, leb, if◌then◌else◌, Outcome, ok, err, length, all, any,
  require, is_empty, contains, ◌>>=◌, ◌>>◌,
}
use stego.Prelude.Dict.{Dict, keys, lookup, insert}
use stego.Prelude.Sort.{sorted_keys}
use stego.Generating.Paths.{
  valid_path, is_below, state_path, is_project_root_file, validate_transaction_path, trim_prefix,
  slash, output_relative, valid_layout, PathFault,
}
use stego.Generating.Snapshot.{
  Bytes, File, Disk, FileSnapshot, no_file, snapshot_eq, valid_snapshot, snapshot_of, read_snapshot,
  verify_snapshots, ReadFault, max_tracked_file_bytes, mode_perm,
}
use stego.Generating.State.{Codec, State, AppliedState, StateFault, decode_state}

-- `data` is base64; an operation that deletes has none.
pub record Operation : Type 0 where
  pub path : String
  pub before : FileSnapshot
  pub after : FileSnapshot
  pub content : String

pub record Transaction : Type 0 where
  pub version : ℕ
  pub output_dir : String
  pub expected : Dict String FileSnapshot
  pub operations : List Operation

abbrev pub max_transaction_files : ℕ
max_transaction_files = 10000

-- `base64.StdEncoding.EncodedLen(maxTrackedFileBytes)`
abbrev max_encoded_bytes : ℕ
max_encoded_bytes = 89478488

-- Where a run of the journal can be stopped.
pub data Point : Type 0 where
  before_prepare : Point
  prepared : Point
  before_record : Point
  after_operation : ℕ → Point
  before_complete : Point

-- The calls on the project folder that can fail.
pub data Io : Type 0 where
  write_journal : Io
  sync_journal : Io
  open_output : Io
  write_file : String → Io
  remove_file : String → Io
  sync_file : String → Io
  sync_output : Io
  remove_journal : Io

pub data Fault : Type 0 where
  bad_version : Fault
  output_directory : Fault
  file_count : Fault
  bad_path : PathFault → Fault
  expected_snapshot : String → Fault
  layout : Fault
  duplicate : String → Fault
  inconsistent : String → Fault
  invalid_snapshot : String → Fault
  state_last : Fault
  module_deletion : Fault
  content_limit : Fault
  content_hash : String → Fault
  deleted_content : Fault
  no_state : Fault
  bad_state : StateFault → Fault
  no_applied : Fault
  module_ownership : Fault
  state_mismatch : String → Fault
  not_tracked : String → Fault
  conflict : String → Fault
  read : ReadFault → Fault
  stopped : Point → Fault
  failed : Io → Fault
  journal_limit : Fault
  recovery_required : Fault → Fault
  pending : Fault

abbrev pub lift_path : Outcome PathFault (Unit {0}) → Outcome Fault (Unit {0})
lift_path (ok u) = ok u
lift_path (err e) = err (Fault.bad_path e)

-- The variables of the loop over the operations in `validateTransaction`.
pub record Checked : Type 0 where
  pub contents : Dict String Bytes
  pub final : Dict String FileSnapshot
  pub seen : List String
  pub total : ℕ

unfoldable pub check_expected : String → Dict String FileSnapshot → Outcome Fault (Unit {0})
unfolding validate_transaction_path valid_snapshot
check_expected output_dir [] = ok tt
check_expected output_dir ((name, snapshot) ∷ rest) =
    let others = check_expected output_dir rest in
    do
      lift_path (validate_transaction_path output_dir name)
      require (valid_snapshot snapshot) (Fault.expected_snapshot name)
      others

abbrev pub is_expected : FileSnapshot → Option FileSnapshot → Bool
is_expected before none = false
is_expected before (some expected) = expected == before

abbrev pub is_recorded : String → Option FileSnapshot → Bool
is_recorded hash none = false
is_recorded hash (some s) = s.present && s.hash == hash

-- A name that is not recorded has the empty digest.
abbrev pub is_tracked : String → Option String → Bool
is_tracked hash none = hash == ""
is_tracked hash (some recorded) = recorded == hash

-- The recorded files of the new state are the final output, with the recorded digests.
unfoldable pub check_recorded :
    String → Dict String FileSnapshot → Dict String String → Outcome Fault (Unit {0})
check_recorded output_dir final [] = ok tt
check_recorded output_dir final ((name, hash) ∷ rest) =
    let others = check_recorded output_dir final rest in
    do
      require (not (is_project_root_file name)) Fault.module_ownership
      require (is_recorded hash (lookup (slash output_dir name) final))
          (Fault.state_mismatch (slash output_dir name))
      others

-- Every final output file is recorded.
unfoldable pub check_tracked :
    String → Dict String String → Dict String FileSnapshot → Outcome Fault (Unit {0})
check_tracked output_dir files [] = ok tt
check_tracked output_dir files ((path, snapshot) ∷ rest) =
    let others = check_tracked output_dir files rest in
    do
      require
          (not (is_below output_dir path && snapshot.present)
            || is_tracked snapshot.hash (lookup (trim_prefix path (slash output_dir "")) files))
          (Fault.not_tracked path)
      others

module _ (codec : Codec) where
  open codec use {hash_bytes, decode64}

  -- The content of an operation that leaves a file.
  abbrev check_content : Operation → Option Bytes → Checked → Outcome Fault Checked
  check_content op none c = err (Fault.content_hash op.path)
  check_content op (some bytes) c = do
    require (hash_bytes bytes == op.after.hash) (Fault.content_hash op.path)
    require (leb (c.total + length bytes) max_tracked_file_bytes) Fault.content_limit
    ok (record c { contents = insert op.path bytes c.contents; total = c.total + length bytes })

  abbrev check_after : Operation → Checked → Bool → Outcome Fault Checked
  check_after op c true = do
    require (leb (len op.content) max_encoded_bytes) Fault.content_limit
    check_content op (decode64 op.content) c
  check_after op c false = do require (op.content == "") Fault.deleted_content; ok c

  -- One round of the loop over the operations; `last` tells the last one.
  unfoldable pub check_operation : Transaction → Bool → Operation → Checked → Outcome Fault Checked
  check_operation tx last op c = do
    lift_path (validate_transaction_path tx.output_dir op.path)
    require (not (contains c.seen op.path)) (Fault.duplicate op.path)
    require (is_expected op.before (lookup op.path tx.expected)) (Fault.inconsistent op.path)
    require (valid_snapshot op.before && valid_snapshot op.after) (Fault.invalid_snapshot op.path)
    require (not (op.path == state_path) || last && op.after.present) Fault.state_last
    require (not (is_project_root_file op.path) || op.after.present) Fault.module_deletion
    checked ← check_after op c op.after.present
    ok (record checked {
      final = insert op.path op.after checked.final;
      seen = op.path ∷ checked.seen;
    })

  unfoldable pub check_operations : Transaction → List Operation → Checked → Outcome Fault Checked
  check_operations tx [] c = ok c
  check_operations tx (op ∷ ops) c = do
    next ← check_operation tx (is_empty ops) op c
    check_operations tx ops next

  abbrev check_applied_files :
      String → Dict String FileSnapshot → Option AppliedState → Outcome Fault (Unit {0})
  check_applied_files output_dir final none = err Fault.no_applied
  check_applied_files output_dir final (some applied) = do
    check_recorded output_dir final applied.files
    check_tracked output_dir applied.files final

  abbrev lift_state : Outcome StateFault State → Outcome Fault State
  lift_state (ok s) = ok s
  lift_state (err e) = err (Fault.bad_state e)

  abbrev pub check_new_state : String → Checked → Option Bytes → Outcome Fault (Unit {0})
  check_new_state output_dir c none = err Fault.no_state
  check_new_state output_dir c (some bytes) = do
    state ← lift_state (decode_state codec bytes)
    check_applied_files output_dir c.final state.last_applied

  abbrev pub first_check : Transaction → Checked
  first_check tx = record { contents = []; final = tx.expected; seen = []; total = 0 }

  -- `validateTransaction`: the contents to write, before any output changes.
  unfoldable pub validate_transaction : Transaction → Outcome Fault (Dict String Bytes)
  validate_transaction tx = do
    require (tx.version == 1) Fault.bad_version
    require (valid_path tx.output_dir && output_relative tx.output_dir) Fault.output_directory
    require
        (not (is_empty tx.operations)
          && leb (length tx.operations) max_transaction_files
          && leb (length tx.expected) max_transaction_files)
        Fault.file_count
    check_expected tx.output_dir tx.expected
    require (valid_layout codec.to_lower (sorted_keys tx.expected)) Fault.layout
    c ← check_operations tx tx.operations (first_check tx)
    check_new_state tx.output_dir c (lookup state_path c.contents)
    ok c.contents
