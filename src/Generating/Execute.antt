-- ===== src/Generating/Execute.antt =====
-- Running and recovering a transaction: `executeTransaction`, `commitTransaction` and `Recover` of
-- internal/compiler/transaction.go. The journal is the transaction itself: its YAML form is the
-- library's. A failing call or a stop at a journal point ends the run and leaves the project as it
-- is then.
pub mod Effects
pub mod Loop
pub mod Recovery
pub mod Commit
pub mod Resume
pub mod Complete
pub mod Protocol
pub mod Conflict
use stego.Prelude.{
  ℕ, ◌+◌, ◌%◌, String, Bool, true, false, List, [], ◌∷◌, Option, none, some, ◌==◌, string_eq, leb,
  if◌then◌else◌, Outcome, ok, err,
}
use stego.Prelude.Dict.{Dict, lookup, insert}
use stego.Prelude.Sort.{sorted_keys}
use stego.Generating.Paths.{state_path}
use stego.Generating.Snapshot.{
  Bytes, File, Disk, FileSnapshot, no_file, snapshot_eq, read_snapshot, verify_snapshots, ReadFault,
  max_tracked_file_bytes,
}
use stego.Generating.State.{Codec}
use stego.Generating.Transaction.{
  Operation, Transaction, Point, before_prepare, prepared, before_record, after_operation,
  before_complete, Io, write_journal, sync_journal, open_output, write_file, remove_file, sync_file,
  sync_output, remove_journal, Fault, validate_transaction,
}

-- What the environment does to a run. `journal_size` is the length of a transaction's YAML form.
pub record Env : Type 0 where
  pub fault : Point → Bool
  pub fails : Io → Bool
  pub journal_size : Transaction → ℕ

-- `128 << 20`
abbrev pub max_transaction_bytes : ℕ
max_transaction_bytes = 134217728

-- The folder of the project, with the saved transaction if there is one.
pub record Project : Type 0 where
  pub disk : Disk
  pub journal : Option Transaction

-- A call reads and changes the project, and returns or fails.
abbrev pub Exec : Type 0
Exec = Project → Outcome {0, 0} Fault Unit × Project

abbrev pub continue : Outcome {0, 0} Fault Unit → Exec → Exec
continue (ok u) f p = f p
continue (err e) f p = (err e, p)

infixr 5 ◌>>◌
abbrev pub ◌>>◌ : Exec → Exec → Exec
◌>>◌ m f p = continue (m p).0 f (m p).1

abbrev pub skip : Exec
skip p = (ok tt, p)

abbrev pub stop : Fault → Exec
stop e p = (err e, p)

-- `runApplyFault`
abbrev pub hit : Env → Point → Exec
hit env point = if env.fault point then stop (Fault.stopped point) else skip

abbrev pub call : Env → Io → Exec
call env io = if env.fails io then stop (Fault.failed io) else skip

abbrev pub put_file : String → Option File → Disk → Disk
put_file name file d = record d { files = λ n. if name == n then file else d.files n }

abbrev pub set_file : String → Option File → Exec
set_file name file p = (ok tt, record p { disk = put_file name file p.disk })

abbrev pub set_journal : Option Transaction → Exec
set_journal j p = (ok tt, record p { journal = j })

abbrev pub or_no_file : Option FileSnapshot → FileSnapshot
or_no_file none = no_file
or_no_file (some s) = s

abbrev pub or_empty : Option Bytes → Bytes
or_empty none = []
or_empty (some b) = b

-- The new file of an operation; `mode.Perm()` keeps the permission bits.
abbrev pub new_file : Operation → Bytes → File
new_file op bytes = record { content = bytes; mode = op.after.mode % 512 }

-- The write or the removal of an operation.
abbrev pub change_file : Env → Operation → Bytes → Bool → Exec
change_file env op bytes true =
    call env (write_file op.path) >> set_file op.path (some (new_file op bytes))
change_file env op bytes false = call env (remove_file op.path) >> set_file op.path none

-- A file that is as the operation leaves it is not written again.
abbrev pub change : Env → Operation → Bytes → Bool → Exec
change env op bytes true = skip
change env op bytes false = change_file env op bytes op.after.present

-- One round of the loop over the operations in `executeTransaction`.
unfoldable pub run_operation :
    Env → Dict String FileSnapshot → Dict String Bytes → ℕ → Operation → Exec
run_operation env current contents index op =
    (if op.path == state_path then hit env before_record else skip)
    >> change env op (or_empty (lookup op.path contents))
        (or_no_file (lookup op.path current) == op.after)
    >> call env (sync_file op.path)
    >> hit env (after_operation index)

unfoldable pub run_operations :
    Env → Dict String FileSnapshot → Dict String Bytes → ℕ → List Operation → Exec
run_operations env current contents index [] = skip
run_operations env current contents index (op ∷ ops) =
    run_operation env current contents index op
    >> run_operations env current contents (index + 1) ops

-- `after`, and with the expected snapshots before it, `final`
unfoldable pub with_after : Dict String FileSnapshot → List Operation → Dict String FileSnapshot
with_after m [] = m
with_after m (op ∷ ops) = with_after (insert op.path op.after m) ops

-- A file is as the transaction expects it or as an operation leaves it.
abbrev pub may_continue : FileSnapshot → Option FileSnapshot → Option FileSnapshot → Bool
may_continue actual expected after =
    if actual == or_no_file expected then true else is_desired after
  where
    is_desired : Option FileSnapshot → Bool
    is_desired none = false
    is_desired (some desired) = actual == desired

module _ (codec : Codec) where
  open codec use {hash_bytes}

  abbrev pub add_current :
      Transaction
      → Dict String FileSnapshot
      → String
      → Outcome ReadFault (Option File × FileSnapshot)
      → Outcome Fault (Dict String FileSnapshot)
      → Outcome Fault (Dict String FileSnapshot)
  add_current tx after name (err e) rest = err (Fault.read e)
  add_current tx after name (ok (_, actual)) rest =
      if may_continue actual (lookup name tx.expected) (lookup name after)
      then add rest
      else err (Fault.conflict name)
    where
      add : Outcome Fault (Dict String FileSnapshot) → Outcome Fault (Dict String FileSnapshot)
      add (err e) = err e
      add (ok current) = ok ((name, actual) ∷ current)

  -- The loop that reads every expected file before the first write.
  unfoldable pub read_current :
      Transaction
      → Dict String FileSnapshot
      → Disk
      → List String
      → Outcome Fault (Dict String FileSnapshot)
  read_current tx after d [] = ok []
  read_current tx after d (name ∷ names) =
      add_current tx after name (read_snapshot hash_bytes d name max_tracked_file_bytes)
        (read_current tx after d names)

  abbrev pub verified : Outcome {0, 0} ReadFault Unit → Exec
  verified (ok u) = skip
  verified (err e) = stop (Fault.read e)

  abbrev pub verify : Dict String FileSnapshot → Exec
  verify final p = verified (verify_snapshots hash_bytes p.disk final) p

  abbrev pub run_with :
      Env → Transaction → Dict String Bytes → Outcome Fault (Dict String FileSnapshot) → Exec
  run_with env tx contents (err e) = stop e
  run_with env tx contents (ok current) =
      call env open_output
      >> run_operations env current contents 0 tx.operations
      >> call env sync_output
      >> hit env before_complete
      >> verify (with_after tx.expected tx.operations)
      >> call env remove_journal
      >> set_journal none
      >> call env sync_journal

  abbrev pub start_with : Env → Transaction → Outcome Fault (Dict String Bytes) → Exec
  start_with env tx (err e) p = (err e, p)
  start_with env tx (ok contents) p =
      run_with env tx contents
        (read_current tx (with_after [] tx.operations) p.disk (sorted_keys tx.expected)) p

  -- `executeTransaction`
  unfoldable pub execute_transaction : Env → Transaction → Exec
  execute_transaction env tx = start_with env tx (validate_transaction codec tx)

  abbrev pub wrap : Outcome {0, 0} Fault Unit → Outcome {0, 0} Fault Unit
  wrap (ok u) = ok u
  wrap (err e) = err (Fault.recovery_required e)

  -- `errors.Join(ErrRecoveryRequired, err)`
  abbrev pub needs_recovery : Exec → Exec
  needs_recovery m p = (wrap (m p).0, (m p).1)

  abbrev pub commit_valid : Env → Transaction → Outcome Fault (Dict String Bytes) → Exec
  commit_valid env tx (err e) = stop e
  commit_valid env tx (ok contents) =
      (if leb (env.journal_size tx) max_transaction_bytes then skip else stop Fault.journal_limit)
      >> hit env before_prepare
      >> call env write_journal
      >> set_journal (some tx)
      >> needs_recovery (call env sync_journal >> hit env prepared >> execute_transaction env tx)

  -- `commitTransaction`, from the prepared transaction on.
  unfoldable pub commit_transaction : Env → Transaction → Exec
  commit_transaction env tx = commit_valid env tx (validate_transaction codec tx)

  abbrev pub recover_from : Env → Option Transaction → Exec
  recover_from env none = skip
  recover_from env (some tx) = needs_recovery (execute_transaction env tx)

  -- `Recover`: completes a saved apply.
  unfoldable pub recover : Env → Exec
  recover env p = recover_from env p.journal p

  abbrev pub start_unless : Env → Transaction → Option Transaction → Exec
  start_unless env tx none = commit_transaction env tx
  start_unless env tx (some saved) = stop Fault.pending

  -- The end of `applyWithFault`, behind the checks of the plan: `pendingTransaction`, then the commit.
  unfoldable pub start_apply : Env → Transaction → Exec
  start_apply env tx p = start_unless env tx p.journal p
