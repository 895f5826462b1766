-- ===== src/Generating/Execute/Conflict.antt =====
-- A file that someone else has changed stops a run before any write: `executeTransaction` of
-- internal/compiler/transaction.go.
use stego.Prelude.{String, ◌≡◌, refl, false, [], Outcome, ok, err, In, string_eq}
use stego.Prelude.Dict.{Dict, keys, lookup}
use stego.Prelude.Sort.{sorted_keys, In-sorted_keys}
use stego.Generating.Snapshot.{Bytes, FileSnapshot, snapshot_of}
use stego.Generating.State.{Codec}
use stego.Generating.Transaction.{Transaction, Fault, validate_transaction}
use stego.Generating.Execute.{
  Env, Project, may_continue, with_after, read_current, run_with, start_with, execute_transaction,
}
use stego.Generating.Execute.Recovery.{read_current-Known}

module _ (codec : Codec) where
  open codec use {hash_bytes}

  -- A run that has refused: an error, and the project as it was.
  abbrev Refused : Project → Outcome {0, 0} Fault Unit × Project → Type 0
  Refused p (r, p') = ((e : Fault) × (r ≡ err e)) × (p' ≡ p)

  Refused-run_with :
      (env : Env) (tx : Transaction) (contents : Dict String Bytes) (p : Project) (name : String)
      (read : Outcome Fault (Dict String FileSnapshot))
      → read_current codec tx (with_after [] tx.operations) p.disk (sorted_keys tx.expected) ≡ read
      → In name (keys tx.expected)
      → may_continue
          (snapshot_of hash_bytes (p.disk.files name))
          (lookup name tx.expected)
          (lookup name (with_after [] tx.operations))
        ≡ false
      → Refused p (run_with codec env tx contents read p)
  Refused-run_with env tx contents p name (err e) h i other = ((e, refl), refl)
  Refused-run_with env tx contents p name (ok current) h i other =
      let known = read_current-Known codec tx p.disk (sorted_keys tx.expected) current h in
      let same = known.continues name (In-sorted_keys tx.expected i) in cc (same, other)

  -- When a file of the transaction is neither as the transaction expects it nor as an operation leaves
  -- it, a run fails and leaves the project as it was.
  pub execute_transaction-conflict :
      (env : Env) (tx : Transaction) (p : Project) (name : String)
      → In name (keys tx.expected)
      → may_continue
          (snapshot_of hash_bytes (p.disk.files name))
          (lookup name tx.expected)
          (lookup name (with_after [] tx.operations))
        ≡ false
      → ((e : Fault) × ((execute_transaction codec env tx p).0 ≡ err e))
        × ((execute_transaction codec env tx p).1 ≡ p)
  unfolding execute_transaction
  execute_transaction-conflict env tx p name i other = checked (validate_transaction codec tx)
    where
      checked : (r : Outcome Fault (Dict String Bytes)) → Refused p (start_with codec env tx r p)
      checked (err e) = ((e, refl), refl)
      checked (ok contents) =
          Refused-run_with env tx contents p name
            (read_current codec tx (with_after [] tx.operations) p.disk (sorted_keys tx.expected))
            refl i other
