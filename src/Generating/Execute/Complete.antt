-- ===== src/Generating/Execute/Complete.antt =====
-- When a run that nothing disturbs returns: `executeTransaction` and `Recover` of
-- internal/compiler/transaction.go.
use stego.Prelude.{
  ℕ, ◌+◌, String, ◌≡◌, ◌≢◌, refl, sym, ap, subst, Bool, true, false, List, [], ◌∷◌, Option, none,
  some, inl, inr, ◌==◌, string_eq, if◌then◌else◌, Outcome, ok, err, In, ◌∙◌, Bool-cases, beq_refl,
  eq_of_beq, arith,
}
use stego.Prelude.Dict.{Dict, keys, lookup, lookup-nil, In-keys, lookup_of_In}
use stego.Prelude.Sort.{sorted_keys, In_of_sorted_keys}
use stego.Generating.Paths.{state_path}
use stego.Generating.Snapshot.{
  Bytes, File, Disk, FileSnapshot, snapshot_eq, snapshot_of, read_snapshot, within_limit,
  verify_names, verify_snapshots, max_tracked_file_bytes, fits,
}
use stego.Generating.State.{Codec}
use stego.Generating.Transaction.{Operation, Transaction, Fault, Point, Io, validate_transaction}
use stego.Generating.Execute.{
  Env, Project, Exec, continue, ◌>>◌, skip, hit, call, set_journal, change, change_file, or_empty,
  or_no_file, may_continue, with_after, read_current, verify, verified, run_operation,
  run_operations, run_with, start_with, execute_transaction, wrap, recover_from, recover,
}
use stego.Generating.Execute.Effects.{Effects}
use stego.Generating.Execute.Loop.{Plan, validate_transaction-Plan}
use stego.Generating.Execute.Resume.{lookup-with_after, Resumable, Resumable-execute_transaction}
use stego.Generating.Execute.Commit.{AllDone, recover-done}
use stego.Generating.Execute.Recovery.{Continues, operations-Effects}

-- A run that returns, whatever the project.
abbrev Returns : Exec → Type 0
Returns m = (p : Project) → (m p).0 ≡ ok tt

>>-ok :
    (r : Outcome {0, 0} Fault Unit) (f : Exec) (q : Project)
    → r ≡ ok tt
    → (f q).0 ≡ ok tt
    → (continue r f q).0 ≡ ok tt
>>-ok (ok tt) f q h k = k
>>-ok (err e) f q h k = cc

Returns-seq : (m f : Exec) → Returns m → Returns f → Returns (m >> f)
Returns-seq m f h k p = >>-ok (m p).0 f (m p).1 (h p) (k (m p).1)

-- A step that does nothing, before a run.
step : (m f : Exec) (p : Project) → m p ≡ (ok tt, p) → (f p).0 ≡ ok tt → ((m >> f) p).0 ≡ ok tt
step m f p e h = rw e h

module _ (env : Env) (no_stop : (point : Point) → env.fault point ≡ false)
    (no_failure : (io : Io) → env.fails io ≡ false) where
  hit-skip : (point : Point) (p : Project) → hit env point p ≡ (ok tt, p)
  hit-skip point p = rw (no_stop point) refl

  call-skip : (io : Io) (p : Project) → call env io p ≡ (ok tt, p)
  call-skip io p = rw (no_failure io) refl

  change_file-Returns :
      (op : Operation) (bytes : Bytes) (present : Bool) → Returns (change_file env op bytes present)
  change_file-Returns op bytes true p =
      step (call env (Io.write_file op.path)) _ p (call-skip (Io.write_file op.path) p) refl
  change_file-Returns op bytes false p =
      step (call env (Io.remove_file op.path)) _ p (call-skip (Io.remove_file op.path) p) refl

  change-Returns :
      (op : Operation) (bytes : Bytes) (same : Bool) → Returns (change env op bytes same)
  change-Returns op bytes true p = refl
  change-Returns op bytes false p = change_file-Returns op bytes op.after.present p

  run_operation-Returns :
      (current : Dict String FileSnapshot) (contents : Dict String Bytes) (index : ℕ)
      (op : Operation)
      → Returns (run_operation env current contents index op)
  unfolding run_operation
  run_operation-Returns current contents index op =
      let sync = call env (Io.sync_file op.path) in
      let last = hit env (Point.after_operation index) in
      let same = or_no_file (lookup op.path current) == op.after in
      Returns-seq (if op.path == state_path then hit env Point.before_record else skip)
        (change env op (or_empty (lookup op.path contents)) same >> sync >> last)
        (λ p. at_record (op.path == state_path) p)
        (Returns-seq (change env op (or_empty (lookup op.path contents)) same) (sync >> last)
          (change-Returns op (or_empty (lookup op.path contents)) same)
          (λ p.
            step sync last p (call-skip (Io.sync_file op.path) p)
              (ap (λ r. r.0) (hit-skip (Point.after_operation index) p))))
    where
      at_record : (b : Bool) → Returns (if b then hit env Point.before_record else skip)
      at_record true p = ap (λ r. r.0) (hit-skip Point.before_record p)
      at_record false p = refl

  run_operations-Returns :
      (current : Dict String FileSnapshot) (contents : Dict String Bytes) (index : ℕ)
      (ops : List Operation)
      → Returns (run_operations env current contents index ops)
  unfolding run_operations
  run_operations-Returns current contents index [] p = refl
  run_operations-Returns current contents index (op ∷ ops) p =
      Returns-seq (run_operation env current contents index op)
        (run_operations env current contents (index + 1) ops)
        (run_operation-Returns current contents index op)
        (run_operations-Returns current contents (index + 1) ops) p

module _ (codec : Codec) where
  open codec use {hash_bytes}

  read_fits :
      (d : Disk) (name : String)
      → d.blocked name ≡ false
      → fits (d.files name) ≡ true
      → read_snapshot hash_bytes d name max_tracked_file_bytes
        ≡ ok (d.files name, snapshot_of hash_bytes (d.files name))
  unfolding read_snapshot
  read_fits d name free small = rw free (limited (d.files name) small)
    where
      limited :
          (o : Option File)
          → fits o ≡ true
          → within_limit hash_bytes max_tracked_file_bytes name o ≡ ok (o, snapshot_of hash_bytes o)
      limited none h = refl
      limited (some f) h = ground arith

  -- The loop that reads the files returns.
  read_current-ok :
      (tx : Transaction) (p : Project) (names : List String)
      → ((name : String) → In name names → Resumable codec tx p name)
      → (current : Dict String FileSnapshot) × (read_current codec tx
            (with_after [] tx.operations)
            p.disk
            names
          ≡ ok current)
  unfolding read_current
  read_current-ok tx p [] ready = ([], refl)
  read_current-ok tx p (name ∷ names) ready =
      let r = ready name In.here in
      let (current, e) = read_current-ok tx p names (λ n i. ready n (In.there i)) in
      (
        (name, snapshot_of hash_bytes (p.disk.files name)) ∷ current,
        rw (read_fits p.disk name r.free r.small, e, r.continues) refl,
      )

  -- The check of the final snapshots passes.
  verify_names-ok :
      (d : Disk) (snapshots : Dict String FileSnapshot) (names : List String)
      → ((name : String) → In name names → d.blocked name ≡ false)
      → ((name : String) → In name names → fits (d.files name) ≡ true)
      → ((name : String)
          → In name names
          → lookup name snapshots ≡ some (snapshot_of hash_bytes (d.files name)))
      → verify_names hash_bytes d snapshots names ≡ ok tt
  unfolding verify_names
  verify_names-ok d snapshots [] free small known = refl
  verify_names-ok d snapshots (name ∷ names) free small known =
      rw
        (
          read_fits d name (free name In.here) (small name In.here),
          known name In.here,
          beq_refl (snapshot_of hash_bytes (d.files name)),
        )
        (verify_names-ok d snapshots names (λ n i. free n (In.there i))
          (λ n i. small n (In.there i)) (λ n i. known n (In.there i)))

  -- What the end of a run finds at a path that the transaction names.
  record Settled (tx : Transaction) (q : Project) (name : String) : Type 0 where
    free : q.disk.blocked name ≡ false
    small : fits (q.disk.files name) ≡ true
    known :
        lookup name (with_after tx.expected tx.operations)
        ≡ some (snapshot_of hash_bytes (q.disk.files name))

  expected-unchanged :
      (actual e : FileSnapshot) → may_continue actual (some e) none ≡ true → actual ≡ e
  expected-unchanged actual e h = elim (Bool-cases (actual == e)) [
    | inl same ↦ eq_of_beq actual e same
    | inr other ↦ let k = rw other at h in cc
  ]

  no_operation :
      (ops : List Operation) (n : String)
      → ((op : Operation) → In op ops → n ≢ op.path)
      → lookup n (with_after [] ops) ≡ none
  no_operation ops n away = elim (lookup-with_after [] ops n) [
    | inl (op, i, e, found) ↦ absurd (away op i (sym e))
    | inr (free, found) ↦ found ∙ lookup-nil n
  ]

  continued :
      (tx : Transaction) (d : Disk) (n : String) {e : FileSnapshot}
      → ((op : Operation) → In op tx.operations → n ≢ op.path)
      → lookup n tx.expected ≡ some e
      → Continues codec tx d n
      → may_continue (snapshot_of hash_bytes (d.files n)) (some e) none ≡ true
  continued tx d n away expected c = rw (expected, no_operation tx.operations n away) at c

  settled :
      (tx : Transaction) (contents : Dict String Bytes) (p q : Project)
      → Plan codec tx contents
      → ((name : String) → In name (keys tx.expected) → Resumable codec tx p name)
      → Effects hash_bytes tx.operations p (ok tt) q
      → (name : String) → In name (keys (with_after tx.expected tx.operations))
      → Settled tx q name
  settled tx contents p q plan ready run name i =
      elim (lookup-with_after tx.expected tx.operations name) [
        | inl (op, j, e, found) ↦ at_operation op j e found
        | inr (away, found) ↦ elsewhere away found
      ]
    where
      at_operation :
          (op : Operation)
          → In op tx.operations
          → op.path ≡ name
          → lookup name (with_after tx.expected tx.operations) ≡ some op.after
          → Settled tx q name
      at_operation op j e found =
          let r = ready op.path (In-keys op.path tx.expected (plan.each op j).expected) in
          subst
            (λ n. lookup n (with_after tx.expected tx.operations) ≡ some op.after → Settled tx q n)
            e
            (λ known. record {
              free = ap (λ b. b op.path) run.same_blocked ∙ r.free;
              small = run.sizes op j r.small;
              known = known ∙ ap some (sym (run.done refl op j));
            })
            found

      elsewhere :
          ((op : Operation) → In op tx.operations → name ≢ op.path)
          → lookup name (with_after tx.expected tx.operations) ≡ lookup name tx.expected
          → Settled tx q name
      elsewhere away found =
          let (e, known) = lookup_of_In name (with_after tx.expected tx.operations) i in
          let expected : lookup name tx.expected ≡ some e = sym found ∙ known in
          let r = ready name (In-keys name tx.expected expected) in
          let same = run.others name away in
          let actual : snapshot_of hash_bytes (p.disk.files name) ≡ e =
            expected-unchanged (snapshot_of hash_bytes (p.disk.files name)) e
              (continued tx p.disk name away expected r.continues) in
          record {
            free = ap (λ b. b name) run.same_blocked ∙ r.free;
            small = ap fits same ∙ r.small;
            known =
                known ∙ ap some (sym actual) ∙ ap (λ f. some (snapshot_of hash_bytes f)) (sym same);
          }

  ending-ok :
      (env : Env)
      → ((point : Point) → env.fault point ≡ false)
      → ((io : Io) → env.fails io ≡ false)
      → (final : Dict String FileSnapshot) (q : Project)
      → verify_snapshots hash_bytes q.disk final ≡ ok tt
      → ((call env Io.sync_output
            >> hit env Point.before_complete
            >> verify codec final
            >> call env Io.remove_journal
            >> set_journal none
            >> call env Io.sync_journal)
          q).0
        ≡ ok tt
  ending-ok env no_stop no_failure final q passes =
      step (call env Io.sync_output) _ q (call-skip env no_stop no_failure Io.sync_output q) (
        step (hit env Point.before_complete) _ q
          (hit-skip env no_stop no_failure Point.before_complete q)
          (step (verify codec final) _ q (ap (λ r. verified codec r q) passes) (
            step (call env Io.remove_journal) _ q
              (call-skip env no_stop no_failure Io.remove_journal q)
              (ap (λ r. r.0)
                (call-skip env no_stop no_failure Io.sync_journal (record q { journal = none }))))))

  verify_snapshots-ok :
      (tx : Transaction) (q : Project)
      → ((name : String)
          → In name (keys (with_after tx.expected tx.operations))
          → Settled tx q name)
      → verify_snapshots hash_bytes q.disk (with_after tx.expected tx.operations) ≡ ok tt
  unfolding verify_snapshots
  verify_snapshots-ok tx q s =
      let final = with_after tx.expected tx.operations in
      verify_names-ok q.disk final (sorted_keys final)
        (λ n i. (s n (In_of_sorted_keys final i)).free)
        (λ n i. (s n (In_of_sorted_keys final i)).small)
        (λ n i. (s n (In_of_sorted_keys final i)).known)

  run_with-returns :
      (env : Env)
      → ((point : Point) → env.fault point ≡ false)
      → ((io : Io) → env.fails io ≡ false)
      → (tx : Transaction) (contents : Dict String Bytes) (current : Dict String FileSnapshot)
        (p : Project)
      → Plan codec tx contents
      → ((name : String) → In name (keys tx.expected) → Resumable codec tx p name)
      → Effects hash_bytes tx.operations p
          (run_operations env current contents 0 tx.operations p).0
          (run_operations env current contents 0 tx.operations p).1
      → (run_with codec env tx contents (ok current) p).0 ≡ ok tt
  run_with-returns env no_stop no_failure tx contents current p plan ready run =
      let returns =
        run_operations-Returns env no_stop no_failure current contents 0 tx.operations p in
      let q = (run_operations env current contents 0 tx.operations p).1 in
      let run' = subst (λ r. Effects hash_bytes tx.operations p r q) returns run in
      step (call env Io.open_output) _ p (call-skip env no_stop no_failure Io.open_output p) (
        >>-ok (run_operations env current contents 0 tx.operations p).0 _ q returns (
          ending-ok env no_stop no_failure (with_after tx.expected tx.operations) q
            (verify_snapshots-ok tx q (settled tx contents p q plan ready run'))))

  started :
      (env : Env)
      → ((point : Point) → env.fault point ≡ false)
      → ((io : Io) → env.fails io ≡ false)
      → (tx : Transaction) (contents : Dict String Bytes) (p : Project) → Plan codec tx contents
      → ((name : String) → In name (keys tx.expected) → Resumable codec tx p name)
      → (start_with codec env tx (ok contents) p).0 ≡ ok tt
  started env no_stop no_failure tx contents p plan ready =
      let (current, read) =
        read_current-ok tx p (sorted_keys tx.expected)
          (λ n i. ready n (In_of_sorted_keys tx.expected i)) in
      subst (λ r. (run_with codec env tx contents r p).0 ≡ ok tt) (sym read)
        (run_with-returns env no_stop no_failure tx contents current p plan ready
          (operations-Effects codec env tx contents current p plan read))

  -- A run that no failing call and no stop disturbs returns without an error, for a transaction that
  -- validation accepts and a project in which each of its files can be read and is as expected or as
  -- an operation leaves it.
  pub execute_transaction-returns :
      (env : Env)
      → ((point : Point) → env.fault point ≡ false)
      → ((io : Io) → env.fails io ≡ false)
      → (tx : Transaction) (contents : Dict String Bytes) (p : Project)
      → validate_transaction codec tx ≡ ok contents
      → ((name : String) → In name (keys tx.expected) → Resumable codec tx p name)
      → (execute_transaction codec env tx p).0 ≡ ok tt
  unfolding execute_transaction
  execute_transaction-returns env no_stop no_failure tx contents p valid ready =
      subst (λ r. (start_with codec env tx r p).0 ≡ ok tt) (sym valid)
        (started env no_stop no_failure tx contents p
          (validate_transaction-Plan codec tx contents valid) ready)

  -- A recovery that nothing disturbs returns.
  recover-returns :
      (crash env : Env)
      → ((point : Point) → env.fault point ≡ false)
      → ((io : Io) → env.fails io ≡ false)
      → (tx : Transaction) (contents : Dict String Bytes) (p : Project)
      → validate_transaction codec tx ≡ ok contents
      → ((name : String) → In name (keys tx.expected) → Resumable codec tx p name)
      → (execute_transaction codec crash tx p).1.journal ≡ some tx
      → (recover codec env (execute_transaction codec crash tx p).1).0 ≡ ok tt
  unfolding recover
  recover-returns crash env no_stop no_failure tx contents p valid ready saved =
      let q = (execute_transaction codec crash tx p).1 in
      subst (λ o. (recover_from codec env o q).0 ≡ ok tt) (sym saved)
        (ap (wrap codec) (
          execute_transaction-returns env no_stop no_failure tx contents q valid
            (λ n i. Resumable-execute_transaction codec crash tx p n (ready n i))))

  -- After a run that was cut off anywhere with its journal still saved, in a project from which the
  -- transaction could be resumed, a recovery that nothing disturbs returns without an error, removes the
  -- journal and leaves every file of the transaction as its operation states.
  pub recover-completes :
      (crash env : Env)
      → ((point : Point) → env.fault point ≡ false)
      → ((io : Io) → env.fails io ≡ false)
      → (tx : Transaction) (contents : Dict String Bytes) (p : Project)
      → validate_transaction codec tx ≡ ok contents
      → ((name : String) → In name (keys tx.expected) → Resumable codec tx p name)
      → (execute_transaction codec crash tx p).1.journal ≡ some tx
      → ((recover codec env (execute_transaction codec crash tx p).1).0 ≡ ok tt)
        × ((recover codec env (execute_transaction codec crash tx p).1).1.journal ≡ none)
        × AllDone codec tx (recover codec env (execute_transaction codec crash tx p).1).1
  recover-completes crash env no_stop no_failure tx contents p valid ready saved =
      let q = (execute_transaction codec crash tx p).1 in
      let returns = recover-returns crash env no_stop no_failure tx contents p valid ready saved in
      let (gone, all_done) = recover-done codec env tx q saved returns in (returns, gone, all_done)
