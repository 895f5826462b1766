-- ===== src/Generating/Execute/Recovery.antt =====
-- What running, committing and recovering a transaction leave on disk, whichever call fails and
-- wherever the run is stopped: `executeTransaction`, `commitTransaction` and `Recover` of
-- internal/compiler/transaction.go.
use stego.Prelude.{
  String, ◌≡◌, ◌≢◌, refl, ap, subst, true, List, [], ◌∷◌, Option, none, some, ◌⊎◌, inl, inr, ◌==◌,
  string_eq, Outcome, ok, err, In, In-cons, ◌∙◌, Bool-cases, beq_refl, eq_of_beq,
}
use stego.Prelude.Dict.{Dict, lookup, In-keys}
use stego.Prelude.Sort.{sorted_keys, In-sorted_keys}
use stego.Generating.Snapshot.{
  Bytes, File, Disk, FileSnapshot, snapshot_eq, snapshot_of, read_snapshot, read_snapshot-state,
  fits, verify_snapshots, ReadFault, max_tracked_file_bytes,
}
use stego.Generating.State.{Codec}
use stego.Generating.Transaction.{Operation, Transaction, Fault, Point, Io, validate_transaction}
use stego.Generating.Execute.{
  Env, Project, Exec, continue, ◌>>◌, hit, call, set_journal, may_continue, with_after, add_current,
  read_current, verify, verified, run_operations, run_with, start_with, execute_transaction,
}
use stego.Generating.Execute.Effects.{
  Passive, hit-Passive, call-Passive, state_of, Ready, Effects, run_operations-Effects,
}
use stego.Generating.Execute.Loop.{Plan, validate_transaction-Plan, Approved-Lands}

module _ (codec : Codec) where
  open codec use {hash_bytes}

  -- A file is as the transaction expects it or as an operation leaves it.
  abbrev pub Continues : Transaction → Disk → String → Type 0
  Continues tx d name =
      may_continue (snapshot_of hash_bytes (d.files name)) (lookup name tx.expected)
        (lookup name (with_after [] tx.operations))
      ≡ true

  pub record Known (tx : Transaction) (d : Disk) (names : List String)
      (current : Dict String FileSnapshot) : Type 0 where
    pub known :
        (name : String)
        → In name names
        → lookup name current ≡ some (snapshot_of hash_bytes (d.files name))
    pub continues : (name : String) → In name names → Continues tx d name

  -- Inversion of one round of the loop that reads the files.
  add_current-step :
      (tx : Transaction) (name : String) (r : Outcome ReadFault (Option File × FileSnapshot))
      (rest : Outcome Fault (Dict String FileSnapshot)) (current : Dict String FileSnapshot)
      → add_current codec tx (with_after [] tx.operations) name r rest ≡ ok current
      → (found : Option File × FileSnapshot) × (others : Dict String FileSnapshot) × (r ≡ ok found)
        × (rest ≡ ok others)
        × ((name, found.1) ∷ others ≡ current)
        × (may_continue found.1
              (lookup name tx.expected)
              (lookup name (with_after [] tx.operations))
            ≡ true)
  add_current-step tx name (err e) rest current h = cc
  add_current-step tx name (ok found) (err e) current h =
      elim (Bool-cases (
        may_continue found.1 (lookup name tx.expected)
          (lookup name (with_after [] tx.operations)))) [
            | inl yes' ↦ let k = rw yes' at h in cc
            | inr no' ↦ let k = rw no' at h in cc
          ]
  add_current-step tx name (ok found) (ok others) current h =
      elim (Bool-cases (
        may_continue found.1 (lookup name tx.expected)
          (lookup name (with_after [] tx.operations)))) [
            | inl yes' ↦
                let k : ok ((name, found.1) ∷ others) ≡ ok current = rw yes' at h in
                (found, others, refl, refl, cc, yes')
            | inr no' ↦ let k = rw no' at h in cc
          ]

  lookup-states :
      (d : Disk) (name : String) (names : List String) (actual : FileSnapshot)
      (others : Dict String FileSnapshot)
      → actual ≡ snapshot_of hash_bytes (d.files name)
      → ((n : String) → In n names → lookup n others ≡ some (snapshot_of hash_bytes (d.files n)))
      → (n : String) → In n (name ∷ names)
      → lookup n ((name, actual) ∷ others) ≡ some (snapshot_of hash_bytes (d.files n))
  unfolding lookup
  lookup-states d name names actual others state known n In.here =
      rw (beq_refl name) (ap some state)
  lookup-states d name names actual others state known n (In.there i) =
      elim (Bool-cases (name == n)) [
        | inl same ↦ rw same (rw (eq_of_beq name n same) at (ap some state))
        | inr other ↦ rw other (known n i)
      ]

  pub read_current-Known :
      (tx : Transaction) (d : Disk) (names : List String) (current : Dict String FileSnapshot)
      → read_current codec tx (with_after [] tx.operations) d names ≡ ok current
      → Known tx d names current
  unfolding read_current
  read_current-Known tx d [] current h = record {
    known = λ n i. elim i [ ];
    continues = λ n i. elim i [ ];
  }
  read_current-Known tx d (name ∷ names) current h =
      let (found, others, read, e, is_current, may) =
        add_current-step tx name (read_snapshot hash_bytes d name max_tracked_file_bytes)
          (read_current codec tx (with_after [] tx.operations) d names) current h in
      let state = read_snapshot-state hash_bytes d name max_tracked_file_bytes found read in
      let k = read_current-Known tx d names others e in
      rw (← is_current) (record {
        known = lookup-states d name names found.1 others state k.known;
        continues =
            In-cons (Continues tx d)
              (subst
                (λ s.
                  may_continue s (lookup name tx.expected)
                    (lookup name (with_after [] tx.operations))
                  ≡ true)
                state may)
              k.continues;
      })

  -- A run that changes no file, keeps the journal or removes it, and removes it if it returns.
  record Ending (p : Project) (r : Outcome {0, 0} Fault Unit) (p' : Project) : Type 0 where
    same_disk : p'.disk ≡ p.disk
    journal : (p'.journal ≡ p.journal) ⊎ (p'.journal ≡ none)
    done : r ≡ ok tt → p'.journal ≡ none

  abbrev EndingOf : Project → Outcome {0, 0} Fault Unit × Project → Type 0
  EndingOf p (r, p') = Ending p r p'

  Ending-failed : (p : Project) (e : Fault) → Ending p (err e) p
  Ending-failed p e = record { same_disk = refl; journal = inl refl; done = λ h. cc }

  -- A call that can only fail, before the ending.
  Ending-step : (m f : Exec) (p : Project) → Passive m → EndingOf p (f p) → EndingOf p ((m >> f) p)
  Ending-step m f p passive h = elim (passive p) [
    | inl on ↦ rw on h
    | inr (e, off) ↦ rw off (Ending-failed p e)
  ]

  verify-Passive : (final : Dict String FileSnapshot) → Passive (verify codec final)
  verify-Passive final p = of_result (verify_snapshots hash_bytes p.disk final)
    where
      of_result :
          (r : Outcome {0, 0} ReadFault Unit)
          → (verified codec r p ≡ (ok tt, p)) ⊎ ((e : Fault) × (verified codec r p ≡ (err e, p)))
      of_result (ok tt) = inl refl
      of_result (err e) = inr (Fault.read e, refl)

  removed :
      (env : Env) (p : Project) → EndingOf p ((set_journal none >> call env Io.sync_journal) p)
  removed env p = elim (Bool-cases (env.fails Io.sync_journal)) [
    | inl failed ↦ rw failed (record { same_disk = refl; journal = inr refl; done = λ h. refl })
    | inr fine ↦ rw fine (record { same_disk = refl; journal = inr refl; done = λ h. refl })
  ]

  -- Every file of the transaction is as its operation leaves it.
  abbrev pub EachDone : Transaction → Project → Type 0
  EachDone tx p = (op : Operation) → In op tx.operations → state_of hash_bytes p op.path ≡ op.after

  -- What a run of a transaction from `p` to `p'` with result `r` leaves.
  pub record Executed (tx : Transaction) (p : Project) (r : Outcome {0, 0} Fault Unit)
      (p' : Project) : Type 0 where
    pub others :
        (name : String)
        → ((op : Operation) → In op tx.operations → name ≢ op.path)
        → p'.disk.files name ≡ p.disk.files name
    pub each :
        (op : Operation)
        → In op tx.operations
        → (state_of hash_bytes p' op.path ≡ state_of hash_bytes p op.path)
          ⊎ (state_of hash_bytes p' op.path ≡ op.after)
    pub same_blocked : p'.disk.blocked ≡ p.disk.blocked
    pub sizes :
        (op : Operation)
        → In op tx.operations
        → fits (p.disk.files op.path) ≡ true
        → fits (p'.disk.files op.path) ≡ true
    pub journal : (p'.journal ≡ p.journal) ⊎ ((p'.journal ≡ none) × EachDone tx p')
    pub done : r ≡ ok tt → (p'.journal ≡ none) × EachDone tx p'

  abbrev pub ExecutedOf : Transaction → Project → Outcome {0, 0} Fault Unit × Project → Type 0
  ExecutedOf tx p (r, p') = Executed tx p r p'

  pub Executed-failed : (tx : Transaction) (p : Project) (e : Fault) → Executed tx p (err e) p
  Executed-failed tx p e = record {
    others = λ n h. refl;
    each = λ o i. inl refl;
    same_blocked = refl;
    sizes = λ o i h. h;
    journal = inl refl;
    done = λ h. cc;
  }

  -- The operations, then an ending.
  Executed-end :
      (tx : Transaction) (p q : Project) (r : Outcome {0, 0} Fault Unit) (p' : Project)
      → Effects hash_bytes tx.operations p (ok tt) q
      → Ending q r p'
      → Executed tx p r p'
  Executed-end tx p q r p' run end = record {
    others = λ n away. ap (λ d. d.files n) end.same_disk ∙ run.others n away;
    each = λ o i. inr (all_done o i);
    same_blocked = ap (λ d. d.blocked) end.same_disk ∙ run.same_blocked;
    sizes = λ o i h. ap (λ d. fits (d.files o.path)) end.same_disk ∙ run.sizes o i h;
    journal = elim end.journal [
      | inl same ↦ inl (same ∙ run.same_journal)
      | inr gone ↦ inr (gone, all_done)
    ];
    done = λ h. (end.done h, all_done);
  }
    where
      all_done : EachDone tx p'
      all_done o i =
          ap (λ d. snapshot_of hash_bytes (d.files o.path)) end.same_disk ∙ run.done refl o i

  Executed-stopped :
      (tx : Transaction) (p : Project) (e : Fault) (p' : Project)
      → Effects hash_bytes tx.operations p (err e) p'
      → Executed tx p (err e) p'
  Executed-stopped tx p e p' run = record {
    others = run.others;
    each = run.each;
    same_blocked = run.same_blocked;
    sizes = run.sizes;
    journal = inl run.same_journal;
    done = λ h. cc;
  }

  Executed-continue :
      (tx : Transaction) (p : Project) (f : Exec) (r : Outcome {0, 0} Fault Unit) (q : Project)
      → Effects hash_bytes tx.operations p r q
      → EndingOf q (f q)
      → ExecutedOf tx p (continue r f q)
  Executed-continue tx p f (err e) q run end = Executed-stopped tx p e q run
  Executed-continue tx p f (ok tt) q run end = Executed-end tx p q (f q).0 (f q).1 run end

  -- The part of `executeTransaction` behind the operations.
  abbrev ending : Env → Dict String FileSnapshot → Exec
  ending env final =
      call env Io.sync_output
      >> hit env Point.before_complete
      >> verify codec final
      >> call env Io.remove_journal
      >> set_journal none
      >> call env Io.sync_journal

  ending-Ending :
      (env : Env) (final : Dict String FileSnapshot) (p : Project) → EndingOf p (ending env final p)
  ending-Ending env final p =
      let remove = set_journal none >> call env Io.sync_journal in
      let last = call env Io.remove_journal >> remove in
      Ending-step (call env Io.sync_output)
        (hit env Point.before_complete >> verify codec final >> last) p
        (call-Passive env Io.sync_output)
        (Ending-step (hit env Point.before_complete) (verify codec final >> last) p
          (hit-Passive env Point.before_complete)
          (Ending-step (verify codec final) last p (verify-Passive final) (
            Ending-step (call env Io.remove_journal) remove p (call-Passive env Io.remove_journal)
              (removed env p))))

  -- What the operations do in a run whose checks have passed.
  pub operations-Effects :
      (env : Env) (tx : Transaction) (contents : Dict String Bytes)
      (current : Dict String FileSnapshot) (p : Project)
      → Plan codec tx contents
      → read_current codec tx (with_after [] tx.operations) p.disk (sorted_keys tx.expected)
        ≡ ok current
      → Effects hash_bytes tx.operations p
          (run_operations env current contents 0 tx.operations p).0
          (run_operations env current contents 0 tx.operations p).1
  operations-Effects env tx contents current p plan h =
      run_operations-Effects hash_bytes env current contents 0 tx.operations p plan.distinct ready
    where
      k : Known tx p.disk (sorted_keys tx.expected) current
      k = read_current-Known tx p.disk (sorted_keys tx.expected) current h

      ready : (op : Operation) → In op tx.operations → Ready hash_bytes current contents p op
      ready op i = record {
        lands = Approved-Lands codec tx contents op (plan.each op i);
        known =
            k.known op.path
              (In-sorted_keys tx.expected (In-keys op.path tx.expected (plan.each op i).expected));
      }

  run_with-Executed :
      (env : Env) (tx : Transaction) (contents : Dict String Bytes)
      (read : Outcome Fault (Dict String FileSnapshot)) (p : Project)
      → Plan codec tx contents
      → read_current codec tx (with_after [] tx.operations) p.disk (sorted_keys tx.expected) ≡ read
      → ExecutedOf tx p (run_with codec env tx contents read p)
  run_with-Executed env tx contents (err e) p plan h = Executed-failed tx p e
  run_with-Executed env tx contents (ok current) p plan h =
      elim (call-Passive env Io.open_output p) [
        | inr (e, off) ↦ rw off (Executed-failed tx p e)
        | inl on ↦ rw on (
            Executed-continue tx p (ending env (with_after tx.expected tx.operations)) run.0 run.1
              (operations-Effects env tx contents current p plan h)
              (ending-Ending env (with_after tx.expected tx.operations) run.1))
      ]
    where
      run : Outcome {0, 0} Fault Unit × Project
      run = run_operations env current contents 0 tx.operations p

  -- A run of any transaction on any project, whichever call fails and wherever the run is stopped.
  pub execute_transaction-Executed :
      (env : Env) (tx : Transaction) (p : Project)
      → Executed tx p (execute_transaction codec env tx p).0 (execute_transaction codec env tx p).1
  unfolding execute_transaction
  execute_transaction-Executed env tx p = started (validate_transaction codec tx) refl
    where
      started :
          (r : Outcome Fault (Dict String Bytes))
          → validate_transaction codec tx ≡ r
          → ExecutedOf tx p (start_with codec env tx r p)
      started (err e) h = Executed-failed tx p e
      started (ok contents) h =
          run_with-Executed env tx contents
            (read_current codec tx (with_after [] tx.operations) p.disk (sorted_keys tx.expected)) p
            (validate_transaction-Plan codec tx contents h) refl
