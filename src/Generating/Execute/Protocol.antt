-- ===== src/Generating/Execute/Protocol.antt =====
-- Any sequence of applies and recoveries of one transaction, each of them cut off anywhere:
-- `applyWithFault` of internal/compiler/reconciler.go, behind its checks of the plan, and `Recover` of
-- internal/compiler/transaction.go.
use stego.Prelude.{
  String, ◌≡◌, ◌≢◌, refl, sym, ap, subst, false, none, some, ◌⊎◌, inl, inr, Outcome, ok, err, In,
  ◌∙◌, All, leb, if◌then◌else◌,
}
use stego.Prelude.Dict.{Dict, keys}
use stego.Generating.Snapshot.{Bytes, Disk, snapshot_of}
use stego.Generating.State.{Codec}
use stego.Generating.Transaction.{Operation, Transaction, Fault, Point, Io, validate_transaction}
use stego.Generating.Execute.{
  Env, Project, Exec, ◌>>◌, skip, stop, hit, call, set_journal, max_transaction_bytes,
  execute_transaction, commit_valid, commit_transaction, recover, recover_from, start_apply,
  start_unless, needs_recovery, wrap,
}
use stego.Generating.Execute.Effects.{state_of, Passive, hit-Passive, call-Passive}
use stego.Generating.Execute.Resume.{
  Frame, Frame-of_same, Frame-trans, Frame-execute_transaction, Resumable, Resumable-Frame,
}
use stego.Generating.Execute.Commit.{
  AllDone, Committed, commit_transaction-Committed, execute_transaction-journal, recover-done,
  limit-Passive,
}
use stego.Generating.Execute.Complete.{execute_transaction-returns}

-- The phases of a project with respect to one transaction.
pub data Phase : Type 0 where
  idle : Phase
  saved : Phase
  applied : Phase

-- What one apply or one recovery may do to the phase.
pub data Move : Phase → Phase → Type 0 where
  stay : {a : Phase} → Move a a
  save : Move Phase.idle Phase.saved
  run : Move Phase.idle Phase.applied
  finish : Move Phase.saved Phase.applied
  save_again : Move Phase.applied Phase.saved

module _ (codec : Codec) (tx : Transaction) where
  open codec use {hash_bytes}

  -- One apply or one recovery, whichever call fails and wherever it is stopped.
  pub data Step (p q : Project) : Type 0 where
    applies : (env : Env) → (start_apply codec env tx p).1 ≡ q → Step p q
    recovers : (env : Env) → (recover codec env p).1 ≡ q → Step p q

  pub data Reach (p : Project) : Project → Type 0 where
    start : Reach p p
    next : {q r : Project} → Reach p q → Step q r → Reach p r

  -- The project that a phase stands for, when the first apply found `p`.
  abbrev pub InPhase : Project → Project → Phase → Type 0
  InPhase p q idle = (q.disk ≡ p.disk) × (q.journal ≡ none)
  InPhase p q saved = q.journal ≡ some tx
  InPhase p q applied = (q.journal ≡ none) × AllDone codec tx q

  -- A phase behind a move, with the project in it.
  record Moved (p q : Project) (a : Phase) : Type 0 where
    phase : Phase
    move : Move a phase
    there : InPhase p q phase

  from_idle :
      (p q : Project) (r : Outcome {0, 0} Fault Unit) (q' : Project)
      → InPhase p q Phase.idle
      → Committed codec tx q (r, q')
      → Moved p q' Phase.idle
  from_idle p q r q' (same, empty) (inl (disk, journal)) = record {
    phase = Phase.idle;
    move = Move.stay;
    there = (disk ∙ same, journal ∙ empty);
  }
  from_idle p q r q' i (inr (inl journal)) = record {
    phase = Phase.saved;
    move = Move.save;
    there = journal;
  }
  from_idle p q r q' i (inr (inr done)) = record {
    phase = Phase.applied;
    move = Move.run;
    there = done;
  }

  from_applied :
      (p q : Project) (r : Outcome {0, 0} Fault Unit) (q' : Project)
      → InPhase p q Phase.applied
      → Committed codec tx q (r, q')
      → Moved p q' Phase.applied
  from_applied p q r q' (empty, done) (inl (disk, journal)) = record {
    phase = Phase.applied;
    move = Move.stay;
    there = (
      journal ∙ empty,
      subst
          (λ (d : Disk).
            All (λ op. snapshot_of hash_bytes (d.files op.path) ≡ op.after) tx.operations)
          (sym disk) done,
    );
  }
  from_applied p q r q' i (inr (inl journal)) = record {
    phase = Phase.saved;
    move = Move.save_again;
    there = journal;
  }
  from_applied p q r q' i (inr (inr done)) = record {
    phase = Phase.applied;
    move = Move.stay;
    there = done;
  }

  -- With no journal a recovery does nothing.
  recover-none : (env : Env) (q : Project) → q.journal ≡ none → (recover codec env q).1 ≡ q
  unfolding recover
  recover-none env q empty = subst (λ o. (recover_from codec env o q).1 ≡ q) (sym empty) refl

  recover-some :
      (env : Env) (q : Project)
      → q.journal ≡ some tx
      → (recover codec env q).1 ≡ (execute_transaction codec env tx q).1
  unfolding recover
  recover-some env q journal =
      subst (λ o. (recover_from codec env o q).1 ≡ (execute_transaction codec env tx q).1)
        (sym journal) refl

  pub start_apply-none :
      (env : Env) (q : Project)
      → q.journal ≡ none
      → (start_apply codec env tx q) ≡ commit_transaction codec env tx q
  unfolding start_apply
  start_apply-none env q empty =
      subst (λ o. start_unless codec env tx o q ≡ commit_transaction codec env tx q) (sym empty)
        refl

  start_apply-some :
      (env : Env) (q : Project) → q.journal ≡ some tx → (start_apply codec env tx q).1 ≡ q
  unfolding start_apply
  start_apply-some env q journal =
      subst (λ o. (start_unless codec env tx o q).1 ≡ q) (sym journal) refl

  -- What stays as it is.
  unmoved : (p q : Project) (a : Phase) {r : Project} → q ≡ r → InPhase p q a → Moved p r a
  unmoved p q a e h = record { phase = a; move = Move.stay; there = subst (λ x. InPhase p x a) e h }

  recovers-saved :
      (p q : Project) (env : Env)
      → q.journal ≡ some tx
      → Moved p (recover codec env q).1 Phase.saved
  recovers-saved p q env journal =
      subst (λ x. Moved p x Phase.saved) (sym (recover-some env q journal))
        (elim (execute_transaction-journal codec env tx q) [
          | inl same ↦ record { phase = Phase.saved; move = Move.stay; there = same ∙ journal }
          | inr done ↦ record { phase = Phase.applied; move = Move.finish; there = done }
        ])

  advance : (p q r : Project) (a : Phase) → InPhase p q a → Step q r → Moved p r a
  advance p q r Phase.idle h (Step.applies env e) =
      subst (λ x. Moved p x Phase.idle) (ap (λ c. c.1) (sym (start_apply-none env q h.1)) ∙ e)
        (from_idle p q (commit_transaction codec env tx q).0 (commit_transaction codec env tx q).1 h
          (commit_transaction-Committed codec env tx q))
  advance p q r Phase.idle h (Step.recovers env e) =
      unmoved p q Phase.idle (sym (recover-none env q h.1) ∙ e) h
  advance p q r Phase.saved h (Step.applies env e) =
      unmoved p q Phase.saved (sym (start_apply-some env q h) ∙ e) h
  advance p q r Phase.saved h (Step.recovers env e) =
      subst (λ x. Moved p x Phase.saved) e (recovers-saved p q env h)
  advance p q r Phase.applied h (Step.applies env e) =
      subst (λ x. Moved p x Phase.applied) (ap (λ c. c.1) (sym (start_apply-none env q h.0)) ∙ e)
        (from_applied p q (commit_transaction codec env tx q).0
          (commit_transaction codec env tx q).1 h (commit_transaction-Committed codec env tx q))
  advance p q r Phase.applied h (Step.recovers env e) =
      unmoved p q Phase.applied (sym (recover-none env q h.0) ∙ e) h

  -- Each apply and each recovery, whichever call fails and wherever it is stopped, is one move of the
  -- three phases: from a project in a phase it leaves a project in a phase that the move leads to.
  pub Step-refines :
      (p q r : Project) (a : Phase)
      → InPhase p q a
      → Step q r
      → (b : Phase) × Move a b × InPhase p r b
  Step-refines p q r a h step = let m = advance p q r a h step in (m.phase, m.move, m.there)

  Frame-before :
      (m f : Exec) (p q : Project)
      → Passive m
      → Frame codec tx p q
      → Frame codec tx p (f q).1
      → Frame codec tx p ((m >> f) q).1
  Frame-before m f p q passive stopped h = elim (passive q) [
    | inl on ↦ rw on h
    | inr (e, off) ↦ rw off stopped
  ]

  Frame-commit_valid :
      (env : Env) (checked : Outcome Fault (Dict String Bytes)) (p : Project)
      → Frame codec tx p (commit_valid codec env tx checked p).1
  Frame-commit_valid env (err e) p = Frame-of_same codec tx p p refl
  Frame-commit_valid env (ok contents) p =
      let q : Project = record p { journal = some tx } in
      let none' = Frame-of_same codec tx p p refl in
      let only = Frame-of_same codec tx p q refl in
      let execute = execute_transaction codec env tx in
      let save =
        set_journal (some tx)
        >> needs_recovery codec (call env Io.sync_journal >> hit env Point.prepared >> execute) in
      Frame-before
        (if leb (env.journal_size tx) max_transaction_bytes then skip else stop Fault.journal_limit)
        (hit env Point.before_prepare >> call env Io.write_journal >> save) p p
        (limit-Passive codec env tx) none'
        (Frame-before (hit env Point.before_prepare) (call env Io.write_journal >> save) p p
          (hit-Passive env Point.before_prepare) none'
          (Frame-before (call env Io.write_journal) save p p (call-Passive env Io.write_journal)
            none'
            (Frame-before (call env Io.sync_journal) (hit env Point.prepared >> execute) p q
              (call-Passive env Io.sync_journal) only
              (Frame-before (hit env Point.prepared) execute p q (hit-Passive env Point.prepared)
                only
                (Frame-trans codec tx p q (execute q).1 only
                  (Frame-execute_transaction codec env tx q))))))

  pub Frame-commit_transaction :
      (env : Env) (p : Project) → Frame codec tx p (commit_transaction codec env tx p).1
  unfolding commit_transaction
  Frame-commit_transaction env p = Frame-commit_valid env (validate_transaction codec tx) p

  Frame-Step : (p q r : Project) (a : Phase) → InPhase p q a → Step q r → Frame codec tx q r
  Frame-Step p q r Phase.saved h (Step.applies env e) =
      Frame-of_same codec tx q r (ap (λ x. x.disk) (sym e ∙ start_apply-some env q h))
  Frame-Step p q r Phase.saved h (Step.recovers env e) =
      subst (λ x. Frame codec tx q x) (sym (recover-some env q h) ∙ e)
        (Frame-execute_transaction codec env tx q)
  Frame-Step p q r Phase.idle h (Step.applies env e) =
      subst (λ x. Frame codec tx q x) (ap (λ c. c.1) (sym (start_apply-none env q h.1)) ∙ e)
        (Frame-commit_transaction env q)
  Frame-Step p q r Phase.idle h (Step.recovers env e) =
      Frame-of_same codec tx q r (ap (λ x. x.disk) (sym e ∙ recover-none env q h.1))
  Frame-Step p q r Phase.applied h (Step.applies env e) =
      subst (λ x. Frame codec tx q x) (ap (λ c. c.1) (sym (start_apply-none env q h.0)) ∙ e)
        (Frame-commit_transaction env q)
  Frame-Step p q r Phase.applied h (Step.recovers env e) =
      Frame-of_same codec tx q r (ap (λ x. x.disk) (sym e ∙ recover-none env q h.0))

  recover-ok :
      (env : Env) (q : Project)
      → q.journal ≡ some tx
      → (execute_transaction codec env tx q).0 ≡ ok tt
      → (recover codec env q).0 ≡ ok tt
  unfolding recover
  recover-ok env q journal h =
      subst (λ o. (recover_from codec env o q).0 ≡ ok tt) (sym journal) (ap (wrap codec) h)

  record Reached (p q : Project) : Type 0 where
    phase : Phase
    there : InPhase p q phase
    frame : Frame codec tx p q

  reached : {p q : Project} → p.journal ≡ none → Reach p q → Reached p q
  reached {p} empty Reach.start = record {
    phase = Phase.idle;
    there = (refl, empty);
    frame = Frame-of_same codec tx p p refl;
  }
  reached {p} {q} empty (Reach.next {q = s} before step) =
      let h = reached empty before in
      let m = advance p s q h.phase h.there step in
      record {
        phase = m.phase;
        there = m.there;
        frame = Frame-trans codec tx p s q h.frame (Frame-Step p s q h.phase h.there step);
      }

  -- After any sequence of applies and recoveries, each cut off anywhere, on a project that had no
  -- journal, the project is in one of the three phases.
  pub Reach-InPhase : (p q : Project) → p.journal ≡ none → Reach p q → (a : Phase) × InPhase p q a
  Reach-InPhase p q empty steps = let h = reached empty steps in (h.phase, h.there)

  -- After any sequence of applies and recoveries, each cut off anywhere, on a project that had no
  -- journal, a file that no operation names is as it was, and the file of each operation has the
  -- snapshot that it had or the one that the operation states.
  pub Reach-files :
      (p q : Project) (name : String) (op : Operation)
      → p.journal ≡ none
      → Reach p q
      → In op tx.operations
      → ((o : Operation) → In o tx.operations → name ≢ o.path)
      → (q.disk.files name ≡ p.disk.files name)
        × ((state_of hash_bytes q op.path ≡ state_of hash_bytes p op.path)
            ⊎ (state_of hash_bytes q op.path ≡ op.after))
  Reach-files p q name op empty steps i away =
      let h = (reached empty steps).frame in (h.others name away, h.each op i)

  -- After any sequence of applies and recoveries, each cut off anywhere, on a project that had no
  -- journal and could take the transaction, a recovery that nothing disturbs completes a saved apply:
  -- it returns without an error, removes the journal and leaves every file of the transaction as its
  -- operation states.
  pub Reach-recovers :
      (env : Env)
      → ((point : Point) → env.fault point ≡ false)
      → ((io : Io) → env.fails io ≡ false)
      → (contents : Dict String Bytes) (p q : Project) → validate_transaction codec tx ≡ ok contents
      → ((name : String) → In name (keys tx.expected) → Resumable codec tx p name)
      → p.journal ≡ none
      → Reach p q
      → q.journal ≡ some tx
      → ((recover codec env q).0 ≡ ok tt)
        × ((recover codec env q).1.journal ≡ none)
        × AllDone codec tx (recover codec env q).1
  Reach-recovers env no_stop no_failure contents p q valid ready empty steps journal =
      let frame = (reached empty steps).frame in
      let returns = recover-ok env q journal (
        execute_transaction-returns codec env no_stop no_failure tx contents q valid
          (λ n i. Resumable-Frame codec tx p q n frame (ready n i))) in
      let (gone, all_done) = recover-done codec env tx q journal returns in
      (returns, gone, all_done)
