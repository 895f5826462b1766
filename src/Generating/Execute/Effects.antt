-- ===== src/Generating/Execute/Effects.antt =====
-- What one operation of a transaction does to the project, whichever call fails and wherever the
-- run is stopped, for internal/compiler/transaction.go.
use stego.Prelude.{
  ℕ, ◌+◌, String, ◌≡◌, ◌≢◌, refl, sym, ap, subst, Bool, true, false, List, [], ◌∷◌, Option, none,
  some, ◌⊎◌, inl, inr, ◌==◌, string_eq, if◌then◌else◌, Outcome, ok, err, In, In-cons, ◌∙◌,
  Bool-cases, beq_refl, beq_ne,
}
use stego.Prelude.Dict.{Dict, lookup}
use stego.Generating.Paths.{state_path}
use stego.Generating.Snapshot.{
  Bytes, File, FileSnapshot, no_file, snapshot_eq, snapshot_beq_iff, snapshot_of, fits,
}
use stego.Generating.Transaction.{Operation, Fault, Point, Io}
use stego.Generating.Execute.{
  Env, Project, Exec, continue, ◌>>◌, skip, hit, call, change, change_file, set_file, new_file,
  or_no_file, or_empty, run_operation, run_operations,
}

-- A call that can only fail.
abbrev pub Passive : Exec → Type 0
Passive m = (p : Project) → (m p ≡ (ok tt, p)) ⊎ ((e : Fault) × (m p ≡ (err e, p)))

pub hit-Passive : (env : Env) (point : Point) → Passive (hit env point)
hit-Passive env point p = elim (Bool-cases (env.fault point)) [
  | inl stopped ↦ inr (Fault.stopped point, rw stopped)
  | inr on ↦ inl (rw on)
]

pub call-Passive : (env : Env) (io : Io) → Passive (call env io)
call-Passive env io p = elim (Bool-cases (env.fails io)) [
  | inl failed ↦ inr (Fault.failed io, rw failed)
  | inr fine ↦ inl (rw fine)
]

module _ (hash_bytes : Bytes → String) where
  -- The state of a file, as a snapshot shows it.
  abbrev pub state_of : Project → String → FileSnapshot
  state_of p name = snapshot_of hash_bytes (p.disk.files name)

  -- The file that an operation leaves has the snapshot that it states.
  pub record Lands (op : Operation) (bytes : Bytes) : Type 0 where
    pub written :
        op.after.present ≡ true → snapshot_of hash_bytes (some (new_file op bytes)) ≡ op.after
    pub removed : op.after.present ≡ false → no_file ≡ op.after
    pub small : op.after.present ≡ true → fits (some (new_file op bytes)) ≡ true

  -- What a run from `p` to `p'` with result `r` may do to the file of `op`.
  pub record Effect (op : Operation) (p : Project) (r : Outcome {0, 0} Fault Unit) (p' : Project)
      : Type 0 where
    pub others : (name : String) → name ≢ op.path → p'.disk.files name ≡ p.disk.files name
    pub same_blocked : p'.disk.blocked ≡ p.disk.blocked
    pub same_journal : p'.journal ≡ p.journal
    pub here : (state_of p' op.path ≡ state_of p op.path) ⊎ (state_of p' op.path ≡ op.after)
    pub done : r ≡ ok tt → state_of p' op.path ≡ op.after
    pub size : fits (p.disk.files op.path) ≡ true → fits (p'.disk.files op.path) ≡ true

  abbrev EffectOf : Operation → Project → Outcome {0, 0} Fault Unit × Project → Type 0
  EffectOf op p (r, p') = Effect op p r p'

  failed-Effect : (op : Operation) (p : Project) (e : Fault) → Effect op p (err e) p
  failed-Effect op p e = record {
    others = λ n h. refl;
    same_blocked = refl;
    same_journal = refl;
    here = inl refl;
    done = λ h. cc;
    size = λ h. h;
  }

  -- A passive call before a run keeps its effect, and so does one behind it.
  before-Effect :
      (op : Operation) (m f : Exec) (p : Project)
      → Passive m
      → EffectOf op p (f p)
      → EffectOf op p ((m >> f) p)
  before-Effect op m f p passive e = elim (passive p) [
    | inl on ↦ rw on e
    | inr (fault, off) ↦ rw off (failed-Effect op p fault)
  ]

  weaken :
      {op : Operation} {p : Project} {r : Outcome {0, 0} Fault Unit} {p' : Project} (e : Fault)
      → Effect op p r p'
      → Effect op p (err e) p'
  weaken e h = record {
    others = h.others;
    same_blocked = h.same_blocked;
    same_journal = h.same_journal;
    here = h.here;
    done = λ k. cc;
    size = h.size;
  }

  after-Effect :
      (op : Operation) (f : Exec) (p : Project) (r : Outcome {0, 0} Fault Unit) (p' : Project)
      → Passive f
      → Effect op p r p'
      → EffectOf op p (continue r f p')
  after-Effect op f p (err e) p' passive h = h
  after-Effect op f p (ok tt) p' passive h = elim (passive p') [
    | inl on ↦ rw on h
    | inr (fault, off) ↦ rw off (weaken fault h)
  ]

  -- A write of the file of `op` that lands as the operation states.
  set_file-Effect :
      (op : Operation) (file : Option File) (p : Project)
      → snapshot_of hash_bytes file ≡ op.after
      → fits file ≡ true
      → EffectOf op p (set_file op.path file p)
  set_file-Effect op file p lands small = record {
    others = λ n h. rw (beq_ne op.path n (λ e. h (sym e)));
    same_blocked = refl;
    same_journal = refl;
    here = inr (rw (beq_refl op.path) lands);
    done = λ h. rw (beq_refl op.path) lands;
    size = λ h. rw (beq_refl op.path) small;
  }

  change-Effect :
      (env : Env) (op : Operation) (bytes : Bytes) (same : Bool) (p : Project)
      → Lands op bytes
      → (same ≡ true → state_of p op.path ≡ op.after)
      → EffectOf op p (change env op bytes same p)
  change-Effect env op bytes true p lands is_same = record {
    others = λ n h. refl;
    same_blocked = refl;
    same_journal = refl;
    here = inl refl;
    done = λ h. is_same refl;
    size = λ h. h;
  }
  change-Effect env op bytes false p lands is_same = elim (Bool-cases op.after.present) [
    | inl present ↦
        subst (λ b. EffectOf op p (change_file env op bytes b p)) (sym present)
          (before-Effect op (call env (Io.write_file op.path))
            (set_file op.path (some (new_file op bytes))) p
            (call-Passive env (Io.write_file op.path))
            (set_file-Effect op (some (new_file op bytes)) p (lands.written present)
              (lands.small present)))
    | inr absent ↦
        subst (λ b. EffectOf op p (change_file env op bytes b p)) (sym absent)
          (before-Effect op (call env (Io.remove_file op.path)) (set_file op.path none) p
            (call-Passive env (Io.remove_file op.path))
            (set_file-Effect op none p (lands.removed absent) refl))
  ]

  -- One operation, whatever fails: its file is as before or as the operation leaves it, the latter
  -- if it returns, and nothing else changes.
  pub run_operation-Effect :
      (env : Env) (current : Dict String FileSnapshot) (contents : Dict String Bytes) (index : ℕ)
      (op : Operation) (p : Project)
      → Lands op (or_empty (lookup op.path contents))
      → lookup op.path current ≡ some (state_of p op.path)
      → EffectOf op p (run_operation env current contents index op p)
  unfolding run_operation
  run_operation-Effect env current contents index op p lands known =
      let bytes = or_empty (lookup op.path contents) in
      let same = or_no_file (lookup op.path current) == op.after in
      let sync = call env (Io.sync_file op.path) in
      let rest = sync >> hit env (Point.after_operation index) in
      before-Effect op (if op.path == state_path then hit env Point.before_record else skip)
        (change env op bytes same >> rest) p (λ q. at_record q)
        (after-Effect op rest p (change env op bytes same p).0 (change env op bytes same p).1
          (λ q. tail q)
          (change-Effect env op bytes same p lands
            (λ h. (snapshot_beq_iff (state_of p op.path) op.after).0 (rw known at h))))
    where
      at_record : Passive (if op.path == state_path then hit env Point.before_record else skip)
      at_record q = elim (Bool-cases (op.path == state_path)) [
        | inl yes' ↦ rw yes' (hit-Passive env Point.before_record q)
        | inr no' ↦ rw no' (inl refl)
      ]

      tail : Passive (call env (Io.sync_file op.path) >> hit env (Point.after_operation index))
      tail q = elim (call-Passive env (Io.sync_file op.path) q) [
        | inl on ↦ rw on (hit-Passive env (Point.after_operation index) q)
        | inr (e, off) ↦ rw off (inr (e, refl))
      ]

  -- What a run of several operations may do.
  pub record Effects (ops : List Operation) (p : Project) (r : Outcome {0, 0} Fault Unit)
      (p' : Project) : Type 0 where
    pub others :
        (name : String)
        → ((op : Operation) → In op ops → name ≢ op.path)
        → p'.disk.files name ≡ p.disk.files name
    pub same_blocked : p'.disk.blocked ≡ p.disk.blocked
    pub same_journal : p'.journal ≡ p.journal
    pub each :
        (op : Operation)
        → In op ops
        → (state_of p' op.path ≡ state_of p op.path) ⊎ (state_of p' op.path ≡ op.after)
    pub done : r ≡ ok tt → (op : Operation) → In op ops → state_of p' op.path ≡ op.after
    pub sizes :
        (op : Operation)
        → In op ops
        → fits (p.disk.files op.path) ≡ true
        → fits (p'.disk.files op.path) ≡ true

  abbrev pub EffectsOf : List Operation → Project → Outcome {0, 0} Fault Unit × Project → Type 0
  EffectsOf ops p (r, p') = Effects ops p r p'

  -- No two operations have the same target.
  abbrev pub DistinctPaths : List Operation → Type 0
  DistinctPaths [] = Unit
  DistinctPaths (op ∷ ops) = ((o : Operation) → In o ops → o.path ≢ op.path) × DistinctPaths ops

  -- What the loop relies on for one operation.
  pub record Ready (current : Dict String FileSnapshot) (contents : Dict String Bytes) (p : Project)
      (op : Operation) : Type 0 where
    pub lands : Lands op (or_empty (lookup op.path contents))
    pub known : lookup op.path current ≡ some (state_of p op.path)

  stopped-Effects :
      (op : Operation) (ops : List Operation) (p : Project) (e : Fault) (p' : Project)
      → ((o : Operation) → In o ops → o.path ≢ op.path)
      → Effect op p (err e) p'
      → Effects (op ∷ ops) p (err e) p'
  stopped-Effects op ops p e p' apart h = record {
    others = λ n away. h.others n (away op In.here);
    same_blocked = h.same_blocked;
    same_journal = h.same_journal;
    each =
        In-cons
          (λ (o : Operation).
            (state_of p' o.path ≡ state_of p o.path) ⊎ (state_of p' o.path ≡ o.after))
          h.here (λ o i. inl (ap (snapshot_of hash_bytes) (h.others o.path (apart o i))));
    done = λ k. cc;
    sizes =
        In-cons
          (λ (o : Operation).
            fits (p.disk.files o.path) ≡ true → fits (p'.disk.files o.path) ≡ true)
          h.size (λ o i k. ap fits (h.others o.path (apart o i)) ∙ k);
  }

  chain-Effects :
      (op : Operation) (ops : List Operation) (p q : Project) (r : Outcome {0, 0} Fault Unit)
      (p' : Project)
      → ((o : Operation) → In o ops → o.path ≢ op.path)
      → Effect op p (ok tt) q
      → Effects ops q r p'
      → Effects (op ∷ ops) p r p'
  chain-Effects op ops p q r p' apart first rest = record {
    others =
        λ n away. rest.others n (λ o i. away o (In.there i)) ∙ first.others n (away op In.here);
    same_blocked = rest.same_blocked ∙ first.same_blocked;
    same_journal = rest.same_journal ∙ first.same_journal;
    each =
        In-cons
          (λ (o : Operation).
            (state_of p' o.path ≡ state_of p o.path) ⊎ (state_of p' o.path ≡ o.after))
          (inr first_done)
          (λ o i. elim (rest.each o i) [
            | inl same ↦ inl (same ∙ ap (snapshot_of hash_bytes) (first.others o.path (apart o i)))
            | inr new ↦ inr new
          ]);
    done = λ k. In-cons (λ (o : Operation). state_of p' o.path ≡ o.after) first_done (rest.done k);
    sizes =
        In-cons
          (λ (o : Operation).
            fits (p.disk.files o.path) ≡ true → fits (p'.disk.files o.path) ≡ true)
          (λ k. ap fits (rest.others op.path (λ o i e. apart o i (sym e))) ∙ first.size k)
          (λ o i k. rest.sizes o i (ap fits (first.others o.path (apart o i)) ∙ k));
  }
    where
      first_done : state_of p' op.path ≡ op.after
      first_done =
          ap (snapshot_of hash_bytes) (rest.others op.path (λ o i e. apart o i (sym e)))
          ∙ first.done refl

  Ready-after :
      (current : Dict String FileSnapshot) (contents : Dict String Bytes) (op o : Operation)
      (p q : Project) {r : Outcome {0, 0} Fault Unit}
      → o.path ≢ op.path
      → Effect op p r q
      → Ready current contents p o
      → Ready current contents q o
  Ready-after current contents op o p q apart e ready = record {
    lands = ready.lands;
    known = ready.known ∙ ap (λ f. some (snapshot_of hash_bytes f)) (sym (e.others o.path apart));
  }

  continue-Effects :
      (op : Operation) (ops : List Operation) (p : Project) (m : Exec)
      (r : Outcome {0, 0} Fault Unit) (q : Project)
      → ((o : Operation) → In o ops → o.path ≢ op.path)
      → Effect op p r q
      → EffectsOf ops q (m q)
      → EffectsOf (op ∷ ops) p (continue r m q)
  continue-Effects op ops p m (err e) q apart first rest = stopped-Effects op ops p e q apart first
  continue-Effects op ops p m (ok tt) q apart first rest =
      chain-Effects op ops p q (m q).0 (m q).1 apart first rest

  -- A run of operations with distinct targets, whichever call fails and wherever it is stopped.
  pub run_operations-Effects :
      (env : Env) (current : Dict String FileSnapshot) (contents : Dict String Bytes) (index : ℕ)
      (ops : List Operation) (p : Project)
      → DistinctPaths ops
      → ((op : Operation) → In op ops → Ready current contents p op)
      → EffectsOf ops p (run_operations env current contents index ops p)
  unfolding run_operations
  run_operations-Effects env current contents index [] p distinct ready = record {
    others = λ n away. refl;
    same_blocked = refl;
    same_journal = refl;
    each = λ o i. elim i [ ];
    done = λ k o i. elim i [ ];
    sizes = λ o i. elim i [ ];
  }
  run_operations-Effects env current contents index (op ∷ ops) p (apart, distinct) ready =
      let m = run_operation env current contents index op p in
      let first =
        run_operation-Effect env current contents index op p (ready op In.here).lands
          (ready op In.here).known in
      continue-Effects op ops p (run_operations env current contents (index + 1) ops) m.0 m.1 apart
        first
        (run_operations-Effects env current contents (index + 1) ops m.1 distinct
          (λ o i. Ready-after current contents op o p m.1 (apart o i) first (ready o (In.there i))))
