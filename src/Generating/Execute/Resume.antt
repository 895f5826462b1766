-- ===== src/Generating/Execute/Resume.antt =====
-- From which projects a transaction can be resumed, and what runs leave alone, for
-- internal/compiler/transaction.go.
use stego.Prelude.{
  String, ◌≡◌, ◌≢◌, refl, sym, ap, subst, true, false, List, [], ◌∷◌, Option, some, ◌⊎◌, inl, inr,
  ◌==◌, string_eq, In, In-cons, ◌∙◌, Bool-cases, beq_refl, eq_of_beq,
}
use stego.Prelude.Dict.{Dict, lookup, insert, lookup-insert}
use stego.Generating.Snapshot.{File, FileSnapshot, snapshot_eq, snapshot_of, fits}
use stego.Generating.State.{Codec}
use stego.Generating.Transaction.{Operation, Transaction}
use stego.Generating.Execute.{
  Env, Project, or_no_file, may_continue, with_after, execute_transaction,
}
use stego.Generating.Execute.Effects.{state_of}
use stego.Generating.Execute.Recovery.{Continues, execute_transaction-Executed}

-- Where the snapshots behind a transaction come from: the last operation on a path, or else the
-- snapshots before it.
pub lookup-with_after :
    (m : Dict String FileSnapshot) (ops : List Operation) (name : String)
    → ((op : Operation) × In op ops
        × (op.path ≡ name)
        × (lookup name (with_after m ops) ≡ some op.after))
      ⊎ (((op : Operation) → In op ops → name ≢ op.path)
          × (lookup name (with_after m ops) ≡ lookup name m))
unfolding with_after
lookup-with_after m [] name = inr (λ o i. elim i [ ], refl)
lookup-with_after m (op ∷ ops) name =
    elim (lookup-with_after (insert op.path op.after m) ops name) [
      | inl (o, i, e, found) ↦ inl (o, In.there i, e, found)
      | inr (away, found) ↦ elim (Bool-cases (op.path == name)) [
        | inl same ↦ inl (
          op,
          In.here,
          eq_of_beq op.path name same,
          found ∙ (rw (lookup-insert op.path name op.after m, same) refl),
        )
        | inr other ↦ inr (
          In-cons (λ (o : Operation). name ≢ o.path) (λ e. clash op.path name other (sym e)) away,
          found ∙ (rw (lookup-insert op.path name op.after m, other) refl),
        )
      ]
    ]
  where
    clash : (a b : String) → (a == b) ≡ false → a ≢ b
    clash a b h e = let k : (a == a) ≡ false = rw (← e) at h in cc (k, beq_refl a)

module _ (codec : Codec) where
  open codec use {hash_bytes}

  -- What a run finds at a path before it continues: nothing in the way, a file that it can read, and
  -- one that is as the transaction expects it or as an operation leaves it.
  pub record Resumable (tx : Transaction) (p : Project) (name : String) : Type 0 where
    pub free : p.disk.blocked name ≡ false
    pub small : fits (p.disk.files name) ≡ true
    pub continues : Continues codec tx p.disk name

  -- What any number of runs of a transaction from `p` to `q` leave of the files.
  pub record Frame (tx : Transaction) (p q : Project) : Type 0 where
    pub others :
        (name : String)
        → ((op : Operation) → In op tx.operations → name ≢ op.path)
        → q.disk.files name ≡ p.disk.files name
    pub each :
        (op : Operation)
        → In op tx.operations
        → (state_of hash_bytes q op.path ≡ state_of hash_bytes p op.path)
          ⊎ (state_of hash_bytes q op.path ≡ op.after)
    pub same_blocked : q.disk.blocked ≡ p.disk.blocked
    pub sizes :
        (op : Operation)
        → In op tx.operations
        → fits (p.disk.files op.path) ≡ true
        → fits (q.disk.files op.path) ≡ true

  -- A run that changes no file.
  pub Frame-of_same : (tx : Transaction) (p q : Project) → q.disk ≡ p.disk → Frame tx p q
  Frame-of_same tx p q e = record {
    others = λ n away. ap (λ d. d.files n) e;
    each = λ o i. inl (ap (λ d. snapshot_of hash_bytes (d.files o.path)) e);
    same_blocked = ap (λ d. d.blocked) e;
    sizes = λ o i h. ap (λ d. fits (d.files o.path)) e ∙ h;
  }

  pub Frame-trans :
      (tx : Transaction) (p q r : Project) → Frame tx p q → Frame tx q r → Frame tx p r
  Frame-trans tx p q r f g = record {
    others = λ n away. g.others n away ∙ f.others n away;
    each = λ o i. elim (g.each o i) [
      | inr new ↦ inr new
      | inl same ↦ elim (f.each o i) [ inl old ↦ inl (same ∙ old) | inr new ↦ inr (same ∙ new) ]
    ];
    same_blocked = g.same_blocked ∙ f.same_blocked;
    sizes = λ o i h. g.sizes o i (f.sizes o i h);
  }

  pub Frame-execute_transaction :
      (env : Env) (tx : Transaction) (p : Project)
      → Frame tx p (execute_transaction codec env tx p).1
  Frame-execute_transaction env tx p =
      let run = execute_transaction-Executed codec env tx p in
      record {
        others = run.others;
        each = run.each;
        same_blocked = run.same_blocked;
        sizes = run.sizes;
      }

  desired :
      (actual : FileSnapshot) (expected : Option FileSnapshot)
      → may_continue actual expected (some actual) ≡ true
  desired actual expected = elim (Bool-cases (actual == or_no_file expected)) [
    | inl same ↦ rw same refl
    | inr other ↦ rw (other, beq_refl actual) refl
  ]

  -- What runs leave alone keeps a transaction resumable.
  pub Resumable-Frame :
      (tx : Transaction) (p q : Project) (name : String)
      → Frame tx p q
      → Resumable tx p name
      → Resumable tx q name
  Resumable-Frame tx p q name run r = elim (lookup-with_after [] tx.operations name) [
    | inl (op, i, e, found) ↦ at_operation op i e found
    | inr (away, found) ↦
        let same = run.others name away in
        record {
          free = ap (λ b. b name) run.same_blocked ∙ r.free;
          small = ap fits same ∙ r.small;
          continues = subst (λ f. may f) (sym same) r.continues;
        }
  ]
    where
      may : Option File → Type 0
      may f =
          may_continue (snapshot_of hash_bytes f) (lookup name tx.expected)
            (lookup name (with_after [] tx.operations))
          ≡ true

      at_operation :
          (op : Operation)
          → In op tx.operations
          → op.path ≡ name
          → lookup name (with_after [] tx.operations) ≡ some op.after
          → Resumable tx q name
      at_operation op i e found = record {
        free = ap (λ b. b name) run.same_blocked ∙ r.free;
        small =
            subst (λ n. fits (p.disk.files n) ≡ true → fits (q.disk.files n) ≡ true) e
              (run.sizes op i) r.small;
        continues =
            elim (subst
              (λ n.
                (state_of hash_bytes q n ≡ state_of hash_bytes p n)
                ⊎ (state_of hash_bytes q n ≡ op.after))
              e (run.each op i)) [
                | inl same ↦
                    subst
                      (λ s.
                        may_continue s (lookup name tx.expected)
                          (lookup name (with_after [] tx.operations))
                        ≡ true)
                      (sym same) r.continues
                | inr new ↦ rw (found, new) (desired op.after (lookup name tx.expected))
              ];
      }

  -- A run, however it ends, leaves a project from which the transaction can be resumed.
  pub Resumable-execute_transaction :
      (env : Env) (tx : Transaction) (p : Project) (name : String)
      → Resumable tx p name
      → Resumable tx (execute_transaction codec env tx p).1 name
  Resumable-execute_transaction env tx p name r =
      Resumable-Frame tx p (execute_transaction codec env tx p).1 name
        (Frame-execute_transaction env tx p) r
