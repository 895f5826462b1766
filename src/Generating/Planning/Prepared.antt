-- ===== src/Generating/Planning/Prepared.antt =====
-- What `prepareTransaction` of internal/compiler/transaction.go puts in the journal.
use stego.Prelude.{
  ℕ, ◌+◌, String, ◌≡◌, refl, sym, ap, subst, Bool, true, false, not, ◌&&◌, List, [], ◌∷◌, Option,
  none, some, arith, ◌==◌, string_eq, ok, require-step, >>=-eq-ok, In, In-cons, ◌∙◌, ◌⊎◌, inl, inr,
  Bool-cases, leb, length, is_empty,
}
use stego.Prelude.Dict.{Dict, lookup}
use stego.Generating.Paths.{project_file_path, state_path}
use stego.Generating.Snapshot.{Bytes, FileSnapshot, no_file, snapshot_eq, max_tracked_file_bytes}
use stego.Generating.State.{Codec, AppliedState, encode_state}
use stego.Generating.Transaction.{Operation, Transaction}
use stego.Generating.Execute.{or_no_file}
use stego.Generating.Planning.Types.{Action, PlannedFile, Plan, PlanFault}
use stego.Generating.Planning.Compute.{is_held}
use stego.Generating.Planning.Prepare.{
  expected_of, recorded_hash, lift_state, Made, collect_contents, write_operation, make_write,
  make_delete, make_operation, make_from, prepare_file, with_operation, prepare_files,
  transaction_of, close_transaction, prepare_applied, prepare_transaction,
}
use stego.Generating.Planning.Contents.{is_held-none}

module _ (codec : Codec) where
  open codec use {hash_bytes, utf8}

  -- An operation writes the content of its path, or removes a file without content.
  abbrev pub Effect : Dict String Bytes → String → FileSnapshot → Type 0
  Effect contents path after =
      ((bytes : Bytes) × (lookup path contents ≡ some bytes)
        × (after.present ≡ true)
        × (after.hash ≡ hash_bytes bytes))
      ⊎ ((lookup path contents ≡ none) × (after ≡ no_file))

  -- What one planned file gives.
  record OneMade (expected : Dict String FileSnapshot) (contents : Dict String Bytes)
      (name : String) (path : String) (action : Action) (op : Option Operation) : Type 0 where
    effect : (o : Operation) → op ≡ some o → (o.path ≡ name) × Effect contents path o.after
    covered :
        (action ≡ Action.unchanged)
        ⊎ (((o : Operation) × (op ≡ some o))
            ⊎ ((action ≡ Action.delete)
                × ((before : FileSnapshot) × (lookup name expected ≡ some before)
                    × (before.present ≡ false))))

  make_write-OneMade :
      (expected : Dict String FileSnapshot) (contents : Dict String Bytes) (name path : String)
      (action : Action) (before : FileSnapshot) (content : Option Bytes) (total : ℕ) (made : Made)
      → lookup path contents ≡ content
      → make_write codec name before content total ≡ ok made
      → OneMade expected contents name path action made.0
  make_write-OneMade expected contents name path action before none total made c h = cc
  make_write-OneMade expected contents name path action before (some bytes) total made c h =
      let (_, h₁) =
        require-step (leb (total + length bytes) max_tracked_file_bytes) PlanFault.content_limit _
          h in
      let op = write_operation codec name before bytes in
      let e : some op ≡ made.0 = cc in
      record {
        effect = λ o k.
            let same : op ≡ o = cc in
            (
              ap (λ x. x.path) (sym same),
              inl (
                bytes,
                c,
                ap (λ x. x.after.present) (sym same),
                ap (λ x. x.after.hash) (sym same),
              ),
            );
        covered = inr (inl (op, sym e));
      }

  make_delete-OneMade :
      (expected : Dict String FileSnapshot) (contents : Dict String Bytes) (name path : String)
      (before : FileSnapshot) (content : Option Bytes) (total : ℕ) (made : Made)
      → lookup name expected ≡ some before
      → lookup path contents ≡ content
      → make_delete codec name before content total ≡ ok made
      → OneMade expected contents name path Action.delete made.0
  make_delete-OneMade expected contents name path before content total made k c h =
      let (gone, h₁) =
        require-step (not (is_held content)) (PlanFault.deletes_generated name) _ h in
      let op = stego.Generating.Planning.Prepare.delete_operation codec name before in
      elim (Bool-cases before.present) [
        | inl present ↦
            let e : some op ≡ made.0 = let q = rw present at h₁ in cc in
            record {
              effect = λ o j.
                  let same : op ≡ o = cc in
                  (
                    ap (λ x. x.path) (sym same),
                    inr (c ∙ is_held-none content gone, ap (λ x. x.after) (sym same)),
                  );
              covered = inr (inl (op, sym e));
            }
        | inr absent ↦
            let e : none ≡ made.0 = let q = rw absent at h₁ in cc in
            record { effect = λ o j. cc; covered = inr (inr (refl, (before, k, absent))) }
      ]

  make_operation-OneMade :
      (expected : Dict String FileSnapshot) (contents : Dict String Bytes) (name path : String)
      (before : FileSnapshot) (content : Option Bytes) (total : ℕ) (action : Action) (made : Made)
      → lookup name expected ≡ some before
      → lookup path contents ≡ content
      → make_operation codec name before content total action ≡ ok made
      → OneMade expected contents name path action made.0
  make_operation-OneMade expected contents name path before content total Action.unchanged made k c
        h =
      let e : none ≡ made.0 = cc in record { effect = λ o j. cc; covered = inl refl }
  make_operation-OneMade expected contents name path before content total Action.generate made k c
        h =
      make_write-OneMade expected contents name path Action.generate before content total made c h
  make_operation-OneMade expected contents name path before content total Action.update made k c h =
      make_write-OneMade expected contents name path Action.update before content total made c h
  make_operation-OneMade expected contents name path before content total Action.delete made k c h =
      make_delete-OneMade expected contents name path before content total made k c h
  make_operation-OneMade expected contents name path before content total (Action.other s) made k c
        h =
      cc

  make_from-OneMade :
      (expected : Dict String FileSnapshot) (contents : Dict String Bytes) (name path : String)
      (before : Option FileSnapshot) (content : Option Bytes) (total : ℕ) (action : Action)
      (made : Made)
      → lookup name expected ≡ before
      → lookup path contents ≡ content
      → make_from codec name before content total action ≡ ok made
      → OneMade expected contents name path action made.0
  make_from-OneMade expected contents name path none content total action made k c h = cc
  make_from-OneMade expected contents name path (some before) content total action made k c h =
      make_operation-OneMade expected contents name path before content total action made k c h

  prepare_file-OneMade :
      (expected : Dict String FileSnapshot) (contents : Dict String Bytes) (out : String)
      (f : PlannedFile) (total : ℕ) (made : Made)
      → prepare_file codec expected contents out f total ≡ ok made
      → OneMade expected contents (project_file_path out f.path) f.path f.action made.0
  unfolding prepare_file
  prepare_file-OneMade expected contents out f total made h =
      make_from-OneMade expected contents (project_file_path out f.path) f.path
        (lookup (project_file_path out f.path) expected) (lookup f.path contents) total f.action
        made refl refl h

  -- What all planned files give.
  pub record AllMade (expected : Dict String FileSnapshot) (contents : Dict String Bytes)
      (out : String) (fs : List PlannedFile) (ops : List Operation) : Type 0 where
    pub effects :
        (o : Operation)
        → In o ops
        → (f : PlannedFile) × In f fs
          × (o.path ≡ project_file_path out f.path)
          × Effect contents f.path o.after
    pub covered :
        (f : PlannedFile)
        → In f fs
        → (f.action ≡ Action.unchanged)
          ⊎ (((o : Operation) × In o ops × (o.path ≡ project_file_path out f.path))
              ⊎ ((f.action ≡ Action.delete)
                  × ((before : FileSnapshot) × (lookup (project_file_path out f.path) expected
                        ≡ some before)
                      × (before.present ≡ false))))

  In-with_operation :
      (made : Option Operation) (ops : List Operation) {o : Operation}
      → In o ops
      → In o (with_operation made ops)
  In-with_operation none ops i = i
  In-with_operation (some op) ops i = In.there i

  In-with_new :
      (made : Option Operation) (ops : List Operation) (o : Operation)
      → made ≡ some o
      → In o (with_operation made ops)
  In-with_new none ops o h = cc
  In-with_new (some op) ops o h = let e : op ≡ o = cc in subst (λ x. In x (op ∷ ops)) e In.here

  In_of_with_operation :
      (made : Option Operation) (ops : List Operation) (o : Operation)
      → In o (with_operation made ops)
      → (made ≡ some o) ⊎ In o ops
  In_of_with_operation none ops o i = inr i
  In_of_with_operation (some op) ops o In.here = inl refl
  In_of_with_operation (some op) ops o (In.there i) = inr i

  prepare_files-AllMade :
      (expected : Dict String FileSnapshot) (contents : Dict String Bytes) (out : String)
      (fs : List PlannedFile) (total : ℕ) (r : List Operation × ℕ)
      → prepare_files codec expected contents out fs total ≡ ok r
      → AllMade expected contents out fs r.0
  unfolding prepare_files
  prepare_files-AllMade expected contents out [] total r h =
      let e : [] ≡ r.0 = cc in
      subst (λ ops. AllMade expected contents out [] ops) e
        (record { effects = λ o i. elim i [ ]; covered = λ f i. elim i [ ] })
  prepare_files-AllMade expected contents out (f ∷ fs) total r h =
      let (made, first, h₁) = >>=-eq-ok (prepare_file codec expected contents out f total) _ h in
      let (rest, others, h₂) =
        >>=-eq-ok (prepare_files codec expected contents out fs made.1) _ h₁ in
      let one = prepare_file-OneMade expected contents out f total made first in
      let more = prepare_files-AllMade expected contents out fs made.1 rest others in
      let e : with_operation made.0 rest.0 ≡ r.0 = cc in
      subst (λ ops. AllMade expected contents out (f ∷ fs) ops) e
        (record {
          effects = λ o i. elim (In_of_with_operation made.0 rest.0 o i) [
            | inl new ↦ let (at', effect) = one.effect o new in (f, In.here, at', effect)
            | inr old ↦ let (g, j, at', effect) = more.effects o old in (g, In.there j, at', effect)
          ];
          covered =
              In-cons
                (λ g.
                  (g.action ≡ Action.unchanged)
                  ⊎ (((o : Operation) × In o (with_operation made.0 rest.0)
                        × (o.path ≡ project_file_path out g.path))
                      ⊎ ((g.action ≡ Action.delete)
                          × ((before : FileSnapshot) × (lookup (project_file_path out g.path)
                                  expected
                                ≡ some before)
                              × (before.present ≡ false)))))
                (elim one.covered [
                  | inl same ↦ inl same
                  | inr (inl (o, k)) ↦
                      inr (inl (o, In-with_new made.0 rest.0 o k, (one.effect o k).0))
                  | inr (inr gone) ↦ inr (inr gone)
                ])
                (λ g j. elim (more.covered g j) [
                  | inl same ↦ inl same
                  | inr (inl (o, k, at')) ↦ inr (inl (o, In-with_operation made.0 rest.0 k, at'))
                  | inr (inr gone) ↦ inr (inr gone)
                ]);
        })

  -- The parts of a prepared journal.
  pub record Prepared (plan : Plan) (out : String) (tx : Option Transaction) : Type 0 where
    pub applied : AppliedState
    pub contents : Dict String Bytes
    pub ops : List Operation
    pub state_data : Bytes
    pub collected : collect_contents codec applied.files plan.generated_files [] ≡ ok contents
    pub made : AllMade (expected_of out plan.snapshots) contents out plan.files ops
    pub result :
        ((tx ≡ none) × (ops ≡ []))
        ⊎ (tx ≡ some (transaction_of codec out (expected_of out plan.snapshots) ops state_data))

  empty_operations : (ops : List Operation) → is_empty ops ≡ true → ops ≡ []
  empty_operations [] h = refl
  empty_operations (o ∷ ops) h = cc

  close_transaction-cases :
      (out : String) (expected : Dict String FileSnapshot) (ops : List Operation) (total : ℕ)
      (state_data : Bytes) (tx : Option Transaction)
      → close_transaction codec out expected (ops, total) state_data ≡ ok tx
      → ((tx ≡ none) × (ops ≡ [])) ⊎ (tx ≡ some (transaction_of codec out expected ops state_data))
  close_transaction-cases out expected ops total state_data tx h =
      let before = or_no_file (lookup state_path expected) in
      let test =
        is_empty ops
        && before == stego.Generating.Planning.Prepare.snapshot_after codec before state_data in
      elim (Bool-cases test) [
        | inl same ↦
            let k = rw same at h in
            inl (cc, empty_operations ops (first_true (is_empty ops) _ same))
        | inr new ↦
            let k = rw new at h in
            let (_, h₁) =
              require-step (leb (total + length state_data) max_tracked_file_bytes)
                PlanFault.state_limit _ k in
            inr (cc)
      ]
    where
      first_true : (a b : Bool) → (a && b) ≡ true → a ≡ true
      first_true a b h = ground arith

  prepare_applied-Prepared :
      (plan : Plan) (out : String) (applied : Option AppliedState) (tx : Option Transaction)
      → prepare_applied codec plan out applied ≡ ok tx
      → Prepared plan out tx
  prepare_applied-Prepared plan out none tx h = cc
  prepare_applied-Prepared plan out (some applied) tx h =
      let expected = expected_of out plan.snapshots in
      let (contents, collected, h₁) =
        >>=-eq-ok (collect_contents codec applied.files plan.generated_files []) _ h in
      let (ops, made, h₂) =
        >>=-eq-ok (prepare_files codec expected contents out plan.files 0) _ h₁ in
      let (state_data, encoded, h₃) =
        >>=-eq-ok (lift_state (encode_state codec plan.new_state)) _ h₂ in
      record {
        applied = applied;
        contents = contents;
        ops = ops.0;
        state_data = state_data;
        collected = collected;
        made = prepare_files-AllMade expected contents out plan.files 0 ops made;
        result = close_transaction-cases out expected ops.0 ops.1 state_data tx h₃;
      }

  pub prepare_transaction-Prepared :
      (plan : Plan) (out : String) (tx : Option Transaction)
      → prepare_transaction codec plan out ≡ ok tx
      → Prepared plan out tx
  unfolding prepare_transaction
  prepare_transaction-Prepared plan out tx h =
      prepare_applied-Prepared plan out plan.new_state.last_applied tx h
