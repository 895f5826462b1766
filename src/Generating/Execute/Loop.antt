-- ===== src/Generating/Execute/Loop.antt =====
-- What an accepted transaction gives a run of its operations: `validateTransaction` of
-- internal/compiler/transaction.go.
use stego.Prelude.{
  ◌≤◌, String, ◌≡◌, ◌≢◌, refl, sym, ap, subst, true, false, not, ◌&&◌, List, [], ◌∷◌, some, arith,
  ◌==◌, string_eq, eq_iff, Outcome, ok, require-step, >>-step, >>=-eq-ok, ◌>>◌, is_empty, contains,
  length, leb, nat_eq, In, In-cons, ◌∙◌,
}
use stego.Prelude.Dict.{Dict, lookup}
use stego.Prelude.Sort.{sorted_keys}
use stego.Generating.Snapshot.{
  Bytes, fits, max_tracked_file_bytes, snapshot_of, valid_snapshot, snapshot_beq_iff,
}
use stego.Generating.Paths.{valid_path, valid_layout, output_relative, state_path}
use stego.Generating.State.{Codec}
use stego.Generating.Transaction.{
  Operation, Transaction, Fault, Checked, check_operation, check_operations, check_expected,
  check_new_state, first_check, validate_transaction, max_transaction_files,
}
use stego.Generating.Transaction.Valid.{
  Accepted, check_operation-Accepted, valid_snapshot-mode, valid_snapshot-absent,
}
use stego.Generating.Execute.{new_file, or_empty}
use stego.Generating.Execute.Effects.{DistinctPaths, Lands}

contains-cons :
    (x a : String) (xs : List String)
    → contains (x ∷ xs) a ≡ false
    → (a ≢ x) × (contains xs a ≡ false)
contains-cons x a xs h = ground (arith, eq_iff x a)

module _ (codec : Codec) where
  open codec use {hash_bytes}

  -- What is known of one operation of a transaction once all are checked.
  pub record Approved (tx : Transaction) (contents : Dict String Bytes) (op : Operation)
      : Type 0 where
    pub expected : lookup op.path tx.expected ≡ some op.before
    pub valid_after : valid_snapshot op.after ≡ true
    pub content :
        op.after.present ≡ true
        → (bytes : Bytes) × (lookup op.path contents ≡ some bytes)
          × (hash_bytes bytes ≡ op.after.hash)
          × (leb (length bytes) max_tracked_file_bytes ≡ true)

  -- What is known after the loop over `ops` from `c` to `c'`.
  record Looped (tx : Transaction) (ops : List Operation) (c c' : Checked) : Type 0 where
    distinct : DistinctPaths hash_bytes ops
    unseen : (op : Operation) → In op ops → contains c.seen op.path ≡ false
    each : (op : Operation) → In op ops → Approved tx c'.contents op
    others :
        (name : String)
        → ((op : Operation) → In op ops → name ≢ op.path)
        → lookup name c'.contents ≡ lookup name c.contents

  Looped-cons :
      (tx : Transaction) (op : Operation) (ops : List Operation) (c d c' : Checked)
      → Accepted codec tx op c d
      → Looped tx ops d c'
      → Looped tx (op ∷ ops) c c'
  Looped-cons tx op ops c d c' a l = record {
    distinct = (λ o i. (unseen o i).0, l.distinct);
    unseen =
        In-cons (λ (o : Operation). contains c.seen o.path ≡ false) a.fresh (λ o i. (unseen o i).1);
    each =
        In-cons (Approved tx c'.contents)
          (record {
            expected = a.expected;
            valid_after = a.valid_after;
            content = λ p.
                let (bytes, known, hashed, small) = a.content p in
                (bytes, l.others op.path (λ o i e. (unseen o i).0 (sym e)) ∙ known, hashed, small);
          })
          l.each;
    others = λ n away. l.others n (λ o i. away o (In.there i)) ∙ a.others n (away op In.here);
  }
    where
      unseen : (o : Operation) → In o ops → (o.path ≢ op.path) × (contains c.seen o.path ≡ false)
      unseen o i =
          contains-cons op.path o.path c.seen
            (ap (λ s. contains s o.path) (sym a.seen) ∙ l.unseen o i)

  check_operations-Looped :
      (tx : Transaction) (ops : List Operation) (c c' : Checked)
      → check_operations codec tx ops c ≡ ok c'
      → Looped tx ops c c'
  unfolding check_operations
  check_operations-Looped tx [] c c' h =
      let e : c ≡ c' = cc in
      rw (← e) (record {
        distinct = tt;
        unseen = λ o i. elim i [ ];
        each = λ o i. elim i [ ];
        others = λ n away. refl;
      })
  check_operations-Looped tx (op ∷ ops) c c' h =
      let (d, first, rest) =
        >>=-eq-ok (check_operation codec tx (is_empty ops) op c) (check_operations codec tx ops)
          h in
      Looped-cons tx op ops c d c' (check_operation-Accepted codec tx (is_empty ops) op c d first)
        (check_operations-Looped tx ops d c' rest)

  -- What `validate_transaction` establishes for the run.
  pub record Plan (tx : Transaction) (contents : Dict String Bytes) : Type 0 where
    pub distinct : DistinctPaths hash_bytes tx.operations
    pub each : (op : Operation) → In op tx.operations → Approved tx contents op

  return_contents : Transaction → Checked → Outcome Fault (Dict String Bytes)
  return_contents tx c =
      check_new_state codec tx.output_dir c (lookup state_path c.contents) >> ok c.contents

  pub validate_transaction-Plan :
      (tx : Transaction) (contents : Dict String Bytes)
      → validate_transaction codec tx ≡ ok contents
      → Plan tx contents
  unfolding validate_transaction return_contents
  validate_transaction-Plan tx contents h =
      let (_, h₁) = require-step (tx.version == 1) Fault.bad_version _ h in
      let (_, h₂) =
        require-step (valid_path tx.output_dir && output_relative tx.output_dir)
          Fault.output_directory _ h₁ in
      let (_, h₃) =
        require-step
          (not (is_empty tx.operations)
            && leb (length tx.operations) max_transaction_files
            && leb (length tx.expected) max_transaction_files)
          Fault.file_count _ h₂ in
      let (_, h₄) = >>-step (check_expected tx.output_dir tx.expected) _ h₃ in
      let (_, h₅) =
        require-step (valid_layout codec.to_lower (sorted_keys tx.expected)) Fault.layout _ h₄ in
      let (c, looped, h₆) =
        >>=-eq-ok (check_operations codec tx tx.operations (first_check codec tx))
          (return_contents tx) h₅ in
      let (_, h₇) =
        >>-step (check_new_state codec tx.output_dir c (lookup state_path c.contents))
          (ok c.contents) h₆ in
      let e : c.contents ≡ contents = cc in
      let l = check_operations-Looped tx tx.operations (first_check codec tx) c looped in
      rw (← e) (record { distinct = l.distinct; each = l.each })

  written :
      (op : Operation) (bytes : Bytes)
      → op.after.present ≡ true
      → hash_bytes bytes ≡ op.after.hash
      → op.after.mode ≤ 511
      → snapshot_of hash_bytes (some (new_file op bytes)) ≡ op.after
  written op bytes p hashed m =
      (snapshot_beq_iff (snapshot_of hash_bytes (some (new_file op bytes))) op.after).0
        (ground (arith, eq_iff (hash_bytes bytes) op.after.hash))

  -- An approved operation leaves a file with the snapshot that it states.
  pub Approved-Lands :
      (tx : Transaction) (contents : Dict String Bytes) (op : Operation)
      → Approved tx contents op
      → Lands hash_bytes op (or_empty (lookup op.path contents))
  Approved-Lands tx contents op a = record {
    written = λ p.
        let (bytes, known, hashed, small) = a.content p in
        subst (λ o. snapshot_of hash_bytes (some (new_file op (or_empty o))) ≡ op.after) (sym known)
          (written op bytes p hashed (valid_snapshot-mode op.after a.valid_after p));
    removed = λ p. valid_snapshot-absent op.after a.valid_after p;
    small = λ p.
        let (bytes, known, hashed, small) = a.content p in
        subst (λ o. fits (some (new_file op (or_empty o))) ≡ true) (sym known) small;
  }
