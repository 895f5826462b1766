-- ===== src/Generating/Transaction/Valid.antt =====
-- What `validateTransaction` of internal/compiler/transaction.go establishes.
use stego.Prelude.{
  ◌+◌, ◌≤◌, String, ◌≡◌, ◌≢◌, refl, sym, ap, Bool, true, false, not, ◌&&◌, ◌||◌, ◌∷◌, Option, none,
  some, arith, ◌==◌, string_eq, Outcome, ok, require-step, >>-step, >>=-eq-ok, contains, length,
  leb, beq_ne, eq_of_beq,
}
use stego.Prelude.Dict.{lookup, insert, lookup-insert, lookup-insert_self}
use stego.Generating.Snapshot.{
  Bytes, FileSnapshot, no_file, snapshot_eq, snapshot_beq_iff, valid_snapshot,
  max_tracked_file_bytes,
}
use stego.Generating.Paths.{validate_transaction_path, is_project_root_file, state_path}
use stego.Generating.State.{Codec}
use stego.Generating.Transaction.{
  Operation, Transaction, Fault, Checked, lift_path, is_expected, check_content, check_after,
  check_operation,
}

pub valid_snapshot-mode :
    (s : FileSnapshot) → valid_snapshot s ≡ true → s.present ≡ true → s.mode ≤ 511
unfolding valid_snapshot
valid_snapshot-mode s h p = ground arith

pub valid_snapshot-absent :
    (s : FileSnapshot) → valid_snapshot s ≡ true → s.present ≡ false → no_file ≡ s
unfolding valid_snapshot
valid_snapshot-absent s h p = ground (arith, snapshot_beq_iff s no_file)

is_expected-eq : (b : FileSnapshot) (o : Option FileSnapshot) → is_expected b o ≡ true → o ≡ some b
is_expected-eq b none h = cc
is_expected-eq b (some e) h = ap some ((snapshot_beq_iff e b).0 h)

module _ (codec : Codec) where
  open codec use {hash_bytes, decode64}

  -- What one accepted operation states and adds.
  pub record Accepted (tx : Transaction) (op : Operation) (c c' : Checked) : Type 0 where
    pub fresh : contains c.seen op.path ≡ false
    pub expected : lookup op.path tx.expected ≡ some op.before
    pub valid_after : valid_snapshot op.after ≡ true
    pub content :
        op.after.present ≡ true
        → (bytes : Bytes) × (lookup op.path c'.contents ≡ some bytes)
          × (hash_bytes bytes ≡ op.after.hash)
          × (leb (length bytes) max_tracked_file_bytes ≡ true)
    pub seen : c'.seen ≡ op.path ∷ c.seen
    pub others : (name : String) → name ≢ op.path → lookup name c'.contents ≡ lookup name c.contents

  record Contained (op : Operation) (c c' : Checked) : Type 0 where
    content :
        op.after.present ≡ true
        → (bytes : Bytes) × (lookup op.path c'.contents ≡ some bytes)
          × (hash_bytes bytes ≡ op.after.hash)
          × (leb (length bytes) max_tracked_file_bytes ≡ true)
    seen : c'.seen ≡ c.seen
    others : (name : String) → name ≢ op.path → lookup name c'.contents ≡ lookup name c.contents

  -- What is stored once both tests have passed.
  stored :
      (op : Operation) (bytes : Bytes) (c c' : Checked)
      → check_content codec op (some bytes) c ≡ ok c'
      → ((hash_bytes bytes == op.after.hash) ≡ true)
        × (leb (length bytes) max_tracked_file_bytes ≡ true)
        × (c' ≡ record c {
          contents = insert op.path bytes c.contents;
          total = c.total + length bytes;
        })
  stored op bytes c c' h = ground arith

  check_content-Contained :
      (op : Operation) (o : Option Bytes) (c c' : Checked)
      → check_content codec op o c ≡ ok c'
      → Contained op c c'
  check_content-Contained op none c c' h = cc
  check_content-Contained op (some bytes) c c' h =
      let (hashed, small, e) = stored op bytes c c' h in
      rw e (record {
        content = λ p. (
          bytes,
          lookup-insert_self op.path bytes c.contents,
          eq_of_beq (hash_bytes bytes) op.after.hash hashed,
          small,
        );
        seen = refl;
        others = λ n away. rw (lookup-insert, beq_ne op.path n (λ k. away (sym k)));
      })

  check_after-Contained :
      (op : Operation) (c c' : Checked) (present : Bool)
      → op.after.present ≡ present
      → check_after codec op c present ≡ ok c'
      → Contained op c c'
  check_after-Contained op c c' true p h =
      check_content-Contained op (decode64 op.content) c c' (require-step _ _ _ h).1
  check_after-Contained op c c' false p h =
      let e : ok c ≡ ok c' = (require-step _ _ _ h).1 in
      let k : c ≡ c' = cc in
      rw (← k) (record { content = λ q. cc (p, q); seen = refl; others = λ n away. refl })

  close : Operation → Checked → Checked
  close op c = record c { final = insert op.path op.after c.final; seen = op.path ∷ c.seen }

  finish : Operation → Checked → Outcome Fault Checked
  unfolding close
  finish op c = ok (close op c)

  pub check_operation-Accepted :
      (tx : Transaction) (last : Bool) (op : Operation) (c c' : Checked)
      → check_operation codec tx last op c ≡ ok c'
      → Accepted tx op c c'
  unfolding check_operation finish
  check_operation-Accepted tx last op c c' h =
      let (_, h₁) = >>-step (lift_path (validate_transaction_path tx.output_dir op.path)) _ h in
      let (fresh, h₂) =
        require-step (not (contains c.seen op.path)) (Fault.duplicate op.path) _ h₁ in
      let (expected, h₃) =
        require-step (is_expected op.before (lookup op.path tx.expected))
          (Fault.inconsistent op.path) _ h₂ in
      let (valid, h₄) =
        require-step (valid_snapshot op.before && valid_snapshot op.after)
          (Fault.invalid_snapshot op.path) _ h₃ in
      let (_, h₅) =
        require-step (not (op.path == state_path) || last && op.after.present) Fault.state_last _
          h₄ in
      let (_, h₆) =
        require-step (not (is_project_root_file op.path) || op.after.present) Fault.module_deletion
          _ h₅ in
      let (checked, done, h₇) =
        >>=-eq-ok (check_after codec op c op.after.present) (finish op) h₆ in
      let contained = check_after-Contained op c checked op.after.present refl done in
      let e : close op checked ≡ c' = cc in
      rw (← e) (record {
        fresh = ground arith;
        expected = is_expected-eq op.before (lookup op.path tx.expected) expected;
        valid_after = ground arith;
        content = contained.content;
        seen = ap (λ s. op.path ∷ s) contained.seen;
        others = contained.others;
      })
