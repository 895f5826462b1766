-- ===== src/Generating/Planning/Checked.antt =====
-- What the checks of `applyWithFault` of internal/compiler/reconciler.go establish.
use stego.Prelude.{
  String, ◌≡◌, refl, sym, ap, subst, true, false, not, ◌||◌, List, [], ◌∷◌, Option, none, some,
  ◌==◌, string_eq, if◌then◌else◌, ok, require-step, >>-step, >>=-eq-ok, In, In-cons, ◌∙◌, ◌⊎◌, inl,
  inr, Bool-cases, eq_of_beq, is_empty,
}
use stego.Prelude.Dict.{Dict, lookup, insert, lookup-insert, In-keys}
use stego.Prelude.Sort.{sorted_keys, In-sorted_keys}
use stego.Generating.Paths.{output_relative, state_path}
use stego.Generating.Snapshot.{
  File, Disk, FileSnapshot, snapshot_eq, snapshot_beq_iff, read_snapshot, read_snapshot-state,
  snapshot_of, same_snapshot, verify_names, verify_snapshots, max_tracked_file_bytes,
}
use stego.Generating.State.{Codec, validate_state}
use stego.Generating.Execute.{Project}
use stego.Generating.Planning.Types.{Plan, PlanFault}
use stego.Generating.Planning.Compute.{agrees, merge_inputs, bind_plan_inputs, lift_read}
use stego.Generating.Planning.Prepare.{expected_of, is_output, lift_state}
use stego.Generating.Planning.Loops.{lift_read-ok}
use stego.Generating.Planning.Apply.{
  Session, check_valid, check_targets, check_apply, generated_paths, planned_paths, no_journal,
  verify_registry, saved_still_applies,
}

-- The snapshots of a transaction are those of the plan.
pub lookup-expected_of :
    (out name : String) (m : Dict String FileSnapshot) (s : FileSnapshot)
    → lookup name (expected_of out m) ≡ some s
    → lookup name m ≡ some s
unfolding lookup
lookup-expected_of out name [] s h = h
lookup-expected_of out name ((k, v) ∷ m) s h = elim (Bool-cases (is_output out k)) [
  | inl kept ↦ elim (Bool-cases (k == name)) [
    | inl same ↦ rw same (rw (kept, same) at h)
    | inr other ↦ rw other (lookup-expected_of out name m s (rw (kept, other) at h))
  ]
  | inr left ↦ elim (Bool-cases (k == name)) [
    | inl same ↦
        let gone : is_output out name ≡ false =
          ap (is_output out) (sym (eq_of_beq k name same)) ∙ left in
        let none' = absent m gone in cc (none', rw left at h)
    | inr other ↦ rw other (lookup-expected_of out name m s (rw left at h))
  ]
]
  where
    absent :
        (l : Dict String FileSnapshot)
        → is_output out name ≡ false
        → lookup name (expected_of out l) ≡ none
    absent [] gone = refl
    absent ((i, w) ∷ l) gone = elim (Bool-cases (is_output out i)) [
      | inl kept' ↦ elim (Bool-cases (i == name)) [
        | inl same' ↦
            let e : is_output out i ≡ is_output out name =
              ap (is_output out) (eq_of_beq i name same') in
            cc (e, kept', gone)
        | inr other' ↦ rw (kept', other') (absent l gone)
      ]
      | inr left' ↦ rw left' (absent l gone)
    ]

merge_inputs-keeps :
    (inputs snapshots bound : Dict String FileSnapshot) (name : String) (s : FileSnapshot)
    → merge_inputs inputs snapshots ≡ ok bound
    → lookup name snapshots ≡ some s
    → lookup name bound ≡ some s
unfolding merge_inputs
merge_inputs-keeps [] snapshots bound name s h held =
    let e : snapshots ≡ bound = cc in subst (λ m. lookup name m ≡ some s) e held
merge_inputs-keeps ((k, v) ∷ inputs) snapshots bound name s h held =
    let (same, rest) =
      require-step (agrees v (lookup k snapshots)) (PlanFault.input_changed k) _ h in
    merge_inputs-keeps inputs (insert k v snapshots) bound name s rest
      (lookup-insert k name v snapshots ∙ of_test same (Bool-cases (k == name)))
  where
    of_test :
        agrees v (lookup k snapshots) ≡ true
        → ((k == name) ≡ true) ⊎ ((k == name) ≡ false)
        → (if k == name then some v else lookup name snapshots) ≡ some s
    of_test same (inl e) =
        let found : lookup k snapshots ≡ some s =
          ap (λ n. lookup n snapshots) (eq_of_beq k name e) ∙ held in
        let test : (s == v) ≡ true = ap (agrees v) (sym found) ∙ same in
        rw e (ap some (sym ((snapshot_beq_iff s v).0 test)))
    of_test same (inr n) = rw n held

module _ (codec : Codec) where
  open codec use {hash_bytes}

  -- Binding the inputs adds snapshots, and changes nothing else of the plan.
  pub bind_plan_inputs-keeps :
      (d : Disk) (inputs : Dict String FileSnapshot) (plan bound : Plan)
      → bind_plan_inputs codec d inputs plan ≡ ok bound
      → (snapshots : Dict String FileSnapshot) × (record plan { snapshots = snapshots } ≡ bound)
        × ((name : String) (s : FileSnapshot)
            → lookup name plan.snapshots ≡ some s
            → lookup name snapshots ≡ some s)
  unfolding bind_plan_inputs
  bind_plan_inputs-keeps d inputs plan bound h =
      let (_, h₁) = >>-step (lift_read (verify_snapshots hash_bytes d inputs)) _ h in
      let (snapshots, merged, h₂) = >>=-eq-ok (merge_inputs inputs plan.snapshots) _ h₁ in
      (snapshots, cc, λ n s. merge_inputs-keeps inputs plan.snapshots snapshots n s merged)

  verify_names-known :
      (d : Disk) (snapshots : Dict String FileSnapshot) (names : List String)
      → verify_names hash_bytes d snapshots names ≡ ok tt
      → (name : String) → In name names
      → (s : FileSnapshot) → lookup name snapshots ≡ some s
      → snapshot_of hash_bytes (d.files name) ≡ s
  unfolding verify_names
  verify_names-known d snapshots [] h name i s k = elim i [ ]
  verify_names-known d snapshots (n ∷ names) h name i s k =
      let (found, reads, h₁) =
        >>=-eq-ok (read_snapshot hash_bytes d n max_tracked_file_bytes) _ h in
      let (same, rest) = >>-step (same_snapshot hash_bytes n (lookup n snapshots) found) _ h₁ in
      In-cons
        (λ x.
          (t : FileSnapshot) → lookup x snapshots ≡ some t → snapshot_of hash_bytes (d.files x) ≡ t)
        (λ t j.
          sym (read_snapshot-state hash_bytes d n max_tracked_file_bytes found reads)
          ∙ matched n t found (ap (λ o. same_snapshot hash_bytes n o found) (sym j) ∙ same))
        (λ x j. verify_names-known d snapshots names rest x j) name i s k
    where
      matched :
          (x : String) (t : FileSnapshot) (r : Option File × FileSnapshot)
          → same_snapshot hash_bytes x (some t) r ≡ ok tt
          → r.1 ≡ t
      matched x t r h = elim (Bool-cases (r.1 == t)) [
        | inl e ↦ (snapshot_beq_iff r.1 t).0 e
        | inr n ↦ let q = rw n at h in cc
      ]

  -- What an accepted plan tells of the project.
  pub record Accepted (session : Session) (plan : Plan) (out : String) (p : Project) : Type 0 where
    pub valid : output_relative out ≡ true
    pub journal : p.journal ≡ none
    pub unchanged :
        (name : String) (s : FileSnapshot)
        → lookup name plan.snapshots ≡ some s
        → snapshot_of hash_bytes (p.disk.files name) ≡ s
    pub hand_edits : (is_empty plan.hand_edited || plan.replace_hand_edits) ≡ true
    pub saved : saved_still_applies codec plan plan.saved ≡ ok tt

  no_journal-none :
      (j : Option stego.Generating.Transaction.Transaction) → no_journal j ≡ true → j ≡ none
  no_journal-none none h = refl
  no_journal-none (some tx) h = cc

  pub check_apply-Accepted :
      (session : Session) (plan : Plan) (out : String) (p : Project)
      → check_apply codec session plan out p ≡ ok tt
      → Accepted session plan out p
  unfolding check_apply verify_snapshots
  check_apply-Accepted session plan out p h =
      let (valid, h₁) = require-step (output_relative out) PlanFault.bad_output _ h in
      let (_, h₂) = >>-step (lift_state (validate_state codec plan.new_state)) _ h₁ in
      let (_, h₃) = >>-step (check_valid (generated_paths plan.generated_files)) _ h₂ in
      let (_, h₄) = >>-step (check_valid (planned_paths plan.files)) _ h₃ in
      let (free, h₅) = require-step (no_journal p.journal) PlanFault.pending _ h₄ in
      let (_, h₆) = require-step (not (p.disk.blocked out)) (PlanFault.blocked out) _ h₅ in
      let (_, h₇) =
        require-step (not (p.disk.blocked state_path)) (PlanFault.blocked state_path) _ h₆ in
      let (_, h₈) =
        >>-step (check_targets p.disk out (generated_paths plan.generated_files)) _ h₇ in
      let (_, h₉) = >>-step (check_targets p.disk out (planned_paths plan.files)) _ h₈ in
      let (_, k₁) = require-step (plan.out_dir == out) PlanFault.other_location _ h₉ in
      let (verified, k₂) =
        >>-step (lift_read (verify_snapshots hash_bytes p.disk plan.snapshots)) _ k₁ in
      let (edits, k₃) =
        require-step (is_empty plan.hand_edited || plan.replace_hand_edits)
          (PlanFault.hand_edits plan.hand_edited) _ k₂ in
      let (_, k₄) = >>-step (verify_registry codec session plan) _ k₃ in
      record {
        valid = valid;
        journal = no_journal-none p.journal free;
        unchanged = λ n s held.
            verify_names-known p.disk plan.snapshots (sorted_keys plan.snapshots)
              (lift_read-ok (verify_snapshots hash_bytes p.disk plan.snapshots) verified) n
              (In-sorted_keys plan.snapshots (In-keys n plan.snapshots held)) s held;
        hand_edits = edits;
        saved = k₄;
      }
