-- ===== src/Generating/Planning/Loops.antt =====
-- What the loops of `computePlan` of internal/compiler/reconciler.go put in a plan.
use stego.Prelude.{
  String, ◌≡◌, ◌≢◌, refl, sym, ap, subst, Bool, true, false, not, ◌&&◌, ◌||◌, List, [], ◌∷◌, ◌++◌,
  Option, none, some, arith, ◌==◌, string_eq, if◌then◌else◌, Outcome, ok, err, require-step,
  >>-step, >>=-eq-ok, In, In-cons, In-append_left, In-append_right, ◌∙◌, ◌⊎◌, inl, inr, Bool-cases,
  Option-cases, eq_of_beq, beq_ne, leb, length,
}
use stego.Prelude.Dict.{Dict, keys, lookup, insert, lookup-insert, In-keys}
use stego.Generating.Paths.{is_project_root_file, project_file_path}
use stego.Generating.Snapshot.{
  Disk, FileSnapshot, snapshot_eq, ReadFault, read_snapshot, read_snapshot-state, snapshot_of,
  max_tracked_file_bytes,
}
use stego.Generating.State.{Codec}
use stego.Generating.Planning.Types.{GenFile, file_bytes, Action, PlannedFile, PlanFault}
use stego.Generating.Planning.Compute.{
  Progress, lift_read, is_held, action_of, file_hash, add_generated, plan_file, plan_files,
  add_orphan, delete_file, plan_orphan, plan_orphans,
}

pub lift_read-ok {ℓ} :
    {A : Type ℓ} (m : Outcome ReadFault A) {a : A} → lift_read m ≡ ok a → m ≡ ok a
lift_read-ok (ok b) h = cc
lift_read-ok (err e) h = cc

module _ (codec : Codec) (d : Disk) where
  open codec use {hash_bytes}

  -- The snapshot of a file when the plan is made.
  abbrev pub seen : String → FileSnapshot
  seen name = snapshot_of hash_bytes (d.files name)

  -- A file that the snapshots hold as it was.
  abbrev pub Holds : Dict String FileSnapshot → String → Type 0
  Holds snapshots name = lookup name snapshots ≡ some (seen name)

  -- A later point of the loops.
  pub record Grows (p q : Progress) : Type 0 where
    planned : (f : PlannedFile) → In f p.planned → In f q.planned
    snapshots : (name : String) → Holds p.snapshots name → Holds q.snapshots name

  Grows-refl : (p : Progress) → Grows p p
  Grows-refl p = record { planned = λ f i. i; snapshots = λ n h. h }

  Grows-trans : {p q r : Progress} → Grows p q → Grows q r → Grows p r
  Grows-trans a b = record {
    planned = λ f i. b.planned f (a.planned f i);
    snapshots = λ n h. b.snapshots n (a.snapshots n h);
  }

  Holds-insert :
      (m : Dict String FileSnapshot) (k name : String)
      → Holds m name
      → Holds (insert k (seen k) m) name
  Holds-insert m k name h = lookup-insert k name (seen k) m ∙ of_test (Bool-cases (k == name))
    where
      of_test :
          ((k == name) ≡ true) ⊎ ((k == name) ≡ false)
          → (if k == name then some (seen k) else lookup name m) ≡ some (seen name)
      of_test (inl e) = rw e (ap (λ n. some (seen n)) (eq_of_beq k name e))
      of_test (inr n) = rw n h

  Holds-new : (m : Dict String FileSnapshot) (k : String) → Holds (insert k (seen k) m) k
  Holds-new m k = stego.Prelude.Dict.lookup-insert_self k (seen k) m

  add_generated-Grows :
      (out : String) (f : GenFile) (p : Progress)
      → Grows p (add_generated codec out f (seen (project_file_path out f.path)) p)
  add_generated-Grows out f p = record {
    planned = λ g i. In-append_left _ i;
    snapshots = λ n h. Holds-insert p.snapshots (project_file_path out f.path) n h;
  }

  add_orphan-Grows :
      (out path : String) (p : Progress)
      → Grows p (add_orphan out path (seen (project_file_path out path)) p)
  add_orphan-Grows out path p = record {
    planned = λ g i. In-append_left _ i;
    snapshots = λ n h. Holds-insert p.snapshots (project_file_path out path) n h;
  }

  -- A file that a loop has planned, with its snapshot.
  abbrev pub IsPlanned : String → List PlannedFile → Dict String FileSnapshot → PlannedFile → Type 0
  IsPlanned out planned snapshots f = In f planned × Holds snapshots (project_file_path out f.path)

  pub IsPlanned-Grows :
      (out : String) (p q : Progress) (f : PlannedFile)
      → Grows p q
      → IsPlanned out p.planned p.snapshots f
      → IsPlanned out q.planned q.snapshots f
  IsPlanned-Grows out p q f g (i, h) = (g.planned f i, g.snapshots (project_file_path out f.path) h)

  -- The entry of a generated file.
  abbrev pub entry_of : String → GenFile → PlannedFile
  entry_of out f = record {
    path = f.path;
    action = action_of (seen (project_file_path out f.path)) (file_hash codec f);
  }

  abbrev pub deletion_of : String → PlannedFile
  deletion_of path = record { path = path; action = Action.delete }

  pub plan_file-ok :
      (out : String) (f : GenFile) (p q : Progress)
      → plan_file codec d out f p ≡ ok q
      → add_generated codec out f (seen (project_file_path out f.path)) p ≡ q
  unfolding plan_file
  plan_file-ok out f p q h =
      let name = project_file_path out f.path in
      let m = read_snapshot hash_bytes d name max_tracked_file_bytes in
      let (_, h₁) =
        require-step (leb (length (file_bytes codec.utf8 f)) max_tracked_file_bytes)
          (PlanFault.too_large f.path) _ h in
      let (found, reads, h₂) =
        >>=-eq-ok (lift_read m) (λ found. ok (add_generated codec out f found.1 p)) h₁ in
      let state =
        read_snapshot-state hash_bytes d name max_tracked_file_bytes found (lift_read-ok m reads) in
      let e : add_generated codec out f found.1 p ≡ q = cc in
      ap (λ s. add_generated codec out f s p) (sym state) ∙ e

  plan_files-Grows :
      (out : String) (fs : List GenFile) (p q : Progress)
      → plan_files codec d out fs p ≡ ok q
      → Grows p q
  unfolding plan_files
  plan_files-Grows out [] p q h = let e : p ≡ q = cc in subst (Grows p) e (Grows-refl p)
  plan_files-Grows out (f ∷ fs) p q h =
      let (next, first, rest) =
        >>=-eq-ok (plan_file codec d out f p) (plan_files codec d out fs) h in
      Grows-trans (subst (Grows p) (plan_file-ok out f p next first) (add_generated-Grows out f p))
        (plan_files-Grows out fs next q rest)

  pub plan_files-IsPlanned :
      (out : String) (fs : List GenFile) (p q : Progress)
      → plan_files codec d out fs p ≡ ok q
      → (f : GenFile) → In f fs
      → IsPlanned out q.planned q.snapshots (entry_of out f)
  unfolding plan_files
  plan_files-IsPlanned out [] p q h f i = elim i [ ]
  plan_files-IsPlanned out (g ∷ fs) p q h f i =
      let (next, first, rest) =
        >>=-eq-ok (plan_file codec d out g p) (plan_files codec d out fs) h in
      let here : IsPlanned out next.planned next.snapshots (entry_of out g) =
        subst (λ n. IsPlanned out n.planned n.snapshots (entry_of out g))
          (plan_file-ok out g p next first)
          (
            In-append_right p.planned In.here,
            Holds-new p.snapshots (project_file_path out g.path),
          ) in
      In-cons (λ k. IsPlanned out q.planned q.snapshots (entry_of out k))
        (IsPlanned-Grows out next q (entry_of out g) (plan_files-Grows out fs next q rest) here)
        (λ k j. plan_files-IsPlanned out fs next q rest k j) f i

  -- A path that is not generated has no new digest.
  pub plan_files-hashes :
      (out : String) (fs : List GenFile) (p q : Progress) (path : String)
      → plan_files codec d out fs p ≡ ok q
      → ((f : GenFile) → In f fs → f.path ≢ path)
      → lookup path q.hashes ≡ lookup path p.hashes
  unfolding plan_files
  plan_files-hashes out [] p q path h away =
      let e : p ≡ q = cc in ap (λ r. lookup path r.hashes) (sym e)
  plan_files-hashes out (f ∷ fs) p q path h away =
      let (next, first, rest) =
        >>=-eq-ok (plan_file codec d out f p) (plan_files codec d out fs) h in
      plan_files-hashes out fs next q path rest (λ g i. away g (In.there i))
      ∙ (ap (λ r. lookup path r.hashes) (sym (plan_file-ok out f p next first)) ∙ other)
    where
      other :
          lookup path (
            if is_project_root_file f.path
            then p.hashes
            else insert f.path (file_hash codec f) p.hashes)
          ≡ lookup path p.hashes
      other = elim (Bool-cases (is_project_root_file f.path)) [
        | inl root ↦ rw root refl
        | inr own ↦
            rw
              (
                own,
                lookup-insert f.path path (file_hash codec f) p.hashes,
                beq_ne f.path path (away f In.here),
              )
              refl
      ]

  delete_file-ok :
      (out path : String) (p q : Progress)
      → delete_file codec d out path p ≡ ok q
      → add_orphan out path (seen (project_file_path out path)) p ≡ q
  delete_file-ok out path p q h =
      let name = project_file_path out path in
      let m = read_snapshot hash_bytes d name max_tracked_file_bytes in
      let (found, reads, h₂) =
        >>=-eq-ok (lift_read m) (λ found. ok (add_orphan out path found.1 p)) h in
      let state =
        read_snapshot-state hash_bytes d name max_tracked_file_bytes found (lift_read-ok m reads) in
      let e : add_orphan out path found.1 p ≡ q = cc in
      ap (λ s. add_orphan out path s p) (sym state) ∙ e

  -- What one round of the second loop does.
  pub plan_orphan-cases :
      (out path : String) (p q : Progress)
      → plan_orphan codec d out path p ≡ ok q
      → (((is_project_root_file path || is_held (lookup path p.hashes)) ≡ true) × (p ≡ q))
        ⊎ (add_orphan out path (seen (project_file_path out path)) p ≡ q)
  unfolding plan_orphan
  plan_orphan-cases out path p q h =
      elim (Bool-cases (is_project_root_file path || is_held (lookup path p.hashes))) [
        | inl kept ↦ let k = rw kept at h in inl (kept, cc)
        | inr gone ↦ inr (delete_file-ok out path p q (rw gone at h))
      ]

  plan_orphan-hashes :
      (out path : String) (p q : Progress)
      → plan_orphan codec d out path p ≡ ok q
      → q.hashes ≡ p.hashes
  plan_orphan-hashes out path p q h = elim (plan_orphan-cases out path p q h) [
    | inl (_, e) ↦ ap (λ r. r.hashes) (sym e)
    | inr e ↦ ap (λ r. r.hashes) (sym e)
  ]

  plan_orphan-Grows :
      (out path : String) (p q : Progress) → plan_orphan codec d out path p ≡ ok q → Grows p q
  plan_orphan-Grows out path p q h = elim (plan_orphan-cases out path p q h) [
    | inl (_, e) ↦ subst (Grows p) e (Grows-refl p)
    | inr e ↦ subst (Grows p) e (add_orphan-Grows out path p)
  ]

  pub plan_orphans-Grows :
      (out : String) (paths : List String) (p q : Progress)
      → plan_orphans codec d out paths p ≡ ok q
      → Grows p q
  unfolding plan_orphans
  plan_orphans-Grows out [] p q h = let e : p ≡ q = cc in subst (Grows p) e (Grows-refl p)
  plan_orphans-Grows out (path ∷ paths) p q h =
      let (next, first, rest) =
        >>=-eq-ok (plan_orphan codec d out path p) (plan_orphans codec d out paths) h in
      Grows-trans (plan_orphan-Grows out path p next first)
        (plan_orphans-Grows out paths next q rest)

  plan_orphan-IsPlanned :
      (out path : String) (p q : Progress)
      → plan_orphan codec d out path p ≡ ok q
      → is_project_root_file path ≡ false
      → lookup path p.hashes ≡ none
      → IsPlanned out q.planned q.snapshots (deletion_of path)
  plan_orphan-IsPlanned out path p q h own gone = elim (plan_orphan-cases out path p q h) [
    | inl (kept, _) ↦
        let k : (is_project_root_file path || is_held (lookup path p.hashes)) ≡ false =
          rw (own, gone) refl in
        cc
    | inr e ↦
        subst (λ n. IsPlanned out n.planned n.snapshots (deletion_of path)) e
          (In-append_right p.planned In.here, Holds-new p.snapshots (project_file_path out path))
  ]

  pub plan_orphans-IsPlanned :
      (out : String) (paths : List String) (p q : Progress) (path : String)
      → plan_orphans codec d out paths p ≡ ok q
      → is_project_root_file path ≡ false
      → lookup path p.hashes ≡ none
      → In path paths
      → IsPlanned out q.planned q.snapshots (deletion_of path)
  unfolding plan_orphans
  plan_orphans-IsPlanned out [] p q path h own gone i = elim i [ ]
  plan_orphans-IsPlanned out (x ∷ paths) p q path h own gone i =
      let (next, first, rest) =
        >>=-eq-ok (plan_orphan codec d out x p) (plan_orphans codec d out paths) h in
      let still = ap (λ m. lookup path m) (plan_orphan-hashes out x p next first) ∙ gone in
      In-cons
        (λ y.
          is_project_root_file y ≡ false
          → lookup y p.hashes ≡ none
          → lookup y next.hashes ≡ none
          → IsPlanned out q.planned q.snapshots (deletion_of y))
        (λ a b c.
          IsPlanned-Grows out next q (deletion_of x) (plan_orphans-Grows out paths next q rest)
            (plan_orphan-IsPlanned out x p next first a b))
        (λ y j a b c. plan_orphans-IsPlanned out paths next q y rest a c j) path i own gone still
