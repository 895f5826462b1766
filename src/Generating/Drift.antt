-- ===== src/Generating/Drift.antt =====
-- Which generated files and inputs differ from the last apply: internal/compiler/drift.go. A loop of
-- `DetectDrift` stops at the first file that it cannot read.
use stego.Prelude.{
  ◌%◌, String, ◌≡◌, refl, sym, ap, subst, Bool, true, false, ◌&&◌, ◌||◌, not, List, [], ◌∷◌, Option,
  none, some, arith, ◌==◌, string_eq, nat_eq, bool_eq, if◌then◌else◌, Outcome, ok, err, require,
  require-step, is_empty, keep, In-keep, In, In-cons, ◌∙◌, eq_iff, ◌>>=◌, ◌>>◌,
}
use stego.Prelude.Dict.{Dict, lookup, keys, In-keys}
use stego.Prelude.Sort.{sort_texts, In-sort_texts}
use stego.Generating.Paths.{is_project_root_file, project_file_path, output_relative, state_path}
use stego.Generating.Snapshot.{
  Bytes, File, Disk, FileSnapshot, ReadFault, read_snapshot, read_snapshot-state,
  read_snapshot-file, snapshot_of, max_tracked_file_bytes,
}
use stego.Generating.State.{
  Codec, InputFile, InputManifest, AppliedState, State, StateFault, max_document_bytes,
  decode_state,
}
use stego.Generating.Transaction.{Transaction}
use stego.Generating.Execute.{Project}

-- `DriftResult`
pub record DriftResult : Type 0 where
  pub modified : List String
  pub deleted : List String
  pub inputs : List String

-- `HasDrift`
abbrev pub has_drift : DriftResult → Bool
has_drift r = not (is_empty r.modified) || not (is_empty r.deleted) || not (is_empty r.inputs)

pub data DriftFault : Type 0 where
  pending : DriftFault
  bad_output : DriftFault
  read : ReadFault → DriftFault
  no_state : DriftFault
  broken_state : StateFault → DriftFault

abbrev no_drift : DriftResult
no_drift = record { modified = []; deleted = []; inputs = [] }

-- A recorded file as its snapshot shows it.
abbrev add_file : String → Option String → FileSnapshot → DriftResult → DriftResult
add_file path recorded s r =
    if not s.present
    then record r { deleted = path ∷ r.deleted }
    else (if is_recorded recorded then r else record r { modified = path ∷ r.modified })
  where
    is_recorded : Option String → Bool
    is_recorded none = s.hash == ""
    is_recorded (some hash) = s.hash == hash

abbrev is_same_input : Option InputFile → FileSnapshot → Bool
is_same_input none s = not s.present && s.hash == "" && s.mode % 512 == 0
is_same_input (some f) s = s.present == f.present && s.hash == f.sha256 && s.mode % 512 == f.mode

abbrev add_input : String → Option InputFile → FileSnapshot → DriftResult → DriftResult
add_input name recorded s r =
    if is_same_input recorded s then r else record r { inputs = name ∷ r.inputs }

-- The names of a record that the application does not own.
abbrev pub own_names {ℓ} : {V : Type ℓ} → Dict String V → List String
own_names m = sort_texts (keep (λ n. not (is_project_root_file n)) (keys m))

module _ (hash_bytes : Bytes → String) where
  abbrev on_read :
      Outcome ReadFault (Option File × FileSnapshot)
      → (FileSnapshot → DriftResult → DriftResult)
      → Outcome DriftFault DriftResult
      → Outcome DriftFault DriftResult
  on_read (err e) add rest = err (DriftFault.read e)
  on_read (ok (_, s)) add rest = rest >>= λ r. ok (add s r)

  unfoldable pub input_drift :
      Disk → Dict String InputFile → List String → Outcome DriftFault DriftResult
  input_drift d files [] = ok no_drift
  input_drift d files (name ∷ names) =
      on_read (read_snapshot hash_bytes d name max_tracked_file_bytes)
        (add_input name (lookup name files)) (input_drift d files names)

  abbrev inputs_of : Disk → Option InputManifest → Outcome DriftFault DriftResult
  inputs_of d none = ok no_drift
  inputs_of d (some m) = input_drift d m.files (own_names m.files)

  -- The loop over the files, with the result of the loop over the inputs behind it.
  unfoldable pub file_drift :
      Disk
      → String
      → Dict String String
      → Outcome DriftFault DriftResult
      → List String
      → Outcome DriftFault DriftResult
  file_drift d out files behind [] = behind
  file_drift d out files behind (path ∷ paths) =
      on_read (read_snapshot hash_bytes d (project_file_path out path) max_tracked_file_bytes)
        (add_file path (lookup path files)) (file_drift d out files behind paths)

  unfoldable pub drift_of : Disk → String → AppliedState → Outcome DriftFault DriftResult
  unfolding input_drift
  drift_of d out applied =
      file_drift d out applied.files (inputs_of d applied.inputs) (own_names applied.files)

  on_read-ok :
      (m : Outcome ReadFault (Option File × FileSnapshot))
      (add : FileSnapshot → DriftResult → DriftResult) (rest : Outcome DriftFault DriftResult)
      (r : DriftResult)
      → on_read m add rest ≡ ok r
      → (found : Option File × FileSnapshot) × (others : DriftResult) × (m ≡ ok found)
        × (rest ≡ ok others)
        × (add found.1 others ≡ r)
  on_read-ok (err e) add rest r h = cc
  on_read-ok (ok found) add (err e) r h = cc
  on_read-ok (ok found) add (ok others) r h = (found, others, refl, refl, cc)

  -- What no drift tells of one file and of the others.
  add_file-clean :
      (path hash : String) (s : FileSnapshot) (r : DriftResult)
      → has_drift (add_file path (some hash) s r) ≡ false
      → (s.present ≡ true) × (s.hash ≡ hash)
  add_file-clean path hash s r h = ground (arith, eq_iff s.hash hash)

  add_file-others :
      (path : String) (recorded : Option String) (s : FileSnapshot) (r : DriftResult)
      → has_drift (add_file path recorded s r) ≡ false
      → has_drift r ≡ false
  add_file-others path none s r h = ground (arith, eq_iff s.hash "")
  add_file-others path (some hash) s r h = ground (arith, eq_iff s.hash hash)

  -- What a recorded file is on disk when nothing has drifted.
  abbrev pub IsOnDisk : Disk → String → String → Type 0
  IsOnDisk d name hash =
      ((snapshot_of hash_bytes (d.files name)).present ≡ true)
      × ((snapshot_of hash_bytes (d.files name)).hash ≡ hash)

  file_drift-clean :
      (d : Disk) (out : String) (files : Dict String String)
      (behind : Outcome DriftFault DriftResult) (paths : List String) (r : DriftResult)
      → file_drift d out files behind paths ≡ ok r
      → has_drift r ≡ false
      → (path hash : String) → lookup path files ≡ some hash
      → In path paths
      → IsOnDisk d (project_file_path out path) hash
  unfolding file_drift
  file_drift-clean d out files behind [] r h clean path hash known i = elim i [ ]
  file_drift-clean d out files behind (p ∷ ps) r h clean path hash known i =
      let m = read_snapshot hash_bytes d (project_file_path out p) max_tracked_file_bytes in
      let (found, others, reads, rest, e) =
        on_read-ok m (add_file p (lookup p files)) (file_drift d out files behind ps) r h in
      let state =
        read_snapshot-state hash_bytes d (project_file_path out p) max_tracked_file_bytes found
          reads in
      let still : has_drift (add_file p (lookup p files) found.1 others) ≡ false =
        ap has_drift e ∙ clean in
      In-cons (λ q. (x : String) → lookup q files ≡ some x → IsOnDisk d (project_file_path out q) x)
        (λ x k.
          let (present, same) =
            add_file-clean p x found.1 others
              (ap (λ o. has_drift (add_file p o found.1 others)) (sym k) ∙ still) in
          (ap (λ s. s.present) (sym state) ∙ present, ap (λ s. s.hash) (sym state) ∙ same))
        (λ q j x k.
          file_drift-clean d out files behind ps others rest
            (add_file-others p (lookup p files) found.1 others still) q x k j)
        path i hash known

  pub drift_of-clean :
      (d : Disk) (out : String) (applied : AppliedState) (r : DriftResult) (path hash : String)
      → drift_of d out applied ≡ ok r
      → has_drift r ≡ false
      → lookup path applied.files ≡ some hash
      → is_project_root_file path ≡ false
      → IsOnDisk d (project_file_path out path) hash
  unfolding drift_of
  drift_of-clean d out applied r path hash h clean known own =
      file_drift-clean d out applied.files (inputs_of d applied.inputs) (own_names applied.files) r
        h clean path hash known
        (In-sort_texts (keep (λ n. not (is_project_root_file n)) (keys applied.files)) (
          In-keep (λ n. not (is_project_root_file n)) (keys applied.files)
            (In-keys path applied.files known) (ap not own)))

module _ (codec : Codec) where
  open codec use {hash_bytes}

  abbrev drift_since : Disk → String → Option AppliedState → Outcome DriftFault DriftResult
  drift_since d out none = err DriftFault.no_state
  drift_since d out (some applied) = drift_of hash_bytes d out applied

  abbrev drift_decoded : Disk → String → Outcome StateFault State → Outcome DriftFault DriftResult
  drift_decoded d out (err e) = err (DriftFault.broken_state e)
  drift_decoded d out (ok state) = drift_since d out state.last_applied

  abbrev drift_record :
      Disk
      → String
      → Outcome ReadFault (Option File × FileSnapshot)
      → Outcome DriftFault DriftResult
  drift_record d out (err e) = err (DriftFault.read e)
  drift_record d out (ok (none, s)) = err DriftFault.no_state
  drift_record d out (ok (some f, s)) = drift_decoded d out (decode_state codec f.content)

  abbrev is_pending : Option Transaction → Bool
  is_pending none = false
  is_pending (some tx) = true

  -- `DetectDrift`, with the output folder as a path from the project.
  unfoldable pub detect_drift : Project → String → Outcome DriftFault DriftResult
  unfolding read_snapshot drift_of
  detect_drift p out = do
    require (not (is_pending p.journal)) DriftFault.pending
    require (output_relative out) DriftFault.bad_output
    drift_record p.disk out (read_snapshot hash_bytes p.disk state_path max_document_bytes)

  -- A drift check that reports no drift has found every generated file of the record on disk that the
  -- application does not own with the recorded digest, the record being the one that the state file of
  -- the project holds.
  pub detect_drift-clean :
      (p : Project) (out : String) (r : DriftResult) (f : File) (state : State)
      (applied : AppliedState) (path hash : String)
      → detect_drift p out ≡ ok r
      → has_drift r ≡ false
      → p.disk.files state_path ≡ some f
      → decode_state codec f.content ≡ ok state
      → state.last_applied ≡ some applied
      → lookup path applied.files ≡ some hash
      → is_project_root_file path ≡ false
      → IsOnDisk hash_bytes p.disk (project_file_path out path) hash
  unfolding detect_drift
  detect_drift-clean p out r f state applied path hash h clean at_state decodes last known own =
      let (_, h₁) = require-step (not (is_pending p.journal)) DriftFault.pending _ h in
      let (_, h₂) = require-step (output_relative out) DriftFault.bad_output _ h₁ in
      drift_of-clean hash_bytes p.disk out applied r path hash
        (of_read (read_snapshot hash_bytes p.disk state_path max_document_bytes) refl h₂) clean
        known own
    where
      of_state :
          (g : File)
          → some g ≡ some f
          → drift_decoded p.disk out (decode_state codec g.content) ≡ ok r
          → drift_of hash_bytes p.disk out applied ≡ ok r
      of_state g same k =
          let e : g ≡ f = cc in
          let k₁ =
            subst (λ x. drift_decoded p.disk out (decode_state codec x.content) ≡ ok r) e k in
          let k₂ = subst (λ x. drift_decoded p.disk out x ≡ ok r) decodes k₁ in
          subst (λ x. drift_since p.disk out x ≡ ok r) last k₂

      of_read :
          (m : Outcome ReadFault (Option File × FileSnapshot))
          → read_snapshot hash_bytes p.disk state_path max_document_bytes ≡ m
          → drift_record p.disk out m ≡ ok r
          → drift_of hash_bytes p.disk out applied ≡ ok r
      of_read (err e) reads k = cc
      of_read (ok (none, s)) reads k = cc
      of_read (ok (some g, s)) reads k =
          of_state g
            (read_snapshot-file hash_bytes p.disk state_path max_document_bytes (some g, s) reads
              ∙ at_state)
            k
