-- ===== src/Generating/Snapshot.antt =====
-- internal/compiler/snapshot.go, and what a project folder holds. A folder is the regular files at
-- their paths; `blocked` are the paths that `checkFileTarget` refuses (a link, a special file, a
-- parent that is no folder), which nothing here changes. Folders are made as files need them. A
-- write is one rename, so a file has its old content or its new one (filesystem.go).
use stego.Prelude.{
  ℕ, String, Bool, true, false, not, ◌&&◌, List, [], ◌∷◌, Option, none, some, ◌≡◌, ◌↔◌, arith, Eq,
  ◌==◌, string_eq, nat_eq, bool_eq, bool_beq_iff, eq_iff, ltb, leb, if◌then◌else◌, Outcome, ok, err,
  length, ◌>>=◌, ◌>>◌, Bool-cases, inl, inr,
}
use stego.Prelude.Dict.{Dict, lookup}
use stego.Prelude.Sort.{sorted_keys}
use stego.Prelude.Text.{all_codes, is_hex}
use Prim.Native.String.{len}

abbrev pub Bytes : Type 0
Bytes = List ℕ

-- `64 << 20`
abbrev pub max_tracked_file_bytes : ℕ
max_tracked_file_bytes = 67108864

-- The permission bits are `os.ModePerm`, 0777; `mode & ^os.ModePerm != 0` is `0777 < mode`.
abbrev pub mode_perm : ℕ
mode_perm = 511

pub record FileSnapshot : Type 0 where
  pub present : Bool
  pub hash : String
  pub mode : ℕ

-- the zero value, of a file that does not exist
abbrev pub no_file : FileSnapshot
no_file = record { present = false; hash = ""; mode = 0 }

abbrev pub snapshot_beq : FileSnapshot → FileSnapshot → Bool
snapshot_beq s t = s.present == t.present && s.hash == t.hash && s.mode == t.mode

pub snapshot_beq_iff : (s t : FileSnapshot) → (snapshot_beq s t ≡ true) ↔ (s ≡ t)
snapshot_beq_iff s t = ground (arith, eq_iff s.hash t.hash, bool_beq_iff s.present t.present)

instance abbrev pub snapshot_eq : Eq FileSnapshot
snapshot_eq = record { beq = snapshot_beq; beq_iff = snapshot_beq_iff }

-- A SHA-256 digest is 64 lower-case hexadecimal digits.
unfoldable pub valid_snapshot : FileSnapshot → Bool
unfolding all_codes
valid_snapshot s =
    if not s.present
    then s == no_file
    else len s.hash == 64 && leb s.mode mode_perm && all_codes is_hex s.hash

pub record File : Type 0 where
  pub content : Bytes
  pub mode : ℕ

pub record Disk : Type 0 where
  pub files : String → Option File
  pub blocked : String → Bool

pub data ReadFault : Type 0 where
  refused : String → ReadFault
  too_large : String → ReadFault
  changed : String → ReadFault

-- A file that a reader accepts, by its size.
abbrev pub fits : Option File → Bool
fits none = true
fits (some f) = leb (length f.content) max_tracked_file_bytes

-- The digest of a file's bytes is SHA-256, of the standard library.
module _ (hash_bytes : Bytes → String) where
  abbrev pub snapshot_of : Option File → FileSnapshot
  snapshot_of none = no_file
  snapshot_of (some f) = record { present = true; hash = hash_bytes f.content; mode = f.mode }

  abbrev pub within_limit :
      ℕ → String → Option File → Outcome ReadFault (Option File × FileSnapshot)
  within_limit limit name none = ok (none, no_file)
  within_limit limit name (some f) =
      if ltb limit (length f.content)
      then err (ReadFault.too_large name)
      else ok (some f, snapshot_of (some f))

  -- `readSnapshot`: the file and its snapshot.
  unfoldable pub read_snapshot : Disk → String → ℕ → Outcome ReadFault (Option File × FileSnapshot)
  read_snapshot d name limit =
      if d.blocked name
      then err (ReadFault.refused name)
      else within_limit limit name (d.files name)

  within_limit-state :
      (limit : ℕ) (name : String) (o : Option File) (r : Option File × FileSnapshot)
      → within_limit limit name o ≡ ok r
      → r.1 ≡ snapshot_of o
  within_limit-state limit name none r h = cc
  within_limit-state limit name (some f) r h = ground arith

  -- A successful read gives the snapshot of the file.
  pub read_snapshot-state :
      (d : Disk) (name : String) (limit : ℕ) (r : Option File × FileSnapshot)
      → read_snapshot d name limit ≡ ok r
      → r.1 ≡ snapshot_of (d.files name)
  unfolding read_snapshot
  read_snapshot-state d name limit r h = elim (Bool-cases (d.blocked name)) [
    | inl blocked ↦ let k = rw blocked at h in cc
    | inr free ↦ within_limit-state limit name (d.files name) r (rw free at h)
  ]

  within_limit-file :
      (limit : ℕ) (name : String) (o : Option File) (r : Option File × FileSnapshot)
      → within_limit limit name o ≡ ok r
      → r.0 ≡ o
  within_limit-file limit name none r h = cc
  within_limit-file limit name (some f) r h = ground arith

  -- A successful read gives the file.
  pub read_snapshot-file :
      (d : Disk) (name : String) (limit : ℕ) (r : Option File × FileSnapshot)
      → read_snapshot d name limit ≡ ok r
      → r.0 ≡ d.files name
  unfolding read_snapshot
  read_snapshot-file d name limit r h = elim (Bool-cases (d.blocked name)) [
    | inl blocked ↦ let k = rw blocked at h in cc
    | inr free ↦ within_limit-file limit name (d.files name) r (rw free at h)
  ]

  abbrev pub same_snapshot :
      String → Option FileSnapshot → Option File × FileSnapshot → Outcome ReadFault (Unit {0})
  same_snapshot name none (_, actual) = err (ReadFault.changed name)
  same_snapshot name (some expected) (_, actual) =
      if actual == expected then ok tt else err (ReadFault.changed name)

  unfoldable pub verify_names :
      Disk → Dict String FileSnapshot → List String → Outcome ReadFault (Unit {0})
  verify_names d snapshots [] = ok tt
  verify_names d snapshots (name ∷ names) =
      let rest = verify_names d snapshots names in
      do
        actual ← read_snapshot d name max_tracked_file_bytes
        same_snapshot name (lookup name snapshots) actual
        rest

  -- `verifySnapshots`
  unfoldable pub verify_snapshots : Disk → Dict String FileSnapshot → Outcome ReadFault (Unit {0})
  verify_snapshots d snapshots = verify_names d snapshots (sorted_keys snapshots)
