-- ===== src/Generating/Paths.antt =====
-- `ValidatePath` of internal/gen/gen.go, and the paths of internal/compiler/filesystem.go,
-- reconciler.go and transaction.go. A path is a text, and its tests walk its code points; the
-- names that `strings.ToUpper` is compared with are ASCII.
pub mod Names
use Prim.Native.Char.{code}
use Prim.Native.String
use stego.Prelude.{
  ℕ, ◌+◌, ◌-◌, String, Bool, true, false, not, ◌&&◌, ◌||◌, List, [], ◌∷◌, ◌++◌, map, ◌≡◌, refl,
  ◌==◌, string_eq, nat_eq, leb, ltb, if◌then◌else◌, Outcome, ok, err, any, contains, is_empty,
  require, ◌>>◌,
}
pub use stego.Prelude.Text.{trim_prefix}
use stego.Prelude.Text.{has_prefix, trim_prefix, is_lower}

abbrev pub codes : String → List ℕ
codes String.[] = []
codes (String.◌∷◌ c s) = code c ∷ codes s

-- `strings.Split` at one byte
cut : ℕ → List ℕ → List ℕ → List (List ℕ)
cut sep cur [] = cur ∷ []
cut sep cur (c ∷ s) = elim (c == sep) [
  | true ↦ cur ∷ cut sep [] s
  | false ↦ cut sep (cur ++ c ∷ []) s
]

-- the part before the first `sep`
before : ℕ → List ℕ → List ℕ
before sep [] = []
before sep (c ∷ s) = let rest = before sep s in if c == sep then [] else c ∷ rest

ends_with : ℕ → List ℕ → Bool
ends_with d [] = false
ends_with d (c ∷ []) = c == d
ends_with d (c ∷ e ∷ s) = ends_with d (e ∷ s)

to_upper : ℕ → ℕ
to_upper c = if is_lower c then c - 32 else c

unfoldable pub same_codes : List ℕ → List ℕ → Bool
same_codes [] [] = true
same_codes (c ∷ s) (d ∷ t) = c == d && same_codes s t
same_codes _ _ = false

-- `COM1` to `COM9` and `LPT1` to `LPT9`
is_numbered_device : List ℕ → Bool
unfolding same_codes
is_numbered_device (a ∷ b ∷ c ∷ d ∷ []) =
    (same_codes (a ∷ b ∷ c ∷ []) (codes "COM") || same_codes (a ∷ b ∷ c ∷ []) (codes "LPT"))
    && leb b'1' d
    && leb d b'9'
is_numbered_device _ = false

is_device : List ℕ → Bool
unfolding same_codes is_numbered_device
is_device base =
    same_codes base (codes "CON")
    || same_codes base (codes "PRN")
    || same_codes base (codes "AUX")
    || same_codes base (codes "NUL")
    || is_numbered_device base

-- A part that is empty, `.` or `..` makes `fs.ValidPath` fail; the last two end in a dot.
invalid_part : List ℕ → Bool
unfolding ends_with before to_upper is_device
invalid_part part =
    is_empty part
    || ends_with b'.' part
    || ends_with b' ' part
    || is_device (map to_upper (before b'.' part))

forbidden : ℕ → Bool
forbidden c = contains (codes "\\:<>\"|?*") c || ltb c 32 || c == 127

unfoldable pub valid_path : String → Bool
unfolding cut invalid_part forbidden
valid_path name =
    not (any forbidden (codes name)) && not (any invalid_part (cut b'/' [] (codes name)))

abbrev pub state_path : String
state_path = ".stego/state.yaml"

unfoldable pub is_project_root_file : String → Bool
is_project_root_file path = path == "go.mod" || path == "go.sum"

abbrev pub slash : String → String → String
slash dir name = Prim.Native.String.◌++◌ dir (Prim.Native.String.◌++◌ "/" name)

-- `strings.HasPrefix(name, dir+"/")`
unfoldable pub is_below : String → String → Bool
unfolding has_prefix
is_below dir name = has_prefix name (slash dir "")

unfoldable pub project_file_path : String → String → String
unfolding is_project_root_file
project_file_path out_dir name = if is_project_root_file name then name else slash out_dir name

pub data PathFault : Type 0 where
  not_canonical : String → PathFault
  outside_output : String → PathFault

check_path : String → Outcome PathFault (Unit {0})
unfolding valid_path
check_path name = require (valid_path name) (PathFault.not_canonical name)

unfoldable pub validate_transaction_path : String → String → Outcome PathFault (Unit {0})
unfolding check_path is_project_root_file is_below trim_prefix
validate_transaction_path output_dir name = do
  check_path name
  if is_project_root_file name || name == state_path
      then ok tt
      else if is_below output_dir name
      then check_path (trim_prefix name (slash output_dir ""))
      else err (PathFault.outside_output name)

-- `unicode.ToLower` where it gives an ASCII letter: on the capital letters, on U+0130 and on U+212A.
to_lower : ℕ → ℕ
to_lower c =
    if leb b'A' c && leb c b'Z'
    then c + 32
    else (if c == 304 then b'i' else (if c == 8490 then b'k' else c))

reserved : List (List ℕ)
reserved =
    codes "fills"
    ∷ codes ".stego"
    ∷ codes ".git"
    ∷ codes "go.mod"
    ∷ codes "go.sum"
    ∷ codes "service.yaml"
    ∷ []

-- `outputRelative`: the output folder is below the project, and not a reserved one. The path is
-- relative to the project folder already.
unfoldable pub output_relative : String → Bool
unfolding valid_path same_codes before to_lower reserved
output_relative relative =
    valid_path relative
    && not (any (same_codes (map to_lower (before b'/' (codes relative)))) reserved)

-- The folders above a path: its prefixes before each slash.
parents : List ℕ → List ℕ → List (List ℕ)
parents done [] = []
parents done (c ∷ s) =
    let rest = parents (done ++ c ∷ []) s in if c == b'/' then done ∷ rest else rest

holds : List (List ℕ) → List ℕ → Bool
unfolding same_codes
holds keys key = any (same_codes key) keys

distinct : List (List ℕ) → Bool
unfolding holds
distinct [] = true
distinct (key ∷ keys) = not (holds keys key) && distinct keys

-- `validateFileLayout` of internal/compiler/namespace.go: no two names that differ in case alone,
-- and no file where another one has a folder. `lower` is `unicode.ToLower`.
unfoldable pub valid_layout : (ℕ → ℕ) → List String → Bool
unfolding distinct holds parents
valid_layout lower names =
    let keys = map (λ n. map lower (codes n)) names in
    distinct keys && not (any (λ key. any (holds keys) (parents [] key)) keys)

layout_tests :
    (valid_layout to_lower ("out/a.go" ∷ "out/b/a.go" ∷ []) ≡ true)
    × (valid_layout to_lower ("out/a.go" ∷ "out/A.go" ∷ []) ≡ false)
    × (valid_layout to_lower ("out/b" ∷ "out/b/a.go" ∷ []) ≡ false)
    × (output_relative "out/gen" ≡ true)
    × (output_relative "Fills/gen" ≡ false)
    × (output_relative "fİlls/gen" ≡ false)
unfolding valid_layout output_relative to_lower
layout_tests = (refl, refl, refl, refl, refl, refl)

path_tests :
    (valid_path "out/internal/api/router.go" ≡ true)
    × (valid_path "../etc/passwd" ≡ false)
    × (valid_path "/etc/passwd" ≡ false)
    × (valid_path "out//a" ≡ false)
    × (valid_path "out/com1.txt" ≡ false)
    × (valid_path "out/command" ≡ true)
    × (valid_path "" ≡ false)
unfolding valid_path
path_tests = (refl, refl, refl, refl, refl, refl, refl)
