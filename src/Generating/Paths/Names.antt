-- ===== src/Generating/Paths/Names.antt =====
-- The paths of generated files in the project, for `projectFilePath` and `outputRelative` of
-- internal/compiler/filesystem.go: they are distinct, and none is in a reserved folder.
use Prim.Native.Char.{code}
use Prim.Native.String
use Prim.Native.String.append
use text.Mathlib.TextLemmas.{append_cancel_left}
use stego.Prelude.{
  String, ◌≡◌, ◌≢◌, refl, sym, ap, true, false, [], ◌∷◌, map, arith, ◌∙◌, nat_eq, ◌==◌,
  if◌then◌else◌, any, Bool-cases, inl, inr, string_eq, eq_of_beq,
}
use stego.Generating.Paths.{
  codes, before, to_lower, reserved, same_codes, slash, output_relative, project_file_path,
  is_project_root_file,
}

-- The folder that a path below `out` begins with is the one that `out` begins with.
before-slash : (out name : String) → before b'/' (codes (slash out name)) ≡ before b'/' (codes out)
unfolding before
before-slash String.[] name =
    ap (λ t. before b'/' (codes t))
      (append.nil (Prim.Native.String.◌++◌ "/" name) ∙ append.cons "/" "" name)
before-slash (String.◌∷◌ c s) name =
    ap (λ t. before b'/' (codes t)) (append.cons c s (Prim.Native.String.◌++◌ "/" name))
    ∙ ap (λ rest. if code c == b'/' then [] else code c ∷ rest) (before-slash s name)

-- A name in a reserved folder is no path below the output folder.
unfoldable pub IsReserved : String → Type 0
unfolding to_lower before reserved same_codes
IsReserved name = any (same_codes (map to_lower (before b'/' (codes name)))) reserved ≡ true

pub output_relative-free :
    (out name : String)
    → output_relative out ≡ true
    → IsReserved name
    → (path : String) → slash out path ≢ name
unfolding output_relative IsReserved
output_relative-free out name valid held path e =
    let same : before b'/' (codes out) ≡ before b'/' (codes name) =
      sym (before-slash out path) ∙ ap (λ n. before b'/' (codes n)) e in
    let free : any (same_codes (map to_lower (before b'/' (codes out)))) reserved ≡ false =
      ground arith in
    cc (ap (λ b. any (same_codes (map to_lower b)) reserved) same, free, held)

go_mod-IsReserved : IsReserved "go.mod"
unfolding IsReserved
go_mod-IsReserved = refl

go_sum-IsReserved : IsReserved "go.sum"
unfolding IsReserved
go_sum-IsReserved = refl

root-IsReserved : (name : String) → is_project_root_file name ≡ true → IsReserved name
unfolding is_project_root_file
root-IsReserved name root = elim (Bool-cases (name == "go.mod")) [
  | inl e ↦ rw (← eq_of_beq name "go.mod" e) at go_mod-IsReserved
  | inr n ↦
      let e : (name == "go.sum") ≡ true = ground arith in
      rw (← eq_of_beq name "go.sum" e) at go_sum-IsReserved
]

slash-injective : (out a b : String) → slash out a ≡ slash out b → a ≡ b
slash-injective out a b e =
    append_cancel_left "/" a b
      (append_cancel_left out (Prim.Native.String.◌++◌ "/" a) (Prim.Native.String.◌++◌ "/" b) e)

pub project_file_path-root :
    (out a : String) → is_project_root_file a ≡ true → project_file_path out a ≡ a
unfolding project_file_path
project_file_path-root out a h = rw h

pub project_file_path-below :
    (out a : String) → is_project_root_file a ≡ false → project_file_path out a ≡ slash out a
unfolding project_file_path
project_file_path-below out a h = rw h

-- Two generated paths with one place in the project are the same path.
pub project_file_path-injective :
    (out a b : String)
    → output_relative out ≡ true
    → project_file_path out a ≡ project_file_path out b
    → a ≡ b
project_file_path-injective out a b valid e = elim (Bool-cases (is_project_root_file a)) [
  | inl root_a ↦ elim (Bool-cases (is_project_root_file b)) [
    | inl root_b ↦
        sym (project_file_path-root out a root_a) ∙ e ∙ project_file_path-root out b root_b
    | inr below_b ↦ absurd (
        output_relative-free out a valid (root-IsReserved a root_a) b (
          sym (
            sym (project_file_path-root out a root_a) ∙ e ∙ project_file_path-below out b below_b)))
  ]
  | inr below_a ↦ elim (Bool-cases (is_project_root_file b)) [
    | inl root_b ↦ absurd (
        output_relative-free out b valid (root-IsReserved b root_b) a
          (sym (project_file_path-below out a below_a) ∙ e ∙ project_file_path-root out b root_b))
    | inr below_b ↦
        slash-injective out a b
          (sym (project_file_path-below out a below_a) ∙ e ∙ project_file_path-below out b below_b)
  ]
]

-- No generated file has a reserved name that is not a module file.
pub project_file_path-free :
    (out a name : String)
    → output_relative out ≡ true
    → IsReserved name
    → is_project_root_file name ≡ false
    → project_file_path out a ≢ name
project_file_path-free out a name valid held own e = elim (Bool-cases (is_project_root_file a)) [
  | inl root ↦
      let same : a ≡ name = sym (project_file_path-root out a root) ∙ e in
      cc (ap is_project_root_file same, root, own)
  | inr below ↦
      output_relative-free out name valid held a (sym (project_file_path-below out a below) ∙ e)
]
