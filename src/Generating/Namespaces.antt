-- ===== src/Generating/Namespaces.antt =====
-- The output namespaces of components: `validateComponentNamespaces` of
-- internal/compiler/namespace.go. `lower` is `unicode.ToLower`, which `strings.ToLower` takes of every
-- character.
use stego.Prelude.{
  ℕ, String, ◌≡◌, ◌≢◌, refl, beq_refl, arith, append-nil, append_assoc, Bool, true, false, not,
  ◌&&◌, ◌||◌, List, [], ◌∷◌, ◌++◌, Option, none, some, ◌==◌, string_eq, nat_eq, if◌then◌else◌, map,
  In, In-cons, append-empty, Bool-cases, inl, inr,
}
use stego.Prelude.Dict.{lookup}
use stego.Prelude.Sort.{sorted_keys}
use stego.Registry.{Component}
use stego.Ports.{Components}
use stego.Generating.Paths.{codes, valid_path}

abbrev starts_with : List ℕ → List ℕ → Bool
starts_with s [] = true
starts_with [] (c ∷ p) = false
starts_with (d ∷ s) (c ∷ p) = d == c && starts_with s p

abbrev same_text : List ℕ → List ℕ → Bool
same_text [] [] = true
same_text [] (c ∷ t) = false
same_text (d ∷ s) [] = false
same_text (d ∷ s) (c ∷ t) = d == c && same_text s t

same_text_refl : (s : List ℕ) → same_text s s ≡ true
same_text_refl [] = refl
same_text_refl (c ∷ s) = rw (beq_refl c) (same_text_refl s)

same_text-eq : (s t : List ℕ) → s ≡ t → same_text s t ≡ true
same_text-eq s t e = rw (← e) (same_text_refl s)

starts_with_self : (s below : List ℕ) → starts_with (s ++ b'/' ∷ below) (s ++ b'/' ∷ []) ≡ true
starts_with_self [] below = refl
starts_with_self (c ∷ s) below = rw (beq_refl c) (starts_with_self s below)

starts_with-append :
    (s t below : List ℕ) → t ≡ s ++ b'/' ∷ below → starts_with t (s ++ b'/' ∷ []) ≡ true
starts_with-append s t below e = rw e (starts_with_self s below)

abbrev contracts : List ℕ
contracts = codes "contracts"

pub data NamespaceFault : Type 0 where
  bad_path : String → NamespaceFault
  compiler_owned : String → NamespaceFault
  overlapping : String → String → NamespaceFault

abbrev namespace_of : Option Component → String
namespace_of none = ""
namespace_of (some c) = c.output_namespace

-- The namespace of a component of the map.
abbrev pub namespace : Components → String → String
namespace components name = namespace_of (lookup name components)

module _ (lower : ℕ → ℕ) where
  abbrev lower_codes : String → List ℕ
  lower_codes s = map lower (codes s)

  abbrev is_compiler_owned : String → Bool
  is_compiler_owned namespace =
      same_text (lower_codes namespace) contracts
      || starts_with (lower_codes namespace) (contracts ++ b'/' ∷ [])

  abbrev pub overlap : String → String → Bool
  overlap previous namespace =
      not (previous == "")
      && (same_text (lower_codes previous) (lower_codes namespace)
          || starts_with (lower_codes previous) (lower_codes namespace ++ b'/' ∷ [])
          || starts_with (lower_codes namespace) (lower_codes previous ++ b'/' ∷ []))

  -- The loop over the names before a name.
  unfoldable pub overlaps : Components → String → List String → List NamespaceFault
  overlaps components name [] = []
  overlaps components name (other ∷ others) =
      (if overlap (namespace components other) (namespace components name)
        then overlapping other name ∷ []
        else [])
      ++ overlaps components name others

  unfoldable pub name_faults : Components → List String → String → List NamespaceFault
  name_faults components earlier name =
      if namespace components name == ""
      then []
      else (if not (valid_path (namespace components name))
          then bad_path name ∷ []
          else (if is_compiler_owned (namespace components name)
              then compiler_owned name ∷ []
              else overlaps components name earlier))

  unfoldable pub namespace_faults : Components → List String → List String → List NamespaceFault
  namespace_faults components earlier [] = []
  namespace_faults components earlier (name ∷ names) =
      name_faults components earlier name
      ++ namespace_faults components (earlier ++ name ∷ []) names

  -- `validateComponentNamespaces`
  unfoldable pub validate_component_namespaces : Components → List NamespaceFault
  validate_component_namespaces components = namespace_faults components [] (sorted_keys components)

  -- What the test of two namespaces excludes.
  overlap-false :
      (previous next : String) (below : List ℕ)
      → (previous == "") ≡ false
      → overlap previous next ≡ false
      → (lower_codes previous ≢ lower_codes next)
        × (lower_codes previous ≢ lower_codes next ++ b'/' ∷ below)
        × (lower_codes next ≢ lower_codes previous ++ b'/' ∷ below)
  overlap-false previous next below stated h =
      let (same, above, under) = three (previous == "") _ _ _ stated h in
      (
        λ e. differ same (same_text-eq (lower_codes previous) (lower_codes next) e),
        λ e. differ above (starts_with-append (lower_codes next) (lower_codes previous) below e),
        λ e. differ under (starts_with-append (lower_codes previous) (lower_codes next) below e),
      )
    where
      three :
          (a b c d : Bool)
          → a ≡ false
          → not a && (b || c || d) ≡ false
          → (b ≡ false) × (c ≡ false) × (d ≡ false)
      three a b c d p q = ground arith

      differ : {b : Bool} → b ≡ false → b ≢ true
      differ p q = cc

  overlaps-empty :
      (components : Components) (name other : String) (earlier : List String)
      → overlaps components name earlier ≡ []
      → In other earlier
      → overlap (namespace components other) (namespace components name) ≡ false
  unfolding overlaps
  overlaps-empty components name other [] h i = elim i [ ]
  overlaps-empty components name other (o ∷ os) h i =
      elim (Bool-cases (overlap (namespace components o) (namespace components name))) [
        | inl bad ↦ let k = rw bad at h in cc
        | inr fine ↦
            In-cons (λ x. overlap (namespace components x) (namespace components name) ≡ false) fine
              (λ x j. overlaps-empty components name x os (rw fine at h) j) other i
      ]

  name_faults-empty :
      (components : Components) (earlier : List String) (name other : String)
      → name_faults components earlier name ≡ []
      → (namespace components name == "") ≡ false
      → In other earlier
      → overlap (namespace components other) (namespace components name) ≡ false
  unfolding name_faults
  name_faults-empty components earlier name other h stated i =
      elim (Bool-cases (valid_path (namespace components name))) [
        | inr bad ↦ let k = rw (stated, bad) at h in cc
        | inl fine ↦ elim (Bool-cases (is_compiler_owned (namespace components name))) [
          | inl owned ↦ let k = rw (stated, fine, owned) at h in cc
          | inr free ↦ overlaps-empty components name other earlier (rw (stated, fine, free) at h) i
        ]
      ]

  -- The names of a list that come before a place of another.
  namespace_faults-empty :
      (components : Components) (earlier before after : List String) (name other : String)
      → namespace_faults components earlier (before ++ name ∷ after) ≡ []
      → (namespace components name == "") ≡ false
      → In other (earlier ++ before)
      → overlap (namespace components other) (namespace components name) ≡ false
  unfolding namespace_faults
  namespace_faults-empty components earlier [] after name other h stated i =
      let (first, _) =
        append-empty (name_faults components earlier name)
          (namespace_faults components (earlier ++ name ∷ []) after) h in
      name_faults-empty components earlier name other first stated (rw (append-nil earlier) at i)
  namespace_faults-empty components earlier (b ∷ bs) after name other h stated i =
      let (_, rest) =
        append-empty (name_faults components earlier b)
          (namespace_faults components (earlier ++ b ∷ []) (bs ++ name ∷ after)) h in
      namespace_faults-empty components (earlier ++ b ∷ []) bs after name other rest stated
        (rw (append_assoc earlier (b ∷ []) bs) i)

  -- When the check of the namespaces passes, the namespace of a component and that of a component
  -- whose name comes before it, both stated, are two folders in lower case of which neither is the other
  -- nor stands below the other, at any depth.
  pub validate_component_namespaces_sound :
      (components : Components) (before after : List String) (name other : String) (below : List ℕ)
      → validate_component_namespaces components ≡ []
      → sorted_keys components ≡ before ++ name ∷ after
      → (namespace components name == "") ≡ false
      → (namespace components other == "") ≡ false
      → In other before
      → (map lower (codes (namespace components other))
          ≢ map lower (codes (namespace components name)))
        × (map lower (codes (namespace components other))
            ≢ map lower (codes (namespace components name)) ++ b'/' ∷ below)
        × (map lower (codes (namespace components name))
            ≢ map lower (codes (namespace components other)) ++ b'/' ∷ below)
  unfolding validate_component_namespaces
  validate_component_namespaces_sound components before after name other below h order stated
        stated' i =
      overlap-false (namespace components other) (namespace components name) below stated'
        (namespace_faults-empty components [] before after name other (rw order at h) stated i)
