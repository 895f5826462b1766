-- ===== src/Generating/Planning/EntityDiff.antt =====
-- What an empty difference of the entities means, for `computeEntityChanges` of
-- internal/compiler/reconciler.go.
use stego.Prelude.{
  String, ◌≡◌, ◌≢◌, refl, sym, subst, Bool, true, false, not, ◌&&◌, List, [], ◌∷◌, Option, none,
  some, arith, map, ◌==◌, string_eq, if◌then◌else◌, In, In-cons, ◌∙◌, ◌⊎◌, inl, inr, Bool-cases,
  eq_of_beq, is_empty, keep, append-empty,
}
use stego.Prelude.Dict.{Dict, lookup, insert, lookup-insert}
use stego.Generating.Snapshot.{Bytes}
use stego.Generating.State.{EntityFieldState}
use stego.Generating.Planning.Types.{Field, Entity}
use stego.Generating.Planning.Entities.{
  by_name, FieldChanges, diff_field, diff_fields, change_of, current_changes,
  compute_entity_changes, names_field, was,
}

-- A field of a map by name stands in the list, or was in the map before.
by_name-In :
    (fs : List EntityFieldState) (m : Dict String EntityFieldState) (name : String)
    (o : EntityFieldState)
    → lookup name (by_name fs m) ≡ some o
    → (In o fs × (o.name ≡ name)) ⊎ (lookup name m ≡ some o)
unfolding by_name
by_name-In [] m name o h = inr h
by_name-In (f ∷ fs) m name o h = elim (by_name-In fs (insert f.name f m) name o h) [
  | inl (i, e) ↦ inl (In.there i, e)
  | inr held ↦ of_test (Bool-cases (f.name == name)) (sym (lookup-insert f.name name f m) ∙ held)
]
  where
    of_test :
        ((f.name == name) ≡ true) ⊎ ((f.name == name) ≡ false)
        → (if f.name == name then some f else lookup name m) ≡ some o
        → (In o (f ∷ fs) × (o.name ≡ name)) ⊎ (lookup name m ≡ some o)
    of_test (inl e) k =
        let s : some f ≡ some o = rw e at k in
        let same : f ≡ o = cc in
        inl (
          subst (λ (x : EntityFieldState). In x (f ∷ fs)) same In.here,
          subst (λ (x : EntityFieldState). x.name ≡ name) same (eq_of_beq f.name name e),
        )
    of_test (inr n) k = inr (rw n at k)

lookup-by_name :
    (fs : List EntityFieldState) (name : String) (o : EntityFieldState)
    → lookup name (by_name fs []) ≡ some o
    → In o fs × (o.name ≡ name)
unfolding lookup
lookup-by_name fs name o h = elim (by_name-In fs [] name o h) [ inl found ↦ found | inr k ↦ cc ]

module _ (hash_bytes : Bytes → String) where
  -- A field that is recorded as it is.
  abbrev IsRecorded : Dict String EntityFieldState → Field → Type 0
  IsRecorded old f =
      (o : EntityFieldState) × (lookup f.name old ≡ some o) × (o.hash ≡ hash_bytes f.yaml)

  abbrev Silent : FieldChanges → Type 0
  Silent r = (r.added ≡ []) × (r.modified ≡ [])

  diff_field-Silent :
      (f : Field) (o : Option EntityFieldState) (r : FieldChanges)
      → Silent (diff_field hash_bytes f o r)
      → ((s : EntityFieldState) × (o ≡ some s) × (s.hash ≡ hash_bytes f.yaml)) × Silent r
  diff_field-Silent f none r h = let e = h.0 in cc
  diff_field-Silent f (some s) r h = elim (Bool-cases (hash_bytes f.yaml == s.hash)) [
    | inl same ↦ ((s, refl, sym (eq_of_beq (hash_bytes f.yaml) s.hash same)), rw same at h)
    | inr other ↦ let k = rw other at h in let e = k.1 in cc
  ]

  diff_fields-Silent :
      (old : Dict String EntityFieldState) (fs : List Field)
      → Silent (diff_fields hash_bytes old fs)
      → (f : Field) → In f fs
      → IsRecorded old f
  unfolding diff_fields
  diff_fields-Silent old [] h f i = elim i [ ]
  diff_fields-Silent old (g ∷ fs) h f i =
      let (first, rest) =
        diff_field-Silent g (lookup g.name old) (diff_fields hash_bytes old fs) h in
      In-cons (IsRecorded old) first (λ k j. diff_fields-Silent old fs rest k j) f i

  empty_list {ℓ} : {A : Type ℓ} (l : List A) → is_empty l ≡ true → l ≡ []
  empty_list [] h = refl
  empty_list (x ∷ l) h = cc

  -- The entity is recorded, with the field as it is.
  abbrev pub IsKept : Dict String (List EntityFieldState) → Entity → Field → Type 0
  IsKept old e f =
      (fields : List EntityFieldState) × (o : EntityFieldState) × (lookup e.name old ≡ some fields)
      × In o fields
      × (o.name ≡ f.name)
      × (o.hash ≡ hash_bytes f.yaml)

  change_of-silent :
      (old : Dict String (List EntityFieldState)) (e : Entity)
      (recorded : Option (List EntityFieldState))
      → lookup e.name old ≡ recorded
      → change_of hash_bytes e recorded ≡ []
      → (f : Field) → In f e.fields
      → IsKept old e f
  change_of-silent old e none found h f i = elim (Bool-cases (is_empty e.fields)) [
    | inl none' ↦ elim (subst (λ l. In f l) (empty_list {A = Field} e.fields none') i) [ ]
    | inr some' ↦ let k = rw some' at h in cc
  ]
  change_of-silent old e (some fields) found h f i =
      let changes = diff_fields hash_bytes (by_name fields []) e.fields in
      let removed = map was (keep (λ o. not (names_field e.fields o)) fields) in
      elim (Bool-cases (is_empty changes.added && is_empty removed && is_empty changes.modified)) [
        | inl quiet ↦
            let (a, b, c) =
              three (is_empty changes.added) (is_empty removed) (is_empty changes.modified) quiet in
            let (o, held, same) =
              diff_fields-Silent (by_name fields []) e.fields
                (
                  empty_list {A = String} changes.added a,
                  empty_list {A = String} changes.modified c,
                )
                f i in
            let (j, named) = lookup-by_name fields f.name o held in
            (fields, o, found, j, named, same)
        | inr loud ↦ let k = rw loud at h in cc
      ]
    where
      three : (p q r : Bool) → (p && q && r) ≡ true → (p ≡ true) × (q ≡ true) × (r ≡ true)
      three p q r h = ground arith

  current_changes-silent :
      (old : Dict String (List EntityFieldState)) (entities : List Entity)
      → current_changes hash_bytes old entities ≡ []
      → (e : Entity) → In e entities
      → (f : Field) → In f e.fields
      → IsKept old e f
  unfolding current_changes
  current_changes-silent old [] h e i = elim i [ ]
  current_changes-silent old (x ∷ entities) h e i =
      let (first, rest) =
        append-empty (change_of hash_bytes x (lookup x.name old))
          (current_changes hash_bytes old entities) h in
      In-cons (λ (y : Entity). (f : Field) → In f y.fields → IsKept old y f)
        (change_of-silent old x (lookup x.name old) refl first)
        (λ y j. current_changes-silent old entities rest y j) e i

  -- When a plan shows no change of the entities against a record that has some, every field of every
  -- entity of the declaration is recorded, with the digest of its definition.
  pub compute_entity_changes-silent :
      (entities : List Entity) (old : Dict String (List EntityFieldState)) (e : Entity) (f : Field)
      → old ≢ []
      → compute_entity_changes hash_bytes entities old ≡ []
      → In e entities
      → In f e.fields
      → IsKept old e f
  unfolding compute_entity_changes
  compute_entity_changes-silent entities [] e f nonempty h i j = absurd (nonempty refl)
  compute_entity_changes-silent entities (o ∷ old) e f nonempty h i j =
      let (current, _) = append-empty (current_changes hash_bytes (o ∷ old) entities) _ h in
      current_changes-silent (o ∷ old) entities current e i f j
