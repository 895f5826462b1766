-- ===== src/Ports/Sound.antt =====
-- The two directions of `Resolve`, for internal/ports/resolve.go: what a resolution holds, and
-- when there is one.
use stego.Prelude.{
  String, ◌≡◌, refl, true, false, List, [], ◌∷◌, Option, none, some, inl, inr, ◌==◌, string_eq,
  eq_iff, is_empty, In, In-cons, All-of_In, Bool-cases,
}
use stego.Prelude.Dict.{Dict, lookup, insert, lookup-insert, lookup-insert_self}
use stego.Registry.{Port, Component}
use stego.Ports.{
  Components, ResolutionError, Bound, Resolved, has_errors, bind_requirements, resolve_component,
  resolve_components, keep_bindings,
}
use stego.Ports.Requirements.{
  Answered, AllAnswered, IsBound, bind_requirements-has_errors, bind_requirements_sound,
  bind_requirements_complete,
}

not-In_of_is_empty : {A : Type 0} {a : A} (xs : List A) → is_empty xs ≡ true → In a xs → ⊥
not-In_of_is_empty [] h i = elim i [ ]
not-In_of_is_empty (x ∷ xs) h i = cc

abbrev Bindings : Type 0
Bindings = Dict String (Dict String String)

module _ (active : Components) (effective : Dict String String) where
  -- Every binding made so far is an answer.
  abbrev EachAnswered : Bindings → Type 0
  EachAnswered m =
      (name : String) (d : Dict String String)
      → lookup name m ≡ some d
      → AllAnswered active effective name d

  -- Every port that the component requires has a binding.
  abbrev Covers : Bindings → String → Component → Type 0
  Covers m name comp =
      (req : Port)
      → In req comp.requires
      → (d : Dict String String) × (bound : String) × (lookup name m ≡ some d)
        × (lookup req.name d ≡ some bound)

  EachAnswered-insert :
      (m : Bindings) (name : String) (d : Dict String String)
      → AllAnswered active effective name d
      → EachAnswered m
      → EachAnswered (insert name d m)
  EachAnswered-insert m name d new old j c h = elim (Bool-cases (name == j)) [
    | inl same ↦
        let k : some d ≡ some c = rw (lookup-insert, same) at h in
        let e : d ≡ c = cc in let n : name ≡ j = (eq_iff name j).0 same in rw (← e, ← n) new
    | inr differs ↦ old j c (rw (lookup-insert, differs) at h)
  ]

  abbrev start : ResolutionError → Bound
  start e = record { bindings = []; errors = e }

  resolve_component-has_errors :
      (name : String) (o : Option Component) (s : Resolved)
      → has_errors s.errors ≡ true
      → has_errors (resolve_component active effective name o s).errors ≡ true
  unfolding resolve_component
  resolve_component-has_errors name none s h = h
  resolve_component-has_errors name (some comp) s h = elim (Bool-cases (is_empty comp.requires)) [
    | inl nothing ↦ rw nothing h
    | inr some_port ↦ rw some_port (
        unfold keep_bindings in
        bind_requirements-has_errors active effective name comp.requires
          (record { bindings = []; errors = s.errors }) h)
  ]

  resolve_components-has_errors :
      (names : List String) (s : Resolved)
      → has_errors s.errors ≡ true
      → has_errors (resolve_components active effective names s).errors ≡ true
  unfolding resolve_components
  resolve_components-has_errors [] s h = h
  resolve_components-has_errors (name ∷ names) s h =
      resolve_components-has_errors names
        (resolve_component active effective name (lookup name active) s)
        (resolve_component-has_errors name (lookup name active) s h)

  -- What was covered stays covered when a component's own new bindings cover it.
  Covers-insert :
      (m : Bindings) (name : String) (comp : Component) (d : Dict String String)
      → lookup name active ≡ some comp
      → ((req : Port) → In req comp.requires → IsBound active effective name d req.name)
      → (j : String) (c : Component) → lookup j active ≡ some c
      → Covers m j c
      → Covers (insert name d m) j c
  Covers-insert m name comp d found bound j c there old req i = elim (Bool-cases (name == j)) [
    | inl same ↦
        let n : name ≡ j = (eq_iff name j).0 same in
        let e : comp ≡ c = cc in
        let (b, h) = bound req (rw (← e) at i) in (d, b, rw (lookup-insert, same), h)
    | inr differs ↦ let (d', b, h, k) = old req i in (d', b, rw (lookup-insert, differs) h, k)
  ]

  abbrev KeepsCovered : Bindings → Bindings → Type 0
  KeepsCovered m n =
      (j : String) (c : Component) → lookup j active ≡ some c → Covers m j c → Covers n j c

  keep_bindings_sound :
      (name : String) (comp : Component) (d : Dict String String) (e : ResolutionError)
      (m : Bindings)
      → lookup name active ≡ some comp
      → AllAnswered active effective name d
      → ((req : Port) → In req comp.requires → IsBound active effective name d req.name)
      → EachAnswered m
      → EachAnswered (keep_bindings name (record { bindings = d; errors = e }) m).bindings
        × Covers (keep_bindings name (record { bindings = d; errors = e }) m).bindings name comp
        × KeepsCovered m (keep_bindings name (record { bindings = d; errors = e }) m).bindings
  unfolding keep_bindings lookup
  keep_bindings_sound name comp [] e m found all bound each =
      (each, λ req i. cc (bound req i).1, λ j c h old. old)
  keep_bindings_sound name comp (x ∷ d) e m found all bound each = (
    EachAnswered-insert m name (x ∷ d) all each,
    λ req i. let (b, h) = bound req i in (x ∷ d, b, lookup-insert_self name (x ∷ d) m, h),
    Covers-insert m name comp (x ∷ d) found bound,
  )

  -- One component: its ports are covered, and what was covered stays covered.
  resolve_component_sound :
      (name : String) (comp : Component) (s : Resolved)
      → lookup name active ≡ some comp
      → has_errors (resolve_component active effective name (some comp) s).errors ≡ false
      → EachAnswered s.bindings
      → EachAnswered (resolve_component active effective name (some comp) s).bindings
        × Covers (resolve_component active effective name (some comp) s).bindings name comp
        × KeepsCovered s.bindings (resolve_component active effective name (some comp) s).bindings
  unfolding resolve_component keep_bindings lookup
  resolve_component_sound name comp s found h each = elim (Bool-cases (is_empty comp.requires)) [
    | inl nothing ↦
        rw nothing
          (each, λ req i. absurd (not-In_of_is_empty comp.requires nothing i), λ j c l old. old)
    | inr some_port ↦
        let first = start s.errors in
        let b = bind_requirements active effective name comp.requires first in
        let fine : has_errors b.errors ≡ false = rw (resolve_component, some_port) at h in
        let (all, _, bound) =
          bind_requirements_sound active effective name comp.requires first fine
            (λ port c k. cc k) in
        rw some_port
          (keep_bindings_sound name comp b.bindings b.errors s.bindings found all bound each)
  ]

  -- One round of the loop over components.
  round_sound :
      (name : String) (o : Option Component) (s : Resolved)
      → lookup name active ≡ o
      → has_errors (resolve_component active effective name o s).errors ≡ false
      → EachAnswered s.bindings
      → EachAnswered (resolve_component active effective name o s).bindings
        × ((comp : Component)
            → lookup name active ≡ some comp
            → Covers (resolve_component active effective name o s).bindings name comp)
        × KeepsCovered s.bindings (resolve_component active effective name o s).bindings
  round_sound name none s e fine each =
      (unfold resolve_component in each, λ comp h. cc, λ j c l old. unfold resolve_component in old)
  round_sound name (some comp) s e fine each =
      let (each', covered, kept) = resolve_component_sound name comp s e fine each in
      (each', λ c h. let k : comp ≡ c = cc in rw (← k) covered, kept)

  -- With no error at the end, every component of the list is covered by answers.
  pub resolve_components_sound :
      (names : List String) (s : Resolved)
      → has_errors (resolve_components active effective names s).errors ≡ false
      → EachAnswered s.bindings
      → EachAnswered (resolve_components active effective names s).bindings
        × KeepsCovered s.bindings (resolve_components active effective names s).bindings
        × ((name : String)
            → In name names
            → (comp : Component) → lookup name active ≡ some comp
            → Covers (resolve_components active effective names s).bindings name comp)
  unfolding resolve_components
  resolve_components_sound [] s h each = (each, λ j c l old. old, λ name i. elim i [ ])
  resolve_components_sound (name ∷ names) s h each =
      let t = resolve_component active effective name (lookup name active) s in
      elim (Bool-cases (has_errors t.errors)) [
        | inl failed ↦ cc (h, resolve_components-has_errors names t failed)
        | inr fine ↦
            let (each', covered, kept) = round_sound name (lookup name active) s refl fine each in
            let (each'', kept', rest) = resolve_components_sound names t h each' in
            (
              each'',
              λ j c l old. kept' j c l (kept j c l old),
              In-cons (λ n. (comp : Component) → lookup n active ≡ some comp → Covers _ n comp)
                  (λ comp l. kept' name comp l (covered comp l)) rest,
            )
      ]

  -- When the effective bindings answer every port, no error is recorded.
  pub resolve_components_complete :
      (names : List String) (s : Resolved)
      → has_errors s.errors ≡ false
      → ((name : String) (comp : Component) (req : Port)
          → lookup name active ≡ some comp
          → In req comp.requires
          → (bound : String) × (lookup req.name effective ≡ some bound)
            × Answered active name req.name bound)
      → has_errors (resolve_components active effective names s).errors ≡ false
  unfolding resolve_components
  resolve_components_complete [] s h each = h
  resolve_components_complete (name ∷ names) s h each =
      resolve_components_complete names
        (resolve_component active effective name (lookup name active) s)
        (step (lookup name active) refl) each
    where
      step :
          (o : Option Component)
          → lookup name active ≡ o
          → has_errors (resolve_component active effective name o s).errors ≡ false
      step none e = unfold resolve_component in h
      step (some comp) e = elim (Bool-cases (is_empty comp.requires)) [
        | inl nothing ↦ rw (resolve_component, nothing) h
        | inr some_port ↦
            rw (resolve_component, some_port)
              (bind_requirements_complete active effective name comp.requires (start s.errors) h
                (All-of_In _ comp.requires (λ req i. each name comp req e i)))
      ]
