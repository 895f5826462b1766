-- ===== src/Ports/Requirements.antt =====
-- What the loop over one component's required ports does, for internal/ports/resolve.go: an
-- answered port is bound, and any other is an error, which is never lost.
use stego.Prelude.{
  String, ◌≡◌, ◌≢◌, refl, not, leb, length, keep, true, false, List, [], ◌∷◌, ◌++◌, Option, none,
  some, ◌⊎◌, inl, inr, arith, ◌==◌, string_eq, eq_iff, is_empty, In, In-cons, Bool-cases,
  Option-cases, beq_ne, All,
}
use stego.Prelude.Dict.{Dict, lookup, insert, lookup-insert, lookup-insert_self}
use stego.Registry.{Port, Component}
use stego.Ports.{
  Components, ResolutionError, InvalidBinding, Bound, Reason, has_errors, add_invalid,
  add_ambiguous, add_unresolved, AmbiguousPort, UnresolvedPort, provider_index, comp_provides_port,
  binding_fault, record_binding, classify, bind_port, bind_requirements,
}

-- The component `name` may take its port from the active component `bound`.
pub record Answered (active : Components) (name port bound : String) : Type 0 where
  pub other : bound ≢ name
  pub provider : Component
  pub is_active : lookup bound active ≡ some provider
  pub provides : comp_provides_port provider port ≡ true

is_empty-snoc : {A : Type 0} (xs : List A) (x : A) → is_empty (xs ++ x ∷ []) ≡ false
is_empty-snoc [] x = refl
is_empty-snoc (y ∷ xs) x = refl

-- A recorded error counts, of whichever kind it is.
pub has_errors-add_invalid :
    (i : InvalidBinding) (e : ResolutionError) → has_errors (add_invalid i e) ≡ true
unfolding has_errors
has_errors-add_invalid i e = ground (arith, is_empty-snoc e.invalid_binding i)

has_errors-add_ambiguous :
    (a : AmbiguousPort) (e : ResolutionError) → has_errors (add_ambiguous a e) ≡ true
unfolding has_errors
has_errors-add_ambiguous a e = ground (arith, is_empty-snoc e.ambiguous a)

has_errors-add_unresolved :
    (u : UnresolvedPort) (e : ResolutionError) → has_errors (add_unresolved u e) ≡ true
unfolding has_errors
has_errors-add_unresolved u e = ground (arith, is_empty-snoc e.unresolved u)

module _ (active : Components) (name port : String) where
  pub binding_fault_cases :
      (bound : String)
      → (Answered active name port bound × (binding_fault active name port bound ≡ none))
        ⊎ ((reason : Reason) × (binding_fault active name port bound ≡ some reason))
  unfolding binding_fault
  binding_fault_cases bound = elim (Bool-cases (bound == name)) [
    | inl same ↦ inr (Reason.bound_to_itself, rw same)
    | inr differs ↦ elim (Option-cases (lookup bound active)) [
      | inl missing ↦ inr (Reason.no_such_component, rw (differs, missing))
      | inr (provider, found) ↦ elim (Bool-cases (comp_provides_port provider port)) [
        | inl provides ↦ inl (
          record {
            other = λ e. ground (arith, eq_iff bound name, differs);
            provider = provider;
            is_active = found;
            provides = provides;
          },
          rw (differs, found, provides),
        )
        | inr lacks ↦ inr (Reason.lacks_port, rw (differs, found, lacks))
      ]
    ]
  ]

  binding_fault-Answered :
      (bound : String)
      → Answered active name port bound
      → binding_fault active name port bound ≡ none
  unfolding binding_fault
  binding_fault-Answered bound a = rw (beq_ne bound name a.other, a.is_active, a.provides)

  has_errors-classify : (e : ResolutionError) → has_errors (classify active name port e) ≡ true
  unfolding classify
  has_errors-classify e =
      let others = keep (λ p. not (p == name)) (provider_index active port) in
      elim (Bool-cases (leb 2 (length others))) [
        | inl several ↦ rw several (has_errors-add_ambiguous _ e)
        | inr few ↦ rw few (has_errors-add_unresolved _ e)
      ]

  -- One port is bound as the effective bindings say, or an error is recorded.
  bind_port_cases :
      (binding : Option String) (s : Bound)
      → ((bound : String) × (binding ≡ some bound)
          × Answered active name port bound
          × (bind_port active name port binding s
              ≡ record s { bindings = insert port bound s.bindings }))
        ⊎ (has_errors (bind_port active name port binding s).errors ≡ true)
  unfolding bind_port record_binding
  bind_port_cases none s = inr (has_errors-classify s.errors)
  bind_port_cases (some bound) s = elim (binding_fault_cases bound) [
    | inl (answered, no_fault) ↦ inl (bound, refl, answered, rw no_fault)
    | inr (reason, fault) ↦ inr (rw fault (has_errors-add_invalid _ s.errors))
  ]

  -- An answered binding is made, with no error.
  bind_port-Answered :
      (bound : String) (s : Bound)
      → Answered active name port bound
      → bind_port active name port (some bound) s
        ≡ record s { bindings = insert port bound s.bindings }
  unfolding bind_port record_binding
  bind_port-Answered bound s a = rw (binding_fault-Answered bound a)

  -- An error that was recorded stays recorded.
  bind_port-has_errors :
      (binding : Option String) (s : Bound)
      → has_errors s.errors ≡ true
      → has_errors (bind_port active name port binding s).errors ≡ true
  bind_port-has_errors binding s h = elim (bind_port_cases binding s) [
    | inl (bound, _, _, same) ↦ rw same h
    | inr failed ↦ failed
  ]

module _ (active : Components) (effective : Dict String String) (name : String) where
  pub bind_requirements-has_errors :
      (reqs : List Port) (s : Bound)
      → has_errors s.errors ≡ true
      → has_errors (bind_requirements active effective name reqs s).errors ≡ true
  unfolding bind_requirements
  bind_requirements-has_errors [] s h = h
  bind_requirements-has_errors (req ∷ reqs) s h = bind_requirements-has_errors reqs _ (
      unfold bind_requirements in
      (bind_port-has_errors active name req.name (lookup req.name effective) s h))

  -- What holds of the bindings made so far: they are effective ones, and answer their ports.
  abbrev pub AllAnswered : Dict String String → Type 0
  AllAnswered bindings =
      (port bound : String)
      → lookup port bindings ≡ some bound
      → (lookup port effective ≡ some bound) × Answered active name port bound

  abbrev pub IsBound : Dict String String → String → Type 0
  IsBound bindings port = (bound : String) × (lookup port bindings ≡ some bound)

  AllAnswered-insert :
      (bindings : Dict String String) (port bound : String)
      → lookup port effective ≡ some bound
      → Answered active name port bound
      → AllAnswered bindings
      → AllAnswered (insert port bound bindings)
  AllAnswered-insert bindings port bound eff answered all j b h = elim (Bool-cases (port == j)) [
    | inl same ↦
        let k : some bound ≡ some b = rw (lookup-insert, same) at h in
        let e : bound ≡ b = cc in
        let n : port ≡ j = (eq_iff port j).0 same in rw (← e, ← n) (eff, answered)
    | inr differs ↦ all j b (rw (lookup-insert, differs) at h)
  ]

  IsBound-insert :
      (bindings : Dict String String) (port bound j : String)
      → IsBound bindings j
      → IsBound (insert port bound bindings) j
  IsBound-insert bindings port bound j (b, h) = elim (Bool-cases (port == j)) [
    | inl same ↦ (bound, rw (lookup-insert, same))
    | inr differs ↦ (b, rw (lookup-insert, differs) h)
  ]

  -- With no error at the end, every port is bound, and every binding is an answer.
  pub bind_requirements_sound :
      (reqs : List Port) (s : Bound)
      → has_errors (bind_requirements active effective name reqs s).errors ≡ false
      → AllAnswered s.bindings
      → AllAnswered (bind_requirements active effective name reqs s).bindings
        × ((port : String)
            → IsBound s.bindings port
            → IsBound (bind_requirements active effective name reqs s).bindings port)
        × ((req : Port)
            → In req reqs
            → IsBound (bind_requirements active effective name reqs s).bindings req.name)
  unfolding bind_requirements
  bind_requirements_sound [] s h all = (all, λ port b. b, λ req i. elim i [ ])
  bind_requirements_sound (req ∷ reqs) s h all =
      elim (bind_port_cases active name req.name (lookup req.name effective) s) [
        | inl (bound, eff, answered, same) ↦
            let (all', kept, each) =
              bind_requirements_sound reqs
                (record s { bindings = insert req.name bound s.bindings })
                (rw (bind_requirements, same) at h)
                (AllAnswered-insert s.bindings req.name bound eff answered all) in
            rw (bind_requirements, same)
              (
                all',
                λ port b. kept port (IsBound-insert s.bindings req.name bound port b),
                In-cons (λ (r : Port). IsBound _ r.name)
                    (kept req.name (bound, lookup-insert_self req.name bound s.bindings)) each,
              )
        | inr failed ↦
            let next = bind_port active name req.name (lookup req.name effective) s in
            cc (h, bind_requirements-has_errors reqs next failed)
      ]

  -- When the effective bindings answer every port, no error is recorded.
  pub bind_requirements_complete :
      (reqs : List Port) (s : Bound)
      → has_errors s.errors ≡ false
      → All
          (λ (req : Port).
            (bound : String) × (lookup req.name effective ≡ some bound)
            × Answered active name req.name bound)
          reqs
      → has_errors (bind_requirements active effective name reqs s).errors ≡ false
  unfolding bind_requirements
  bind_requirements_complete [] s h each = h
  bind_requirements_complete (req ∷ reqs) s h ((bound, eff, answered), each) =
      rw (bind_requirements, eff, bind_port-Answered active name req.name bound s answered)
        (bind_requirements_complete reqs (record s { bindings = insert req.name bound s.bindings })
          h each)
