-- ===== src/Ports/Resolve.antt =====
-- `Resolve` as a whole, for internal/ports/resolve.go.
use stego.Prelude.{
  String, ◌≡◌, refl, false, [], ◌∷◌, Option, none, some, inl, inr, ◌==◌, string_eq, In, Bool-cases,
  ok,
}
use stego.Prelude.Dict.{Dict, lookup, lookup-insert, In-keys, lookup-nil}
use stego.Prelude.Sort.{sorted_keys, In-sorted_keys}
use stego.Registry.{Port, Component}
use stego.Ports.{
  Resolution, ResolveInput, Resolved, has_errors, no_errors, effective_bindings, merge_bindings,
  resolve_components, overridden, resolve_active, resolve, finish,
}
use stego.Ports.Requirements.{Answered}
use stego.Ports.Sound.{resolve_components_sound, resolve_components_complete}

-- An override, or else the archetype's default.
abbrev pub first_of_two : Option String → Option String → Option String
first_of_two none b = b
first_of_two (some a) b = some a

lookup-merge_bindings :
    (base over : Dict String String) (port : String)
    → lookup port (merge_bindings base over) ≡ first_of_two (lookup port over) (lookup port base)
unfolding merge_bindings lookup
lookup-merge_bindings base [] port = refl
lookup-merge_bindings base ((p, c) ∷ over) port = elim (Bool-cases (p == port)) [
  | inl same ↦ rw (lookup-insert p port c (merge_bindings base over), same)
  | inr other ↦
      rw (lookup-insert p port c (merge_bindings base over), other)
        (lookup-merge_bindings base over port)
]

-- The service's overrides take precedence over the archetype's bindings, for every port.
pub lookup-effective_bindings :
    (input : ResolveInput) (port : String)
    → lookup port (effective_bindings input)
      ≡ first_of_two (lookup port input.service_overrides) (lookup port input.archetype_bindings)
unfolding effective_bindings
lookup-effective_bindings input port =
    lookup-merge_bindings input.archetype_bindings input.service_overrides port

abbrev pub resolved : ResolveInput → Resolved
resolved input =
    resolve_components (overridden input).active (effective_bindings input)
      (sorted_keys (overridden input).active) (record { bindings = []; errors = no_errors })

-- What a resolution is made of.
pub resolve_inversion :
    (input : ResolveInput) {r : Resolution}
    → resolve input ≡ ok r
    → (r ≡ record {
      bindings = (resolved input).bindings;
      active_components = (overridden input).active;
    })
      × (has_errors (resolved input).errors ≡ false)
unfolding resolve resolve_active finish
resolve_inversion input h = elim (Bool-cases (has_errors (overridden input).errors)) [
  | inl failed ↦ cc (rw (resolve, failed) at h)
  | inr fine ↦ elim (Bool-cases (has_errors (resolved input).errors)) [
    | inl failed ↦ cc (rw (resolve, fine, resolve_active, finish, failed) at h)
    | inr done ↦ (cc (rw (resolve, fine, resolve_active, finish, done) at h), done)
  ]
]

-- A successful resolution binds every port that an active component requires, as the effective
-- bindings say, to another active component that provides the port.
pub resolve_sound :
    (input : ResolveInput) (r : Resolution) (name : String) (comp : Component) (req : Port)
    → resolve input ≡ ok r
    → lookup name r.active_components ≡ some comp
    → In req comp.requires
    → (bindings : Dict String String) × (bound : String) × (lookup name r.bindings ≡ some bindings)
      × (lookup req.name bindings ≡ some bound)
      × (lookup req.name (effective_bindings input) ≡ some bound)
      × Answered r.active_components name req.name bound
resolve_sound input r name comp req h found i =
    let (e, fine) = resolve_inversion input h in
    let s = overridden input in
    let (each, _, covered) =
      resolve_components_sound s.active (effective_bindings input) (sorted_keys s.active)
        (record { bindings = []; errors = no_errors }) fine
        (λ n d k. cc (k, lookup-nil {V = Dict String String} n)) in
    let there : lookup name s.active ≡ some comp = rw e at found in
    let (bindings, bound, at, to) =
      covered name (In-sorted_keys s.active (In-keys name s.active there)) comp there req i in
    let (eff, answered) = each name bindings at req.name bound to in
    rw e (bindings, bound, at, to, eff, answered)

-- A resolution holds no other binding: each one is an effective binding, to another active
-- component that provides the port.
pub resolve_exact :
    (input : ResolveInput) (r : Resolution) (name : String) (bindings : Dict String String)
    (port bound : String)
    → resolve input ≡ ok r
    → lookup name r.bindings ≡ some bindings
    → lookup port bindings ≡ some bound
    → (lookup port (effective_bindings input) ≡ some bound)
      × Answered r.active_components name port bound
resolve_exact input r name bindings port bound h at to =
    let (e, fine) = resolve_inversion input h in
    let s = overridden input in
    let (each, _, covered) =
      resolve_components_sound s.active (effective_bindings input) (sorted_keys s.active)
        (record { bindings = []; errors = no_errors }) fine
        (λ n d k. cc (k, lookup-nil {V = Dict String String} n)) in
    rw e (each name bindings (rw e at at) port bound to)

-- When the overrides are accepted and the effective bindings answer every port that an active
-- component requires, the ports resolve, and the active set is the one the overrides leave.
pub resolve_complete :
    (input : ResolveInput)
    → has_errors (overridden input).errors ≡ false
    → ((name : String) (comp : Component) (req : Port)
        → lookup name (overridden input).active ≡ some comp
        → In req comp.requires
        → (bound : String) × (lookup req.name (effective_bindings input) ≡ some bound)
          × Answered (overridden input).active name req.name bound)
    → (r : Resolution) × (resolve input ≡ ok r) × (r.active_components ≡ (overridden input).active)
unfolding resolve resolve_active finish
resolve_complete input fine each =
    let s = overridden input in
    let done =
      resolve_components_complete s.active (effective_bindings input) (sorted_keys s.active)
        (record { bindings = []; errors = no_errors }) (unfold has_errors in refl) each in
    (
      record { bindings = (resolved input).bindings; active_components = s.active },
      rw (resolve, fine, resolve_active, finish, done),
      refl,
    )
