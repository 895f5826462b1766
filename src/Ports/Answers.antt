-- ===== src/Ports/Answers.antt =====
-- The predicates over an active set, `HasOneProvider` and `AnswersPorts`, and what `Resolve` gives
-- them, for internal/ports/resolve.go.
use stego.Prelude.{
  String, ◌≡◌, refl, sym, true, false, List, [], ◌∷◌, ◌++◌, Option, none, some, inl, inr, ◌==◌,
  string_eq, if◌then◌else◌, In, In-single, ◌∙◌, Bool-cases, Outcome, ok, err, is_empty, eq_of_beq,
}
use stego.Prelude.Dict.{
  Dict, keys, lookup, In-keys-insert, Unique, Unique-insert, Unique-delete, lookup_of_entry,
}
use stego.Prelude.Sort.{sorted_keys, sort_texts, text_le, In-sort_by, In_of_sorted_keys}
use stego.Registry.{Port, Component}
use stego.Ports
use stego.Ports.{
  Components, Resolution, ResolveInput, Progress, Reason, comp_provides_port, providing,
  providers_of, has_one_provider, required_ports, require_ports, append_name, unanswered_ports,
  Unanswered, answers_ports, overridden, apply_overrides, override_round, override_step,
  accept_override, load_override, find_override, loaded_override, exclude_default, resolve,
  refuse_override,
}
use stego.Ports.Resolve.{resolve_sound, resolve_inversion}

In-providing :
    (set : Components) (port name : String) (comp : Component)
    → lookup name set ≡ some comp
    → comp_provides_port comp port ≡ true
    → In name (providing set port)
unfolding providing lookup
In-providing [] port name comp h provides = cc
In-providing ((n, c) ∷ s) port name comp h provides = elim (Bool-cases (n == name)) [
  | inl same ↦
      let e : some c ≡ some comp = rw (lookup, same) at h in
      let k : c ≡ comp = cc in rw (k, provides, eq_of_beq n name same) In.here
  | inr other ↦ later (In-providing s port name comp (rw (lookup, other) at h) provides)
]
  where
    later : In name (providing s port) → In name (providing ((n, c) ∷ s) port)
    later i = elim (Bool-cases (comp_provides_port c port)) [
      | inl yes' ↦ rw yes' (In.there i)
      | inr no' ↦ rw no' i
    ]

-- A component of the set that provides a port is among its providers.
pub In-providers_of :
    (set : Components) (port name : String) (comp : Component)
    → lookup name set ≡ some comp
    → comp_provides_port comp port ≡ true
    → In name (providers_of set port)
unfolding providers_of sort_texts
In-providers_of set port name comp found provides =
    In-sort_by text_le (providing set port) (In-providing set port name comp found provides)

not-is_empty_of_In : {a : String} (xs : List String) → In a xs → is_empty xs ≡ false
not-is_empty_of_In [] i = elim i [ ]
not-is_empty_of_In (x ∷ xs) i = refl

-- Nothing is unanswered when each listed port has a provider.
unanswered_ports-nil :
    (set : Components) (required : Dict String (List String)) (ports : List String)
    → ((port : String) → In port ports → is_empty (providers_of set port) ≡ false)
    → unanswered_ports set required ports ≡ []
unfolding unanswered_ports
unanswered_ports-nil set required [] h = refl
unanswered_ports-nil set required (port ∷ ports) h =
    rw (h port In.here) (unanswered_ports-nil set required ports (λ p i. h p (In.there i)))

-- An accumulated map names only ports of the kind `P`.
abbrev Names : (String → Type 0) → Dict String (List String) → Type 0
Names P m = (port : String) → In port (keys m) → P port

Names-append_name :
    (P : String → Type 0) (port name : String) (o : Option (List String))
    (m : Dict String (List String))
    → P port
    → Names P m
    → Names P (append_name port name o m)
unfolding append_name
Names-append_name P port name none m new old j i = elim (In-keys-insert port (name ∷ []) m i) [
  | inl e ↦ rw (← e) new
  | inr k ↦ old j k
]
Names-append_name P port name (some ns) m new old j i =
    elim (In-keys-insert port (ns ++ name ∷ []) m i) [ inl e ↦ rw (← e) new | inr k ↦ old j k ]

Names-require_ports :
    (P : String → Type 0) (name : String) (reqs : List Port) (m : Dict String (List String))
    → ((req : Port) → In req reqs → P req.name)
    → Names P m
    → Names P (require_ports name reqs m)
unfolding require_ports
Names-require_ports P name [] m each old = old
Names-require_ports P name (req ∷ reqs) m each old =
    Names-require_ports P name reqs (append_name req.name name (lookup req.name m) m)
      (λ r i. each r (In.there i))
      (Names-append_name P req.name name (lookup req.name m) m (each req In.here) old)

Names-required_ports :
    (P : String → Type 0) (set : Components) (m : Dict String (List String))
    → ((name : String) (comp : Component) (req : Port)
        → In (name, comp) set
        → In req comp.requires
        → P req.name)
    → Names P m
    → Names P (required_ports set m)
unfolding required_ports
Names-required_ports P [] m each old = old
Names-required_ports P ((name, comp) ∷ set) m each old =
    Names-required_ports P set (require_ports name comp.requires m)
      (λ n c r i. each n c r (In.there i))
      (Names-require_ports P name comp.requires m (λ r i. each name comp r In.here i) old)

-- The predicate holds of a set in which every required port has a provider.
pub answers_ports_of :
    (set : Components)
    → ((name : String) (comp : Component) (req : Port)
        → In (name, comp) set
        → In req comp.requires
        → is_empty (providers_of set req.name) ≡ false)
    → answers_ports set ≡ ok tt
unfolding answers_ports
answers_ports_of set each =
    let required = required_ports set [] in
    let named =
      Names-required_ports (λ p. is_empty (providers_of set p) ≡ false) set [] each
        (λ port i. elim i [ ]) in
    rw (
      unanswered_ports-nil set required (sorted_keys required)
        (λ port i. named port (In_of_sorted_keys required i)))

Unique-exclude_default :
    (o : Option String) (name : String) (active : Components)
    → Unique active
    → Unique (exclude_default o name active)
unfolding exclude_default
Unique-exclude_default none name active u = u
Unique-exclude_default (some d) name active u = elim (Bool-cases (d == name)) [
  | inl same ↦ rw same u
  | inr other ↦ rw other (Unique-delete d active u)
]

abbrev UniqueLoaded : Outcome Reason (Component × Components) → Type 0
UniqueLoaded (ok (comp, active)) = Unique active
UniqueLoaded (err reason) = Unit

Unique-find_override :
    (loader : Option (String → Option Component)) (active : Components) (name : String)
    (o : Option Component)
    → Unique active
    → UniqueLoaded (find_override loader active name o)
unfolding find_override
Unique-find_override loader active name (some comp) u = u
Unique-find_override none active name none u = tt
Unique-find_override (some load) active name none u = loaded (load name)
  where
    loaded : (o : Option Component) → UniqueLoaded (loaded_override active name o)
    loaded none = tt
    loaded (some c) = Unique-insert name c active u

Unique-load_override :
    (loader : Option (String → Option Component)) (active : Components) (name : String)
    → Unique active
    → UniqueLoaded (load_override loader active name)
unfolding load_override
Unique-load_override loader active name u =
    Unique-find_override loader active name (lookup name active) u

Unique-accept_override :
    (input : ResolveInput) (port name : String) (s : Progress)
    (o : Outcome Reason (Component × Components))
    → Unique s.active
    → UniqueLoaded o
    → Unique (accept_override input port name s o).active
unfolding accept_override
Unique-accept_override input port name s (err reason) u l = u
Unique-accept_override input port name s (ok (comp, active)) u l =
    elim (Bool-cases (comp_provides_port comp port)) [
      | inl provides ↦
          rw provides (Unique-exclude_default (lookup port input.archetype_bindings) name active l)
      | inr lacks ↦ rw lacks l
    ]

Unique-apply_overrides :
    (input : ResolveInput) (ports : List String) (s : Progress)
    → Unique s.active
    → Unique (apply_overrides input ports s).active
unfolding apply_overrides
Unique-apply_overrides input [] s u = u
Unique-apply_overrides input (port ∷ ports) s u =
    Unique-apply_overrides input ports
      (override_round input port (lookup port input.service_overrides) s)
      (round (lookup port input.service_overrides))
  where
    round : (o : Option String) → Unique (override_round input port o s).active
    round none = u
    round (some name) =
        Unique-accept_override input port name s
          (load_override input.component_loader s.active name) u
          (Unique-load_override input.component_loader s.active name u)

-- After a successful resolution `AnswersPorts` finds a provider for each port that an active component
-- requires. The components given are a map, so their names are distinct.
pub answers_ports-resolve :
    (input : ResolveInput) (r : Resolution)
    → Unique input.components
    → resolve input ≡ ok r
    → answers_ports r.active_components ≡ ok tt
answers_ports-resolve input r u h =
    let (e, _) = resolve_inversion input h in
    let unique : Unique r.active_components = rw e (
      unfold overridden in
      Unique-apply_overrides input (sorted_keys input.service_overrides)
        (record { active = input.components; errors = Ports.no_errors }) u) in
    answers_ports_of r.active_components λ name comp req entry i.
      let (_, bound, _, _, _, a) =
        resolve_sound input r name comp req h
          (lookup_of_entry name comp r.active_components unique entry) i in
      not-is_empty_of_In (providers_of r.active_components req.name)
        (In-providers_of r.active_components req.name bound a.provider a.is_active a.provides)

-- When a port has one provider, any two active components that provide it are the same one.
pub has_one_provider_unique :
    (set : Components) (port a b : String) (comp_a comp_b : Component)
    → has_one_provider set port ≡ ok tt
    → lookup a set ≡ some comp_a
    → comp_provides_port comp_a port ≡ true
    → lookup b set ≡ some comp_b
    → comp_provides_port comp_b port ≡ true
    → a ≡ b
has_one_provider_unique set port a b comp_a comp_b h found_a provides_a found_b provides_b =
    go (providers_of set port) (unfold has_one_provider in h)
      (In-providers_of set port a comp_a found_a provides_a)
      (In-providers_of set port b comp_b found_b provides_b)
  where
    go :
        (names : List String)
        → elim names as (λ n. Outcome {0, 0} (List String) Unit) [
          | [] ↦ err []
          | one ∷ more ↦ if is_empty more then ok tt else err (one ∷ more)
        ]
          ≡ ok tt
        → In a names
        → In b names
        → a ≡ b
    go [] h i j = elim i [ ]
    go (x ∷ []) h i j = sym (In-single i) ∙ In-single j
    go (x ∷ y ∷ rest) h i j = cc
