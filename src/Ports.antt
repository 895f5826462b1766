-- ===== src/Ports.antt =====
-- internal/ports/resolve.go: which component provides each port that a component requires.
-- The messages of the errors are constructors of `Reason`.
pub mod Requirements
pub mod Sound
pub mod Resolve
pub mod Answers
mod Examples
use stego.Prelude.{
  String, Bool, not, ◌||◌, List, [], ◌∷◌, ◌++◌, Option, none, some, ◌==◌, leb, if◌then◌else◌,
  string_eq, Outcome, ok, err, is_empty, length, keep, any,
}
use stego.Prelude.Dict.{Dict, lookup, insert, delete}
use stego.Prelude.Sort.{sort_texts, sorted_keys}
use stego.Registry.{Port, Component}

abbrev pub Components : Type 0
Components = Dict String Component

pub record Resolution : Type 0 where
  pub bindings : Dict String (Dict String String)
  pub active_components : Components

pub record UnresolvedPort : Type 0 where
  pub component : String
  pub port : String
  pub providers : List String

pub record AmbiguousPort : Type 0 where
  pub component : String
  pub port : String
  pub providers : List String

pub data Reason : Type 0 where
  no_loader not_in_registry override_lacks_port bound_to_itself no_such_component lacks_port :
      Reason

pub record InvalidBinding : Type 0 where
  pub component : String
  pub port : String
  pub bound_to : String
  pub reason : Reason

pub record ResolutionError : Type 0 where
  pub unresolved : List UnresolvedPort
  pub ambiguous : List AmbiguousPort
  pub invalid_binding : List InvalidBinding

abbrev pub no_errors : ResolutionError
no_errors = record { unresolved = []; ambiguous = []; invalid_binding = [] }

unfoldable pub has_errors : ResolutionError → Bool
has_errors e =
    not (is_empty e.unresolved) || not (is_empty e.ambiguous) || not (is_empty e.invalid_binding)

-- A loader that is nil is `none`, and one that finds nothing gives `none`.
pub record ResolveInput : Type 0 where
  pub components : Components
  pub archetype_bindings : Dict String String
  pub service_overrides : Dict String String
  pub component_loader : Option (String → Option Component)

unfoldable pub comp_provides_port : Component → String → Bool
comp_provides_port comp port_name = any (λ (p : Port). p.name == port_name) comp.provides

abbrev pub add_invalid : InvalidBinding → ResolutionError → ResolutionError
add_invalid i e = record e { invalid_binding = e.invalid_binding ++ i ∷ [] }

abbrev pub add_ambiguous : AmbiguousPort → ResolutionError → ResolutionError
add_ambiguous a e = record e { ambiguous = e.ambiguous ++ a ∷ [] }

abbrev pub add_unresolved : UnresolvedPort → ResolutionError → ResolutionError
add_unresolved u e = record e { unresolved = e.unresolved ++ u ∷ [] }

-- The variables of the override loop.
pub record Progress : Type 0 where
  pub active : Components
  pub errors : ResolutionError

loaded_override : Components → String → Option Component → Outcome Reason (Component × Components)
loaded_override active name none = err not_in_registry
loaded_override active name (some loaded) = ok (loaded, insert name loaded active)

call_loader :
    Option (String → Option Component)
    → Components
    → String
    → Outcome Reason (Component × Components)
unfolding loaded_override
call_loader none active name = err no_loader
call_loader (some load) active name = loaded_override active name (load name)

find_override :
    Option (String → Option Component)
    → Components
    → String
    → Option Component
    → Outcome Reason (Component × Components)
unfolding call_loader
find_override loader active name none = call_loader loader active name
find_override loader active name (some comp) = ok (comp, active)

-- The component that an override names: from the active set, or else loaded into it.
unfoldable pub load_override :
    Option (String → Option Component)
    → Components
    → String
    → Outcome Reason (Component × Components)
unfolding find_override
load_override loader active name = find_override loader active name (lookup name active)

abbrev pub refuse_override : String → String → Reason → Progress → Progress
refuse_override port name reason s = record s {
  errors =
      add_invalid (record { component = ""; port = port; bound_to = name; reason = reason })
        s.errors;
}

-- Excludes the archetype's default component that an override replaces.
unfoldable pub exclude_default : Option String → String → Components → Components
exclude_default none name active = active
exclude_default (some default_comp) name active =
    if default_comp == name then active else delete default_comp active

-- What the round does with the component that was found, or with the reason that none was.
unfoldable pub accept_override :
    ResolveInput → String → String → Progress → Outcome Reason (Component × Components) → Progress
unfolding comp_provides_port exclude_default
accept_override input port name s (err reason) = refuse_override port name reason s
accept_override input port name s (ok (comp, active)) =
    if comp_provides_port comp port
    then record s { active = exclude_default (lookup port input.archetype_bindings) name active }
    else refuse_override port name override_lacks_port (record s { active = active })

-- One round of the override loop.
unfoldable pub override_step : ResolveInput → String → String → Progress → Progress
unfolding load_override accept_override
override_step input port name s =
    accept_override input port name s (load_override input.component_loader s.active name)

abbrev pub override_round : ResolveInput → String → Option String → Progress → Progress
override_round input port none s = s
override_round input port (some name) s = override_step input port name s

unfoldable pub apply_overrides : ResolveInput → List String → Progress → Progress
unfolding override_step
apply_overrides input [] s = s
apply_overrides input (port ∷ ports) s =
    apply_overrides input ports (override_round input port (lookup port input.service_overrides) s)

-- Archetype defaults, with the service's overrides on top.
unfoldable pub merge_bindings : Dict String String → Dict String String → Dict String String
merge_bindings base [] = base
merge_bindings base ((port, comp) ∷ over) = insert port comp (merge_bindings base over)

unfoldable pub effective_bindings : ResolveInput → Dict String String
effective_bindings input = merge_bindings input.archetype_bindings input.service_overrides

providing : Components → String → List String
unfolding comp_provides_port
providing [] port = []
providing ((name, comp) ∷ rest) port =
    let others = providing rest port in
    if comp_provides_port comp port then name ∷ others else others

-- `providersOf`
unfoldable pub providers_of : Components → String → List String
unfolding sort_texts providing
providers_of set port = sort_texts (providing set port)

-- One name for each time that the component lists the port.
listings : String → List Port → String → List String
listings name [] port = []
listings name (p ∷ provides) port =
    let others = listings name provides port in if p.name == port then name ∷ others else others

listed : Components → String → List String
unfolding listings
listed [] port = []
listed ((name, comp) ∷ rest) port = listings name comp.provides port ++ listed rest port

-- The entry of a port in the index `providers` of `Resolve`.
unfoldable pub provider_index : Components → String → List String
unfolding sort_texts listed
provider_index active port = sort_texts (listed active port)

-- The variables of the loop over one component's required ports.
pub record Bound : Type 0 where
  pub bindings : Dict String String
  pub errors : ResolutionError

-- No binding exists: the error depends on how many other components provide the port.
unfoldable pub classify : Components → String → String → ResolutionError → ResolutionError
unfolding provider_index
classify active comp_name port_name e =
    let others = keep (λ p. not (p == comp_name)) (provider_index active port_name) in
    if leb 2 (length others)
    then add_ambiguous (record { component = comp_name; port = port_name; providers = others }) e
    else add_unresolved (record { component = comp_name; port = port_name; providers = others }) e

-- The reason that a bound component is refused, if there is one.
unfoldable pub binding_fault : Components → String → String → String → Option Reason
unfolding comp_provides_port
binding_fault active comp_name port_name bound =
    if bound == comp_name then some bound_to_itself else elim (lookup bound active) [
      | none ↦ some no_such_component
      | some bound_comp ↦ if comp_provides_port bound_comp port_name then none else some lacks_port
    ]

record_binding : String → String → String → Option Reason → Bound → Bound
record_binding comp_name port_name bound none s = record s {
  bindings = insert port_name bound s.bindings;
}
record_binding comp_name port_name bound (some reason) s = record s {
  errors =
      add_invalid
        (record { component = comp_name; port = port_name; bound_to = bound; reason = reason })
        s.errors;
}

bind_port : Components → String → String → Option String → Bound → Bound
unfolding classify binding_fault record_binding
bind_port active comp_name port_name none s = record s {
  errors = classify active comp_name port_name s.errors;
}
bind_port active comp_name port_name (some bound) s =
    record_binding comp_name port_name bound (binding_fault active comp_name port_name bound) s

-- The loop over the ports that one component requires.
unfoldable pub bind_requirements :
    Components → Dict String String → String → List Port → Bound → Bound
unfolding bind_port
bind_requirements active effective comp_name [] s = s
bind_requirements active effective comp_name (req ∷ reqs) s =
    bind_requirements active effective comp_name reqs
      (bind_port active comp_name req.name (lookup req.name effective) s)

-- The variables of the loop over the components.
pub record Resolved : Type 0 where
  pub bindings : Dict String (Dict String String)
  pub errors : ResolutionError

keep_bindings : String → Bound → Dict String (Dict String String) → Resolved
keep_bindings comp_name b bindings = record {
  bindings = if is_empty b.bindings then bindings else insert comp_name b.bindings bindings;
  errors = b.errors;
}

resolve_component :
    Components → Dict String String → String → Option Component → Resolved → Resolved
unfolding bind_requirements keep_bindings
resolve_component active effective comp_name none s = s
resolve_component active effective comp_name (some comp) s =
    if is_empty comp.requires
    then s
    else keep_bindings comp_name
        (bind_requirements active effective comp_name comp.requires
          (record { bindings = []; errors = s.errors }))
        s.bindings

unfoldable pub resolve_components :
    Components → Dict String String → List String → Resolved → Resolved
unfolding resolve_component
resolve_components active effective [] s = s
resolve_components active effective (name ∷ names) s =
    resolve_components active effective names
      (resolve_component active effective name (lookup name active) s)

unfoldable pub overridden : ResolveInput → Progress
overridden input =
    apply_overrides input (sorted_keys input.service_overrides)
      (record { active = input.components; errors = no_errors })

unfoldable pub finish : Components → Resolved → Outcome ResolutionError Resolution
finish active r =
    if has_errors r.errors
    then err r.errors
    else ok (record { bindings = r.bindings; active_components = active })

unfoldable pub resolve_active : ResolveInput → Components → Outcome ResolutionError Resolution
resolve_active input active = finish active (
    resolve_components active (effective_bindings input) (sorted_keys active)
      (record { bindings = []; errors = no_errors }))

unfoldable pub resolve : ResolveInput → Outcome ResolutionError Resolution
resolve input =
    let s = overridden input in
    if has_errors s.errors then err s.errors else resolve_active input s.active

-- The error of `HasOneProvider` names the providers that were found.
unfoldable pub has_one_provider : Components → String → Outcome {0, 0} (List String) Unit
unfolding providers_of
has_one_provider set port = elim (providers_of set port) [
  | [] ↦ err []
  | one ∷ more ↦ if is_empty more then ok tt else err (one ∷ more)
]

append_name :
    String → String → Option (List String) → Dict String (List String) → Dict String (List String)
append_name port name none required = insert port (name ∷ []) required
append_name port name (some names) required = insert port (names ++ name ∷ []) required

-- `required[port] = append(required[port], name)` for each port of one component
require_ports : String → List Port → Dict String (List String) → Dict String (List String)
unfolding append_name
require_ports name [] required = required
require_ports name (p ∷ ports) required =
    require_ports name ports (append_name p.name name (lookup p.name required) required)

required_ports : Components → Dict String (List String) → Dict String (List String)
unfolding require_ports
required_ports [] required = required
required_ports ((name, comp) ∷ set) required =
    required_ports set (require_ports name comp.requires required)

-- A port with no provider, with the components that require it in name order.
pub record Unanswered : Type 0 where
  pub port : String
  pub required_by : List String

or_nobody : Option (List String) → List String
or_nobody none = []
or_nobody (some names) = names

unfoldable pub unanswered_ports :
    Components → Dict String (List String) → List String → List Unanswered
unfolding or_nobody
unanswered_ports set required [] = []
unanswered_ports set required (port ∷ ports) =
    let rest = unanswered_ports set required ports in
    if is_empty (providers_of set port)
    then record { port = port; required_by = sort_texts (or_nobody (lookup port required)) } ∷ rest
    else rest

unfoldable pub answers_ports : Components → Outcome {0, 0} (List Unanswered) Unit
unfolding required_ports
answers_ports set =
    let required = required_ports set [] in
    let unanswered = unanswered_ports set required (sorted_keys required) in
    if is_empty unanswered then ok tt else err unanswered
