-- ===== src/Ports/Examples.antt =====
-- Tests of `Resolve` on a small registry, and the theorems at it. The service replaces the default
-- `jwt-auth` by `rh-sso-auth`, which the registry supplies.
use stego.Prelude.{
  String, ◌≡◌, refl, false, List, [], ◌∷◌, Option, none, some, ◌==◌, string_eq, In, ok, err,
  if◌then◌else◌,
}
use stego.Prelude.Dict.{Dict, lookup, insert, delete}
use stego.Prelude.Sort.{sorted_keys}
use stego.Registry.{Port, Component, stage_ga}
use stego.Ports.{
  Resolution, ResolutionError, ResolveInput, Reason, has_errors, resolve, overridden, answers_ports,
  effective_bindings, no_errors, apply_overrides, resolve_active, finish, resolve_components,
  merge_bindings,
}
use stego.Ports.Requirements.{Answered}
use stego.Ports.Resolve.{resolve_sound, resolve_exact, resolve_complete}
use stego.Ports.Answers.{answers_ports-resolve}

abbrev port : String → Port
port n = record { name = n }

abbrev component : String → List Port → List Port → Component
component n requires provides = record {
  name = n;
  version = "1.0.0";
  stage = stage_ga;
  sunset = "";
  requires = requires;
  provides = provides;
  output_namespace = "internal/";
}

abbrev rest_api : Component
rest_api = component "rest-api" (port "auth-provider" ∷ port "storage-adapter" ∷ []) []

abbrev jwt_auth : Component
jwt_auth = component "jwt-auth" [] (port "auth-provider" ∷ [])

abbrev rh_sso_auth : Component
rh_sso_auth = component "rh-sso-auth" [] (port "auth-provider" ∷ [])

abbrev postgres : Component
postgres = component "postgres-adapter" [] (port "storage-adapter" ∷ [])

abbrev load : String → Option Component
load name = if name == "rh-sso-auth" then some rh_sso_auth else none

abbrev service : ResolveInput
service = record {
  components =
      ("rest-api", rest_api) ∷ ("jwt-auth", jwt_auth) ∷ ("postgres-adapter", postgres) ∷ [];
  archetype_bindings = ("auth-provider", "jwt-auth") ∷ ("storage-adapter", "postgres-adapter") ∷ [];
  service_overrides = ("auth-provider", "rh-sso-auth") ∷ [];
  component_loader = some load;
}

abbrev bound_to : Dict String String
bound_to = ("auth-provider", "rh-sso-auth") ∷ ("storage-adapter", "postgres-adapter") ∷ []

abbrev resolution : Resolution
resolution = record {
  bindings = ("rest-api", bound_to) ∷ [];
  active_components =
      ("rest-api", rest_api) ∷ ("postgres-adapter", postgres) ∷ ("rh-sso-auth", rh_sso_auth) ∷ [];
}

service_resolves : resolve service ≡ ok resolution
unfolding resolve has_errors overridden apply_overrides sorted_keys lookup resolve_active finish
    resolve_components delete insert effective_bindings merge_bindings
service_resolves = refl

resolve_sound_example :
    (bindings : Dict String String) × (bound : String) × (lookup "rest-api" resolution.bindings
      ≡ some bindings)
    × (lookup "auth-provider" bindings ≡ some bound)
    × (lookup "auth-provider" (effective_bindings service) ≡ some bound)
    × Answered resolution.active_components "rest-api" "auth-provider" bound
unfolding lookup
resolve_sound_example =
    resolve_sound service resolution "rest-api" rest_api (port "auth-provider") service_resolves
      refl In.here

resolve_exact_example :
    (lookup "auth-provider" (effective_bindings service) ≡ some "rh-sso-auth")
    × Answered resolution.active_components "rest-api" "auth-provider" "rh-sso-auth"
unfolding lookup
resolve_exact_example =
    resolve_exact service resolution "rest-api" bound_to "auth-provider" "rh-sso-auth"
      service_resolves refl refl

-- The ports of the service are answered, since they resolve.
answered :
    (name : String) (comp : Component) (req : Port)
    → lookup name (overridden service).active ≡ some comp
    → In req comp.requires
    → (bound : String) × (lookup req.name (effective_bindings service) ≡ some bound)
      × Answered (overridden service).active name req.name bound
unfolding overridden apply_overrides sorted_keys delete insert lookup
answered name comp req found i =
    let (_, bound, _, _, eff, a) =
      resolve_sound service resolution name comp req service_resolves found i in
    (bound, eff, a)

no_override_fails : has_errors (overridden service).errors ≡ false
unfolding overridden apply_overrides sorted_keys delete insert lookup has_errors
no_override_fails = refl

resolve_complete_example :
    (r : Resolution) × (resolve service ≡ ok r)
    × (r.active_components ≡ (overridden service).active)
resolve_complete_example = resolve_complete service no_override_fails answered

abbrev with_cycle : ResolveInput
with_cycle = record service {
  archetype_bindings = ("auth-provider", "rest-api") ∷ ("storage-adapter", "nowhere") ∷ [];
  service_overrides = [];
}

abbrev two_faults : ResolutionError
two_faults = record no_errors {
  invalid_binding =
      record {
        component = "rest-api";
        port = "auth-provider";
        bound_to = "rest-api";
        reason = Reason.bound_to_itself;
      }
      ∷ record {
        component = "rest-api";
        port = "storage-adapter";
        bound_to = "nowhere";
        reason = Reason.no_such_component;
      }
      ∷ [];
}

cycle_refused : resolve with_cycle ≡ err two_faults
unfolding resolve has_errors overridden apply_overrides sorted_keys lookup resolve_active finish
    resolve_components delete insert effective_bindings merge_bindings
cycle_refused = refl

answers_ports-resolve_example : answers_ports resolution.active_components ≡ ok tt
unfolding lookup
answers_ports-resolve_example =
    answers_ports-resolve service resolution (refl, (refl, (refl, tt))) service_resolves
