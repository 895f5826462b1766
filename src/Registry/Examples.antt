-- ===== src/Registry/Examples.antt =====
-- A registry whose golden paths pass the check, for internal/registry/stage.go.
use stego.Prelude.{false, ◌==◌, any, In, ok, String, ◌≡◌, refl, [], ◌∷◌, none, string_eq}
use stego.Prelude.Dict.{lookup}
use stego.Prelude.Sort.{sorted_keys, sort_texts, sort_by, place}
use stego.Registry.Experiments.{check_experiment_ports_sound}
use stego.Registry.{Port, Component, Archetype, Registry, stage_ga, stage_beta, Stage}
use stego.Registry.Stages.{
  check_golden_paths, check_experiment_ports, port_faults, component_faults, ga_providers,
  archetype_faults, mixin_faults, check_golden_paths_sound,
}

abbrev component_at : String → Stage → Component
component_at name stage = record {
  name = name;
  version = "1.0.0";
  stage = stage;
  sunset = "";
  requires = [];
  provides = [];
  output_namespace = name;
}

abbrev crud : Archetype
crud = record {
  name = "rest-crud";
  components = "rest-api" ∷ [];
  default_auth = "";
  compatible_mixins = none;
  bindings = [];
}

abbrev golden : Registry
golden = record {
  archetypes = ("rest-crud", crud) ∷ [];
  components =
      ("rest-api", component_at "rest-api" stage_ga)
      ∷ ("trial", component_at "trial" stage_beta)
      ∷ [];
  mixins = [];
}

golden-passes : check_golden_paths golden ≡ ok tt
unfolding check_golden_paths archetype_faults mixin_faults sorted_keys sort_texts sort_by place
    lookup
golden-passes = refl

check_golden_paths_sound_example : ◌≡◌ {A = Stage} stage_ga stage_ga
unfolding lookup
check_golden_paths_sound_example =
    check_golden_paths_sound golden "rest-crud" "rest-api" crud (component_at "rest-api" stage_ga)
      golden-passes refl In.here refl

-- A component with one port.
abbrev owner : String → Stage → String → Component
owner name stage port = record (component_at name stage) { provides = record { name = port } ∷ [] }

abbrev with_trial : Registry
with_trial = record {
  archetypes = [];
  components =
      ("rest-api", owner "rest-api" stage_ga "http")
      ∷ ("trial", owner "trial" stage_beta "trial-port")
      ∷ [];
  mixins = [];
}

trial-passes : check_experiment_ports with_trial ≡ ok tt
unfolding check_experiment_ports port_faults component_faults ga_providers sorted_keys sort_texts
    sort_by place lookup
trial-passes = refl

check_experiment_ports_sound_example :
    any (λ (q : Port). q.name == "trial-port") (owner "rest-api" stage_ga "http").provides ≡ false
unfolding lookup
check_experiment_ports_sound_example =
    check_experiment_ports_sound with_trial "trial" "rest-api"
      (owner "trial" stage_beta "trial-port") (owner "rest-api" stage_ga "http")
      (record { name = "trial-port" }) trial-passes refl refl In.here refl refl
