-- ===== src/Registry.antt =====
-- The artifacts of a registry that the other parts read: internal/registry/component.go and
-- internal/types/stage.go. A `Stage` is a text, as in the source.
pub mod Stages
pub mod Experiments
mod Examples
use stego.Prelude.{String, List, Option, ◌||◌, ◌==◌, if◌then◌else◌, string_eq, Outcome, ok, err}
use stego.Prelude.Dict.{Dict}

pub record Port : Type 0 where
  pub name : String

abbrev pub Stage : Type 0
Stage = String

abbrev pub stage_alpha : Stage
stage_alpha = "alpha"

abbrev pub stage_beta : Stage
stage_beta = "beta"

abbrev pub stage_ga : Stage
stage_ga = "ga"

-- A refused value stands in the error.
unfoldable pub parse_stage : String → Outcome String Stage
parse_stage value =
    if value == stage_alpha || value == stage_beta || value == stage_ga then ok value else err value

pub record Component : Type 0 where
  pub name : String
  pub version : String
  pub stage : Stage
  pub sunset : String
  pub requires : List Port
  pub provides : List Port
  pub output_namespace : String

-- An absent `compatible_mixins` differs from an empty one.
pub record Archetype : Type 0 where
  pub name : String
  pub components : List String
  pub default_auth : String
  pub compatible_mixins : Option (List String)
  pub bindings : Dict String String

pub record Mixin : Type 0 where
  pub name : String
  pub adds_components : List String

pub record Registry : Type 0 where
  pub archetypes : Dict String Archetype
  pub components : Dict String Component
  pub mixins : Dict String Mixin
