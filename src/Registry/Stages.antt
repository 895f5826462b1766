-- ===== src/Registry/Stages.antt =====
-- The rules on the stages of components: internal/registry/stage.go. A fault holds the names that
-- the error lists, in the order of the error.
use stego.Prelude.{
  String, ◌≡◌, refl, Bool, true, false, ◌&&◌, ◌||◌, not, List, [], ◌∷◌, ◌++◌, Option, none, some,
  arith, ◌==◌, string_eq, nat_eq, if◌then◌else◌, Outcome, ok, err, require, In, In-cons, keep,
  keep-empty, append-empty, any, ◌>>◌, eq_iff,
}
use stego.Prelude.Dict.{lookup, In-keys}
use stego.Prelude.Sort.{sorted_keys, In-sorted_keys}
use stego.Registry.{
  Port, Stage, stage_alpha, stage_beta, stage_ga, parse_stage, Component, Archetype, Mixin,
  Registry,
}
use stego.Calendar.{Time, before, parse_date, day_of}

-- `FitForGoldenPath`, of a component that there is
abbrev pub fit_for_golden_path : Component → Bool
fit_for_golden_path c = c.stage == stage_ga

abbrev sunset_before : Option Time → Time → Bool
sunset_before none today = false
sunset_before (some sunset) today = before sunset today

-- `PastSunset`; `today` is the calendar day of the caller, at midnight.
unfoldable pub past_sunset : Component → Time → Bool
past_sunset c today =
    (c.stage == stage_alpha || c.stage == stage_beta)
    && sunset_before (parse_date c.sunset) (day_of today)

pub data StageFault : Type 0 where
  bad_stage : String → StageFault
  ga_sunset : StageFault
  no_sunset : StageFault
  bad_sunset : StageFault

abbrev is_date : Option Time → Bool
is_date none = false
is_date (some t) = true

abbrev pub lift_stage : Outcome String Stage → Outcome StageFault (Unit {0})
lift_stage (ok s) = ok tt
lift_stage (err value) = err (StageFault.bad_stage value)

-- `checkStage`
unfoldable pub check_stage : Component → Outcome StageFault (Unit {0})
unfolding parse_stage
check_stage c = do
  lift_stage (parse_stage c.stage)
  if c.stage == stage_ga then require (c.sunset == "") StageFault.ga_sunset else (do
    require (not (c.sunset == "")) StageFault.no_sunset
    require (is_date (parse_date c.sunset)) StageFault.bad_sunset)

-- An archetype or a mixin with the components that it includes and that are not ga.
pub record PathFault : Type 0 where
  pub kind : String
  pub name : String
  pub below : List String

abbrev pub is_below_ga : Option Component → Bool
is_below_ga none = false
is_below_ga (some c) = not (fit_for_golden_path c)

abbrev pub below_ga : Registry → List String → List String
below_ga r components = keep (λ name. is_below_ga (lookup name r.components)) components

abbrev path_fault : String → String → List String → List PathFault
path_fault kind name [] = []
path_fault kind name (b ∷ bs) = record { kind = kind; name = name; below = b ∷ bs } ∷ []

abbrev archetype_components : Option Archetype → List String
archetype_components none = []
archetype_components (some a) = a.components

abbrev mixin_components : Option Mixin → List String
mixin_components none = []
mixin_components (some m) = m.adds_components

unfoldable pub archetype_faults : Registry → List String → List PathFault
archetype_faults r [] = []
archetype_faults r (name ∷ names) =
    path_fault "archetype" name (below_ga r (archetype_components (lookup name r.archetypes)))
    ++ archetype_faults r names

unfoldable pub mixin_faults : Registry → List String → List PathFault
mixin_faults r [] = []
mixin_faults r (name ∷ names) =
    path_fault "mixin" name (below_ga r (mixin_components (lookup name r.mixins)))
    ++ mixin_faults r names

abbrev pub refuse_any {ℓ} : {F : Type ℓ} → List F → Outcome (List F) (Unit {0})
refuse_any [] = ok tt
refuse_any (f ∷ fs) = err (f ∷ fs)

-- `checkGoldenPaths`
unfoldable pub check_golden_paths : Registry → Outcome (List PathFault) (Unit {0})
check_golden_paths r =
    refuse_any
      (archetype_faults r (sorted_keys r.archetypes) ++ mixin_faults r (sorted_keys r.mixins))

-- A component below ga with a port and the ga components that provide it.
pub record PortFault : Type 0 where
  pub component : String
  pub stage : Stage
  pub port : String
  pub providers : List String

abbrev provides_port : Option Component → String → Bool
provides_port none port = false
provides_port (some c) port = any (λ p. p.name == port) c.provides

-- How often a ga component is listed for a port: once for each time that it states the port.
abbrev pub listings : String → String → List Port → List String
listings port name [] = []
listings port name (p ∷ ps) =
    let rest = listings port name ps in if p.name == port then name ∷ rest else rest

abbrev pub ga_listings : String → String → Option Component → List String
ga_listings port name none = []
ga_listings port name (some c) = if c.stage == stage_ga then listings port name c.provides else []

-- The entry of a port in `gaProviders`.
unfoldable pub ga_providers : Registry → String → List String → List String
ga_providers r port [] = []
ga_providers r port (name ∷ names) =
    ga_listings port name (lookup name r.components) ++ ga_providers r port names

abbrev pub port_fault : Component → String → String → List String → List PortFault
port_fault c name port [] = []
port_fault c name port (g ∷ gs) =
    record { component = name; stage = c.stage; port = port; providers = g ∷ gs } ∷ []

unfoldable pub component_faults : Registry → String → Component → List Port → List PortFault
unfolding ga_providers
component_faults r name c [] = []
component_faults r name c (p ∷ ps) =
    port_fault c name p.name (ga_providers r p.name (sorted_keys r.components))
    ++ component_faults r name c ps

abbrev pub faults_of : Registry → String → Option Component → List PortFault
faults_of r name none = []
faults_of r name (some c) = if c.stage == stage_ga then [] else component_faults r name c c.provides

unfoldable pub port_faults : Registry → List String → List PortFault
unfolding component_faults
port_faults r [] = []
port_faults r (name ∷ names) = faults_of r name (lookup name r.components) ++ port_faults r names

-- `checkExperimentPorts`
unfoldable pub check_experiment_ports : Registry → Outcome (List PortFault) (Unit {0})
unfolding port_faults
check_experiment_ports r = refuse_any (port_faults r (sorted_keys r.components))

pub refuse_any-ok {ℓ} : {F : Type ℓ} (fs : List F) → refuse_any fs ≡ ok tt → fs ≡ []
refuse_any-ok [] h = refl
refuse_any-ok (f ∷ fs) h = cc

path_fault-empty :
    (kind name : String) (below : List String) → path_fault kind name below ≡ [] → below ≡ []
path_fault-empty kind name [] h = refl
path_fault-empty kind name (b ∷ bs) h = cc

archetype_faults-empty :
    (r : Registry) (names : List String) (name : String)
    → archetype_faults r names ≡ []
    → In name names
    → below_ga r (archetype_components (lookup name r.archetypes)) ≡ []
unfolding archetype_faults
archetype_faults-empty r [] name h i = elim i [ ]
archetype_faults-empty r (n ∷ ns) name h i =
    let (first, rest) =
      append-empty
        (path_fault "archetype" n (below_ga r (archetype_components (lookup n r.archetypes))))
        (archetype_faults r ns) h in
    In-cons (λ z. below_ga r (archetype_components (lookup z r.archetypes)) ≡ [])
      (path_fault-empty "archetype" n (below_ga r (archetype_components (lookup n r.archetypes)))
        first)
      (λ z j. archetype_faults-empty r ns z rest j) name i

is_below_ga-stage : (c : Component) → is_below_ga (some c) ≡ false → c.stage ≡ stage_ga
is_below_ga-stage c h = ground (arith, eq_iff c.stage stage_ga)

-- When the check of the golden paths passes, every component of the registry that an archetype of the
-- registry includes is at the stage ga.
pub check_golden_paths_sound :
    (r : Registry) (name included : String) (a : Archetype) (c : Component)
    → check_golden_paths r ≡ ok tt
    → lookup name r.archetypes ≡ some a
    → In included a.components
    → lookup included r.components ≡ some c
    → c.stage ≡ stage_ga
unfolding check_golden_paths
check_golden_paths_sound r name included a c h known i found =
    let faults =
      refuse_any-ok
        (archetype_faults r (sorted_keys r.archetypes) ++ mixin_faults r (sorted_keys r.mixins))
        h in
    let (none', _) =
      append-empty (archetype_faults r (sorted_keys r.archetypes))
        (mixin_faults r (sorted_keys r.mixins)) faults in
    let below =
      archetype_faults-empty r (sorted_keys r.archetypes) name none'
        (In-sorted_keys r.archetypes (In-keys name r.archetypes known)) in
    let k =
      keep-empty (λ n. is_below_ga (lookup n r.components)) a.components included
        (rw known at below) i in
    is_below_ga-stage c (rw found at k)
