-- ===== src/Registry/Experiments.antt =====
-- An experiment owns only its own ports: `checkExperimentPorts` of internal/registry/stage.go.
use stego.Prelude.{
  String, ◌≡◌, refl, true, false, List, [], ◌∷◌, some, ◌==◌, string_eq, ok, In, In-cons, any,
  append-empty, Bool-cases, inl, inr,
}
use stego.Prelude.Dict.{lookup, In-keys}
use stego.Prelude.Sort.{sorted_keys, In-sorted_keys}
use stego.Registry.{Port, Component, Registry, stage_ga}
use stego.Registry.Stages.{
  check_experiment_ports, port_faults, component_faults, port_fault, faults_of, ga_providers,
  ga_listings, listings, refuse_any-ok,
}

port_faults-empty :
    (r : Registry) (names : List String) (name : String)
    → port_faults r names ≡ []
    → In name names
    → faults_of r name (lookup name r.components) ≡ []
unfolding port_faults
port_faults-empty r [] name h i = elim i [ ]
port_faults-empty r (n ∷ ns) name h i =
    let (first, rest) = append-empty (faults_of r n (lookup n r.components)) (port_faults r ns) h in
    In-cons (λ m. faults_of r m (lookup m r.components) ≡ []) first
      (λ m j. port_faults-empty r ns m rest j) name i

port_fault-empty :
    (c : Component) (name port : String) (providers : List String)
    → port_fault c name port providers ≡ []
    → providers ≡ []
port_fault-empty c name port [] h = refl
port_fault-empty c name port (g ∷ gs) h = cc

component_faults-empty :
    (r : Registry) (name : String) (c : Component) (ports : List Port) (p : Port)
    → component_faults r name c ports ≡ []
    → In p ports
    → ga_providers r p.name (sorted_keys r.components) ≡ []
unfolding component_faults
component_faults-empty r name c [] p h i = elim i [ ]
component_faults-empty r name c (q ∷ qs) p h i =
    let providers = ga_providers r q.name (sorted_keys r.components) in
    let (first, rest) =
      append-empty (port_fault c name q.name providers) (component_faults r name c qs) h in
    In-cons (λ (x : Port). ga_providers r x.name (sorted_keys r.components) ≡ [])
      (port_fault-empty c name q.name providers first)
      (λ x j. component_faults-empty r name c qs x rest j) p i

ga_providers-empty :
    (r : Registry) (port : String) (names : List String) (name : String)
    → ga_providers r port names ≡ []
    → In name names
    → ga_listings port name (lookup name r.components) ≡ []
unfolding ga_providers
ga_providers-empty r port [] name h i = elim i [ ]
ga_providers-empty r port (n ∷ ns) name h i =
    let (first, rest) =
      append-empty (ga_listings port n (lookup n r.components)) (ga_providers r port ns) h in
    In-cons (λ m. ga_listings port m (lookup m r.components) ≡ []) first
      (λ m j. ga_providers-empty r port ns m rest j) name i

listings-empty :
    (port name : String) (ports : List Port)
    → listings port name ports ≡ []
    → any (λ (q : Port). q.name == port) ports ≡ false
listings-empty port name [] h = refl
listings-empty port name (q ∷ qs) h = elim (Bool-cases (q.name == port)) [
  | inl same ↦ let k = rw same at h in cc
  | inr other ↦ rw other (listings-empty port name qs (rw other at h))
]

-- When the check of the experiments passes, no port that a component below ga provides is provided by
-- a component at ga.
pub check_experiment_ports_sound :
    (r : Registry) (name ga_name : String) (c ga : Component) (p : Port)
    → check_experiment_ports r ≡ ok tt
    → lookup name r.components ≡ some c
    → (c.stage == stage_ga) ≡ false
    → In p c.provides
    → lookup ga_name r.components ≡ some ga
    → (ga.stage == stage_ga) ≡ true
    → any (λ (q : Port). q.name == p.name) ga.provides ≡ false
unfolding check_experiment_ports
check_experiment_ports_sound r name ga_name c ga p h known below i ga_known at_ga =
    let names = sorted_keys r.components in
    let faults = refuse_any-ok (port_faults r names) h in
    let own =
      port_faults-empty r names name faults
        (In-sorted_keys r.components (In-keys name r.components known)) in
    let none' = component_faults-empty r name c c.provides p (rw (known, below) at own) i in
    let listed =
      ga_providers-empty r p.name names ga_name none'
        (In-sorted_keys r.components (In-keys ga_name r.components ga_known)) in
    listings-empty p.name ga_name ga.provides (rw (ga_known, at_ga) at listed)
