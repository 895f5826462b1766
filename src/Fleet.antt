-- ===== src/Fleet.antt =====
-- The queries on a fleet sweep: internal/fleet/query.go, vex.go and the read model of sweep.go. The
-- sweep itself reads checkouts; the identifier of a document is a digest of its JSON form and is
-- left out. The identifier of a checkout (`CheckoutProduct`) is the file system's.
mod Examples
use stego.Prelude.{
  ℕ, suc, ◌+◌, String, ◌≡◌, ◌≢◌, refl, sym, ap, Bool, true, false, ◌&&◌, ◌||◌, not, List, [], ◌∷◌,
  ◌++◌, Option, none, some, arith, ◌==◌, string_eq, eq_iff, if◌then◌else◌, length, length-append,
  any, In, In-cons, map, is_empty, Bool-cases, ◌⊎◌, inl, inr, ◌*◌, eq_of_beq, beq_refl,
}
use stego.Lifecycle.{Subject, Lifecycle, Supersession, Withdrawal, component_package}

pub record Pin : Type 0 where
  pub component : String
  pub version : String
  pub digest : String

pub record Service : Type 0 where
  pub name : String
  pub checkout : String
  pub pins : List Pin

pub record Unknown : Type 0 where
  pub checkout : String
  pub format_version : ℕ
  pub reason : String

pub record Sweep : Type 0 where
  pub services : List Service
  pub unknown : List Unknown
  pub order : List String

pub record Hit : Type 0 where
  pub service : String
  pub checkout : String
  pub pin : Pin

pub record Answer : Type 0 where
  pub digest : String
  pub pinning : List Hit
  pub not_pinning : List Service
  pub unknown : List Unknown
  pub checkouts : ℕ

-- The hits of one service.
abbrev pub hits : String → Service → List Pin → List Hit
hits digest s [] = []
hits digest s (p ∷ ps) =
    let rest = hits digest s ps in
    if p.digest == digest
    then record { service = s.name; checkout = s.checkout; pin = p } ∷ rest
    else rest

abbrev pub all_hits : String → List Service → List Hit
all_hits digest [] = []
all_hits digest (s ∷ ss) = hits digest s s.pins ++ all_hits digest ss

abbrev pub without_hit : String → List Service → List Service
without_hit digest [] = []
without_hit digest (s ∷ ss) =
    let rest = without_hit digest ss in if is_empty (hits digest s s.pins) then s ∷ rest else rest

-- `FindByDigest`
unfoldable pub find_by_digest : Sweep → String → Answer
find_by_digest sweep digest = record {
  digest = digest;
  pinning = all_hits digest sweep.services;
  not_pinning = without_hit digest sweep.services;
  unknown = sweep.unknown;
  checkouts = length sweep.order;
}

pub data Status : Type 0 where
  affected : Status
  fixed : Status
  not_affected : Status
  under_investigation : Status

pub data Justification : Type 0 where
  unjustified : Justification
  component_not_present : Justification
  vulnerable_code_not_present : Justification

-- What a statement tells the reader to do.
pub data Action : Type 0 where
  no_action : Action
  take_successor : Subject → Action
  move_off : Subject → Action

-- The product of a statement: a service by name or a checkout by path.
pub data Product : Type 0 where
  service_product : String → Product
  checkout_product : String → Product

pub record Statement : Type 0 where
  pub vulnerability : String
  pub description : String
  pub product : Product
  pub status : Status
  pub justification : Justification
  pub other_digest_of : Option String
  pub action : Action

pub record Advisory : Type 0 where
  pub id : String
  pub summary : String
  pub subject : Subject
  pub successor : Option Subject

abbrev supersession_advisory : Subject → Option Supersession → List Advisory
supersession_advisory subject none = []
supersession_advisory subject (some s) =
    record {
      id = s.advisory_id;
      summary = s.summary;
      subject = subject;
      successor = some s.successor;
    }
    ∷ []

abbrev withdrawal_advisory : Subject → Option Withdrawal → List Advisory
withdrawal_advisory subject none = []
withdrawal_advisory subject (some w) =
    record { id = w.advisory_id; summary = w.reason; subject = subject; successor = none } ∷ []

-- `advisories`
unfoldable pub advisories : List Lifecycle → List Advisory
advisories [] = []
advisories (l ∷ ls) =
    supersession_advisory l.subject l.supersession
    ++ (withdrawal_advisory l.subject l.withdrawal ++ advisories ls)

abbrev pub holds : Pin → Subject → Bool
holds p s = p.component == s.name && p.digest == s.digest

abbrev pub holds_successor : Pin → Option Subject → Bool
holds_successor p none = false
holds_successor p (some s) = holds p s

abbrev action_for : Subject → Option Subject → Action
action_for subject none = Action.move_off subject
action_for subject (some successor) = Action.take_successor successor

abbrev pub statement_of :
    Advisory → Product → Status → Justification → Option String → Action → Statement
statement_of a product status justification other action = record {
  vulnerability = a.id;
  description = a.summary;
  product = product;
  status = status;
  justification = justification;
  other_digest_of = other;
  action = action;
}

abbrev no_pin : Advisory → Product → Bool → Statement
no_pin a product true =
    statement_of a product Status.not_affected Justification.vulnerable_code_not_present
      (some a.subject.name) Action.no_action
no_pin a product false =
    statement_of a product Status.not_affected Justification.component_not_present none
      Action.no_action

-- The loop over the pins of a service, with whether one of them held the component.
unfoldable pub judge : Advisory → Product → List Pin → Bool → Statement
judge a product [] holds_component = no_pin a product holds_component
judge a product (p ∷ ps) holds_component =
    let rest = judge a product ps (holds_component || p.component == a.subject.name) in
    if holds p a.subject
    then statement_of a product Status.affected Justification.unjustified none
        (action_for a.subject a.successor)
    else (if holds_successor p a.successor
        then statement_of a product Status.fixed Justification.unjustified none Action.no_action
        else rest)

-- `statement`
unfoldable pub statement : Advisory → Service → Statement
unfolding judge
statement a s =
    let product = Product.service_product s.name in
    if a.subject.kind == component_package
    then judge a product s.pins false
    else statement_of a product Status.under_investigation Justification.unjustified none
        Action.no_action

abbrev unknown_statement : Advisory → Unknown → Statement
unknown_statement a u =
    statement_of a (Product.checkout_product u.checkout) Status.under_investigation
      Justification.unjustified none Action.no_action

-- The statements of `VEX`, in their order.
unfoldable pub vex : Sweep → List Advisory → List Statement
unfolding statement
vex sweep [] = []
vex sweep (a ∷ others) =
    map (statement a) sweep.services
    ++ (map (unknown_statement a) sweep.unknown ++ vex sweep others)

-- A service pins no digest of the list.
pub no_hits :
    (digest : String) (s : Service) (pins : List Pin)
    → is_empty (hits digest s pins) ≡ true
    → (p : Pin) → In p pins
    → (p.digest == digest) ≡ false
no_hits digest s [] h p i = elim i [ ]
no_hits digest s (q ∷ qs) h p i = elim (Bool-cases (q.digest == digest)) [
  | inl same ↦ let k = rw same at h in cc
  | inr other ↦
      In-cons (λ (x : Pin). (x.digest == digest) ≡ false) other
        (λ x j. no_hits digest s qs (rw other at h) x j) p i
]

without_hit-none :
    (digest : String) (services : List Service) (s : Service)
    → In s (without_hit digest services)
    → is_empty (hits digest s s.pins) ≡ true
without_hit-none digest [] s i = elim i [ ]
without_hit-none digest (t ∷ ts) s i = elim (Bool-cases (is_empty (hits digest t t.pins))) [
  | inl none' ↦
      In-cons (λ (x : Service). is_empty (hits digest x x.pins) ≡ true) none'
        (λ x j. without_hit-none digest ts x j) s (rw none' at i)
  | inr some' ↦ without_hit-none digest ts s (rw some' at i)
]

-- A service that the answer lists as not pinning the digest has no pin with it.
pub find_by_digest-not_pinning :
    (sweep : Sweep) (digest : String) (s : Service) (p : Pin)
    → In s (find_by_digest sweep digest).not_pinning
    → In p s.pins
    → (p.digest == digest) ≡ false
unfolding find_by_digest
find_by_digest-not_pinning sweep digest s p i j =
    no_hits digest s s.pins (without_hit-none digest sweep.services s i) p j

length-map {ℓ κ} :
    {A : Type ℓ} {B : Type κ} (f : A → B) (xs : List A) → length (map f xs) ≡ length xs
length-map f [] = refl
length-map f (x ∷ xs) = omega (arith, length-map f xs)

-- A document has one statement for each advisory and each checkout of the sweep, read or not.
pub length-vex :
    (sweep : Sweep) (advised : List Advisory)
    → length (vex sweep advised) ≡ length advised * (length sweep.services + length sweep.unknown)
unfolding vex
length-vex sweep [] = ground arith
length-vex sweep (a ∷ others) =
    let of_services = map (statement a) sweep.services in
    let of_unknown = map (unknown_statement a) sweep.unknown in
    distribute (length others) (length sweep.services) (length sweep.unknown)
      (length-append of_services (of_unknown ++ vex sweep others))
      (length-append of_unknown (vex sweep others)) (length-map (statement a) sweep.services)
      (length-map (unknown_statement a) sweep.unknown) (length-vex sweep others)
  where
    distribute :
        {total services rest unknown more : ℕ} (n k u : ℕ)
        → total ≡ services + rest
        → rest ≡ unknown + more
        → services ≡ k
        → unknown ≡ u
        → more ≡ n * (k + u)
        → total ≡ suc n * (k + u)
    distribute n k u h₁ h₂ h₃ h₄ h₅ = ground arith

judge-not_affected :
    (a : Advisory) (product : Product) (pins : List Pin) (held : Bool)
    → (judge a product pins held).status ≡ Status.not_affected
    → (p : Pin) → In p pins
    → holds p a.subject ≡ false
unfolding judge
judge-not_affected a product [] held h p i = elim i [ ]
judge-not_affected a product (q ∷ qs) held h p i = elim (Bool-cases (holds q a.subject)) [
  | inl same ↦ let k = rw same at h in cc
  | inr other ↦
      let k = rw other at h in
      In-cons (λ (x : Pin). holds x a.subject ≡ false) other
        (judge-not_affected a product qs (held || q.component == a.subject.name)
          (skip_fixed (holds_successor q a.successor) k))
        p i
]
  where
    skip_fixed :
        (b : Bool)
        → (if b
            then statement_of a product Status.fixed Justification.unjustified none Action.no_action
            else judge a product qs (held || q.component == a.subject.name)).status
          ≡ Status.not_affected
        → (judge a product qs (held || q.component == a.subject.name)).status ≡ Status.not_affected
    skip_fixed true e = cc
    skip_fixed false e = e

holds_same : (p : Pin) (s : Subject) → p.component ≡ s.name → p.digest ≡ s.digest → holds p s ≡ true
holds_same p s same digest = rw (same, digest, beq_refl s.name, beq_refl s.digest) refl

-- A service whose statement for an advisory says that it is not affected does not pin the advisory's
-- component at the advisory's digest: a pin of that component has another digest.
pub statement-not_affected :
    (a : Advisory) (s : Service) (p : Pin)
    → (statement a s).status ≡ Status.not_affected
    → In p s.pins
    → p.component ≡ a.subject.name
    → p.digest ≢ a.subject.digest
unfolding statement
statement-not_affected a s p h i same digest =
    elim (Bool-cases (a.subject.kind == component_package)) [
      | inl component ↦
          let free =
            judge-not_affected a (Product.service_product s.name) s.pins false (rw component at h) p
              i in
          cc (free, holds_same p a.subject same digest)
      | inr runtime ↦ let k = rw runtime at h in cc
    ]
