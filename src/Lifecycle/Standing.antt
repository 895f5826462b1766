-- ===== src/Lifecycle/Standing.antt =====
-- The standing of the pins of a service: internal/lifecycle/standing.go and standing_reader.go.
use stego.Prelude.{
  String, ◌≡◌, refl, Bool, true, false, ◌&&◌, ◌||◌, not, List, [], ◌∷◌, Option, none, some, arith,
  ◌==◌, Eq, ◌↔◌, string_eq, nat_eq, eq_iff, In, In-cons, length, ◌≤◌,
}
use stego.Prelude.Dict.{Dict, lookup, insert}
use stego.Calendar.{Time, after, day_of}
use stego.Lifecycle.{Subject, Lifecycle, Supersession, Withdrawal}

abbrev subject_beq : Subject → Subject → Bool
subject_beq s t = s.kind == t.kind && s.name == t.name && s.digest == t.digest

pub subject_beq_iff : (s t : Subject) → (subject_beq s t ≡ true) ↔ (s ≡ t)
subject_beq_iff s t =
    ground (arith, eq_iff s.kind t.kind, eq_iff s.name t.name, eq_iff s.digest t.digest)

instance abbrev pub subject_eq : Eq Subject
subject_eq = record { beq = subject_beq; beq_iff = subject_beq_iff }

abbrev pub is_set : {A : Type 0} → Option A → Bool
is_set none = false
is_set (some a) = true

-- `IsSuperseded`
abbrev pub is_superseded : Lifecycle → Bool
is_superseded l = is_set l.supersession

-- `IsWithdrawn`
abbrev pub is_withdrawn : Lifecycle → Bool
is_withdrawn l = is_set l.withdrawal

abbrev pub supersession_past : Option Supersession → Time → Bool
supersession_past none today = false
supersession_past (some s) today = after today (day_of s.fails_after)

abbrev pub withdrawal_past : Option Withdrawal → Time → Bool
withdrawal_past none today = false
withdrawal_past (some w) today = after today (day_of w.fails_after)

-- `IsPastFailDate`
unfoldable pub is_past_fail_date : Lifecycle → Time → Bool
is_past_fail_date l day =
    supersession_past l.supersession (day_of day) || withdrawal_past l.withdrawal (day_of day)

-- The standing; `unreadable` holds the error's text.
pub record Standing : Type 0 where
  pub day : Time
  pub pins : List Lifecycle
  pub unreadable : Option String

unfoldable pub by_subject : Dict Subject Lifecycle → List Lifecycle → Dict Subject Lifecycle
by_subject m [] = m
by_subject m (l ∷ ls) = by_subject (insert l.subject l m) ls

abbrev pub or_new : Subject → Option Lifecycle → Lifecycle
or_new pin none = record { subject = pin; supersession = none; withdrawal = none }
or_new pin (some l) = l

abbrev pub held_pins : Dict Subject Lifecycle → List Subject → List Lifecycle
held_pins m [] = []
held_pins m (pin ∷ pins) = or_new pin (lookup pin m) ∷ held_pins m pins

-- `Project`
unfoldable pub project : List Subject → List Lifecycle → Option String → Time → Standing
unfolding by_subject
project pins lifecycles unreadable day = record {
  day = day_of day;
  pins = held_pins (by_subject [] lifecycles) pins;
  unreadable = unreadable;
}

pub record PinState : Type 0 where
  pub pin : Subject
  pub unchecked : Bool
  pub cause : String
  pub superseded : Bool
  pub supersession : Option Supersession
  pub withdrawn : Bool
  pub withdrawal : Option Withdrawal
  pub past_fail_date : Bool

-- `PinState.Current`
abbrev pub current : PinState → Bool
current p = not p.unchecked && not p.superseded && not p.withdrawn

abbrev pub pin_state : Option String → Time → Lifecycle → PinState
pin_state (some cause) day l = record {
  pin = l.subject;
  unchecked = true;
  cause = cause;
  superseded = false;
  supersession = none;
  withdrawn = false;
  withdrawal = none;
  past_fail_date = false;
}
pin_state none day l = record {
  pin = l.subject;
  unchecked = false;
  cause = "";
  superseded = is_superseded l;
  supersession = l.supersession;
  withdrawn = is_withdrawn l;
  withdrawal = l.withdrawal;
  past_fail_date = is_past_fail_date l day;
}

abbrev pin_states : Option String → Time → List Lifecycle → List PinState
pin_states unreadable day [] = []
pin_states unreadable day (l ∷ ls) = pin_state unreadable day l ∷ pin_states unreadable day ls

-- `PinStanding`
unfoldable pub pin_standing : Standing → List PinState
pin_standing s = pin_states s.unreadable s.day s.pins

supersession_past_mono :
    (o : Option Supersession) (day later : Time)
    → day.day ≤ later.day
    → supersession_past o (day_of day) ≡ true
    → supersession_past o (day_of later) ≡ true
supersession_past_mono none day later le h = h
supersession_past_mono (some s) day later le h = ground arith

withdrawal_past_mono :
    (o : Option Withdrawal) (day later : Time)
    → day.day ≤ later.day
    → withdrawal_past o (day_of day) ≡ true
    → withdrawal_past o (day_of later) ≡ true
withdrawal_past_mono none day later le h = h
withdrawal_past_mono (some w) day later le h = ground arith

-- A digest that is past its fail date on one day is past it on every later day.
pub is_past_fail_date_mono :
    (l : Lifecycle) (day later : Time)
    → day.day ≤ later.day
    → is_past_fail_date l day ≡ true
    → is_past_fail_date l later ≡ true
unfolding is_past_fail_date
is_past_fail_date_mono l day later le h = ground (
  arith,
  supersession_past_mono l.supersession day later le,
  withdrawal_past_mono l.withdrawal day later le,
)

length-pin_states :
    (unreadable : Option String) (day : Time) (m : Dict Subject Lifecycle) (pins : List Subject)
    → length (pin_states unreadable day (held_pins m pins)) ≡ length pins
length-pin_states unreadable day m [] = refl
length-pin_states unreadable day m (p ∷ ps) = omega (arith, length-pin_states unreadable day m ps)

unchecked-pin_states :
    (cause : String) (day : Time) (m : Dict Subject Lifecycle) (pins : List Subject)
    (state : PinState)
    → In state (pin_states (some cause) day (held_pins m pins))
    → current state ≡ false
unchecked-pin_states cause day m [] state i = elim i [ ]
unchecked-pin_states cause day m (p ∷ ps) state i =
    In-cons (λ (s : PinState). current s ≡ false) refl (unchecked-pin_states cause day m ps) state i

-- The standing has one state for each pin, whether the lifecycle records can be read or not.
pub length-pin_standing :
    (pins : List Subject) (lifecycles : List Lifecycle) (unreadable : Option String) (day : Time)
    → length (pin_standing (project pins lifecycles unreadable day)) ≡ length pins
unfolding pin_standing project
length-pin_standing pins lifecycles unreadable day =
    length-pin_states unreadable (day_of day) (by_subject [] lifecycles) pins

-- With the lifecycle records unreadable, no state of the standing says that its pin is current.
pub current-unreadable :
    (pins : List Subject) (lifecycles : List Lifecycle) (cause : String) (day : Time)
    (state : PinState)
    → In state (pin_standing (project pins lifecycles (some cause) day))
    → current state ≡ false
unfolding pin_standing project
current-unreadable pins lifecycles cause day state i =
    unchecked-pin_states cause (day_of day) (by_subject [] lifecycles) pins state i
