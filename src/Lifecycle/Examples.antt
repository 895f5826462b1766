-- ===== src/Lifecycle/Examples.antt =====
-- Runs of the lifecycle rules, for internal/lifecycle.
use stego.Prelude.{
  ℕ, ◌*◌, if◌then◌else◌, String, ap, ◌≡◌, ◌≢◌, refl, true, false, [], ◌∷◌, none, some, ok, In,
  string_eq, arith,
}
use stego.Prelude.Dict.{lookup}
use stego.Prelude.Text.{all_codes}
use stego.Calendar.{Time, day_of, after, before, add_months, civil_of, day_number, parse_date}
use stego.Lifecycle.{
  Subject, Lifecycle, Supersession, Withdrawal, SupersedeRequest, WithdrawRequest, supersede,
  withdraw, check, is_blank, one_successor, fail_date_in_window, windows_of,
}
use stego.Lifecycle.Advisories.{
  Dates, Advisory, entry, advisory_number, is_advisory_id, supersession_advisory,
  withdrawal_advisory,
}
use stego.Lifecycle.RoundTrip.{entry-supersession_advisory, entry-withdrawal_advisory}
use stego.Lifecycle.Store.{Folder, get, next_advisory_id, add, supersede_digest}
use stego.Lifecycle.Commands.{supersede_digest-refines}
use stego.Prelude.Sort.{place}
use stego.Lifecycle.Rules.{asked_or, supersede_once, supersede_in_window, withdraw_future}
use stego.Lifecycle.Standing.{
  is_past_fail_date, is_past_fail_date_mono, current-unreadable, pin_standing, project, current,
  PinState, by_subject, subject_eq, pin_state, or_new,
}

abbrev old_pin : Subject
old_pin = record {
  kind = "component";
  name = "rest-api";
  digest = "0000000000000000000000000000000000000000000000000000000000000000";
}

abbrev new_pin : Subject
new_pin = record {
  kind = "";
  name = "";
  digest = "1111111111111111111111111111111111111111111111111111111111111111";
}

abbrev midnight : ℕ → Time
midnight n = record { day = n; nanos = 0 }

abbrev request : SupersedeRequest
request = record {
  superseded = old_pin;
  superseded_stage = "ga";
  superseded_provides = [];
  successor = new_pin;
  successor_stage = "ga";
  successor_took_over = [];
  successor_released_on = midnight 886261;
  fails_after = none;
  needs_declaration_change = some false;
  needs_fill_change = some false;
  summary = "faster";
  references = [];
  recorded_on = midnight 886261;
  windows = none;
}

abbrev untouched : Lifecycle
untouched = record { subject = old_pin; supersession = none; withdrawal = none }

-- Six months after 31 August is 3 March.
abbrev replaced : Lifecycle
replaced = record {
  subject = old_pin;
  supersession = some (record {
    successor = record { kind = "component"; name = "rest-api"; digest = new_pin.digest };
    fails_after = midnight 886445;
    needs_declaration_change = false;
    needs_fill_change = false;
    recorded_on = midnight 886261;
    advisory_id = "STEGO-2026-0001";
    summary = "faster";
    references = [];
  });
  withdrawal = none;
}

request-accepted : supersede untouched request "STEGO-2026-0001" ≡ ok replaced
unfolding supersede check one_successor fail_date_in_window lookup add_months civil_of day_number
    all_codes
request-accepted = refl

supersede_once_example : supersede replaced request "STEGO-2026-0002" ≢ ok replaced
supersede_once_example =
    supersede_once untouched replaced request "STEGO-2026-0001" request-accepted request
      "STEGO-2026-0002" replaced

-- A declaration change doubles the window of six months, and a date within it is taken as its day.
abbrev late_request : SupersedeRequest
late_request = record request {
  fails_after = some (record { day = 886600; nanos = 5 });
  needs_declaration_change = some true;
}

abbrev replaced_late : Lifecycle
replaced_late = record {
  subject = old_pin;
  supersession = some (record {
    successor = record { kind = "component"; name = "rest-api"; digest = new_pin.digest };
    fails_after = midnight 886600;
    needs_declaration_change = true;
    needs_fill_change = false;
    recorded_on = midnight 886261;
    advisory_id = "STEGO-2026-0001";
    summary = "faster";
    references = [];
  });
  withdrawal = none;
}

late_request-accepted : supersede untouched late_request "STEGO-2026-0001" ≡ ok replaced_late
unfolding supersede check one_successor fail_date_in_window lookup add_months civil_of day_number
    all_codes
late_request-accepted = refl

supersede_in_window_example :
    (s : Supersession) × (months : ℕ) × (replaced_late.supersession ≡ some s)
    × (lookup "ga" (windows_of none) ≡ some months)
    × (late_request.needs_declaration_change ≡ some s.needs_declaration_change)
    × ((latest : Time) × (latest
          ≡ add_months
              (day_of late_request.successor_released_on)
              (if s.needs_declaration_change then months * 2 else months))
        × (after s.fails_after latest ≡ false)
        × (s.fails_after ≡ asked_or latest late_request.fails_after))
supersede_in_window_example =
    supersede_in_window untouched replaced_late late_request "STEGO-2026-0001" late_request-accepted

abbrev bad_digest : WithdrawRequest
bad_digest = record {
  withdrawn = old_pin;
  fails_after = some (record { day = 886300; nanos = 7 });
  reason = "leaks";
  references = [];
  recorded_on = midnight 886270;
}

abbrev withdrawn : Lifecycle
withdrawn = record {
  subject = old_pin;
  supersession = replaced.supersession;
  withdrawal = some (record {
    fails_after = midnight 886300;
    reason = "leaks";
    recorded_on = midnight 886270;
    advisory_id = "STEGO-2026-0003";
    references = [];
  });
}

withdrawal-accepted : withdraw replaced bad_digest "STEGO-2026-0003" ≡ ok withdrawn
unfolding withdraw check all_codes
withdrawal-accepted = refl

withdraw_future_example :
    (w : Withdrawal) × (replaced.withdrawal ≡ none)
    × (withdrawn.withdrawal ≡ some w)
    × (withdrawn.supersession ≡ replaced.supersession)
    × ((given : Time) × (bad_digest.fails_after ≡ some given)
        × (w.fails_after ≡ day_of given)
        × (before w.fails_after (midnight 886270) ≡ false))
withdraw_future_example =
    withdraw_future replaced withdrawn bad_digest "STEGO-2026-0003" withdrawal-accepted

past_on_first_day : is_past_fail_date replaced (midnight 886446) ≡ true
unfolding is_past_fail_date
past_on_first_day = refl

is_past_fail_date_mono_example : is_past_fail_date replaced (midnight 886500) ≡ true
is_past_fail_date_mono_example =
    is_past_fail_date_mono replaced (midnight 886446) (midnight 886500) (omega arith)
      past_on_first_day

abbrev unread : PinState
unread = pin_state (some "no head") (midnight 886446) (or_new old_pin none)

unread-In : In unread (pin_standing (project (old_pin ∷ []) [] (some "no head") (midnight 886446)))
unfolding pin_standing project by_subject lookup
unread-In = In.here

current-unreadable_example : current unread ≡ false
current-unreadable_example =
    current-unreadable (old_pin ∷ []) [] "no head" (midnight 886446) unread unread-In

-- A clock that knows one time and one date, and a JSON with two bytes of text and no decoding.
abbrev one_day : Dates
one_day = record {
  encode_advisory = λ a. 123 ∷ 125 ∷ [];
  decode_advisory = λ content. none;
  format_time = λ t. "2026-08-31T00:00:00Z";
  parse_time = λ s. some (midnight 886261);
  format_date = λ t. "2027-03-03";
}

abbrev full_successor : Supersession
full_successor = record {
  successor = record { kind = "component"; name = "rest-api"; digest = new_pin.digest };
  fails_after = midnight 886445;
  needs_declaration_change = false;
  needs_fill_change = false;
  recorded_on = midnight 886261;
  advisory_id = "STEGO-2026-0001";
  summary = "faster";
  references = "https://example.org/1" ∷ [];
}

old_pin-checked : check old_pin ≡ ok tt
unfolding check all_codes
old_pin-checked = refl

successor-checked : check full_successor.successor ≡ ok tt
unfolding check all_codes
successor-checked = refl

id-read : is_advisory_id "STEGO-2026-0001" ≡ true
unfolding advisory_number
id-read = refl

date-read : parse_date (one_day.format_date (midnight 886445)) ≡ some (midnight 886445)
unfolding parse_date day_number
date-read = refl

not_blank : is_blank "faster" ≡ false
unfolding all_codes
not_blank = refl

entry-supersession_advisory_example :
    entry one_day (supersession_advisory one_day old_pin full_successor)
    ≡ ok (record { subject = old_pin; supersession = some full_successor; withdrawal = none })
entry-supersession_advisory_example =
    entry-supersession_advisory one_day old_pin full_successor old_pin-checked successor-checked
      refl id-read not_blank refl date-read

abbrev full_withdrawal : Withdrawal
full_withdrawal = record {
  fails_after = midnight 886445;
  reason = "faster";
  recorded_on = midnight 886261;
  advisory_id = "STEGO-2026-0001";
  references = [];
}

entry-withdrawal_advisory_example :
    entry one_day (withdrawal_advisory one_day old_pin full_withdrawal)
    ≡ ok (record { subject = old_pin; supersession = none; withdrawal = some full_withdrawal })
entry-withdrawal_advisory_example =
    entry-withdrawal_advisory one_day old_pin full_withdrawal old_pin-checked id-read not_blank refl
      date-read

abbrev stego_id : ℕ → ℕ → String
stego_id year number = "STEGO-2026-0001"

abbrev first_advisory : Advisory
first_advisory = supersession_advisory one_day old_pin (record full_successor { references = [] })

-- The same with a JSON that reads back the one advisory.
abbrev one_json : Dates
one_json = record one_day { decode_advisory = λ content. some first_advisory }

abbrev written : Folder
written =
    some
      (record { name = "STEGO-2026-0001.json"; regular = true; content = 123 ∷ 125 ∷ 10 ∷ [] } ∷ [])

first_record : supersede_digest one_json stego_id none request ≡ ok (written, replaced)
unfolding supersede_digest get next_advisory_id add place supersede check one_successor
    fail_date_in_window lookup add_months civil_of day_number all_codes
first_record = refl

another_pin : Subject
another_pin = record { kind = "component"; name = "other"; digest = "" }

another-differs : another_pin ≢ old_pin
unfolding another_pin
another-differs e = let k : another_pin.name ≡ old_pin.name = ap (λ (s : Subject). s.name) e in cc

supersede_digest-refines_example :
    ((current : Lifecycle) × (id : String) × (get one_json none old_pin ≡ ok current)
      × (supersede current request id ≡ ok replaced)
      × (get one_json written old_pin ≡ ok replaced))
    × (get one_json written another_pin ≡ get one_json none another_pin)
supersede_digest-refines_example =
    supersede_digest-refines one_json stego_id none written request replaced
      (record full_successor { references = [] }) another_pin first_record refl id-read refl
      date-read (refl, refl) another-differs
