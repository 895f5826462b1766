-- ===== src/Lifecycle/Advisories.antt =====
-- The OSV advisories that hold the lifecycle records: internal/lifecycle/store.go. Package `time` reads
-- and writes the RFC 3339 times and writes the dates.
use Prim.Native.Char.{code}
use Prim.Native.String
use stego.Prelude.{
  ℕ, ◌+◌, ◌*◌, ◌-◌, String, Bool, not, ◌&&◌, List, [], ◌∷◌, Option, none, some, ◌==◌, string_eq,
  nat_eq, leb, if◌then◌else◌, Outcome, ok, err, require, ◌>>=◌, ◌>>◌, is_empty,
}
use stego.Prelude.Text.{all_codes, is_digit, cut_prefix}
use stego.Calendar.{Time, day_of, parse_date}
use stego.Lifecycle.{
  Subject, Refusal, Supersession, Withdrawal, check, is_blank, is_none, component_package,
  runtime_package,
}

pub record OsvEvent : Type 0 where
  pub introduced : String
  pub fixed : String

pub record OsvRange : Type 0 where
  pub range_type : String
  pub events : List OsvEvent

pub record OsvPackage : Type 0 where
  pub ecosystem : String
  pub name : String

pub record OsvAffected : Type 0 where
  pub osv_package : OsvPackage
  pub ranges : List OsvRange
  pub versions : List String

pub record OsvReference : Type 0 where
  pub reference_type : String
  pub url : String

pub record StegoFields : Type 0 where
  pub kind : String
  pub successor_name : String
  pub fails_after : String
  pub needs_declaration_change : Option Bool
  pub needs_fill_change : Option Bool

-- `Advisory`, with the fields under `database_specific.stego`
pub record Advisory : Type 0 where
  pub schema_version : String
  pub id : String
  pub modified : String
  pub published : String
  pub withdrawn : String
  pub summary : String
  pub affected : List OsvAffected
  pub references : List OsvReference
  pub fields : StegoFields

-- `advisoryEntry`
pub record Entry : Type 0 where
  pub subject : Subject
  pub supersession : Option Supersession
  pub withdrawal : Option Withdrawal

-- What the code takes from the packages `time` and `encoding/json`.
pub record Dates : Type 0 where
  pub encode_advisory : Advisory → List ℕ
  pub decode_advisory : List ℕ → Option Advisory
  pub format_time : Time → String
  pub parse_time : String → Option Time
  pub format_date : Time → String

pub data AdvisoryFault : Type 0 where
  schema_version : AdvisoryFault
  bad_id : AdvisoryFault
  no_summary : AdvisoryFault
  bad_time : String → AdvisoryFault
  affected_count : AdvisoryFault
  bad_ecosystem : AdvisoryFault
  bad_date : AdvisoryFault
  bad_range : AdvisoryFault
  changes_unstated : AdvisoryFault
  subject : Refusal → AdvisoryFault
  not_one_version : AdvisoryFault
  withdrawal_successor : AdvisoryFault
  bad_kind : String → AdvisoryFault

abbrev pub osv_schema_version : String
osv_schema_version = "1.6.0"

abbrev pub component_ecosystem : String
component_ecosystem = "STEGO"

abbrev pub runtime_ecosystem : String
runtime_ecosystem = "Go"

abbrev pub supersession_kind : String
supersession_kind = "supersession"

abbrev pub withdrawal_kind : String
withdrawal_kind = "withdrawal"

-- The number that digits write, behind one that is read.
abbrev pub digits_from : ℕ → String → ℕ
digits_from n String.[] = n
digits_from n (String.◌∷◌ c s) = digits_from (n * 10 + (code c - b'0')) s

-- `([0-9]{4,})$`
abbrev pub sequence_of : String → Option ℕ
sequence_of s =
    if leb 4 (Prim.Native.String.len s) && all_codes is_digit s
    then some (digits_from 0 s)
    else none

abbrev pub with_year : ℕ → Option ℕ → Option (ℕ × ℕ)
with_year year none = none
with_year year (some n) = some (year, n)

abbrev pub year_and_sequence : String → Option (ℕ × ℕ)
year_and_sequence (String.◌∷◌ a (String.◌∷◌ b (String.◌∷◌ c (String.◌∷◌ d (String.◌∷◌ h s))))) =
    if is_digit (code a)
      && is_digit (code b)
      && is_digit (code c)
      && is_digit (code d)
      && code h == b'-'
    then with_year
        (digits_from 0 (String.◌∷◌ a (String.◌∷◌ b (String.◌∷◌ c (String.◌∷◌ d String.[])))))
        (sequence_of s)
    else none
year_and_sequence s = none

abbrev pub behind_prefix : Option String → Option (ℕ × ℕ)
behind_prefix none = none
behind_prefix (some s) = year_and_sequence s

-- `advisoryID`: the year and the number of an id such as STEGO-2026-0001.
unfoldable pub advisory_number : String → Option (ℕ × ℕ)
unfolding cut_prefix all_codes
advisory_number s = behind_prefix (cut_prefix "STEGO-" s)

abbrev pub is_advisory_id : String → Bool
is_advisory_id s = not (is_none (advisory_number s))

abbrev pub time_of : String → Option Time → Outcome AdvisoryFault Time
time_of text none = err (AdvisoryFault.bad_time text)
time_of text (some t) = ok t

abbrev pub date_of : Option Time → Outcome AdvisoryFault Time
date_of none = err AdvisoryFault.bad_date
date_of (some t) = ok t

abbrev pub lift_check : Outcome Refusal (Unit {0}) → Outcome AdvisoryFault (Unit {0})
lift_check (ok u) = ok u
lift_check (err e) = err (AdvisoryFault.subject e)

abbrev pub kind_of : String → Outcome AdvisoryFault String
kind_of ecosystem =
    if ecosystem == component_ecosystem
    then ok component_package
    else (if ecosystem == runtime_ecosystem
        then ok runtime_package
        else err AdvisoryFault.bad_ecosystem)

-- The superseded digest and its successor, in one range of two events.
abbrev pub events_of : List OsvEvent → Outcome AdvisoryFault (String × String)
events_of (a ∷ b ∷ []) =
    if not (a.introduced == "") && a.fixed == "" && not (b.fixed == "") && b.introduced == ""
    then ok (a.introduced, b.fixed)
    else err AdvisoryFault.bad_range
events_of _ = err AdvisoryFault.bad_range

abbrev pub range_of : List OsvRange → Outcome AdvisoryFault (String × String)
range_of (r ∷ []) =
    if r.range_type == "ECOSYSTEM" then events_of r.events else err AdvisoryFault.bad_range
range_of _ = err AdvisoryFault.bad_range

abbrev pub one_range : OsvAffected → Outcome AdvisoryFault (String × String)
one_range a = if is_empty a.versions then range_of a.ranges else err AdvisoryFault.bad_range

abbrev pub both_stated : Option Bool → Option Bool → Outcome AdvisoryFault (Bool × Bool)
both_stated (some a) (some b) = ok (a, b)
both_stated none b = err AdvisoryFault.changes_unstated
both_stated (some a) none = err AdvisoryFault.changes_unstated

abbrev pub one_version : OsvAffected → Outcome AdvisoryFault String
one_version a =
    if is_empty a.ranges then version_of a.versions else err AdvisoryFault.not_one_version
  where
    version_of : List String → Outcome AdvisoryFault String
    version_of (v ∷ []) = ok v
    version_of _ = err AdvisoryFault.not_one_version

abbrev pub urls : List OsvReference → List String
urls [] = []
urls (r ∷ rs) = r.url ∷ urls rs

-- `references`
abbrev pub references_of : List String → List OsvReference
references_of [] = []
references_of (u ∷ us) = record { reference_type = "WEB"; url = u } ∷ references_of us

-- `ecosystem`
abbrev pub ecosystem_of : String → String
ecosystem_of kind = if kind == runtime_package then runtime_ecosystem else component_ecosystem

module _ (dates : Dates) where
  open dates use {format_time, parse_time, format_date}

  -- A retracted supersession carries the time.
  abbrev pub check_retraction : String → Outcome AdvisoryFault (Unit {0})
  check_retraction withdrawn =
      if withdrawn == "" then ok tt else (time_of withdrawn (parse_time withdrawn) >>= λ t. ok tt)

  abbrev pub successor_of : String → Advisory → OsvAffected → String → Subject
  successor_of kind a x digest = record {
    kind = kind;
    name = if a.fields.successor_name == "" then x.osv_package.name else a.fields.successor_name;
    digest = digest;
  }

  abbrev pub read_supersession :
      Advisory → OsvAffected → String → Time → Time → Outcome AdvisoryFault Entry
  read_supersession a x kind published fails_after = do
    pair ← one_range x
    changes ← both_stated a.fields.needs_declaration_change a.fields.needs_fill_change
    lift_check (check (record { kind = kind; name = x.osv_package.name; digest = pair.0 }))
    lift_check (check (successor_of kind a x pair.1))
    check_retraction a.withdrawn
    ok (record {
      subject = record { kind = kind; name = x.osv_package.name; digest = pair.0 };
      supersession = some (record {
        successor = successor_of kind a x pair.1;
        fails_after = fails_after;
        needs_declaration_change = changes.0;
        needs_fill_change = changes.1;
        recorded_on = published;
        advisory_id = a.id;
        summary = a.summary;
        references = urls a.references;
      });
      withdrawal = none;
    })

  abbrev pub read_withdrawal : Advisory → OsvAffected → String → Time → Outcome AdvisoryFault Entry
  read_withdrawal a x kind fails_after = do
    version ← one_version x
    require
        (a.fields.successor_name == ""
          && is_none a.fields.needs_declaration_change
          && is_none a.fields.needs_fill_change)
        AdvisoryFault.withdrawal_successor
    withdrawn ← time_of a.withdrawn (parse_time a.withdrawn)
    lift_check (check (record { kind = kind; name = x.osv_package.name; digest = version }))
    ok (record {
      subject = record { kind = kind; name = x.osv_package.name; digest = version };
      supersession = none;
      withdrawal = some (record {
        fails_after = fails_after;
        reason = a.summary;
        recorded_on = withdrawn;
        advisory_id = a.id;
        references = urls a.references;
      });
    })

  abbrev pub read_kind : Advisory → OsvAffected → String → Time → Time → Outcome AdvisoryFault Entry
  read_kind a x kind published fails_after =
      if a.fields.kind == supersession_kind
      then read_supersession a x kind published fails_after
      else (if a.fields.kind == withdrawal_kind
          then read_withdrawal a x kind fails_after
          else err (AdvisoryFault.bad_kind a.fields.kind))

  abbrev pub read_affected : Advisory → Time → List OsvAffected → Outcome AdvisoryFault Entry
  read_affected a published (x ∷ []) = do
    kind ← kind_of x.osv_package.ecosystem
    fails_after ← date_of (parse_date a.fields.fails_after)
    read_kind a x kind published fails_after
  read_affected a published _ = err AdvisoryFault.affected_count

  -- `Advisory.entry`
  unfoldable pub entry : Advisory → Outcome AdvisoryFault Entry
  unfolding all_codes
  entry a = do
    require (a.schema_version == osv_schema_version) AdvisoryFault.schema_version
    require (is_advisory_id a.id) AdvisoryFault.bad_id
    require (not (is_blank a.summary)) AdvisoryFault.no_summary
    published ← time_of a.published (parse_time a.published)
    modified ← time_of a.modified (parse_time a.modified)
    read_affected a published a.affected

  -- `supersessionAdvisory`
  abbrev pub supersession_advisory : Subject → Supersession → Advisory
  supersession_advisory s x = record {
    schema_version = osv_schema_version;
    id = x.advisory_id;
    modified = format_time x.recorded_on;
    published = format_time x.recorded_on;
    withdrawn = "";
    summary = x.summary;
    affected =
        record {
          osv_package = record { ecosystem = ecosystem_of s.kind; name = s.name };
          ranges =
              record {
                range_type = "ECOSYSTEM";
                events =
                    record { introduced = s.digest; fixed = "" }
                    ∷ record { introduced = ""; fixed = x.successor.digest }
                    ∷ [];
              }
              ∷ [];
          versions = [];
        }
        ∷ [];
    references = references_of x.references;
    fields = record {
      kind = supersession_kind;
      successor_name = if x.successor.name == s.name then "" else x.successor.name;
      fails_after = format_date (day_of x.fails_after);
      needs_declaration_change = some x.needs_declaration_change;
      needs_fill_change = some x.needs_fill_change;
    };
  }

  -- `withdrawalAdvisory`
  abbrev pub withdrawal_advisory : Subject → Withdrawal → Advisory
  withdrawal_advisory s w = record {
    schema_version = osv_schema_version;
    id = w.advisory_id;
    modified = format_time w.recorded_on;
    published = format_time w.recorded_on;
    withdrawn = format_time w.recorded_on;
    summary = w.reason;
    affected =
        record {
          osv_package = record { ecosystem = ecosystem_of s.kind; name = s.name };
          ranges = [];
          versions = s.digest ∷ [];
        }
        ∷ [];
    references = references_of w.references;
    fields = record {
      kind = withdrawal_kind;
      successor_name = "";
      fails_after = format_date (day_of w.fails_after);
      needs_declaration_change = none;
      needs_fill_change = none;
    };
  }
