-- ===== src/Lifecycle.antt =====
-- The digest lifecycle: internal/lifecycle/types.go, rules.go and commands.go. Times are UTC, and
-- the windows of a registry are not negative.
pub mod Standing
pub mod Rules
pub mod Advisories
pub mod Store
pub mod RoundTrip
pub mod Grouping
pub mod Insertion
pub mod Reading
pub mod Late
pub mod Commands
mod Examples
use stego.Prelude.{
  ℕ, ◌+◌, ◌*◌, String, Bool, true, false, ◌&&◌, ◌||◌, not, List, [], ◌∷◌, Option, none, some, ◌==◌,
  string_eq, nat_eq, leb, if◌then◌else◌, Outcome, ok, err, require, any, contains, ◌>>=◌, ◌>>◌,
}
use stego.Prelude.Dict.{Dict, lookup}
use stego.Prelude.Text.{all_codes, is_digit, is_lower, is_upper, is_hex}
use stego.Calendar.{Time, is_zero, after, before, day_of, add_months}
use Prim.Native.Char.{code}
use Prim.Native.String.{len, [], ◌∷◌}

abbrev pub component_package : String
component_package = "component"

abbrev pub runtime_package : String
runtime_package = "runtime"

pub record Subject : Type 0 where
  pub kind : String
  pub name : String
  pub digest : String

-- `componentDigest`
abbrev pub is_component_digest : String → Bool
is_component_digest s = len s == 64 && all_codes is_hex s

abbrev is_name_code : ℕ → Bool
is_name_code c = is_lower c || is_digit c || c == b'.' || c == b'/' || c == b'_' || c == b'-'

-- `packageName`
abbrev pub is_package_name : String → Bool
is_package_name [] = false
is_package_name (c ∷ s) = (is_lower (code c) || is_digit (code c)) && all_codes is_name_code s

abbrev is_suffix_code : ℕ → Bool
is_suffix_code c = is_digit c || is_upper c || is_lower c || c == b'.' || c == b'-'

-- Where a match of `runtimeVersion` stands: behind the first so many characters of `v1.2.3-x`.
pub data Matched : Type 0 where
  start : Matched
  after_v : Matched
  major : Matched
  after_major : Matched
  minor : Matched
  after_minor : Matched
  patch : Matched
  after_dash : Matched
  suffix : Matched
  refused : Matched

digit_or : ℕ → Matched → ℕ → Matched → Matched
digit_or c digit mark next = if is_digit c then digit else if c == mark then next else refused

match_code : Matched → ℕ → Matched
unfolding digit_or
match_code start c = if c == b'v' then after_v else refused
match_code after_v c = if is_digit c then major else refused
match_code major c = digit_or c major b'.' after_major
match_code after_major c = if is_digit c then minor else refused
match_code minor c = digit_or c minor b'.' after_minor
match_code after_minor c = if is_digit c then patch else refused
match_code patch c = digit_or c patch b'-' after_dash
match_code after_dash c = if is_suffix_code c then suffix else refused
match_code suffix c = if is_suffix_code c then suffix else refused
match_code refused c = refused

is_match : Matched → Bool
is_match patch = true
is_match suffix = true
is_match m = false

matches : Matched → String → Bool
unfolding match_code is_match
matches m [] = is_match m
matches m (c ∷ s) = matches (match_code m (code c)) s

-- `runtimeVersion`
unfoldable pub is_runtime_version : String → Bool
unfolding matches
is_runtime_version s = matches start s

-- `unicode.IsSpace`
abbrev is_space : ℕ → Bool
is_space c =
    leb 9 c && leb c 13
    || c == 32
    || c == 133
    || c == 160
    || c == 5760
    || leb 8192 c && leb c 8202
    || c == 8232
    || c == 8233
    || c == 8239
    || c == 8287
    || c == 12288

-- `strings.TrimSpace(s) == ""`
abbrev pub is_blank : String → Bool
is_blank s = all_codes is_space s

pub data Refusal : Type 0 where
  missing_name : Refusal
  bad_name : String → Refusal
  missing_digest : Refusal
  bad_digest : String → Refusal
  bad_kind : String → Refusal
  missing_successor : Refusal
  declaration_unstated : Refusal
  fill_unstated : Refusal
  no_summary : Refusal
  no_recording : Refusal
  has_successor : Refusal
  other_kind : Refusal
  same_digest : Refusal
  took_no_port : Refusal
  not_graduated : Refusal
  declaration_change : Refusal
  no_release_date : Refusal
  no_stage : Refusal
  no_window : Refusal
  fail_date_late : Refusal
  no_fail_date : Refusal
  no_reason : Refusal
  fail_date_past : Refusal
  already_withdrawn : Refusal

abbrev check_digest : (String → Bool) → Subject → Outcome Refusal (Unit {0})
check_digest test s = do
  require (not (s.digest == "")) Refusal.missing_digest
  require (test s.digest) (Refusal.bad_digest s.digest)

-- `Subject.check`
unfoldable pub check : Subject → Outcome Refusal (Unit {0})
unfolding is_runtime_version all_codes
check s = do
  require (not (s.name == "")) Refusal.missing_name
  require (is_package_name s.name) (Refusal.bad_name s.name)
  if s.kind == component_package
      then check_digest is_component_digest s
      else (if s.kind == runtime_package
          then check_digest is_runtime_version s
          else err (Refusal.bad_kind s.kind))

pub record Supersession : Type 0 where
  pub successor : Subject
  pub fails_after : Time
  pub needs_declaration_change : Bool
  pub needs_fill_change : Bool
  pub recorded_on : Time
  pub advisory_id : String
  pub summary : String
  pub references : List String

pub record Withdrawal : Type 0 where
  pub fails_after : Time
  pub reason : String
  pub recorded_on : Time
  pub advisory_id : String
  pub references : List String

pub record Lifecycle : Type 0 where
  pub subject : Subject
  pub supersession : Option Supersession
  pub withdrawal : Option Withdrawal

abbrev pub Windows : Type 0
Windows = Dict String ℕ

abbrev pub default_windows : Windows
default_windows = ("alpha", 0) ∷ ("beta", 3) ∷ ("ga", 6) ∷ []

pub record SupersedeRequest : Type 0 where
  pub superseded : Subject
  pub superseded_stage : String
  pub superseded_provides : List String
  pub successor : Subject
  pub successor_stage : String
  pub successor_took_over : List String
  pub successor_released_on : Time
  pub fails_after : Option Time
  pub needs_declaration_change : Option Bool
  pub needs_fill_change : Option Bool
  pub summary : String
  pub references : List String
  pub recorded_on : Time
  pub windows : Option Windows

pub record WithdrawRequest : Type 0 where
  pub withdrawn : Subject
  pub fails_after : Option Time
  pub reason : String
  pub references : List String
  pub recorded_on : Time

-- The value behind a pointer that `supersede` has found set.
abbrev pub stated : Option Bool → Bool
stated none = false
stated (some b) = b

abbrev pub is_none : {A : Type 0} → Option A → Bool
is_none none = true
is_none (some a) = false

abbrev took_over : SupersedeRequest → Bool
took_over r = any (λ port. contains r.superseded_provides port) r.successor_took_over

-- `oneSuccessor`
unfoldable pub one_successor : Lifecycle → SupersedeRequest → Outcome Refusal (Unit {0})
one_successor current r = do
  require (is_none current.supersession) Refusal.has_successor
  require (r.successor.kind == r.superseded.kind) Refusal.other_kind
  if r.successor.name == r.superseded.name
      then require (not (r.successor.digest == r.superseded.digest)) Refusal.same_digest
      else (do
        require (took_over r) Refusal.took_no_port
        require (r.successor_stage == "ga") Refusal.not_graduated
        require (stated r.needs_declaration_change) Refusal.declaration_change)

abbrev pub windows_of : Option Windows → Windows
windows_of none = default_windows
windows_of (some w) = w

-- The latest fail date, for the window of the stage.
abbrev pub latest_date : SupersedeRequest → ℕ → Time
latest_date r months =
    add_months (day_of r.successor_released_on)
      (if stated r.needs_declaration_change then months * 2 else months)

abbrev pub fail_date_until : Time → Option Time → Outcome Refusal Time
fail_date_until latest none = ok latest
fail_date_until latest (some given) =
    if after (day_of given) latest then err Refusal.fail_date_late else ok (day_of given)

abbrev pub fail_date_for : SupersedeRequest → Option ℕ → Outcome Refusal Time
fail_date_for r none = err Refusal.no_window
fail_date_for r (some months) = fail_date_until (latest_date r months) r.fails_after

-- `failDateInWindow`
unfoldable pub fail_date_in_window : SupersedeRequest → Outcome Refusal Time
fail_date_in_window r = do
  require (not (is_zero r.successor_released_on)) Refusal.no_release_date
  require (not (r.superseded_stage == "")) Refusal.no_stage
  fail_date_for r (lookup r.superseded_stage (windows_of r.windows))

abbrev or_text : String → String → String
or_text text default = if text == "" then default else text

-- The request with the name and the kind that the successor leaves out.
abbrev pub completed : SupersedeRequest → SupersedeRequest
completed r = record r {
  successor = record {
    kind = or_text r.successor.kind r.superseded.kind;
    name = or_text r.successor.name r.superseded.name;
    digest = r.successor.digest;
  };
}

abbrev pub superseded_by : Lifecycle → SupersedeRequest → String → Time → Lifecycle
superseded_by l r id fails_after = record {
  subject = r.superseded;
  supersession = some (record {
    successor = r.successor;
    fails_after = fails_after;
    needs_declaration_change = stated r.needs_declaration_change;
    needs_fill_change = stated r.needs_fill_change;
    recorded_on = r.recorded_on;
    advisory_id = id;
    summary = r.summary;
    references = r.references;
  });
  withdrawal = l.withdrawal;
}

abbrev pub supersede_checked : Lifecycle → SupersedeRequest → String → Outcome Refusal Lifecycle
supersede_checked l r id = do
  check r.successor
  require (not (is_none r.needs_declaration_change)) Refusal.declaration_unstated
  require (not (is_none r.needs_fill_change)) Refusal.fill_unstated
  require (not (is_blank r.summary)) Refusal.no_summary
  require (not (is_zero r.recorded_on)) Refusal.no_recording
  one_successor l r
  fails_after ← fail_date_in_window r
  ok (superseded_by l r id fails_after)

-- `Lifecycle.supersede`: the lifecycle that it leaves, which is also the event; a refusal leaves the
-- lifecycle as it was.
unfoldable pub supersede : Lifecycle → SupersedeRequest → String → Outcome Refusal Lifecycle
supersede l r id = do
  check r.superseded
  require (not (r.successor.digest == "")) Refusal.missing_successor
  supersede_checked l (completed r) id

abbrev pub withdrawn_by : Lifecycle → WithdrawRequest → String → Time → Lifecycle
withdrawn_by l r id fails_after = record {
  subject = r.withdrawn;
  supersession = l.supersession;
  withdrawal = some (record {
    fails_after = fails_after;
    reason = r.reason;
    recorded_on = r.recorded_on;
    advisory_id = id;
    references = r.references;
  });
}

abbrev pub withdraw_until :
    Lifecycle → WithdrawRequest → String → Option Time → Outcome Refusal Lifecycle
withdraw_until l r id none = err Refusal.no_fail_date
withdraw_until l r id (some fails_after) = do
  require (not (is_blank r.reason)) Refusal.no_reason
  require (not (is_zero r.recorded_on)) Refusal.no_recording
  require (not (before (day_of fails_after) (day_of r.recorded_on))) Refusal.fail_date_past
  require (is_none l.withdrawal) Refusal.already_withdrawn
  ok (withdrawn_by l r id (day_of fails_after))

-- `Lifecycle.withdraw`
unfoldable pub withdraw : Lifecycle → WithdrawRequest → String → Outcome Refusal Lifecycle
withdraw l r id = do check r.withdrawn; withdraw_until l r id r.fails_after
