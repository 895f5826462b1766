-- ===== src/Assure.antt =====
-- What a gate asks of the proof run of a change: `proofRunPassed` of internal/assure/gate.go, with the
-- records of record.go, proof_run.go, verify.go and result.go that it reads. An outcome is without its
-- duration, a verified proof run without its attestation, grade and times, and a spec without its
-- technical records, which this predicate does not read.
use Prim.Native.Char.{code}
use Prim.Native.String
use stego.Prelude.{
  String, Bool, true, false, not, ◌&&◌, ◌==◌, string_eq, List, [], ◌∷◌, ◌++◌, map, Option, none,
  some, if◌then◌else◌, is_empty, keep, contains, nat_beq,
}
use stego.Prelude.Dict.{Dict, lookup, insert}
use stego.Prelude.Sort.{sort_texts, sort_by, text_le, sorted_keys}
pub mod Obligations
pub mod Passed
pub mod Ratchet
mod Examples

pub data Result : Type 0 where
  passed : Result
  failed : Result
  skipped : Result

pub record TestOutcome : Type 0 where
  pub test_record : String
  pub result : Result
  pub file : String
  pub detail : String

pub record VerifiedProofRun : Type 0 where
  pub run_commit : String
  pub provider : String
  pub run_reference : String
  pub spec_digest : String
  pub outcomes : List TestOutcome

pub record TestRecord : Type 0 where
  pub id : String
  pub test_file : String
  pub state : String
  pub is_automated : Bool

pub record Retirement : Type 0 where
  pub retirement_id : String
  pub retired : String
  pub successors : List String

pub record Spec : Type 0 where
  pub digest : String
  pub tests : Dict String TestRecord
  pub domains : Dict String String
  pub retirements : List Retirement

-- The texts one after the other.
abbrev pub texts : List String → String
texts [] = ""
texts (s ∷ ss) = Prim.Native.String.◌++◌ s (texts ss)

-- The identifiers of the automated tests, before the sort.
unfoldable pub automated_of : Dict String TestRecord → List String
automated_of [] = []
automated_of ((id, test) ∷ rest) =
    let ids = automated_of rest in if test.is_automated then id ∷ ids else ids

unfoldable pub automated : Spec → List String
unfolding sort_texts automated_of
automated spec = sort_texts (automated_of spec.tests)

unfoldable pub did_not_run : String
did_not_run = "did not run"

-- The outcomes by test record: a later outcome of the same record replaces the one before.
unfoldable pub outcomes_by_record :
    List TestOutcome → Dict String TestOutcome → Dict String TestOutcome
unfolding insert
outcomes_by_record [] found = found
outcomes_by_record (o ∷ os) found = outcomes_by_record os (insert o.test_record o found)

unfoldable pub result_reasons : String → String → Result → List String
unfolding did_not_run
result_reasons id detail passed = []
result_reasons id detail failed =
    if detail == did_not_run
    then texts (id ∷ " failed: " ∷ did_not_run ∷ []) ∷ []
    else texts (id ∷ " failed" ∷ []) ∷ []
result_reasons id detail skipped = texts (id ∷ " skipped" ∷ []) ∷ []

unfoldable pub outcome_reasons : String → Option TestOutcome → List String
unfolding result_reasons
outcome_reasons id none = texts (id ∷ " has no outcome in the proof run" ∷ []) ∷ []
outcome_reasons id (some o) = result_reasons id o.detail o.result

unfoldable pub all_outcome_reasons : Dict String TestOutcome → List String → List String
unfolding outcome_reasons lookup
all_outcome_reasons outcomes [] = []
all_outcome_reasons outcomes (id ∷ ids) =
    outcome_reasons id (lookup id outcomes) ++ all_outcome_reasons outcomes ids

unfoldable pub proof_run_passed : Option VerifiedProofRun → Spec → String → List String
unfolding all_outcome_reasons outcomes_by_record automated
proof_run_passed none spec why = why ∷ []
proof_run_passed (some proof) spec why =
    all_outcome_reasons (outcomes_by_record proof.outcomes []) (automated spec)
