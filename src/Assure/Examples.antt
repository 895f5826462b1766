-- ===== src/Assure/Examples.antt =====
-- Runs of the gate of internal/assure/gate.go on small measurements and a small proof run.
use stego.Prelude.{All, string_eq, ◌≡◌, refl, true, false, List, [], ◌∷◌, some}
use stego.Prelude.Dict.{lookup, insert}
use stego.Prelude.Sort.{sort_texts, sort_by, place, sorted_keys}
use stego.Assure.{
  passed, TestOutcome, VerifiedProofRun, TestRecord, Retirement, Spec, automated_of, automated,
  outcomes_by_record, result_reasons, outcome_reasons, all_outcome_reasons, proof_run_passed,
}
use stego.Assure.Obligations.{
  proved, Standing, has, Measurement, all_shares, cut_at, standing_of, in_scope, lacking, add_line,
  follow, named, absent, compare_standing, compare_all, holds_ratchet, retiring, retiring_rule,
  pattern_rule_in, add_before,
}
use stego.Assure.Passed.{IsGreen, proof_run_passed-automated}
use stego.Assure.Ratchet.{holds_ratchet-StillHeld, StillHeld}

abbrev whole : Standing
whole = record { is_designed = true; is_built = true; is_proved = true }

abbrev drawn : Standing
drawn = record { is_designed = true; is_built = false; is_proved = false }

abbrev before_merge : Measurement
before_merge = record {
  commit = "1f";
  obligations = ("R1@web", whole) ∷ ("B", drawn) ∷ ("A", whole) ∷ [];
}

-- The rule R1 is retired in favour of R2, which the domain `web` follows.
abbrev after_merge : Measurement
after_merge = record {
  commit = "2f";
  obligations = ("A", whole) ∷ ("B", whole) ∷ ("R2@web", whole) ∷ ("R2@api", drawn) ∷ [];
}

abbrev rule_retired : List Retirement
rule_retired = record { retirement_id = "RET1"; retired = "R1"; successors = "R2" ∷ [] } ∷ []

cut_runs : cut_at "R1@web@x" ≡ some ("R1", "web@x")
unfolding cut_at add_before
cut_runs = refl

ratchet_runs : (holds_ratchet before_merge after_merge rule_retired).0 ≡ []
unfolding holds_ratchet compare_all sorted_keys sort_texts sort_by place compare_standing lookup
    standing_of absent named has all_shares retiring retiring_rule cut_at add_before follow lacking
    add_line in_scope pattern_rule_in
ratchet_runs = refl

-- Without the retirement, the rule may not go.
ratchet_refuses :
    (holds_ratchet before_merge after_merge []).0
    ≡ "R1@web is absent at the change (was designed, built, proved at the base)" ∷ []
unfolding holds_ratchet compare_all sorted_keys sort_texts sort_by place compare_standing lookup
    standing_of absent named has all_shares retiring retiring_rule cut_at add_before
ratchet_refuses = refl

found_before : lookup "R1@web" before_merge.obligations ≡ some whole
unfolding lookup
found_before = refl

proved_before : has whole proved ≡ true
unfolding has
proved_before = refl

holds_ratchet-StillHeld_example :
    StillHeld after_merge rule_retired "R1@web" proved (lookup "R1@web" after_merge.obligations)
holds_ratchet-StillHeld_example =
    holds_ratchet-StillHeld before_merge after_merge rule_retired ratchet_runs "R1@web" whole proved
      found_before proved_before

abbrev green : TestOutcome
green = record { test_record = "T1"; result = passed; file = "a_test.go"; detail = "" }

abbrev proof_run : VerifiedProofRun
proof_run = record {
  run_commit = "2f";
  provider = "github";
  run_reference = "7";
  spec_digest = "";
  outcomes = green ∷ [];
}

abbrev test_of_a : TestRecord
test_of_a = record { id = "T1"; test_file = "a_test.go"; state = "automated"; is_automated = true }

abbrev test_spec : Spec
test_spec = record {
  digest = "";
  tests =
      ("T1", test_of_a)
      ∷ ("T2", record { id = "T2"; test_file = ""; state = "planned"; is_automated = false })
      ∷ [];
  domains = [];
  retirements = [];
}

passed_runs : proof_run_passed (some proof_run) test_spec "" ≡ []
unfolding proof_run_passed all_outcome_reasons outcomes_by_record automated automated_of sort_texts
    sort_by place insert lookup outcome_reasons result_reasons
passed_runs = refl

proof_run_passed-automated_example :
    (proof : VerifiedProofRun) × (some proof_run ≡ some proof) × All (IsGreen proof) test_spec.tests
proof_run_passed-automated_example =
    proof_run_passed-automated (some proof_run) test_spec "" passed_runs
