-- ===== src/Assure/Passed.antt =====
-- What a gate with no reason about the proof run has found, for `proofRunPassed` of internal/assure/gate.go.
use stego.Prelude.{
  String, arith, ◌≡◌, refl, subst, ◌==◌, string_eq, List, [], ◌∷◌, Option, none, some,
  if◌then◌else◌, In, In-cons, All, false, append-empty, Bool-cases, inl, inr, ◌⊎◌, eq_of_beq,
}
use stego.Prelude.Dict.{Dict, lookup, lookup-insert, insert, lookup-nil}
use stego.Prelude.Sort.{In-sort_texts}
use stego.Assure.{
  Result, passed, failed, skipped, TestOutcome, VerifiedProofRun, TestRecord, Spec, automated_of,
  automated, outcomes_by_record, result_reasons, outcome_reasons, all_outcome_reasons,
  proof_run_passed,
}

some_inj : {A : Type 0} {a b : A} → some a ≡ some b → a ≡ b
some_inj h = cc

-- What an entry put in front holds.
put_cases :
    (p o : TestOutcome) (os : List TestOutcome) (id : String) (old : Option TestOutcome)
    → (if p.test_record == id then some p else old) ≡ some o
    → (In o (p ∷ os) × (o.test_record ≡ id)) ⊎ (old ≡ some o)
put_cases p o os id old h = elim (Bool-cases (p.test_record == id)) [
  | inl same ↦
      let own = some_inj (rw same at h) in
      inl (
        subst (λ q. In q (p ∷ os) × (q.test_record ≡ id)) own
          (In.here, eq_of_beq p.test_record id same))
  | inr other ↦ inr (rw other at h)
]

-- What the outcomes by record hold is an outcome of that record.
lookup-outcomes_by_record :
    (os : List TestOutcome) (found : Dict String TestOutcome) (id : String) (o : TestOutcome)
    → lookup id (outcomes_by_record os found) ≡ some o
    → (In o os × (o.test_record ≡ id)) ⊎ (lookup id found ≡ some o)
unfolding outcomes_by_record
lookup-outcomes_by_record [] found id o h = inr h
lookup-outcomes_by_record (p ∷ os) found id o h =
    elim (lookup-outcomes_by_record os (insert p.test_record p found) id o h) [
      | inl i ↦ inl (In.there i.0, i.1)
      | inr l ↦
          put_cases p o os id (lookup id found) (rw (lookup-insert p.test_record id p found) at l)
    ]

result_reasons-none :
    (id detail : String) (r : Result) → result_reasons id detail r ≡ [] → r ≡ passed
unfolding result_reasons
result_reasons-none id detail passed h = refl
result_reasons-none id detail failed h = ground arith
result_reasons-none id detail skipped h = cc

outcome_reasons-none :
    (id : String) (p : Option TestOutcome)
    → outcome_reasons id p ≡ []
    → (o : TestOutcome) × (p ≡ some o) × (o.result ≡ passed)
unfolding outcome_reasons result_reasons
outcome_reasons-none id none h = cc
outcome_reasons-none id (some o) h = (o, refl, result_reasons-none id o.detail o.result h)

all_outcome_reasons-none :
    (outcomes : Dict String TestOutcome) (ids : List String) (id : String)
    → all_outcome_reasons outcomes ids ≡ []
    → In id ids
    → outcome_reasons id (lookup id outcomes) ≡ []
unfolding all_outcome_reasons
all_outcome_reasons-none outcomes [] id h i = elim i [ ]
all_outcome_reasons-none outcomes (j ∷ ids) id h i =
    let parts =
      append-empty (outcome_reasons j (lookup j outcomes)) (all_outcome_reasons outcomes ids) h in
    In-cons (λ k. outcome_reasons k (lookup k outcomes) ≡ []) parts.0
      (λ k. all_outcome_reasons-none outcomes ids k parts.1) id i

-- A test record has an outcome in the proof run, the last one by its name, and that outcome is passed.
abbrev pub HasPassed : VerifiedProofRun → String → Type 0
HasPassed proof id =
    (o : TestOutcome) × (lookup id (outcomes_by_record proof.outcomes []) ≡ some o)
    × In o proof.outcomes
    × (o.test_record ≡ id)
    × (o.result ≡ passed)

-- What the gate asks of an entry of the spec: it is not automated, or it has passed.
abbrev pub IsGreen : VerifiedProofRun → String × TestRecord → Type 0
IsGreen proof (id, test) = (test.is_automated ≡ false) ⊎ HasPassed proof id

each_entry :
    (proof : VerifiedProofRun) (m : Dict String TestRecord)
    → ((id : String) → In id (automated_of m) → HasPassed proof id)
    → All (IsGreen proof) m
unfolding automated_of
each_entry proof [] h = tt
each_entry proof ((id, test) ∷ m) h = elim (Bool-cases test.is_automated) [
  | inl auto ↦
      let both = rw auto at h in
      (inr (both id In.here), each_entry proof m (λ j i. both j (In.there i)))
  | inr manual ↦ (inl manual, each_entry proof m (rw manual at h))
]

HasPassed-of_none :
    (proof : VerifiedProofRun) (id : String)
    → outcome_reasons id (lookup id (outcomes_by_record proof.outcomes [])) ≡ []
    → HasPassed proof id
HasPassed-of_none proof id quiet =
    let (o, here, good) =
      outcome_reasons-none id (lookup id (outcomes_by_record proof.outcomes [])) quiet in
    elim (lookup-outcomes_by_record proof.outcomes [] id o here) [
      | inl own ↦ (o, here, own.0, own.1, good)
      | inr l ↦ let k = rw (lookup-nil id) at l in cc
    ]

-- A gate that has no reason about the proof run has a verified proof run, whatever the spec holds, and each test
-- record of the spec is not automated or has an outcome in the proof run, the last one by its name, which is
-- passed.
pub proof_run_passed-automated :
    (run : Option VerifiedProofRun) (spec : Spec) (why : String)
    → proof_run_passed run spec why ≡ []
    → (proof : VerifiedProofRun) × (run ≡ some proof) × All (IsGreen proof) spec.tests
unfolding proof_run_passed automated
proof_run_passed-automated none spec why h = cc
proof_run_passed-automated (some proof) spec why h = (
  proof,
  refl,
  each_entry proof spec.tests (λ id i. HasPassed-of_none proof id (
      all_outcome_reasons-none (outcomes_by_record proof.outcomes []) (automated spec) id h
        (In-sort_texts (automated_of spec.tests) i))),
)
