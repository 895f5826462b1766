-- ===== src/Generating/Planning/Reconcile.antt =====
-- The end of `Reconcile` of internal/compiler/reconciler.go, from the generated files on, and the two
-- choices of the author on a plan: `ReplaceHandEdits` and `UseSavedPlan`.
use stego.Prelude.{
  String, string_eq, ◌≡◌, ap, ◌∙◌, Bool, Option, none, some, Outcome, ok, ◌>>=◌, ◌>>◌, >>-step,
  >>=-eq-ok,
}
use stego.Prelude.Dict.{Dict, lookup}
use stego.Generating.Snapshot.{Disk, FileSnapshot}
use stego.Generating.State.{Codec, AppliedState, InputManifest}
use stego.Generating.Planning.Types.{SavedPlan, Plan, PlanFault}
use stego.Generating.Planning.Compute.{
  PlanInput, validate_unique_file_paths, compute_plan, bind_plan_inputs,
}
use stego.Generating.Planning.Apply.{Session, verify_registry}
use stego.Generating.Planning.Checked.{bind_plan_inputs-keeps}

abbrev manifest_sha : Option InputManifest → String
manifest_sha none = ""
manifest_sha (some m) = m.sha256

abbrev applied_sha : Option AppliedState → String
applied_sha none = ""
applied_sha (some a) = manifest_sha a.inputs

abbrev pub with_identity : PlanInput → Plan → Plan
with_identity input plan = record plan {
  input_manifest_sha = applied_sha plan.new_state.last_applied;
  registry_content = some input.registry_content;
}

abbrev pub confirmed : Bool → Option SavedPlan → Plan → Plan
confirmed replace saved plan = record plan { replace_hand_edits = replace; saved = saved }

module _ (codec : Codec) where
  -- The plan for the generated files of `input`, with the snapshots of the inputs.
  unfoldable pub make_plan :
      Session → Disk → PlanInput → Dict String FileSnapshot → Outcome PlanFault Plan
  make_plan session d input inputs = do
    validate_unique_file_paths codec.to_lower input.generated
    planned ← compute_plan codec session.build d input
    bound ← bind_plan_inputs codec d inputs planned
    verify_registry codec session (with_identity input bound)
    ok (with_identity input bound)

  -- The computed plan inside a plan that was made.
  pub record Made (session : Session) (d : Disk) (input : PlanInput) (plan : Plan) : Type 0 where
    pub planned : Plan
    pub computed : compute_plan codec session.build d input ≡ ok planned
    pub snapshots : Dict String FileSnapshot
    pub keeps :
        (name : String) (s : FileSnapshot)
        → lookup name planned.snapshots ≡ some s
        → lookup name snapshots ≡ some s
    pub result : with_identity input (record planned { snapshots = snapshots }) ≡ plan

  pub make_plan-Made :
      (session : Session) (d : Disk) (input : PlanInput) (inputs : Dict String FileSnapshot)
      (plan : Plan)
      → make_plan session d input inputs ≡ ok plan
      → Made session d input plan
  unfolding make_plan
  make_plan-Made session d input inputs plan h =
      let (_, h₁) = >>-step (validate_unique_file_paths codec.to_lower input.generated) _ h in
      let (planned, computed, h₂) = >>=-eq-ok (compute_plan codec session.build d input) _ h₁ in
      let (bound, binds, h₃) = >>=-eq-ok (bind_plan_inputs codec d inputs planned) _ h₂ in
      let (_, h₄) = >>-step (verify_registry codec session (with_identity input bound)) _ h₃ in
      let (snapshots, same, keeps) = bind_plan_inputs-keeps codec d inputs planned bound binds in
      let e : with_identity input bound ≡ plan = cc in
      record {
        planned = planned;
        computed = computed;
        snapshots = snapshots;
        keeps = keeps;
        result = ap (with_identity input) same ∙ e;
      }
