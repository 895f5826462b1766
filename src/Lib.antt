-- ===== src/Lib.antt =====
-- STEGO builds services from declarations: a registry holds archetypes, mixins and components; a
-- service names an archetype; the compiler resolves the ports of the chosen components, generates
-- files, and applies them to a project folder with a journal, so that an apply that is cut off can
-- be recovered. This library models the decisions of that program and proves what they promise.
--
-- Parts, files and code:
-- Prelude: Boolean tests, lists, Go's `(value, error)` as `Outcome`, maps as association lists with
--   sorted keys (`sort.Strings`), and the tests on texts that the code uses.
-- Registry, Registry/Stages, Registry/Experiments: `Component`, `Archetype`, `Mixin` of
--   internal/registry/component.go; `check_stage`, `check_golden_paths`, `check_experiment_ports` of internal/registry/stage.go.
-- Ports: internal/ports/resolve.go. `resolve` is `Resolve`: `apply_overrides` is the loop over the
--   service's overrides, `effective_bindings` the merge, `resolve_components` the loop that binds the
--   required ports or records faults. `answers_ports` and `has_one_provider` are the later checks.
-- Generating/Paths: `ValidatePath` of internal/gen/gen.go, `outputRelative` and `projectFilePath` of
--   internal/compiler/filesystem.go, `validateFileLayout` of internal/compiler/namespace.go.
-- Generating/Snapshot, Generating/State: internal/compiler/snapshot.go, state.go, input_manifest.go and
--   internal/buildidentity/runtime.go.
-- Generating/Yaml: the strict reading of internal/parser/strict.go, on the nodes of the YAML library;
--   StateSchema has the keys of a state, and Strict what a strictly read text holds. State/Reading has what
--   a state that is read has passed.
-- Generating/Transaction: `validateTransaction` of internal/compiler/transaction.go.
-- Generating/Execute: `executeTransaction`, `commitTransaction` and `Recover` of the same file, as
--   functions on a project (its files and its journal) that return or fail. `Env` says which calls fail
--   and at which points the run is stopped, so a crash is a run with a stop. Execute/Effects has what
--   one run of the operations does, Execute/Loop what validation gives it, Execute/Recovery and
--   Execute/Commit what a whole run, a commit and a recovery leave, Execute/Complete when
--   they return, Execute/Conflict what a changed file does, Execute/Resume what a run leaves for the next,
--   and Execute/Protocol the steps of any number of applies and recoveries over three phases.
-- Generating/Planning: from the generated files to the apply. Types has `Plan`, `File` of
--   internal/gen/gen.go and `SavedPlan`; Entities is `computeEntityChanges`, Compute `computePlan` with one
--   function for each of its loops and `bindPlanInputs`, Reconcile the end of `Reconcile`, all of
--   internal/compiler/reconciler.go and snapshot.go; Prepare is `prepareTransaction` of transaction.go, Saved
--   internal/compiler/saved_plan.go, Apply `applyWithFault` of reconciler.go. A plan is made on one disk and
--   applied to a project that may differ. Loops, Computed, Edits, Contents, Prepared, Checked and Applied
--   have what each stage gives the next; Delivers, Guards, Again and EntityDiff what it comes to.
-- Generating/Namespaces: `validateComponentNamespaces` of internal/compiler/namespace.go.
-- Generating/Drift: `DetectDrift` of internal/compiler/drift.go.
-- Calendar: what the code uses of package `time`.
-- Lifecycle, Lifecycle/Rules, Lifecycle/Standing: internal/lifecycle/types.go, rules.go, commands.go and
--   standing.go. `supersede` and `withdraw` give the lifecycle that they leave, or a refusal.
-- Lifecycle/Advisories, Lifecycle/Store: internal/lifecycle/store.go, with `Supersede` and `Withdraw` of
--   commands.go as `supersede_digest` and `withdraw_digest` on a folder of advisories. Grouping, Insertion
--   and Reading have what one more file does to the folder; RoundTrip, Late and Commands the rest.
-- Fleet: internal/fleet/query.go and vex.go.
-- Assure, Assure/Obligations: the predicates of internal/assure/gate.go. `proof_run_passed` is
--   `proofRunPassed` and `holds_ratchet` is `holdsRatchet`, with the reasons and the lines of the
--   retirements followed. Passed and Ratchet have what a gate without a reason has found.
-- The Examples modules run the model on concrete inputs.
--
-- Bounds: every loop is structural recursion on a list, so there is no fuel. The limits of the code on
-- counts, on the bytes of a file that is read (a tracked file, an advisory, a state) and on the size of a
-- journal that is written are in the model as they stand there. The limit of a journal that is read is not
-- modelled.
--
-- Parameters: SHA-256, base64, the bytes of a text, `unicode.ToLower` and what the YAML
-- library does are the fields of `Codec`; the YAML form of a field is a part of `Field`; the texts of times and dates and the
-- JSON of an advisory are the fields of `Dates`, and the text of an advisory id is an argument; the loader of a component is an argument of `resolve`. The YAML form of the journal is taken
-- as the transaction itself, with its size from `Env`. A failed call leaves the project as it is: a write
-- is one rename, and a call that returns an error after its effect is the next stop.
--
-- Two simplifications of Planning: the output mode is that of a system other than Windows, and nobody
-- changes the project between the checks of an apply and its lock, so that each check stands once.
--
-- Not modelled: the generators and their output, the rest of the
-- parser, the reading of a journal, with its limit and its errors, slots and fills, the rest of assurance, the command
-- line, locks, and the file system below whole files (links and special files are the `blocked` paths).
pub mod Prelude
pub mod Registry
pub mod Ports
pub mod Generating
pub mod Calendar
pub mod Lifecycle
pub mod Fleet
pub mod Assure
