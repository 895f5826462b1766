-- ===== src/Generating/Planning/Types.antt =====
-- What a plan is made of: internal/compiler/reconciler.go, saved_plan.go, and the generated file of
-- internal/gen/gen.go.
use stego.Prelude.{String, Bool, false, ◌||◌, List, ◌++◌, Option, ◌==◌, string_eq, if◌then◌else◌}
use stego.Prelude.Dict.{Dict}
use stego.Generating.Snapshot.{Bytes, FileSnapshot, ReadFault}
use stego.Generating.State.{BuildRecord, State, StateFault}

-- `File` of internal/gen/gen.go
pub record GenFile : Type 0 where
  pub path : String
  pub content : Bytes

-- `Header`, with the empty line behind it
abbrev generated_header : String
generated_header = "// Code generated by stego. DO NOT EDIT.\n\n"

-- `filepath.Ext(name) == ".go"`
unfoldable pub is_go_file : String → Bool
is_go_file String.[] = false
is_go_file (String.◌∷◌ c s) = String.◌∷◌ c s == ".go" || is_go_file s

-- `File.Bytes`, with the bytes of a text
unfoldable pub file_bytes : (String → Bytes) → GenFile → Bytes
unfolding is_go_file
file_bytes utf8 f = if is_go_file f.path then utf8 generated_header ++ f.content else f.content

-- `FileAction`, a text in the code
pub data Action : Type 0 where
  generate : Action
  update : Action
  unchanged : Action
  delete : Action
  other : String → Action

pub record PlannedFile : Type 0 where
  pub path : String
  pub action : Action

pub record EntityChange : Type 0 where
  pub entity : String
  pub added : List String
  pub removed : List String
  pub modified : List String

-- A field of an entity. Its constraints count by the YAML form of the whole field.
pub record Field : Type 0 where
  pub name : String
  pub field_type : String
  pub yaml : Bytes

pub record Entity : Type 0 where
  pub name : String
  pub fields : List Field

-- `SavedPlanFile`
pub record SavedPlanFile : Type 0 where
  pub path : String
  pub action : Action
  pub sha256 : String

-- `SavedPlan`. Its version is checked when it is loaded.
pub record SavedPlan : Type 0 where
  pub base_record_sha256 : String
  pub service_hash : String
  pub registry_content_sha256 : String
  pub compiler_build : BuildRecord
  pub output_dir : String
  pub record_sha256 : String
  pub files : List SavedPlanFile

-- `Plan`, with the content hash of the registry that it keeps. The project folder is the one at hand.
pub record Plan : Type 0 where
  pub files : List PlannedFile
  pub entity_changes : List EntityChange
  pub generated_files : List GenFile
  pub new_state : State
  pub state_changed : Bool
  pub hand_edited : List String
  pub replace_hand_edits : Bool
  pub saved : Option SavedPlan
  pub input_manifest_sha : String
  pub registry_content : Option String
  pub snapshots : Dict String FileSnapshot
  pub out_dir : String

-- Why planning or applying stops before the journal.
pub data PlanFault : Type 0 where
  bad_output : PlanFault
  too_large : String → PlanFault
  read : ReadFault → PlanFault
  bad_path : String → PlanFault
  duplicate_paths : List String → PlanFault
  layout : PlanFault
  input_changed : String → PlanFault
  no_record : PlanFault
  duplicate_file : String → PlanFault
  not_in_state : String → PlanFault
  no_snapshot : String → PlanFault
  deletes_generated : String → PlanFault
  no_content : String → PlanFault
  content_limit : PlanFault
  unknown_action : String → PlanFault
  bad_state : StateFault → PlanFault
  state_limit : PlanFault
  pending : PlanFault
  blocked : String → PlanFault
  other_location : PlanFault
  hand_edits : List String → PlanFault
  registry : PlanFault
  build : PlanFault
  manifest : PlanFault
  cannot_be_saved : PlanFault
  stale : List String → PlanFault
