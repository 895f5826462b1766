-- ===== src/Generating/State.antt =====
-- The record of the last apply: internal/compiler/state.go and input_manifest.go, and the build
-- record of internal/buildidentity/runtime.go. `Codec` is what the code takes from libraries:
-- SHA-256, base64, UTF-8, case folding and YAML.
pub mod Reading
use Prim.Native.String.{len}
use stego.Prelude.{
  ℕ, suc, ◌/◌, ◌%◌, ◌^◌, String, Bool, true, false, not, ◌&&◌, ◌||◌, List, [], ◌∷◌, ◌++◌, Option,
  none, some, ◌==◌, string_eq, nat_eq, leb, if◌then◌else◌, Outcome, ok, err, length, all, require,
  ◌>>◌,
}
use stego.Prelude.Dict.{Dict, keys, lookup}
use stego.Prelude.Sort.{sorted_keys}
use stego.Prelude.Text.{all_codes, is_hex}
use stego.Generating.Paths.{valid_path, is_below}
use stego.Generating.Snapshot.{Bytes}
use stego.Generating.Yaml.{
  Node, Nodes, Schema, Members, Documents, YamlFault, is_mapping, is_scalar, is_null, key_text,
  decode_strict,
}
use stego.Generating.Yaml.StateSchema.{state_schema, check_format}

pub record BuildRecord : Type 0 where
  pub go_version : String
  pub go_os : String
  pub go_arch : String
  pub module_version : String
  pub vcs : String
  pub revision : String
  pub source_state : String

-- `safe`
safe : String → Bool
unfolding all_codes
safe value =
    not (len value == 0) && leb (len value) 256 && all_codes (λ c. leb 33 c && leb c 126) value

-- `Record.Validate`
unfoldable pub valid_build : BuildRecord → Bool
unfolding safe
valid_build r =
    all safe (r.go_version ∷ r.go_os ∷ r.go_arch ∷ r.module_version ∷ r.vcs ∷ r.revision ∷ [])
    && (r.source_state == "unknown" || r.source_state == "clean" || r.source_state == "modified")
    && not (
        (r.vcs == "unknown" || r.revision == "unknown")
        && (not (r.vcs == "unknown")
            || not (r.revision == "unknown")
            || not (r.source_state == "unknown")))

pub record InputOptions : Type 0 where
  pub module_name : String
  pub go_version : String
  pub output_dir : String
  pub registry_ref : String

-- `mode` is a uint32
pub record InputFile : Type 0 where
  pub present : Bool
  pub sha256 : String
  pub mode : ℕ

pub record InputManifest : Type 0 where
  pub version : ℕ
  pub options : InputOptions
  pub files : Dict String InputFile
  pub sha256 : String

pub record ComponentState : Type 0 where
  pub version : String
  pub sha : String

pub record EntityFieldState : Type 0 where
  pub name : String
  pub field_type : String
  pub hash : String

pub record AppliedState : Type 0 where
  pub inputs : Option InputManifest
  pub compiler_build : Option BuildRecord
  pub service_name : String
  pub service_hash : String
  pub registry_sha : String
  pub registry_content_sha256 : String
  pub components : Dict String ComponentState
  pub entities : Dict String (List EntityFieldState)
  pub files : Dict String String

pub record State : Type 0 where
  pub format_version : ℕ
  pub last_applied : Option AppliedState

abbrev pub state_format_version : ℕ
state_format_version = 2

abbrev oldest_named_state_format : ℕ
oldest_named_state_format = 1

abbrev max_manifest_files : ℕ
max_manifest_files = 1024

-- `4 << 20`
abbrev pub max_document_bytes : ℕ
max_document_bytes = 4194304

abbrev empty_state : State
empty_state = record { format_version = 0; last_applied = none }

-- What the program takes from libraries: SHA-256, base64, the bytes of a text, `unicode.ToLower`, and
-- YAML: the bytes that it writes of a state, the documents that it reads, and the decoding of a node to
-- a `plainState`.
pub record Codec : Type 0 where
  pub hash_bytes : Bytes → String
  pub decode64 : String → Option Bytes
  pub encode64 : Bytes → String
  pub utf8 : String → Bytes
  pub to_lower : ℕ → ℕ
  pub marshal : State → Bytes
  pub documents : Bytes → Documents
  pub decode_plain : Node → Option State

pub data StateFault : Type 0 where
  format_version : StateFault
  manifest : StateFault
  service_mismatch : StateFault
  registry_mismatch : StateFault
  build : StateFault
  registry_digest : StateFault
  file_path : StateFault
  document_limit : StateFault
  not_a_state : StateFault

-- A text of Go is valid UTF-8 here.
valid_manifest_text : String → Bool
unfolding all_codes
valid_manifest_text value = leb (len value) 1024 && all_codes (λ c. not (c == 0)) value

unfoldable pub valid_digest : String → Bool
unfolding all_codes
valid_digest value = len value == 64 && all_codes is_hex value

has_input : Dict String InputFile → String → Bool
unfolding lookup
has_input files name = elim (lookup name files) [ none ↦ false | some f ↦ true ]

service_present : Option InputFile → Bool
service_present none = false
service_present (some f) = f.present

may_be_absent : String → Bool
may_be_absent name = name == "go.mod" || name == "go.sum" || name == ".stego/config.yaml"

valid_input : String → String × InputFile → Bool
unfolding valid_manifest_text valid_path is_below may_be_absent valid_digest
valid_input output_dir (name, file) =
    valid_manifest_text name
    && valid_path name
    && not (name == output_dir)
    && not (is_below output_dir name)
    && not (name == ".stego")
    && (not (is_below ".stego" name) || name == ".stego/config.yaml")
    && (if not file.present
        then file.sha256 == "" && file.mode == 0 && may_be_absent name
        else valid_digest file.sha256 && leb file.mode 511)

-- `validateFields`
unfoldable pub valid_manifest_fields : InputManifest → Bool
unfolding valid_manifest_text valid_path has_input service_present valid_input lookup
valid_manifest_fields m =
    m.version == 1
    && leb 4 (length m.files)
    && leb (length m.files) max_manifest_files
    && all valid_manifest_text (
        m.options.module_name ∷ m.options.go_version ∷ m.options.output_dir ∷ m.options.registry_ref
        ∷ [])
    && valid_path m.options.output_dir
    && all (has_input m.files) ("service.yaml" ∷ "go.mod" ∷ "go.sum" ∷ ".stego/config.yaml" ∷ [])
    && service_present (lookup "service.yaml" m.files)
    && all (valid_input m.options.output_dir) m.files

-- the last `n` base-256 digits of a number, the highest first
big_endian : ℕ → ℕ → Bytes
big_endian ℕ.zero v = []
big_endian (suc n) v = (v / 256 ^ n) % 256 ∷ big_endian n v

module _ (codec : Codec) where
  open codec use {hash_bytes, utf8, marshal, documents, decode_plain}

  -- a text behind its length in eight bytes
  field : String → Bytes
  unfolding big_endian
  field value = big_endian 8 (length (utf8 value)) ++ utf8 value

  input_bytes : String → Option InputFile → Bytes
  unfolding field
  input_bytes name none = []
  input_bytes name (some file) =
      field name ++ ((if file.present then 1 else 0) ∷ big_endian 4 file.mode ++ field file.sha256)

  inputs_bytes : Dict String InputFile → List String → Bytes
  unfolding input_bytes lookup
  inputs_bytes files [] = []
  inputs_bytes files (name ∷ names) =
      input_bytes name (lookup name files) ++ inputs_bytes files names

  -- `digest`
  unfoldable pub manifest_digest : InputManifest → String
  unfolding inputs_bytes sorted_keys
  manifest_digest m = hash_bytes (
      utf8 "stego-project-inputs-v1"
      ++ (0 ∷ field m.options.module_name
          ++ field m.options.go_version
          ++ field m.options.output_dir
          ++ field m.options.registry_ref
          ++ big_endian 8 (length m.files)
          ++ inputs_bytes m.files (sorted_keys m.files)))

  -- `InputManifest.validate`
  unfoldable pub valid_manifest : InputManifest → Bool
  valid_manifest m =
      valid_manifest_fields m && valid_digest m.sha256 && m.sha256 == manifest_digest m

  -- The digest of an input that the manifest lacks is empty.
  input_digest : Option InputFile → String
  input_digest none = ""
  input_digest (some f) = f.sha256

  check_manifest : AppliedState → Option InputManifest → Outcome StateFault (Unit {0})
  unfolding valid_manifest input_digest lookup
  check_manifest applied none = ok tt
  check_manifest applied (some m) = do
    require (valid_manifest m) StateFault.manifest
    require (input_digest (lookup "service.yaml" m.files) == applied.service_hash)
        StateFault.service_mismatch
    require (m.options.registry_ref == applied.registry_sha) StateFault.registry_mismatch

  check_build : Option BuildRecord → Outcome StateFault (Unit {0})
  unfolding valid_build
  check_build none = ok tt
  check_build (some r) = require (valid_build r) StateFault.build

  check_applied : Option AppliedState → Outcome StateFault (Unit {0})
  unfolding check_manifest check_build valid_digest valid_path
  check_applied none = ok tt
  check_applied (some applied) = do
    check_manifest applied applied.inputs
    check_build applied.compiler_build
    require (applied.registry_content_sha256 == "" || valid_digest applied.registry_content_sha256)
        StateFault.registry_digest
    require (all valid_path (keys applied.files)) StateFault.file_path

  -- `validateStatePaths`
  unfoldable pub validate_state : State → Outcome StateFault (Unit {0})
  unfolding check_applied
  validate_state state = do
    require
        (state.format_version == 0
          || leb oldest_named_state_format state.format_version
            && leb state.format_version state_format_version)
        StateFault.format_version
    check_applied state.last_applied

  -- `encodeState`: a copy is upgraded to the format that this compiler writes.
  unfoldable pub encode_state : State → Outcome StateFault Bytes
  encode_state state = do
    validate_state state
    let data' = marshal (record state { format_version = state_format_version })
    require (leb (length data') max_document_bytes) StateFault.document_limit
    ok data'

  -- `State.UnmarshalYAML`
  unfoldable pub unmarshal_yaml : Node → Option State
  unfolding check_format
  unmarshal_yaml (Node.node kind tag value anchor content) =
      if is_mapping kind && check_format content
      then decode_plain (Node.node kind tag value anchor content)
      else none

  -- The library calls `UnmarshalYAML`, but on a null it leaves the state as it was, which is empty.
  unfoldable pub decode_root : Node → Option State
  unfolding unmarshal_yaml
  decode_root n = if is_null n then some empty_state else unmarshal_yaml n

  unfoldable pub decoded : Outcome YamlFault State → Outcome StateFault State
  decoded (err e) = err StateFault.not_a_state
  decoded (ok s) = do validate_state s; ok s

  -- `decodeState`
  unfoldable pub decode_state : Bytes → Outcome StateFault State
  unfolding decoded decode_root decode_strict
  decode_state data' =
      decoded (decode_strict documents max_document_bytes state_schema decode_root data')
