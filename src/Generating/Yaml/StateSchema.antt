-- ===== src/Generating/Yaml/StateSchema.antt =====
-- What the types of internal/compiler/state.go and input_manifest.go and `Record` of
-- internal/buildidentity/runtime.go declare to the strict reading, and what a state asks of its version.
use stego.Prelude.{String, Bool, true, not, ◌&&◌, ◌||◌, ◌==◌, string_eq}
use stego.Generating.Yaml.{Node, Nodes, Schema, Members, is_scalar, key_text}

abbrev plain_member : String → Members → Members
plain_member name rest = Members.member name Schema.plain rest

abbrev options_schema : Schema
options_schema = Schema.struct (
    plain_member "module_name" (
      plain_member "go_version"
        (plain_member "output_dir" (plain_member "registry_ref" Members.end))))

abbrev input_schema : Schema
input_schema =
    Schema.struct (plain_member "exists" (plain_member "sha256" (plain_member "mode" Members.end)))

abbrev manifest_schema : Schema
manifest_schema = Schema.struct (
    plain_member "version" (
      Members.member "options" options_schema
        (Members.member "files" (Schema.map_of input_schema) (plain_member "sha256" Members.end))))

abbrev build_schema : Schema
build_schema = Schema.struct (
    plain_member "go_version" (
      plain_member "goos" (
        plain_member "goarch" (
          plain_member "module_version" (
            plain_member "vcs"
              (plain_member "revision" (plain_member "source_state" Members.end)))))))

abbrev component_schema : Schema
component_schema = Schema.struct (plain_member "version" (plain_member "sha" Members.end))

abbrev field_schema : Schema
field_schema =
    Schema.struct (plain_member "name" (plain_member "type" (plain_member "hash" Members.end)))

abbrev applied_schema : Schema
applied_schema = Schema.struct (
    Members.member "inputs" manifest_schema (
      Members.member "compiler_build" build_schema (
        plain_member "service_name" (
          plain_member "service_hash" (
            plain_member "registry_sha" (
              plain_member "registry_content_sha256" (
                Members.member "components" (Schema.map_of component_schema) (
                  Members.member "entities" (Schema.map_of (Schema.list_of field_schema))
                    (Members.member "files" (Schema.map_of Schema.plain) Members.end)))))))))

-- The keys of the struct tags of `State` and of the types of its fields.
abbrev pub state_schema : Schema
state_schema =
    Schema.struct
      (plain_member "format_version" (Members.member "last_applied" applied_schema Members.end))

abbrev is_integer : Node → Bool
is_integer (Node.node kind tag value anchor content) = is_scalar kind && tag == "!!int"

-- A format version that is present is an integer.
unfoldable pub check_format : Nodes → Bool
check_format Nodes.nil = true
check_format (Nodes.cons key Nodes.nil) = true
check_format (Nodes.cons key (Nodes.cons value rest)) =
    (not (key_text key == "format_version") || is_integer value) && check_format rest
