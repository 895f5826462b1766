-- ===== src/Generating/Yaml.antt =====
-- The strict reading of YAML: `DecodeStrict`, `readNodeWithLimit`, `checkNodes` and `checkSchema` of
-- internal/parser/strict.go, on the nodes that the YAML library gives. The reports are without their lines
-- and paths, and `checkSchema` is without the cases of the types of a declaration.
use stego.Prelude.{
  ℕ, suc, ◌+◌, String, Bool, true, false, not, ◌&&◌, ◌||◌, List, [], ◌∷◌, ◌++◌, Option, none, some,
  ◌==◌, string_eq, leb, if◌then◌else◌, Outcome, ok, err, length, is_empty, contains, require, ◌>>◌,
  ◌>>=◌,
}
pub mod Strict
pub mod StateSchema

pub data Kind : Type 0 where
  scalar_node mapping_node sequence_node alias_node : Kind

-- `yaml.Node`: a mapping holds its keys and its values by turns.
mutual
  pub data Node : Type 0 where
    node : Kind → String → String → String → Nodes → Node

  pub data Nodes : Type 0 where
    nil : Nodes
    cons : Node → Nodes → Nodes

pub data YamlFault : Type 0 where
  too_large : YamlFault
  not_yaml : YamlFault
  not_one_document : YamlFault
  too_deep : YamlFault
  has_anchor : YamlFault
  merge_key : YamlFault
  key_not_text : YamlFault
  duplicate_key : String → YamlFault
  not_decoded : YamlFault
  unknown_field : YamlFault

abbrev pub is_scalar : Kind → Bool
is_scalar Kind.scalar_node = true
is_scalar k = false

abbrev pub is_mapping : Kind → Bool
is_mapping Kind.mapping_node = true
is_mapping k = false

abbrev pub is_sequence : Kind → Bool
is_sequence Kind.sequence_node = true
is_sequence k = false

abbrev pub is_alias : Kind → Bool
is_alias Kind.alias_node = true
is_alias k = false

abbrev pub key_text : Node → String
key_text (Node.node kind tag value anchor content) = value

abbrev pub is_text : Node → Bool
is_text (Node.node kind tag value anchor content) = is_scalar kind && tag == "!!str"

abbrev pub is_merge : Node → Bool
is_merge (Node.node kind tag value anchor content) = tag == "!!merge"

abbrev pub check_key : List String → Node → Outcome YamlFault (Unit {0})
check_key seen key = do
  require (not (is_merge key)) YamlFault.merge_key
  require (is_text key) YamlFault.key_not_text
  require (not (contains seen (key_text key))) (YamlFault.duplicate_key (key_text key))

-- The loop over the keys of a mapping, with those seen.
unfoldable pub check_keys : List String → Nodes → Outcome YamlFault (Unit {0})
check_keys seen Nodes.nil = ok tt
check_keys seen (Nodes.cons key Nodes.nil) = check_key seen key
check_keys seen (Nodes.cons key (Nodes.cons value rest)) =
    check_key seen key >> check_keys (key_text key ∷ seen) rest

abbrev pub check_mapping : Kind → Nodes → Outcome YamlFault (Unit {0})
check_mapping Kind.mapping_node content = check_keys [] content
check_mapping k content = ok tt

unfoldable mutual
  unfolding check_keys

  -- `checkNodes`
  pub check_nodes : ℕ → Node → Outcome YamlFault (Unit {0})
  check_nodes depth (Node.node kind tag value anchor content) = do
    require (leb depth 128) YamlFault.too_deep
    require (not (is_alias kind || not (anchor == ""))) YamlFault.has_anchor
    check_mapping kind content
    check_children (suc depth) content

  pub check_children : ℕ → Nodes → Outcome YamlFault (Unit {0})
  check_children depth Nodes.nil = ok tt
  check_children depth (Nodes.cons n ns) = check_nodes depth n >> check_children depth ns

-- What a type declares: `plain` stands for a type that the keys of a node are not compared with.
mutual
  pub data Schema : Type 0 where
    plain : Schema
    struct : Members → Schema
    list_of : Schema → Schema
    map_of : Schema → Schema

  pub data Members : Type 0 where
    end : Members
    member : String → Schema → Members → Members

unfoldable pub find_member : String → Members → Option Schema
find_member key Members.end = none
find_member key (Members.member name s rest) = if name == key then some s else find_member key rest

abbrev pub is_null : Node → Bool
is_null (Node.node kind tag value anchor content) = tag == "!!null"

unfoldable mutual
  unfolding find_member

  -- `checkSchema`: the keys that the type does not declare.
  pub undeclared : Schema → Node → List String
  undeclared Schema.plain n = []
  undeclared (Schema.struct members) (Node.node kind tag value anchor content) =
      let keys = undeclared_members members content in
      if tag == "!!null" then [] else (if is_mapping kind then keys else [])
  undeclared (Schema.list_of s) (Node.node kind tag value anchor content) =
      let keys = undeclared_items s content in
      if tag == "!!null" then [] else (if is_sequence kind then keys else [])
  undeclared (Schema.map_of s) (Node.node kind tag value anchor content) =
      let keys = undeclared_values s content in
      if tag == "!!null" then [] else (if is_mapping kind then keys else [])

  pub undeclared_members : Members → Nodes → List String
  undeclared_members members Nodes.nil = []
  undeclared_members members (Nodes.cons key Nodes.nil) = []
  undeclared_members members (Nodes.cons key (Nodes.cons value rest)) =
      elim (find_member (key_text key) members) [
        | none ↦ key_text key ∷ []
        | some s ↦ undeclared s value
      ]
      ++ undeclared_members members rest

  pub undeclared_items : Schema → Nodes → List String
  undeclared_items s Nodes.nil = []
  undeclared_items s (Nodes.cons n ns) = undeclared s n ++ undeclared_items s ns

  pub undeclared_values : Schema → Nodes → List String
  undeclared_values s Nodes.nil = []
  undeclared_values s (Nodes.cons key Nodes.nil) = []
  undeclared_values s (Nodes.cons key (Nodes.cons value rest)) =
      undeclared s value ++ undeclared_values s rest

-- The documents of a text, each with its content, as the library's decoder gives them.
abbrev pub Documents : Type 0
Documents = Option (List (List Node))

unfoldable pub one_root : Documents → Outcome YamlFault Node
one_root none = err YamlFault.not_yaml
one_root (some ((root ∷ []) ∷ [])) = ok root
one_root (some _) = err YamlFault.not_one_document

-- `readNodeWithLimit`
unfoldable pub read_node : (List ℕ → Documents) → ℕ → List ℕ → Outcome YamlFault Node
unfolding one_root check_nodes
read_node documents limit data' = do
  require (leb (length data') limit) YamlFault.too_large
  root ← one_root (documents data')
  check_nodes 0 root
  ok root

abbrev pub decoded_or : {T : Type 0} → Option T → Outcome YamlFault T
decoded_or none = err YamlFault.not_decoded
decoded_or (some t) = ok t

-- `DecodeStrict`, with `decodeCollecting`, for a target of a type with the schema.
unfoldable pub decode_strict :
    {T : Type 0}
    → (List ℕ → Documents)
    → ℕ
    → Schema
    → (Node → Option T)
    → List ℕ
    → Outcome YamlFault T
unfolding read_node undeclared
decode_strict documents limit schema decode data' = do
  root ← read_node documents limit data'
  target ← decoded_or (decode root)
  require (is_empty (undeclared schema root)) YamlFault.unknown_field
  ok target
