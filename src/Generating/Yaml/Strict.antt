-- ===== src/Generating/Yaml/Strict.antt =====
-- What a strictly read document has, for internal/parser/strict.go.
use stego.Prelude.{
  ℕ, suc, String, ◌≡◌, ◌≢◌, refl, Bool, true, false, not, ◌||◌, List, [], ◌∷◌, Option, some, none,
  arith, ◌==◌, string_eq, leb, length, is_empty, contains, ok, require-step, >>-step, >>=-eq-ok,
  eq_of_beq, require, ap, subst, ◌∙◌,
}
use stego.Generating.Yaml.{
  Kind, Node, Nodes, YamlFault, is_alias, key_text, is_text, is_merge, check_key, check_keys,
  check_mapping, check_nodes, check_children, Schema, Documents, one_root, read_node, decoded_or,
  undeclared, decode_strict,
}

-- The keys of a mapping: each is a text, and none of them is among those seen or comes again.
abbrev pub HasKeys : List String → Nodes → Type 0
HasKeys seen Nodes.nil = Unit
HasKeys seen (Nodes.cons key Nodes.nil) =
    (is_text key ≡ true) × (contains seen (key_text key) ≡ false)
HasKeys seen (Nodes.cons key (Nodes.cons value rest)) =
    (is_text key ≡ true)
    × (contains seen (key_text key) ≡ false)
    × HasKeys (key_text key ∷ seen) rest

abbrev pub HasKeysIn : Kind → Nodes → Type 0
HasKeysIn Kind.mapping_node content = HasKeys [] content
HasKeysIn k content = Unit

-- A node that hides nothing: neither it nor any node below it is an alias or has an anchor, and the keys of
-- each mapping are distinct texts.
mutual
  pub IsPlain : Node → Type 0
  IsPlain (Node.node kind tag value anchor content) =
      (kind ≢ Kind.alias_node) × (anchor ≡ "") × HasKeysIn kind content × ArePlain content

  pub ArePlain : Nodes → Type 0
  ArePlain Nodes.nil = Unit
  ArePlain (Nodes.cons n ns) = IsPlain n × ArePlain ns

flip : (b : Bool) → not b ≡ true → b ≡ false
flip b h = ground arith

check_key-text :
    (seen : List String) (key : Node)
    → check_key seen key ≡ ok tt
    → (is_text key ≡ true) × (contains seen (key_text key) ≡ false)
check_key-text seen key h =
    let (_, h₁) = require-step (not (is_merge key)) YamlFault.merge_key _ h in
    let (text, h₂) = require-step (is_text key) YamlFault.key_not_text _ h₁ in
    (text, fresh (contains seen (key_text key)) h₂)
  where
    fresh :
        (b : Bool) → (require (not b) (YamlFault.duplicate_key (key_text key))) ≡ ok tt → b ≡ false
    fresh true k = cc
    fresh false k = refl

check_keys-HasKeys :
    (seen : List String) (content : Nodes) → check_keys seen content ≡ ok tt → HasKeys seen content
unfolding check_keys
check_keys-HasKeys seen Nodes.nil h = tt
check_keys-HasKeys seen (Nodes.cons key Nodes.nil) h = check_key-text seen key h
check_keys-HasKeys seen (Nodes.cons key (Nodes.cons value rest)) h =
    let (own, h₁) = >>-step (check_key seen key) _ h in
    let (text, fresh) = check_key-text seen key own in
    (text, fresh, check_keys-HasKeys (key_text key ∷ seen) rest h₁)

check_mapping-HasKeysIn :
    (kind : Kind) (content : Nodes) → check_mapping kind content ≡ ok tt → HasKeysIn kind content
check_mapping-HasKeysIn Kind.scalar_node content h = tt
check_mapping-HasKeysIn Kind.mapping_node content h = check_keys-HasKeys [] content h
check_mapping-HasKeysIn Kind.sequence_node content h = tt
check_mapping-HasKeysIn Kind.alias_node content h = tt

no_alias : (kind : Kind) (b : Bool) → (is_alias kind || b) ≡ false → kind ≢ Kind.alias_node
no_alias Kind.alias_node b h e = cc
no_alias Kind.scalar_node b h e = cc
no_alias Kind.mapping_node b h e = cc
no_alias Kind.sequence_node b h e = cc

no_anchor : (a b : Bool) → (a || not b) ≡ false → b ≡ true
no_anchor a b h = ground arith

mutual
  unfolding check_nodes IsPlain

  check_nodes-IsPlain : (depth : ℕ) (n : Node) → check_nodes depth n ≡ ok tt → IsPlain n
  check_nodes-IsPlain depth (Node.node kind tag value anchor content) h =
      let (_, h₁) = require-step (leb depth 128) YamlFault.too_deep _ h in
      let (open', h₂) =
        require-step (not (is_alias kind || not (anchor == ""))) YamlFault.has_anchor _ h₁ in
      let free = flip (is_alias kind || not (anchor == "")) open' in
      let (keys, h₃) = >>-step (check_mapping kind content) _ h₂ in
      (
        no_alias kind (not (anchor == "")) free,
        eq_of_beq anchor "" (no_anchor (is_alias kind) (anchor == "") free),
        check_mapping-HasKeysIn kind content keys,
        check_children-ArePlain (suc depth) content h₃,
      )

  check_children-ArePlain : (depth : ℕ) (ns : Nodes) → check_children depth ns ≡ ok tt → ArePlain ns
  check_children-ArePlain depth Nodes.nil h = tt
  check_children-ArePlain depth (Nodes.cons n ns) h =
      let (own, h₁) = >>-step (check_nodes depth n) _ h in
      (check_nodes-IsPlain depth n own, check_children-ArePlain depth ns h₁)

one_root-ok : (ds : Documents) (root : Node) → one_root ds ≡ ok root → ds ≡ some ((root ∷ []) ∷ [])
unfolding one_root
one_root-ok none root h = cc
one_root-ok (some []) root h = cc
one_root-ok (some ([] ∷ ds)) root h = cc
one_root-ok (some ((n ∷ []) ∷ [])) root h = cc
one_root-ok (some ((n ∷ []) ∷ d ∷ ds)) root h = cc
one_root-ok (some ((n ∷ m ∷ ns) ∷ ds)) root h = cc

is_empty-eq : {A : Type 0} (xs : List A) → is_empty xs ≡ true → xs ≡ []
is_empty-eq [] h = refl
is_empty-eq (x ∷ xs) h = cc

module _ {T : Type 0} (documents : List ℕ → Documents) (schema : Schema)
    (decode : Node → Option T) where
  -- What a strictly read text has been found to hold.
  pub record Read (limit : ℕ) (data' : List ℕ) (target : T) : Type 0 where
    pub root : Node
    pub small : leb (length data') limit ≡ true
    pub one : documents data' ≡ some ((root ∷ []) ∷ [])
    pub is_plain : IsPlain root
    pub declared : undeclared schema root ≡ []
    pub decoded : decode root ≡ some target

  decoded_or-ok : (o : Option T) (t : T) → decoded_or o ≡ ok t → o ≡ some t
  decoded_or-ok none t h = cc
  decoded_or-ok (some x) t h = cc

  pub decode_strict-Read :
      (limit : ℕ) (data' : List ℕ) (target : T)
      → decode_strict documents limit schema decode data' ≡ ok target
      → Read limit data' target
  unfolding decode_strict read_node
  decode_strict-Read limit data' target h =
      let (root, reads, h₁) = >>=-eq-ok (read_node documents limit data') _ h in
      let (t, made, h₂) = >>=-eq-ok (decoded_or (decode root)) _ h₁ in
      let (none_left, h₃) =
        require-step (is_empty (undeclared schema root)) YamlFault.unknown_field _ h₂ in
      let (small, r₁) = require-step (leb (length data') limit) YamlFault.too_large _ reads in
      let (found, first, r₂) = >>=-eq-ok (one_root (documents data')) _ r₁ in
      let (checked, r₃) = >>-step (check_nodes 0 found) _ r₂ in
      let e : found ≡ root = cc in
      let e' : t ≡ target = cc in
      record {
        root = root;
        small = small;
        one = one_root-ok (documents data') root (first ∙ ap ok e);
        is_plain = subst IsPlain e (check_nodes-IsPlain 0 found checked);
        declared = is_empty-eq (undeclared schema root) none_left;
        decoded = decoded_or-ok (decode root) target (made ∙ ap ok e');
      }
