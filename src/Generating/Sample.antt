-- ===== src/Generating/Sample.antt =====
-- A small project with its first apply, for the runs of the model of internal/compiler.
use stego.Prelude.{
  String, Bool, true, false, [], ◌∷◌, none, some, ◌==◌, string_eq, nat_eq, leb, ◌&&◌, ◌+◌, length,
  if◌then◌else◌,
}
use stego.Generating.Snapshot.{Bytes, FileSnapshot, no_file, snapshot_eq}
use stego.Generating.Yaml.{Kind, Node, Nodes}
use stego.Generating.State.{Codec, State}
use stego.Generating.Transaction.{Operation, Transaction, Point}
use stego.Generating.Execute.{Env, Project}

abbrev pub digest_of_main : String
digest_of_main = "aaaaaaaaaaaaaaaaaaaaaaaaaaaaaaaaaaaaaaaaaaaaaaaaaaaaaaaaaaaaaaaa"

abbrev pub digest_of_state : String
digest_of_state = "bbbbbbbbbbbbbbbbbbbbbbbbbbbbbbbbbbbbbbbbbbbbbbbbbbbbbbbbbbbbbbbb"

abbrev pub main_bytes : Bytes
main_bytes = 1 ∷ 2 ∷ []

abbrev pub state_bytes : Bytes
state_bytes = 3 ∷ []

abbrev pub new_state : State
new_state = record {
  format_version = 2;
  last_applied = some (record {
    inputs = none;
    compiler_build = none;
    service_name = "orders";
    service_hash = "";
    registry_sha = "";
    registry_content_sha256 = "";
    components = [];
    entities = [];
    files = ("main.go", digest_of_main) ∷ [];
  });
}

-- The document `format_version: 2`.
abbrev pub version_two : Node
version_two = Node.node Kind.mapping_node "!!map" "" "" (
    Nodes.cons (Node.node Kind.scalar_node "!!str" "format_version" "" Nodes.nil)
      (Nodes.cons (Node.node Kind.scalar_node "!!int" "2" "" Nodes.nil) Nodes.nil))

abbrev pub toy : Codec
toy = record {
  hash_bytes = λ b. if length b == 2 then digest_of_main else digest_of_state;
  decode64 = λ s. if s == "AQI=" then some main_bytes else some state_bytes;
  encode64 = λ b. if length b == 2 then "AQI=" else "Aw==";
  utf8 = λ s. [];
  marshal = λ s. state_bytes;
  to_lower = λ c. if leb b'A' c && leb c b'Z' then c + 32 else c;
  documents = λ b. some ((version_two ∷ []) ∷ []);
  decode_plain = λ n. some new_state;
}

abbrev pub main_file : FileSnapshot
main_file = record { present = true; hash = digest_of_main; mode = 420 }

abbrev pub state_file : FileSnapshot
state_file = record { present = true; hash = digest_of_state; mode = 420 }

abbrev pub write_main : Operation
write_main = record { path = "out/main.go"; before = no_file; after = main_file; content = "AQI=" }

abbrev pub write_state : Operation
write_state = record {
  path = ".stego/state.yaml";
  before = no_file;
  after = state_file;
  content = "Aw==";
}

abbrev pub first_apply : Transaction
first_apply = record {
  version = 1;
  output_dir = "out";
  expected = ("out/main.go", no_file) ∷ (".stego/state.yaml", no_file) ∷ [];
  operations = write_main ∷ write_state ∷ [];
}

abbrev pub calm : Env
calm = record { fault = λ point. false; fails = λ io. false; journal_size = λ tx. 1000 }

-- The machine stops when the first operation is done.
abbrev pub crash : Env
crash = record {
  fault = λ point. is_after_first point;
  fails = λ io. false;
  journal_size = λ tx. 1000;
}
  where
    is_after_first : Point → Bool
    is_after_first (Point.after_operation n) = n == 0
    is_after_first point = false

abbrev pub empty_project : Project
empty_project = record { disk = record { files = λ n. none; blocked = λ n. false }; journal = none }
