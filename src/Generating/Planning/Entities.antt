-- ===== src/Generating/Planning/Entities.antt =====
-- `computeEntityChanges` of internal/compiler/reconciler.go: what differs between the entities of the
-- declaration and those of the last apply.
use Prim.Native.String
use stego.Prelude.{
  String, Bool, not, ◌&&◌, List, [], ◌∷◌, ◌++◌, Option, none, some, map, ◌==◌, string_eq,
  if◌then◌else◌, any, keep, is_empty,
}
use stego.Prelude.Dict.{Dict, keys, lookup, insert}
use stego.Prelude.Sort.{sort_texts}
use stego.Generating.Snapshot.{Bytes}
use stego.Generating.State.{EntityFieldState}
use stego.Generating.Planning.Types.{Field, Entity, EntityChange}

-- `fieldDescriptor`
abbrev pub descriptor : String → String → String
descriptor name kind =
    Prim.Native.String.◌++◌ name (Prim.Native.String.◌++◌ " (" (Prim.Native.String.◌++◌ kind ")"))

abbrev pub described : Field → String
described f = descriptor f.name f.field_type

abbrev pub was : EntityFieldState → String
was f = descriptor f.name f.field_type

-- The fields of one entity that are new, and those that differ.
pub record FieldChanges : Type 0 where
  pub added : List String
  pub modified : List String

-- A map from the old names; a later field of a name replaces an earlier one.
unfoldable pub by_name :
    List EntityFieldState → Dict String EntityFieldState → Dict String EntityFieldState
by_name [] m = m
by_name (f ∷ fs) m = by_name fs (insert f.name f m)

abbrev pub names_field : List Field → EntityFieldState → Bool
names_field fields old = any (λ f. f.name == old.name) fields

abbrev pub names_entity : List Entity → String → Bool
names_entity entities name = any (λ e. e.name == name) entities

module _ (hash_bytes : Bytes → String) where
  abbrev pub diff_field : Field → Option EntityFieldState → FieldChanges → FieldChanges
  diff_field f none r = record r { added = described f ∷ r.added }
  diff_field f (some old) r = if hash_bytes f.yaml == old.hash then r else record r {
    modified =
        (if f.field_type == old.field_type
          then described f
          else descriptor f.name
              (Prim.Native.String.◌++◌ old.field_type (Prim.Native.String.◌++◌ " → " f.field_type)))
        ∷ r.modified;
  }

  unfoldable pub diff_fields : Dict String EntityFieldState → List Field → FieldChanges
  diff_fields old [] = record { added = []; modified = [] }
  diff_fields old (f ∷ fs) = diff_field f (lookup f.name old) (diff_fields old fs)

  abbrev pub change_of : Entity → Option (List EntityFieldState) → List EntityChange
  change_of e none =
      if is_empty e.fields
      then []
      else record { entity = e.name; added = map described e.fields; removed = []; modified = [] }
        ∷ []
  change_of e (some old) =
      let changes = diff_fields (by_name old []) e.fields in
      let removed = map was (keep (λ o. not (names_field e.fields o)) old) in
      if is_empty changes.added && is_empty removed && is_empty changes.modified
      then []
      else record {
        entity = e.name;
        added = changes.added;
        removed = removed;
        modified = changes.modified;
      }
        ∷ []

  unfoldable pub current_changes :
      Dict String (List EntityFieldState) → List Entity → List EntityChange
  current_changes old [] = []
  current_changes old (e ∷ es) = change_of e (lookup e.name old) ++ current_changes old es

  abbrev removed_fields : Option (List EntityFieldState) → List String
  removed_fields none = []
  removed_fields (some fields) = map was fields

  abbrev pub deletion : Dict String (List EntityFieldState) → String → EntityChange
  deletion old name = record {
    entity = name;
    added = [];
    removed = removed_fields (lookup name old);
    modified = [];
  }

  -- A record without entities has no map of them: YAML leaves an empty one out.
  unfoldable pub compute_entity_changes :
      List Entity → Dict String (List EntityFieldState) → List EntityChange
  unfolding current_changes
  compute_entity_changes entities [] = []
  compute_entity_changes entities (o ∷ old) =
      current_changes (o ∷ old) entities
      ++ map (deletion (o ∷ old))
          (sort_texts (keep (λ n. not (names_entity entities n)) (keys (o ∷ old))))
