-- ===== src/Lifecycle/Reading.antt =====
-- The lifecycle folder with one more file, for `Store.read` and `Store.add` of
-- internal/lifecycle/store.go.
use Prim.Native.String.append
use stego.Prelude.{
  length, leb, String, ◌≡◌, ◌≢◌, refl, sym, ap, subst, Bool, true, false, ◌&&◌, ◌||◌, List, [], ◌∷◌,
  arith, ◌==◌, string_eq, ok, require-step, >>-step, >>=-eq-ok, ◌∙◌, inl, inr, Bool-cases,
  eq_of_beq, beq_refl, beq_ne, In, In-cons,
}
use stego.Prelude.Sort.{place}
use stego.Lifecycle.Standing.{subject_eq}
use stego.Lifecycle.Advisories.{Advisory, Entry, Dates, entry}
use stego.Lifecycle.Store.{
  Item, StoreFault, read_item, read_items, item_of, item_le, is_taken, file_name, is_json,
  decoded_of, valid_of, max_advisory_bytes, IsReadable,
}
use stego.Lifecycle.Insertion.{Inserted}

or_true : (p q : Bool) → q ≡ true → (p || q) ≡ true
or_true p q h = ground arith

is_json-file_name : (id : String) → is_json (file_name id) ≡ true
unfolding is_json
is_json-file_name String.[] = ap is_json (append.nil ".json") ∙ refl
is_json-file_name (String.◌∷◌ c s) =
    ap is_json (append.cons c s ".json")
    ∙ or_true (String.◌∷◌ c (file_name s) == ".json") (is_json (file_name s)) (is_json-file_name s)

file_name-readme : (id : String) → (file_name id == "README.md") ≡ false
unfolding is_json
file_name-readme id =
    beq_ne (file_name id) "README.md" (λ e. clash (ap is_json e) (is_json-file_name id))
  where
    clash : is_json (file_name id) ≡ is_json "README.md" → is_json (file_name id) ≢ true
    clash h k = cc

module _ (dates : Dates) where
  read_item-item_of :
      (x : Advisory) (e : Entry)
      → IsReadable dates x
      → entry dates x ≡ ok e
      → read_item dates (item_of dates x) ≡ ok x
  read_item-item_of x e (small, back) h =
      rw (is_json-file_name x.id, small, back, h, beq_refl (file_name x.id)) refl

  read_item-name : (i : Item) (a : Advisory) → read_item dates i ≡ ok a → file_name a.id ≡ i.name
  read_item-name i a h =
      let (_, h₁) =
        require-step (i.regular && is_json i.name) (StoreFault.not_an_advisory i.name) _ h in
      let (_, h₁') =
        require-step (leb (length i.content) max_advisory_bytes) (StoreFault.too_large i.name) _
          h₁ in
      let (b, decoded, h₂) =
        >>=-eq-ok (decoded_of dates i.name (dates.decode_advisory i.content)) _ h₁' in
      let (_, h₃) = >>-step (valid_of dates (entry dates b)) _ h₂ in
      let (named, h₄) =
        require-step (file_name b.id == i.name) (StoreFault.wrong_name i.name) _ h₃ in
      let e : b ≡ a = cc in
      ap (λ (y : Advisory). file_name y.id) (sym e) ∙ eq_of_beq (file_name b.id) i.name named

  -- A folder without a file of the new name has no advisory with the new id.
  pub read_items-fresh :
      (items : List Item) (as' : List Advisory) (id : String)
      → read_items dates items ≡ ok as'
      → is_taken dates (file_name id) items ≡ false
      → (a : Advisory) → In a as'
      → a.id ≢ id
  unfolding read_items
  read_items-fresh [] as' id h free a i =
      let e : [] ≡ as' = cc in elim (subst (λ l. In a l) (sym e) i) [ ]
  read_items-fresh (item ∷ items) as' id h free a i =
      let (head, tail) = neither (item.name == file_name id) _ free in
      elim (Bool-cases (item.name == "README.md")) [
        | inl readme ↦ read_items-fresh items as' id (rw readme at h) tail a i
        | inr file ↦
            let (b, reads, h₁) = >>=-eq-ok (read_item dates item) _ (rw file at h) in
            let (more, others, h₂) = >>=-eq-ok (read_items dates items) _ h₁ in
            let e : as' ≡ b ∷ more = cc in
            In-cons (λ (c : Advisory). c.id ≢ id)
              (λ k. same head (sym (read_item-name item b reads) ∙ ap file_name k))
              (λ c j. read_items-fresh items more id others tail c j) a (subst (λ l. In a l) e i)
      ]
    where
      neither : (p q : Bool) → (p || q) ≡ false → (p ≡ false) × (q ≡ false)
      neither p q k = ground arith

      same : (item.name == file_name id) ≡ false → item.name ≢ file_name id
      same k e =
          let q : (item.name == item.name) ≡ false = rw (← e) at k in cc (q, beq_refl item.name)

  pub record Read (x : Advisory) (items : List Item) (as' : List Advisory) : Type 0 where
    pub advisories : List Advisory
    pub reads : read_items dates items ≡ ok advisories
    pub inserted : Inserted x as' advisories

  read_items-new :
      (x : Advisory) (e : Entry) (items : List Item) (as' : List Advisory)
      → IsReadable dates x
      → entry dates x ≡ ok e
      → read_items dates items ≡ ok as'
      → read_items dates (item_of dates x ∷ items) ≡ ok (x ∷ as')
  unfolding read_items
  read_items-new x e items as' readable valid h =
      rw (file_name-readme x.id, read_item-item_of x e readable valid, h) refl

  -- The folder with one more file is read with one more advisory.
  pub read_items-place :
      (x : Advisory) (e : Entry) (items : List Item) (as' : List Advisory)
      → IsReadable dates x
      → entry dates x ≡ ok e
      → read_items dates items ≡ ok as'
      → Read x (place (item_le dates) (item_of dates x) items) as'
  unfolding place read_items
  read_items-place x e [] as' readable valid h = record {
    advisories = x ∷ as';
    reads = read_items-new x e [] as' readable valid h;
    inserted = Inserted.here;
  }
  read_items-place x e (item ∷ items) as' readable valid h =
      elim (Bool-cases (item_le dates (item_of dates x) item)) [
        | inl first ↦ rw first (record {
          advisories = x ∷ as';
          reads = read_items-new x e (item ∷ items) as' readable valid h;
          inserted = Inserted.here;
        })
        | inr later ↦
            rw later
              (behind item items as' (λ bs k. read_items-place x e items bs readable valid k) h)
      ]
    where
      behind :
          (i : Item) (is : List Item) (cs : List Advisory)
          → ((bs : List Advisory)
              → read_items dates is ≡ ok bs
              → Read x (place (item_le dates) (item_of dates x) is) bs)
          → read_items dates (i ∷ is) ≡ ok cs
          → Read x (i ∷ place (item_le dates) (item_of dates x) is) cs
      behind i is cs ih k = elim (Bool-cases (i.name == "README.md")) [
        | inl readme ↦
            let more = ih cs (rw readme at k) in
            record {
              advisories = more.advisories;
              reads = rw readme more.reads;
              inserted = more.inserted;
            }
        | inr file ↦
            let (b, reads, k₁) = >>=-eq-ok (read_item dates i) _ (rw file at k) in
            let (rest, others, k₂) = >>=-eq-ok (read_items dates is) _ k₁ in
            let more = ih rest others in
            let e : b ∷ rest ≡ cs = cc in
            subst (λ l. Read x (i ∷ place (item_le dates) (item_of dates x) is) l) e
              (record {
                advisories = b ∷ more.advisories;
                reads = rw (file, reads, more.reads) refl;
                inserted = Inserted.there more.inserted;
              })
      ]
