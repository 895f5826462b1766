-- ===== src/Lifecycle/Store.antt =====
-- The lifecycle folder and the commands on it: `Store` of internal/lifecycle/store.go, `Supersede` and
-- `Withdraw` of commands.go. A folder is the files in name order, each with its bytes; JSON is the
-- library's. A write is one link, which fails on a taken name.
use Prim.Native.String
use stego.Prelude.{
  ℕ, ◌+◌, ◌-◌, ◌%◌, ◌^◌, ◌++◌, ◌≡◌, length, String, Bool, true, false, not, ◌&&◌, ◌||◌, List, [],
  ◌∷◌, Option, none, some, ◌==◌, string_eq, nat_eq, leb, ltb, if◌then◌else◌, Outcome, ok, err,
  require, ◌>>=◌, ◌>>◌, contains, any,
}
use stego.Prelude.Sort.{text_le, place}
use stego.Calendar.{Time, civil_of}
use stego.Lifecycle.{
  Subject, Refusal, Lifecycle, Supersession, Withdrawal, SupersedeRequest, WithdrawRequest,
  supersede, withdraw, is_none,
}
use stego.Lifecycle.Standing.{subject_eq}
use stego.Lifecycle.Advisories.{
  Advisory, Entry, Dates, AdvisoryFault, entry, advisory_number, supersession_advisory,
  withdrawal_advisory,
}

-- One file of the folder: whether it is a regular file, and its bytes.
pub record Item : Type 0 where
  pub name : String
  pub regular : Bool
  pub content : List ℕ

-- The folder, if there is one.
abbrev pub Folder : Type 0
Folder = Option (List Item)

pub data StoreFault : Type 0 where
  no_folder : StoreFault
  not_an_advisory : String → StoreFault
  too_large : String → StoreFault
  not_decoded : String → StoreFault
  not_valid : AdvisoryFault → StoreFault
  wrong_name : String → StoreFault
  same_id : String → StoreFault
  two_successors : String → StoreFault
  two_withdrawals : String → StoreFault
  name_taken : String → StoreFault
  refused : Refusal → StoreFault
  no_record : StoreFault

-- `strings.HasSuffix(name, ".json")`
unfoldable pub is_json : String → Bool
is_json String.[] = false
is_json (String.◌∷◌ c s) = String.◌∷◌ c s == ".json" || is_json s

-- `1 << 20`
abbrev pub max_advisory_bytes : ℕ
max_advisory_bytes = 1048576

abbrev pub file_name : String → String
file_name id = Prim.Native.String.◌++◌ id ".json"

abbrev pub blank_lifecycle : Subject → Lifecycle
blank_lifecycle s = record { subject = s; supersession = none; withdrawal = none }

-- What one advisory does to the lifecycle of its subject; `retracted` tells that its withdrawn time is
-- set.
abbrev pub with_supersession :
    String → Bool → Supersession → Lifecycle → Outcome StoreFault Lifecycle
with_supersession id true s l = ok l
with_supersession id false s l = do
  require (is_none l.supersession) (StoreFault.two_successors id)
  ok (record l { supersession = some s })

abbrev pub apply_entry :
    String
    → Bool
    → Option Supersession
    → Option Withdrawal
    → Lifecycle
    → Outcome StoreFault Lifecycle
apply_entry id retracted (some s) w l = with_supersession id retracted s l
apply_entry id retracted none w l = do
  require (is_none l.withdrawal) (StoreFault.two_withdrawals id)
  ok (record l { withdrawal = w })

abbrev pub cons_ok :
    Lifecycle → Outcome StoreFault (List Lifecycle) → Outcome StoreFault (List Lifecycle)
cons_ok l (ok ls) = ok (l ∷ ls)
cons_ok l (err e) = err e

-- `bySubject` with `order`: the lifecycle of a subject, or a new one at the end.
unfoldable pub update_at :
    Subject
    → (Lifecycle → Outcome StoreFault Lifecycle)
    → List Lifecycle
    → Outcome StoreFault (List Lifecycle)
update_at s f [] = f (blank_lifecycle s) >>= λ l. ok (l ∷ [])
update_at s f (x ∷ xs) =
    let rest = update_at s f xs in
    if x.subject == s then (f x >>= λ l. ok (l ∷ xs)) else cons_ok x rest

-- The lifecycle of a subject among those of a folder.
unfoldable pub find_subject : Subject → List Lifecycle → Lifecycle
find_subject s [] = blank_lifecycle s
find_subject s (x ∷ xs) = let rest = find_subject s xs in if x.subject == s then x else rest

module _ (dates : Dates) where
  -- The zero value stands for an advisory that `read` would refuse.
  abbrev pub entry_of : Outcome AdvisoryFault Entry → Entry
  entry_of (ok e) = e
  entry_of (err f) = record {
    subject = record { kind = ""; name = ""; digest = "" };
    supersession = none;
    withdrawal = none;
  }

  -- One round of the loop of `lifecycles`.
  abbrev pub group_one : Advisory → Entry → List Lifecycle → Outcome StoreFault (List Lifecycle)
  group_one a e ls =
      update_at e.subject (apply_entry a.id (not (a.withdrawn == "")) e.supersession e.withdrawal)
        ls

  unfoldable pub group :
      List String → List Advisory → List Lifecycle → Outcome StoreFault (List Lifecycle)
  unfolding update_at
  group ids [] ls = ok ls
  group ids (a ∷ as') ls = do
    require (not (contains ids a.id)) (StoreFault.same_id a.id)
    next ← group_one a (entry_of (entry dates a)) ls
    group (a.id ∷ ids) as' next

  -- `lifecycles`
  unfoldable pub lifecycles : List Advisory → Outcome StoreFault (List Lifecycle)
  lifecycles advisories = group [] advisories []

  abbrev pub decoded_of : String → Option Advisory → Outcome StoreFault Advisory
  decoded_of name none = err (StoreFault.not_decoded name)
  decoded_of name (some a) = ok a

  abbrev pub valid_of : Outcome AdvisoryFault Entry → Outcome StoreFault (Unit {0})
  valid_of (ok e) = ok tt
  valid_of (err f) = err (StoreFault.not_valid f)

  -- `readAdvisory`, and the test on its name.
  abbrev pub read_item : Item → Outcome StoreFault Advisory
  read_item i = do
    require (i.regular && is_json i.name) (StoreFault.not_an_advisory i.name)
    require (leb (length i.content) max_advisory_bytes) (StoreFault.too_large i.name)
    a ← decoded_of i.name (dates.decode_advisory i.content)
    valid_of (entry dates a)
    require (file_name a.id == i.name) (StoreFault.wrong_name i.name)
    ok a

  unfoldable pub read_items : List Item → Outcome StoreFault (List Advisory)
  read_items [] = ok []
  read_items (i ∷ is) =
      let rest = read_items is in
      if i.name == "README.md" then rest else (do a ← read_item i; more ← rest; ok (a ∷ more))

  -- `Store.read`
  unfoldable pub read_folder : Folder → Outcome StoreFault (List Advisory)
  unfolding read_items
  read_folder none = err StoreFault.no_folder
  read_folder (some items) = read_items items

  -- `Store.All`
  unfoldable pub all_lifecycles : Folder → Outcome StoreFault (List Lifecycle)
  all_lifecycles folder = do advisories ← read_folder folder; lifecycles advisories

  -- `Store.Get`; `ErrNoFolder` comes from a folder that is not there, and from nothing else.
  unfoldable pub get : Folder → Subject → Outcome StoreFault Lifecycle
  unfolding find_subject
  get none s = ok (blank_lifecycle s)
  get (some items) s = do ls ← all_lifecycles (some items); ok (find_subject s ls)

  -- A text of the year that `strconv.Itoa` writes has four digits from the year 1000 on, and a number
  -- that is too large for an `int` is left out. `Civil` counts years 400 too large.
  abbrev pub counts_in : ℕ → Option (ℕ × ℕ) → ℕ → ℕ
  counts_in year none highest = highest
  counts_in year (some (y, n)) highest =
      if y == year && leb 1000 year && ltb n 9223372036854775808 && ltb highest n
      then n
      else highest

  unfoldable pub highest_number : ℕ → List Advisory → ℕ → ℕ
  highest_number year [] highest = highest
  highest_number year (a ∷ as') highest =
      highest_number year as' (counts_in year (advisory_number a.id) highest)

  abbrev pub known_advisories : Folder → Outcome StoreFault (List Advisory)
  known_advisories none = ok []
  known_advisories (some items) = read_folder (some items)

  -- `nextAdvisoryID`; `format_id` is `fmt.Sprintf` of the year and of the number, an `int` that wraps,
  -- given by its 64 bits.
  unfoldable pub next_advisory_id : (ℕ → ℕ → String) → Folder → Time → Outcome StoreFault String
  unfolding highest_number civil_of
  next_advisory_id format_id folder recorded_on = do
    advisories ← known_advisories folder
    let year = (civil_of recorded_on.day).year - 400
    ok (format_id year ((highest_number year advisories 0 + 1) % 2 ^ 64))

  abbrev pub is_taken : String → List Item → Bool
  is_taken name items = any (λ (x : Item). x.name == name) items

  abbrev pub item_le : Item → Item → Bool
  item_le i j = text_le i.name j.name

  abbrev pub items_of : Folder → List Item
  items_of none = []
  items_of (some items) = items

  -- The bytes that `add` writes: the JSON and a new line.
  abbrev pub advisory_file : Advisory → List ℕ
  advisory_file a = dates.encode_advisory a ++ 10 ∷ []

  -- What `readAdvisory` needs of these bytes: the limit, and that JSON reads back what it wrote.
  abbrev pub IsReadable : Advisory → Type 0
  IsReadable a =
      (leb (length (advisory_file a)) max_advisory_bytes ≡ true)
      × (dates.decode_advisory (advisory_file a) ≡ some a)

  abbrev pub item_of : Advisory → Item
  item_of a = record { name = file_name a.id; regular = true; content = advisory_file a }

  -- `Store.add`
  unfoldable pub add : Folder → Advisory → Outcome StoreFault Folder
  add folder a = do
    require (not (is_taken (file_name a.id) (items_of folder))) (StoreFault.name_taken a.id)
    ok (some (place item_le (item_of a) (items_of folder)))

  abbrev pub lift_refusal : Outcome Refusal Lifecycle → Outcome StoreFault Lifecycle
  lift_refusal (ok l) = ok l
  lift_refusal (err e) = err (StoreFault.refused e)

  abbrev pub add_supersession : Folder → Subject → Option Supersession → Outcome StoreFault Folder
  add_supersession folder s none = err StoreFault.no_record
  add_supersession folder s (some x) = add folder (supersession_advisory dates s x)

  abbrev pub add_withdrawal : Folder → Subject → Option Withdrawal → Outcome StoreFault Folder
  add_withdrawal folder s none = err StoreFault.no_record
  add_withdrawal folder s (some w) = add folder (withdrawal_advisory dates s w)

  -- `Supersede`: the folder that it leaves, with the lifecycle of the event.
  unfoldable pub supersede_digest :
      (ℕ → ℕ → String) → Folder → SupersedeRequest → Outcome StoreFault (Folder × Lifecycle)
  unfolding get next_advisory_id add
  supersede_digest format_id folder r = do
    current ← get folder r.superseded
    id ← next_advisory_id format_id folder r.recorded_on
    next ← lift_refusal (supersede current r id)
    left ← add_supersession folder next.subject next.supersession
    ok (left, next)

  -- `Withdraw`
  unfoldable pub withdraw_digest :
      (ℕ → ℕ → String) → Folder → WithdrawRequest → Outcome StoreFault (Folder × Lifecycle)
  unfolding get next_advisory_id add
  withdraw_digest format_id folder r = do
    current ← get folder r.withdrawn
    id ← next_advisory_id format_id folder r.recorded_on
    next ← lift_refusal (withdraw current r id)
    left ← add_withdrawal folder next.subject next.withdrawal
    ok (left, next)
