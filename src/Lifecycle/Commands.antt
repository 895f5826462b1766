-- ===== src/Lifecycle/Commands.antt =====
-- The command on the lifecycle folder against the rules on one lifecycle: `Supersede` of
-- internal/lifecycle/commands.go with the store of store.go.
use stego.Prelude.{
  ℕ, String, ◌≡◌, ◌≢◌, refl, sym, ap, subst, Bool, true, false, not, List, [], none, some, arith,
  ◌==◌, string_eq, Outcome, ok, err, require-step, >>-step, >>=-eq-ok, ◌∙◌, eq_of_beq,
}
use stego.Prelude.Sort.{place}
use stego.Calendar.{Time, day_of, parse_date, is_zero}
use stego.Lifecycle.{
  Subject, Refusal, Lifecycle, Supersession, SupersedeRequest, check, supersede, completed,
  superseded_by, one_successor, fail_date_in_window, is_none, is_blank,
}
use stego.Lifecycle.Standing.{subject_eq}
use stego.Lifecycle.Advisories.{
  Advisory, Entry, Dates, entry, is_advisory_id, supersession_advisory,
}
use stego.Lifecycle.RoundTrip.{entry-supersession_advisory}
use stego.Lifecycle.Store.{
  Folder, StoreFault, find_subject, entry_of, group, lifecycles, read_items, read_folder,
  all_lifecycles, get, next_advisory_id, items_of, item_of, item_le, is_taken, file_name, add,
  lift_refusal, add_supersession, supersede_digest, IsReadable,
}
use stego.Lifecycle.Grouping.{subject_of, change_by, Late, find_subject-subject}
use stego.Lifecycle.Insertion.{group-Inserted}
use stego.Lifecycle.Reading.{read_items-place, read_items-fresh}
use stego.Lifecycle.Late.{
  is_none-eq, NotSuperseded, superseding, earlier-superseded, superseding-commutes,
}

-- What `supersede` has passed, as the store needs it.
record Allowed (l : Lifecycle) (r : SupersedeRequest) (id : String) (next : Lifecycle)
    : Type 0 where
  superseded : check r.superseded ≡ ok tt
  successor : check (completed r).successor ≡ ok tt
  summary : is_blank r.summary ≡ false
  free : NotSuperseded l
  kind : (completed r).successor.kind ≡ r.superseded.kind
  date : Time
  result : superseded_by l (completed r) id date ≡ next

one_successor-kind :
    (l : Lifecycle) (r : SupersedeRequest)
    → one_successor l r ≡ ok tt
    → (NotSuperseded l) × (r.successor.kind ≡ r.superseded.kind)
unfolding one_successor
one_successor-kind l r h =
    let (free, h₁) = require-step (is_none l.supersession) Refusal.has_successor _ h in
    let (kind, _) = require-step (r.successor.kind == r.superseded.kind) Refusal.other_kind _ h₁ in
    (is_none-eq l.supersession free, eq_of_beq r.successor.kind r.superseded.kind kind)

supersede-Allowed :
    (l : Lifecycle) (r : SupersedeRequest) (id : String) (next : Lifecycle)
    → supersede l r id ≡ ok next
    → Allowed l r id next
unfolding supersede
supersede-Allowed l r id next h =
    let c = completed r in
    let (superseded, h₁) = >>-step (check r.superseded) _ h in
    let (_, h₂) = require-step (not (r.successor.digest == "")) Refusal.missing_successor _ h₁ in
    let (successor, h₃) = >>-step (check c.successor) _ h₂ in
    let (_, h₄) =
      require-step (not (is_none c.needs_declaration_change)) Refusal.declaration_unstated _ h₃ in
    let (_, h₅) = require-step (not (is_none c.needs_fill_change)) Refusal.fill_unstated _ h₄ in
    let (summary, h₆) = require-step (not (is_blank c.summary)) Refusal.no_summary _ h₅ in
    let (_, h₇) = require-step (not (is_zero c.recorded_on)) Refusal.no_recording _ h₆ in
    let (one, h₈) = >>-step (one_successor l c) _ h₇ in
    let (date, _, h₉) = >>=-eq-ok (fail_date_in_window c) _ h₈ in
    let (free, kind) = one_successor-kind l c one in
    record {
      superseded = superseded;
      successor = successor;
      summary = flip (is_blank r.summary) summary;
      free = free;
      kind = kind;
      date = date;
      result = cc;
    }
  where
    flip : (b : Bool) → not b ≡ true → b ≡ false
    flip b k = ground arith

module _ (dates : Dates) where
  open dates use {format_time, parse_time, format_date}

  -- What the advisory of a supersession does.
  abbrev IsSupersession : Advisory → Subject → Supersession → Type 0
  IsSupersession x t s =
      (entry dates x ≡ ok (record { subject = t; supersession = some s; withdrawal = none }))
      × ((x.withdrawn == "") ≡ true)

  change_by-superseding :
      (x : Advisory) (t : Subject) (s : Supersession) (l : Lifecycle)
      → IsSupersession x t s
      → NotSuperseded l
      → change_by dates x l ≡ ok (superseding s l)
  change_by-superseding x t s l (e, w) free = rw (e, w, free) refl

  supersession-Late :
      (x : Advisory) (t : Subject) (s : Supersession)
      → IsSupersession x t s
      → Late dates x NotSuperseded
  supersession-Late x t s is = record {
    takes = λ l free. (superseding s l, change_by-superseding x t s l is free);
    earlier = λ a l l' h free.
        earlier-superseded a.id (not (a.withdrawn == ""))
          (entry_of dates (entry dates a)).supersession (entry_of dates (entry dates a)).withdrawal
          l l' h free;
    commutes = λ a l l₁ g h free made.
        let before =
          earlier-superseded a.id (not (a.withdrawn == ""))
            (entry_of dates (entry dates a)).supersession
            (entry_of dates (entry dates a)).withdrawal l l₁ h free in
        let same : superseding s l ≡ g =
          one (change_by dates x l) _ _ (change_by-superseding x t s l is before) made in
        (
          superseding s l₁,
          subst (λ y. change_by dates a y ≡ ok (superseding s l₁)) same
              (superseding-commutes a.id (not (a.withdrawn == ""))
                (entry_of dates (entry dates a)).supersession
                (entry_of dates (entry dates a)).withdrawal s l l₁ h free),
          change_by-superseding x t s l₁ is free,
        );
  }
    where
      one : (m : Outcome StoreFault Lifecycle) (a b : Lifecycle) → m ≡ ok a → m ≡ ok b → a ≡ b
      one m a b h k = cc

  -- What a readable folder holds; one that is not there holds nothing.
  record Holds (folder : Folder) : Type 0 where
    advisories : List Advisory
    reads : read_items dates (items_of dates folder) ≡ ok advisories
    lifecycles' : List Lifecycle
    grouped : group dates [] advisories [] ≡ ok lifecycles'
    answers : (t : Subject) → get dates folder t ≡ ok (find_subject t lifecycles')

  get-Holds :
      (folder : Folder) (t : Subject) (l : Lifecycle) → get dates folder t ≡ ok l → Holds folder
  unfolding get all_lifecycles read_folder read_items group find_subject lifecycles
  get-Holds none t l h = record {
    advisories = [];
    reads = refl;
    lifecycles' = [];
    grouped = refl;
    answers = λ u. refl;
  }
  get-Holds (some items) t l h =
      let (ls, all', _) = >>=-eq-ok (all_lifecycles dates (some items)) _ h in
      let (as', reads, grouped) = >>=-eq-ok (read_items dates items) (lifecycles dates) all' in
      record {
        advisories = as';
        reads = reads;
        lifecycles' = ls;
        grouped = grouped;
        answers = λ u. rw (reads, grouped) refl;
      }

  -- The folder with one more supersession gives it to its subject and nothing to the others.
  add-Grown :
      (folder left : Folder) (x : Advisory) (t : Subject) (s : Supersession) (l : Lifecycle)
      → IsSupersession x t s
      → IsReadable dates x
      → get dates folder t ≡ ok l
      → NotSuperseded l
      → add dates folder x ≡ ok left
      → (get dates left t ≡ ok (superseding s l))
        × ((u : Subject) → u ≢ t → get dates left u ≡ get dates folder u)
  unfolding add get all_lifecycles read_folder lifecycles
  add-Grown folder left x t s l is readable found free h =
      let held = get-Holds folder t l found in
      let items = items_of dates folder in
      let (fresh, h₁) =
        require-step (not (is_taken dates (file_name x.id) items)) (StoreFault.name_taken x.id) _
          h in
      let e : some (place (item_le dates) (item_of dates x) items) ≡ left = cc in
      let valid : Entry = record { subject = t; supersession = some s; withdrawal = none } in
      let read' = read_items-place dates x valid items held.advisories readable is.0 held.reads in
      let same_t : subject_of dates x ≡ t = ap (λ m. (entry_of dates m).subject) is.0 in
      let was : find_subject t held.lifecycles' ≡ l =
        one (get dates folder t) _ _ (held.answers t) found in
      let free' : NotSuperseded (find_subject (subject_of dates x) held.lifecycles') =
        subst (λ y. NotSuperseded (find_subject y held.lifecycles')) (sym same_t)
          (subst NotSuperseded (sym was) free) in
      let longer =
        group-Inserted dates x NotSuperseded (supersession-Late x t s is) [] held.advisories
          read'.advisories [] held.lifecycles' read'.inserted held.grouped free' refl
          (read_items-fresh dates items held.advisories x.id held.reads (flip _ fresh)) in
      let answers : (u : Subject) → get dates left u ≡ ok (find_subject u longer.result) = λ u.
        subst (λ f. get dates f u ≡ ok (find_subject u longer.result)) e
          (rw (read'.reads, longer.grouped) refl) in
      let at' : ◌≡◌ {A = Outcome StoreFault Lifecycle} (ok (superseding s l))
          (ok (find_subject t longer.result)) =
        subst
          (λ (y : Lifecycle).
            ◌≡◌ {A = Outcome StoreFault Lifecycle} (ok (superseding s y))
              (ok (find_subject t longer.result)))
          was
          (sym (
              change_by-superseding x t s (find_subject t held.lifecycles') is
                (subst NotSuperseded (sym was) free))
            ∙ subst
                (λ y.
                  change_by dates x (find_subject y held.lifecycles')
                  ≡ ok (find_subject y longer.result))
                same_t longer.beside.at') in
      (
        answers t ∙ sym at',
        λ u away.
            answers u ∙ ap ok (longer.beside.off u (λ k. away (k ∙ same_t))) ∙ sym (held.answers u),
      )
    where
      one : (m : Outcome StoreFault Lifecycle) (a b : Lifecycle) → m ≡ ok a → m ≡ ok b → a ≡ b
      one m a b h k = cc

      flip : (b : Bool) → not b ≡ true → b ≡ false
      flip b k = ground arith

  some-injective : {a b : Supersession} → some a ≡ some b → a ≡ b
  some-injective h = cc

  -- The advisory of an allowed supersession, in a folder.
  recorded :
      (folder left : Folder) (current next : Lifecycle) (r : SupersedeRequest) (number : String)
      (s : Supersession)
      → get dates folder r.superseded ≡ ok current
      → Allowed current r number next
      → next.supersession ≡ some s
      → is_advisory_id s.advisory_id ≡ true
      → parse_time (format_time s.recorded_on) ≡ some s.recorded_on
      → parse_date (format_date (day_of s.fails_after)) ≡ some s.fails_after
      → IsReadable dates (supersession_advisory dates r.superseded s)
      → add dates folder (supersession_advisory dates r.superseded s) ≡ ok left
      → (get dates left r.superseded ≡ ok next)
        × ((u : Subject) → u ≢ r.superseded → get dates left u ≡ get dates folder u)
  recorded folder left current next r number s found allowed known id time date readable added =
      let same =
        some-injective (sym known ∙ ap (λ (l : Lifecycle). l.supersession) (sym allowed.result)) in
      let is : IsSupersession (supersession_advisory dates r.superseded s) r.superseded s = (
        entry-supersession_advisory dates r.superseded s allowed.superseded
            (ap (λ (y : Supersession). check y.successor) same ∙ allowed.successor)
            (ap (λ (y : Supersession). y.successor.kind) same ∙ allowed.kind) id
            (ap (λ (y : Supersession). is_blank y.summary) same ∙ allowed.summary) time date,
        refl,
      ) in
      let (at', off) =
        add-Grown folder left (supersession_advisory dates r.superseded s) r.superseded s current is
          readable found allowed.free added in
      (
        at'
            ∙ ap ok (
                whole current next r number s allowed known
                  (about folder r.superseded current found)),
        off,
      )
    where
      one : (m : Outcome StoreFault Lifecycle) (a b : Lifecycle) → m ≡ ok a → m ≡ ok b → a ≡ b
      one m a b p q = cc

      about : (f : Folder) (t : Subject) (l : Lifecycle) → get dates f t ≡ ok l → l.subject ≡ t
      about f t l h =
          let held = get-Holds f t l h in
          ap (λ (y : Lifecycle). y.subject) (one (get dates f t) _ _ h (held.answers t))
          ∙ find_subject-subject t held.lifecycles'

      whole :
          (l l' : Lifecycle) (q : SupersedeRequest) (n : String) (x : Supersession)
          → Allowed l q n l'
          → l'.supersession ≡ some x
          → l.subject ≡ q.superseded
          → superseding x l ≡ l'
      whole l l' q n x ok' k e =
          let subject_is : l'.subject ≡ q.superseded =
            ap (λ (y : Lifecycle). y.subject) (sym ok'.result) in
          let withdrawal_is : l'.withdrawal ≡ l.withdrawal =
            ap (λ (y : Lifecycle). y.withdrawal) (sym ok'.result) in
          cc

  lifted : (m : Outcome Refusal Lifecycle) (l : Lifecycle) → lift_refusal dates m ≡ ok l → m ≡ ok l
  lifted (ok l') l k = cc
  lifted (err f) l k = cc

  stored_as :
      (folder left : Folder) (next : Lifecycle) (t : Subject) (s : Supersession)
      → add_supersession dates folder next.subject next.supersession ≡ ok left
      → next.subject ≡ t
      → next.supersession ≡ some s
      → add dates folder (supersession_advisory dates t s) ≡ ok left
  stored_as folder left next t s k a b =
      subst (λ y. add dates folder (supersession_advisory dates y s) ≡ ok left) a
        (subst (λ o. add_supersession dates folder next.subject o ≡ ok left) b k)

  -- A command that records a supersession does to the folder what the rules do to one lifecycle: the
  -- subject then has the lifecycle that `supersede` leaves from the one it had, and every other subject
  -- the one that it had, given that the id, the time and the date of the record are read back as they
  -- were written, that its file is within the limit of 1 MiB, and that JSON reads back the advisory
  -- that it wrote.
  pub supersede_digest-refines :
      (format_id : ℕ → ℕ → String) (folder left : Folder) (r : SupersedeRequest) (next : Lifecycle)
      (s : Supersession) (u : Subject)
      → supersede_digest dates format_id folder r ≡ ok (left, next)
      → next.supersession ≡ some s
      → is_advisory_id s.advisory_id ≡ true
      → parse_time (format_time s.recorded_on) ≡ some s.recorded_on
      → parse_date (format_date (day_of s.fails_after)) ≡ some s.fails_after
      → IsReadable dates (supersession_advisory dates r.superseded s)
      → u ≢ r.superseded
      → ((current : Lifecycle) × (id : String) × (get dates folder r.superseded ≡ ok current)
          × (supersede current r id ≡ ok next)
          × (get dates left r.superseded ≡ ok next))
        × (get dates left u ≡ get dates folder u)
  unfolding supersede_digest
  supersede_digest-refines format_id folder left r next s u h known id time date readable away =
      let (current, found, h₁) = >>=-eq-ok (get dates folder r.superseded) _ h in
      let (number, _, h₂) =
        >>=-eq-ok (next_advisory_id dates format_id folder r.recorded_on) _ h₁ in
      let (after', rules, h₃) = >>=-eq-ok (lift_refusal dates (supersede current r number)) _ h₂ in
      let (folder', stored, h₄) =
        >>=-eq-ok (add_supersession dates folder after'.subject after'.supersession) _ h₃ in
      let e : after' ≡ next = cc in
      let e' : folder' ≡ left = cc in
      finish current number found (lifted (supersede current r number) next (rules ∙ ap ok e)) (
        subst (λ (y : Lifecycle). add_supersession dates folder y.subject y.supersession ≡ ok left)
          e (stored ∙ ap ok e'))
    where
      finish :
          (current : Lifecycle) (number : String)
          → get dates folder r.superseded ≡ ok current
          → supersede current r number ≡ ok next
          → add_supersession dates folder next.subject next.supersession ≡ ok left
          → ((l : Lifecycle) × (n : String) × (get dates folder r.superseded ≡ ok l)
              × (supersede l r n ≡ ok next)
              × (get dates left r.superseded ≡ ok next))
            × (get dates left u ≡ get dates folder u)
      finish current number found rules stored =
          let allowed = supersede-Allowed current r number next rules in
          let (at', off) =
            recorded folder left current next r number s found allowed known id time date readable (
              stored_as folder left next r.superseded s stored
                (ap (λ (l : Lifecycle). l.subject) (sym allowed.result)) known) in
          ((current, number, found, rules, at'), off u away)
