-- ===== src/Lifecycle/Rules.antt =====
-- What `supersede` and `withdraw` of internal/lifecycle/commands.go promise of a lifecycle.
use stego.Prelude.{
  ℕ, ◌*◌, if◌then◌else◌, String, ◌≡◌, ◌≢◌, refl, sym, ap, Bool, true, false, not, Option, none,
  some, inl, inr, arith, ◌==◌, string_eq, Outcome, ok, require-step, >>-step, >>=-eq-ok, Bool-cases,
}
use stego.Prelude.Dict.{lookup}
use stego.Calendar.{Time, add_months, after, before, day_of, is_zero}
use stego.Lifecycle.{
  Refusal, Lifecycle, Supersession, Withdrawal, SupersedeRequest, WithdrawRequest, check, stated,
  one_successor, fail_date_in_window, fail_date_for, fail_date_until, latest_date, windows_of,
  completed, superseded_by, supersede_checked, supersede, is_none, is_blank, withdraw_until,
  withdrawn_by, withdraw,
}

is_none-eq : {A : Type 0} (o : Option A) → is_none o ≡ true → o ≡ none
is_none-eq none h = refl
is_none-eq (some a) h = cc

not-true : (b : Bool) → not b ≡ true → b ≡ false
not-true true h = cc
not-true false h = refl

some-stated : (o : Option Bool) → is_none o ≡ false → o ≡ some (stated o)
some-stated none h = cc
some-stated (some b) h = refl

-- The day that a request asks for, or the latest one.
abbrev pub asked_or : Time → Option Time → Time
asked_or latest none = latest
asked_or latest (some given) = day_of given

-- What an accepted supersession has passed.
record Superseded (l : Lifecycle) (r : SupersedeRequest) (id : String) (l' : Lifecycle)
    : Type 0 where
  free : l.supersession ≡ none
  declared : is_none r.needs_declaration_change ≡ false
  date : Time
  in_window : fail_date_in_window r ≡ ok date
  result : superseded_by l r id date ≡ l'

one_successor-free :
    (l : Lifecycle) (r : SupersedeRequest) → one_successor l r ≡ ok tt → l.supersession ≡ none
unfolding one_successor
one_successor-free l r h =
    is_none-eq l.supersession (require-step (is_none l.supersession) Refusal.has_successor _ h).0

return_superseded : Lifecycle → SupersedeRequest → String → Time → Outcome Refusal Lifecycle
return_superseded l r id date = ok (superseded_by l r id date)

supersede_checked-Superseded :
    (l : Lifecycle) (r : SupersedeRequest) (id : String) (l' : Lifecycle)
    → supersede_checked l r id ≡ ok l'
    → Superseded l r id l'
unfolding return_superseded
supersede_checked-Superseded l r id l' h =
    let (_, h₁) = >>-step (check r.successor) _ h in
    let (declared, h₂) =
      require-step (not (is_none r.needs_declaration_change)) Refusal.declaration_unstated _ h₁ in
    let (_, h₃) = require-step (not (is_none r.needs_fill_change)) Refusal.fill_unstated _ h₂ in
    let (_, h₄) = require-step (not (is_blank r.summary)) Refusal.no_summary _ h₃ in
    let (_, h₅) = require-step (not (is_zero r.recorded_on)) Refusal.no_recording _ h₄ in
    let (one, h₆) = >>-step (one_successor l r) _ h₅ in
    let (date, in_window, h₇) = >>=-eq-ok (fail_date_in_window r) (return_superseded l r id) h₆ in
    record {
      free = one_successor-free l r one;
      declared = not-true (is_none r.needs_declaration_change) declared;
      date = date;
      in_window = in_window;
      result = cc;
    }

supersede-Superseded :
    (l : Lifecycle) (r : SupersedeRequest) (id : String) (l' : Lifecycle)
    → supersede l r id ≡ ok l'
    → Superseded l (completed r) id l'
unfolding supersede
supersede-Superseded l r id l' h =
    let (_, h₁) = >>-step (check r.superseded) _ h in
    let (_, h₂) = require-step (not (r.successor.digest == "")) Refusal.missing_successor _ h₁ in
    supersede_checked-Superseded l (completed r) id l' h₂

-- A lifecycle takes at most one supersession: once `supersede` has accepted a request, it refuses
-- every later request on the lifecycle that it left.
pub supersede_once :
    (l l' : Lifecycle) (r : SupersedeRequest) (id : String)
    → supersede l r id ≡ ok l'
    → (r' : SupersedeRequest) (id' : String) (l'' : Lifecycle) → supersede l' r' id' ≢ ok l''
supersede_once l l' r id h r' id' l'' k =
    let first = supersede-Superseded l r id l' h in
    let later = supersede-Superseded l' r' id' l'' k in
    some-ne-none (ap (λ c. c.supersession) first.result) later.free
  where
    some-ne-none : {A : Type 0} {a : A} {o : Option A} → some a ≡ o → o ≡ none → ⊥
    some-ne-none e f = cc

fail_date_until-asked :
    (latest : Time) (given : Option Time) (date : Time)
    → fail_date_until latest given ≡ ok date
    → date ≡ asked_or latest given
fail_date_until-asked latest none date h = cc
fail_date_until-asked latest (some given) date h = elim (Bool-cases (after (day_of given) latest)) [
  | inl late ↦ let e = rw late at h in cc
  | inr fine ↦ let e : ok (day_of given) ≡ ok date = rw fine at h in cc
]

fail_date_until-bound :
    (latest : Time) (given : Option Time) (date : Time)
    → fail_date_until latest given ≡ ok date
    → after latest latest ≡ false
    → after date latest ≡ false
fail_date_until-bound latest none date h k = let e : latest ≡ date = cc in rw (← e) k
fail_date_until-bound latest (some given) date h k =
    elim (Bool-cases (after (day_of given) latest)) [
      | inl late ↦ let e = rw late at h in cc
      | inr fine ↦
          let e : ok (day_of given) ≡ ok date = rw fine at h in
          let d : day_of given ≡ date = cc in rw (← d) fine
    ]

after_self : (t : Time) → after t t ≡ false
after_self t = ground arith

fail_date_for-bound :
    (r : SupersedeRequest) (window : Option ℕ) (date : Time)
    → fail_date_for r window ≡ ok date
    → (months : ℕ) × (window ≡ some months)
      × (after date (latest_date r months) ≡ false)
      × (date ≡ asked_or (latest_date r months) r.fails_after)
fail_date_for-bound r none date h = cc
fail_date_for-bound r (some months) date h = (
  months,
  refl,
  fail_date_until-bound (latest_date r months) r.fails_after date h
      (after_self (latest_date r months)),
  fail_date_until-asked (latest_date r months) r.fails_after date h,
)

fail_date_in_window-bound :
    (r : SupersedeRequest) (date : Time)
    → fail_date_in_window r ≡ ok date
    → (months : ℕ) × (lookup r.superseded_stage (windows_of r.windows) ≡ some months)
      × (after date (latest_date r months) ≡ false)
      × (date ≡ asked_or (latest_date r months) r.fails_after)
unfolding fail_date_in_window
fail_date_in_window-bound r date h =
    let (_, h₁) =
      require-step (not (is_zero r.successor_released_on)) Refusal.no_release_date _ h in
    let (_, h₂) = require-step (not (r.superseded_stage == "")) Refusal.no_stage _ h₁ in
    fail_date_for-bound r (lookup r.superseded_stage (windows_of r.windows)) date h₂

-- The supersession that an accepted request leaves has a fail date that is not later than the release
-- date of the successor plus as many months as the window of the superseded stage has, or twice as
-- many if the supersession needs a declaration change; the window is the one that the registry states.
-- It is the day of the fail date that the request gives, or that latest date if it gives none.
pub supersede_in_window :
    (l l' : Lifecycle) (r : SupersedeRequest) (id : String)
    → supersede l r id ≡ ok l'
    → (s : Supersession) × (months : ℕ) × (l'.supersession ≡ some s)
      × (lookup r.superseded_stage (windows_of r.windows) ≡ some months)
      × (r.needs_declaration_change ≡ some s.needs_declaration_change)
      × ((latest : Time) × (latest
            ≡ add_months
                (day_of r.successor_released_on)
                (if s.needs_declaration_change then months * 2 else months))
          × (after s.fails_after latest ≡ false)
          × (s.fails_after ≡ asked_or latest r.fails_after))
supersede_in_window l l' r id h =
    let a = supersede-Superseded l r id l' h in
    let (months, window, bound, asked) =
      fail_date_in_window-bound (completed r) a.date a.in_window in
    (
      _,
      months,
      sym (ap (λ c. c.supersession) a.result),
      window,
      some-stated r.needs_declaration_change a.declared,
      (latest_date (completed r) months, refl, bound, asked),
    )

-- An accepted withdrawal is on a lifecycle without one, keeps its supersession, and carries the day of
-- the fail date that the request gives, which is not before the day of recording.
pub withdraw_future :
    (l l' : Lifecycle) (r : WithdrawRequest) (id : String)
    → withdraw l r id ≡ ok l'
    → (w : Withdrawal) × (l.withdrawal ≡ none)
      × (l'.withdrawal ≡ some w)
      × (l'.supersession ≡ l.supersession)
      × ((given : Time) × (r.fails_after ≡ some given)
          × (w.fails_after ≡ day_of given)
          × (before w.fails_after (day_of r.recorded_on) ≡ false))
unfolding withdraw
withdraw_future l l' r id h =
    until r.fails_after (>>-step (check r.withdrawn) (withdraw_until l r id r.fails_after) h).1
  where
    until :
        (o : Option Time)
        → withdraw_until l r id o ≡ ok l'
        → (w : Withdrawal) × (l.withdrawal ≡ none)
          × (l'.withdrawal ≡ some w)
          × (l'.supersession ≡ l.supersession)
          × ((given : Time) × (o ≡ some given)
              × (w.fails_after ≡ day_of given)
              × (before w.fails_after (day_of r.recorded_on) ≡ false))
    until none k = cc
    until (some given) k =
        let (_, k₁) = require-step (not (is_blank r.reason)) Refusal.no_reason _ k in
        let (_, k₂) = require-step (not (is_zero r.recorded_on)) Refusal.no_recording _ k₁ in
        let (future, k₃) =
          require-step (not (before (day_of given) (day_of r.recorded_on))) Refusal.fail_date_past _
            k₂ in
        let (fresh, k₄) = require-step (is_none l.withdrawal) Refusal.already_withdrawn _ k₃ in
        let e : withdrawn_by l r id (day_of given) ≡ l' = cc in
        (
          _,
          is_none-eq l.withdrawal fresh,
          sym (ap (λ c. c.withdrawal) e),
          sym (ap (λ c. c.supersession) e),
          (given, refl, refl, not-true (before (day_of given) (day_of r.recorded_on)) future),
        )
