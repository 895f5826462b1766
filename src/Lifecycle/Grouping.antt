-- ===== src/Lifecycle/Grouping.antt =====
-- The grouping of the advisories by subject, for `lifecycles` of internal/lifecycle/store.go: what one
-- more advisory does, wherever it stands.
use stego.Prelude.{
  String, ◌≡◌, ◌≢◌, refl, sym, ap, subst, Bool, true, false, not, List, [], ◌∷◌, Option, none, some,
  arith, ◌==◌, string_eq, if◌then◌else◌, Outcome, ok, err, require-step, >>=-eq-ok, ◌∙◌, inl, inr,
  Bool-cases, eq_of_beq, beq_refl, beq_ne, contains,
}
use stego.Lifecycle.{Subject, Lifecycle, Supersession, Withdrawal, is_none}
use stego.Lifecycle.Standing.{subject_eq}
use stego.Lifecycle.Advisories.{Advisory, Dates, entry}
use stego.Lifecycle.Store.{
  StoreFault, blank_lifecycle, apply_entry, cons_ok, update_at, find_subject, entry_of, group_one,
  group,
}

abbrev pub Change : Type 0
Change = Lifecycle → Outcome StoreFault Lifecycle

-- A change that keeps the subject.
abbrev pub KeepsSubject : Change → Type 0
KeepsSubject f = (x l : Lifecycle) → f x ≡ ok l → l.subject ≡ x.subject

pub find_subject-subject : (s : Subject) (ls : List Lifecycle) → (find_subject s ls).subject ≡ s
unfolding find_subject
find_subject-subject s [] = refl
find_subject-subject s (x ∷ xs) = elim (Bool-cases (x.subject == s)) [
  | inl same ↦ rw same (eq_of_beq x.subject s same)
  | inr other ↦ rw other (find_subject-subject s xs)
]

cons_ok-eq :
    (x : Lifecycle) (m : Outcome StoreFault (List Lifecycle)) (ls : List Lifecycle)
    → cons_ok x m ≡ ok ls
    → (rest : List Lifecycle) × (m ≡ ok rest) × (x ∷ rest ≡ ls)
cons_ok-eq x (ok rest) ls h = (rest, refl, cc)
cons_ok-eq x (err e) ls h = cc

-- The lifecycle of the subject is changed.
pub update_at-here :
    (s : Subject) (f : Change) (ls ls' : List Lifecycle)
    → KeepsSubject f
    → update_at s f ls ≡ ok ls'
    → f (find_subject s ls) ≡ ok (find_subject s ls')
unfolding update_at find_subject
update_at-here s f [] ls' keeps h =
    let (l, made, h₁) = >>=-eq-ok (f (blank_lifecycle s)) _ h in
    let e : l ∷ [] ≡ ls' = cc in
    let named : (l.subject == s) ≡ true =
      subst (λ t. (t == s) ≡ true) (sym (keeps (blank_lifecycle s) l made)) (beq_refl s) in
    made ∙ ap ok (subst (λ xs. l ≡ find_subject s xs) e (rw named refl))
update_at-here s f (x ∷ xs) ls' keeps h = elim (Bool-cases (x.subject == s)) [
  | inl same ↦
      let (l, made, h₁) = >>=-eq-ok (f x) _ (rw same at h) in
      let e : l ∷ xs ≡ ls' = cc in
      let named : (l.subject == s) ≡ true =
        subst (λ t. (t == s) ≡ true) (sym (keeps x l made)) same in
      rw same (made ∙ ap ok (subst (λ ys. l ≡ find_subject s ys) e (rw named refl)))
  | inr other ↦
      let (rest, made, e) = cons_ok-eq x (update_at s f xs) ls' (rw other at h) in
      let step = update_at-here s f xs rest keeps made in
      rw other
        (step ∙ ap ok (subst (λ ys. find_subject s rest ≡ find_subject s ys) e (rw other refl)))
]

-- The lifecycles of the other subjects are not.
pub update_at-others :
    (s t : Subject) (f : Change) (ls ls' : List Lifecycle)
    → KeepsSubject f
    → t ≢ s
    → update_at s f ls ≡ ok ls'
    → find_subject t ls' ≡ find_subject t ls
unfolding update_at find_subject
update_at-others s t f [] ls' keeps away h =
    let (l, made, h₁) = >>=-eq-ok (f (blank_lifecycle s)) _ h in
    let e : l ∷ [] ≡ ls' = cc in
    let named : (l.subject == t) ≡ false =
      subst (λ u. (u == t) ≡ false) (sym (keeps (blank_lifecycle s) l made))
        (beq_ne s t (λ k. away (sym k))) in
    subst (λ xs. find_subject t xs ≡ blank_lifecycle t) e (rw named refl)
update_at-others s t f (x ∷ xs) ls' keeps away h = elim (Bool-cases (x.subject == s)) [
  | inl same ↦
      let (l, made, h₁) = >>=-eq-ok (f x) _ (rw same at h) in
      let e : l ∷ xs ≡ ls' = cc in
      let x_away = beq_ne x.subject t (λ k. away (sym k ∙ eq_of_beq x.subject s same)) in
      let l_away : (l.subject == t) ≡ false =
        subst (λ u. (u == t) ≡ false) (sym (keeps x l made)) x_away in
      subst (λ ys. find_subject t ys ≡ find_subject t (x ∷ xs)) e (rw (l_away, x_away) refl)
  | inr other ↦
      let (rest, made, e) = cons_ok-eq x (update_at s f xs) ls' (rw other at h) in
      let step = update_at-others s t f xs rest keeps away made in
      subst (λ ys. find_subject t ys ≡ find_subject t (x ∷ xs)) e
        (ap (λ l. if x.subject == t then x else l) step)
]

-- A change that works on the lifecycle of the subject works on the list.
pub update_at-works :
    (s : Subject) (f : Change) (ls : List Lifecycle) (l : Lifecycle)
    → f (find_subject s ls) ≡ ok l
    → (ls' : List Lifecycle) × (update_at s f ls ≡ ok ls')
unfolding update_at find_subject
update_at-works s f [] l h = (l ∷ [], rw h refl)
update_at-works s f (x ∷ xs) l h = elim (Bool-cases (x.subject == s)) [
  | inl same ↦ let k : f x ≡ ok l = rw same at h in (l ∷ xs, rw (same, k) refl)
  | inr other ↦
      let (rest, made) = update_at-works s f xs l (rw other at h) in
      (x ∷ rest, rw (other, made) refl)
]

pub apply_entry-KeepsSubject :
    (id : String) (retracted : Bool) (s : Option Supersession) (w : Option Withdrawal)
    → KeepsSubject (apply_entry id retracted s w)
apply_entry-KeepsSubject id true (some s) w x l h =
    ap (λ (y : Lifecycle). y.subject) (let e : l ≡ x = cc in e)
apply_entry-KeepsSubject id false (some s) w x l h =
    let (_, h₁) = require-step (is_none x.supersession) (StoreFault.two_successors id) _ h in
    let e : record x { supersession = some s } ≡ l = cc in ap (λ (y : Lifecycle). y.subject) (sym e)
apply_entry-KeepsSubject id retracted none w x l h =
    let (_, h₁) = require-step (is_none x.withdrawal) (StoreFault.two_withdrawals id) _ h in
    let e : record x { withdrawal = w } ≡ l = cc in ap (λ (y : Lifecycle). y.subject) (sym e)

module _ (dates : Dates) where
  -- The subject of an advisory and its change.
  abbrev pub subject_of : Advisory → Subject
  subject_of a = (entry_of dates (entry dates a)).subject

  abbrev pub change_by : Advisory → Change
  change_by a =
      apply_entry a.id (not (a.withdrawn == "")) (entry_of dates (entry dates a)).supersession
        (entry_of dates (entry dates a)).withdrawal

  pub change_by-KeepsSubject : (a : Advisory) → KeepsSubject (change_by a)
  change_by-KeepsSubject a =
      apply_entry-KeepsSubject a.id (not (a.withdrawn == ""))
        (entry_of dates (entry dates a)).supersession (entry_of dates (entry dates a)).withdrawal

  -- An advisory that may still come, by what it does: `Free` lifecycles take it, and it commutes with
  -- every other advisory that leaves them free.
  pub record Late (x : Advisory) (Free : Lifecycle → Type 0) : Type 0 where
    pub takes : (l : Lifecycle) → Free l → (l' : Lifecycle) × (change_by x l ≡ ok l')
    pub earlier : (a : Advisory) (l l' : Lifecycle) → change_by a l ≡ ok l' → Free l' → Free l
    pub commutes :
        (a : Advisory) (l l₁ g : Lifecycle)
        → change_by a l ≡ ok l₁
        → Free l₁
        → change_by x l ≡ ok g
        → (g₁ : Lifecycle) × (change_by a g ≡ ok g₁) × (change_by x l₁ ≡ ok g₁)

  -- The lists before and after one more advisory.
  pub record Beside (x : Advisory) (ls gs : List Lifecycle) : Type 0 where
    pub at' : change_by x (find_subject (subject_of x) ls) ≡ ok (find_subject (subject_of x) gs)
    pub off : (t : Subject) → t ≢ subject_of x → find_subject t gs ≡ find_subject t ls

  pub group-step :
      (ids : List String) (a : Advisory) (rest : List Advisory) (ls ls' : List Lifecycle)
      → group dates ids (a ∷ rest) ls ≡ ok ls'
      → (contains ids a.id ≡ false)
        × ((next : List Lifecycle) × (update_at (subject_of a) (change_by a) ls ≡ ok next)
            × (group dates (a.id ∷ ids) rest next ≡ ok ls'))
  unfolding group
  group-step ids a rest ls ls' h =
      let (fresh, h₁) = require-step (not (contains ids a.id)) (StoreFault.same_id a.id) _ h in
      let (next, made, h₂) =
        >>=-eq-ok (group_one dates a (entry_of dates (entry dates a)) ls) _ h₁ in
      (flip (contains ids a.id) fresh, (next, made, h₂))
    where
      flip : (b : Bool) → not b ≡ true → b ≡ false
      flip b k = ground arith

  pub group-one-more :
      (ids : List String) (a : Advisory) (rest : List Advisory) (ls next : List Lifecycle)
      → contains ids a.id ≡ false
      → update_at (subject_of a) (change_by a) ls ≡ ok next
      → group dates ids (a ∷ rest) ls ≡ group dates (a.id ∷ ids) rest next
  unfolding group
  group-one-more ids a rest ls next fresh made = rw (fresh, made) refl

  -- What is free at the end was free before.
  pub group-earlier :
      (x : Advisory) (Free : Lifecycle → Type 0) (late : Late x Free) (ids : List String)
      (as' : List Advisory) (ls ls' : List Lifecycle)
      → group dates ids as' ls ≡ ok ls'
      → Free (find_subject (subject_of x) ls')
      → Free (find_subject (subject_of x) ls)
  unfolding group
  group-earlier x Free late ids [] ls ls' h free =
      let e : ls' ≡ ls = cc in subst (λ l. Free (find_subject (subject_of x) l)) e free
  group-earlier x Free late ids (a ∷ as') ls ls' h free =
      let (fresh, (next, made, rest)) = group-step ids a as' ls ls' h in
      let later = group-earlier x Free late (a.id ∷ ids) as' next ls' rest free in
      elim (Bool-cases (subject_of a == subject_of x)) [
        | inl same ↦
            let e = eq_of_beq (subject_of a) (subject_of x) same in
            late.earlier a (find_subject (subject_of x) ls) (find_subject (subject_of x) next)
              (subst (λ s. change_by a (find_subject s ls) ≡ ok (find_subject s next)) e
                (update_at-here (subject_of a) (change_by a) ls next (change_by-KeepsSubject a)
                  made))
              later
        | inr other ↦
            subst Free
              (update_at-others (subject_of a) (subject_of x) (change_by a) ls next
                (change_by-KeepsSubject a)
                (λ k.
                  let q : (subject_of a == subject_of a) ≡ false = rw k at other in
                  cc (q, beq_refl (subject_of a)))
                made)
              later
      ]
