-- ===== src/Lifecycle/Insertion.antt =====
-- One more advisory in the lifecycle folder, for `lifecycles` and `Store.add` of
-- internal/lifecycle/store.go.
use stego.Prelude.{
  String, ◌≡◌, ◌≢◌, refl, sym, ap, subst, false, ◌||◌, List, [], ◌∷◌, ◌==◌, string_eq, Outcome, ok,
  ◌∙◌, inl, inr, Bool-cases, eq_of_beq, beq_refl, beq_ne, contains, In,
}
use stego.Lifecycle.{Subject, Lifecycle}
use stego.Lifecycle.Standing.{subject_eq}
use stego.Lifecycle.Advisories.{Advisory, Dates}
use stego.Lifecycle.Store.{StoreFault, find_subject, update_at, group}
use stego.Lifecycle.Grouping.{
  subject_of, change_by, change_by-KeepsSubject, Late, Beside, update_at-here, update_at-others,
  update_at-works, group-step, group-one-more, group-earlier,
}

-- A list with one more element somewhere.
pub data Inserted (x : Advisory) : List Advisory → List Advisory → Type 0 where
  here : {as' : List Advisory} → Inserted x as' (x ∷ as')
  there :
      {a : Advisory} {as' bs : List Advisory} → Inserted x as' bs → Inserted x (a ∷ as') (a ∷ bs)

apart : (s t : Subject) → (s == t) ≡ false → t ≢ s
apart s t h e = let q : (s == s) ≡ false = rw e at h in cc (q, beq_refl s)

module _ (dates : Dates) (x : Advisory) (Free : Lifecycle → Type 0) (late : Late dates x Free) where
  -- The subject that the new advisory is about.
  subject_x : Subject
  subject_x = subject_of dates x

  one_result : (m : Outcome StoreFault Lifecycle) (a b : Lifecycle) → m ≡ ok a → m ≡ ok b → a ≡ b
  one_result m a b h k = cc

  -- The pair of lists, behind one advisory that both have.
  record Next (a : Advisory) (next gs : List Lifecycle) : Type 0 where
    gnext : List Lifecycle
    made : update_at (subject_of dates a) (change_by dates a) gs ≡ ok gnext
    beside : Beside dates x next gnext

  Beside-same :
      (a : Advisory) (ls next gs : List Lifecycle)
      → Beside dates x ls gs
      → update_at (subject_of dates a) (change_by dates a) ls ≡ ok next
      → Free (find_subject (subject_of dates x) next)
      → subject_of dates a ≡ subject_of dates x
      → Next a next gs
  Beside-same a ls next gs b made free e =
      let sx = subject_of dates x in
      let f = change_by dates a in
      let keeps = change_by-KeepsSubject dates a in
      let step : f (find_subject sx ls) ≡ ok (find_subject sx next) =
        subst (λ s. f (find_subject s ls) ≡ ok (find_subject s next)) e
          (update_at-here (subject_of dates a) f ls next keeps made) in
      let (g₁, first, second) =
        late.commutes a (find_subject sx ls) (find_subject sx next) (find_subject sx gs) step free
          b.at' in
      let (gnext, gmade) =
        update_at-works (subject_of dates a) f gs g₁
          (subst (λ s. f (find_subject s gs) ≡ ok g₁) (sym e) first) in
      let gstep : f (find_subject sx gs) ≡ ok (find_subject sx gnext) =
        subst (λ s. f (find_subject s gs) ≡ ok (find_subject s gnext)) e
          (update_at-here (subject_of dates a) f gs gnext keeps gmade) in
      record {
        gnext = gnext;
        made = gmade;
        beside = record {
          at' =
              second
              ∙ ap ok (one_result (f (find_subject sx gs)) g₁ (find_subject sx gnext) first gstep);
          off = λ t away.
              update_at-others (subject_of dates a) t f gs gnext keeps (λ k. away (k ∙ e)) gmade
              ∙ b.off t away
              ∙ sym (
                  update_at-others (subject_of dates a) t f ls next keeps (λ k. away (k ∙ e)) made);
        };
      }

  Beside-other :
      (a : Advisory) (ls next gs : List Lifecycle)
      → Beside dates x ls gs
      → update_at (subject_of dates a) (change_by dates a) ls ≡ ok next
      → subject_of dates a ≢ subject_of dates x
      → Next a next gs
  Beside-other a ls next gs b made apart' =
      let sx = subject_of dates x in
      let sa = subject_of dates a in
      let f = change_by dates a in
      let keeps = change_by-KeepsSubject dates a in
      let step = update_at-here sa f ls next keeps made in
      let gstep : f (find_subject sa gs) ≡ ok (find_subject sa next) =
        ap f (b.off sa apart') ∙ step in
      let (gnext, gmade) = update_at-works sa f gs (find_subject sa next) gstep in
      let gstep' = update_at-here sa f gs gnext keeps gmade in
      record {
        gnext = gnext;
        made = gmade;
        beside = record {
          at' =
              ap (change_by dates x)
                (update_at-others sa sx f ls next keeps (λ k. apart' (sym k)) made)
              ∙ b.at'
              ∙ ap ok (sym (update_at-others sa sx f gs gnext keeps (λ k. apart' (sym k)) gmade));
          off = λ t away. elim (Bool-cases (sa == t)) [
            | inl same ↦
                subst (λ s. find_subject s gnext ≡ find_subject s next) (eq_of_beq sa t same)
                  (one_result (f (find_subject sa gs)) (find_subject sa gnext)
                    (find_subject sa next) gstep' gstep)
            | inr other ↦
                update_at-others sa t f gs gnext keeps (apart sa t other) gmade
                ∙ b.off t away
                ∙ sym (update_at-others sa t f ls next keeps (apart sa t other) made)
          ];
        };
      }

  Beside-step :
      (a : Advisory) (ls next gs : List Lifecycle)
      → Beside dates x ls gs
      → update_at (subject_of dates a) (change_by dates a) ls ≡ ok next
      → Free (find_subject (subject_of dates x) next)
      → Next a next gs
  Beside-step a ls next gs b made free =
      elim (Bool-cases (subject_of dates a == subject_of dates x)) [
        | inl same ↦
            Beside-same a ls next gs b made free
              (eq_of_beq (subject_of dates a) (subject_of dates x) same)
        | inr other ↦
            Beside-other a ls next gs b made
              (λ k. apart (subject_of dates a) (subject_of dates x) other (sym k))
      ]

  -- The lifecycles that a longer list gives.
  pub record Longer (ids : List String) (bs : List Advisory) (start' ls' : List Lifecycle)
      : Type 0 where
    pub result : List Lifecycle
    pub grouped : group dates ids bs start' ≡ ok result
    pub beside : Beside dates x ls' result

  group-Beside :
      (ids idg : List String) (as' : List Advisory) (ls ls' gs : List Lifecycle)
      → group dates ids as' ls ≡ ok ls'
      → Beside dates x ls gs
      → Free (find_subject (subject_of dates x) ls')
      → ((n : String) → n ≢ x.id → contains idg n ≡ contains ids n)
      → ((a : Advisory) → In a as' → a.id ≢ x.id)
      → Longer idg as' gs ls'
  unfolding group
  group-Beside ids idg [] ls ls' gs h b free same_ids away =
      let e : ls ≡ ls' = cc in
      record { result = gs; grouped = refl; beside = subst (λ l. Beside dates x l gs) e b }
  group-Beside ids idg (a ∷ as') ls ls' gs h b free same_ids away =
      let (fresh, (next, made, rest)) = group-step dates ids a as' ls ls' h in
      let step =
        Beside-step a ls next gs b made
          (group-earlier dates x Free late (a.id ∷ ids) as' next ls' rest free) in
      let more =
        group-Beside (a.id ∷ ids) (a.id ∷ idg) as' next ls' step.gnext rest step.beside free
          (λ n k. ap (λ c. a.id == n || c) (same_ids n k)) (λ c i. away c (In.there i)) in
      record {
        result = more.result;
        grouped =
            group-one-more dates idg a as' gs step.gnext (same_ids a.id (away a In.here) ∙ fresh)
              step.made
            ∙ more.grouped;
        beside = more.beside;
      }

  pub group-Inserted :
      (ids : List String) (as' bs : List Advisory) (ls ls' : List Lifecycle)
      → Inserted x as' bs
      → group dates ids as' ls ≡ ok ls'
      → Free (find_subject (subject_of dates x) ls')
      → contains ids x.id ≡ false
      → ((a : Advisory) → In a as' → a.id ≢ x.id)
      → Longer ids bs ls ls'
  group-Inserted ids as' [] ls ls' i h free fresh away = elim i [ ]
  group-Inserted ids as' (b ∷ bs) ls ls' Inserted.here h free fresh away =
      let now = group-earlier dates x Free late ids as' ls ls' h free in
      let (l', taken) = late.takes (find_subject (subject_of dates x) ls) now in
      let (gs, made) = update_at-works (subject_of dates x) (change_by dates x) ls l' taken in
      let keeps = change_by-KeepsSubject dates x in
      let more =
        group-Beside ids (x.id ∷ ids) as' ls ls' gs h
          (record {
            at' = update_at-here (subject_of dates x) (change_by dates x) ls gs keeps made;
            off = λ t k.
                update_at-others (subject_of dates x) t (change_by dates x) ls gs keeps k made;
          })
          free (λ n k. rw (beq_ne x.id n (λ e. k (sym e))) refl) away in
      record {
        result = more.result;
        grouped = group-one-more dates ids x as' ls gs fresh made ∙ more.grouped;
        beside = more.beside;
      }
  group-Inserted ids (a ∷ as') (b ∷ bs) ls ls' (Inserted.there i) h free fresh away =
      let (new, (next, made, rest)) = group-step dates ids a as' ls ls' h in
      let more =
        group-Inserted (a.id ∷ ids) as' bs next ls' i rest free
          (rw (beq_ne a.id x.id (away a In.here)) fresh) (λ c j. away c (In.there j)) in
      record {
        result = more.result;
        grouped = group-one-more dates ids a bs ls next new made ∙ more.grouped;
        beside = more.beside;
      }
