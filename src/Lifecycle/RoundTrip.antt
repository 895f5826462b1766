-- ===== src/Lifecycle/RoundTrip.antt =====
-- The round trip of the lifecycle records through their advisories, for `supersessionAdvisory`,
-- `withdrawalAdvisory` and `Advisory.entry` of internal/lifecycle/store.go.
use stego.Prelude.{
  String, ◌≡◌, refl, sym, ap, subst, Bool, true, false, not, List, [], ◌∷◌, none, some, arith, ◌==◌,
  string_eq, if◌then◌else◌, ok, require-step, ◌∙◌, ◌⊎◌, inl, inr, Bool-cases, eq_of_beq,
}
use stego.Calendar.{Time, day_of, parse_date}
use stego.Lifecycle.{
  Subject, Refusal, Supersession, Withdrawal, check, check_digest, is_blank, component_package,
  runtime_package, is_package_name, is_component_digest, is_runtime_version,
}
use stego.Lifecycle.Advisories.{
  Advisory, OsvAffected, Dates, entry, read_affected, read_kind, is_advisory_id, kind_of,
  ecosystem_of, urls, references_of, supersession_advisory, withdrawal_advisory, successor_of,
  one_range,
}

urls-references_of : (l : List String) → urls (references_of l) ≡ l
urls-references_of [] = refl
urls-references_of (u ∷ l) = ap (λ r. u ∷ r) (urls-references_of l)

check_digest-digest :
    (test : String → Bool) (s : Subject) → check_digest test s ≡ ok tt → (s.digest == "") ≡ false
check_digest-digest test s h =
    let (k, _) = require-step (not (s.digest == "")) Refusal.missing_digest _ h in ground arith

-- What `check` establishes.
record Named (s : Subject) : Type 0 where
  name : (s.name == "") ≡ false
  kind : (s.kind ≡ component_package) ⊎ (s.kind ≡ runtime_package)
  digest : (s.digest == "") ≡ false

check-Named : (s : Subject) → check s ≡ ok tt → Named s
unfolding check
check-Named s h =
    let (name, h₁) = require-step (not (s.name == "")) Refusal.missing_name _ h in
    let (_, h₂) = require-step (is_package_name s.name) (Refusal.bad_name s.name) _ h₁ in
    elim (Bool-cases (s.kind == component_package)) [
      | inl component ↦ record {
        name = flip (s.name == "") name;
        kind = inl (eq_of_beq s.kind component_package component);
        digest = check_digest-digest is_component_digest s (rw component at h₂);
      }
      | inr other ↦ elim (Bool-cases (s.kind == runtime_package)) [
        | inl runtime ↦ record {
          name = flip (s.name == "") name;
          kind = inr (eq_of_beq s.kind runtime_package runtime);
          digest = check_digest-digest is_runtime_version s (rw (other, runtime) at h₂);
        }
        | inr neither ↦ let k = rw (other, neither) at h₂ in cc
      ]
    ]
  where
    flip : (b : Bool) → not b ≡ true → b ≡ false
    flip b k = ground arith

kind_of-ecosystem_of :
    (kind : String)
    → (kind ≡ component_package) ⊎ (kind ≡ runtime_package)
    → kind_of (ecosystem_of kind) ≡ ok kind
kind_of-ecosystem_of kind (inl e) = subst (λ k. kind_of (ecosystem_of k) ≡ ok k) (sym e) refl
kind_of-ecosystem_of kind (inr e) = subst (λ k. kind_of (ecosystem_of k) ≡ ok k) (sym e) refl

module _ (dates : Dates) where
  open dates use {format_time, parse_time, format_date}

  -- The checks of an advisory that do not depend on its kind.
  entry-read :
      (a : Advisory) (published : Time)
      → a.schema_version ≡ "1.6.0"
      → is_advisory_id a.id ≡ true
      → is_blank a.summary ≡ false
      → parse_time a.published ≡ some published
      → parse_time a.modified ≡ some published
      → entry dates a ≡ read_affected dates a published a.affected
  unfolding entry
  entry-read a published schema id summary p m = rw (schema, id, summary, p, m) refl

  read_affected-one :
      (a : Advisory) (published : Time) (x : OsvAffected) (kind : String) (fails_after : Time)
      → kind_of x.osv_package.ecosystem ≡ ok kind
      → parse_date a.fields.fails_after ≡ some fails_after
      → read_affected dates a published (x ∷ []) ≡ read_kind dates a x kind published fails_after
  read_affected-one a published x kind fails_after k d = rw (k, d) refl

  digest_range :
      (introduced fixed : String) (a : Advisory) (x : OsvAffected)
      → (introduced == "") ≡ false
      → (fixed == "") ≡ false
      → one_range (record {
        osv_package = x.osv_package;
        ranges =
            record {
              range_type = "ECOSYSTEM";
              events =
                  record { introduced = introduced; fixed = "" }
                  ∷ record { introduced = ""; fixed = fixed }
                  ∷ [];
            }
            ∷ [];
        versions = [];
      })
        ≡ ok (introduced, fixed)
  digest_range introduced fixed a x i f = rw (i, f) refl

  -- The successor is written by its name only where that differs.
  successor-name :
      (s t : Subject)
      → (t.name == "") ≡ false
      → (if (if t.name == s.name then "" else t.name) == ""
          then s.name
          else (if t.name == s.name then "" else t.name))
        ≡ t.name
  successor-name s t h = elim (Bool-cases (t.name == s.name)) [
    | inl same ↦ rw same (sym (eq_of_beq t.name s.name same))
    | inr other ↦ rw (other, h) refl
  ]

  -- A supersession whose digests, id and summary pass the checks of the store is read back from its
  -- advisory as it was, given that its time and its date are read back as they were written.
  pub entry-supersession_advisory :
      (s : Subject) (x : Supersession)
      → check s ≡ ok tt
      → check x.successor ≡ ok tt
      → x.successor.kind ≡ s.kind
      → is_advisory_id x.advisory_id ≡ true
      → is_blank x.summary ≡ false
      → parse_time (format_time x.recorded_on) ≡ some x.recorded_on
      → parse_date (format_date (day_of x.fails_after)) ≡ some x.fails_after
      → entry dates (supersession_advisory dates s x)
        ≡ ok (record { subject = s; supersession = some x; withdrawal = none })
  entry-supersession_advisory s x checked successor same_kind id summary time date =
      let a = supersession_advisory dates s x in
      let named = check-Named s checked in
      let next = check-Named x.successor successor in
      let back : successor_of dates s.kind a (only a.affected) x.successor.digest ≡ x.successor =
        fields s.kind (successor-name s x.successor next.name) same_kind in
      let passes : check (successor_of dates s.kind a (only a.affected) x.successor.digest)
          ≡ ok tt =
        subst (λ t. check t ≡ ok tt) (sym back) successor in
      entry-read a x.recorded_on refl id summary time time
      ∙ (read_affected-one a x.recorded_on (only a.affected) s.kind x.fails_after
            (kind_of-ecosystem_of s.kind named.kind) date
          ∙ (rw (named.digest, next.digest, checked, passes)
              (rw (back, urls-references_of x.references) refl)))
    where
      only : List OsvAffected → OsvAffected
      only [] = record {
        osv_package = record { ecosystem = ""; name = "" };
        ranges = [];
        versions = [];
      }
      only (y ∷ ys) = y

      fields :
          (kind : String) {name : String}
          → name ≡ x.successor.name
          → x.successor.kind ≡ kind
          → record { kind = kind; name = name; digest = x.successor.digest } ≡ x.successor
      fields kind e k = cc

  -- A withdrawal whose digest, id and reason pass the checks of the store is read back from its
  -- advisory as it was, given that its time and its date are read back as they were written.
  pub entry-withdrawal_advisory :
      (s : Subject) (w : Withdrawal)
      → check s ≡ ok tt
      → is_advisory_id w.advisory_id ≡ true
      → is_blank w.reason ≡ false
      → parse_time (format_time w.recorded_on) ≡ some w.recorded_on
      → parse_date (format_date (day_of w.fails_after)) ≡ some w.fails_after
      → entry dates (withdrawal_advisory dates s w)
        ≡ ok (record { subject = s; supersession = none; withdrawal = some w })
  entry-withdrawal_advisory s w checked id reason time date =
      let a = withdrawal_advisory dates s w in
      let named = check-Named s checked in
      entry-read a w.recorded_on refl id reason time time
      ∙ (read_affected-one a w.recorded_on (only a.affected) s.kind w.fails_after
            (kind_of-ecosystem_of s.kind named.kind) date
          ∙ (rw (time, checked) (rw (urls-references_of w.references) refl)))
    where
      only : List OsvAffected → OsvAffected
      only [] = record {
        osv_package = record { ecosystem = ""; name = "" };
        ranges = [];
        versions = [];
      }
      only (y ∷ ys) = y
