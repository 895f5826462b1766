-- ===== src/Assure/Ratchet.antt =====
-- What a gate whose ratchet gives no reason has found, for `holdsRatchet` of internal/assure/gate.go.
use stego.Prelude.{
  String, arith, ◌≡◌, refl, sym, subst, Bool, true, false, not, ◌&&◌, string_eq, List, [], ◌∷◌, map,
  Option, none, some, In, In-cons, In-keep, All, is_empty, keep, keep-empty, append-empty,
}
use stego.Prelude.Dict.{lookup, In-keys}
use stego.Prelude.Sort.{In-sorted_keys, sorted_keys}
use stego.Assure.{Retirement}
use stego.Assure.Obligations.{
  Share, designed, built, proved, Standing, has, Measurement, all_shares, retired_reason, cut_at,
  standing_of, in_scope, lacking, add_line, follow, named, absent, compare_standing, compare_all,
  holds_ratchet,
}

-- A successor of an absent obligation has a share, in the obligation's own scope when it is a rule there.
abbrev pub HasShare : Measurement → String → Share → String → Type 0
HasShare change id share next =
    has (standing_of (lookup (in_scope change (cut_at id) next) change.obligations)) share ≡ true

-- A share that an obligation had at the base is still there: the obligation has it, or the obligation is absent,
-- a retirement names it, and each successor of each such retirement has the share.
abbrev pub StillHeld : Measurement → List Retirement → String → Share → Option Standing → Type 0
StillHeld change retirements id share (some after) = has after share ≡ true
StillHeld change retirements id share none =
    (is_empty (named retirements id) ≡ false)
    × All (λ r. All (HasShare change id share) r.successors) (named retirements id)

In-all_shares : (share : Share) → In share all_shares
unfolding all_shares
In-all_shares designed = In.here
In-all_shares built = In.there In.here
In-all_shares proved = In.there (In.there In.here)

not-false : {b : Bool} → not b ≡ false → b ≡ true
not-false {b} h = ground arith

kept : {a b : Bool} → a && not b ≡ false → a ≡ true → b ≡ true
kept {a} {b} h yes' = ground arith

map-none : {A B : Type 0} (f : A → B) (xs : List A) → map f xs ≡ [] → xs ≡ []
map-none f [] h = refl
map-none f (x ∷ xs) h = cc

-- No reasons about a retirement: each of its successors has each share.
lacking-none :
    (change : Measurement) (id : String) (had : List Share) (r : Retirement) (ss : List String)
    (share : Share)
    → In share had
    → lacking change id had r ss ≡ []
    → All (HasShare change id share) ss
unfolding lacking
lacking-none change id had r [] share i h = tt
lacking-none change id had r (s ∷ ss) share i h =
    let successor = in_scope change (cut_at id) s in
    let parts =
      append-empty
        (map (retired_reason id r.retirement_id successor)
          (keep (λ t. not (has (standing_of (lookup successor change.obligations)) t)) had))
        (lacking change id had r ss) h in
    let none_left =
      keep-empty (λ t. not (has (standing_of (lookup successor change.obligations)) t)) had share
        (map-none (retired_reason id r.retirement_id successor) _ parts.0) i in
    (not-false none_left, lacking-none change id had r ss share i parts.1)

follow-none :
    (change : Measurement) (id : String) (had : List Share) (rs : List Retirement)
    (followed : List String) (share : Share)
    → In share had
    → (follow change id had rs followed).0 ≡ []
    → All (λ r. All (HasShare change id share) r.successors) rs
unfolding follow
follow-none change id had [] followed share i h = tt
follow-none change id had (r ∷ rs) followed share i h =
    let lacks = lacking change id had r r.successors in
    let parts = append-empty lacks (follow change id had rs (add_line lacks r followed)).0 h in
    (
      lacking-none change id had r r.successors share i parts.0,
      follow-none change id had rs (add_line lacks r followed) share i parts.1,
    )

absent-none :
    (change : Measurement) (id : String) (had : List Share) (rs : List Retirement)
    (followed : List String) (share : Share)
    → In share had
    → (absent change id had rs followed).0 ≡ []
    → (is_empty rs ≡ false) × All (λ r. All (HasShare change id share) r.successors) rs
unfolding absent
absent-none change id [] [] followed share i h = elim i [ ]
absent-none change id (s ∷ had) [] followed share i h = cc
absent-none change id [] (r ∷ rs) followed share i h = elim i [ ]
absent-none change id (s ∷ had) (r ∷ rs) followed share i h =
    (refl, follow-none change id (s ∷ had) (r ∷ rs) followed share i h)

compare_standing-none :
    (change : Measurement) (retirements : List Retirement) (id : String) (before : Standing)
    (after : Option Standing) (followed : List String) (share : Share)
    → has before share ≡ true
    → (compare_standing change retirements id before after followed).0 ≡ []
    → StillHeld change retirements id share after
unfolding compare_standing
compare_standing-none change retirements id before (some after) followed share had h =
    let none_fell =
      keep-empty (λ t. has before t && not (has after t)) all_shares share (map-none _ _ h)
        (In-all_shares share) in
    kept none_fell had
compare_standing-none change retirements id before none followed share had h =
    absent-none change id (keep (has before) all_shares) (named retirements id) followed share
      (In-keep (has before) all_shares (In-all_shares share) had) h

standing_of-some :
    (o : Option Standing) (before : Standing) (share : Share)
    → o ≡ some before
    → has before share ≡ true
    → has (standing_of o) share ≡ true
unfolding standing_of
standing_of-some o before share found had = rw found had

compare_all-none :
    (base change : Measurement) (retirements : List Retirement) (ids : List String)
    (followed : List String) (id : String) (before : Standing) (share : Share)
    → lookup id base.obligations ≡ some before
    → has before share ≡ true
    → (compare_all base change retirements ids followed).0 ≡ []
    → In id ids
    → StillHeld change retirements id share (lookup id change.obligations)
unfolding compare_all
compare_all-none base change retirements [] followed id before share found had h i = elim i [ ]
compare_all-none base change retirements (j ∷ ids) followed id before share found had h i =
    let first =
      compare_standing change retirements j (standing_of (lookup j base.obligations))
        (lookup j change.obligations) followed in
    let parts = append-empty first.0 (compare_all base change retirements ids first.1).0 h in
    In-cons (λ k. k ≡ id → StillHeld change retirements k share (lookup k change.obligations))
      (λ same.
        compare_standing-none change retirements j (standing_of (lookup j base.obligations))
          (lookup j change.obligations) followed share
          (subst (λ k. has (standing_of (lookup k base.obligations)) share ≡ true) (sym same)
            (standing_of-some (lookup id base.obligations) before share found had))
          parts.0)
      (λ k l same. rw same (
        compare_all-none base change retirements ids first.1 id before share found had parts.1
          (subst (λ t. In t ids) same l)))
      id i refl

-- When the ratchet gives no reason, each share that an obligation had at the base is still held: the change has
-- the obligation with that share, or the change does not have the obligation at all, a retirement names it, and
-- each successor of each retirement that names it has that share at the change, in the obligation's own scope
-- when the successor is a pattern rule there.
pub holds_ratchet-StillHeld :
    (base change : Measurement) (retirements : List Retirement)
    → (holds_ratchet base change retirements).0 ≡ []
    → (id : String) (before : Standing) (share : Share) → lookup id base.obligations ≡ some before
    → has before share ≡ true
    → StillHeld change retirements id share (lookup id change.obligations)
unfolding holds_ratchet
holds_ratchet-StillHeld base change retirements h id before share found had =
    compare_all-none base change retirements (sorted_keys base.obligations) [] id before share found
      had h (In-sorted_keys base.obligations (In-keys id base.obligations found))
