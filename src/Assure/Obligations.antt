-- ===== src/Assure/Obligations.antt =====
-- What a gate asks of the obligations of a change: `holdsRatchet` of internal/assure/gate.go, with the
-- standings of coverage.go and the reasons of decision.go. A measurement is without its totals.
use Prim.Native.Char.{code}
use stego.Prelude.{
  String, Bool, false, not, ◌&&◌, ◌==◌, string_eq, List, [], ◌∷◌, ◌++◌, map, Option, none, some,
  if◌then◌else◌, is_empty, keep, contains, nat_beq,
}
use stego.Prelude.Dict.{Dict, lookup}
use stego.Prelude.Sort.{sort_by, text_le, sorted_keys}
use stego.Assure.{Retirement, texts}

pub data Share : Type 0 where
  designed : Share
  built : Share
  proved : Share

pub record Standing : Type 0 where
  pub is_designed : Bool
  pub is_built : Bool
  pub is_proved : Bool

unfoldable pub has : Standing → Share → Bool
has s designed = s.is_designed
has s built = s.is_built
has s proved = s.is_proved

pub record Measurement : Type 0 where
  pub commit : String
  pub obligations : Dict String Standing

unfoldable pub all_shares : List Share
all_shares = designed ∷ built ∷ proved ∷ []

unfoldable pub share_text : Share → String
share_text designed = "designed"
share_text built = "built"
share_text proved = "proved"

unfoldable pub pattern_rule_in : String → String → String
pattern_rule_in rule scope = texts (rule ∷ "@" ∷ scope ∷ [])

unfoldable pub add_before : {A : Type 0} → (A → A) → Option A → Option A
add_before f none = none
add_before f (some a) = some (f a)

-- `strings.Cut` at the sign `@`: what stands before it and after it.
unfoldable pub cut_at : String → Option (String × String)
unfolding add_before
cut_at String.[] = none
cut_at (String.◌∷◌ c s) =
    let rest = cut_at s in
    if nat_beq (code c) b'@' then some ("", s) else add_before (λ p. (String.◌∷◌ c p.0, p.1)) rest

unfoldable pub fell_reason : String → Share → String
unfolding share_text
fell_reason id share = texts (id ∷ " fell from " ∷ share_text share ∷ [])

unfoldable pub join_shares : List Share → String
unfolding share_text
join_shares [] = ""
join_shares (share ∷ []) = share_text share
join_shares (share ∷ next ∷ rest) = texts (share_text share ∷ ", " ∷ join_shares (next ∷ rest) ∷ [])

unfoldable pub absent_reason : String → List Share → String
unfolding join_shares
absent_reason id had =
    texts (id ∷ " is absent at the change (was " ∷ join_shares had ∷ " at the base)" ∷ [])

unfoldable pub retired_reason : String → String → String → Share → String
unfolding share_text
retired_reason id retirement successor share = texts (
    id
    ∷ " is retired by "
    ∷ retirement
    ∷ ", but its successor "
    ∷ successor
    ∷ " is not "
    ∷ share_text share
    ∷ [])

unfoldable pub join_texts : List String → String
join_texts [] = ""
join_texts (s ∷ []) = s
join_texts (s ∷ t ∷ rest) = texts (s ∷ ", " ∷ join_texts (t ∷ rest) ∷ [])

unfoldable pub retirement_line : Retirement → String
unfolding join_texts
retirement_line r =
    if is_empty r.successors
    then texts ("retirement " ∷ r.retirement_id ∷ ": " ∷ r.retired ∷ " has no successor" ∷ [])
    else texts (
        "retirement "
        ∷ r.retirement_id
        ∷ ": "
        ∷ r.retired
        ∷ " succeeded by "
        ∷ join_texts r.successors
        ∷ [])

-- The standing of an obligation: an absent one has no share.
unfoldable pub standing_of : Option Standing → Standing
standing_of none = record { is_designed = false; is_built = false; is_proved = false }
standing_of (some s) = s

-- A pattern rule is compared in the obligation's own scope, when the change has it there.
unfoldable pub in_scope : Measurement → Option (String × String) → String → String
unfolding lookup pattern_rule_in
in_scope change none successor = successor
in_scope change (some (rule, scope)) successor =
    elim (lookup (pattern_rule_in successor scope) change.obligations) [
      | none ↦ successor
      | some s ↦ pattern_rule_in successor scope
    ]

-- What a retirement lacks: each share of the obligation that one of its successors does not have.
unfoldable pub lacking : Measurement → String → List Share → Retirement → List String → List String
unfolding standing_of has in_scope lookup retired_reason cut_at
lacking change id had r [] = []
lacking change id had r (next ∷ rest) =
    let successor = in_scope change (cut_at id) next in
    map (retired_reason id r.retirement_id successor)
      (keep (λ share. not (has (standing_of (lookup successor change.obligations)) share)) had)
    ++ lacking change id had r rest

-- The lines of the retirements followed, each once.
unfoldable pub add_line : List String → Retirement → List String → List String
unfolding retirement_line
add_line [] r followed =
    if contains followed (retirement_line r) then followed else followed ++ retirement_line r ∷ []
add_line (reason ∷ reasons) r followed = followed

-- The reasons that the retirements of an absent obligation give, with the lines of those followed.
unfoldable pub follow :
    Measurement → String → List Share → List Retirement → List String → List String × List String
unfolding lacking add_line
follow change id had [] followed = ([], followed)
follow change id had (r ∷ rs) followed =
    let lacks = lacking change id had r r.successors in
    let rest = follow change id had rs (add_line lacks r followed) in (lacks ++ rest.0, rest.1)

unfoldable pub retiring : List Retirement → String → List Retirement
retiring retirements id = keep (λ r. r.retired == id) retirements

unfoldable pub retiring_rule : List Retirement → Option (String × String) → List Retirement
unfolding retiring
retiring_rule retirements none = []
retiring_rule retirements (some (rule, scope)) = retiring retirements rule

-- The retirements that name an obligation, by identifier.
unfoldable pub named : List Retirement → String → List Retirement
unfolding retiring retiring_rule sort_by cut_at
named retirements id =
    sort_by (λ r s. text_le r.retirement_id s.retirement_id)
      (retiring retirements id ++ retiring_rule retirements (cut_at id))

unfoldable pub absent :
    Measurement → String → List Share → List Retirement → List String → List String × List String
unfolding follow absent_reason
absent change id [] [] followed = ([], followed)
absent change id (share ∷ had) [] followed = (absent_reason id (share ∷ had) ∷ [], followed)
absent change id had (r ∷ rs) followed = follow change id had (r ∷ rs) followed

-- What one obligation of the base gives.
unfoldable pub compare_standing :
    Measurement
    → List Retirement
    → String
    → Standing
    → Option Standing
    → List String
    → List String × List String
unfolding absent named has all_shares fell_reason
compare_standing change retirements id before (some after) followed = (
  map (fell_reason id) (keep (λ share. has before share && not (has after share)) all_shares),
  followed,
)
compare_standing change retirements id before none followed =
    absent change id (keep (has before) all_shares) (named retirements id) followed

unfoldable pub compare_all :
    Measurement
    → Measurement
    → List Retirement
    → List String
    → List String
    → List String × List String
unfolding compare_standing lookup standing_of
compare_all base change retirements [] followed = ([], followed)
compare_all base change retirements (id ∷ ids) followed =
    let first =
      compare_standing change retirements id (standing_of (lookup id base.obligations))
        (lookup id change.obligations) followed in
    let rest = compare_all base change retirements ids first.1 in (first.0 ++ rest.0, rest.1)

unfoldable pub holds_ratchet :
    Measurement → Measurement → List Retirement → List String × List String
unfolding compare_all sorted_keys
holds_ratchet base change retirements =
    compare_all base change retirements (sorted_keys base.obligations) []
