-- ===== src/Lifecycle/Late.antt =====
-- A supersession beside another entry of the lifecycle of one subject, for `lifecycles` of
-- internal/lifecycle/store.go.
use stego.Prelude.{
  String, ◌≡◌, refl, ap, subst, Bool, true, false, Option, none, some, string_eq, ok, require-step,
  ◌∙◌,
}
use stego.Lifecycle.{Lifecycle, Supersession, Withdrawal, is_none}
use stego.Lifecycle.Standing.{subject_eq}
use stego.Lifecycle.Store.{StoreFault, apply_entry}

pub is_none-eq : {A : Type 0} (o : Option A) → is_none o ≡ true → o ≡ none
is_none-eq none h = refl
is_none-eq (some a) h = cc

abbrev pub NotSuperseded : Lifecycle → Type 0
NotSuperseded l = l.supersession ≡ none

abbrev pub superseding : Supersession → Lifecycle → Lifecycle
superseding s l = record l { supersession = some s }

-- The change of an accepted entry, written out.
apply_entry-superseding :
    (id : String) (s : Supersession) (w : Option Withdrawal) (l : Lifecycle)
    → NotSuperseded l
    → apply_entry id false (some s) w l ≡ ok (superseding s l)
apply_entry-superseding id s w l h = rw h refl

-- What one entry leaves of the supersession of a lifecycle.
pub earlier-superseded :
    (id : String) (retracted : Bool) (s : Option Supersession) (w : Option Withdrawal)
    (l l' : Lifecycle)
    → apply_entry id retracted s w l ≡ ok l'
    → NotSuperseded l'
    → NotSuperseded l
earlier-superseded id true (some s) w l l' h free =
    let e : l' ≡ l = cc in subst NotSuperseded e free
earlier-superseded id false (some s) w l l' h free =
    let (_, h₁) = require-step (is_none l.supersession) (StoreFault.two_successors id) _ h in
    let e : superseding s l ≡ l' = cc in
    let k : some s ≡ none = ap (λ (x : Lifecycle). x.supersession) e ∙ free in cc
earlier-superseded id retracted none w l l' h free =
    let (_, h₁) = require-step (is_none l.withdrawal) (StoreFault.two_withdrawals id) _ h in
    let e : record l { withdrawal = w } ≡ l' = cc in ap (λ (x : Lifecycle). x.supersession) e ∙ free

-- A supersession and another entry, in either order.
pub superseding-commutes :
    (id : String) (retracted : Bool) (s : Option Supersession) (w : Option Withdrawal)
    (new : Supersession) (l l₁ : Lifecycle)
    → apply_entry id retracted s w l ≡ ok l₁
    → NotSuperseded l₁
    → apply_entry id retracted s w (superseding new l) ≡ ok (superseding new l₁)
superseding-commutes id true (some s) w new l l₁ h free =
    let e : l ≡ l₁ = cc in ap (λ x. ok (superseding new x)) e
superseding-commutes id false (some s) w new l l₁ h free =
    let (_, h₁) = require-step (is_none l.supersession) (StoreFault.two_successors id) _ h in
    let e : superseding s l ≡ l₁ = cc in
    let k : some s ≡ none = ap (λ (x : Lifecycle). x.supersession) e ∙ free in cc
superseding-commutes id retracted none w new l l₁ h free =
    let (k, h₁) = require-step (is_none l.withdrawal) (StoreFault.two_withdrawals id) _ h in
    let e : record l { withdrawal = w } ≡ l₁ = cc in rw k (ap (λ x. ok (superseding new x)) e)
