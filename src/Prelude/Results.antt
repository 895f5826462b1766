-- ===== src/Prelude/Results.antt =====
-- A Go result `(value, error)`, of which exactly one counts: `ok` with the value, or `err` with the
-- error. A call that returns an error alone gives the value `tt`.
use mathlib.Core.Path.{◌≡◌, refl}
use mathlib.Core.Bool.{Bool, true, false}

pub data Outcome {ℓ κ} (E : Type ℓ) (A : Type κ) : Type (ℓ ⊔ κ) where
  ok : A → Outcome E A
  err : E → Outcome E A

infixl 5 ◌>>=◌ ◌>>◌
abbrev pub ◌>>=◌ {ℓ κ μ} :
    {E : Type ℓ} {A : Type κ} {B : Type μ} → Outcome E A → (A → Outcome E B) → Outcome E B
ok value >>= next = next value
err fault >>= next = err fault

abbrev pub ◌>>◌ {ℓ κ} : {E : Type ℓ} {B : Type κ} → Outcome E (Unit {0}) → Outcome E B → Outcome E B
checked >> rest = checked >>= λ done. rest

-- `if !test { return err }`
abbrev pub require {ℓ} : {E : Type ℓ} → Bool → E → Outcome E (Unit {0})
require true e = ok tt
require false e = err e

-- Inversion of a successful bind.
pub >>=-eq-ok {ℓ κ μ} :
    {E : Type ℓ} {A : Type κ} {B : Type μ} (r : Outcome E A) (next : A → Outcome E B) {x : B}
    → (r >>= next) ≡ ok x
    → (value : A) × (r ≡ ok value) × (next value ≡ ok x)
>>=-eq-ok (ok value) next h = (value, refl, h)
>>=-eq-ok (err fault) next h = cc

pub require-eq-ok {ℓ} :
    {E : Type ℓ} (b : Bool) (e : E) {u : Unit {0}} → require b e ≡ ok u → b ≡ true
require-eq-ok true e h = refl
require-eq-ok false e h = cc

-- Inversion of a test before the rest.
pub require-step {ℓ κ} :
    {E : Type ℓ} {B : Type κ} (b : Bool) (e : E) (m : Outcome E B) {x : B}
    → (require b e >> m) ≡ ok x
    → (b ≡ true) × (m ≡ ok x)
require-step true e m h = (refl, h)
require-step false e m h = cc

-- Inversion of a check before the rest.
pub >>-step {ℓ κ} :
    {E : Type ℓ} {B : Type κ} (c : Outcome E (Unit {0})) (m : Outcome E B) {x : B}
    → (c >> m) ≡ ok x
    → (c ≡ ok tt) × (m ≡ ok x)
>>-step (ok tt) m h = (refl, h)
>>-step (err e) m h = cc
