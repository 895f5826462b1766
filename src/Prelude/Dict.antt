-- ===== src/Prelude/Dict.antt =====
-- Go maps as association lists: a read takes the first entry of a key, a write replaces it.
use mathlib.Core.Path.{◌≡◌, refl}
use mathlib.Core.Logic.{◌⊎◌, inl, inr}
use mathlib.Core.List.{List, [], ◌∷◌}
use mathlib.Core.Option.{Option, none, some}
use native.Mathlib.Omega.{arith}
use stego.Prelude.Tests.{Eq, ◌==◌, if◌then◌else◌, Bool-cases, beq_refl, eq_of_beq, beq_sym}
use stego.Prelude.Lists.{In}

abbrev pub Dict {ℓ κ} : Type ℓ → Type κ → Type (ℓ ⊔ κ)
Dict K V = List (K × V)

module _ {ℓ κ} {K : Type ℓ} {V : Type κ} where
  abbrev pub keys : Dict K V → List K
  keys [] = []
  keys ((k, v) ∷ m) = k ∷ keys m

In-cons_cases {ℓ} :
    {K : Type ℓ} {k : K} (i j : K) {ks js : List K}
    → (In j js → (k ≡ j) ⊎ In j ks)
    → In j (i ∷ js)
    → (k ≡ j) ⊎ In j (i ∷ ks)
In-cons_cases i j f In.here = inr In.here
In-cons_cases i j f (In.there h) = elim (f h) [ inl e ↦ inl e | inr r ↦ inr (In.there r) ]

module _ {ℓ κ} {K : Type ℓ} {V : Type κ} ⦃e : Eq K⦄ where
  unfoldable pub lookup : K → Dict K V → Option V
  lookup k [] = none
  lookup k ((j, v) ∷ m) = if j == k then some v else lookup k m

  unfoldable pub delete : K → Dict K V → Dict K V
  delete k [] = []
  delete k ((j, v) ∷ m) = let rest = delete k m in if j == k then rest else (j, v) ∷ rest

  unfoldable pub insert : K → V → Dict K V → Dict K V
  insert k new [] = (k, new) ∷ []
  insert k new ((j, old) ∷ d) = if j == k then (k, new) ∷ d else (j, old) ∷ insert k new d

  pub lookup-nil : (k : K) → lookup k [] ≡ none
  unfolding lookup
  lookup-nil k = refl

  pub lookup-insert :
      (k j : K) (v : V) (m : Dict K V)
      → lookup j (insert k v m) ≡ (if k == j then some v else lookup j m)
  unfolding lookup insert
  lookup-insert k j v [] = refl
  lookup-insert k j v ((i, old) ∷ rest) =
      ground (arith, lookup-insert k j v rest, e.beq_iff k j, e.beq_iff i j, e.beq_iff i k)

  pub lookup-insert_self : (k : K) (v : V) (m : Dict K V) → lookup k (insert k v m) ≡ some v
  lookup-insert_self k v m = simp (lookup-insert, beq_refl)

  pub lookup-delete :
      (k j : K) (m : Dict K V) → lookup j (delete k m) ≡ (if k == j then none else lookup j m)
  unfolding lookup delete
  lookup-delete k j [] = ground arith
  lookup-delete k j ((i, w) ∷ m) =
      ground (arith, e.beq_iff k j, e.beq_iff i k, e.beq_iff i j, lookup-delete k j m)

  -- A key that has an entry is among the keys, and the other way round.
  pub In-keys : (k : K) (m : Dict K V) {v : V} → lookup k m ≡ some v → In k (keys m)
  unfolding lookup
  In-keys k [] h = cc
  In-keys k ((j, w) ∷ m) h = elim (Bool-cases (j == k)) [
    | inl same ↦ rw (eq_of_beq j k same) In.here
    | inr other ↦ In.there (In-keys k m (rw (other, lookup) at h))
  ]

  pub lookup_of_In : (k : K) (m : Dict K V) → In k (keys m) → (v : V) × (lookup k m ≡ some v)
  unfolding lookup
  lookup_of_In k [] i = elim i [ ]
  lookup_of_In k ((j, w) ∷ m) In.here = (w, rw (beq_refl k))
  lookup_of_In k ((j, w) ∷ m) (In.there i) = elim (Bool-cases (j == k)) [
    | inl same ↦ (w, rw same)
    | inr other ↦ let (v, h) = lookup_of_In k m i in (v, rw other h)
  ]

  -- A write adds no key but its own.
  pub In-keys-insert :
      (k : K) (v : V) (m : Dict K V) {j : K} → In j (keys (insert k v m)) → (k ≡ j) ⊎ In j (keys m)
  unfolding insert
  In-keys-insert k v [] In.here = inl refl
  In-keys-insert k v [] (In.there i) = elim i [ ]
  In-keys-insert k v ((i, w) ∷ m) {j} h = elim (Bool-cases (i == k)) [
    | inl same ↦
        let found : In j (k ∷ keys m) = rw (insert, same) at h in
        inr (rw (eq_of_beq i k same) found)
    | inr other ↦ In-cons_cases i j (In-keys-insert k v m {j = j}) (rw (insert, other) at h)
  ]

  -- The keys of a Go map are distinct.
  abbrev pub Unique : Dict K V → Type (ℓ ⊔ κ)
  Unique [] = Unit
  Unique ((k, v) ∷ m) = (lookup k m ≡ none) × Unique m

  pub Unique-insert : (k : K) (v : V) (m : Dict K V) → Unique m → Unique (insert k v m)
  unfolding insert
  Unique-insert k v [] u = (unfold lookup in refl, tt)
  Unique-insert k v ((j, w) ∷ m) (fresh, u) = elim (Bool-cases (j == k)) [
    | inl same ↦ rw same (rw (eq_of_beq j k same) at fresh, u)
    | inr other ↦
        rw other (rw (lookup-insert k j v m, beq_sym k j, other) fresh, Unique-insert k v m u)
  ]

  pub Unique-delete : (k : K) (m : Dict K V) → Unique m → Unique (delete k m)
  unfolding delete
  Unique-delete k [] u = tt
  Unique-delete k ((j, w) ∷ m) (fresh, u) = elim (Bool-cases (j == k)) [
    | inl same ↦ rw same (Unique-delete k m u)
    | inr other ↦ rw other (rw (lookup-delete k j m, beq_sym k j, other) fresh, Unique-delete k m u)
  ]

  -- In a map with distinct keys, an entry is what its key reads.
  pub lookup_of_entry :
      (k : K) (v : V) (m : Dict K V) → Unique m → In (k, v) m → lookup k m ≡ some v
  unfolding lookup
  lookup_of_entry k v [] u i = elim i [ ]
  lookup_of_entry k v ((j, w) ∷ m) u In.here = rw (beq_refl k)
  lookup_of_entry k v ((j, w) ∷ m) (fresh, u) (In.there i) = elim (Bool-cases (j == k)) [
    | inl same ↦
        let e : lookup j m ≡ some v = rw (eq_of_beq j k same) (lookup_of_entry k v m u i) in cc
    | inr other ↦ rw other (lookup_of_entry k v m u i)
  ]

-- The laws, for `simp` and `grind`.
pub ruleset dict_laws = (lookup-insert, lookup-delete)
