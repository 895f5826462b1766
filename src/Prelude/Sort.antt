-- ===== src/Prelude/Sort.antt =====
-- `sort.Strings`: an insertion sort by the order of the bytes, which `compare` gives on texts too.
use Prim.Native.String.{String, compare}
use mathlib.Core.Path.{◌≡◌, refl}
use mathlib.Core.Logic.{inl, inr}
use mathlib.Core.Bool.{Bool}
use mathlib.Core.List.{List, [], ◌∷◌}
use text.Mathlib.Text.{is_le, is_lt}
use stego.Prelude.Tests.{if◌then◌else◌, Bool-cases}
use stego.Prelude.Lists.{In}
use stego.Prelude.Dict.{Dict, keys}

abbrev pub text_le : String → String → Bool
text_le s t = is_le (compare s t)

abbrev pub text_lt : String → String → Bool
text_lt s t = is_lt (compare s t)

module _ {ℓ} {A : Type ℓ} (le : A → A → Bool) where
  unfoldable pub place : A → List A → List A
  place a [] = a ∷ []
  place a (x ∷ xs) = let rest = place a xs in if le a x then a ∷ x ∷ xs else x ∷ rest

  unfoldable pub sort_by : List A → List A
  unfolding place
  sort_by [] = []
  sort_by (x ∷ xs) = place x (sort_by xs)

  In-place_new : (a : A) (xs : List A) → In a (place a xs)
  unfolding place
  In-place_new a [] = In.here
  In-place_new a (x ∷ xs) = elim (Bool-cases (le a x)) [
    | inl h ↦ rw h In.here
    | inr h ↦ rw h (In.there (In-place_new a xs))
  ]

  In-place_old : (a : A) {b : A} (xs : List A) → In b xs → In b (place a xs)
  unfolding place
  In-place_old a [] i = elim i [ ]
  In-place_old a (x ∷ xs) In.here = elim (Bool-cases (le a x)) [
    | inl h ↦ rw h (In.there In.here)
    | inr h ↦ rw h In.here
  ]
  In-place_old a (x ∷ xs) (In.there i) = elim (Bool-cases (le a x)) [
    | inl h ↦ rw h (In.there (In.there i))
    | inr h ↦ rw h (In.there (In-place_old a xs i))
  ]

  -- Sorting loses no element.
  pub In-sort_by : {a : A} (xs : List A) → In a xs → In a (sort_by xs)
  unfolding sort_by
  In-sort_by [] i = elim i [ ]
  In-sort_by (x ∷ xs) In.here = In-place_new x (sort_by xs)
  In-sort_by (x ∷ xs) (In.there i) = In-place_old x (sort_by xs) (In-sort_by xs i)

  past : (a x : A) {b : A} {xs : List A} → In b (a ∷ xs) → In b (a ∷ x ∷ xs)
  past a x In.here = In.here
  past a x (In.there k) = In.there (In.there k)

  -- An element of `x ∷ ys`, once `ys` is known to hold only `a` and `xs`.
  behind :
      (a x : A) {b : A} {ys xs : List A}
      → (In b ys → In b (a ∷ xs))
      → In b (x ∷ ys)
      → In b (a ∷ x ∷ xs)
  behind a x f In.here = In.there In.here
  behind a x f (In.there j) = past a x (f j)

  In_of_place : (a : A) {b : A} (xs : List A) → In b (place a xs) → In b (a ∷ xs)
  unfolding place
  In_of_place a [] i = i
  In_of_place a {b} (x ∷ xs) i = elim (Bool-cases (le a x)) [
    | inl h ↦ rw h at i
    | inr h ↦ behind a x (In_of_place a xs) (rw h at i)
  ]

  under : (x : A) {a : A} {ys xs : List A} → (In a ys → In a xs) → In a (x ∷ ys) → In a (x ∷ xs)
  under x f In.here = In.here
  under x f (In.there j) = In.there (f j)

  -- Sorting makes up no element.
  pub In_of_sort_by : {a : A} (xs : List A) → In a (sort_by xs) → In a xs
  unfolding sort_by
  In_of_sort_by [] i = i
  In_of_sort_by (x ∷ xs) i = under x (In_of_sort_by xs) (In_of_place x (sort_by xs) i)

unfoldable pub sort_texts : List String → List String
unfolding sort_by
sort_texts = sort_by text_le

-- `sortedKeys` of internal/compiler/config.go, and the loops that do the same.
unfoldable pub sorted_keys {ℓ} : {V : Type ℓ} → Dict String V → List String
unfolding sort_texts
sorted_keys m = sort_texts (keys m)

pub In-sorted_keys {ℓ} :
    {V : Type ℓ} (m : Dict String V) {k : String} → In k (keys m) → In k (sorted_keys m)
unfolding sorted_keys sort_texts
In-sorted_keys m i = In-sort_by text_le (keys m) i

pub In_of_sorted_keys {ℓ} :
    {V : Type ℓ} (m : Dict String V) {k : String} → In k (sorted_keys m) → In k (keys m)
unfolding sorted_keys sort_texts
In_of_sorted_keys m i = In_of_sort_by text_le (keys m) i

sort_texts_runs : sort_texts ("b" ∷ "a.go" ∷ "a" ∷ []) ≡ "a" ∷ "a.go" ∷ "b" ∷ []
unfolding sort_texts sort_by place
sort_texts_runs = refl

pub In-sort_texts : {s : String} (xs : List String) → In s xs → In s (sort_texts xs)
unfolding sort_texts
In-sort_texts xs i = In-sort_by text_le xs i
