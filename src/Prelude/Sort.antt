-- ===== src/Prelude/Sort.antt =====
-- The C library's qsort, as a sort by a test of whether one item may stand before another.
use mathlib.Core.Path.{◌≡◌}
use mathlib.Core.Bool.{Bool, true, false}
use mathlib.Core.Logic.{inl, inr}
use mathlib.Core.List.{List, [], ◌∷◌}
use pakka.Prelude.Tests.{if◌then◌else◌, Bool-cases}
use pakka.Prelude.Lists.{All}

module _ {ℓ} {A : Type ℓ} (before : A → A → Bool) where
  unfoldable pub sort_insert : A → List A → List A
  sort_insert a [] = a ∷ []
  sort_insert a (x ∷ xs) =
      let rest = sort_insert a xs in if before a x then a ∷ x ∷ xs else x ∷ rest

  unfoldable pub qsort : List A → List A
  unfolding sort_insert
  qsort [] = []
  qsort (a ∷ xs) = sort_insert a (qsort xs)

  -- Each item may stand before all behind it.
  abbrev pub Sorted : List A → Type 0
  Sorted [] = Unit {0}
  Sorted (x ∷ xs) = All (λ y. before x y ≡ true) xs × Sorted xs

  sort_insert-All {κ} :
      (P : A → Type κ) (a : A) (xs : List A) → P a → All P xs → All P (sort_insert a xs)
  unfolding sort_insert
  sort_insert-All P a [] h k = (h, tt)
  sort_insert-All P a (x ∷ xs) h k = elim (Bool-cases (before a x)) [
    | inl front ↦ rw front (h, k)
    | inr behind ↦ rw behind (k.0, sort_insert-All P a xs h k.1)
  ]

  pub qsort-All {κ} : (P : A → Type κ) (xs : List A) → All P xs → All P (qsort xs)
  unfolding qsort
  qsort-All P [] h = tt
  qsort-All P (a ∷ xs) h = sort_insert-All P a (qsort xs) h.0 (qsort-All P xs h.1)

  module _ (trans : (a b c : A) → before a b ≡ true → before b c ≡ true → before a c ≡ true)
      (total : (a b : A) → before a b ≡ false → before b a ≡ true) where
    All-before :
        (a x : A) (xs : List A)
        → before a x ≡ true
        → All (λ y. before x y ≡ true) xs
        → All (λ y. before a y ≡ true) xs
    All-before a x [] h k = tt
    All-before a x (y ∷ ys) h k = (trans a x y h k.0, All-before a x ys h k.1)

    sort_insert-Sorted : (a : A) (xs : List A) → Sorted xs → Sorted (sort_insert a xs)
    unfolding sort_insert
    sort_insert-Sorted a [] k = (tt, tt)
    sort_insert-Sorted a (x ∷ xs) k = elim (Bool-cases (before a x)) [
      | inl front ↦ rw front ((front, All-before a x xs front k.0), k)
      | inr behind ↦ rw behind (
        sort_insert-All (λ y. before x y ≡ true) a xs (total a x behind) k.0,
        sort_insert-Sorted a xs k.1,
      )
    ]

    pub qsort-Sorted : (xs : List A) → Sorted (qsort xs)
    unfolding qsort
    qsort-Sorted [] = tt
    qsort-Sorted (a ∷ xs) = sort_insert-Sorted a (qsort xs) (qsort-Sorted xs)
