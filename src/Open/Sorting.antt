-- ===== src/Open/Sorting.antt =====
-- Sorting names and looking for equal neighbours finds whether any two names are equal.
use pakka.Prelude.{ℕ, ◌≡◌, ◌≢◌, refl, sym, true, false, or-false, ◌↔◌, inl, inr, List, [], ◌∷◌, All}
use pakka.Prelude.{same_bytes, Bool-cases}
use mathlib.Core.Path.{subst}
use pakka.Archive.Find.{same_bytes-ne, ne-same_bytes}
use pakka.Open.{at_most, insert, sort, repeats, any_repeats}
use pakka.Open.Order.{at_most_antisym, at_most_trans, at_most_total}

-- No two names are equal.
abbrev pub Apart : List (List ℕ) → Type 0
Apart [] = Unit {0}
Apart (x ∷ xs) = All (λ y. y ≢ x) xs × Apart xs

abbrev Ascending : List (List ℕ) → Type 0
Ascending [] = Unit {0}
Ascending (x ∷ xs) = All (λ y. at_most x y ≡ true) xs × Ascending xs

module _ (name : List ℕ) where
  insert-All {κ} :
      (P : List ℕ → Type κ) (xs : List (List ℕ)) → P name → All P xs → All P (insert name xs)
  unfolding insert
  insert-All P [] h k = (h, tt)
  insert-All P (x ∷ xs) h k = elim (Bool-cases (at_most name x)) [
    | inl before ↦ rw before (h, k)
    | inr behind ↦ rw behind (k.0, insert-All P xs h k.1)
  ]

  All-insert {κ} :
      (P : List ℕ → Type κ) (xs : List (List ℕ)) → All P (insert name xs) → P name × All P xs
  unfolding insert
  All-insert P [] k = k
  All-insert P (x ∷ xs) k = elim (Bool-cases (at_most name x)) [
    | inl before ↦ rw before at k
    | inr behind ↦
        let k' = rw behind at k in let (h, rest) = All-insert P xs k'.1 in (h, (k'.0, rest))
  ]

  insert-Apart : (xs : List (List ℕ)) → All (λ y. y ≢ name) xs → Apart xs → Apart (insert name xs)
  unfolding insert
  insert-Apart [] h k = (tt, tt)
  insert-Apart (x ∷ xs) h k = elim (Bool-cases (at_most name x)) [
    | inl before ↦ rw before (h, k)
    | inr behind ↦
        rw behind (insert-All (λ y. y ≢ x) xs (λ e. h.0 (sym e)) k.0, insert-Apart xs h.1 k.1)
  ]

  Apart-insert : (xs : List (List ℕ)) → Apart (insert name xs) → All (λ y. y ≢ name) xs × Apart xs
  unfolding insert
  Apart-insert [] k = (tt, tt)
  Apart-insert (x ∷ xs) k = elim (Bool-cases (at_most name x)) [
    | inl before ↦ rw before at k
    | inr behind ↦
        let k' = rw behind at k in
        let (here, fresh) = All-insert (λ y. y ≢ x) xs k'.0 in
        let (rest, apart) = Apart-insert xs k'.1 in (((λ e. here (sym e)), rest), (fresh, apart))
  ]

  All-at_most :
      (x : List ℕ) (xs : List (List ℕ))
      → at_most name x ≡ true
      → All (λ y. at_most x y ≡ true) xs
      → All (λ y. at_most name y ≡ true) xs
  All-at_most x [] h k = tt
  All-at_most x (y ∷ ys) h k = (at_most_trans name x y h k.0, All-at_most x ys h k.1)

  insert-Ascending : (xs : List (List ℕ)) → Ascending xs → Ascending (insert name xs)
  unfolding insert
  insert-Ascending [] k = (tt, tt)
  insert-Ascending (x ∷ xs) k = elim (Bool-cases (at_most name x)) [
    | inl before ↦ rw before ((before, All-at_most x xs before k.0), k)
    | inr behind ↦ rw behind (
      insert-All (λ y. at_most x y ≡ true) xs (at_most_total name x behind) k.0,
      insert-Ascending xs k.1,
    )
  ]

sort-Ascending : (xs : List (List ℕ)) → Ascending (sort xs)
unfolding sort
sort-Ascending [] = tt
sort-Ascending (x ∷ xs) = insert-Ascending x (sort xs) (sort-Ascending xs)

sort-All {κ} : (P : List ℕ → Type κ) (xs : List (List ℕ)) → All P xs → All P (sort xs)
unfolding sort
sort-All P [] h = tt
sort-All P (x ∷ xs) h = insert-All x P (sort xs) h.0 (sort-All P xs h.1)

All-sort {κ} : (P : List ℕ → Type κ) (xs : List (List ℕ)) → All P (sort xs) → All P xs
unfolding sort
All-sort P [] h = tt
All-sort P (x ∷ xs) h = let (p, rest) = All-insert x P (sort xs) h in (p, All-sort P xs rest)

sort-Apart : (xs : List (List ℕ)) → Apart xs → Apart (sort xs)
unfolding sort
sort-Apart [] h = tt
sort-Apart (x ∷ xs) h = insert-Apart x (sort xs) (sort-All (λ y. y ≢ x) xs h.0) (sort-Apart xs h.1)

Apart-sort : (xs : List (List ℕ)) → Apart (sort xs) → Apart xs
unfolding sort
Apart-sort [] h = tt
Apart-sort (x ∷ xs) h =
    let (fresh, apart) = Apart-insert x (sort xs) h in
    (All-sort (λ y. y ≢ x) xs fresh, Apart-sort xs apart)

-- Among ascending names equal ones are neighbours.
above-ne :
    (before name : List ℕ) (xs : List (List ℕ))
    → at_most before name ≡ true
    → name ≢ before
    → All (λ y. at_most name y ≡ true) xs
    → All (λ y. y ≢ before) xs
above-ne before name [] h ne k = tt
above-ne before name (x ∷ xs) h ne k = (
  λ e. ne (at_most_antisym name before (subst (λ t. at_most name t ≡ true) e k.0) h),
  above-ne before name xs h ne k.1,
)

repeats-Apart :
    (before : List ℕ) (xs : List (List ℕ))
    → Ascending (before ∷ xs)
    → repeats before xs ≡ false
    → Apart (before ∷ xs)
unfolding repeats
repeats-Apart before [] h e = (tt, tt)
repeats-Apart before (x ∷ xs) h e =
    let (differ, rest) = or-false (same_bytes before x) (repeats x xs) e in
    let ne = ne-same_bytes before x differ in
    let flipped : x ≢ before = λ q. ne (sym q) in
    ((flipped, above-ne before x xs h.0.0 flipped h.1.0), repeats-Apart x xs h.1 rest)

Apart-repeats :
    (before : List ℕ) (xs : List (List ℕ)) → Apart (before ∷ xs) → repeats before xs ≡ false
unfolding repeats
Apart-repeats before [] h = refl
Apart-repeats before (x ∷ xs) h =
    rw (same_bytes-ne before x (λ e. h.0.0 (sym e))) (Apart-repeats x xs h.1)

pub any_repeats-sort : (xs : List (List ℕ)) → (any_repeats (sort xs) ≡ false) ↔ Apart xs
unfolding any_repeats
any_repeats-sort xs =
    (λ e. Apart-sort xs (to (sort xs) (sort-Ascending xs) e), λ h. from (sort xs) (sort-Apart xs h))
  where
    to : (ys : List (List ℕ)) → Ascending ys → any_repeats ys ≡ false → Apart ys
    to [] h e = tt
    to (y ∷ ys) h e = repeats-Apart y ys h e

    from : (ys : List (List ℕ)) → Apart ys → any_repeats ys ≡ false
    from [] h = refl
    from (y ∷ ys) h = Apart-repeats y ys h
