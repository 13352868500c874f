-- ===== src/Open/Order.antt =====
-- The order of strcmp is a total order on names.
use pakka.Prelude.{ℕ, ◌≡◌, refl, arith, true, false, List, [], ◌∷◌}
use pakka.Open.{at_most}

pub at_most_antisym : (xs ys : List ℕ) → at_most xs ys ≡ true → at_most ys xs ≡ true → xs ≡ ys
unfolding at_most
at_most_antisym [] [] h k = refl
at_most_antisym [] (y ∷ ys) h k = cc
at_most_antisym (x ∷ xs) [] h k = cc
at_most_antisym (x ∷ xs) (y ∷ ys) h k =
    let heads : x ≡ y = ground arith in
    let tails : xs ≡ ys = at_most_antisym xs ys (ground arith) (ground arith) in cc

pub at_most_trans :
    (xs ys zs : List ℕ) → at_most xs ys ≡ true → at_most ys zs ≡ true → at_most xs zs ≡ true
unfolding at_most
at_most_trans [] ys zs h k = refl
at_most_trans (x ∷ xs) [] zs h k = cc
at_most_trans (x ∷ xs) (y ∷ ys) [] h k = cc
at_most_trans (x ∷ xs) (y ∷ ys) (z ∷ zs) h k = ground (arith, at_most_trans xs ys zs)

pub at_most_total : (xs ys : List ℕ) → at_most xs ys ≡ false → at_most ys xs ≡ true
unfolding at_most
at_most_total [] ys h = cc
at_most_total (x ∷ xs) [] h = refl
at_most_total (x ∷ xs) (y ∷ ys) h = ground (arith, at_most_total xs ys)
