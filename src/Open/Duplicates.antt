-- ===== src/Open/Duplicates.antt =====
-- validate_no_duplicates of src/pakfile.c finds whether two names are equal.
use pakka.Prelude.{◌≤◌, ◌≡◌, ◌≢◌, refl, arith, false, ◌↔◌, inl, inr}
use pakka.Prelude.{List, [], ◌∷◌, length, take, take_all, All, leb, Bool-cases}
use pakka.Status.{ok}
use pakka.Format.{is_wad}
use pakka.Pak.{Entry, Pak}
use pakka.Archive.Find.{Distinct, Fresh}
use pakka.Open.{any_repeats, sort, names_of, validate_no_duplicates}
use pakka.Open.Sorting.{Apart, any_repeats-sort}

Apart-Distinct : (es : List Entry) → Apart (names_of es) → Distinct es
unfolding names_of
Apart-Distinct [] h = tt
Apart-Distinct (e ∷ es) h = (fresh es h.0, Apart-Distinct es h.1)
  where
    fresh : (ds : List Entry) → All (λ y. y ≢ e.filename) (names_of ds) → Fresh e.filename ds
    fresh [] k = tt
    fresh (d ∷ ds) k = (k.0, fresh ds k.1)

Distinct-Apart : (es : List Entry) → Distinct es → Apart (names_of es)
unfolding names_of
Distinct-Apart [] h = tt
Distinct-Apart (e ∷ es) h = (fresh es h.0, Distinct-Apart es h.1)
  where
    fresh : (ds : List Entry) → Fresh e.filename ds → All (λ y. y ≢ e.filename) (names_of ds)
    fresh [] k = tt
    fresh (d ∷ ds) k = (k.0, fresh ds k.1)

short-Distinct : (es : List Entry) → length es ≤ 1 → Distinct es
short-Distinct [] h = tt
short-Distinct (e ∷ []) h = (tt, tt)
short-Distinct (e ∷ d ∷ es) h = absurd (omega arith)

-- On a handle that counts its entries, validate_no_duplicates accepts exactly what is a WAD or has
-- distinct names.
pub validate_no_duplicates_lem :
    (p : Pak)
    → length p.entries ≡ p.num_entries
    → (validate_no_duplicates p ≡ ok tt) ↔ (is_wad p.format ≡ false → Distinct p.entries)
unfolding validate_no_duplicates
validate_no_duplicates_lem p n =
    let es = p.entries in
    let whole : take p.num_entries es ≡ es = take_all p.num_entries es (omega (arith, n)) in
    let (to, from) = any_repeats-sort (names_of es) in
    elim (Bool-cases (is_wad p.format)) [
      | inl wad ↦ rw wad (λ _ w. cc, λ _. refl)
      | inr other ↦ elim (Bool-cases (leb p.num_entries 1)) [
        | inl few ↦ rw (other, few) (λ _ _. short-Distinct es (ground (arith, few, n)), λ _. refl)
        | inr many ↦ elim (Bool-cases (any_repeats (sort (names_of es)))) [
          | inl repeated ↦
              rw (other, many, whole, repeated)
                (λ h. cc, λ h. let no = from (Distinct-Apart es (h refl)) in cc)
          | inr clean ↦
              rw (other, many, whole, clean) (λ _ _. Apart-Distinct es (to clean), λ _. refl)
        ]
      ]
    ]
