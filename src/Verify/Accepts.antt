-- ===== src/Verify/Accepts.antt =====
-- When pakka_verify of src/pakfile.c finds nothing wrong.
use pakka.Prelude.{
  ℕ, ◌+◌, ◌≡◌, refl, sym, ap, ◌∙◌, ◌↔◌, Bool, true, false, not, ◌⊎◌, inl, inr, List, [], ◌∷◌, ◌++◌,
  length, All, All-append, Bool-cases, qsort, same_bytes, if_intro,
}
use pakka.Prelude.Sort.{sort_insert}
use pakka.Status.{Result, ok}
use pakka.Format.{is_zip, is_wad}
use pakka.Pak.{Entry, Pak}
use pakka.Names.Normalize.{normalize_entry_name}
use pakka.Open.{at_most, insert, sort, repeats, any_repeats}
use pakka.Open.Sorting.{Apart, any_repeats-sort}
use pakka.Verify.{
  Report, CollisionRecord, collision_records, collision_before, collision_report, scan_collisions,
  verify_collisions, verify_entries, pakka_verify, first_error, record_error,
}
use pakka.Commit.Errors.{contradicts}
use pakka.Verify.Payloads.{IsGood, IsQuiet, first_error-All, entries-IsQuiet}

abbrev norms : List CollisionRecord → List (List ℕ)
norms [] = []
norms (r ∷ rs) = r.norm ∷ norms rs

-- The names as the collision check compares them.
abbrev pub normal_names : List Entry → List (List ℕ)
normal_names [] = []
normal_names (e ∷ es) = normalize_entry_name e.filename (length e.filename + 1) ∷ normal_names es

norms-collision_records : (es : List Entry) → norms (collision_records es) ≡ normal_names es
unfolding collision_records
norms-collision_records [] = refl
norms-collision_records (e ∷ es) = rw (norms-collision_records es) refl

norms-sort_insert :
    (r : CollisionRecord) (rs : List CollisionRecord)
    → norms (sort_insert collision_before r rs) ≡ insert r.norm (norms rs)
unfolding sort_insert collision_before insert
norms-sort_insert r [] = refl
norms-sort_insert r (s ∷ rs) = elim (Bool-cases (at_most r.norm s.norm)) [
  | inl first ↦ rw first refl
  | inr later ↦ rw later (rw (norms-sort_insert r rs) refl)
]

norms-qsort : (rs : List CollisionRecord) → norms (qsort collision_before rs) ≡ sort (norms rs)
unfolding qsort sort
norms-qsort [] = refl
norms-qsort (r ∷ rs) =
    norms-sort_insert r (qsort collision_before rs) ∙ ap (insert r.norm) (norms-qsort rs)

-- In a WAD a collision is a warning.
warnings-IsQuiet :
    (before : CollisionRecord) (rs : List CollisionRecord)
    → All IsQuiet (scan_collisions true before rs)
unfolding scan_collisions collision_report first_error record_error
warnings-IsQuiet before [] = tt
warnings-IsQuiet before (r ∷ rs) =
    if_intro (All IsQuiet) (same_bytes before.norm r.norm) (λ _. (refl, warnings-IsQuiet r rs))
      (λ _. warnings-IsQuiet r rs)

-- In any other archive it is an error.
errors-repeats :
    (before : CollisionRecord) (rs : List CollisionRecord)
    → All IsQuiet (scan_collisions false before rs) ↔ (repeats before.norm (norms rs) ≡ false)
unfolding scan_collisions collision_report first_error record_error repeats
errors-repeats before [] = (λ _. refl, λ _. tt)
errors-repeats before (r ∷ rs) = elim (Bool-cases (same_bytes before.norm r.norm)) [
  | inl same ↦ rw same (λ h. cc, λ h. cc)
  | inr other ↦ rw other (errors-repeats r rs)
]

collisions-IsQuiet :
    (wad : Bool) (p : Pak) (rs : List CollisionRecord)
    → is_wad p.format ≡ wad
    → All IsQuiet (verify_collisions p rs) ↔ ((wad ≡ true) ⊎ (any_repeats (norms rs) ≡ false))
unfolding verify_collisions any_repeats
collisions-IsQuiet wad p [] h = (λ _. inr refl, λ _. tt)
collisions-IsQuiet true p (r ∷ rs) h = rw h (λ _. inl refl, λ _. warnings-IsQuiet r rs)
collisions-IsQuiet false p (r ∷ rs) h =
    let (to, from) = errors-repeats r rs in
    rw h (λ quiet. inr (to quiet), λ t. elim t [ inl bad ↦ cc | inr apart ↦ from apart ])

All-append_inv {ℓ κ} :
    {A : Type ℓ} (P : A → Type κ) (xs ys : List A) → All P (xs ++ ys) → All P xs × All P ys
All-append_inv P [] ys h = (tt, h)
All-append_inv P (x ∷ xs) ys h =
    let (front, back) = All-append_inv P xs ys h.1 in ((h.0, front), back)

-- pakka_verify without the deep check, on an open PAK-class handle, returns PAKKA_OK exactly when
-- every name is safe, every payload that is not staged lies within the file or is empty, and, but in
-- a WAD, the normalized names are distinct.
pub pakka_verify-ok :
    (pk3_deep_verify_entry : Pak → Entry → Result (List ℕ)) (p : Pak)
    → p.live ≡ true
    → is_zip p.format ≡ false
    → ((pakka_verify pk3_deep_verify_entry 0 p).1 ≡ ok tt)
      ↔ (All (IsGood p) p.entries × ((is_wad p.format ≡ true) ⊎ Apart (normal_names p.entries)))
unfolding pakka_verify
pakka_verify-ok pk3_deep_verify_entry p live no_zip =
    let entries = verify_entries pk3_deep_verify_entry false p p.entries in
    let records = qsort collision_before (collision_records p.entries) in
    let collisions = verify_collisions p records in
    let (quiet, back) = first_error-All (entries ++ collisions) in
    let (good, bad) = entries-IsQuiet pk3_deep_verify_entry p no_zip p.entries in
    let (apart, near) = collisions-IsQuiet (is_wad p.format) p records refl in
    let sorted : norms records ≡ sort (normal_names p.entries) =
      norms-qsort (collision_records p.entries) ∙ ap sort (norms-collision_records p.entries) in
    let (distinct, sortable) = any_repeats-sort (normal_names p.entries) in
    if_intro
      (λ (r : List Report × Result (Unit {0})).
        (r.1 ≡ ok tt)
        ↔ (All (IsGood p) p.entries × ((is_wad p.format ≡ true) ⊎ Apart (normal_names p.entries))))
      (not p.live) (λ closed. contradicts p.live live closed)
      (λ _. (
        λ h.
            let (a, b) = All-append_inv IsQuiet entries collisions (quiet h) in
            (
              good a,
              elim (apart b) [
                | inl wad ↦ inl wad
                | inr e ↦ inr (distinct (ap any_repeats (sym sorted) ∙ e))
              ],
            ),
        λ h. back (
            All-append IsQuiet entries collisions (bad h.0) (
              near (elim h.1 [
                | inl wad ↦ inl wad
                | inr e ↦ inr (ap any_repeats sorted ∙ sortable e)
              ]))),
      ))
