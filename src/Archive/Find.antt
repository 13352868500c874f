-- ===== src/Archive/Find.antt =====
-- The lookup by name, and how it changes with the list of entries.
use pakka.Prelude.{
  ℕ, suc, ◌≡◌, ◌≢◌, refl, sym, ap, arith, false, inl, inr, List, [], ◌∷◌, ◌++◌, some, none,
}
use pakka.Prelude.{All, All-append, length, same_bytes, same_bytes→eq, same_bytes_refl, Bool-cases}
use mathlib.Core.Path.{subst}
use pakka.Prelude.{Option-cases, ◌∙◌}
use pakka.Pak.{Entry}
use pakka.Archive.{find_entry}
use pakka.Archive.Edit.{unlink_first}

-- No entry of the list has the name.
abbrev pub Fresh : List ℕ → List Entry → Type 0
Fresh name es = All (λ (e : Entry). e.filename ≢ name) es

-- No two entries have the same name.
abbrev pub Distinct : List Entry → Type 0
Distinct [] = Unit {0}
Distinct (e ∷ es) = Fresh e.filename es × Distinct es

pub same_bytes-ne : (a b : List ℕ) → a ≢ b → same_bytes a b ≡ false
same_bytes-ne a b h = elim (Bool-cases (same_bytes a b)) [
  | inl same ↦ elim (h (same_bytes→eq a b same)) [ ]
  | inr other ↦ other
]

pub ne-same_bytes : (a b : List ℕ) → same_bytes a b ≡ false → a ≢ b
ne-same_bytes a b h e = let bad = rw e at h in let good = same_bytes_refl b in cc

pub find_entry-Fresh : (name : List ℕ) (es : List Entry) → find_entry es name ≡ none → Fresh name es
unfolding find_entry
find_entry-Fresh name [] h = tt
find_entry-Fresh name (e ∷ es) h = elim (Bool-cases (same_bytes e.filename name)) [
  | inl same ↦ let bad = rw same at h in cc
  | inr other ↦ (ne-same_bytes e.filename name other, find_entry-Fresh name es (rw other at h))
]

pub Fresh-find_entry : (name : List ℕ) (es : List Entry) → Fresh name es → find_entry es name ≡ none
unfolding find_entry
Fresh-find_entry name [] h = refl
Fresh-find_entry name (e ∷ es) h =
    rw (same_bytes-ne e.filename name h.0) (Fresh-find_entry name es h.1)

-- A lookup in a longer list.
pub find_entry-append_found :
    (name : List ℕ) (es fs : List Entry) (e : Entry)
    → find_entry es name ≡ some e
    → find_entry (es ++ fs) name ≡ some e
unfolding find_entry
find_entry-append_found name [] fs e h = cc
find_entry-append_found name (x ∷ es) fs e h = ground (arith, find_entry-append_found name es fs e)

pub find_entry-append :
    (name : List ℕ) (es fs : List Entry)
    → Fresh name es
    → find_entry (es ++ fs) name ≡ find_entry fs name
unfolding find_entry
find_entry-append name [] fs h = refl
find_entry-append name (e ∷ es) fs h =
    rw (same_bytes-ne e.filename name h.0) (find_entry-append name es fs h.1)

pub find_entry-snoc_other :
    (name : List ℕ) (es : List Entry) (e : Entry)
    → e.filename ≢ name
    → find_entry (es ++ e ∷ []) name ≡ find_entry es name
unfolding find_entry
find_entry-snoc_other name [] e h = rw (same_bytes-ne e.filename name h) refl
find_entry-snoc_other name (x ∷ es) e h = rw (find_entry-snoc_other name es e h) refl

pub Distinct-snoc :
    (es : List Entry) (e : Entry) → Distinct es → Fresh e.filename es → Distinct (es ++ e ∷ [])
Distinct-snoc [] e d f = (tt, tt)
Distinct-snoc (x ∷ es) e d f = (
  All-append (λ (y : Entry). y.filename ≢ x.filename) es (e ∷ []) d.0 (λ q. f.0 (sym q), tt),
  Distinct-snoc es e d.1 f.1,
)

-- The two ways in which the first entry of a name is taken out.
data Unlinked (name : List ℕ) (e : Entry) (es es' : List Entry) : Type 0 where
  first : e.filename ≡ name → es ≡ es' → Unlinked name e es es'
  later :
      (rest : List Entry)
      → e.filename ≢ name
      → unlink_first name es ≡ some rest
      → e ∷ rest ≡ es'
      → Unlinked name e es es'

unlink_first-cons :
    (name : List ℕ) (e : Entry) (es es' : List Entry)
    → unlink_first name (e ∷ es) ≡ some es'
    → Unlinked name e es es'
unfolding unlink_first
unlink_first-cons name e es es' h = elim (Bool-cases (same_bytes e.filename name)) [
  | inl same ↦ let got = rw same at h in first (same_bytes→eq e.filename name same) cc
  | inr other ↦ elim (Option-cases (unlink_first name es)) [
    | inl gone ↦ let bad = rw (other, gone) at h in cc
    | inr (rest, found) ↦
        let got = rw (other, found) at h in
        later rest (ne-same_bytes e.filename name other) found cc
  ]
]

module _ (name : List ℕ) where
  -- What held of every entry still does, and one is gone.
  pub unlink_first-All {κ} :
      (P : Entry → Type κ) (es es' : List Entry)
      → unlink_first name es ≡ some es'
      → All P es
      → (length es ≡ suc (length es')) × All P es'
  unfolding unlink_first
  unlink_first-All P [] es' h p = cc
  unlink_first-All P (e ∷ es) es' h p = elim (unlink_first-cons name e es es' h) [
    | first _ same ↦ subst (λ t. (suc (length es) ≡ suc (length t)) × All P t) same (refl, p.1)
    | later rest _ found same ↦
        let (n, q) = unlink_first-All P es rest found p.1 in
        subst (λ t. (suc (length es) ≡ suc (length t)) × All P t) same (ap suc n, (p.0, q))
  ]

  -- Lookups of other names are as before.
  pub unlink_first-other :
      (other : List ℕ) (es es' : List Entry)
      → other ≢ name
      → unlink_first name es ≡ some es'
      → find_entry es' other ≡ find_entry es other
  unfolding unlink_first find_entry
  unlink_first-other other [] es' ne h = cc
  unlink_first-other other (e ∷ es) es' ne h = elim (unlink_first-cons name e es es' h) [
    | first here same ↦
        rw (same_bytes-ne e.filename other (λ q. ne (sym q ∙ here)))
          (ap (λ t. find_entry t other) (sym same))
    | later rest _ found same ↦
        subst (λ t. find_entry t other ≡ find_entry (e ∷ es) other) same
          (rw (unlink_first-other other es rest ne found) refl)
  ]

  -- Where the names are distinct they stay so, and none is the name that was taken out.
  pub unlink_first-Distinct :
      (es es' : List Entry)
      → unlink_first name es ≡ some es'
      → Distinct es
      → Distinct es' × Fresh name es'
  unfolding unlink_first
  unlink_first-Distinct [] es' h d = cc
  unlink_first-Distinct (e ∷ es) es' h d = elim (unlink_first-cons name e es es' h) [
    | first here same ↦
        subst (λ t. Distinct t × Fresh name t) same (d.1, subst (λ n. Fresh n es) here d.0)
    | later rest ne found same ↦
        let (dr, fr) = unlink_first-Distinct es rest found d.1 in
        let (_, kept) =
          unlink_first-All (λ (x : Entry). x.filename ≢ e.filename) es rest found d.0 in
        subst (λ t. Distinct t × Fresh name t) same ((kept, dr), (ne, fr))
  ]
