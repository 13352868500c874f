-- ===== src/Archive/Replace.antt =====
-- The first entry of a name under another name, and the entry that a lookup finds.
use pakka.Prelude.{ℕ, suc, ◌≡◌, ◌≢◌, refl, sym, ap, inl, inr, List, [], ◌∷◌, some}
use pakka.Prelude.{All, length, same_bytes, same_bytes→eq, same_bytes_refl, Bool-cases, ◌∙◌}
use mathlib.Core.Path.{subst}
use pakka.Pak.{Entry}
use pakka.Archive.{find_entry}
use pakka.Archive.Edit.{rename_first}
use pakka.Archive.Find.{Fresh, Distinct, same_bytes-ne, ne-same_bytes}

-- The entry that is found has the name, and what holds of every entry.
pub find_entry-All {κ} :
    (P : Entry → Type κ) (name : List ℕ) (es : List Entry) (e : Entry)
    → find_entry es name ≡ some e
    → All P es
    → (e.filename ≡ name) × P e
unfolding find_entry
find_entry-All P name [] e h p = cc
find_entry-All P name (x ∷ es) e h p = elim (Bool-cases (same_bytes x.filename name)) [
  | inl same ↦
      let got = rw same at h in
      let here : x ≡ e = cc in
      subst (λ (t : Entry). (t.filename ≡ name) × P t) here
        (same_bytes→eq x.filename name same, p.0)
  | inr other ↦ find_entry-All P name es e (rw other at h) p.1
]

module _ (old_name new_name : List ℕ) where
  -- What holds of every entry and does not depend on its name still does.
  pub rename_first-All {κ} :
      (P : Entry → Type κ) (es : List Entry)
      → ((e : Entry) → P e → P (record e { filename = new_name }))
      → All P es
      → (length (rename_first old_name new_name es) ≡ length es)
        × All P (rename_first old_name new_name es)
  unfolding rename_first
  rename_first-All P [] keep p = (refl, tt)
  rename_first-All P (e ∷ es) keep p = elim (Bool-cases (same_bytes e.filename old_name)) [
    | inl same ↦ rw same (refl, (keep e p.0, p.1))
    | inr other ↦ let (n, q) = rename_first-All P es keep p.1 in rw other (ap suc n, (p.0, q))
  ]

  -- Names that are neither of the two are found as before.
  pub rename_first-other :
      (other : List ℕ) (es : List Entry)
      → other ≢ old_name
      → other ≢ new_name
      → find_entry (rename_first old_name new_name es) other ≡ find_entry es other
  unfolding rename_first find_entry
  rename_first-other other [] ne ne' = refl
  rename_first-other other (e ∷ es) ne ne' = elim (Bool-cases (same_bytes e.filename old_name)) [
    | inl same ↦
        let here = same_bytes→eq e.filename old_name same in
        rw (same, find_entry)
          (rw
            (
              same_bytes-ne new_name other (λ q. ne' (sym q)),
              same_bytes-ne e.filename other (λ q. ne (sym q ∙ here)),
            )
            refl)
    | inr differs ↦ rw (differs, find_entry) (rw (rename_first-other other es ne ne') refl)
  ]

  -- The entry is found under its new name.
  pub rename_first-new :
      (es : List Entry) (e : Entry)
      → find_entry es old_name ≡ some e
      → Fresh new_name es
      → find_entry (rename_first old_name new_name es) new_name
        ≡ some (record e { filename = new_name })
  unfolding rename_first find_entry
  rename_first-new [] e h fresh = cc
  rename_first-new (x ∷ es) e h fresh = elim (Bool-cases (same_bytes x.filename old_name)) [
    | inl same ↦
        let got = rw same at h in
        let here : x ≡ e = cc in
        rw (same, find_entry)
          (rw (same_bytes_refl new_name)
            (ap (λ (t : Entry). some (record t { filename = new_name })) here))
    | inr differs ↦
        rw (differs, find_entry)
          (rw (same_bytes-ne x.filename new_name fresh.0)
            (rename_first-new es e (rw differs at h) fresh.1))
  ]

  Fresh-rename_first :
      (name : List ℕ) (es : List Entry)
      → new_name ≢ name
      → Fresh name es
      → Fresh name (rename_first old_name new_name es)
  unfolding rename_first
  Fresh-rename_first name [] ne f = tt
  Fresh-rename_first name (e ∷ es) ne f = elim (Bool-cases (same_bytes e.filename old_name)) [
    | inl same ↦ rw same (ne, f.1)
    | inr differs ↦ rw differs (f.0, Fresh-rename_first name es ne f.1)
  ]

  -- Distinct names stay distinct, and the old name is gone.
  pub rename_first-Distinct :
      (es : List Entry)
      → old_name ≢ new_name
      → Fresh new_name es
      → Distinct es
      → Distinct (rename_first old_name new_name es)
        × Fresh old_name (rename_first old_name new_name es)
  unfolding rename_first
  rename_first-Distinct [] ne f d = (tt, tt)
  rename_first-Distinct (e ∷ es) ne f d = elim (Bool-cases (same_bytes e.filename old_name)) [
    | inl same ↦
        let here = same_bytes→eq e.filename old_name same in
        rw same ((f.1, d.1), (λ q. ne (sym q), subst (λ n. Fresh n es) here d.0))
    | inr differs ↦
        let (dr, fr) = rename_first-Distinct es ne f.1 d.1 in
        rw differs (
          (Fresh-rename_first e.filename es (λ q. f.0 (sym q)) d.0, dr),
          (ne-same_bytes e.filename old_name differs, fr),
        )
  ]
