-- ===== src/Verify/Payloads.antt =====
-- What a report of verify_entry of src/pakfile.c says of an entry.
use pakka.Prelude.{
  ℕ, zero, suc, ◌+◌, ◌-◌, ◌≤◌, ◌≡◌, refl, sym, ◌∙◌, arith, ◌↔◌, true, false, not, ◌||◌, ◌&&◌, ◌⊎◌,
  inl, inr,
}
use pakka.Prelude.{List, [], ◌∷◌, Option, none, some, length, All, Bool-cases}
use pakka.Prelude.{leb, ◌==◌, if◌then◌else◌, if_intro, not-false}
use mathlib.Core.Path.{subst}
use pakka.Status.{Status, Result, ok, err_io, err_unsafe_name}
use pakka.Format.{is_zip}
use pakka.Stdio.{File, fseek, fread}
use pakka.Pak.{Entry, Pak, Pending, on_disk_extent}
use pakka.Names.{unsafe_entry_name}
use pakka.Commit.Copy.{chunk_size}
use pakka.Commit.Copied.{chunk_size_bounds}
use pakka.Verify.{
  Report, passed, failed, verify_range, skim, verify_payload, verify_entry, verify_entries,
  first_error, Severity, record_error,
}
use pakka.Commit.Errors.{contradicts}

-- The payload is read to its end where it lies within the file.
skim_lem :
    (fuel remaining : ℕ) (f : File)
    → remaining ≤ fuel
    → skim fuel remaining f ≡ (leb remaining 0 || leb (f.pos + remaining) (length f.contents))
unfolding skim fread
skim_lem zero remaining f h = ground arith
skim_lem (suc fuel) remaining f h = elim (Bool-cases (leb remaining 0)) [
  | inl none_left ↦ rw none_left refl
  | inr some_left ↦
      let (low, high) = chunk_size_bounds remaining some_left in
      let w = chunk_size remaining in
      elim (Bool-cases (leb (f.pos + w) (length f.contents))) [
        | inr short ↦
            let never : leb (f.pos + remaining) (length f.contents) ≡ false = ground arith in
            rw (some_left, skim) (rw (short, fread) (sym never))
        | inl there ↦
            let next = record f { pos = f.pos + w } in
            let rest = skim_lem fuel (remaining - w) next (omega arith) in
            let same : (leb (remaining - w) 0
                  || leb (f.pos + w + (remaining - w)) (length f.contents))
                ≡ leb (f.pos + remaining) (length f.contents) =
              ground arith in
            rw (some_left, skim) (rw (there, fread) (rest ∙ same))
      ]
]

-- An entry that the check lets through: its name is safe, and its payload, unless it is staged, lies
-- within the file or is empty.
pub record IsGood (p : Pak) (e : Entry) : Type 0 where
  pub safe : unsafe_entry_name e.filename ≡ false
  pub within :
      e.pending ≡ none
      → (on_disk_extent e ≡ 0) ⊎ (e.offset + on_disk_extent e ≤ length p.file.contents)

-- A report that is no error.
abbrev pub IsQuiet : Report → Type 0
IsQuiet r = first_error (r ∷ []) ≡ ok tt

record_error-ok :
    (severity : Severity) (status : Option Status) (rest : Result (Unit {0}))
    → (record_error severity status rest ≡ ok tt)
      ↔ ((record_error severity status (ok tt) ≡ ok tt) × (rest ≡ ok tt))
unfolding record_error
record_error-ok Severity.info status rest = (λ h. (refl, h), λ h. h.1)
record_error-ok Severity.warning status rest = (λ h. (refl, h), λ h. h.1)
record_error-ok Severity.error none rest = (λ h. (refl, h), λ h. h.1)
record_error-ok Severity.error (some s) rest = (λ h. cc, λ h. cc)

pub first_error-All : (rs : List Report) → (first_error rs ≡ ok tt) ↔ All IsQuiet rs
unfolding first_error
first_error-All [] = (λ _. tt, λ _. refl)
first_error-All (r ∷ rs) =
    let (to, from) = record_error-ok r.severity r.status (first_error rs) in
    let (rest, back) = first_error-All rs in
    (λ h. let (quiet, others) = to h in (quiet, rest others), λ h. from (h.0, back h.1))

passed-IsQuiet : (e : Entry) → IsQuiet (passed e)
unfolding first_error passed record_error
passed-IsQuiet e = refl

failed-loud : (s : Status) (e : Entry) → IsQuiet (failed s e) → ⊥
unfolding first_error failed record_error
failed-loud s e h = cc

module _ (pk3_deep_verify_entry : Pak → Entry → Result (List ℕ)) (p : Pak)
    (no_zip : is_zip p.format ≡ false) where
  range-eq : (e : Entry) → verify_range p e ≡ (e.offset, on_disk_extent e)
  unfolding verify_range on_disk_extent
  range-eq e = rw (no_zip, verify_range) (ground arith)

  skims :
      (e : Entry)
      → (skim (on_disk_extent e) (on_disk_extent e) (fseek e.offset p.file) ≡ true)
        ↔ ((on_disk_extent e ≡ 0) ⊎ (e.offset + on_disk_extent e ≤ length p.file.contents))
  unfolding fseek
  skims e =
      rw (skim_lem (on_disk_extent e) (on_disk_extent e) (fseek e.offset p.file) (omega arith))
        (ground arith)

  payload-IsQuiet :
      (e : Entry)
      → IsQuiet (verify_payload pk3_deep_verify_entry false p e)
        ↔ ((on_disk_extent e ≡ 0) ⊎ (e.offset + on_disk_extent e ≤ length p.file.contents))
  unfolding verify_payload
  payload-IsQuiet e =
      subst (λ r. IsQuiet (checked r) ↔ Fits) (sym (range-eq e))
        (if_intro (λ r. IsQuiet r ↔ Fits) (on_disk_extent e == 0 && e.size == 0)
          (λ both. (λ _. inl (ground arith), λ _. passed-IsQuiet e))
          (λ _.
            if_intro (λ r. IsQuiet r ↔ Fits)
              (not (skim (on_disk_extent e) (on_disk_extent e) (fseek e.offset p.file)))
              (λ short. (
                λ quiet. absurd (failed-loud err_io e quiet),
                λ good.
                    contradicts (skim (on_disk_extent e) (on_disk_extent e) (fseek e.offset p.file))
                      ((skims e).1 good) short,
              ))
              (λ whole. (
                λ _. (skims e).0 (
                    not-false (skim (on_disk_extent e) (on_disk_extent e) (fseek e.offset p.file))
                      whole),
                λ _. passed-IsQuiet e,
              ))))
    where
      Fits : Type 0
      Fits = (on_disk_extent e ≡ 0) ⊎ (e.offset + on_disk_extent e ≤ length p.file.contents)

      checked : ℕ × ℕ → Report
      checked r =
          if r.1 == 0 && e.size == 0
          then passed e
          else if not (skim r.1 r.1 (fseek r.0 p.file))
          then failed err_io e
          else passed e

  entry-IsQuiet : (e : Entry) → IsQuiet (verify_entry pk3_deep_verify_entry false p e) ↔ IsGood p e
  unfolding verify_entry
  entry-IsQuiet e =
      if_intro (λ r. IsQuiet r ↔ IsGood p e) (unsafe_entry_name e.filename)
        (λ unsafe. (
          λ quiet. absurd (failed-loud err_unsafe_name e quiet),
          λ good. let bad = sym unsafe ∙ good.safe in cc,
        ))
        (λ safe. go safe e.pending refl)
    where
      go :
          unsafe_entry_name e.filename ≡ false
          → (pending : Option Pending) → e.pending ≡ pending
          → IsQuiet (elim pending [
            | some _ ↦ passed e
            | none ↦ verify_payload pk3_deep_verify_entry false p e
          ])
            ↔ IsGood p e
      go safe (some q) staged = (
        λ _. record { safe = safe; within = λ c. let bad = sym staged ∙ c in cc },
        λ _. passed-IsQuiet e,
      )
      go safe none committed = (
        λ quiet. record { safe = safe; within = λ _. (payload-IsQuiet e).0 quiet },
        λ good. (payload-IsQuiet e).1 (good.within committed),
      )

  pub entries-IsQuiet :
      (es : List Entry)
      → All IsQuiet (verify_entries pk3_deep_verify_entry false p es) ↔ All (IsGood p) es
  unfolding verify_entries
  entries-IsQuiet [] = (λ _. tt, λ _. tt)
  entries-IsQuiet (e ∷ es) =
      let (to, from) = entry-IsQuiet e in
      let (rest, back) = entries-IsQuiet es in (λ h. (to h.0, rest h.1), λ h. (from h.0, back h.1))
