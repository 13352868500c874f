-- ===== src/Disk/Safety.antt =====
-- What load_directory of src/pakfile.c accepts.
use pakka.Prelude.{ℕ, zero, suc, ◌+◌, ◌≤◌, ◌≡◌, refl, arith, true, ◌⊎◌, inl, inr, Option-cases}
use pakka.Prelude.{
  List, [], ◌∷◌, ◌++◌, length, length-append, All, All-append, ◌==◌, Bool-cases, if-cases,
  not-false,
}
use pakka.Status.{ok, bind-ok, err_format, refuse_if-ok, ok-injective}
use mathlib.Core.Path.{subst}
use pakka.Stdio.{fseek}
use pakka.Format.{Format, Geometry, geometry, is_wad}
use pakka.Stdio.{File}
use pakka.Pak.{Entry, Pak, header_size, on_disk_extent}
use pakka.Disk.Rows.{read_entry, in_range, raise_end, read_entries, load_directory}
use pakka.Disk.RoundTrip.Directory.{IsPlaced}

-- What is known of the entries read so far.
record IsRead (fmt : Format) (file_size : ℕ) (entries : List Entry) (end : ℕ) : Type 0 where
  pub behind : header_size ≤ end
  pub within : end ≤ file_size
  pub placed : All (IsPlaced fmt end) entries

All-IsPlaced_mono :
    (fmt : Format) (end end' : ℕ) (es : List Entry)
    → end ≤ end'
    → All (IsPlaced fmt end) es
    → All (IsPlaced fmt end') es
All-IsPlaced_mono fmt end end' [] le h = tt
All-IsPlaced_mono fmt end end' (e ∷ es) le h =
    ((h.0.0, omega (arith, h.0.1)), All-IsPlaced_mono fmt end end' es le h.1)

in_range-bounds :
    (fmt : Format) (file_size : ℕ) (e : Entry)
    → in_range fmt file_size e ≡ true
    → ((header_size ≤ e.offset) ⊎ ((is_wad fmt ≡ true) × (e.size ≡ 0)))
      × (e.offset + on_disk_extent e ≤ file_size)
unfolding in_range
in_range-bounds fmt file_size e h = (ground arith, ground arith)

-- An entry in range extends what has been read.
IsRead-next :
    (fmt : Format) (file_size : ℕ) (entries : List Entry) (end : ℕ) (e : Entry)
    → IsRead fmt file_size entries end
    → in_range fmt file_size e ≡ true
    → IsRead fmt file_size (entries ++ e ∷ []) (raise_end e end)
unfolding raise_end
IsRead-next fmt file_size entries end e r h =
    let (low, high) = in_range-bounds fmt file_size e h in
    let grows : end ≤ raise_end e end = ground arith in
    record {
      behind = omega (arith, r.behind);
      within = ground (arith, r.within);
      placed =
          All-append (IsPlaced fmt (raise_end e end)) entries (e ∷ [])
            (All-IsPlaced_mono fmt end (raise_end e end) entries grows r.placed)
            ((low, ground arith), tt);
    }

-- The loop adds one entry for each row, all of them placed.
read_entries-IsRead :
    (fmt : Format) (g : Geometry) (file_size left : ℕ) (entries : List Entry) (end : ℕ) (f : File)
    (es : List Entry) (end' : ℕ)
    → IsRead fmt file_size entries end
    → read_entries fmt g file_size left entries end f ≡ ok (es, end')
    → (length es ≡ length entries + left) × IsRead fmt file_size es end'
unfolding read_entries
read_entries-IsRead fmt g file_size zero entries end f es end' r h =
    subst (λ (t : List Entry × ℕ). (length t.0 ≡ length entries + 0) × IsRead fmt file_size t.0 t.1)
      (ok-injective h) (omega arith, r)
read_entries-IsRead fmt g file_size (suc left) entries end f es end' r h =
    let (ef, _, h1) = bind-ok {A = Entry × File} (read_entry fmt g f) _ _ h in
    let (u, passed, h2) = bind-ok {A = Unit {0}} _ _ _ h1 in
    let good : in_range fmt file_size ef.0 ≡ true =
      not-false (in_range fmt file_size ef.0) (refuse_if-ok _ err_format u passed) in
    let (n, rest) =
      read_entries-IsRead fmt g file_size left (entries ++ ef.0 ∷ []) (raise_end ef.0 end) ef.1 es
        end' (IsRead-next fmt file_size entries end ef.0 r good) h2 in
    (omega (arith, n, length-append entries (ef.0 ∷ [])), rest)

-- Whatever bytes the file holds: where load_directory succeeds on a handle without entries whose
-- file is at least a header long, it has read as many entries as the header counts, each lies behind
-- the header (but for an empty lump of a WAD) and before the payload end, and the payload end is
-- behind the header and within the file.
pub load_directory-IsPlaced :
    (p r : Pak)
    → p.entries ≡ []
    → header_size ≤ p.file_size
    → load_directory p ≡ ok r
    → (length r.entries ≡ p.num_entries)
      × (All (IsPlaced p.format r.payload_end) r.entries)
      × (header_size ≤ r.payload_end)
      × (r.payload_end ≤ p.file_size)
unfolding load_directory
load_directory-IsPlaced p r none_yet long h = elim (Bool-cases (p.num_entries == 0)) [
  | inl zero_test ↦
      let e = ok-injective (rw (zero_test, load_directory) at h) in
      subst Goal e (rw none_yet ((ground arith), tt, omega arith, long))
  | inr test ↦ elim (Option-cases (geometry p.format)) [
    | inl unknown ↦ let bad = rw (test, unknown, load_directory) at h in cc
    | inr (g, known) ↦
        let (t, e, h1) =
          bind-ok {A = List Entry × ℕ} _ _ _ (rw (test, known, load_directory) at h) in
        let (n, read) =
          read_entries-IsRead p.format g p.file_size p.num_entries p.entries header_size
            (fseek p.diroffset p.file) t.0 t.1 start e in
        subst Goal (ok-injective h1)
          (ground (arith, n, none_yet), read.placed, read.behind, read.within)
  ]
]
  where
    Goal : Pak → Type 0
    Goal r =
        (length r.entries ≡ p.num_entries)
        × (All (IsPlaced p.format r.payload_end) r.entries)
        × (header_size ≤ r.payload_end)
        × (r.payload_end ≤ p.file_size)

    start : IsRead p.format p.file_size p.entries header_size
    start = record { behind = omega arith; within = long; placed = rw none_yet tt }

-- What load_directory does not touch.
pub load_directory-keeps :
    (p r : Pak)
    → load_directory p ≡ ok r
    → (r.format ≡ p.format) × (r.num_entries ≡ p.num_entries) × (r.file_size ≡ p.file_size)
unfolding load_directory
load_directory-keeps p r h = elim (if-cases (p.num_entries == 0) _ _ h) [
  | inl (_, done) ↦ subst Kept (ok-injective done) (refl, refl, refl)
  | inr (_, h1) ↦ elim (Option-cases (geometry p.format)) [
    | inl unknown ↦ let bad = rw unknown at h1 in cc
    | inr (g, known) ↦
        let (t, _, h2) =
          bind-ok {A = List Entry × ℕ}
            (read_entries p.format g p.file_size p.num_entries p.entries header_size
              (fseek p.diroffset p.file))
            _ _ (rw known at h1) in
        subst Kept (ok-injective h2) (refl, refl, refl)
  ]
]
  where
    Kept : Pak → Type 0
    Kept r = (r.format ≡ p.format) × (r.num_entries ≡ p.num_entries) × (r.file_size ≡ p.file_size)
