-- ===== src/Open/Accepts.antt =====
-- What pakka_open_ex of src/pakfile.c accepts.
use pakka.Prelude.{
  ℕ, ◌≤◌, ◌≡◌, sym, ◌∙◌, arith, Bool, true, false, not, ◌&&◌, Option, some, inl, inr,
}
use pakka.Prelude.{List, [], ◌∷◌, length, All, leb, if◌then◌else◌, if-cases, Option-cases}
use mathlib.Core.Path.{subst}
use pakka.Status.{Result, ok, bind-ok, ok-injective}
use pakka.Format.{Format, is_zip, same_format}
use pakka.Stdio.{File}
use pakka.Pak.{Entry, Pak, header_size, max_entries}
use pakka.Disk.Rows.{load_directory}
use pakka.Disk.Load.{load_pakfile}
use pakka.Disk.RoundTrip.Directory.{IsPlaced}
use pakka.Disk.Safety.{load_directory-IsPlaced, load_directory-keeps}
use pakka.Archive.Sound.{IsSound, IsHeld}
use pakka.Open.{
  validate_no_duplicates, OpenMode, is_writable, new_handle, load_archive, pakka_open_ex,
}
use pakka.Open.Duplicates.{validate_no_duplicates_lem}
use pakka.Open.Loaded.{load_lem}

placed-IsHeld :
    (fmt : Format) (end : ℕ) (es : List Entry) → All (IsPlaced fmt end) es → All (IsHeld end) es
placed-IsHeld fmt end [] h = tt
placed-IsHeld fmt end (e ∷ es) h = ((λ _. h.0.1), placed-IsHeld fmt end es h.1)

-- A directory that is loaded and has passed the check for duplicates.
directory_lem :
    (a b : Pak) (u : Unit {0})
    → a.entries ≡ []
    → header_size ≤ a.file_size
    → a.num_entries ≤ max_entries
    → load_directory a ≡ ok b
    → validate_no_duplicates b ≡ ok u
    → IsSound b
      × (length b.entries ≡ b.num_entries)
      × (b.num_entries ≤ max_entries)
      × All (IsPlaced b.format b.payload_end) b.entries
      × (b.payload_end ≤ a.file_size)
directory_lem a b u none_yet long few h valid =
    let (n, placed, low, high) = load_directory-IsPlaced a b none_yet long h in
    let (same_format, same_count, _) = load_directory-keeps a b h in
    let counted : length b.entries ≡ b.num_entries = n ∙ sym same_count in
    (
      record {
        counted = omega (arith, counted, same_count, few);
        distinct = (validate_no_duplicates_lem b counted).0 valid;
        held = placed-IsHeld a.format b.payload_end b.entries placed;
      },
      counted,
      omega (arith, same_count, few),
      subst (λ f. All (IsPlaced f b.payload_end) b.entries) (sym same_format) placed,
      high,
    )

module _ (pk3_open_impl : Pak → Result Pak)
    (keeps_format : (p q : Pak) → pk3_open_impl p ≡ ok q → q.format ≡ p.format) where
  -- Where pakka_open_ex opens a file as an archive that is not a ZIP, the handle is sound: its counter
  -- is right and within the limit, its names are distinct but in a WAD, and every payload lies behind
  -- the header (but for an empty lump of a WAD), before the payload end and so within the file. This
  -- supposes of pakka_pk3_open_impl only that it leaves the format as load_pakfile has set it.
  pub pakka_open_ex-IsSound :
      (os_path_max : ℕ) (fopen : Option File) (locks : Bool) (path : List ℕ) (mode : OpenMode)
      (hint : Format) (p : Pak)
      → pakka_open_ex os_path_max pk3_open_impl fopen locks path mode hint ≡ ok p
      → is_zip p.format ≡ false
      → IsSound p
        × (length p.entries ≡ p.num_entries)
        × (p.num_entries ≤ max_entries)
        × All (IsPlaced p.format p.payload_end) p.entries
        × (file : File) × (fopen ≡ some file)
        × (p.payload_end ≤ length file.contents)
  unfolding pakka_open_ex new_handle load_archive
  pakka_open_ex-IsSound os_path_max fopen locks path mode hint p h no_zip =
      elim (if-cases (leb os_path_max (length path)) _ _ h) [
        | inl (_, bad) ↦ cc
        | inr (_, h1) ↦ elim (Option-cases fopen) [
          | inl failed ↦ let bad = rw failed at h1 in cc
          | inr (file, got) ↦ elim (if-cases (is_writable mode && not locks) _ _ (rw got at h1)) [
            | inl (_, bad) ↦ cc
            | inr (_, h2) ↦
                let fresh = new_handle path mode hint file in
                let (a, loads, h3) = bind-ok {A = Pak} (load_pakfile pk3_open_impl fresh) _ _ h2 in
                let (b, reads, h4) =
                  bind-ok {A = Pak} (if is_zip a.format then ok a else load_directory a) _ _ h3 in
                let (u, valid, h5) = bind-ok {A = Unit {0}} (validate_no_duplicates b) _ _ h4 in
                let same : b ≡ p = ok-injective h5 in
                let plain : is_zip b.format ≡ false =
                  subst (λ (t : Pak). is_zip t.format ≡ false) (sym same) no_zip in
                elim (if-cases (is_zip a.format) (ok a) (load_directory a) reads) [
                  | inl (zip, kept) ↦
                      let bad : is_zip b.format ≡ true =
                        subst (λ (t : Pak). is_zip t.format ≡ true) (ok-injective kept) zip in
                      cc
                  | inr (not_zip, directory) ↦
                      let (none_yet, long, size, few) =
                        load_lem pk3_open_impl keeps_format fresh a loads not_zip in
                      let (sound, n, small, placed, within) =
                        directory_lem a b u none_yet long few directory valid in
                      subst
                        (λ (p : Pak).
                          IsSound p
                          × (length p.entries ≡ p.num_entries)
                          × (p.num_entries ≤ max_entries)
                          × All (IsPlaced p.format p.payload_end) p.entries
                          × (file : File) × (fopen ≡ some file)
                          × (p.payload_end ≤ length file.contents))
                        same (sound, n, small, placed, file, got, omega (arith, within, size))
                ]
          ]
        ]
      ]
