-- ===== src/Zip/Opened.antt =====
-- pakka_open_ex of src/pakfile.c on a ZIP archive, with the loader of src/pk3file.c.
use pakka.Prelude.{
  ℕ, ◌+◌, ◌≡◌, refl, sym, ap, ◌∙◌, Bool, true, false, not, ◌&&◌, ◌||◌, some, List, [],
}
use pakka.Prelude.{
  length, All, IsByte, Bool-cases, Option-cases, if-cases, leb, same_bytes, ◌==◌, ◌%◌, ◌/◌, ltb,
}
use mathlib.Core.Path.{subst}
use pakka.Prelude.{inl, inr, if◌then◌else◌}
use pakka.Status.{ok, err_io, err_format, err_limit, refuse_if, bind-ok}
use pakka.Status.{ok-injective}
use pakka.Format.{Format, is_zip, is_wad, same_format, Geometry, geometry}
use pakka.Stdio.{File, fseek, fread}
use pakka.Pak.{Pak, max_entries}
use pakka.Disk.Rows.{load_directory, or_fail}
use pakka.Disk.Load.{
  allows, check_directory, count_entries, eocd_magic, lfh_magic, load_pak_class, load_pakfile,
  load_zip_class, probe_format, read_header, settle_format, spanned_magic,
}
use pakka.Open.{
  OpenMode, pakka_open_ex, load_archive, new_handle, is_writable, validate_no_duplicates,
}
use pakka.Archive.Find.{Distinct}
use pakka.Disk.Safety.{load_directory-keeps}
use pakka.Open.Duplicates.{validate_no_duplicates_lem}
use pakka.Zip.Directory.{pakka_pk3_open_impl}
use pakka.Zip.Directory.Accepts.{IsLoadedZip, pakka_pk3_open_impl-IsLoadedZip}

-- The table of the PAK classes has no ZIP, and a ZIP is no WAD.
geometry-no_zip : (f : Format) (g : Geometry) → geometry f ≡ some g → is_zip f ≡ false
unfolding geometry is_zip
geometry-no_zip Format.auto g h = refl
geometry-no_zip Format.pak g h = refl
geometry-no_zip Format.pk3 g h = cc
geometry-no_zip Format.pk4 g h = cc
geometry-no_zip Format.sin g h = refl
geometry-no_zip Format.daikatana g h = refl
geometry-no_zip Format.iwad g h = refl
geometry-no_zip Format.pwad g h = refl

zip_no_wad : (f : Format) → is_zip f ≡ true → is_wad f ≡ false
unfolding is_zip is_wad
zip_no_wad Format.auto h = refl
zip_no_wad Format.pak h = refl
zip_no_wad Format.pk3 h = refl
zip_no_wad Format.pk4 h = refl
zip_no_wad Format.sin h = refl
zip_no_wad Format.daikatana h = refl
zip_no_wad Format.iwad h = cc
zip_no_wad Format.pwad h = cc

count-no_zip : (p q : Pak) → count_entries p ≡ ok q → is_zip q.format ≡ false
unfolding count_entries
count-no_zip p q h = elim (Option-cases (geometry p.format)) [
  | inl unknown ↦ let bad = rw (unknown, count_entries) at h in cc
  | inr (g, known) ↦
      let h1 = rw (known, count_entries) at h in
      let (_, _, h2) =
        bind-ok {A = Unit {0}} (refuse_if (not (p.dirlength % g.dir_entry_size == 0)) err_format) _
          _ h1 in
      let (_, _, h3) =
        bind-ok {A = Unit {0}}
          (refuse_if (ltb max_entries (p.dirlength / g.dir_entry_size)) err_limit) _ _ h2 in
      subst (λ (t : Pak). is_zip t.format ≡ false) (ok-injective h3)
        (geometry-no_zip p.format g known)
]

class-no_zip : (p q : Pak) → load_pak_class p ≡ ok q → is_zip q.format ≡ false
unfolding load_pak_class
class-no_zip p q h =
    let (fmt, _, h1) = bind-ok {A = Format} (settle_format p.signature p.format_hint) _ _ h in
    let (r, _, h2) = bind-ok {A = Pak} (read_header (record p { format = fmt })) _ _ h1 in
    let (_, _, h3) = bind-ok {A = Unit {0}} (check_directory r) _ _ h2 in
    let (fmt', _, h4) = bind-ok {A = Format} (probe_format r) _ _ h3 in
    count-no_zip (record r { format = fmt' }) q h4

fread-contents :
    (n : ℕ) (f0 : File) (read : List ℕ × File)
    → or_fail err_io (fread n (fseek 0 f0)) ≡ ok read
    → read.1.contents ≡ f0.contents
unfolding fread fseek
fread-contents n f0 read h = elim (Bool-cases (leb (0 + n) (length f0.contents))) [
  | inl whole ↦
      let h1 = rw (whole, fread) at h in
      subst (λ (t : List ℕ × File). t.1.contents ≡ f0.contents) (ok-injective h1) refl
  | inr short ↦ let bad = rw (short, fread) at h in cc
]

-- A handle without entries that load_pakfile finds to be a ZIP is one that the ZIP loader accepts.
load-IsLoadedZip :
    (p q : Pak)
    → p.entries ≡ []
    → p.num_entries ≡ 0
    → All IsByte p.file.contents
    → load_pakfile pakka_pk3_open_impl p ≡ ok q
    → is_zip q.format ≡ true
    → IsLoadedZip q
unfolding load_pakfile load_zip_class
load-IsLoadedZip p q none_yet zero_yet bs h zip =
    let ((sig, f), got, h1) =
      bind-ok {A = List ℕ × File} (or_fail err_io (fread 4 (fseek 0 p.file))) _ _ h in
    elim (if-cases (same_bytes sig lfh_magic || same_bytes sig eocd_magic) _ _ h1) [
      | inl (_, h2) ↦
          elim (if-cases
            (not (allows p.format_hint Format.pk3 || same_format p.format_hint Format.pk4)) _ _
            h2) [
              | inl (_, bad) ↦ cc
              | inr (_, opened) ↦
                  pakka_pk3_open_impl-IsLoadedZip _ q none_yet zero_yet
                    (subst (All IsByte) (sym (fread-contents 4 p.file (sig, f) got)) bs) opened
            ]
      | inr (_, h2) ↦ elim (if-cases (same_bytes sig spanned_magic) _ _ h2) [
        | inl (_, bad) ↦ cc
        | inr (_, class) ↦ let no_zip = class-no_zip _ q class in cc
      ]
    ]

-- A handle that pakka_open_ex returns for a ZIP archive, whatever bytes the file holds, is one that
-- the ZIP loader accepts: it counts its entries, their names are valid UTF-8 and their payloads lie
-- before the directory, which lies in the file. The names are distinct as well.
pub pakka_open_ex-IsLoadedZip :
    (os_path_max : ℕ) (file : File) (locks : Bool) (path : List ℕ) (mode : OpenMode) (hint : Format)
    (p : Pak)
    → All IsByte file.contents
    → pakka_open_ex os_path_max pakka_pk3_open_impl (some file) locks path mode hint ≡ ok p
    → is_zip p.format ≡ true
    → IsLoadedZip p × Distinct p.entries
unfolding pakka_open_ex new_handle load_archive
pakka_open_ex-IsLoadedZip os_path_max file locks path mode hint p bs h zip =
    elim (if-cases (leb os_path_max (length path)) _ _ h) [
      | inl (_, bad) ↦ cc
      | inr (_, h1) ↦ elim (if-cases (is_writable mode && not locks) _ _ h1) [
        | inl (_, bad) ↦ cc
        | inr (_, h2) ↦
            let fresh = new_handle path mode hint file in
            let (a, loads, h3) =
              bind-ok {A = Pak} (load_pakfile pakka_pk3_open_impl fresh) _ _ h2 in
            let (b, reads, h4) =
              bind-ok {A = Pak} (if is_zip a.format then ok a else load_directory a) _ _ h3 in
            let (u, valid, h5) = bind-ok {A = Unit {0}} (validate_no_duplicates b) _ _ h4 in
            let same : b ≡ p = ok-injective h5 in
            let zip_b : is_zip b.format ≡ true =
              subst (λ (t : Pak). is_zip t.format ≡ true) (sym same) zip in
            elim (if-cases (is_zip a.format) (ok a) (load_directory a) reads) [
              | inl (zip_a, kept) ↦
                  let loaded : IsLoadedZip b =
                    subst IsLoadedZip (ok-injective kept)
                      (load-IsLoadedZip fresh a refl refl bs loads zip_a) in
                  let distinct : Distinct b.entries =
                    (validate_no_duplicates_lem b (sym loaded.counted)).0 valid
                      (zip_no_wad b.format zip_b) in
                  subst (λ (t : Pak). IsLoadedZip t × Distinct t.entries) same (loaded, distinct)
              | inr (not_zip, directory) ↦
                  let (format, _, _) = load_directory-keeps a b directory in
                  let bad : is_zip b.format ≡ false = ap (λ f. is_zip f) format ∙ not_zip in cc
            ]
      ]
    ]
