-- ===== src/Open/Loaded.antt =====
-- What is known of a handle where load_pakfile of src/pakfile.c succeeds.
use pakka.Prelude.{ℕ, ◌/◌, ◌%◌, ◌≤◌, ◌≡◌, refl, ap, ◌∙◌, arith, true, false, not, ◌||◌, inl, inr}
use pakka.Prelude.{
  List, length, same_bytes, ltb, ◌==◌, if◌then◌else◌, if-cases, if_intro, Option-cases,
}
use mathlib.Core.Path.{subst}
use pakka.Status.{
  Result, ok, refuse_if, bind-ok, refuse_if-ok, ok-injective, err_format, err_limit, err_io,
}
use pakka.Format.{Format, auto, pk3, pk4, geometry, is_wad, is_zip, same_format}
use pakka.Stdio.{File, fseek, fread}
use pakka.Words.{read_u32_le}
use pakka.Pak.{Pak, header_size, max_entries}
use pakka.Disk.Rows.{or_fail}
use pakka.Disk.Load.{
  settle_format, read_header, check_directory, probe_format, count_entries, load_pak_class,
  load_zip_class, load_pakfile, zip_format_from_path, ends_in_pk4, allows, lfh_magic, eocd_magic,
  spanned_magic,
}
use pakka.Prelude.{not-false}

zip_path-is_zip : (path : List ℕ) → is_zip (zip_format_from_path path) ≡ true
unfolding zip_format_from_path is_zip
zip_path-is_zip path =
    if_intro (λ (f : Format). is_zip f ≡ true) (ends_in_pk4 path) {x = pk4} {y = pk3} (λ _. refl)
      (λ _. refl)

zip_class-is_zip :
    (hint : Format) (path : List ℕ)
    → (allows hint pk3 || same_format hint pk4) ≡ true
    → is_zip (if same_format hint auto then zip_format_from_path path else hint) ≡ true
unfolding is_zip allows same_format
zip_class-is_zip auto path h = zip_path-is_zip path
zip_class-is_zip Format.pak path h = cc
zip_class-is_zip pk3 path h = refl
zip_class-is_zip pk4 path h = refl
zip_class-is_zip Format.sin path h = cc
zip_class-is_zip Format.daikatana path h = cc
zip_class-is_zip Format.iwad path h = cc
zip_class-is_zip Format.pwad path h = cc

-- A handle as load_pakfile leaves it for load_directory.
record IsFresh (p q : Pak) : Type 0 where
  pub no_entries : q.entries ≡ p.entries
  pub long : header_size ≤ q.file_size
  pub size : q.file_size ≡ p.file_size
  pub few : q.num_entries ≤ max_entries

check_lem : (p : Pak) (u : Unit {0}) → check_directory p ≡ ok u → header_size ≤ p.file_size
unfolding check_directory
check_lem p u h = ground arith

count_lem :
    (p q : Pak)
    → count_entries p ≡ ok q
    → (q.entries ≡ p.entries) × (q.file_size ≡ p.file_size) × (q.num_entries ≤ max_entries)
unfolding count_entries
count_lem p q h = elim (Option-cases (geometry p.format)) [
  | inl unknown ↦ let bad = rw (unknown, count_entries) at h in cc
  | inr (g, known) ↦
      let h1 = rw (known, count_entries) at h in
      let (_, _, h2) =
        bind-ok {A = Unit {0}} (refuse_if (not (p.dirlength % g.dir_entry_size == 0)) err_format) _
          _ h1 in
      let (u, within, h3) =
        bind-ok {A = Unit {0}}
          (refuse_if (ltb max_entries (p.dirlength / g.dir_entry_size)) err_limit) _ _ h2 in
      let small : p.dirlength / g.dir_entry_size ≤ max_entries =
        ground (arith, refuse_if-ok _ err_limit u within) in
      subst
        (λ (q : Pak).
          (q.entries ≡ p.entries) × (q.file_size ≡ p.file_size) × (q.num_entries ≤ max_entries))
        (ok-injective h3) (refl, refl, small)
]

header_lem :
    (p q : Pak) → read_header p ≡ ok q → (q.entries ≡ p.entries) × (q.file_size ≡ p.file_size)
unfolding read_header
header_lem p q h =
    let ((first, f1), _, h1) = bind-ok {A = ℕ × File} (or_fail err_io (read_u32_le p.file)) _ _ h in
    let ((second, f2), _, h2) = bind-ok {A = ℕ × File} (or_fail err_io (read_u32_le f1)) _ _ h1 in
    elim (if-cases (is_wad p.format) _ _ h2) [
      | inl (_, h3) ↦
          let (_, _, h4) =
            bind-ok {A = Unit {0}} (refuse_if (ltb max_entries first) err_limit) _ _ h3 in
          subst (λ (q : Pak). (q.entries ≡ p.entries) × (q.file_size ≡ p.file_size))
            (ok-injective h4) (refl, refl)
      | inr (_, h3) ↦
          subst (λ (q : Pak). (q.entries ≡ p.entries) × (q.file_size ≡ p.file_size))
            (ok-injective h3) (refl, refl)
    ]

class_lem : (p q : Pak) → load_pak_class p ≡ ok q → IsFresh p q
unfolding load_pak_class
class_lem p q h =
    let (fmt, _, h1) = bind-ok {A = Format} (settle_format p.signature p.format_hint) _ _ h in
    let (r, header, h2) = bind-ok {A = Pak} (read_header (record p { format = fmt })) _ _ h1 in
    let (u, inside, h3) = bind-ok {A = Unit {0}} (check_directory r) _ _ h2 in
    let (fmt', _, h4) = bind-ok {A = Format} (probe_format r) _ _ h3 in
    let (entries, size) = header_lem (record p { format = fmt }) r header in
    let (entries', size', few) = count_lem (record r { format = fmt' }) q h4 in
    record {
      no_entries = entries' ∙ entries;
      long = omega (arith, size', check_lem r u inside);
      size = size' ∙ size;
      few = few;
    }

module _ (pk3_open_impl : Pak → Result Pak)
    (keeps_format : (p q : Pak) → pk3_open_impl p ≡ ok q → q.format ≡ p.format) where
  zip_lem : (p q : Pak) → load_zip_class pk3_open_impl p ≡ ok q → is_zip q.format ≡ true
  unfolding load_zip_class
  zip_lem p q h =
      elim (if-cases (not (allows p.format_hint pk3 || same_format p.format_hint pk4)) _ _ h) [
        | inl (_, bad) ↦ cc
        | inr (good, did) ↦
            ap (λ (f : Format). is_zip f) (keeps_format _ q did)
            ∙ zip_class-is_zip p.format_hint p.cur_pakpath (not-false _ good)
      ]

  pub load_lem :
      (p q : Pak)
      → load_pakfile pk3_open_impl p ≡ ok q
      → is_zip q.format ≡ false
      → (q.entries ≡ p.entries)
        × (header_size ≤ q.file_size)
        × (q.file_size ≡ length p.file.contents)
        × (q.num_entries ≤ max_entries)
  unfolding load_pakfile
  load_lem p q h no_zip =
      let ((sig, f), _, h1) =
        bind-ok {A = List ℕ × File} (or_fail err_io (fread 4 (fseek 0 p.file))) _ _ h in
      elim (if-cases (same_bytes sig lfh_magic || same_bytes sig eocd_magic) _ _ h1) [
        | inl (_, zip) ↦ let bad = zip_lem _ q zip in cc
        | inr (_, h2) ↦ elim (if-cases (same_bytes sig spanned_magic) _ _ h2) [
          | inl (_, bad) ↦ cc
          | inr (_, class) ↦
              let fresh =
                class_lem
                  (record p { file_size = length p.file.contents; signature = sig; file = f }) q
                  class in
              (fresh.no_entries, fresh.long, fresh.size, fresh.few)
        ]
      ]
