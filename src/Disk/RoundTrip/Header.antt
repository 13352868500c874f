-- ===== src/Disk/RoundTrip/Header.antt =====
-- The header: what write_pak_header writes and load_pakfile reads.
use pakka.Prelude.{ℕ, ◌+◌, ◌*◌, ◌/◌, ◌%◌, ◌≤◌, ◌<◌, ◌≡◌, refl, sym, arith, Bool, true, false}
use pakka.Prelude.{List, [], ◌++◌, append-nil, append_assoc, length, ltb, ◌&&◌, inl, inr, some}
use pakka.Prelude.{length-append, if◌then◌else◌, IsU32, same_bytes}
use mathlib.Core.Path.{subst}
use native.Mathlib.Nat.{mul-div_cancel, mul-mod_left}
use pakka.Prelude.{◌^◌, Bool-cases}
use pakka.Status.{Result, ok}
use pakka.Format.{
  Format, auto, pak, pk3, pk4, sin, daikatana, iwad, pwad, is_wad, Geometry, geometry, same_format,
}
use pakka.Format.Widths.{geometry-IsRow}
use pakka.Stdio.{fwrite, fseek}
use pakka.Stdio.Reads.{At, fread-At-eq, fread-At-rest}
use pakka.Stdio.Writes.{fwrite-append}
use pakka.Words.{u32_bytes, write_u32_le, read_u32_le-At, length-u32_bytes}
use pakka.Pak.{Pak, header_size, max_entries}
use pakka.Disk.Save.{write_pak_header, header_fields}
use pakka.Disk.Load.{
  settle_format, read_header, check_directory, probe_format, count_entries, load_pak_class,
  load_pakfile, lfh_magic, eocd_magic, spanned_magic,
}

-- The two numbers of the header of a directory of `n` rows at `diroffset`.
abbrev first_number : Format → ℕ → ℕ → ℕ
first_number fmt n diroffset = if is_wad fmt then n else diroffset

abbrev second_number : Format → Geometry → ℕ → ℕ → ℕ
second_number fmt g n diroffset = if is_wad fmt then diroffset else n * g.dir_entry_size

abbrev numbers_bytes : Format → Geometry → ℕ → ℕ → List ℕ
numbers_bytes fmt g n diroffset =
    u32_bytes (first_number fmt n diroffset) ++ u32_bytes (second_number fmt g n diroffset)

abbrev pub header_bytes : Format → Geometry → ℕ → ℕ → List ℕ
header_bytes fmt g n diroffset = g.signature ++ numbers_bytes fmt g n diroffset

-- The hint that names the format settles it from its signature.
settle_format-hint :
    (fmt : Format) (g : Geometry) → geometry fmt ≡ some g → settle_format g.signature fmt ≡ ok fmt
unfolding geometry settle_format same_bytes same_format
settle_format-hint auto g h = cc
settle_format-hint pak g h = ground arith
settle_format-hint pk3 g h = cc
settle_format-hint pk4 g h = cc
settle_format-hint sin g h = ground arith
settle_format-hint daikatana g h = ground arith
settle_format-hint iwad g h = ground arith
settle_format-hint pwad g h = ground arith

-- No signature of the table is one of a ZIP.
signature-ne-zip :
    (fmt : Format) (g : Geometry)
    → geometry fmt ≡ some g
    → (same_bytes g.signature lfh_magic ≡ false)
      × (same_bytes g.signature eocd_magic ≡ false)
      × (same_bytes g.signature spanned_magic ≡ false)
unfolding geometry same_bytes
signature-ne-zip auto g h = cc
signature-ne-zip pak g h = ground arith
signature-ne-zip pk3 g h = cc
signature-ne-zip pk4 g h = cc
signature-ne-zip sin g h = ground arith
signature-ne-zip daikatana g h = ground arith
signature-ne-zip iwad g h = ground arith
signature-ne-zip pwad g h = ground arith

-- A PAK-class format is not AUTO.
not_auto : (fmt : Format) (g : Geometry) → geometry fmt ≡ some g → same_format fmt auto ≡ false
unfolding geometry same_format
not_auto auto g h = cc
not_auto pak g h = refl
not_auto pk3 g h = cc
not_auto pk4 g h = cc
not_auto sin g h = refl
not_auto daikatana g h = refl
not_auto iwad g h = refl
not_auto pwad g h = refl

and_false : (b : Bool) → (b && false) ≡ false
and_false true = refl
and_false false = refl

-- With a hint other than AUTO there is no probe.
probe_format-hint :
    (p : Pak) (g : Geometry)
    → geometry p.format ≡ some g
    → p.format_hint ≡ p.format
    → probe_format p ≡ ok p.format
unfolding probe_format
probe_format-hint p g h e = rw (e, not_auto p.format g h, and_false) refl

-- The second number of a header counts whole rows.
count_rows :
    (fmt : Format) (g : Geometry) (n : ℕ)
    → geometry fmt ≡ some g
    → n * g.dir_entry_size / g.dir_entry_size ≡ n
count_rows fmt g n h = mul-div_cancel n (omega (arith, (geometry-IsRow fmt g h).width))

header_fields-eq :
    (p : Pak) (g : Geometry) (n : ℕ)
    → geometry p.format ≡ some g
    → p.dirlength ≡ n * g.dir_entry_size
    → header_fields p
      ≡ (first_number p.format n p.diroffset, second_number p.format g n p.diroffset)
unfolding header_fields
header_fields-eq p g n h len = elim (Bool-cases (is_wad p.format)) [
  | inl wad ↦ rw (wad, h, len, count_rows p.format g n h) refl
  | inr other ↦ rw (other, len) refl
]

-- The header is written as its bytes.
pub write_pak_header-header_bytes :
    (p : Pak) (g : Geometry) (n : ℕ)
    → geometry p.format ≡ some g
    → p.signature ≡ g.signature
    → p.dirlength ≡ n * g.dir_entry_size
    → write_pak_header p ≡ record p { file = fwrite (header_bytes p.format g n p.diroffset) p.file }
unfolding write_pak_header write_u32_le
write_pak_header-header_bytes p g n h sig len =
    rw (header_fields-eq p g n h len, sig) (simp (fwrite-append, append_assoc))

-- The two numbers of the header are read back.
read_header-next :
    (p : Pak) (g : Geometry) (n d : ℕ) (more : List ℕ)
    → geometry p.format ≡ some g
    → At p.file (numbers_bytes p.format g n d ++ more)
    → n ≤ max_entries
    → d + n * g.dir_entry_size < 2 ^ 32
    → read_header p
      ≡ ok (record p {
        diroffset = d;
        dirlength = n * g.dir_entry_size;
        file = record p.file { pos = p.file.pos + 4 + 4 };
      })
unfolding read_header
read_header-next p g n d more h at few fits =
    let (e1, h1) =
      read_u32_le-At p.file (first_number p.format n d)
        (u32_bytes (second_number p.format g n d) ++ more) (rw append_assoc at at) first_u32 in
    let (e2, h2) =
      read_u32_le-At (record p.file { pos = p.file.pos + 4 }) (second_number p.format g n d) more h1
        second_u32 in
    rw (e1, read_header)
      (rw e2 (elim (Bool-cases (is_wad p.format)) [
        | inl wad ↦ rw (wad, h, read_header) (rw (not_more, small))
        | inr other ↦ rw (other, read_header) refl
      ]))
  where
    first_u32 : IsU32 (first_number p.format n d)
    first_u32 = ground arith

    second_u32 : IsU32 (second_number p.format g n d)
    second_u32 = ground arith

    not_more : ltb max_entries n ≡ false
    not_more = ground arith

    small : n * g.dir_entry_size % 2 ^ 32 ≡ n * g.dir_entry_size
    small = omega arith

check_directory-within :
    (p : Pak)
    → header_size ≤ p.diroffset
    → p.diroffset + p.dirlength ≤ p.file_size
    → check_directory p ≡ ok tt
unfolding check_directory
check_directory-within p low high = ground arith

count_entries-rows :
    (p : Pak) (g : Geometry) (n : ℕ)
    → geometry p.format ≡ some g
    → p.dirlength ≡ n * g.dir_entry_size
    → n ≤ max_entries
    → count_entries p ≡ ok (record p { num_entries = n })
unfolding count_entries
count_entries-rows p g n h len few =
    rw (h, count_entries)
      (rw (len, count_rows p.format g n h, mul-mod_left n g.dir_entry_size) (rw not_more))
  where
    not_more : ltb max_entries n ≡ false
    not_more = ground arith

-- A directory of `n` rows at `d` is found by its header.
pub load_pakfile-header :
    (pk3_open_impl : Pak → Result Pak) (p : Pak) (g : Geometry) (n d : ℕ)
    → geometry p.format_hint ≡ some g
    → At (fseek 0 p.file) (header_bytes p.format_hint g n d)
    → n ≤ max_entries
    → header_size ≤ d
    → d + n * g.dir_entry_size ≤ length p.file.contents
    → d + n * g.dir_entry_size < 2 ^ 32
    → load_pakfile pk3_open_impl p
      ≡ ok (record p {
        format = p.format_hint;
        signature = g.signature;
        diroffset = d;
        dirlength = n * g.dir_entry_size;
        num_entries = n;
        file_size = length p.file.contents;
        file = record p.file { pos = 12 };
      })
unfolding load_pakfile load_pak_class fseek
load_pakfile-header pk3_open_impl p g n d h at few low high fits =
    let fmt = p.format_hint in
    let four : 4 ≡ length g.signature = sym (geometry-IsRow fmt g h).magic in
    let numbers = numbers_bytes fmt g n d in
    let f1 = record p.file { pos = 4 } in
    let q = record p {
      format = fmt;
      signature = g.signature;
      file_size = length p.file.contents;
      file = f1;
    } in
    let at_numbers : At f1 (numbers ++ []) =
      subst (At f1) (sym (append-nil numbers))
        (fread-At-rest (fseek 0 p.file) g.signature numbers 4 at four) in
    let r = record q {
      diroffset = d;
      dirlength = n * g.dir_entry_size;
      file = record p.file { pos = 12 };
    } in
    let (lfh, eocd, spanned) = signature-ne-zip fmt g h in
    rw (fread-At-eq (fseek 0 p.file) g.signature numbers 4 at four, load_pakfile)
      (rw (lfh, eocd, spanned, settle_format-hint fmt g h)
        (rw (read_header-next q g n d [] h at_numbers few fits) (
          rw (check_directory-within r low high)
            (rw (probe_format-hint r g h refl) (count_entries-rows r g n h refl few)))))

pub length-header_bytes :
    (fmt : Format) (g : Geometry) (n d : ℕ)
    → geometry fmt ≡ some g
    → length (header_bytes fmt g n d) ≡ header_size
length-header_bytes fmt g n d h = omega (
  arith,
  (geometry-IsRow fmt g h).magic,
  length-append g.signature (numbers_bytes fmt g n d),
  length-append (u32_bytes (first_number fmt n d)) (u32_bytes (second_number fmt g n d)),
  length-u32_bytes (first_number fmt n d),
  length-u32_bytes (second_number fmt g n d),
)
