-- ===== src/Disk/Load.antt =====
-- load_pakfile of src/pakfile.c: what kind of archive a file is, and where its directory lies.
use pakka.Prelude.{ℕ, ◌-◌, ◌*◌, ◌/◌, ◌%◌, Bool, true, false, not, ◌&&◌, ◌||◌, none, some}
use pakka.Prelude.{List, [], ◌∷◌, length, ltb, leb, get_or, same_bytes, ◌==◌, if◌then◌else◌, u32}
use pakka.Status.{Result, ok, err, err_format, err_limit, err_io, err_invalid_argument}
use pakka.Status.{err_unsupported, ◌>>=◌, ◌>>◌, refuse_if}
use pakka.Format.{Format, auto, sin, daikatana, is_wad, geometry}
use pakka.Format.{same_format, pack_magic, spak_magic, iwad_magic, pwad_magic}
use pakka.Stdio.{fseek, fread}
use pakka.Words.{read_u32_le}
use pakka.Pak.{Pak, header_size, max_entries}
use pakka.Disk.Rows.{or_fail}
use pakka.Disk.Probe.{probe_pak_layout}

-- The condition of pakka_zip_format_from_path.
unfoldable pub ends_in_pk4 : List ℕ → Bool
ends_in_pk4 path =
    let n = length path in
    leb 4 n
    && ((get_or path (n - 4) 0 == b'.')
        && (((get_or path (n - 3) 0 == b'p') || (get_or path (n - 3) 0 == b'P'))
            && (((get_or path (n - 2) 0 == b'k') || (get_or path (n - 2) 0 == b'K'))
                && (get_or path (n - 1) 0 == b'4'))))

unfoldable pub zip_format_from_path : List ℕ → Format
unfolding ends_in_pk4
zip_format_from_path path = if ends_in_pk4 path then Format.pk4 else Format.pk3

abbrev pub lfh_magic : List ℕ
lfh_magic = b'P' ∷ b'K' ∷ 3 ∷ 4 ∷ []

abbrev pub eocd_magic : List ℕ
eocd_magic = b'P' ∷ b'K' ∷ 5 ∷ 6 ∷ []

abbrev pub spanned_magic : List ℕ
spanned_magic = b'P' ∷ b'K' ∷ 7 ∷ 8 ∷ []

-- The hint is AUTO or the format given.
unfoldable pub allows : Format → Format → Bool
allows hint fmt = same_format hint auto || same_format hint fmt

-- The format that the signature and the hint settle; for PACK it is provisional.
unfoldable pub settle_format : List ℕ → Format → Result Format
unfolding allows
settle_format sig hint =
    if same_bytes sig spak_magic
    then (do refuse_if (not (allows hint sin)) err_invalid_argument; ok sin)
    else if same_bytes sig pack_magic
    then (do
      refuse_if (not (allows hint Format.pak || same_format hint daikatana)) err_invalid_argument
      ok (if same_format hint daikatana then daikatana else Format.pak))
    else if same_bytes sig iwad_magic
    then (do refuse_if (not (allows hint Format.iwad)) err_invalid_argument; ok Format.iwad)
    else if same_bytes sig pwad_magic
    then (do refuse_if (not (allows hint Format.pwad)) err_invalid_argument; ok Format.pwad)
    else err err_format

-- diroffset and dirlength, from the two numbers in the header in the order of the format.
unfoldable pub read_header : Pak → Result Pak
read_header p = do
  (first, f1) ← or_fail err_io (read_u32_le p.file)
  (second, f2) ← or_fail err_io (read_u32_le f1)
  if is_wad p.format
      then (do
        refuse_if (ltb max_entries first) err_limit
        ok (record p {
          dirlength =
              u32 (first * elim (geometry p.format) [ none ↦ 0 | some g ↦ g.dir_entry_size ]);
          diroffset = second;
          file = f2;
        }))
      else ok (record p { diroffset = first; dirlength = second; file = f2 })

unfoldable pub is_ok : Result (Unit {0}) → Bool
is_ok (ok _) = true
is_ok (err _) = false

-- `probe_pak_layout(pak, pakka_pak_geometry(fmt)) == PAKKA_OK`
unfoldable pub fits_as : Pak → Format → Bool
unfolding is_ok
fits_as p fmt = elim (geometry fmt) [ none ↦ false | some g ↦ is_ok (probe_pak_layout p g) ]

-- The probe between Quake and Daikatana rows, where the hint leaves the choice.
unfoldable pub probe_format : Pak → Result Format
unfolding fits_as
probe_format p =
    if (same_format p.format Format.pak || same_format p.format daikatana)
      && same_format p.format_hint auto
    then (if p.dirlength == 0
        then ok Format.pak
        else if fits_as p Format.pak && fits_as p daikatana
        then err err_format
        else if fits_as p Format.pak
        then ok Format.pak
        else if fits_as p daikatana
        then ok daikatana
        else err err_format)
    else ok p.format

-- The directory lies behind the header and within the file.
unfoldable pub check_directory : Pak → Result (Unit {0})
check_directory p = do
  refuse_if (ltb p.diroffset header_size) err_format
  refuse_if (ltb p.file_size p.dirlength || ltb (p.file_size - p.dirlength) p.diroffset) err_format

unfoldable pub count_entries : Pak → Result Pak
count_entries p = elim (geometry p.format) [
  | none ↦ err err_format
  | some g ↦ do
    refuse_if (not (p.dirlength % g.dir_entry_size == 0)) err_format
    refuse_if (ltb max_entries (p.dirlength / g.dir_entry_size)) err_limit
    ok (record p { num_entries = p.dirlength / g.dir_entry_size })
]

-- What load_pakfile does behind a PAK-class signature.
unfoldable pub load_pak_class : Pak → Result Pak
load_pak_class p = do
  fmt ← settle_format p.signature p.format_hint
  q ← read_header (record p { format = fmt })
  check_directory q
  fmt' ← probe_format q
  count_entries (record q { format = fmt' })

-- What it does behind a ZIP signature. `pk3_open_impl` is pakka_pk3_open_impl of src/pk3file.c.
unfoldable pub load_zip_class : (Pak → Result Pak) → Pak → Result Pak
unfolding allows
load_zip_class pk3_open_impl p =
    if not (allows p.format_hint Format.pk3 || same_format p.format_hint Format.pk4)
    then err err_invalid_argument
    else pk3_open_impl (record p {
      format =
          if same_format p.format_hint auto
          then zip_format_from_path p.cur_pakpath
          else p.format_hint;
    })

unfoldable pub load_pakfile : (Pak → Result Pak) → Pak → Result Pak
load_pakfile pk3_open_impl p = do
  (sig, f) ← or_fail err_io (fread 4 (fseek 0 p.file))
  let q = record p { file_size = length p.file.contents; signature = sig; file = f }
  if same_bytes sig lfh_magic || same_bytes sig eocd_magic
      then load_zip_class pk3_open_impl q
      else if same_bytes sig spanned_magic
      then err err_unsupported
      else load_pak_class q
