-- ===== src/Zip/Commit/Opened.antt =====
-- A file that ends with the directory that src/pk3file.c writes, opened by pakka_pk3_open_impl.
use pakka.Prelude.{ℕ, ◌+◌, ◌*◌, ◌-◌, ◌≤◌, ◌<◌, ◌≡◌, refl, sym, ap, ◌∙◌, arith, false}
use pakka.Prelude.{some, List, [], ◌∷◌, ◌++◌, append-nil, append_assoc, length, length-append}
use pakka.Prelude.{All, u16, u32, ltb, ◌==◌}
use mathlib.Core.Path.{subst}
use pakka.Status.{ok}
use pakka.Stdio.{File, fseek}
use pakka.Stdio.Reads.{At}
use pakka.Stdio.Fronts.{At-read_at}
use pakka.Pak.{Entry, Pak, uint32_max}
use pakka.Words.{u32_bytes}
use pakka.Zip.Records.{u16_bytes, build_eocd, pk3_eocd_size}
use pakka.Zip.Eocd.{Eocd, find_eocd, validate_eocd}
use pakka.Zip.Directory.{
  pakka_pk3_open_impl, load_cdr, load_rows, max_cdr_size, default_max_decompressed,
}
use pakka.Zip.Commit.{cdrs_size}
use pakka.Zip.Built.Local.{check_eocd-build_eocd}
use pakka.Zip.Built.End.{find_eocd-build_eocd}
use pakka.Zip.Built.Rows.{
  cdrs_bytes, all_reopened, IsRow, length-cdrs_bytes, cdrs_size_bound, read_rows-cdrs_bytes,
  HasHeader, validate_lfhs-all_listed,
}

-- A file that ends with a directory of rows at an offset, and its end record.
pub record HasDirectory (f : File) (cdr_offset : ℕ) (es : List Entry) : Type 0 where
  pub payloads : List ℕ
  pub contents :
      f.contents
      ≡ payloads ++ (cdrs_bytes es ++ build_eocd cdr_offset (u32 (cdrs_size es)) (u16 (length es)))
  pub place : length payloads ≡ cdr_offset
  pub rows : All IsRow es
  pub headers : All (HasHeader f cdr_offset) es
  pub few : length es < 0xffff
  pub fits : cdr_offset + cdrs_size es + pk3_eocd_size ≤ uint32_max

-- What pakka_open_ex hands to the loader: no entries yet, the file and its size.
abbrev pub fresh : Pak → File → Pak
fresh p0 f = record p0 { entries = []; num_entries = 0; file = f; file_size = length f.contents }

abbrev opening : Pak → File → ℕ → Pak
opening p0 f cdr_offset = record (fresh p0 f) {
  max_decompressed = default_max_decompressed;
  pk3_cdr_offset = cdr_offset;
}

abbrev pub loaded_zip : Pak → File → ℕ → List Entry → Pak
loaded_zip p0 f cdr_offset es = record (fresh p0 f) {
  entries = all_reopened es;
  num_entries = length es;
  max_decompressed = default_max_decompressed;
  pk3_cdr_offset = cdr_offset;
}

module _ (p0 : Pak) (f : File) (cdr_offset : ℕ) (es : List Entry)
    (d : HasDirectory f cdr_offset es) where
  abbrev size : ℕ
  size = cdrs_size es

  abbrev eocd_record : Eocd
  eocd_record = record { cdr_offset = cdr_offset; cdr_size = size; entry_count = length es }

  bound : size ≤ length es * 302
  bound = cdrs_size_bound es d.rows

  whole_size : u32 size ≡ size
  whole_size = omega (arith, d.fits)

  whole_count : u16 (length es) ≡ length es
  whole_count = omega (arith, d.few)

  abbrev eocd : List ℕ
  eocd = build_eocd cdr_offset (u32 size) (u16 (length es))

  eocd_offset : length (d.payloads ++ cdrs_bytes es) ≡ cdr_offset + size
  eocd_offset =
      omega (arith, length-append d.payloads (cdrs_bytes es), length-cdrs_bytes es d.rows, d.place)

  found : f.contents ≡ (d.payloads ++ cdrs_bytes es) ++ eocd
  found = d.contents ∙ sym (append_assoc d.payloads (cdrs_bytes es) eocd)

  eocd_long : pk3_eocd_size ≡ length eocd
  unfolding build_eocd u16_bytes u32_bytes
  eocd_long = refl

  pub length-contents : length f.contents ≡ cdr_offset + u32 size + pk3_eocd_size
  length-contents = omega (
    arith,
    ap (λ t. length t) found,
    length-append (d.payloads ++ cdrs_bytes es) eocd,
    eocd_offset,
    whole_size,
    eocd_long,
  )

  eocd_at : At (fseek (cdr_offset + size) f) eocd
  unfolding fseek
  eocd_at = record {
    before = d.payloads ++ cdrs_bytes es;
    behind = [];
    split = found ∙ ap (λ t. (d.payloads ++ cdrs_bytes es) ++ t) (sym (append-nil eocd));
    place = eocd_offset;
  }

  cdrs_at : At (fseek cdr_offset f) (cdrs_bytes es)
  unfolding fseek
  cdrs_at = record { before = d.payloads; behind = eocd; split = d.contents; place = d.place }

  eocd_valid : validate_eocd f (cdr_offset + size) ≡ ok eocd_record
  unfolding validate_eocd
  eocd_valid =
      rw (At-read_at (cdr_offset + size) pk3_eocd_size f eocd eocd_at eocd_long, validate_eocd)
        (rw (whole_size, whole_count)
          (check_eocd-build_eocd size cdr_offset (length es) (omega (arith, d.fits))
            (omega (arith, d.fits)) d.few (cdr_offset + size) (omega arith)))

  rows_loaded :
      (pak : Pak)
      → pak.file ≡ f
      → pak.pk3_cdr_offset ≡ cdr_offset
      → load_rows pak eocd_record (cdrs_bytes es)
        ≡ ok (record pak { entries = all_reopened es; num_entries = length es })
  unfolding load_rows
  rows_loaded pak file at =
      let n : u32 (length es - 0) ≡ length es = omega (arith, d.few) in
      rw (read_rows-cdrs_bytes es [] d.rows, file, at, load_rows)
        (rw (validate_lfhs-all_listed f cdr_offset es d.headers (omega (arith, d.fits)), n) refl)

-- Loading such a directory, empty or not.
cdr_loaded :
    (p0 : Pak) (f : File) (cdr_offset : ℕ) (es : List Entry)
    → HasDirectory f cdr_offset es
    → load_cdr
        (opening p0 f cdr_offset)
        (record { cdr_offset = cdr_offset; cdr_size = cdrs_size es; entry_count = length es })
      ≡ ok (loaded_zip p0 f cdr_offset es)
unfolding load_cdr cdrs_size
cdr_loaded p0 f cdr_offset [] d = refl
cdr_loaded p0 f cdr_offset (e ∷ es) d =
    let all = e ∷ es in
    let some_rows : (length all == 0) ≡ false = ground arith in
    let some_bytes : (cdrs_size all == 0) ≡ false = ground arith in
    let small : ltb max_cdr_size (cdrs_size all) ≡ false =
      ground (arith, cdrs_size_bound all d.rows, d.few) in
    let read =
      At-read_at cdr_offset (cdrs_size all) f (cdrs_bytes all) (cdrs_at p0 f cdr_offset all d)
        (sym (length-cdrs_bytes all d.rows)) in
    rw (some_rows, some_bytes, small, load_cdr)
      (rw read (rows_loaded p0 f cdr_offset all d (opening p0 f cdr_offset) refl refl))

-- An archive whose file ends so is opened.
pub open_lem :
    (p0 : Pak) (f : File) (cdr_offset : ℕ) (es : List Entry)
    → HasDirectory f cdr_offset es
    → pakka_pk3_open_impl (fresh p0 f) ≡ ok (loaded_zip p0 f cdr_offset es)
unfolding pakka_pk3_open_impl
open_lem p0 f cdr_offset es d =
    let found =
      subst (λ (t : ℕ). find_eocd f (length f.contents) ≡ some t) (eocd_offset p0 f cdr_offset es d)
        (find_eocd-build_eocd f (d.payloads ++ cdrs_bytes es) cdr_offset (u32 (cdrs_size es))
          (u16 (length es)) (found p0 f cdr_offset es d)) in
    rw (found, pakka_pk3_open_impl)
      (rw (eocd_valid p0 f cdr_offset es d) (cdr_loaded p0 f cdr_offset es d))
