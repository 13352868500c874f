-- ===== src/Zip/Built/Rows.antt =====
-- The directory that src/pk3file.c writes, as pk3_load_cdr reads it.
use pakka.Prelude.{ℕ, ◌+◌, ◌≤◌, ◌<◌, ◌≡◌, refl, sym, ap, ◌∙◌, arith, List, [], ◌∷◌}
use pakka.Prelude.{
  ◌++◌, append-nil, append_assoc, length, length-take, length-append, drop, drop-append, All, ◌-◌,
}
use pakka.Prelude.{◌^◌, take, ◌*◌}
use pakka.Status.{ok}
use pakka.Stdio.{File, fseek, fwrite}
use pakka.Stdio.Reads.{At}
use pakka.Stdio.Writes.{fwrite-append}
use pakka.Pak.{Entry, uint32_max}
use pakka.Words.{u32_bytes}
use pakka.Zip.Records.{u16_bytes, build_cdr}
use pakka.Zip.Directory.{read_rows, validate_lfhs, extent, new_zip_entry}
use pakka.Zip.Commit.{write_cdrs, cdrs_size, name_length}
use pakka.Zip.Built.{
  IsZipEntry, cdr_bytes, listed_record, name_length_lem, validate_cdr_record-cdr_bytes,
  named_entry-cdr_bytes,
}
use pakka.Zip.Built.Local.{lfh_of, listed, start_of, validate_lfh-lfh_of}

abbrev pub cdrs_bytes : List Entry → List ℕ
cdrs_bytes [] = []
cdrs_bytes (e ∷ es) = cdr_bytes e ++ cdrs_bytes es

abbrev pub all_listed : List Entry → List Entry
all_listed [] = []
all_listed (e ∷ es) = listed e ∷ all_listed es

-- What the entry is after the second pass.
abbrev pub reopened : Entry → Entry
reopened e = record (listed e) { pk3_payload_offset = start_of e; offset = start_of e }

abbrev pub all_reopened : List Entry → List Entry
all_reopened [] = []
all_reopened (e ∷ es) = reopened e ∷ all_reopened es

-- The loop writes the records one behind the other.
pub write_cdrs_lem :
    (es : List Entry) (a : List ℕ) (f : File)
    → write_cdrs es (fwrite a f) ≡ fwrite (a ++ cdrs_bytes es) f
unfolding write_cdrs
write_cdrs_lem [] a f = ap (λ t. fwrite t f) (sym (append-nil a))
write_cdrs_lem (e ∷ es) a f =
    let name = take (name_length e) e.filename in
    let fields =
      build_cdr e.pk3_method e.crc32 e.pk3_compressed_size e.size e.filename (name_length e)
        e.pk3_lfh_offset in
    ap (λ t. write_cdrs es (fwrite name t)) (fwrite-append a fields f)
    ∙ ap (λ t. write_cdrs es t) (fwrite-append (a ++ fields) name f)
    ∙ write_cdrs_lem es ((a ++ fields) ++ name) f
    ∙ ap (λ t. fwrite t f)
        (append_assoc (a ++ fields) name (cdrs_bytes es)
          ∙ append_assoc a fields (name ++ cdrs_bytes es)
          ∙ ap (λ t. a ++ t) (sym (append_assoc fields name (cdrs_bytes es))))

length-cdr_bytes : (e : Entry) → IsZipEntry e → length (cdr_bytes e) ≡ 46 + length e.filename
unfolding build_cdr u16_bytes u32_bytes
length-cdr_bytes e z = omega (arith, name_length_lem e z, length-take (name_length e) e.filename)

-- A record that can be read, with its offset.
abbrev pub IsRow : Entry → Type 0
IsRow e = IsZipEntry e × (e.pk3_lfh_offset < 2 ^ 32 - 1)

pub length-cdrs_bytes : (es : List Entry) → All IsRow es → length (cdrs_bytes es) ≡ cdrs_size es
unfolding cdrs_size
length-cdrs_bytes [] h = refl
length-cdrs_bytes (e ∷ es) h = omega (
  arith,
  length-append (cdr_bytes e) (cdrs_bytes es),
  length-cdr_bytes e h.0.0,
  name_length_lem e h.0.0,
  length-cdrs_bytes es h.1,
)

pub cdrs_size_bound : (es : List Entry) → All IsRow es → cdrs_size es ≤ length es * 302
unfolding cdrs_size
cdrs_size_bound [] h = omega arith
cdrs_size_bound (e ∷ es) h =
    omega (arith, name_length_lem e h.0.0, h.0.0.short, cdrs_size_bound es h.1)

pub read_rows-cdrs_bytes :
    (es acc : List Entry)
    → All IsRow es
    → read_rows (length es) (record { entries = acc; skipped_dirs = 0; left = cdrs_bytes es })
      ≡ ok (record { entries = acc ++ all_listed es; skipped_dirs = 0; left = [] })
unfolding read_rows
read_rows-cdrs_bytes [] acc h = rw (append-nil acc) refl
read_rows-cdrs_bytes (e ∷ es) acc h =
    let here : drop (extent (listed_record e)) (cdr_bytes e ++ cdrs_bytes es) ≡ cdrs_bytes es =
      let long : extent (listed_record e) ≡ length (cdr_bytes e) =
        omega (arith, length-cdr_bytes e h.0.0) in
      rw long (drop-append (cdr_bytes e) (cdrs_bytes es)) in
    rw (validate_cdr_record-cdr_bytes e h.0.0 h.0.1 (cdrs_bytes es), read_rows)
      (rw (named_entry-cdr_bytes e h.0.0 h.0.1 (cdrs_bytes es)) (
        rw here (
          read_rows-cdrs_bytes es (acc ++ listed e ∷ []) h.1
          ∙ rw (append_assoc acc (listed e ∷ []) (all_listed es)) refl)))

-- Every entry has its local header in the file, and its payload before the directory.
abbrev pub HasHeader : File → ℕ → Entry → Type 0
HasHeader f cdr_offset e =
    IsZipEntry e
    × At (fseek e.pk3_lfh_offset f) (lfh_of e)
    × (start_of e + e.pk3_compressed_size ≤ cdr_offset)

pub validate_lfhs-all_listed :
    (f : File) (cdr_offset : ℕ) (es : List Entry)
    → All (HasHeader f cdr_offset) es
    → cdr_offset ≤ uint32_max
    → validate_lfhs f cdr_offset (all_listed es) ≡ ok (all_reopened es)
unfolding validate_lfhs new_zip_entry
validate_lfhs-all_listed f cdr_offset [] h small = refl
validate_lfhs-all_listed f cdr_offset (e ∷ es) h small =
    let (z, at, fits) = h.0 in
    rw (validate_lfh-lfh_of e z f cdr_offset at fits small, validate_lfhs)
      (rw (validate_lfhs-all_listed f cdr_offset es h.1 small) refl)
