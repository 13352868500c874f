-- ===== src/Zip/Tests.antt =====
-- Runs of src/pk3file.c.
use pakka.Prelude.{ℕ, ◌<◌, ◌≡◌, refl, inl, arith, Bool, true, false, none, some, All, IsByte}
use pakka.Prelude.{List, [], ◌∷◌, length, inr, Bool-cases, ltb, same_bytes, if◌then◌else◌}
use pakka.Status.{Result, ok, err, err_io, err_unsupported}
use pakka.Format.{Format, is_wad, is_zip, same_format}
use pakka.Stdio.{File, fseek, fread}
use pakka.Stdio.Fronts.{read_at}
use pakka.Pak.{Entry, Pak, memory, on_disk_extent}
use pakka.Archive.Add.{write_payload}
use pakka.Archive.AddFile.{Source}
use pakka.Archive.Find.{Distinct}
use pakka.Open.{
  is_atomic, is_writable, load_archive, new_handle, pakka_open_ex, read, read_write,
  validate_no_duplicates,
}
use pakka.Disk.Load.{allows, ends_in_pk4, load_pakfile, load_zip_class, zip_format_from_path}
use pakka.Zip.Opened.{pakka_open_ex-IsLoadedZip}
use pakka.Crc.{crc32_update, crc32_table}
use pakka.Words.{u32_bytes, u32_value}
use pakka.Utf8.{is_valid_utf8, valid_loop, valid_step, advance_two}
use pakka.Commit.View.{payload_of}
use pakka.Zip.Records.{method_stored, build_eocd, u16_bytes, u16_value, read_u16, read_u32}
use pakka.Zip.Eocd.{is_eocd, scan_back, scan_tail, find_eocd, validate_eocd, check_eocd}
use pakka.Zip.Names.{
  cp437_high, decode_entry_name, decoded, decode_cp437, decode_byte, utf8_encode_bmp,
}
use pakka.Zip.Names.Valid.{decode_entry_name-valid}
use pakka.Zip.Directory.{
  cdr_fields, check_fields, check_lfh, check_name, has_control, is_directory, load_cdr, load_rows,
  named_entry, new_zip_entry, pakka_pk3_open_impl, payload_start, read_rows, validate_cdr_record,
  validate_lfh, validate_lfhs,
}
use pakka.Zip.Directory.Accepts.{IsLoadedZip, pakka_pk3_open_impl-IsLoadedZip}
use pakka.Zip.Directory.Refused.{pakka_pk3_open_impl-full}
use pakka.Zip.Commit.{
  ZipHost, pakka_pk3_commit_impl, cdrs_size, name_length, rebuild_zip, write_members,
  write_zip_payload, check_total, publish_zip, moved, finish_zip, save_zip_layout, places_of,
  pk3_rebuild_rollback_offsets, rollback_offsets,
}
use pakka.Zip.Commit.Rebuilt.{
  Succeeds, IsPublishable, Republished, pakka_pk3_commit_impl-republishes,
}
use pakka.Zip.Commit.Errors.{IsRolledBack, pakka_pk3_commit_impl-err}
use pakka.Zip.Built.{IsZipEntry}

abbrev no_source : List ℕ → Source
no_source path = record { path = path; is_link = false; lstat = none; st_size = 0; fopen = none }

abbrev calm : ZipHost
calm = record {
  source_at = no_source;
  mkstemp = true;
  fflush = true;
  fclose_tmp = true;
  fclose_orig = true;
  rename = true;
  reopen = true;
  ftruncate = true;
}

abbrev staged : Entry
staged = record {
  filename = b'a' ∷ b'b' ∷ [];
  offset = 0;
  size = 3;
  pk3_compressed_size = 3;
  pk3_payload_offset = 0;
  pk3_lfh_offset = 0;
  pk3_method = method_stored;
  crc32 = crc32_update 0 (7 ∷ 8 ∷ 9 ∷ []);
  dk_compressed_size = 0;
  dk_is_compressed = false;
  pending = some (memory (7 ∷ 8 ∷ 9 ∷ []));
}

abbrev accented : Entry
accented = record staged {
  filename = 0xc3 ∷ 0xa9 ∷ [];
  size = 0;
  pk3_compressed_size = 0;
  crc32 = 0;
  pending = some (memory []);
}

abbrev empty_file : File
empty_file = record { contents = []; pos = 0 }

abbrev two_staged : Pak
two_staged = record (new_handle [] read_write Format.pk3 empty_file) {
  format = Format.pk3;
  num_entries = 2;
  entries = staged ∷ accented ∷ [];
  dirty = true;
  needs_rebuild = true;
}

abbrev committed : Pak
committed = (pakka_pk3_commit_impl calm two_staged).0

abbrev reopened : Result Pak
reopened = pakka_pk3_open_impl (record two_staged {
  entries = [];
  file = committed.file;
  file_size = length committed.file.contents;
})

-- The archive that was committed shows the same when it is opened.
staged-IsZipEntry : IsZipEntry staged
unfolding is_valid_utf8 valid_loop valid_step has_control crc32_update crc32_table
staged-IsZipEntry = record {
  method = inl (refl, refl);
  crc = omega (arith, crc_known);
  csize = omega arith;
  usize = omega arith;
  nonempty = omega arith;
  short = omega arith;
  utf8 = refl;
  printable = refl;
  no_directory = refl;
}
  where
    crc_known : staged.crc32 ≡ 1259076923
    crc_known = refl

accented-IsZipEntry : IsZipEntry accented
unfolding is_valid_utf8 valid_loop valid_step advance_two has_control
accented-IsZipEntry = record {
  method = inl (refl, refl);
  crc = omega arith;
  csize = omega arith;
  usize = omega arith;
  nonempty = omega arith;
  short = omega arith;
  utf8 = refl;
  printable = refl;
  no_directory = refl;
}

two-IsPublishable : IsPublishable calm two_staged
unfolding cdrs_size name_length payload_of on_disk_extent
two-IsPublishable = record {
  dirty = refl;
  rebuild = refl;
  counted = refl;
  few = omega arith;
  entries = (staged-IsZipEntry, (accented-IsZipEntry, tt));
  readable = (
    record { bytes = 7 ∷ 8 ∷ 9 ∷ []; there = refl; extent = refl; staged = tt },
    (record { bytes = []; there = refl; extent = refl; staged = tt }, tt),
  );
  fits = omega arith;
}

all_well : Succeeds calm
all_well = record {
  mkstemp = refl;
  fflush = refl;
  fclose_tmp = refl;
  fclose_orig = refl;
  rename = refl;
  reopen = refl;
}

pakka_pk3_commit_impl-republishes_example :
    (q : Pak) × (pakka_pk3_commit_impl calm two_staged ≡ (q, ok tt))
    × Republished calm two_staged two_staged q
pakka_pk3_commit_impl-republishes_example =
    pakka_pk3_commit_impl-republishes calm two_staged two_staged all_well two-IsPublishable

decoded_here : decode_entry_name (b'r' ∷ 0x82 ∷ []) 0 256 ≡ decoded (b'r' ∷ 0xc3 ∷ 0xa9 ∷ [])
unfolding decode_entry_name decode_cp437 decode_byte utf8_encode_bmp cp437_high is_valid_utf8
    valid_loop valid_step
decoded_here = refl

-- The second byte of CP437 above ASCII.
decode_entry_name-valid_example : (is_valid_utf8 (b'r' ∷ 0xc3 ∷ 0xa9 ∷ []) ≡ true) × (3 < 256)
decode_entry_name-valid_example =
    decode_entry_name-valid (b'r' ∷ 0x82 ∷ []) 0 256 (b'r' ∷ 0xc3 ∷ 0xa9 ∷ [])
      (omega arith, (omega arith, tt)) decoded_here

-- An archive of one stored entry of one byte.
abbrev one_byte_zip : List ℕ
one_byte_zip =
    80 ∷ 75 ∷ 3 ∷ 4 ∷ 20 ∷ 0 ∷ 0 ∷ 0 ∷ 0 ∷ 0 ∷ 0 ∷ 0 ∷ 33 ∷ 0 ∷ 0 ∷ 0 ∷ 0 ∷ 0 ∷ 1 ∷ 0 ∷ 0 ∷ 0 ∷ 1
    ∷ 0 ∷ 0 ∷ 0 ∷ 1 ∷ 0 ∷ 0 ∷ 0 ∷ 97 ∷ 7 ∷ 80 ∷ 75 ∷ 1 ∷ 2 ∷ 20 ∷ 0 ∷ 20 ∷ 0 ∷ 0 ∷ 0 ∷ 0 ∷ 0 ∷ 0 ∷ 0
    ∷ 33 ∷ 0 ∷ 0 ∷ 0 ∷ 0 ∷ 0 ∷ 1 ∷ 0 ∷ 0 ∷ 0 ∷ 1 ∷ 0 ∷ 0 ∷ 0 ∷ 1 ∷ 0 ∷ 0 ∷ 0 ∷ 0 ∷ 0 ∷ 0 ∷ 0 ∷ 0 ∷ 0
    ∷ 0 ∷ 0 ∷ 0 ∷ 0 ∷ 0 ∷ 0 ∷ 0 ∷ 0 ∷ 97 ∷ 80 ∷ 75 ∷ 5 ∷ 6 ∷ 0 ∷ 0 ∷ 0 ∷ 0 ∷ 1 ∷ 0 ∷ 1 ∷ 0 ∷ 47 ∷ 0
    ∷ 0 ∷ 0 ∷ 32 ∷ 0 ∷ 0 ∷ 0 ∷ 0 ∷ 0 ∷ []

abbrev small_zip : Pak
small_zip = record two_staged {
  entries = [];
  num_entries = 0;
  file = record { contents = one_byte_zip; pos = 0 };
  file_size = length one_byte_zip;
}

abbrev small_loaded : Pak
small_loaded = record small_zip {
  entries =
      record staged {
        filename = b'a' ∷ [];
        offset = 31;
        size = 1;
        pk3_compressed_size = 1;
        pk3_payload_offset = 31;
        crc32 = 0;
        pending = none;
      }
      ∷ [];
  num_entries = 1;
  pk3_cdr_offset = 32;
}

small_opens : pakka_pk3_open_impl small_zip ≡ ok small_loaded
unfolding pakka_pk3_open_impl find_eocd scan_tail scan_back is_eocd read_at fread fseek same_bytes
    read_u16 u16_value read_u32 u32_value validate_eocd check_eocd load_cdr load_rows read_rows
    validate_cdr_record cdr_fields check_fields check_name is_directory has_control named_entry
    decode_entry_name is_valid_utf8 valid_loop valid_step new_zip_entry validate_lfhs validate_lfh
    check_lfh payload_start new_handle
small_opens = refl

all_bytes : List ℕ → Bool
all_bytes [] = true
all_bytes (b ∷ bs) = let rest = all_bytes bs in if ltb b 256 then rest else false

all_bytes-IsByte : (bs : List ℕ) → all_bytes bs ≡ true → All IsByte bs
unfolding all_bytes
all_bytes-IsByte [] h = tt
all_bytes-IsByte (b ∷ bs) h = elim (Bool-cases (ltb b 256)) [
  | inl small ↦ (ground arith, all_bytes-IsByte bs (rw (small, all_bytes) at h))
  | inr big ↦ let bad = rw (big, all_bytes) at h in cc
]

bytes_known : All IsByte one_byte_zip
unfolding all_bytes
bytes_known = all_bytes-IsByte one_byte_zip refl

pakka_pk3_open_impl-IsLoadedZip_example : IsLoadedZip small_loaded
pakka_pk3_open_impl-IsLoadedZip_example =
    pakka_pk3_open_impl-IsLoadedZip small_zip small_loaded refl refl bytes_known small_opens

abbrev full_zip : Pak
full_zip = record two_staged {
  file = record { contents = build_eocd 0 0 0xffff; pos = 0 };
  file_size = 22;
}

pakka_pk3_open_impl-full_example : pakka_pk3_open_impl full_zip ≡ err err_unsupported
unfolding build_eocd u16_bytes u32_bytes
pakka_pk3_open_impl-full_example = pakka_pk3_open_impl-full full_zip [] 0 0 refl refl

-- The rename fails, and the archive is opened again.
abbrev stuck : ZipHost
stuck = record calm { rename = false }

stuck_fails : pakka_pk3_commit_impl stuck two_staged ≡ (two_staged, err err_io)
unfolding pakka_pk3_commit_impl rebuild_zip finish_zip write_members write_zip_payload check_total
    publish_zip save_zip_layout places_of pk3_rebuild_rollback_offsets rollback_offsets name_length
    moved write_payload new_handle
stuck_fails = refl

pakka_pk3_commit_impl-err_example : IsRolledBack stuck two_staged two_staged
pakka_pk3_commit_impl-err_example =
    pakka_pk3_commit_impl-err stuck two_staged two_staged err_io (λ bad. cc) refl stuck_fails

-- The same file through pakka_open_ex.
abbrev opened_zip : Pak
opened_zip = record small_loaded {
  format = Format.pk3;
  signature = b'P' ∷ b'K' ∷ 3 ∷ 4 ∷ [];
  file = record { contents = one_byte_zip; pos = 4 };
  writable = false;
  dirty = false;
  needs_rebuild = false;
  format_hint = Format.auto;
}

zip_opens :
    pakka_open_ex 4096 pakka_pk3_open_impl (some small_zip.file) true [] read Format.auto
    ≡ ok opened_zip
unfolding pakka_open_ex load_archive is_writable is_atomic validate_no_duplicates load_pakfile
    load_zip_class zip_format_from_path ends_in_pk4 allows same_format is_zip is_wad
    pakka_pk3_open_impl find_eocd scan_tail scan_back is_eocd read_at fread fseek same_bytes
    read_u16 u16_value read_u32 u32_value validate_eocd check_eocd load_cdr load_rows read_rows
    validate_cdr_record cdr_fields check_fields check_name is_directory has_control named_entry
    decode_entry_name is_valid_utf8 valid_loop valid_step new_zip_entry validate_lfhs validate_lfh
    check_lfh payload_start new_handle
zip_opens = refl

pakka_open_ex-IsLoadedZip_example : IsLoadedZip opened_zip × Distinct opened_zip.entries
unfolding is_zip
pakka_open_ex-IsLoadedZip_example =
    pakka_open_ex-IsLoadedZip 4096 small_zip.file true [] read Format.auto opened_zip bytes_known
      zip_opens refl
