-- ===== src/Open/Tests.antt =====
-- Opening a small archive, and inputs at which the theorems apply.
use pakka.Prelude.{
  ℕ, ◌≡◌, ◌≤◌, ◌↔◌, refl, true, false, List, [], ◌∷◌, ◌++◌, length, replicate, none, some, Option,
  All, same_bytes,
}
use pakka.Status.{Result, ok, err, err_unsupported, err_duplicate}
use pakka.Format.{pak, auto, is_wad, is_zip, geometry, pack_magic, same_format}
use pakka.Stdio.{File, fread, fseek}
use pakka.Words.{read_u32_le, u32_value}
use pakka.Pak.{Entry, Pak, on_disk_extent, max_entries}
use pakka.Disk.Rows.{
  load_directory, read_entries, read_entry, read_name_first, c_string, read_compression, in_range,
  raise_end,
}
use pakka.Disk.Probe.{probe_pak_layout, probe_rows, probe_row}
use pakka.Disk.Load.{
  load_pakfile, load_pak_class, settle_format, read_header, check_directory, probe_format, fits_as,
  is_ok, count_entries, allows,
}
use pakka.Disk.RoundTrip.Directory.{IsPlaced}
use pakka.Archive.Find.{Distinct}
use pakka.Archive.Sound.{IsSound}
use pakka.Open.{
  read, pakka_open_ex, new_handle, load_archive, is_writable, is_atomic, validate_no_duplicates,
  any_repeats, repeats, sort, insert, at_most, names_of,
}
use pakka.Open.Accepts.{pakka_open_ex-IsSound}
use pakka.Open.Duplicates.{validate_no_duplicates_lem}

abbrev lump : List ℕ → Entry
lump name = record {
  filename = name;
  offset = 12;
  size = 3;
  pk3_compressed_size = 0;
  pk3_payload_offset = 0;
  pk3_lfh_offset = 0;
  pk3_method = 0;
  crc32 = 0;
  dk_compressed_size = 0;
  dk_is_compressed = false;
  pending = none;
}

abbrev disk : File
disk = record {
  contents =
      (b'P' ∷ b'A' ∷ b'C' ∷ b'K' ∷ 15 ∷ 0 ∷ 0 ∷ 0 ∷ 64 ∷ 0 ∷ 0 ∷ 0 ∷ [])
      ++ (7 ∷ 8 ∷ 9 ∷ b'a' ∷ replicate 55 0)
      ++ (12 ∷ 0 ∷ 0 ∷ 0 ∷ 3 ∷ 0 ∷ 0 ∷ 0 ∷ []);
  pos = 0;
}

-- No ZIP is opened here.
abbrev no_zip : Pak → Result Pak
no_zip p = err err_unsupported

abbrev handle : List Entry → ℕ → Pak
handle entries n = record {
  format = pak;
  signature = pack_magic;
  diroffset = 15;
  dirlength = 64;
  num_entries = n;
  file_size = 79;
  entries = entries;
  payload_end = 15;
  file = record disk { pos = 12 };
  live = true;
  cur_pakpath = [];
  is_new = false;
  writable = false;
  dirty = false;
  needs_rebuild = false;
  atomic_commit = false;
  format_hint = auto;
  pk3_cdr_offset = 0;
  pk3_compression = 0;
  max_decompressed = 67108864;
}

abbrev found : Pak
found = handle (lump (b'a' ∷ []) ∷ []) 1

opens : pakka_open_ex 4096 no_zip (some disk) true [] read auto ≡ ok found
unfolding pakka_open_ex new_handle load_archive is_writable is_atomic validate_no_duplicates
    load_pakfile load_pak_class settle_format allows read_header check_directory probe_format
    fits_as is_ok count_entries probe_pak_layout probe_rows probe_row load_directory read_entries
    read_entry read_name_first c_string read_compression in_range raise_end on_disk_extent
    read_u32_le u32_value fread fseek geometry is_wad is_zip same_format same_bytes
opens = refl

pakka_open_ex-IsSound_example :
    IsSound found
    × (length found.entries ≡ 1)
    × (1 ≤ max_entries)
    × All (IsPlaced pak 15) found.entries
    × (file : File) × (◌≡◌ {A = Option File} (some disk) (some file))
    × (15 ≤ length file.contents)
unfolding is_zip
pakka_open_ex-IsSound_example =
    pakka_open_ex-IsSound no_zip (λ p q h. cc) 4096 (some disk) true [] read auto found opens refl

-- The same name twice is refused.
abbrev twice : Pak
twice = handle (lump (b'b' ∷ []) ∷ lump (b'a' ∷ []) ∷ lump (b'b' ∷ []) ∷ []) 3

twice_refused : validate_no_duplicates twice ≡ err err_duplicate
unfolding validate_no_duplicates any_repeats repeats sort insert at_most names_of is_wad same_bytes
twice_refused = refl

validate_no_duplicates_lem_example :
    (validate_no_duplicates twice ≡ ok tt) ↔ (is_wad pak ≡ false → Distinct twice.entries)
validate_no_duplicates_lem_example = validate_no_duplicates_lem twice refl
