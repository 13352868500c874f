-- ===== src/Archive/Tests.antt =====
-- Tests of the changes to a handle and inputs at which the theorems about them apply.
use pakka.Prelude.{
  ℕ, suc, ◌≡◌, ◌≢◌, refl, arith, true, false, List, [], ◌∷◌, length, none, some, replicate, ◌++◌,
  same_bytes, ap, get_or,
}
use pakka.Status.{Result, ok, err, err_unsupported}
use pakka.Format.{pak, is_wad, is_zip, geometry, pack_magic, same_format}
use pakka.Stdio.{fwrite, fseek}
use pakka.Pak.{Entry, Pak, on_disk_extent}
use pakka.Names.{
  unsafe_entry_name, scan_segments, is_separator, is_unsafe_segment, has_bad_byte, last_byte,
  is_reserved_device_name, base, any_folds, win_reserved_names, folds_to, upper,
}
use pakka.Archive.{find_entry, pak_add_preflight, pak_entry_name_cap, not_editable, link_entry}
use pakka.Archive.Edit.{
  unlink_first, pakka_delete, rename_first, pakka_rename, duplicate, pakka_copy,
}
use pakka.Archive.Add.{
  pakka_add_memory, append_payload, new_entry, try_encode, wants_encoding, physical, write_payload,
}
use pakka.Archive.AddFile.{
  Source, pakka_add_file, pak_add_source_preflight, append_file, append_source, was_read,
  copy_chunks,
}
use pakka.Archive.FileStored.{FileAdded, pakka_add_file-FileAdded}
use pakka.Archive.Sound.{IsSound, SameBut, pakka_delete-IsSound, pakka_rename-IsSound}
use pakka.Archive.Growth.{IsCopy, pakka_copy-IsSound}
use pakka.Archive.Stored.{Added, pakka_add_memory-Added}

abbrev named : List ℕ → ℕ → Entry
named name offset = record {
  filename = name;
  offset = offset;
  size = 3;
  pk3_compressed_size = 0;
  pk3_payload_offset = 0;
  pk3_lfh_offset = 0;
  pk3_method = 0;
  crc32 = 0;
  dk_compressed_size = 0;
  dk_is_compressed = false;
  pending = none;
}

abbrev a_name : List ℕ
a_name = b'a' ∷ []

abbrev b_name : List ℕ
b_name = b'b' ∷ []

abbrev two : Pak
two = record {
  format = pak;
  signature = pack_magic;
  diroffset = 12;
  dirlength = 0;
  num_entries = 2;
  file_size = 18;
  entries = named a_name 12 ∷ named b_name 15 ∷ [];
  payload_end = 18;
  file = record { contents = []; pos = 0 };
  live = true;
  cur_pakpath = [];
  is_new = false;
  writable = true;
  dirty = false;
  needs_rebuild = false;
  atomic_commit = false;
  format_hint = pak;
  pk3_cdr_offset = 0;
  pk3_compression = 0;
  max_decompressed = 0;
}

two-IsSound : IsSound two
unfolding on_disk_extent
two-IsSound = record {
  counted = refl;
  distinct =
      λ _. (((λ (h : b_name ≡ a_name). omega (arith, ap (λ t. get_or t 0 0) h)), tt), (tt, tt));
  held = ((λ _. omega arith), ((λ _. omega arith), tt));
}

abbrev one_left : Pak
one_left = record two {
  entries = named b_name 15 ∷ [];
  num_entries = 1;
  dirty = true;
  needs_rebuild = true;
}

deleted : pakka_delete two a_name ≡ ok one_left
unfolding pakka_delete unlink_first not_editable same_bytes
deleted = refl

pakka_delete-IsSound_example :
    IsSound one_left
    × (2 ≡ suc (length one_left.entries))
    × SameBut a_name two one_left
    × (is_wad pak ≡ false → find_entry one_left.entries a_name ≡ none)
pakka_delete-IsSound_example = pakka_delete-IsSound two one_left a_name two-IsSound deleted

abbrev c_name : List ℕ
c_name = b'c' ∷ []

abbrev renamed_pak : Pak
renamed_pak = record two { entries = named c_name 12 ∷ named b_name 15 ∷ []; dirty = true }

renamed : pakka_rename two a_name c_name ≡ ok renamed_pak
unfolding pakka_rename rename_first not_editable find_entry pak_add_preflight pak_entry_name_cap
    geometry is_wad is_zip unsafe_entry_name scan_segments is_separator is_unsafe_segment
    has_bad_byte last_byte is_reserved_device_name base any_folds win_reserved_names folds_to upper
    same_bytes
renamed = refl

pakka_rename-IsSound_example :
    IsSound renamed_pak
    × (length renamed_pak.entries ≡ 2)
    × ((other : List ℕ)
        → other ≢ a_name
        → other ≢ c_name
        → find_entry renamed_pak.entries other ≡ find_entry two.entries other)
    × (is_wad pak ≡ false
        → (e : Entry) × (find_entry two.entries a_name ≡ some e)
          × (find_entry renamed_pak.entries c_name ≡ some (record e { filename = c_name }))
          × (find_entry renamed_pak.entries a_name ≡ none))
pakka_rename-IsSound_example =
    pakka_rename-IsSound two renamed_pak a_name c_name two-IsSound
      (λ (h : a_name ≡ c_name). omega (arith, ap (λ t. get_or t 0 0) h)) renamed

abbrev copied_pak : Pak
copied_pak = record two {
  entries = named a_name 12 ∷ named b_name 15 ∷ named c_name 12 ∷ [];
  num_entries = 3;
  dirty = true;
}

copied : pakka_copy two a_name c_name ≡ ok copied_pak
unfolding pakka_copy duplicate link_entry not_editable find_entry pak_add_preflight
    pak_entry_name_cap geometry is_wad is_zip unsafe_entry_name scan_segments is_separator
    is_unsafe_segment has_bad_byte last_byte is_reserved_device_name base any_folds
    win_reserved_names folds_to upper same_bytes
copied = refl

pakka_copy-IsSound_example :
    (unsafe_entry_name c_name ≡ false)
    × IsSound copied_pak
    × (length copied_pak.entries ≡ 3)
    × SameBut c_name two copied_pak
    × (src : Entry) × (find_entry two.entries a_name ≡ some src)
    × (copy : Entry) × (copied_pak.entries ≡ two.entries ++ copy ∷ [])
    × IsCopy src copy c_name
    × (is_wad pak ≡ false → find_entry copied_pak.entries c_name ≡ some copy)
pakka_copy-IsSound_example = pakka_copy-IsSound two copied_pak a_name c_name two-IsSound copied

-- No ZIP is changed here.
abbrev no_zip : Pak → List ℕ → List ℕ → Result Pak
no_zip p name payload = err err_unsupported

abbrev added_pak : Pak
added_pak = record two {
  entries = named a_name 12 ∷ named b_name 15 ∷ named c_name 18 ∷ [];
  num_entries = 3;
  payload_end = 21;
  dirty = true;
  file = record { contents = replicate 18 0 ++ (7 ∷ 8 ∷ 9 ∷ []); pos = 21 };
}

added : pakka_add_memory no_zip two c_name (7 ∷ 8 ∷ 9 ∷ []) ≡ ok added_pak
unfolding pakka_add_memory append_payload new_entry try_encode wants_encoding physical write_payload
    same_format fwrite fseek not_editable find_entry pak_add_preflight pak_entry_name_cap geometry
    is_wad is_zip unsafe_entry_name scan_segments is_separator is_unsafe_segment has_bad_byte
    last_byte is_reserved_device_name base any_folds win_reserved_names folds_to upper same_bytes
added = refl

pakka_add_memory-Added_example : Added two added_pak c_name (7 ∷ 8 ∷ 9 ∷ [])
unfolding is_zip
pakka_add_memory-Added_example =
    pakka_add_memory-Added no_zip two added_pak c_name (7 ∷ 8 ∷ 9 ∷ []) two-IsSound refl added

-- The same payload from a file, where the host finds a regular one.
abbrev regular : Source
regular = record {
  path = b'f' ∷ [];
  is_link = false;
  lstat = some true;
  st_size = 3;
  fopen = some (7 ∷ 8 ∷ 9 ∷ []);
}

abbrev no_zip_file : Pak → Source → List ℕ → Result Pak
no_zip_file p s name = err err_unsupported

added_file : pakka_add_file no_zip_file two regular c_name ≡ ok added_pak
unfolding pakka_add_file pak_add_source_preflight append_file append_source was_read copy_chunks
    new_entry wants_encoding same_format fwrite fseek not_editable find_entry pak_add_preflight
    pak_entry_name_cap geometry is_wad is_zip unsafe_entry_name scan_segments is_separator
    is_unsafe_segment has_bad_byte last_byte is_reserved_device_name base any_folds
    win_reserved_names folds_to upper same_bytes
added_file = refl

pakka_add_file-FileAdded_example : FileAdded two added_pak regular c_name
unfolding is_zip
pakka_add_file-FileAdded_example =
    pakka_add_file-FileAdded no_zip_file two added_pak regular c_name two-IsSound refl added_file
