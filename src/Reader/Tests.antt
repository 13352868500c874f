-- ===== src/Reader/Tests.antt =====
-- Tests of the readers and inputs at which the theorems about them apply.
use pakka.Prelude.{
  ℕ, ◌≤◌, ◌≡◌, refl, true, false, inl, inr, List, [], ◌∷◌, none, replicate, ◌++◌, same_bytes, take,
}
use pakka.Status.{Result, ok, err, err_unsupported}
use pakka.Format.{pak, is_wad, is_zip, geometry, pack_magic, same_format}
use pakka.Stdio.{fwrite, fseek}
use pakka.Pak.{Entry, Pak}
use pakka.Names.{
  unsafe_entry_name, scan_segments, is_separator, is_unsafe_segment, has_bad_byte, last_byte,
  is_reserved_device_name, base, any_folds, win_reserved_names, folds_to, upper,
}
use pakka.Archive.{find_entry, pak_add_preflight, pak_entry_name_cap, not_editable}
use pakka.Archive.Add.{
  pakka_add_memory, append_payload, new_entry, try_encode, wants_encoding, physical, write_payload,
}
use pakka.Archive.AddFile.{Source}
use pakka.Archive.Sound.{IsSound}
use pakka.Reader.{Reader, Chunk, pakka_read_entry_alloc}
use pakka.Reader.Serves.{Serves}
use pakka.Reader.Series.{read_series, read_series-take}
use pakka.Reader.ReadBack.{pakka_add_memory-read}

abbrev none_yet : Pak
none_yet = record {
  format = pak;
  signature = pack_magic;
  diroffset = 12;
  dirlength = 0;
  num_entries = 0;
  file_size = 12;
  entries = [];
  payload_end = 12;
  file = record { contents = replicate 12 0 ++ (7 ∷ 8 ∷ 9 ∷ []); pos = 0 };
  live = true;
  cur_pakpath = [];
  is_new = false;
  writable = true;
  dirty = false;
  needs_rebuild = false;
  atomic_commit = false;
  format_hint = pak;
  pk3_cdr_offset = 0;
  pk3_compression = 0;
  max_decompressed = 0;
}

abbrev no_add : Pak → List ℕ → List ℕ → Result Pak
no_add p name payload = err err_unsupported

abbrev no_open : Pak → Reader → Entry → Result Reader
no_open p reader e = err err_unsupported

abbrev no_read : Pak → Reader → ℕ → Chunk
no_read p reader len = record { bytes = []; reader = reader; status = err err_unsupported }

abbrev no_source : List ℕ → Source
no_source path = record { path = path; is_link = false; lstat = none; st_size = 0; fopen = none }

-- Three bytes behind the header.
abbrev at_start : Reader
at_start = record { next_offset = 12; remaining = 3; inflated = none }

at_start-Serves : Serves none_yet.file at_start (7 ∷ 8 ∷ 9 ∷ [])
unfolding fseek
at_start-Serves = record {
  left = refl;
  comes = inr (record { before = replicate 12 0; behind = []; split = refl; place = refl });
}

read_series-take_example :
    (read_series no_read none_yet at_start (2 ∷ 4 ∷ []) ≡ take 6 (7 ∷ 8 ∷ 9 ∷ []))
    × (3 ≤ 6 → read_series no_read none_yet at_start (2 ∷ 4 ∷ []) ≡ 7 ∷ 8 ∷ 9 ∷ [])
unfolding is_zip
read_series-take_example =
    read_series-take no_read none_yet at_start (7 ∷ 8 ∷ 9 ∷ []) (2 ∷ 4 ∷ []) refl refl
      at_start-Serves

none_yet-IsSound : IsSound none_yet
none_yet-IsSound = record { counted = refl; distinct = λ _. tt; held = tt }

abbrev name : List ℕ
name = b'c' ∷ []

abbrev grown : Pak
grown = record none_yet {
  entries =
      record {
        filename = name;
        offset = 12;
        size = 3;
        pk3_compressed_size = 0;
        pk3_payload_offset = 0;
        pk3_lfh_offset = 0;
        pk3_method = 0;
        crc32 = 0;
        dk_compressed_size = 0;
        dk_is_compressed = false;
        pending = none;
      }
      ∷ [];
  num_entries = 1;
  payload_end = 15;
  dirty = true;
  file = record { contents = replicate 12 0 ++ (1 ∷ 2 ∷ 3 ∷ []); pos = 15 };
}

added : pakka_add_memory no_add none_yet name (1 ∷ 2 ∷ 3 ∷ []) ≡ ok grown
unfolding pakka_add_memory append_payload try_encode new_entry wants_encoding physical write_payload
    same_format fwrite fseek not_editable find_entry pak_add_preflight pak_entry_name_cap geometry
    is_wad is_zip unsafe_entry_name scan_segments is_separator is_unsafe_segment has_bad_byte
    last_byte is_reserved_device_name base any_folds win_reserved_names folds_to upper same_bytes
added = refl

pakka_add_memory-read_example :
    pakka_read_entry_alloc no_open no_read no_source grown name ≡ ok (1 ∷ 2 ∷ 3 ∷ [])
unfolding is_zip is_wad
pakka_add_memory-read_example =
    pakka_add_memory-read no_add no_open no_read no_source none_yet grown name (1 ∷ 2 ∷ 3 ∷ [])
      none_yet-IsSound refl refl added (inl refl)
