-- ===== src/Disk/Tests.antt =====
-- Tests of the directory and inputs at which the theorems about it apply.
use pakka.Prelude.{
  ◌≡◌, refl, ◌≤◌, arith, true, false, [], ◌∷◌, ◌++◌, length, All, replicate, none, inl,
}
use pakka.Status.{Result, ok, err, ◌>>=◌, err_unsupported}
use pakka.Format.{pak, Geometry, geometry, pack_magic, is_wad}
use pakka.Stdio.{fseek, fread}
use pakka.Words.{read_u32_le, u32_value, u32_bytes, u32_value-u32_bytes}
use pakka.Pak.{Entry, Pak, header_size, on_disk_extent}
use pakka.Disk.Save.{write_pak_directory}
use pakka.Disk.Rows.{
  load_directory, read_entries, read_entry, read_name_first, c_string, read_compression, in_range,
  raise_end,
}
use pakka.Disk.Load.{load_pakfile}
use pakka.Disk.Safety.{load_directory-IsPlaced}
use pakka.Disk.RoundTrip.{opened, save-load}
use pakka.Disk.RoundTrip.Directory.{IsPlaced}
use pakka.Disk.RoundTrip.Rows.{IsStorable}
use pakka.Disk.RoundTrip.Saved.{IsSavable}

abbrev lump : Entry
lump = record {
  filename = b'a' ∷ [];
  offset = 12;
  size = 3;
  pk3_compressed_size = 0;
  pk3_payload_offset = 0;
  pk3_lfh_offset = 0;
  pk3_method = 0;
  crc32 = 0;
  dk_compressed_size = 0;
  dk_is_compressed = false;
  pending = none;
}

abbrev quake : Geometry
quake = record {
  signature = pack_magic;
  name_field_len = 56;
  dir_entry_size = 64;
  has_compression = false;
}

abbrev archive : Pak
archive = record {
  format = pak;
  signature = pack_magic;
  diroffset = 0;
  dirlength = 0;
  num_entries = 1;
  file_size = 0;
  entries = lump ∷ [];
  payload_end = 15;
  file = record { contents = replicate 12 0 ++ (7 ∷ 8 ∷ 9 ∷ []); pos = 0 };
  live = true;
  cur_pakpath = [];
  is_new = false;
  writable = true;
  dirty = true;
  needs_rebuild = false;
  atomic_commit = false;
  format_hint = pak;
  pk3_cdr_offset = 0;
  pk3_compression = 0;
  max_decompressed = 0;
}

lump-IsStorable : IsStorable quake lump
lump-IsStorable = record {
  name_fits = omega arith;
  no_nul = (omega arith, tt);
  offset_u32 = omega arith;
  size_u32 = omega arith;
  compressed_u32 = omega arith;
  stored = λ h. (refl, refl);
  no_zip = (refl, refl, refl, refl, refl);
  committed = refl;
}

archive-IsSavable : IsSavable quake archive
unfolding geometry on_disk_extent
archive-IsSavable = record {
  pak_class = refl;
  magic = refl;
  counted = refl;
  few = omega arith;
  behind_header = omega arith;
  fits = omega arith;
  storable = (lump-IsStorable, tt);
  placed = ((inl (omega arith), omega arith), tt);
}

-- No ZIP is opened here.
abbrev no_zip : Pak → Result Pak
no_zip p = err err_unsupported

save-load_example :
    (q : Pak) × (write_pak_directory archive ≡ ok q)
    × (r : Pak) × ((load_pakfile no_zip (opened archive pak (fseek 0 q.file)) >>= load_directory)
        ≡ ok r)
    × (r.format ≡ pak)
    × (r.entries ≡ lump ∷ [])
    × (r.num_entries ≡ 1)
    × (r.payload_end ≤ 15)
    × (r.file.contents ≡ q.file.contents)
save-load_example = save-load no_zip archive archive quake archive-IsSavable

abbrev on_disk : Pak
on_disk = record archive {
  entries = [];
  payload_end = 0;
  diroffset = 15;
  dirlength = 64;
  file_size = 79;
  file = record {
    contents =
        replicate 12 0
        ++ (7 ∷ 8 ∷ 9 ∷ b'a' ∷ replicate 55 0)
        ++ (12 ∷ 0 ∷ 0 ∷ 0 ∷ 3 ∷ 0 ∷ 0 ∷ 0 ∷ []);
    pos = 0;
  };
}

abbrev found : Pak
found = record on_disk { entries = lump ∷ []; payload_end = 15 }

loads : load_directory on_disk ≡ ok found
unfolding load_directory read_entries read_entry geometry fread fseek read_u32_le u32_value
    read_name_first c_string read_compression is_wad in_range raise_end on_disk_extent
loads = refl

load_directory-IsPlaced_example :
    (length found.entries ≡ 1)
    × (All (IsPlaced pak 15) found.entries)
    × (header_size ≤ 15)
    × (15 ≤ 79)
load_directory-IsPlaced_example = load_directory-IsPlaced on_disk found refl (omega arith) loads

u32_value-u32_bytes_example : u32_value (u32_bytes 4278190335) ≡ 4278190335
u32_value-u32_bytes_example = u32_value-u32_bytes 4278190335 (omega arith)
