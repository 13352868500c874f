-- ===== src/Commit/Tests.antt =====
-- Tests of the commit and inputs at which the theorems about it apply.
use pakka.Prelude.{
  ℕ, ◌+◌, ◌<◌, Option, ◌≡◌, refl, arith, true, false, inl, List, [], ◌∷◌, ◌++◌, none, some,
  replicate, u64, qsort,
}
use pakka.Prelude.Sort.{sort_insert}
use pakka.Status.{Result, ok, err, err_unsupported, err_format, err_io}
use pakka.Format.{pak, is_zip, geometry, Geometry, pack_magic}
use pakka.Stdio.{fseek, fread, fwrite}
use pakka.Stdio.Fronts.{read_at}
use pakka.Crc.{crc32_update, crc32_table}
use pakka.Archive.Add.{write_payload}
use pakka.Disk.Save.{write_pak_directory, write_pak_header}
use pakka.Pak.{Entry, Pak, Pending, source, memory, on_disk_extent}
use pakka.Archive.{not_editable}
use pakka.Commit.{
  pakka_commit, copy_entries, place_entry, scratch, pakka_commit_rebuild, finish_rebuild,
  publish_rebuild, save_layout, offsets_of, install_layout, install_offsets, restore_layout,
}
use pakka.Commit.Copy.{Host, copy_between_paks, copy_payload, pak_copy_pending_source, revalidate}
use pakka.Commit.Dedup.{
  owners, keys_from, add_key, own_indices, share_all, share_owners, same_key, key_before,
}
use pakka.Commit.View.{payload_of}
use pakka.Commit.Committed.{IsNameable, IsCommittable, IsCommitted, IsDirty}
use pakka.Commit.Rebuilt.{pakka_commit-rebuilds}
use pakka.Commit.InPlace.{IsSettled, pakka_commit-settles}
use pakka.Commit.Errors.{Restored, pakka_commit-err}

abbrev sourced : List ℕ
sourced = 1 ∷ 2 ∷ []

abbrev staged_crc : ℕ
staged_crc = crc32_update 0 sourced

-- A host where all works, and each path is a regular file of two bytes.
abbrev host : Host
host = record {
  source_at = λ path. record {
    path = path;
    is_link = false;
    lstat = some true;
    st_size = 2;
    fopen = some sourced;
  };
  mkstemp = true;
  fclose = true;
  rename = true;
  reopen = true;
  fflush = true;
}

abbrev lump : ℕ → ℕ → Entry
lump name offset = record {
  filename = name ∷ [];
  offset = offset;
  size = 2;
  pk3_compressed_size = 0;
  pk3_payload_offset = 0;
  pk3_lfh_offset = 0;
  pk3_method = 0;
  crc32 = 0;
  dk_compressed_size = 0;
  dk_is_compressed = false;
  pending = none;
}

-- Two names for the same bytes, behind a hole; a staged buffer; and a staged source.
abbrev members : List Entry
members =
    lump b'a' 15
    ∷ lump b'b' 15
    ∷ record (lump b'm' 0) { pending = some (memory (4 ∷ 5 ∷ [])) }
    ∷ record (lump b's' 0) { crc32 = staged_crc; pending = some (source (b'f' ∷ [])) }
    ∷ []

abbrev shared : Pak
shared = record {
  format = pak;
  signature = pack_magic;
  diroffset = 12;
  dirlength = 0;
  num_entries = 4;
  file_size = 17;
  entries = members;
  payload_end = 17;
  file = record { contents = replicate 15 0 ++ (7 ∷ 8 ∷ []); pos = 0 };
  live = true;
  cur_pakpath = [];
  is_new = false;
  writable = true;
  dirty = true;
  needs_rebuild = true;
  atomic_commit = true;
  format_hint = pak;
  pk3_cdr_offset = 0;
  pk3_compression = 0;
  max_decompressed = 0;
}

abbrev no_zip : Pak → Pak × Result (Unit {0})
no_zip p = (p, err err_unsupported)

-- The second name takes the offset of the first.
owners_test : owners members ≡ 0 ∷ 0 ∷ 2 ∷ 3 ∷ []
unfolding owners keys_from add_key own_indices share_all share_owners same_key key_before qsort
    sort_insert on_disk_extent
owners_test = refl

abbrev quake : Geometry
quake = record {
  signature = pack_magic;
  name_field_len = 56;
  dir_entry_size = 64;
  has_compression = false;
}

lump-IsNameable :
    (name offset crc : ℕ)
    → 0 < name
    → (pending : Option Pending)
    → IsNameable quake (record (lump name offset) { crc32 = crc; pending = pending })
lump-IsNameable name offset crc h pending = record {
  name_fits = omega arith;
  no_nul = (h, tt);
  size_u32 = omega arith;
  compressed_u32 = omega arith;
  stored = λ h. (refl, refl);
  no_zip = (refl, refl, refl, refl);
}

shared-IsCommittable : IsCommittable host quake shared
unfolding geometry on_disk_extent payload_of read_at fread fseek
shared-IsCommittable = record {
  pak_class = refl;
  magic = refl;
  counted = refl;
  few = omega arith;
  fits = omega arith;
  nameable = (
    lump-IsNameable b'a' 15 0 (omega arith) none,
    (
      lump-IsNameable b'b' 15 0 (omega arith) none,
      (
        lump-IsNameable b'm' 0 0 (omega arith) (some (memory (4 ∷ 5 ∷ []))),
        (lump-IsNameable b's' 0 staged_crc (omega arith) (some (source (b'f' ∷ []))), tt),
      ),
    ),
  );
  readable = (
    record { bytes = 7 ∷ 8 ∷ []; there = refl; extent = refl; staged = tt },
    (
      record { bytes = 7 ∷ 8 ∷ []; there = refl; extent = refl; staged = tt },
      (
        record { bytes = 4 ∷ 5 ∷ []; there = refl; extent = refl; staged = tt },
        (
          record {
            bytes = sourced;
            there = refl;
            extent = refl;
            staged = record { no_link = refl; regular = refl; same_size = refl; same_crc = refl };
          },
          tt,
        ),
      ),
    ),
  );
  works = (refl, refl, refl, refl);
}

shared-IsDirty : IsDirty shared
unfolding not_editable is_zip
shared-IsDirty = record { dirty = refl; editable = refl; no_zip = refl }

pakka_commit-rebuilds_example :
    (q : Pak) × (pakka_commit no_zip host shared ≡ (q, ok tt)) × IsCommitted host shared q
pakka_commit-rebuilds_example =
    pakka_commit-rebuilds no_zip host quake shared shared-IsCommittable shared-IsDirty refl

-- Only adds: the payload is in the file already.
abbrev added : Pak
added = record shared {
  num_entries = 1;
  entries = lump b'a' 15 ∷ [];
  needs_rebuild = false;
  atomic_commit = false;
}

added-IsSettled : IsSettled host quake added
unfolding geometry on_disk_extent payload_of read_at fread fseek
added-IsSettled = record {
  savable = record {
    pak_class = refl;
    magic = refl;
    counted = refl;
    few = omega arith;
    behind_header = omega arith;
    fits = omega arith;
    storable = (
      record {
        name_fits = omega arith;
        no_nul = (omega arith, tt);
        offset_u32 = omega arith;
        size_u32 = omega arith;
        compressed_u32 = omega arith;
        stored = λ h. (refl, refl);
        no_zip = (refl, refl, refl, refl, refl);
        committed = refl;
      },
      tt,
    );
    placed = ((inl (omega arith), omega arith), tt);
  };
  readable = (record { bytes = 7 ∷ 8 ∷ []; there = refl; extent = refl; staged = tt }, tt);
  flushes = refl;
}

added-IsDirty : IsDirty added
unfolding not_editable is_zip
added-IsDirty = record { dirty = refl; editable = refl; no_zip = refl }

pakka_commit-settles_example :
    (q : Pak) × (pakka_commit no_zip host added ≡ (q, ok tt))
    × (q.file_size ≡ u64 (q.diroffset + q.dirlength))
    × (q.entries ≡ lump b'a' 15 ∷ [])
    × IsCommitted host added q
pakka_commit-settles_example =
    pakka_commit-settles no_zip host quake added added-IsSettled added-IsDirty refl refl

-- The source has another size by now.
abbrev resized : Host
resized = record host {
  source_at = λ path. record {
    path = path;
    is_link = false;
    lstat = some true;
    st_size = 3;
    fopen = some (1 ∷ 2 ∷ 3 ∷ []);
  };
}

abbrev changed : Pak
changed = record shared {
  num_entries = 1;
  entries = record (lump b's' 0) { crc32 = staged_crc; pending = some (source (b'f' ∷ [])) } ∷ [];
}

refused : pakka_commit no_zip resized changed ≡ (changed, err err_format)
unfolding pakka_commit copy_entries place_entry scratch copy_between_paks copy_payload
    pak_copy_pending_source revalidate owners keys_from add_key own_indices share_all qsort
    not_editable is_zip fseek
refused = refl

-- The rename fails, with the new layout in place, and the archive can be opened again.
abbrev stuck : Host
stuck = record host { rename = false }

not_renamed : pakka_commit no_zip stuck shared ≡ (shared, err err_io)
unfolding pakka_commit pakka_commit_rebuild finish_rebuild publish_rebuild save_layout offsets_of
    install_layout install_offsets restore_layout copy_entries place_entry scratch copy_between_paks
    copy_payload pak_copy_pending_source revalidate owners keys_from add_key own_indices share_all
    share_owners same_key key_before qsort sort_insert on_disk_extent not_editable is_zip geometry
    fseek fread fwrite write_payload crc32_update crc32_table write_pak_directory write_pak_header
not_renamed = refl

pakka_commit-err_example : Restored stuck shared shared
unfolding is_zip
pakka_commit-err_example =
    pakka_commit-err no_zip stuck shared shared err_io (λ bad. cc) refl refl not_renamed
