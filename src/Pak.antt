-- ===== src/Pak.antt =====
-- struct pakka_entry and struct pakka_archive of src/common.h. The linked list of entries with its
-- head and tail is a list; a string is its bytes before the NUL.
use pakka.Prelude.{ℕ, ◌^◌, ◌-◌, Bool, Option, List, if◌then◌else◌}
use pakka.Format.{Format}
use pakka.Stdio.{File}

abbrev pub header_size : ℕ
header_size = 12

abbrev pub max_entries : ℕ
max_entries = 1048576

abbrev pub uint32_max : ℕ
uint32_max = 2 ^ 32 - 1

abbrev pub entry_name_size : ℕ
entry_name_size = 256

-- The payload of an entry that no commit has written yet: a source path or a buffer.
pub data Pending : Type 0 where
  source : List ℕ → Pending
  memory : List ℕ → Pending

pub record Entry : Type 0 where
  pub filename : List ℕ
  pub offset : ℕ
  pub size : ℕ
  pub pk3_compressed_size : ℕ
  pub pk3_payload_offset : ℕ
  pub pk3_lfh_offset : ℕ
  pub pk3_method : ℕ
  pub crc32 : ℕ
  pub dk_compressed_size : ℕ
  pub dk_is_compressed : Bool
  pub pending : Option Pending

-- `size` is the field `length`. This is pak_entry_on_disk_extent of src/pakfile.c.
unfoldable pub on_disk_extent : Entry → ℕ
on_disk_extent e = if e.dk_is_compressed then e.dk_compressed_size else e.size

-- `file` is what `fp` points to, and `live` says that `fp` is not NULL.
pub record Pak : Type 0 where
  pub format : Format
  pub signature : List ℕ
  pub diroffset : ℕ
  pub dirlength : ℕ
  pub num_entries : ℕ
  pub file_size : ℕ
  pub entries : List Entry
  pub payload_end : ℕ
  pub file : File
  pub live : Bool
  pub cur_pakpath : List ℕ
  pub is_new : Bool
  pub writable : Bool
  pub dirty : Bool
  pub needs_rebuild : Bool
  pub atomic_commit : Bool
  pub format_hint : Format
  pub pk3_cdr_offset : ℕ
  pub pk3_compression : ℕ
  pub max_decompressed : ℕ
