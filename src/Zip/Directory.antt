-- ===== src/Zip/Directory.antt =====
-- The directory of a ZIP archive, src/pk3file.c: pk3_validate_cdr_record, pk3_validate_lfh,
-- pk3_load_cdr and pakka_pk3_open_impl.

pub mod Loaded
pub mod Accepts
pub mod Refused
use pakka.Prelude.{ℕ, zero, suc, ◌+◌, ◌-◌, ◌*◌, ◌/◌, ◌^◌, bit_and, Bool, true, false, not, ◌&&◌}
use pakka.Prelude.{◌||◌, none, some, List, [], ◌∷◌, ◌++◌, length, take, drop, get_or, ltb, leb}
use pakka.Prelude.{◌==◌, same_bytes, if◌then◌else◌, u32}
use pakka.Status.{Result, ok, err, err_io, err_format, err_unsupported, err_unsafe_name, err_limit}
use pakka.Status.{◌>>=◌, ◌>>◌, refuse_if}
use pakka.Stdio.{File}
use pakka.Stdio.Fronts.{read_at}
use pakka.Pak.{Entry, Pak, uint32_max, entry_name_size}
use pakka.Lifecycle.{method_deflate}
pub use pakka.Lifecycle.{default_max_decompressed}
use pakka.Zip.Records.{pk3_lfh_size, pk3_cdr_size, method_stored, lfh_magic, cdr_magic}
use pakka.Zip.Records.{read_u16, read_u32}
use pakka.Zip.Names.{decode_entry_name, decoded, too_long, bit11_invalid}
use pakka.Zip.Eocd.{Eocd, find_eocd, validate_eocd}

-- pk3_cdr_record_t
pub record CdrRecord : Type 0 where
  pub method : ℕ
  pub flags : ℕ
  pub name_len : ℕ
  pub extra_len : ℕ
  pub comment_len : ℕ
  pub crc : ℕ
  pub csize : ℕ
  pub usize : ℕ
  pub ext_attrs : ℕ
  pub lfh_offset : ℕ
  pub is_dir_entry : Bool

-- The fields, from the bytes of the directory that start with the record.
unfoldable pub cdr_fields : List ℕ → CdrRecord
cdr_fields cdr = record {
  method = read_u16 10 cdr;
  flags = read_u16 8 cdr;
  name_len = read_u16 28 cdr;
  extra_len = read_u16 30 cdr;
  comment_len = read_u16 32 cdr;
  crc = read_u32 16 cdr;
  csize = read_u32 20 cdr;
  usize = read_u32 24 cdr;
  ext_attrs = read_u32 38 cdr;
  lfh_offset = read_u32 42 cdr;
  is_dir_entry = false;
}

-- How far the record goes with its name, extra field and comment.
abbrev pub extent : CdrRecord → ℕ
extent r = pk3_cdr_size + r.name_len + r.extra_len + r.comment_len

-- The loop over the bytes of the name.
unfoldable pub has_control : List ℕ → Bool
has_control [] = false
has_control (b ∷ bs) = (ltb b 0x20 || (b == 0x7f)) || has_control bs

-- The checks on the fields that need no other bytes.
unfoldable pub check_fields : CdrRecord → Result (Unit {0})
check_fields r = do
  refuse_if (not (bit_and r.flags 0x1 == 0)) err_unsupported
  refuse_if (not (bit_and r.flags 0x8 == 0)) err_unsupported
  refuse_if ((r.csize == 0xffffffff) || ((r.usize == 0xffffffff) || (r.lfh_offset == 0xffffffff)))
      err_unsupported
  refuse_if (not (r.method == method_stored) && not (r.method == method_deflate)) err_unsupported
  refuse_if (r.name_len == 0) err_format
  refuse_if (leb entry_name_size r.name_len) err_limit
  refuse_if (bit_and (r.ext_attrs / 2 ^ 16) 0xf000 == 0xa000) err_unsafe_name

-- The marker of a directory: a name that ends in a slash, without bytes.
unfoldable pub is_directory : CdrRecord → List ℕ → Bool
is_directory r cdr =
    (get_or cdr (pk3_cdr_size + r.name_len - 1) 0 == b'/') && ((r.usize == 0) && (r.csize == 0))

-- The last checks, on the name.
unfoldable pub check_name : CdrRecord → List ℕ → Result CdrRecord
unfolding has_control is_directory
check_name r cdr =
    if is_directory r cdr
    then ok (record r { is_dir_entry = true })
    else (refuse_if (has_control (take r.name_len (drop pk3_cdr_size cdr))) err_format >> ok r)

-- `cdr` is what the directory has from `pos` on.
unfoldable pub validate_cdr_record : List ℕ → Result CdrRecord
unfolding cdr_fields check_fields check_name
validate_cdr_record cdr = do
  refuse_if (ltb (length cdr) pk3_cdr_size) err_format
  refuse_if (not (same_bytes (take 4 cdr) cdr_magic)) err_format
  refuse_if (ltb (length cdr) (extent (cdr_fields cdr))) err_format
  check_fields (cdr_fields cdr)
  check_name (cdr_fields cdr) cdr

-- The entry of a record and its name.
unfoldable pub new_zip_entry : CdrRecord → List ℕ → Entry
new_zip_entry r name = record {
  filename = name;
  offset = r.lfh_offset;
  size = r.usize;
  pk3_compressed_size = r.csize;
  pk3_payload_offset = 0;
  pk3_lfh_offset = r.lfh_offset;
  pk3_method = r.method;
  crc32 = r.crc;
  dk_compressed_size = 0;
  dk_is_compressed = false;
  pending = none;
}

unfoldable pub named_entry : CdrRecord → List ℕ → Result Entry
unfolding new_zip_entry
named_entry r cdr =
    elim (decode_entry_name (take r.name_len (drop pk3_cdr_size cdr)) r.flags entry_name_size) [
      | too_long ↦ err err_limit
      | bit11_invalid ↦ err err_format
      | decoded name ↦ ok (new_zip_entry r name)
    ]

-- What the first loop has read: the entries, the directories skipped, and the bytes left.
pub record Rows : Type 0 where
  pub entries : List Entry
  pub skipped_dirs : ℕ
  pub left : List ℕ

-- The loop over the records: those to come, and what is read so far.
unfoldable pub read_rows : ℕ → Rows → Result Rows
unfolding validate_cdr_record named_entry
read_rows zero rows = ok rows
read_rows (suc n) rows = validate_cdr_record rows.left >>= λ r.
    if r.is_dir_entry
    then read_rows n
        (record rows { skipped_dirs = rows.skipped_dirs + 1; left = drop (extent r) rows.left })
    else (named_entry r rows.left >>= λ e.
        read_rows n
          (record rows { entries = rows.entries ++ e ∷ []; left = drop (extent r) rows.left }))

-- Where the payload starts.
unfoldable pub payload_start : Entry → List ℕ → ℕ
payload_start e lfh = e.pk3_lfh_offset + pk3_lfh_size + read_u16 26 lfh + read_u16 28 lfh

-- The checks on the local header of an entry.
unfoldable pub check_lfh : ℕ → Entry → List ℕ → Result Entry
unfolding payload_start
check_lfh cdr_offset e lfh = do
  refuse_if (not (same_bytes (take 4 lfh) lfh_magic)) err_format
  refuse_if (not (bit_and (read_u16 6 lfh) 0x1 == 0)) err_unsupported
  refuse_if (not (bit_and (read_u16 6 lfh) 0x8 == 0)) err_unsupported
  refuse_if
      (not (read_u16 8 lfh == e.pk3_method)
        || (not (read_u32 14 lfh == e.crc32)
            || (not (read_u32 18 lfh == e.pk3_compressed_size) || not (read_u32 22 lfh == e.size))))
      err_format
  refuse_if ((e.pk3_method == method_stored) && not (e.pk3_compressed_size == e.size)) err_format
  refuse_if (ltb uint32_max (payload_start e lfh)) err_format
  refuse_if (ltb cdr_offset (payload_start e lfh + e.pk3_compressed_size)) err_format
  ok (record e { pk3_payload_offset = payload_start e lfh })

unfoldable pub validate_lfh : File → ℕ → Entry → Result Entry
unfolding check_lfh
validate_lfh f cdr_offset e = elim (read_at e.pk3_lfh_offset pk3_lfh_size f) [
  | none ↦ err err_io
  | some lfh ↦ check_lfh cdr_offset e lfh
]

-- The second pass: `e->offset = e->pk3_payload_offset`
unfoldable pub validate_lfhs : File → ℕ → List Entry → Result (List Entry)
unfolding validate_lfh
validate_lfhs f cdr_offset [] = ok []
validate_lfhs f cdr_offset (e ∷ es) = do
  e' ← validate_lfh f cdr_offset e
  es' ← validate_lfhs f cdr_offset es
  ok (record e' { offset = e'.pk3_payload_offset } ∷ es')

abbrev pub max_cdr_size : ℕ
max_cdr_size = 64 * 1024 * 1024

-- The two passes over a directory that was read.
unfoldable pub load_rows : Pak → Eocd → List ℕ → Result Pak
unfolding read_rows validate_lfhs
load_rows pak eocd cdr = do
  rows ← read_rows eocd.entry_count (record { entries = []; skipped_dirs = 0; left = cdr })
  refuse_if (not (length rows.left == 0)) err_format
  entries ← validate_lfhs pak.file pak.pk3_cdr_offset rows.entries
  ok (record pak { entries = entries; num_entries = u32 (eocd.entry_count - rows.skipped_dirs) })

unfoldable pub load_cdr : Pak → Eocd → Result Pak
unfolding load_rows
load_cdr pak eocd =
    if (eocd.entry_count == 0) && (eocd.cdr_size == 0)
    then ok pak
    else if (eocd.entry_count == 0) || (eocd.cdr_size == 0)
    then err err_format
    else if ltb max_cdr_size eocd.cdr_size
    then err err_limit
    else elim (read_at eocd.cdr_offset eocd.cdr_size pak.file) [
      | none ↦ err err_io
      | some cdr ↦ load_rows pak eocd cdr
    ]

-- errno is 0 where no end record is found, since the device does not fail.
unfoldable pub pakka_pk3_open_impl : Pak → Result Pak
unfolding load_cdr
pakka_pk3_open_impl pak = elim (find_eocd pak.file pak.file_size) [
  | none ↦ err err_format
  | some eocd_offset ↦ validate_eocd pak.file eocd_offset >>= λ eocd.
      load_cdr
        (record pak {
          max_decompressed = default_max_decompressed;
          pk3_cdr_offset = eocd.cdr_offset;
        })
        eocd
]
