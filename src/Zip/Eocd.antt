-- ===== src/Zip/Eocd.antt =====
-- The end of a ZIP archive, src/pk3file.c: pk3_find_eocd and pk3_validate_eocd.
use pakka.Prelude.{ℕ, zero, suc, ◌+◌, ◌-◌, Bool, not, ◌&&◌, ◌||◌, Option, none, some, List}
use pakka.Prelude.{take, drop, ltb, ◌==◌, same_bytes, if◌then◌else◌}
use pakka.Status.{Result, ok, err, err_io, err_format, err_unsupported, err_limit, ◌>>◌}
use pakka.Status.{refuse_if}
use pakka.Stdio.{File}
use pakka.Stdio.Fronts.{read_at}
use pakka.Pak.{max_entries}
use pakka.Zip.Records.{pk3_eocd_size, eocd_scan_max, eocd_magic, read_u16, read_u32}

-- A signature whose comment ends with the file.
unfoldable pub is_eocd : ℕ → ℕ → List ℕ → Bool
is_eocd scan_len i buf =
    same_bytes (take 4 (drop i buf)) eocd_magic
    && (i + pk3_eocd_size + read_u16 (i + 20) buf == scan_len)

-- The loop over the starts below `i`, from the last one on.
unfoldable pub scan_back : ℕ → ℕ → List ℕ → Option ℕ
unfolding is_eocd
scan_back scan_len zero buf = none
scan_back scan_len (suc i) buf =
    let earlier = scan_back scan_len i buf in if is_eocd scan_len i buf then some i else earlier

-- The last `scan_len` bytes are read and scanned.
unfoldable pub scan_tail : File → ℕ → ℕ → Option ℕ
unfolding scan_back
scan_tail f scan_start scan_len = elim (read_at scan_start scan_len f) [
  | none ↦ none
  | some buf ↦ elim (scan_back scan_len (scan_len - pk3_eocd_size + 1) buf) [
    | none ↦ none
    | some i ↦ some (scan_start + i)
  ]
]

-- `none` is -1.
unfoldable pub find_eocd : File → ℕ → Option ℕ
unfolding scan_tail
find_eocd f file_size =
    let scan_len = if ltb eocd_scan_max file_size then eocd_scan_max else file_size in
    if ltb file_size pk3_eocd_size then none else scan_tail f (file_size - scan_len) scan_len

pub record Eocd : Type 0 where
  pub cdr_offset : ℕ
  pub cdr_size : ℕ
  pub entry_count : ℕ

-- The checks on the record, the offset of the record among them.
unfoldable pub check_eocd : ℕ → List ℕ → Result Eocd
check_eocd eocd_offset eocd = do
  refuse_if (not (read_u16 4 eocd == 0) || not (read_u16 6 eocd == 0)) err_unsupported
  refuse_if (not (read_u16 8 eocd == read_u16 10 eocd)) err_format
  refuse_if
      ((read_u16 10 eocd == 0xffff)
        || ((read_u32 12 eocd == 0xffffffff) || (read_u32 16 eocd == 0xffffffff)))
      err_unsupported
  refuse_if (ltb eocd_offset (read_u32 16 eocd + read_u32 12 eocd)) err_format
  refuse_if (ltb max_entries (read_u16 10 eocd)) err_limit
  ok (record {
    cdr_offset = read_u32 16 eocd;
    cdr_size = read_u32 12 eocd;
    entry_count = read_u16 10 eocd;
  })

unfoldable pub validate_eocd : File → ℕ → Result Eocd
unfolding check_eocd
validate_eocd f eocd_offset = elim (read_at eocd_offset pk3_eocd_size f) [
  | none ↦ err err_io
  | some eocd ↦ check_eocd eocd_offset eocd
]
