-- ===== src/Zip/Directory/Refused.antt =====
-- What pakka_pk3_open_impl of src/pk3file.c refuses.
use pakka.Prelude.{ℕ, ◌≡◌, refl, sym, ap, ◌∙◌, arith, List, [], ◌++◌, some}
use pakka.Prelude.{append-nil, length}
use pakka.Status.{err, err_unsupported}
use pakka.Stdio.{fseek}
use pakka.Stdio.Reads.{At}
use pakka.Stdio.Fronts.{At-read_at}
use pakka.Pak.{Pak}
use pakka.Words.{u32_bytes}
use pakka.Zip.Records.{build_eocd, pk3_eocd_size, read_u16, u16_bytes, u16_value-u16_bytes}
use pakka.Zip.Eocd.{check_eocd, find_eocd, validate_eocd}
use pakka.Zip.Directory.{pakka_pk3_open_impl}
use pakka.Zip.Built.End.{find_eocd-build_eocd}

module _ (cdr_offset size : ℕ) where
  abbrev eocd : List ℕ
  eocd = build_eocd cdr_offset size 0xffff

  eocd_long : pk3_eocd_size ≡ length eocd
  unfolding build_eocd u16_bytes u32_bytes
  eocd_long = refl

  disks : (read_u16 4 eocd ≡ 0) × (read_u16 6 eocd ≡ 0)
  unfolding read_u16 build_eocd u16_bytes u32_bytes
  disks = (u16_value-u16_bytes 0 (omega arith), u16_value-u16_bytes 0 (omega arith))

  counts : (read_u16 8 eocd ≡ 0xffff) × (read_u16 10 eocd ≡ 0xffff)
  unfolding read_u16 build_eocd u16_bytes u32_bytes
  counts = (u16_value-u16_bytes 0xffff (omega arith), u16_value-u16_bytes 0xffff (omega arith))

  -- The count of a full archive is the sentinel of ZIP64.
  full_refused : (eocd_offset : ℕ) → check_eocd eocd_offset eocd ≡ err err_unsupported
  unfolding check_eocd
  full_refused eocd_offset = rw (disks.0, disks.1, counts.0, counts.1, check_eocd) refl

-- A file that ends with an end record as pk3_build_eocd builds it for 65535 entries is refused as
-- unsupported, where the cached size is that of the file.
pub pakka_pk3_open_impl-full :
    (pak : Pak) (before : List ℕ) (cdr_offset size : ℕ)
    → pak.file.contents ≡ before ++ build_eocd cdr_offset size 0xffff
    → pak.file_size ≡ length pak.file.contents
    → pakka_pk3_open_impl pak ≡ err err_unsupported
unfolding pakka_pk3_open_impl validate_eocd fseek
pakka_pk3_open_impl-full pak before cdr_offset size ends whole =
    let at : At (fseek (length before) pak.file) (build_eocd cdr_offset size 0xffff) = record {
      before = before;
      behind = [];
      split = ends ∙ ap (λ t. before ++ t) (sym (append-nil (build_eocd cdr_offset size 0xffff)));
      place = refl;
    } in
    let found : find_eocd pak.file pak.file_size ≡ some (length before) =
      ap (λ t. find_eocd pak.file t) whole
      ∙ find_eocd-build_eocd pak.file before cdr_offset size 0xffff ends in
    let read =
      At-read_at (length before) pk3_eocd_size pak.file (build_eocd cdr_offset size 0xffff) at
        (eocd_long cdr_offset size) in
    rw (found, pakka_pk3_open_impl)
      (rw (read, validate_eocd) (rw (full_refused cdr_offset size (length before)) refl))
