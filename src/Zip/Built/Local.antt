-- ===== src/Zip/Built/Local.antt =====
-- The local headers and the end record that src/pk3file.c builds, as its own checks read them.
use pakka.Prelude.{ℕ, ◌+◌, ◌-◌, ◌≤◌, ◌<◌, ◌≡◌, inl, inr, refl, ap, ◌∙◌, arith, false, true, not}
use pakka.Prelude.{◌&&◌, ◌||◌, List, length, take, ltb, ◌==◌, bit_and, ◌^◌}
use pakka.Prelude.{same_bytes}
use pakka.Status.{ok}
use pakka.Stdio.{File, fseek}
use pakka.Stdio.Reads.{At}
use pakka.Stdio.Fronts.{At-read_at}
use pakka.Pak.{Entry, uint32_max, max_entries}
use pakka.Words.{u32_bytes, u32_value-u32_bytes}
use pakka.Zip.Records.{
  u16_bytes, read_u16, read_u32, u16_value-u16_bytes, build_lfh, build_eocd, gp_flags_for_name,
  pk3_lfh_size, lfh_magic,
}
use pakka.Zip.Eocd.{check_eocd}
use pakka.Zip.Directory.{new_zip_entry, check_lfh, payload_start, validate_lfh}
use pakka.Zip.Commit.{name_length}
use pakka.Zip.Built.{IsZipEntry, listed_record, name_length_lem, method_small, flags_cases}

abbrev pub lfh_of : Entry → List ℕ
lfh_of e = build_lfh e.pk3_method e.crc32 e.pk3_compressed_size e.size e.filename (name_length e)

-- The entry as the first pass lists it, and as the second leaves it.
abbrev pub listed : Entry → Entry
listed e = new_zip_entry (listed_record e) e.filename

abbrev pub start_of : Entry → ℕ
start_of e = e.pk3_lfh_offset + pk3_lfh_size + length e.filename

module _ (e : Entry) (z : IsZipEntry e) where
  lfh_flags :
      (not (bit_and (read_u16 6 (lfh_of e)) 0x1 == 0) ≡ false)
      × (not (bit_and (read_u16 6 (lfh_of e)) 0x8 == 0) ≡ false)
  unfolding read_u16 build_lfh u16_bytes u32_bytes
  lfh_flags =
      let name = take (name_length e) e.filename in
      elim (flags_cases name) [
        | inl h ↦
            let r : read_u16 6 (lfh_of e) ≡ 0 =
              u16_value-u16_bytes (gp_flags_for_name name) (omega (arith, h)) ∙ h in
            (rw r refl, rw r refl)
        | inr h ↦
            let r : read_u16 6 (lfh_of e) ≡ 0x0800 =
              u16_value-u16_bytes (gp_flags_for_name name) (omega (arith, h)) ∙ h in
            (rw r refl, rw r refl)
      ]

  lfh_method : read_u16 8 (lfh_of e) ≡ e.pk3_method
  unfolding read_u16 build_lfh u16_bytes u32_bytes
  lfh_method = u16_value-u16_bytes e.pk3_method (method_small e z)

  lfh_crc : read_u32 14 (lfh_of e) ≡ e.crc32
  unfolding read_u32 build_lfh u16_bytes u32_bytes
  lfh_crc = u32_value-u32_bytes e.crc32 z.crc

  lfh_csize : read_u32 18 (lfh_of e) ≡ e.pk3_compressed_size
  unfolding read_u32 build_lfh u16_bytes u32_bytes
  lfh_csize = u32_value-u32_bytes e.pk3_compressed_size (omega (arith, z.csize))

  lfh_usize : read_u32 22 (lfh_of e) ≡ e.size
  unfolding read_u32 build_lfh u16_bytes u32_bytes
  lfh_usize = u32_value-u32_bytes e.size (omega (arith, z.usize))

  lfh_start : payload_start (listed e) (lfh_of e) ≡ start_of e
  unfolding payload_start read_u16 build_lfh u16_bytes u32_bytes new_zip_entry
  lfh_start =
      let n : read_u16 26 (lfh_of e) ≡ name_length e =
        u16_value-u16_bytes (name_length e) (omega (arith, name_length_lem e z, z.short)) in
      let x : read_u16 28 (lfh_of e) ≡ 0 = u16_value-u16_bytes 0 (omega arith) in
      omega (arith, n, x, name_length_lem e z)

  magic_at : same_bytes (take 4 (lfh_of e)) lfh_magic ≡ true
  unfolding build_lfh same_bytes
  magic_at = refl

  sizes_agree : ((e.pk3_method == 0) && not (e.pk3_compressed_size == e.size)) ≡ false
  sizes_agree = elim z.method [
    | inl (h, same) ↦
        let b : (e.pk3_compressed_size == e.size) ≡ true = ground (arith, same) in rw (h, b) refl
    | inr h ↦ rw h refl
  ]

  eq_refl : (n : ℕ) → (n == n) ≡ true
  eq_refl n = ground arith

  fields_agree :
      (not (read_u16 8 (lfh_of e) == e.pk3_method)
        || (not (read_u32 14 (lfh_of e) == e.crc32)
            || (not (read_u32 18 (lfh_of e) == e.pk3_compressed_size)
                || not (read_u32 22 (lfh_of e) == e.size))))
      ≡ false
  fields_agree =
      rw (lfh_method, lfh_crc, lfh_csize, lfh_usize)
        (rw (eq_refl e.pk3_method, eq_refl e.crc32, eq_refl e.pk3_compressed_size, eq_refl e.size)
          refl)

  lfh_long : pk3_lfh_size ≡ length (lfh_of e)
  unfolding build_lfh u16_bytes u32_bytes
  lfh_long = refl

  pub check_lfh-lfh_of :
      (cdr_offset : ℕ)
      → start_of e + e.pk3_compressed_size ≤ cdr_offset
      → cdr_offset ≤ uint32_max
      → check_lfh cdr_offset (listed e) (lfh_of e)
        ≡ ok (record (listed e) { pk3_payload_offset = start_of e })
  unfolding check_lfh new_zip_entry
  check_lfh-lfh_of cdr_offset fits small =
      let a : ltb uint32_max (payload_start (listed e) (lfh_of e)) ≡ false =
        ground (arith, lfh_start) in
      let b : ltb cdr_offset (payload_start (listed e) (lfh_of e) + e.pk3_compressed_size) ≡ false =
        ground (arith, lfh_start) in
      rw (magic_at, check_lfh)
        (rw (lfh_flags.0, lfh_flags.1)
          (rw (fields_agree, sizes_agree, a, b)
            (ap (λ t. ok (record (listed e) { pk3_payload_offset = t })) lfh_start)))

  pub validate_lfh-lfh_of :
      (f : File) (cdr_offset : ℕ)
      → At (fseek e.pk3_lfh_offset f) (lfh_of e)
      → start_of e + e.pk3_compressed_size ≤ cdr_offset
      → cdr_offset ≤ uint32_max
      → validate_lfh f cdr_offset (listed e)
        ≡ ok (record (listed e) { pk3_payload_offset = start_of e })
  unfolding validate_lfh new_zip_entry
  validate_lfh-lfh_of f cdr_offset at fits small =
      rw (At-read_at e.pk3_lfh_offset pk3_lfh_size f (lfh_of e) at lfh_long, validate_lfh)
        (check_lfh-lfh_of cdr_offset fits small)

module _ (size cdr_offset n : ℕ) (hs : size < 2 ^ 32 - 1) (ho : cdr_offset < 2 ^ 32 - 1)
    (hn : n < 2 ^ 16 - 1) where
  abbrev eocd : List ℕ
  eocd = build_eocd cdr_offset size n

  disks : (read_u16 4 eocd ≡ 0) × (read_u16 6 eocd ≡ 0)
  unfolding read_u16 build_eocd u16_bytes u32_bytes
  disks = (u16_value-u16_bytes 0 (omega arith), u16_value-u16_bytes 0 (omega arith))

  counts : (read_u16 8 eocd ≡ n) × (read_u16 10 eocd ≡ n)
  unfolding read_u16 build_eocd u16_bytes u32_bytes
  counts = (u16_value-u16_bytes n (omega arith), u16_value-u16_bytes n (omega arith))

  size_read : read_u32 12 eocd ≡ size
  unfolding read_u32 build_eocd u16_bytes u32_bytes
  size_read = u32_value-u32_bytes size (omega arith)

  offset_read : read_u32 16 eocd ≡ cdr_offset
  unfolding read_u32 build_eocd u16_bytes u32_bytes
  offset_read = u32_value-u32_bytes cdr_offset (omega arith)

  pub check_eocd-build_eocd :
      (eocd_offset : ℕ)
      → cdr_offset + size ≤ eocd_offset
      → check_eocd eocd_offset eocd
        ≡ ok (record { cdr_offset = cdr_offset; cdr_size = size; entry_count = n })
  unfolding check_eocd
  check_eocd-build_eocd eocd_offset fits =
      let few : (n == 0xffff) ≡ false = ground arith in
      let small : (size == 0xffffffff) ≡ false = ground arith in
      let low : (cdr_offset == 0xffffffff) ≡ false = ground arith in
      let before : ltb eocd_offset (cdr_offset + size) ≡ false = ground arith in
      let count : ltb max_entries n ≡ false = ground arith in
      let same : (n == n) ≡ true = ground arith in
      rw (disks.0, disks.1, counts.0, counts.1, size_read, offset_read, check_eocd)
        (rw (few, small, low, before, count, same) refl)
