-- ===== src/Zip/Built.antt =====
-- The records that src/pk3file.c builds, as its own checks read them.
pub mod Local
pub mod End
pub mod Rows
use pakka.Prelude.{ℕ, ◌+◌, ◌-◌, ◌≤◌, ◌<◌, ◌≡◌, ◌⊎◌, inl, inr, refl, sym, ap, ◌∙◌, arith, false, not}
use pakka.Prelude.{◌&&◌, ◌||◌, List, [], ◌∷◌, ◌++◌, append_assoc, length, length-append, take, drop}
use pakka.Prelude.{get_or, leb, ltb, ◌==◌, true, take-append, drop-append, take_all, u16, ◌%◌, ◌^◌}
use pakka.Prelude.{
  same_bytes, if_intro, if◌then◌else◌, get_or-append, get_or-append_ge, bit_and, Bool-cases, Bool,
}
use mathlib.Core.Path.{subst}
use pakka.Status.{Result, ok, refuse_if, ◌>>◌}
use pakka.Pak.{Entry, uint32_max, max_entries}
use pakka.Words.{u32_bytes, u32_value, u32_value-u32_bytes}
use pakka.Utf8.{is_valid_utf8}
use pakka.Zip.Records.{
  u16_bytes, u16_value, read_u16, read_u32, u16_value-u16_bytes, build_cdr, build_lfh, build_eocd,
  gp_flags_for_name, has_high, pk3_cdr_size, pk3_lfh_size, method_stored, cdr_magic,
}
use pakka.Zip.Names.{decoded, decode_entry_name}
use pakka.Zip.Eocd.{Eocd, check_eocd}
use pakka.Zip.Directory.{
  CdrRecord, cdr_fields, extent, has_control, is_directory, check_fields, check_name,
  validate_cdr_record, named_entry, new_zip_entry, check_lfh, payload_start,
}
use pakka.Zip.Commit.{name_length}

-- A method that the loader supports, with the sizes that go with it.
abbrev pub IsMethod : Entry → Type 0
IsMethod e = ((e.pk3_method ≡ 0) × (e.pk3_compressed_size ≡ e.size)) ⊎ (e.pk3_method ≡ 8)

-- What the loader asks of an entry besides its payload.
pub record IsZipEntry (e : Entry) : Type 0 where
  pub method : IsMethod e
  pub crc : e.crc32 < 2 ^ 32
  pub csize : e.pk3_compressed_size < 2 ^ 32 - 1
  pub usize : e.size < 2 ^ 32 - 1
  pub nonempty : 0 < length e.filename
  pub short : length e.filename < 256
  pub utf8 : is_valid_utf8 e.filename ≡ true
  pub printable : has_control e.filename ≡ false
  pub no_directory :
      ((get_or e.filename (length e.filename - 1) 0 == b'/')
        && ((e.size == 0) && (e.pk3_compressed_size == 0)))
      ≡ false

module _ (m crc cs us n off : ℕ) (name more : List ℕ) where
  abbrev built : List ℕ
  built = build_cdr m crc cs us name n off ++ more

  pub cdr_fields-build_cdr :
      m < 2 ^ 16
      → crc < 2 ^ 32
      → cs < 2 ^ 32
      → us < 2 ^ 32
      → n < 2 ^ 16
      → off < 2 ^ 32
      → gp_flags_for_name (take n name) < 2 ^ 16
      → cdr_fields built ≡ record {
        method = m;
        flags = gp_flags_for_name (take n name);
        name_len = n;
        extra_len = 0;
        comment_len = 0;
        crc = crc;
        csize = cs;
        usize = us;
        ext_attrs = 0;
        lfh_offset = off;
        is_dir_entry = false;
      }
  unfolding cdr_fields read_u16 read_u32 build_cdr u16_bytes u32_bytes
  cdr_fields-build_cdr hm hc hs hu hn ho hf = λ i. record {
    method = u16_value-u16_bytes m hm i;
    flags = u16_value-u16_bytes (gp_flags_for_name (take n name)) hf i;
    name_len = u16_value-u16_bytes n hn i;
    extra_len = u16_value-u16_bytes 0 (omega arith) i;
    comment_len = u16_value-u16_bytes 0 (omega arith) i;
    crc = u32_value-u32_bytes crc hc i;
    csize = u32_value-u32_bytes cs hs i;
    usize = u32_value-u32_bytes us hu i;
    ext_attrs = u32_value-u32_bytes 0 (omega arith) i;
    lfh_offset = u32_value-u32_bytes off ho i;
    is_dir_entry = false;
  }

pub flags_cases : (name : List ℕ) → (gp_flags_for_name name ≡ 0) ⊎ (gp_flags_for_name name ≡ 0x0800)
unfolding gp_flags_for_name
flags_cases name =
    if_intro (λ t. (t ≡ 0) ⊎ (t ≡ 0x0800)) (not (has_high name))
      {y = if not (is_valid_utf8 name) then 0 else 0x0800} (λ h. inl refl)
      (λ h.
        if_intro (λ t. (t ≡ 0) ⊎ (t ≡ 0x0800)) (not (is_valid_utf8 name)) (λ h. inl refl)
          (λ h. inr refl))

pub name_length_lem : (e : Entry) → IsZipEntry e → name_length e ≡ length e.filename
unfolding name_length
name_length_lem e z = omega (arith, z.short)

pub method_small : (e : Entry) → IsZipEntry e → e.pk3_method < 2 ^ 16
method_small e z = elim z.method [ inl (h, _) ↦ omega (arith, h) | inr h ↦ omega (arith, h) ]

-- The directory record of an entry, its name behind it.
abbrev pub cdr_bytes : Entry → List ℕ
cdr_bytes e =
    build_cdr e.pk3_method e.crc32 e.pk3_compressed_size e.size e.filename (name_length e)
      e.pk3_lfh_offset
    ++ take (name_length e) e.filename

-- The record as it is read.
abbrev pub listed_record : Entry → CdrRecord
listed_record e = record {
  method = e.pk3_method;
  flags = gp_flags_for_name e.filename;
  name_len = length e.filename;
  extra_len = 0;
  comment_len = 0;
  crc = e.crc32;
  csize = e.pk3_compressed_size;
  usize = e.size;
  ext_attrs = 0;
  lfh_offset = e.pk3_lfh_offset;
  is_dir_entry = false;
}

module _ (e : Entry) (z : IsZipEntry e) (off : e.pk3_lfh_offset < 2 ^ 32 - 1) (more : List ℕ) where
  abbrev here : List ℕ
  here = cdr_bytes e ++ more

  flags_small : gp_flags_for_name (take (name_length e) e.filename) < 2 ^ 16
  flags_small = elim (flags_cases (take (name_length e) e.filename)) [
    | inl h ↦ omega (arith, h)
    | inr h ↦ omega (arith, h)
  ]

  whole_name : take (name_length e) e.filename ≡ e.filename
  whole_name = take_all (name_length e) e.filename (omega (arith, name_length_lem e z))

  header_part :
      here
      ≡ built e.pk3_method e.crc32 e.pk3_compressed_size e.size
          (name_length e)
          e.pk3_lfh_offset
          e.filename
          (e.filename ++ more)
  header_part = rw whole_name (append_assoc _ e.filename more)

  fields_read : cdr_fields here ≡ listed_record e
  fields_read =
      ap cdr_fields header_part
      ∙ cdr_fields-build_cdr e.pk3_method e.crc32 e.pk3_compressed_size e.size (name_length e)
          e.pk3_lfh_offset e.filename (e.filename ++ more) (method_small e z) z.crc
          (omega (arith, z.csize)) (omega (arith, z.usize))
          (omega (arith, name_length_lem e z, z.short)) (omega arith) flags_small
      ∙ rw (whole_name, name_length_lem e z) refl

  name_read : take (length e.filename) (drop pk3_cdr_size here) ≡ e.filename
  unfolding build_cdr u16_bytes u32_bytes
  name_read = rw (whole_name) (take-append e.filename more)

  header_length :
      46
      ≡ length (
          build_cdr e.pk3_method e.crc32 e.pk3_compressed_size e.size e.filename
            (name_length e)
            e.pk3_lfh_offset)
  unfolding build_cdr u16_bytes u32_bytes
  header_length = refl

  last_read :
      get_or here (pk3_cdr_size + length e.filename - 1) 0
      ≡ get_or e.filename (length e.filename - 1) 0
  last_read =
      ap (λ t. get_or t (pk3_cdr_size + length e.filename - 1) 0) header_part
      ∙ get_or-append_ge _ (e.filename ++ more) (pk3_cdr_size + length e.filename - 1)
          (length e.filename - 1) 0 (omega (arith, z.nonempty, header_length))
      ∙ get_or-append e.filename more (length e.filename - 1) 0 (omega (arith, z.nonempty))

  supported : (not (e.pk3_method == 0) && not (e.pk3_method == 8)) ≡ false
  supported = elim z.method [ inl (h, _) ↦ rw h refl | inr h ↦ rw h refl ]

  plain_flags :
      (not (bit_and (gp_flags_for_name e.filename) 1 == 0) ≡ false)
      × (not (bit_and (gp_flags_for_name e.filename) 8 == 0) ≡ false)
  plain_flags = elim (flags_cases e.filename) [
    | inl h ↦ (rw h refl, rw h refl)
    | inr h ↦ (rw h refl, rw h refl)
  ]

  no_zip64 :
      ((e.pk3_compressed_size == 0xffffffff)
        || ((e.size == 0xffffffff) || (e.pk3_lfh_offset == 0xffffffff)))
      ≡ false
  no_zip64 =
      let a : (e.pk3_compressed_size == 0xffffffff) ≡ false = ground (arith, z.csize) in
      let b : (e.size == 0xffffffff) ≡ false = ground (arith, z.usize) in
      let c : (e.pk3_lfh_offset == 0xffffffff) ≡ false = ground arith in rw (a, b, c) refl

  checked : check_fields (listed_record e) ≡ ok tt
  unfolding check_fields
  checked =
      let some_name : (length e.filename == 0) ≡ false = ground (arith, z.nonempty) in
      let fits : leb 256 (length e.filename) ≡ false = ground (arith, z.short) in
      rw (plain_flags.0, plain_flags.1, no_zip64, supported, some_name, fits) refl

  name_checked : check_name (listed_record e) here ≡ ok (listed_record e)
  unfolding check_name is_directory
  name_checked = rw (last_read, z.no_directory) (rw (name_read, z.printable) refl)

  here-length : length here ≡ 46 + length e.filename + length more
  here-length = omega (
    arith,
    ap (λ t. length t) header_part,
    length-append
        (build_cdr e.pk3_method e.crc32 e.pk3_compressed_size e.size e.filename (name_length e)
          e.pk3_lfh_offset)
        (e.filename ++ more),
    length-append e.filename more,
    header_length,
  )

  magic_read : same_bytes (take 4 here) cdr_magic ≡ true
  unfolding build_cdr same_bytes
  magic_read = refl

  pub validate_cdr_record-cdr_bytes : validate_cdr_record here ≡ ok (listed_record e)
  unfolding validate_cdr_record
  validate_cdr_record-cdr_bytes =
      let long : ltb (length here) 46 ≡ false = ground (arith, here-length) in
      let whole : ltb (length here) (extent (cdr_fields here)) ≡ false =
        subst (λ r. ltb (length here) (extent r) ≡ false) (sym fields_read)
          (ground (arith, here-length)) in
      rw (long, validate_cdr_record)
        (rw (magic_read, whole)
          (subst (λ r. (check_fields r >> check_name r here) ≡ ok (listed_record e))
            (sym fields_read) (rw checked name_checked)))

  pub named_entry-cdr_bytes :
      named_entry (listed_record e) here ≡ ok (new_zip_entry (listed_record e) e.filename)
  unfolding named_entry decode_entry_name
  named_entry-cdr_bytes =
      let fits : ltb 256 (length e.filename + 1) ≡ false = ground (arith, z.short) in
      rw (name_read, named_entry) (rw (z.utf8, fits) refl)
