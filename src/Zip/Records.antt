-- ===== src/Zip/Records.antt =====
-- The records of a ZIP archive, src/pk3file.c: pk3_read_u16, pk3_read_u32, pk3_put_u16 and
-- pk3_put_u32, pk3_build_eocd, pk3_gp_flags_for_name, pk3_build_lfh and pk3_build_cdr.
use pakka.Prelude.{ℕ, ◌*◌, ◌/◌, ◌%◌, ◌^◌, ◌<◌, ◌≡◌, arith, bit_and, bit_or, Bool, false, not}
use pakka.Prelude.{◌||◌, List, [], ◌∷◌, ◌++◌, take, drop, ltb, if◌then◌else◌}
use pakka.Prelude.Bits.{bit_and_mask, bit_or_fields}
use pakka.Words.{u32_bytes, u32_value}
use pakka.Utf8.{is_valid_utf8}
pub use pakka.Disk.Load.{lfh_magic, eocd_magic}

abbrev pub pk3_lfh_size : ℕ
pk3_lfh_size = 30

abbrev pub pk3_cdr_size : ℕ
pk3_cdr_size = 46

abbrev pub pk3_eocd_size : ℕ
pk3_eocd_size = 22

abbrev pub eocd_scan_max : ℕ
eocd_scan_max = 65557

abbrev pub method_stored : ℕ
method_stored = 0

abbrev pub cdr_magic : List ℕ
cdr_magic = b'P' ∷ b'K' ∷ 1 ∷ 2 ∷ []

-- What pk3_put_u16 writes; pk3_put_u32 writes `u32_bytes`.
unfoldable pub u16_bytes : ℕ → List ℕ
u16_bytes v = bit_and v 0xff ∷ bit_and (v / 2 ^ 8) 0xff ∷ []

unfoldable pub u16_value : List ℕ → ℕ
u16_value (b0 ∷ b1 ∷ []) = bit_or b0 (b1 * 2 ^ 8)
u16_value _ = 0

-- pk3_read_u16(&buf[at])
unfoldable pub read_u16 : ℕ → List ℕ → ℕ
unfolding u16_value
read_u16 at buf = u16_value (take 2 (drop at buf))

-- pk3_read_u32(&buf[at])
unfoldable pub read_u32 : ℕ → List ℕ → ℕ
unfolding u32_value
read_u32 at buf = u32_value (take 4 (drop at buf))

pub u16_value-u16_bytes : (v : ℕ) → v < 2 ^ 16 → u16_value (u16_bytes v) ≡ v
unfolding u16_value u16_bytes
u16_value-u16_bytes v h =
    rw (bit_and_mask 8 v, bit_and_mask 8 (v / 2 ^ 8))
      (ground (arith, bit_or_fields 8 (v % 256) (v / 2 ^ 8 % 256)))

unfoldable pub build_eocd : ℕ → ℕ → ℕ → List ℕ
unfolding u16_bytes u32_bytes
build_eocd cdr_offset size entry_count =
    eocd_magic
    ++ (u16_bytes 0
        ++ (u16_bytes 0
            ++ (u16_bytes entry_count
                ++ (u16_bytes entry_count
                    ++ (u32_bytes size ++ (u32_bytes cdr_offset ++ u16_bytes 0))))))

-- The loop over the bytes of the name.
unfoldable pub has_high : List ℕ → Bool
has_high [] = false
has_high (c ∷ cs) = ltb 0x7f c || has_high cs

unfoldable pub gp_flags_for_name : List ℕ → ℕ
unfolding has_high
gp_flags_for_name name =
    if not (has_high name) then 0 else if not (is_valid_utf8 name) then 0 else 0x0800

unfoldable pub build_lfh : ℕ → ℕ → ℕ → ℕ → List ℕ → ℕ → List ℕ
unfolding u16_bytes u32_bytes
build_lfh method crc csize usize name name_len =
    lfh_magic
    ++ (u16_bytes 20
        ++ (u16_bytes (gp_flags_for_name (take name_len name))
            ++ (u16_bytes method
                ++ (u16_bytes 0
                    ++ (u16_bytes 0x0021
                        ++ (u32_bytes crc
                            ++ (u32_bytes csize
                                ++ (u32_bytes usize ++ (u16_bytes name_len ++ u16_bytes 0)))))))))

unfoldable pub build_cdr : ℕ → ℕ → ℕ → ℕ → List ℕ → ℕ → ℕ → List ℕ
unfolding u16_bytes u32_bytes
build_cdr method crc csize usize name name_len lfh_offset =
    cdr_magic
    ++ (u16_bytes 20
        ++ (u16_bytes 20
            ++ (u16_bytes (gp_flags_for_name (take name_len name))
                ++ (u16_bytes method
                    ++ (u16_bytes 0
                        ++ (u16_bytes 0x0021
                            ++ (u32_bytes crc
                                ++ (u32_bytes csize
                                    ++ (u32_bytes usize
                                        ++ (u16_bytes name_len
                                            ++ (u16_bytes 0
                                                ++ (u16_bytes 0
                                                    ++ (u16_bytes 0
                                                        ++ (u16_bytes 0
                                                            ++ (u32_bytes 0
                                                            ++ u32_bytes lfh_offset)))))))))))))))
