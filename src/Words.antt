-- ===== src/Words.antt =====
-- pakka_read_u32_le and pakka_write_u32_le of src/common.c.
use pakka.Prelude.{ℕ, ◌+◌, ◌*◌, ◌/◌, ◌%◌, ◌^◌, ◌≡◌, refl, arith, bit_and, bit_or, IsU32, IsByte}
use pakka.Prelude.{Option, none, some, List, [], ◌∷◌, All, length}
use pakka.Prelude.Bits.{bit_and_mask, bit_or_fields}
use pakka.Stdio.{File, fread, fwrite}
use pakka.Stdio.Reads.{At, fread-At-eq, fread-At-rest}
use pakka.Prelude.{sym, ◌++◌}

-- The four bytes that pakka_write_u32_le writes, the lowest first.
unfoldable pub u32_bytes : ℕ → List ℕ
u32_bytes value =
    bit_and value 0xff
    ∷ bit_and (value / 2 ^ 8) 0xff
    ∷ bit_and (value / 2 ^ 16) 0xff
    ∷ bit_and (value / 2 ^ 24) 0xff
    ∷ []

-- The number that pakka_read_u32_le makes of four bytes.
unfoldable pub u32_value : List ℕ → ℕ
u32_value (b0 ∷ b1 ∷ b2 ∷ b3 ∷ []) =
    bit_or (bit_or (bit_or b0 (b1 * 2 ^ 8)) (b2 * 2 ^ 16)) (b3 * 2 ^ 24)
u32_value _ = 0

unfoldable pub read_u32_le : File → Option (ℕ × File)
read_u32_le f = elim (fread 4 f) [ none ↦ none | some (bytes, f') ↦ some (u32_value bytes, f') ]

unfoldable pub write_u32_le : ℕ → File → File
write_u32_le value f = fwrite (u32_bytes value) f

-- The bytes as quotients and remainders.
u32_bytes_lem :
    (v : ℕ) → u32_bytes v ≡ v % 256 ∷ v / 2 ^ 8 % 256 ∷ v / 2 ^ 16 % 256 ∷ v / 2 ^ 24 % 256 ∷ []
unfolding u32_bytes
u32_bytes_lem v = simp (bit_and_mask 8)

pub u32_bytes-IsByte : (v : ℕ) → All IsByte (u32_bytes v)
u32_bytes-IsByte v = rw u32_bytes_lem (omega arith)

pub length-u32_bytes : (v : ℕ) → length (u32_bytes v) ≡ 4
unfolding u32_bytes
length-u32_bytes v = refl

-- A 32-bit number is read back from its bytes.
pub u32_value-u32_bytes : (v : ℕ) → IsU32 v → u32_value (u32_bytes v) ≡ v
unfolding u32_value
u32_value-u32_bytes v h = rw u32_bytes_lem (
    ground (
      arith,
      bit_or_fields 8 (v % 256) (v / 2 ^ 8 % 256),
      bit_or_fields 16 (v % 256 + v / 2 ^ 8 % 256 * 2 ^ 8) (v / 2 ^ 16 % 256),
      bit_or_fields 24 (v % 256 + v / 2 ^ 8 % 256 * 2 ^ 8 + v / 2 ^ 16 % 256 * 2 ^ 16)
          (v / 2 ^ 24 % 256),
    ))

-- The number at the position, and what follows it.
pub read_u32_le-At :
    (f : File) (v : ℕ) (more : List ℕ)
    → At f (u32_bytes v ++ more)
    → IsU32 v
    → (read_u32_le f ≡ some (v, record f { pos = f.pos + 4 }))
      × At (record f { pos = f.pos + 4 }) more
unfolding read_u32_le
read_u32_le-At f v more h fits =
    let four : 4 ≡ length (u32_bytes v) = sym (length-u32_bytes v) in
    (
      rw (fread-At-eq f (u32_bytes v) more 4 h four, read_u32_le) (rw (u32_value-u32_bytes v fits)),
      fread-At-rest f (u32_bytes v) more 4 h four,
    )

pub read_u32_le-next :
    (f : File) (v : ℕ) (more : List ℕ)
    → At f (u32_bytes v ++ more)
    → IsU32 v
    → (f' : File) × (read_u32_le f ≡ some (v, f')) × At f' more
read_u32_le-next f v more h fits =
    let (e, rest) = read_u32_le-At f v more h fits in (record f { pos = f.pos + 4 }, e, rest)
