-- ===== src/Crc/Tests.antt =====
-- The check value of CRC-32, and inputs at which the theorems apply.
use pakka.Prelude.{ℕ, ◌≡◌, refl, arith, bit_xor, List, [], ◌∷◌}
use pakka.Crc.{crc32_update, crc32_loop, crc32_round, crc32_table}
use pakka.Crc.Bitwise.{bitwise_loop, crc32_update-append, crc32_update-bitwise_loop}

abbrev digits : List ℕ
digits = b'1' ∷ b'2' ∷ b'3' ∷ b'4' ∷ b'5' ∷ b'6' ∷ b'7' ∷ b'8' ∷ b'9' ∷ []

check_value : crc32_update 0 digits ≡ 0xcbf43926
unfolding crc32_update crc32_loop crc32_round crc32_table
check_value = refl

crc32_update-append_example :
    crc32_update (crc32_update 0 (b'1' ∷ b'2' ∷ [])) (b'3' ∷ [])
    ≡ crc32_update 0 (b'1' ∷ b'2' ∷ b'3' ∷ [])
crc32_update-append_example = crc32_update-append 0 (b'1' ∷ b'2' ∷ []) (b'3' ∷ [])

crc32_update-bitwise_loop_example :
    crc32_update 0 (b'1' ∷ b'2' ∷ [])
    ≡ bit_xor (bitwise_loop (bit_xor 0 0xffffffff) (b'1' ∷ b'2' ∷ [])) 0xffffffff
crc32_update-bitwise_loop_example =
    crc32_update-bitwise_loop 0 (b'1' ∷ b'2' ∷ []) (omega arith, (omega arith, tt))
