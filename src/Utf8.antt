-- ===== src/Utf8.antt =====
-- pakka_is_valid_utf8, pakka_utf8_seq_len and pakka_utf8_substitute_invalid of src/common.c.
pub mod Sequences
pub mod Agree
pub mod Substitute
mod Tests
use pakka.Prelude.{
  ℕ, zero, suc, ◌+◌, ◌-◌, ◌*◌, ◌^◌, bit_and, bit_or, Bool, true, false, not, ◌&&◌, ◌||◌, List, [],
  ◌∷◌, ◌++◌,
}
use pakka.Prelude.{length, take, drop, ltb, leb, ◌==◌, if◌then◌else◌}

-- `(b & 0xC0) == 0x80`
unfoldable pub is_continuation : ℕ → Bool
is_continuation b = bit_and b 0xc0 == 0x80

unfoldable pub three_byte_cp : ℕ → ℕ → ℕ → ℕ
three_byte_cp c b1 b2 =
    bit_or (bit_or (bit_and c 0x0f * 2 ^ 12) (bit_and b1 0x3f * 2 ^ 6)) (bit_and b2 0x3f)

unfoldable pub four_byte_cp : ℕ → ℕ → ℕ → ℕ → ℕ
four_byte_cp c b1 b2 b3 =
    bit_or
      (bit_or (bit_or (bit_and c 0x07 * 2 ^ 18) (bit_and b1 0x3f * 2 ^ 12))
        (bit_and b2 0x3f * 2 ^ 6))
      (bit_and b3 0x3f)

-- The three kinds of longer sequences, from what follows the first byte; 0 is invalid.
unfoldable pub two_bytes : ℕ → List ℕ → ℕ
unfolding is_continuation
two_bytes c (b1 ∷ rest) = if ltb c 0xc2 then 0 else if is_continuation b1 then 2 else 0
two_bytes c _ = 0

unfoldable pub three_bytes : ℕ → List ℕ → ℕ
unfolding is_continuation three_byte_cp
three_bytes c (b1 ∷ b2 ∷ rest) =
    let cp = three_byte_cp c b1 b2 in
    if not (is_continuation b1) || not (is_continuation b2)
    then 0
    else if ltb cp 0x800
    then 0
    else if leb 0xd800 cp && leb cp 0xdfff
    then 0
    else 3
three_bytes c _ = 0

unfoldable pub four_bytes : ℕ → List ℕ → ℕ
unfolding is_continuation four_byte_cp
four_bytes c (b1 ∷ b2 ∷ b3 ∷ rest) =
    let cp = four_byte_cp c b1 b2 b3 in
    if ltb 0xf4 c
    then 0
    else if not (is_continuation b1) || (not (is_continuation b2) || not (is_continuation b3))
    then 0
    else if ltb cp 0x10000
    then 0
    else if ltb 0x10ffff cp
    then 0
    else 4
four_bytes c _ = 0

-- pakka_utf8_seq_len of the bytes that are left.
unfoldable pub seq_len : List ℕ → ℕ
unfolding two_bytes three_bytes four_bytes
seq_len [] = 0
seq_len (c ∷ rest) =
    if ltb c 0x80
    then 1
    else if bit_and c 0xe0 == 0xc0
    then two_bytes c rest
    else if bit_and c 0xf0 == 0xe0
    then three_bytes c rest
    else if bit_and c 0xf8 == 0xf0
    then four_bytes c rest
    else 0

-- A pass of the loop of pakka_is_valid_utf8 over a sequence of two, three or four bytes: by how much
-- `i` grows, or 0 where the function returns 0.
unfoldable pub advance_two : ℕ → List ℕ → ℕ
advance_two c (b1 ∷ rest) = if ltb c 0xc2 then 0 else if not (bit_and b1 0xc0 == 0x80) then 0 else 2
advance_two c _ = 0

unfoldable pub advance_three : ℕ → List ℕ → ℕ
advance_three c (b1 ∷ b2 ∷ rest) =
    let cp =
      bit_or (bit_or (bit_and c 0x0f * 2 ^ 12) (bit_and b1 0x3f * 2 ^ 6)) (bit_and b2 0x3f) in
    if not (bit_and b1 0xc0 == 0x80)
    then 0
    else if not (bit_and b2 0xc0 == 0x80)
    then 0
    else if ltb cp 0x800
    then 0
    else if leb 0xd800 cp && leb cp 0xdfff
    then 0
    else 3
advance_three c _ = 0

unfoldable pub advance_four : ℕ → List ℕ → ℕ
advance_four c (b1 ∷ b2 ∷ b3 ∷ rest) =
    let cp =
      bit_or
        (bit_or (bit_or (bit_and c 0x07 * 2 ^ 18) (bit_and b1 0x3f * 2 ^ 12))
          (bit_and b2 0x3f * 2 ^ 6))
        (bit_and b3 0x3f) in
    if ltb 0xf4 c
    then 0
    else if not (bit_and b1 0xc0 == 0x80)
    then 0
    else if not (bit_and b2 0xc0 == 0x80)
    then 0
    else if not (bit_and b3 0xc0 == 0x80)
    then 0
    else if ltb cp 0x10000
    then 0
    else if ltb 0x10ffff cp
    then 0
    else 4
advance_four c _ = 0

-- One pass of the loop.
unfoldable pub valid_step : List ℕ → ℕ
unfolding advance_two advance_three advance_four
valid_step [] = 0
valid_step (c ∷ rest) =
    if ltb c 0x80
    then 1
    else if bit_and c 0xe0 == 0xc0
    then advance_two c rest
    else if bit_and c 0xf0 == 0xe0
    then advance_three c rest
    else if bit_and c 0xf8 == 0xf0
    then advance_four c rest
    else 0

-- The loop of pakka_is_valid_utf8.
unfoldable pub valid_loop : ℕ → List ℕ → Bool
unfolding valid_step
valid_loop fuel [] = true
valid_loop zero (c ∷ rest) = false
valid_loop (suc fuel) (c ∷ rest) =
    let seq = valid_step (c ∷ rest) in
    let ahead = valid_loop fuel (drop seq (c ∷ rest)) in if seq == 0 then false else ahead

unfoldable pub is_valid_utf8 : List ℕ → Bool
unfolding valid_loop
is_valid_utf8 s = valid_loop (length s) s

-- The loop of pakka_utf8_substitute_invalid: the space that `dst` still has, its NUL included, and
-- the bytes that are left. It gives what is written, and whether a byte was substituted.
unfoldable pub substitute_loop : ℕ → ℕ → ℕ → List ℕ → List ℕ × Bool
unfolding seq_len
substitute_loop fuel space fill [] = ([], false)
substitute_loop zero space fill (c ∷ rest) = ([], false)
substitute_loop (suc fuel) space fill (c ∷ rest) =
    let seq = seq_len (c ∷ rest) in
    let step = if seq == 0 then 1 else seq in
    let (out, substituted) = substitute_loop fuel (space - step) fill (drop step (c ∷ rest)) in
    if leb space step
    then ([], false)
    else if seq == 0
    then (fill ∷ out, true)
    else (take seq (c ∷ rest) ++ out, substituted)

unfoldable pub utf8_substitute_invalid : List ℕ → ℕ → ℕ → List ℕ × Bool
unfolding substitute_loop
utf8_substitute_invalid src cap fill =
    if cap == 0 then ([], false) else substitute_loop (length src) cap fill src
