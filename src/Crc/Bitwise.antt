-- ===== src/Crc/Bitwise.antt =====
-- The table-driven CRC-32 of src/common.c is the bitwise one, and can be taken in pieces.
use pakka.Prelude.{
  ℕ, zero, suc, ◌+◌, ◌*◌, ◌/◌, ◌%◌, ◌^◌, ◌<◌, ◌≡◌, refl, sym, ap, ◌∙◌, arith, bit_and, bit_xor,
  true, false, inl, inr,
}
use pakka.Prelude.{List, [], ◌∷◌, ◌++◌, get_or, All, IsByte, ◌==◌, if◌then◌else◌, Bool-cases}
use pakka.Prelude.Bits.{
  bit_xor_step, bit_xor_assoc, bit_xor_cancel, bit_xor_comm, bit_xor_fields, bit_and_mask,
  bit_xor-lt,
}
use pakka.Crc.{crc32_table, crc32_round, crc32_loop, crc32_update}

-- `c = c & 1 ? 0xEDB88320 ^ (c >> 1) : c >> 1`, the step that the table's comment gives.
unfoldable pub shift : ℕ → ℕ
shift c = if c % 2 == 1 then bit_xor 0xedb88320 (c / 2) else c / 2

unfoldable pub shifts : ℕ → ℕ → ℕ
unfolding shift
shifts zero c = c
shifts (suc n) c = shifts n (shift c)

-- The bytes taken in one bit at a time.
unfoldable pub bitwise_loop : ℕ → List ℕ → ℕ
unfolding shifts
bitwise_loop crc [] = crc
bitwise_loop crc (byte ∷ bytes) = bitwise_loop (shifts 8 (bit_xor crc byte)) bytes

table_from : ℕ → ℕ → List ℕ
table_from i zero = []
table_from i (suc n) = shifts 8 i ∷ table_from (i + 1) n

-- The table holds what its comment says.
table_lem : crc32_table ≡ table_from 0 256
unfolding crc32_table table_from shifts
table_lem = refl

-- A checksum can be taken in pieces: that of the second piece, started from that of the first, is
-- that of both.
pub crc32_update-append :
    (crc : ℕ) (a b : List ℕ) → crc32_update (crc32_update crc a) b ≡ crc32_update crc (a ++ b)
unfolding crc32_update
crc32_update-append crc a b =
    rw bit_xor_cancel (ap (λ t. bit_xor t 0xffffffff) (loop_append (bit_xor crc 0xffffffff) a))
  where
    loop_append : (c : ℕ) (xs : List ℕ) → crc32_loop (crc32_loop c xs) b ≡ crc32_loop c (xs ++ b)
    loop_append c [] = refl
    loop_append c (x ∷ xs) = loop_append (crc32_round c x) xs

xor_swap : (p x y : ℕ) → bit_xor p (bit_xor x y) ≡ bit_xor x (bit_xor p y)
xor_swap p x y =
    sym (bit_xor_assoc p x y) ∙ ap (λ t. bit_xor t y) (bit_xor_comm p x) ∙ bit_xor_assoc x p y

xor_both : (p x y : ℕ) → bit_xor (bit_xor p x) (bit_xor p y) ≡ bit_xor x y
xor_both p x y =
    ap (λ t. bit_xor t (bit_xor p y)) (bit_xor_comm p x)
    ∙ bit_xor_assoc x p (bit_xor p y)
    ∙ ap (λ t. bit_xor x t)
        (bit_xor_comm p (bit_xor p y)
          ∙ ap (λ t. bit_xor t p) (bit_xor_comm p y)
          ∙ bit_xor_cancel y p)

half : (a b : ℕ) → (bit_xor a b / 2 ≡ bit_xor (a / 2) (b / 2)) × (bit_xor a b % 2 ≡ (a + b) % 2)
half a b = omega (arith, bit_xor_step a b)

odd_or_even : (a : ℕ) → ((a % 2 == 1) ≡ true → a % 2 ≡ 1) × ((a % 2 == 1) ≡ false → a % 2 ≡ 0)
odd_or_even a = ground arith

-- The step is linear.
shift_xor : (a b : ℕ) → shift (bit_xor a b) ≡ bit_xor (shift a) (shift b)
unfolding shift
shift_xor a b = elim (Bool-cases (a % 2 == 1)) [
  | inl odd_a ↦ elim (Bool-cases (b % 2 == 1)) [
    | inl odd_b ↦
        let even : (bit_xor a b % 2 == 1) ≡ false = ground (arith, half a b, odd_a, odd_b) in
        rw (odd_a, odd_b, even, (half a b).0) (sym (xor_both 0xedb88320 (a / 2) (b / 2)))
    | inr even_b ↦
        let odd : (bit_xor a b % 2 == 1) ≡ true = ground (arith, half a b, odd_a, even_b) in
        rw (odd_a, even_b, odd, (half a b).0) (sym (bit_xor_assoc 0xedb88320 (a / 2) (b / 2)))
  ]
  | inr even_a ↦ elim (Bool-cases (b % 2 == 1)) [
    | inl odd_b ↦
        let odd : (bit_xor a b % 2 == 1) ≡ true = ground (arith, half a b, even_a, odd_b) in
        rw (even_a, odd_b, odd, (half a b).0) (xor_swap 0xedb88320 (a / 2) (b / 2))
    | inr even_b ↦
        let even : (bit_xor a b % 2 == 1) ≡ false = ground (arith, half a b, even_a, even_b) in
        rw (even_a, even_b, even, (half a b).0) refl
  ]
]

shifts_xor : (n a b : ℕ) → shifts n (bit_xor a b) ≡ bit_xor (shifts n a) (shifts n b)
unfolding shifts
shifts_xor zero a b = refl
shifts_xor (suc n) a b = rw shift_xor (shifts_xor n (shift a) (shift b))

shift-double : (h : ℕ) → shift (h * 2) ≡ h
unfolding shift
shift-double h = ground arith

shifts-high : (h : ℕ) → shifts 8 (h * 2 ^ 8) ≡ h
unfolding shifts
shifts-high h =
    let by : (k : ℕ) → h * (k * 2) ≡ h * k * 2 = λ k. omega arith in
    rw
      (
        by 128,
        shift-double,
        by 64,
        shift-double,
        by 32,
        shift-double,
        by 16,
        shift-double,
        by 8,
        shift-double,
        by 4,
        shift-double,
        by 2,
        shift-double,
        by 1,
        shift-double,
      )
      (omega arith)

get_or-table_from : (i n j : ℕ) → j < n → get_or (table_from i n) j 0 ≡ shifts 8 (i + j)
unfolding table_from
get_or-table_from i zero j h = absurd (omega arith)
get_or-table_from i (suc n) zero h = ap (λ k. shifts 8 k) (omega arith)
get_or-table_from i (suc n) (suc j) h =
    get_or-table_from (i + 1) n j (omega arith) ∙ ap (λ k. shifts 8 k) (omega arith)

-- A round takes in eight bits.
round_lem : (crc byte : ℕ) → byte < 256 → crc32_round crc byte ≡ shifts 8 (bit_xor crc byte)
unfolding crc32_round
round_lem crc byte small =
    let low = crc % 256 in
    let high = crc / 256 in
    let x = bit_xor low byte in
    let x_small : x < 2 ^ 8 = bit_xor-lt 8 low byte (omega arith) small in
    let parts : bit_xor low (high * 2 ^ 8) ≡ crc =
      bit_xor_fields 8 low high (omega arith) ∙ omega arith in
    let whole : bit_xor crc byte ≡ bit_xor x (high * 2 ^ 8) =
      ap (λ t. bit_xor t byte) (sym parts)
      ∙ bit_xor_assoc low (high * 2 ^ 8) byte
      ∙ ap (λ t. bit_xor low t) (bit_xor_comm (high * 2 ^ 8) byte)
      ∙ sym (bit_xor_assoc low byte (high * 2 ^ 8)) in
    let index : bit_and (bit_xor crc byte) 0xff ≡ x =
      bit_and_mask 8 (bit_xor crc byte) ∙ omega (arith, whole, bit_xor_fields 8 x high x_small) in
    let entry : get_or crc32_table x 0 ≡ shifts 8 x =
      ap (λ t. get_or t x 0) table_lem
      ∙ get_or-table_from 0 256 x x_small
      ∙ ap (λ k. shifts 8 k) (omega arith) in
    rw (index, entry)
      (sym (
        ap (λ t. shifts 8 t) whole
        ∙ shifts_xor 8 x (high * 2 ^ 8)
        ∙ ap (λ t. bit_xor (shifts 8 x) t) (shifts-high high)))

-- The table-driven checksum of a buffer of bytes is the one that takes in a bit at a time, by the
-- reflected polynomial 0xEDB88320, from any start.
pub crc32_update-bitwise_loop :
    (crc : ℕ) (buf : List ℕ)
    → All IsByte buf
    → crc32_update crc buf ≡ bit_xor (bitwise_loop (bit_xor crc 0xffffffff) buf) 0xffffffff
unfolding crc32_update bitwise_loop
crc32_update-bitwise_loop crc buf h =
    ap (λ t. bit_xor t 0xffffffff) (loops (bit_xor crc 0xffffffff) buf h)
  where
    loops : (c : ℕ) (xs : List ℕ) → All IsByte xs → crc32_loop c xs ≡ bitwise_loop c xs
    loops c [] h = refl
    loops c (x ∷ xs) h = rw (round_lem c x h.0) (loops (shifts 8 (bit_xor c x)) xs h.1)
