-- ===== src/Prelude/Bits.antt =====
-- The bit operations on numbers of any width: their lowest digit, masks, disjoint fields, and the
-- group laws of `^`.
use Prim.Native.Nat.{ℕ, zero, suc, ◌+◌, ◌*◌, ◌/◌, ◌%◌, ◌^◌, ◌-◌, ◌≤◌, ◌<◌, min, max, digits, differ}
use Prim.Native.Nat.{bit_and, bit_or, bit_xor, bit_and-bitwise, bit_or-bitwise, bit_xor-bitwise}
use mathlib.Core.Path.{◌≡◌, refl, sym, ap, ◌∙◌}
use native.Mathlib.Nat.{pow-suc, one-le-pow, div-add-mod, mod-lt}
use native.Mathlib.Nat.{add-mul-mod_self_right, mod-eq_of_lt}
use native.Mathlib.Omega.{arith}

-- Any fuel that covers the first number gives the same digits.
module _ (at_zero : ℕ → ℕ) (op : ℕ → ℕ → ℕ) where
  abbrev run : ℕ → ℕ → ℕ → ℕ
  run = digits at_zero op

  run_zero : (n b : ℕ) → run n 0 b ≡ at_zero b
  run_zero zero b = refl
  run_zero (suc n) b = refl

  run_more : (n extra a b : ℕ) → a ≤ n → run (n + extra) a b ≡ run n a b
  run_more n extra zero b h = run_zero (n + extra) b ∙ sym (run_zero n b)
  run_more zero extra (suc a) b h = absurd (omega arith)
  run_more (suc n) extra (suc a) b h =
      let e : suc n + extra ≡ suc (n + extra) = omega arith in
      rw (e, run_more n extra (suc a / 2) (b / 2) (omega arith))

  run_enough : (n a b : ℕ) → a ≤ n → run n a b ≡ run a a b
  run_enough n a b h =
      let e : n ≡ a + (n - a) = omega arith in
      ap (λ k. run k a b) e ∙ run_more a (n - a) a b (omega arith)

  run-suc :
      (a b : ℕ)
      → run (suc a) (suc a) b ≡ run (suc a / 2) (suc a / 2) (b / 2) * 2 + op (suc a % 2) (b % 2)
  run-suc a b = rw (run_enough a (suc a / 2) (b / 2) (omega arith))

pub bit_and_step : (x y : ℕ) → bit_and x y ≡ min (x % 2) (y % 2) + bit_and (x / 2) (y / 2) * 2
bit_and_step zero y = simp bit_and-bitwise (omega arith)
bit_and_step (suc x) y = simp bit_and-bitwise (omega (arith, run-suc (λ _. 0) min x y))

pub bit_or_step : (x y : ℕ) → bit_or x y ≡ max (x % 2) (y % 2) + bit_or (x / 2) (y / 2) * 2
bit_or_step zero y = simp bit_or-bitwise (omega arith)
bit_or_step (suc x) y = simp bit_or-bitwise (omega (arith, run-suc (λ digit. digit) max x y))

differ_bits : (x y : ℕ) → x < 2 → y < 2 → differ x y ≡ (x + y) % 2
differ_bits zero y p q = omega arith
differ_bits (suc zero) zero p q = refl
differ_bits (suc zero) (suc zero) p q = refl
differ_bits (suc zero) (suc (suc y)) p q = absurd (omega arith)
differ_bits (suc (suc x)) y p q = absurd (omega arith)

pub bit_xor_step : (a b : ℕ) → bit_xor a b ≡ bit_xor (a / 2) (b / 2) * 2 + (a + b) % 2
bit_xor_step zero b = simp bit_xor-bitwise (omega arith)
bit_xor_step (suc a) b = simp bit_xor-bitwise (
    omega (
      arith,
      run-suc (λ b. b) differ a b,
      differ_bits (suc a % 2) (b % 2) (omega arith) (omega arith),
    ))

module _ (k : ℕ) where
  double : (q : ℕ) → q * 2 ^ suc k ≡ 2 * (q * 2 ^ k)
  double q = omega (arith, ap (λ (t : ℕ). q * t) (pow-suc 2 k))

-- A field below bit `k` and one from bit `k` on.
pub bit_or_fields : (k low high : ℕ) → low < 2 ^ k → bit_or low (high * 2 ^ k) ≡ low + high * 2 ^ k
bit_or_fields zero low high h =
    let e : low ≡ 0 = omega arith in rw e (bit_or-bitwise 0 (high * 1) ∙ omega arith)
bit_or_fields (suc k) low high h = ground (
  arith,
  bit_or_step low (high * 2 ^ suc k),
  double k high,
  pow-suc 2 k,
  bit_or_fields k (low / 2) high,
)

bit_and-none : (n a : ℕ) → a ≤ n → bit_and a 0 ≡ 0
bit_and-none n zero h = refl
bit_and-none zero (suc a) h = absurd (omega arith)
bit_and-none (suc n) (suc a) h =
    omega (arith, bit_and_step (suc a) 0, bit_and-none n (suc a / 2) (omega arith))

half_mod : (k a : ℕ) → a % 2 ^ suc k ≡ a / 2 % 2 ^ k * 2 + a % 2
half_mod k a =
    let r : ℕ = a / 2 % 2 ^ k * 2 + a % 2 in
    let small : a / 2 % 2 ^ k < 2 ^ k = mod-lt (a / 2) (one-le-pow k 2 (omega arith)) in
    let whole : a ≡ r + a / 2 / 2 ^ k * 2 ^ suc k =
      omega (arith, div-add-mod (a / 2) (2 ^ k), double k (a / 2 / 2 ^ k)) in
    ap (λ t. t % 2 ^ suc k) whole
    ∙ add-mul-mod_self_right r (a / 2 / 2 ^ k) (2 ^ suc k)
    ∙ mod-eq_of_lt (omega (arith, pow-suc 2 k))

-- A mask of low ones is a remainder.
pub bit_and_mask : (k a : ℕ) → bit_and a (2 ^ k - 1) ≡ a % 2 ^ k
bit_and_mask zero a = bit_and-none a a (omega arith) ∙ omega arith
bit_and_mask (suc k) a = ground (
  arith,
  bit_and_step a (2 ^ suc k - 1),
  pow-suc 2 k,
  one-le-pow k 2,
  bit_and_mask k (a / 2),
  half_mod k a,
)

-- `^ b` twice is nothing.
xor_twice : (n a b : ℕ) → a ≤ n → b ≤ n → bit_xor (bit_xor a b) b ≡ a
xor_twice zero zero zero p q = refl
xor_twice zero zero (suc b) p q = absurd (omega arith)
xor_twice zero (suc a) b p q = absurd (omega arith)
xor_twice (suc n) a b p q =
    ground (arith, bit_xor_step a b, bit_xor_step (bit_xor a b) b, xor_twice n (a / 2) (b / 2))

pub bit_xor_cancel : (a b : ℕ) → bit_xor (bit_xor a b) b ≡ a
bit_xor_cancel a b = xor_twice (a + b) a b (omega arith) (omega arith)

xor_assoc :
    (n a b c : ℕ) → a ≤ n → b ≤ n → c ≤ n → bit_xor (bit_xor a b) c ≡ bit_xor a (bit_xor b c)
xor_assoc zero zero zero zero p q r = refl
xor_assoc zero zero zero (suc c) p q r = absurd (omega arith)
xor_assoc zero zero (suc b) c p q r = absurd (omega arith)
xor_assoc zero (suc a) b c p q r = absurd (omega arith)
xor_assoc (suc n) a b c p q r = ground (
  arith,
  bit_xor_step a b,
  bit_xor_step b c,
  bit_xor_step (bit_xor a b) c,
  bit_xor_step a (bit_xor b c),
  xor_assoc n (a / 2) (b / 2) (c / 2),
)

pub bit_xor_assoc : (a b c : ℕ) → bit_xor (bit_xor a b) c ≡ bit_xor a (bit_xor b c)
bit_xor_assoc a b c = xor_assoc (a + b + c) a b c (omega arith) (omega arith) (omega arith)

xor-lt : (k a b : ℕ) → a < 2 ^ k → b < 2 ^ k → bit_xor a b < 2 ^ k
xor-lt zero a b p q =
    let ea : a ≡ 0 = omega arith in let eb : b ≡ 0 = omega arith in rw (ea, eb) (omega arith)
xor-lt (suc k) a b p q = ground (arith, bit_xor_step a b, pow-suc 2 k, xor-lt k (a / 2) (b / 2))

-- `^` stays within a word.
pub bit_xor-lt : (k a b : ℕ) → a < 2 ^ k → b < 2 ^ k → bit_xor a b < 2 ^ k
bit_xor-lt = xor-lt

xor_comm : (n a b : ℕ) → a ≤ n → b ≤ n → bit_xor a b ≡ bit_xor b a
xor_comm zero zero zero p q = refl
xor_comm zero zero (suc b) p q = absurd (omega arith)
xor_comm zero (suc a) b p q = absurd (omega arith)
xor_comm (suc n) a b p q =
    ground (arith, bit_xor_step a b, bit_xor_step b a, xor_comm n (a / 2) (b / 2))

pub bit_xor_comm : (a b : ℕ) → bit_xor a b ≡ bit_xor b a
bit_xor_comm a b = xor_comm (a + b) a b (omega arith) (omega arith)

-- Disjoint fields under `^`.
pub bit_xor_fields :
    (k low high : ℕ) → low < 2 ^ k → bit_xor low (high * 2 ^ k) ≡ low + high * 2 ^ k
bit_xor_fields zero low high h =
    let e : low ≡ 0 = omega arith in rw e (bit_xor-bitwise 0 (high * 1) ∙ omega arith)
bit_xor_fields (suc k) low high h = ground (
  arith,
  bit_xor_step low (high * 2 ^ suc k),
  double k high,
  pow-suc 2 k,
  bit_xor_fields k (low / 2) high,
)
