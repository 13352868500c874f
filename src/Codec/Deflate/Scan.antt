-- ===== src/Codec/Deflate/Scan.antt =====
-- What the scans of the encoder find: runs of one byte, and matches further back.
use pakka.Prelude.{ℕ, zero, suc, ◌+◌, ◌-◌, ◌≤◌, ◌<◌, ◌≡◌, arith, List, length}
use pakka.Prelude.{◌==◌, Bool-cases, ==_iff, inl, inr, leb, ltb, sym, if◌then◌else◌, if_intro}
use mathlib.Core.Path.{subst}
use native.Mathlib.Decide.{dec_lt}
use pakka.Codec.Deflate.{byte_at, cap, count_run, count_zero_run, count_byte_run, count_match}
use pakka.Codec.Deflate.{
  best_match, find_match, max_zero_run, max_byte_run, max_back_ref, min_back_ref, max_back_dist,
}

-- `len` bytes from `i` on are `b`.
abbrev pub IsRun : List ℕ → ℕ → ℕ → ℕ → Type 0
IsRun input b i len = (j : ℕ) → j < len → byte_at input (i + j) ≡ b

-- `len` bytes from `i` on are those `d` further back.
abbrev pub IsMatch : List ℕ → ℕ → ℕ → ℕ → Type 0
IsMatch input d i len = (j : ℕ) → j < len → byte_at input (i + j) ≡ byte_at input (i + j - d)

-- What holds below `len` and at `len` holds below `len + 1`.
below_suc :
    (P : ℕ → Type 0) (len : ℕ) → ((j : ℕ) → j < len → P j) → P len → (j : ℕ) → j < len + 1 → P j
below_suc P len h last j lt = elim (dec_lt j len) [
  | yes p ↦ h j p
  | no p ↦ let e : len ≡ j = omega arith in subst P e last
]

-- A counted run is a run, and grows by no more than the rounds left.
pub count_run_lem :
    (input : List ℕ) (b i left len : ℕ)
    → IsRun input b i len
    → IsRun input b i (count_run input b i left len)
      × (len ≤ count_run input b i left len)
      × (count_run input b i left len ≤ len + left)
unfolding count_run
count_run_lem input b i zero len h = (h, omega arith, omega arith)
count_run_lem input b i (suc left) len h = elim (Bool-cases (byte_at input (i + len) == b)) [
  | inl e ↦
      let grown : IsRun input b i (len + 1) = below_suc _ len h ((==_iff _ _).0 e) in
      let (run, lo, hi) = count_run_lem input b i left (len + 1) grown in
      rw e (run, omega arith, omega arith)
  | inr e ↦ rw e (h, omega arith, omega arith)
]

pub count_match_lem :
    (input : List ℕ) (d i left len : ℕ)
    → IsMatch input d i len
    → IsMatch input d i (count_match input d i left len)
      × (count_match input d i left len ≤ len + left)
unfolding count_match
count_match_lem input d i zero len h = (h, omega arith)
count_match_lem input d i (suc left) len h =
    elim (Bool-cases (byte_at input (i + len) == byte_at input (i + len - d))) [
      | inl e ↦
          let grown : IsMatch input d i (len + 1) = below_suc _ len h ((==_iff _ _).0 e) in
          let (found, hi) = count_match_lem input d i left (len + 1) grown in
          rw e (found, omega arith)
      | inr e ↦ rw e (h, omega arith)
    ]

pub count_zero_run_lem :
    (input : List ℕ) (i : ℕ)
    → i ≤ length input
    → IsRun input 0 i (count_zero_run input i)
      × (count_zero_run input i ≤ 64)
      × (i + count_zero_run input i ≤ length input)
unfolding count_zero_run
count_zero_run_lem input i h =
    let (run, lo, hi) =
      count_run_lem input 0 i (cap max_zero_run (length input - i)) 0
        (λ j lt. absurd (omega arith)) in
    (run, ground arith, ground arith)

pub count_byte_run_lem :
    (input : List ℕ) (i : ℕ)
    → i ≤ length input
    → IsRun input (byte_at input i) i (count_byte_run input i)
      × (count_byte_run input i ≤ 64)
      × (i + count_byte_run input i ≤ length input)
unfolding count_byte_run
count_byte_run_lem input i h = elim (Bool-cases (leb (length input) i)) [
  | inl e ↦ rw e ((λ j lt. absurd (omega arith)), omega arith, omega arith)
  | inr e ↦
      let first : IsRun input (byte_at input i) i 1 =
        λ j lt. let e' : i + j ≡ i = omega arith in rw e' in
      let (run, lo, hi) =
        count_run_lem input (byte_at input i) i (cap max_byte_run (length input - i) - 1) 1 first in
      rw e (run, ground arith, ground arith)
]

-- A match of the encoder: nothing, or bytes that lie between 2 and 257 back, no more of them than
-- the distance, 62 or the end of the input allow.
pub record IsFound (input : List ℕ) (i : ℕ) (m : ℕ × ℕ) : Type 0 where
  pub matches : IsMatch input m.1 i m.0
  pub room : i + m.0 ≤ length input
  pub short : m.0 ≤ 62
  pub apart : m.0 ≤ m.1
  pub distance : 3 ≤ m.0 → (2 ≤ m.1) × (m.1 ≤ i) × (m.1 ≤ 257)

-- The cap of dk_find_match on the length of a match at distance `d`.
abbrev per_d_cap : List ℕ → ℕ → ℕ → ℕ
per_d_cap input i d = cap (length input - i) (if ltb d max_back_ref then d else max_back_ref)

-- A match counted at distance `d` behind an equal first byte.
counted-IsFound :
    (input : List ℕ) (i d : ℕ)
    → i ≤ length input
    → 2 ≤ d
    → d ≤ i
    → d ≤ 257
    → 3 ≤ per_d_cap input i d
    → byte_at input (i - d) ≡ byte_at input i
    → IsFound input i (count_match input d i (per_d_cap input i d - 1) 1, d)
counted-IsFound input i d hi hd hm hx big same =
    let first : IsMatch input d i 1 = λ j lt. let e : i + j ≡ i = omega arith in rw e (sym same) in
    let (found, hi) = count_match_lem input d i (per_d_cap input i d - 1) 1 first in
    let (left_cap, ref_cap, own_cap) = caps input i d in
    record {
      matches = found;
      room = omega arith;
      short = omega arith;
      apart = omega arith;
      distance = λ h. (hd, hm, hx);
    }
  where
    caps :
        (input : List ℕ) (i d : ℕ)
        → (per_d_cap input i d ≤ length input - i)
          × (per_d_cap input i d ≤ 62)
          × (per_d_cap input i d ≤ d)
    caps input i d = ground arith

best_match-IsFound :
    (input : List ℕ) (i left d : ℕ) (best : ℕ × ℕ)
    → i ≤ length input
    → 2 ≤ d
    → d + left ≤ i + 1
    → d + left ≤ 258
    → IsFound input i best
    → IsFound input i (best_match input i left d best)
unfolding best_match
best_match-IsFound input i zero d best hi hd hm hx h = h
best_match-IsFound input i (suc left) d best hi hd hm hx h =
    let len : ℕ = count_match input d i (per_d_cap input i d - 1) 1 in
    let rest : IsFound input i (best_match input i left (d + 1) best) =
      best_match-IsFound input i left (d + 1) best hi (omega arith) (omega arith) (omega arith) h in
    let better : IsFound input i (len, d)
        → IsFound input i (best_match input i left (d + 1) (len, d)) =
      best_match-IsFound input i left (d + 1) (len, d) hi (omega arith) (omega arith)
        (omega arith) in
    if_intro (IsFound input i) (ltb (per_d_cap input i d) min_back_ref) (λ _. rest)
      (λ big.
        if_intro (IsFound input i) (byte_at input (i - d) == byte_at input i)
          (λ same.
            let found : IsFound input i (len, d) =
              counted-IsFound input i d hi hd (omega arith) (omega arith) (ground arith)
                ((==_iff _ _).0 same) in
            if_intro (IsFound input i) (ltb best.0 len)
              (λ _.
                if_intro (IsFound input i) (len == max_back_ref) (λ _. found) (λ _. better found))
              (λ _. rest))
          (λ _. rest))

-- What dk_find_match returns at a position of the input is nothing or a match in the window that does
-- not overlap what it is copied to.
pub find_match-IsFound :
    (input : List ℕ) (i : ℕ) → i ≤ length input → IsFound input i (find_match input i)
unfolding find_match
find_match-IsFound input i h =
    let none_found : IsFound input i (0, 0) = record {
      matches = λ j lt. absurd (omega arith);
      room = omega arith;
      short = omega arith;
      apart = omega arith;
      distance = λ few. absurd (omega arith);
    } in
    let max_d : ℕ = if ltb i max_back_dist then i else max_back_dist in
    let best : ℕ × ℕ = best_match input i (max_d - 1) 2 (0, 0) in
    if_intro (IsFound input i) (ltb i 2) (λ _. none_found)
      (λ far.
        if_intro (IsFound input i) (ltb (length input - i) min_back_ref) (λ _. none_found)
          (λ _.
            if_intro (IsFound input i) (ltb best.0 min_back_ref) (λ _. none_found)
              (λ _.
                best_match-IsFound input i (max_d - 1) 2 (0, 0) h (omega arith) (ground arith)
                  (ground arith) none_found)))
