-- ===== src/Utf8/Substitute.antt =====
-- What pakka_utf8_substitute_invalid of src/common.c writes.
use pakka.Prelude.{
  ℕ, zero, suc, ◌+◌, ◌-◌, ◌≤◌, ◌<◌, ◌≡◌, refl, sym, ap, ◌∙◌, arith, Bool, true, false, inl, inr,
}
use pakka.Prelude.{
  List, [], ◌∷◌, ◌++◌, length, length-append, length-drop, take, drop, take-append, drop-append,
  ltb, leb, ◌==◌, if_intro, Bool-cases,
}
use mathlib.Core.Path.{subst}
use pakka.Utf8.Agree.{valid_step-seq_len}
use pakka.Utf8.{
  valid_step, seq_len, valid_loop, is_valid_utf8, substitute_loop, utf8_substitute_invalid,
}
use pakka.Utf8.Sequences.{IsSequence, seq_len-cases}

nonzero : (n : ℕ) → 0 < n → (n == 0) ≡ false
nonzero n h = ground arith

-- Any fuel that covers the bytes gives the same answer.
valid_loop-enough :
    (f g : ℕ) (s : List ℕ) → length s ≤ f → length s ≤ g → valid_loop f s ≡ valid_loop g s
unfolding valid_loop
valid_loop-enough f g [] h k = refl
valid_loop-enough zero g (c ∷ s) h k = absurd (omega arith)
valid_loop-enough (suc f) zero (c ∷ s) h k = absurd (omega arith)
valid_loop-enough (suc f) (suc g) (c ∷ s) h k = elim (seq_len-cases (c ∷ s)) [
  | inl invalid ↦ rw (valid_step-seq_len (c ∷ s) ∙ invalid, valid_loop) refl
  | inr q ↦
      let step : valid_step (c ∷ s) ≡ length q.chunk = valid_step-seq_len (c ∷ s) ∙ q.size in
      let left : length (drop (length q.chunk) (c ∷ s)) ≤ length s =
        omega (arith, length-drop (length q.chunk) (c ∷ s), q.positive) in
      rw (step, valid_loop)
        (rw (nonzero (length q.chunk) q.positive) (
          valid_loop-enough f g (drop (length q.chunk) (c ∷ s)) (omega (arith, left))
            (omega (arith, left))))
]

-- A sequence in front of valid bytes.
pub is_valid_utf8-sequence :
    (chunk more : List ℕ)
    → 0 < length chunk
    → seq_len (chunk ++ more) ≡ length chunk
    → is_valid_utf8 (chunk ++ more) ≡ is_valid_utf8 more
unfolding is_valid_utf8 valid_loop
is_valid_utf8-sequence [] more h e = absurd (omega arith)
is_valid_utf8-sequence (c ∷ chunk) more h e =
    rw (valid_step-seq_len (c ∷ (chunk ++ more)) ∙ e, valid_loop)
      (rw (nonzero (suc (length chunk)) h, drop-append (c ∷ chunk) more)
        (valid_loop-enough (length (chunk ++ more)) (length more) more
          (omega (arith, length-append chunk more)) (omega arith)))

pub nothing_valid : is_valid_utf8 [] ≡ true
unfolding is_valid_utf8 valid_loop
nothing_valid = refl

invalid_start : (c : ℕ) (s : List ℕ) → seq_len (c ∷ s) ≡ 0 → is_valid_utf8 (c ∷ s) ≡ false
unfolding is_valid_utf8 valid_loop
invalid_start c s e = rw (valid_step-seq_len (c ∷ s) ∙ e, valid_loop) refl

too_small : (space n : ℕ) → n < space → leb space n ≡ false
too_small space n h = ground arith

pub ascii_seq : (c : ℕ) (more : List ℕ) → c < 0x80 → seq_len (c ∷ more) ≡ 1
unfolding seq_len
ascii_seq c more h = let small : ltb c 0x80 ≡ true = ground arith in rw small refl

chunk_taken :
    (s : List ℕ) (q : IsSequence s)
    → (take (length q.chunk) s ≡ q.chunk) × (drop (length q.chunk) s ≡ q.rest)
chunk_taken s q = (
  ap (λ t. take (length q.chunk) t) q.split ∙ take-append q.chunk q.rest,
  ap (λ t. drop (length q.chunk) t) q.split ∙ drop-append q.chunk q.rest,
)

substitute_loop-valid :
    (fuel space fill : ℕ) (s : List ℕ)
    → fill < 0x80
    → is_valid_utf8 (substitute_loop fuel space fill s).0 ≡ true
unfolding substitute_loop
substitute_loop-valid fuel space fill [] h = nothing_valid
substitute_loop-valid zero space fill (c ∷ s) h = nothing_valid
substitute_loop-valid (suc fuel) space fill (c ∷ s) h = elim (seq_len-cases (c ∷ s)) [
  | inl invalid ↦ elim (Bool-cases (leb space 1)) [
    | inl full ↦ rw (invalid, substitute_loop) (rw full nothing_valid)
    | inr room ↦
        rw (invalid, substitute_loop)
          (rw room (
            is_valid_utf8-sequence (fill ∷ []) (substitute_loop fuel (space - 1) fill s).0
              (omega arith) (ascii_seq fill (substitute_loop fuel (space - 1) fill s).0 h)
            ∙ substitute_loop-valid fuel (space - 1) fill s h))
  ]
  | inr q ↦
      let n = length q.chunk in
      let some_bytes : (n == 0) ≡ false = nonzero n q.positive in
      let (taken, dropped) = chunk_taken (c ∷ s) q in
      elim (Bool-cases (leb space n)) [
        | inl full ↦ rw (q.size, substitute_loop) (rw some_bytes (rw full nothing_valid))
        | inr room ↦
            let out : List ℕ = (substitute_loop fuel (space - n) fill q.rest).0 in
            rw (q.size, substitute_loop)
              (rw some_bytes (
                rw room (
                  rw (taken, dropped)
                    (is_valid_utf8-sequence q.chunk out q.positive (q.any out)
                      ∙ substitute_loop-valid fuel (space - n) fill q.rest h))))
      ]
]

-- With a fill byte below 0x80, pakka_utf8_substitute_invalid writes valid UTF-8 whatever the source
-- and the capacity, by the judgement of pakka_is_valid_utf8, also where it stops for lack of space.
pub utf8_substitute_invalid-valid :
    (src : List ℕ) (cap fill : ℕ)
    → fill < 0x80
    → is_valid_utf8 (utf8_substitute_invalid src cap fill).0 ≡ true
unfolding utf8_substitute_invalid
utf8_substitute_invalid-valid src cap fill h =
    if_intro (λ (r : List ℕ × Bool). is_valid_utf8 r.0 ≡ true) (cap == 0) (λ _. nothing_valid)
      (λ _. substitute_loop-valid (length src) cap fill src h)

substitute_loop-same :
    (fuel space fill : ℕ) (s : List ℕ)
    → length s ≤ fuel
    → length s < space
    → is_valid_utf8 s ≡ true
    → substitute_loop fuel space fill s ≡ (s, false)
unfolding substitute_loop
substitute_loop-same fuel space fill [] f r v = refl
substitute_loop-same zero space fill (c ∷ s) f r v = absurd (omega arith)
substitute_loop-same (suc fuel) space fill (c ∷ s) f r v = elim (seq_len-cases (c ∷ s)) [
  | inl invalid ↦ let bad = invalid_start c s invalid in cc
  | inr q ↦
      let n = length q.chunk in
      let some_bytes : (n == 0) ≡ false = nonzero n q.positive in
      let (taken, dropped) = chunk_taken (c ∷ s) q in
      let total : suc (length s) ≡ n + length q.rest =
        ap (λ (t : List ℕ). length t) q.split ∙ length-append q.chunk q.rest in
      let room : leb space n ≡ false = too_small space n (omega (arith, total)) in
      let rest_valid : is_valid_utf8 q.rest ≡ true =
        sym (is_valid_utf8-sequence q.chunk q.rest q.positive (q.any q.rest))
        ∙ subst (λ t. is_valid_utf8 t ≡ true) q.split v in
      rw (q.size, substitute_loop)
        (rw some_bytes (
          rw room (
            rw (taken, dropped)
              (rw
                (substitute_loop-same fuel (space - n) fill q.rest
                  (omega (arith, total, q.positive)) (omega (arith, total)) rest_valid)
                (ap (λ (t : List ℕ). (t, false)) (sym q.split))))))
]

-- Valid UTF-8 that fits with its NUL is copied as it is, and nothing is reported as substituted.
pub utf8_substitute_invalid-same :
    (src : List ℕ) (cap fill : ℕ)
    → length src < cap
    → is_valid_utf8 src ≡ true
    → utf8_substitute_invalid src cap fill ≡ (src, false)
unfolding utf8_substitute_invalid
utf8_substitute_invalid-same src cap fill r v =
    rw (nonzero cap (omega (arith, r)))
      (substitute_loop-same (length src) cap fill src (omega arith) r v)
