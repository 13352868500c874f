-- ===== src/Utf8/Agree.antt =====
-- pakka_is_valid_utf8 and pakka_utf8_seq_len of src/common.c, which code the same checks twice.
use pakka.Prelude.{
  ℕ, ◌≡◌, refl, ap, ◌∙◌, Bool, true, false, not, ◌||◌, List, [], ◌∷◌, ◌==◌, bit_and, ltb,
  if◌then◌else◌,
}
use pakka.Utf8.{
  advance_two, advance_three, advance_four, valid_step, is_continuation, three_byte_cp,
  four_byte_cp, two_bytes, three_bytes, four_bytes, seq_len,
}

-- One guard with an `||` is two guards with the same outcome.
guards : (a b : Bool) (x y : ℕ) → (if a then x else if b then x else y) ≡ (if a || b then x else y)
guards true b x y = refl
guards false b x y = refl

negated : (b : Bool) (x y : ℕ) → (if not b then x else y) ≡ (if b then y else x)
negated true x y = refl
negated false x y = refl

advance_two-two_bytes : (c : ℕ) (s : List ℕ) → advance_two c s ≡ two_bytes c s
unfolding advance_two two_bytes is_continuation
advance_two-two_bytes c [] = refl
advance_two-two_bytes c (b1 ∷ s) =
    ap (λ t. if ltb c 0xc2 then 0 else t) (negated (bit_and b1 0xc0 == 0x80) 0 2)

advance_three-three_bytes : (c : ℕ) (s : List ℕ) → advance_three c s ≡ three_bytes c s
unfolding advance_three three_bytes is_continuation three_byte_cp
advance_three-three_bytes c [] = refl
advance_three-three_bytes c (b1 ∷ []) = refl
advance_three-three_bytes c (b1 ∷ b2 ∷ s) =
    guards (not (bit_and b1 0xc0 == 0x80)) (not (bit_and b2 0xc0 == 0x80)) 0 _

advance_four-four_bytes : (c : ℕ) (s : List ℕ) → advance_four c s ≡ four_bytes c s
unfolding advance_four four_bytes is_continuation four_byte_cp
advance_four-four_bytes c [] = refl
advance_four-four_bytes c (b1 ∷ []) = refl
advance_four-four_bytes c (b1 ∷ b2 ∷ []) = refl
advance_four-four_bytes c (b1 ∷ b2 ∷ b3 ∷ s) =
    let k1 = not (bit_and b1 0xc0 == 0x80) in
    let k2 = not (bit_and b2 0xc0 == 0x80) in
    let k3 = not (bit_and b3 0xc0 == 0x80) in
    ap (λ t. if ltb 0xf4 c then 0 else t)
      (ap (λ t. if k1 then 0 else t) (guards k2 k3 0 _) ∙ guards k1 (k2 || k3) 0 _)

-- Where a sequence starts, pakka_is_valid_utf8 goes on by the length that pakka_utf8_seq_len gives,
-- and returns 0 exactly where that gives 0: the two codings of the same checks agree on all bytes.
pub valid_step-seq_len : (s : List ℕ) → valid_step s ≡ seq_len s
unfolding valid_step seq_len
valid_step-seq_len [] = refl
valid_step-seq_len (c ∷ s) =
    rw (advance_two-two_bytes c s, advance_three-three_bytes c s, advance_four-four_bytes c s) refl
