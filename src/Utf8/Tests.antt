-- ===== src/Utf8/Tests.antt =====
-- Tests of the UTF-8 functions and inputs at which their theorems apply.
use pakka.Prelude.{◌≡◌, refl, arith, true, false, [], ◌∷◌}
use pakka.Utf8.{
  is_valid_utf8, valid_loop, valid_step, advance_two, advance_three, advance_four, seq_len,
  two_bytes, three_bytes, four_bytes, utf8_substitute_invalid, substitute_loop,
}
use pakka.Utf8.Agree.{valid_step-seq_len}
use pakka.Utf8.Substitute.{utf8_substitute_invalid-valid, utf8_substitute_invalid-same}

-- A letter with an accent and a euro sign are valid; an overlong slash and a surrogate are not.
judged :
    (is_valid_utf8 (0xc3 ∷ 0xa9 ∷ 0xe2 ∷ 0x82 ∷ 0xac ∷ []) ≡ true)
    × (is_valid_utf8 (0xc0 ∷ 0xaf ∷ []) ≡ false)
    × (is_valid_utf8 (0xed ∷ 0xa0 ∷ 0x80 ∷ []) ≡ false)
unfolding is_valid_utf8 valid_loop valid_step advance_two advance_three advance_four
judged = (refl, refl, refl)

-- The invalid byte becomes a question mark.
substituted : utf8_substitute_invalid (0xff ∷ b'a' ∷ []) 8 b'?' ≡ (b'?' ∷ b'a' ∷ [], true)
unfolding utf8_substitute_invalid substitute_loop seq_len two_bytes three_bytes four_bytes
substituted = refl

utf8_substitute_invalid-valid_example :
    is_valid_utf8 (utf8_substitute_invalid (0xff ∷ b'a' ∷ []) 8 b'?').0 ≡ true
utf8_substitute_invalid-valid_example =
    utf8_substitute_invalid-valid (0xff ∷ b'a' ∷ []) 8 b'?' (omega arith)

accented : is_valid_utf8 (0xc3 ∷ 0xa9 ∷ []) ≡ true
unfolding is_valid_utf8 valid_loop valid_step advance_two
accented = refl

utf8_substitute_invalid-same_example :
    utf8_substitute_invalid (0xc3 ∷ 0xa9 ∷ []) 8 b'?' ≡ (0xc3 ∷ 0xa9 ∷ [], false)
utf8_substitute_invalid-same_example =
    utf8_substitute_invalid-same (0xc3 ∷ 0xa9 ∷ []) 8 b'?' (omega arith) accented

-- A surrogate is refused by both.
valid_step-seq_len_example :
    valid_step (0xed ∷ 0xa0 ∷ 0x80 ∷ []) ≡ seq_len (0xed ∷ 0xa0 ∷ 0x80 ∷ [])
valid_step-seq_len_example = valid_step-seq_len (0xed ∷ 0xa0 ∷ 0x80 ∷ [])
