-- ===== src/Names/Tests.antt =====
-- Tests of the names and an input at which the theorem about them applies.
use pakka.Prelude.{ℕ, ◌≡◌, refl, true, false, List, [], ◌∷◌, ◌++◌, inr, same_bytes}
use pakka.Names.Normalize.{
  normalize_entry_name, normalize_loop, fold_case, strip, is_stripped, rev_onto,
  normalize_entry_name_unstripped,
}
use pakka.Names.{
  unsafe_entry_name, scan_segments, is_separator, is_unsafe_segment, has_bad_byte, last_byte,
  is_reserved_device_name, base, any_folds, win_reserved_names, folds_to, upper,
}
use pakka.Names.Safe.{IsSafeSegment, unsafe_entry_name-IsSafeSegment}

-- "a/../b", "con.txt" and "x." are refused.
refused :
    (unsafe_entry_name (b'a' ∷ b'/' ∷ b'.' ∷ b'.' ∷ b'/' ∷ b'b' ∷ []) ≡ true)
    × (unsafe_entry_name (b'c' ∷ b'o' ∷ b'n' ∷ b'.' ∷ b't' ∷ b'x' ∷ b't' ∷ []) ≡ true)
    × (unsafe_entry_name (b'x' ∷ b'.' ∷ []) ≡ true)
unfolding unsafe_entry_name scan_segments is_separator is_unsafe_segment has_bad_byte last_byte
    is_reserved_device_name base any_folds win_reserved_names folds_to upper same_bytes
refused = (refl, refl, refl)

abbrev front : List ℕ
front = b'a' ∷ b'/' ∷ []

abbrev middle : List ℕ
middle = b'b' ∷ b'c' ∷ []

abbrev back : List ℕ
back = b'/' ∷ b'd' ∷ []

let_through : unsafe_entry_name (front ++ (middle ++ back)) ≡ false
unfolding unsafe_entry_name scan_segments is_separator is_unsafe_segment has_bad_byte last_byte
    is_reserved_device_name base any_folds win_reserved_names folds_to upper same_bytes
let_through = refl

unsafe_entry_name-IsSafeSegment_example : IsSafeSegment middle
unfolding is_separator
unsafe_entry_name-IsSafeSegment_example =
    unsafe_entry_name-IsSafeSegment front middle back let_through
      (inr (b'a' ∷ [], b'/', refl, refl)) (refl, (refl, tt)) (inr (b'/', b'd' ∷ [], refl, refl))

-- A capital, a backslash and dots, with room to spare.
normalize_test :
    normalize_entry_name (b'A' ∷ b'.' ∷ 92 ∷ b'b' ∷ b'.' ∷ b' ' ∷ []) 100 ≡ b'a' ∷ b'/' ∷ b'b' ∷ []
unfolding normalize_entry_name normalize_loop fold_case strip is_stripped rev_onto is_separator
normalize_test = refl

abbrev dotted : List ℕ
dotted = b'A' ∷ b'.' ∷ []

-- The dot stays.
normalize_entry_name_unstripped_example : normalize_entry_name dotted 3 ≡ b'a' ∷ b'.' ∷ []
unfolding is_separator fold_case
normalize_entry_name_unstripped_example = normalize_entry_name_unstripped dotted (refl, (refl, tt))
