-- ===== src/Names.antt =====
-- The names of entries, src/pakfile.c: is_reserved_device_name, is_unsafe_segment,
-- pakka_unsafe_entry_name and pakka_normalize_entry_name. A name is its bytes before the NUL.
pub mod Safe
pub mod Normalize
mod Tests
use pakka.Prelude.{zero, suc}
use pakka.Prelude.{
  ℕ, ◌+◌, ◌-◌, Bool, true, false, ◌&&◌, ◌||◌, List, [], ◌∷◌, ◌++◌, length, take, ltb, leb, get_or,
}
use pakka.Prelude.{◌==◌, same_bytes, if◌then◌else◌}

abbrev slash : ℕ
slash = b'/'

abbrev backslash : ℕ
backslash = 92

unfoldable pub is_separator : ℕ → Bool
is_separator c = (c == slash) || (c == backslash)

-- `if (a >= 'a' && a <= 'z') a = (char)(a - 32);`
unfoldable pub upper : ℕ → ℕ
upper a = if leb b'a' a && leb a b'z' then a - 32 else a

-- The bytes before the first dot.
unfoldable pub base : List ℕ → List ℕ
base [] = []
base (c ∷ cs) = let rest = c ∷ base cs in if c == b'.' then [] else rest

-- The inner loop: the bytes agree up to case.
unfoldable pub folds_to : List ℕ → List ℕ → Bool
unfolding upper
folds_to [] [] = true
folds_to (a ∷ seg) (b ∷ name) = (upper a == b) && folds_to seg name
folds_to _ _ = false

-- COM0 to COM9 or LPT0 to LPT9
numbered : List ℕ → ℕ → List (List ℕ)
numbered prefix zero = []
numbered prefix (suc n) = numbered prefix n ++ (prefix ++ (b'0' + n) ∷ []) ∷ []

unfoldable pub win_reserved_names : List (List ℕ)
unfolding numbered
win_reserved_names =
    (b'C' ∷ b'O' ∷ b'N' ∷ [])
    ∷ (b'P' ∷ b'R' ∷ b'N' ∷ [])
    ∷ (b'A' ∷ b'U' ∷ b'X' ∷ [])
    ∷ (b'N' ∷ b'U' ∷ b'L' ∷ [])
    ∷ (numbered (b'C' ∷ b'O' ∷ b'M' ∷ []) 10 ++ numbered (b'L' ∷ b'P' ∷ b'T' ∷ []) 10)

-- The outer loop.
unfoldable pub any_folds : List ℕ → List (List ℕ) → Bool
unfolding folds_to
any_folds seg [] = false
any_folds seg (name ∷ names) =
    ((length name == length seg) && folds_to seg name) || any_folds seg names

unfoldable pub is_reserved_device_name : List ℕ → Bool
unfolding any_folds base
is_reserved_device_name seg = any_folds (base seg) win_reserved_names

-- The loop over the bytes: control bytes, DEL and colons.
unfoldable pub has_bad_byte : List ℕ → Bool
has_bad_byte [] = false
has_bad_byte (c ∷ cs) = (ltb c 0x20 || (c == 0x7f) || (c == b':')) || has_bad_byte cs

-- `seg[seg_len - 1]`
unfoldable pub last_byte : List ℕ → ℕ
last_byte seg = get_or seg (length seg - 1) 0

unfoldable pub is_unsafe_segment : List ℕ → Bool
unfolding is_reserved_device_name has_bad_byte last_byte
is_unsafe_segment seg =
    (length seg == 0)
    || ((same_bytes seg (b'.' ∷ []) || same_bytes seg (b'.' ∷ b'.' ∷ []))
        || (has_bad_byte seg
            || (((last_byte seg == b'.') || (last_byte seg == b' '))
                || is_reserved_device_name seg)))

-- The loop of pakka_unsafe_entry_name: the bytes since `seg`, and those from `p` on.
unfoldable pub scan_segments : List ℕ → List ℕ → Bool
unfolding is_separator is_unsafe_segment
scan_segments seg [] = is_unsafe_segment seg
scan_segments seg (c ∷ cs) =
    let rest = scan_segments (if is_separator c then [] else seg ++ c ∷ []) cs in
    if is_separator c then is_unsafe_segment seg || rest else rest

unfoldable pub unsafe_entry_name : List ℕ → Bool
unfolding scan_segments
unsafe_entry_name [] = true
unsafe_entry_name (c ∷ cs) = is_separator c || scan_segments [] (c ∷ cs)
