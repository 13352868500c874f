-- ===== src/Names/Safe.antt =====
-- What pakka_unsafe_entry_name of src/pakfile.c lets through.
use pakka.Prelude.{
  and-true, ℕ, ◌+◌, ◌≤◌, ◌<◌, ◌≡◌, ◌≢◌, refl, arith, Bool, ◌&&◌, leb, true, false, ◌⊎◌, inl, inr,
  List, [], ◌∷◌, ◌++◌,
}
use pakka.Prelude.{
  append_assoc, append-nil, All, length, ltb, same_bytes, or-false, Bool-cases, ◌||◌, ◌==◌,
}
use mathlib.Core.Path.{subst}
use pakka.Names.{
  is_separator, is_unsafe_segment, scan_segments, unsafe_entry_name, has_bad_byte, last_byte,
  is_reserved_device_name, upper, base, folds_to, any_folds, win_reserved_names,
}

-- A place where a segment starts: the start of the name or behind a separator.
abbrev pub Starts : List ℕ → Type 0
Starts before =
    (before ≡ []) ⊎ ((b : List ℕ) × (c : ℕ) × (before ≡ b ++ c ∷ []) × (is_separator c ≡ true))

-- A place where a segment ends: the end of the name or before a separator.
abbrev pub Ends : List ℕ → Type 0
Ends after = (after ≡ []) ⊎ ((c : ℕ) × (cs : List ℕ) × (after ≡ c ∷ cs) × (is_separator c ≡ true))

-- The names that Windows keeps for devices.
abbrev pub devices : List (List ℕ)
devices =
    (b'C' ∷ b'O' ∷ b'N' ∷ [])
    ∷ (b'P' ∷ b'R' ∷ b'N' ∷ [])
    ∷ (b'A' ∷ b'U' ∷ b'X' ∷ [])
    ∷ (b'N' ∷ b'U' ∷ b'L' ∷ [])
    ∷ (b'C' ∷ b'O' ∷ b'M' ∷ b'0' ∷ [])
    ∷ (b'C' ∷ b'O' ∷ b'M' ∷ b'1' ∷ [])
    ∷ (b'C' ∷ b'O' ∷ b'M' ∷ b'2' ∷ [])
    ∷ (b'C' ∷ b'O' ∷ b'M' ∷ b'3' ∷ [])
    ∷ (b'C' ∷ b'O' ∷ b'M' ∷ b'4' ∷ [])
    ∷ (b'C' ∷ b'O' ∷ b'M' ∷ b'5' ∷ [])
    ∷ (b'C' ∷ b'O' ∷ b'M' ∷ b'6' ∷ [])
    ∷ (b'C' ∷ b'O' ∷ b'M' ∷ b'7' ∷ [])
    ∷ (b'C' ∷ b'O' ∷ b'M' ∷ b'8' ∷ [])
    ∷ (b'C' ∷ b'O' ∷ b'M' ∷ b'9' ∷ [])
    ∷ (b'L' ∷ b'P' ∷ b'T' ∷ b'0' ∷ [])
    ∷ (b'L' ∷ b'P' ∷ b'T' ∷ b'1' ∷ [])
    ∷ (b'L' ∷ b'P' ∷ b'T' ∷ b'2' ∷ [])
    ∷ (b'L' ∷ b'P' ∷ b'T' ∷ b'3' ∷ [])
    ∷ (b'L' ∷ b'P' ∷ b'T' ∷ b'4' ∷ [])
    ∷ (b'L' ∷ b'P' ∷ b'T' ∷ b'5' ∷ [])
    ∷ (b'L' ∷ b'P' ∷ b'T' ∷ b'6' ∷ [])
    ∷ (b'L' ∷ b'P' ∷ b'T' ∷ b'7' ∷ [])
    ∷ (b'L' ∷ b'P' ∷ b'T' ∷ b'8' ∷ [])
    ∷ (b'L' ∷ b'P' ∷ b'T' ∷ b'9' ∷ [])
    ∷ []

-- A byte that is another one, or the small letter of a capital.
abbrev pub IsLetterOf : ℕ → ℕ → Type 0
IsLetterOf c d = (c ≡ d) ⊎ ((b'A' ≤ d) × (d ≤ b'Z') × (c ≡ d + 32))

-- The bytes spell a name whose letters are capitals, in small letters or in capitals.
abbrev pub Spells : List ℕ → List ℕ → Type 0
Spells [] [] = Unit {0}
Spells (c ∷ cs) (d ∷ ds) = IsLetterOf c d × Spells cs ds
Spells _ _ = ⊥

-- The bytes are neither the name of a device nor that with a dot and any extension behind it.
abbrev pub IsNoDevice : List ℕ → List ℕ → Type 0
IsNoDevice seg device =
    (¬ Spells seg device) × ((more : List ℕ) → ¬ Spells seg (device ++ b'.' ∷ more))

-- A segment that is not empty and not a dot or two dots, has no control bytes, DEL and colons, does
-- not end in a dot or a space, and is not a device of Windows, in letters of any case and with any
-- extension.
pub record IsSafeSegment (seg : List ℕ) : Type 0 where
  pub not_empty : seg ≢ []
  pub not_dot : seg ≢ b'.' ∷ []
  pub not_dot_dot : seg ≢ b'.' ∷ b'.' ∷ []
  pub printable : All (λ c. (32 ≤ c) × (c ≢ 127) × (c ≢ b':')) seg
  pub last_kept : (last_byte seg ≢ b'.') × (last_byte seg ≢ b' ')
  pub not_device : All (IsNoDevice seg) devices

scan_segments-behind :
    (seg b : List ℕ) (c : ℕ) (rest : List ℕ)
    → is_separator c ≡ true
    → scan_segments seg (b ++ c ∷ rest) ≡ false
    → scan_segments [] rest ≡ false
unfolding scan_segments
scan_segments-behind seg [] c rest h e = (or-false _ _ (rw h at e)).1
scan_segments-behind seg (x ∷ b) c rest h e = elim (Bool-cases (is_separator x)) [
  | inl sep ↦
      scan_segments-behind [] b c rest h (or-false (is_unsafe_segment seg) _ (rw sep at e)).1
  | inr plain ↦ scan_segments-behind (seg ++ x ∷ []) b c rest h (rw plain at e)
]

scan_segments-segment :
    (seen seg after : List ℕ)
    → All (λ c. is_separator c ≡ false) seg
    → Ends after
    → scan_segments seen (seg ++ after) ≡ false
    → is_unsafe_segment (seen ++ seg) ≡ false
unfolding scan_segments
scan_segments-segment seen [] after clean (inl end) e = rw append-nil (rw end at e)
scan_segments-segment seen [] after clean (inr (c, cs, end, h)) e =
    rw append-nil ((or-false (is_unsafe_segment seen) _ (rw h at (rw end at e))).0)
scan_segments-segment seen (x ∷ seg) after clean ends e =
    subst (λ t. is_unsafe_segment t ≡ false) (append_assoc seen (x ∷ []) seg)
      (scan_segments-segment (seen ++ x ∷ []) seg after clean.1 ends (rw clean.0 at e))

has_bad_byte_lem :
    (seg : List ℕ) → has_bad_byte seg ≡ false → All (λ c. (32 ≤ c) × (c ≢ 127) × (c ≢ b':')) seg
unfolding has_bad_byte
has_bad_byte_lem [] h = tt
has_bad_byte_lem (c ∷ cs) h =
    let (here, rest) = or-false (ltb c 0x20 || (c == 0x7f) || (c == b':')) _ h in
    (ground arith, has_bad_byte_lem cs rest)

-- A byte of a device name: a capital or a digit.
abbrev is_device_byte : ℕ → Bool
is_device_byte d = leb b'0' d && ltb d b'a'

dot_lem : (c r : ℕ) → r ≡ b'.' → IsLetterOf c r → (c == b'.') ≡ true
dot_lem c r stops (inl same) = ground arith
dot_lem c r stops (inr (above, below, small)) = absurd (omega (arith, stops, above))

plain_lem : (c x : ℕ) → is_device_byte x ≡ true → IsLetterOf c x → (c == b'.') ≡ false
plain_lem c x h (inl same) = ground arith
plain_lem c x h (inr (above, below, small)) = ground arith

letter_lem : (c d : ℕ) → d < b'a' → IsLetterOf c d → upper c ≡ d
unfolding upper
letter_lem c d low (inl same) = ground arith
letter_lem c d low (inr (above, below, small)) = ground arith

-- The end of a name, or a dot.
abbrev Stops : List ℕ → Type 0
Stops [] = Unit {0}
Stops (c ∷ cs) = c ≡ b'.'

are_device_bytes : List ℕ → Bool
are_device_bytes [] = true
are_device_bytes (d ∷ ds) = is_device_byte d && are_device_bytes ds

are_device_names : List (List ℕ) → Bool
are_device_names [] = true
are_device_names (d ∷ ds) = are_device_bytes d && are_device_names ds

-- What the code looks up, the bytes before the first dot, folds to the name that is spelled.
spelled :
    (seg d rest : List ℕ)
    → Stops rest
    → are_device_bytes d ≡ true
    → Spells seg (d ++ rest)
    → (length d ≡ length (base seg)) × (folds_to (base seg) d ≡ true)
unfolding are_device_bytes base folds_to
spelled [] [] rest stops bytes s = (refl, refl)
spelled (c ∷ cs) [] [] stops bytes s = absurd s
spelled (c ∷ cs) [] (r ∷ rs) stops bytes s =
    let dot : (c == b'.') ≡ true = dot_lem c r stops s.0 in (rw dot refl, rw dot refl)
spelled [] (x ∷ xs) rest stops bytes s = absurd s
spelled (c ∷ cs) (x ∷ xs) rest stops bytes s =
    let (here, behind) = and-true (is_device_byte x) (are_device_bytes xs) bytes in
    let (n, folds) = spelled cs xs rest stops behind s.1 in
    let plain : (c == b'.') ≡ false = plain_lem c x here s.0 in
    let same : (upper c == x) ≡ true =
      let u = letter_lem c x (ground (arith, here)) s.0 in ground (arith, u) in
    (rw plain (omega (arith, n)), rw plain (rw same folds))

looked_up :
    (seg d : List ℕ)
    → ((length d == length (base seg)) && folds_to (base seg) d) ≡ false
    → ¬ ((length d ≡ length (base seg)) × (folds_to (base seg) d ≡ true))
looked_up seg d h (n, folds) =
    let same : (length d == length (base seg)) ≡ true = ground (arith, n) in
    let bad = rw (same, folds) at h in cc

any_folds-false :
    (seg : List ℕ) (names : List (List ℕ))
    → are_device_names names ≡ true
    → any_folds (base seg) names ≡ false
    → All (IsNoDevice seg) names
unfolding any_folds are_device_names
any_folds-false seg [] bytes h = tt
any_folds-false seg (d ∷ ds) bytes h =
    let (good, goods) = and-true (are_device_bytes d) (are_device_names ds) bytes in
    let (here, rest) = or-false ((length d == length (base seg)) && folds_to (base seg) d) _ h in
    (
      (
        λ s. looked_up seg d here (spelled seg d [] tt good (rw append-nil s)),
        λ more s. looked_up seg d here (spelled seg d (b'.' ∷ more) refl good s),
      ),
      any_folds-false seg ds goods rest,
    )

devices_lem : (seg : List ℕ) → is_reserved_device_name seg ≡ false → All (IsNoDevice seg) devices
unfolding is_reserved_device_name win_reserved_names are_device_names are_device_bytes
devices_lem seg h = any_folds-false seg devices refl h

segment_lem : (seg : List ℕ) → is_unsafe_segment seg ≡ false → IsSafeSegment seg
unfolding is_unsafe_segment same_bytes
segment_lem seg h =
    let (long, h1) = or-false (length seg == 0) _ h in
    let (dots, h2) =
      or-false (same_bytes seg (b'.' ∷ []) || same_bytes seg (b'.' ∷ b'.' ∷ [])) _ h1 in
    let (dot, dot_dot) = or-false (same_bytes seg (b'.' ∷ [])) _ dots in
    let (bytes, h3) = or-false (has_bad_byte seg) _ h2 in
    let (ends, device) = or-false ((last_byte seg == b'.') || (last_byte seg == b' ')) _ h3 in
    record {
      not_empty = λ e. let bad = rw e at long in cc;
      not_dot = λ e. let bad = rw e at dot in cc;
      not_dot_dot = λ e. let bad = rw e at dot_dot in cc;
      printable = has_bad_byte_lem seg bytes;
      last_kept = ground arith;
      not_device = devices_lem seg device;
    }

scanned : (path : List ℕ) → unsafe_entry_name path ≡ false → scan_segments [] path ≡ false
unfolding unsafe_entry_name
scanned [] h = cc
scanned (c ∷ cs) h = (or-false (is_separator c) _ h).1

from_start :
    (before rest : List ℕ)
    → Starts before
    → scan_segments [] (before ++ rest) ≡ false
    → scan_segments [] rest ≡ false
from_start before rest (inl e) h = rw e at h
from_start before rest (inr (b, c, e, sep)) h =
    scan_segments-behind [] b c rest sep (rw append_assoc at (rw e at h))

-- In a name that pakka_unsafe_entry_name lets through every segment, that is, every longest stretch
-- without a slash or a backslash, is not empty and not a dot or two dots, has no control bytes, DEL and
-- colons, does not end in a dot or a space, and is not the name of one of 24 devices of Windows, in
-- letters of any case and with any extension.
pub unsafe_entry_name-IsSafeSegment :
    (before seg after : List ℕ)
    → unsafe_entry_name (before ++ (seg ++ after)) ≡ false
    → Starts before
    → All (λ c. is_separator c ≡ false) seg
    → Ends after
    → IsSafeSegment seg
unsafe_entry_name-IsSafeSegment before seg after h starts clean ends = segment_lem seg (
    scan_segments-segment [] seg after clean ends
      (from_start before (seg ++ after) starts (scanned (before ++ (seg ++ after)) h)))
