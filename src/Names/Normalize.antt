-- ===== src/Names/Normalize.antt =====
-- pakka_normalize_entry_name of src/pakfile.c.
use pakka.Prelude.{
  ℕ, ◌+◌, ◌≡◌, refl, arith, Bool, true, false, ◌&&◌, ◌||◌, List, [], ◌∷◌, ◌++◌, length, All, ltb,
  leb, ◌==◌, if◌then◌else◌,
}
use pakka.Names.{is_separator}

-- `if (c >= 'A' && c <= 'Z') c = c - 'A' + 'a'`
unfoldable pub fold_case : ℕ → ℕ
fold_case c = if leb b'A' c && leb c b'Z' then c + 32 else c

unfoldable pub is_stripped : ℕ → Bool
is_stripped c = c == b'.' || c == b' '

-- The loop that takes dots and spaces off the end of a segment, which stands last byte first.
unfoldable pub strip : List ℕ → List ℕ
unfolding is_stripped
strip [] = []
strip (c ∷ cs) = let rest = strip cs in if is_stripped c then rest else c ∷ cs

-- A segment in the order of its bytes.
unfoldable pub rev_onto : List ℕ → List ℕ → List ℕ
rev_onto [] ys = ys
rev_onto (x ∷ xs) ys = rev_onto xs (x ∷ ys)

-- The loop. `dst` before `seg_start` is `done`, and what stands behind it is `seg`, last byte first.
unfoldable pub normalize_loop : ℕ → List ℕ → List ℕ → List ℕ → List ℕ
unfolding fold_case strip rev_onto
normalize_loop dstsz [] done seg =
    if ltb (length done + length seg + 1) dstsz
    then done ++ rev_onto (strip seg) []
    else done ++ rev_onto seg []
normalize_loop dstsz (c ∷ cs) done seg =
    let next = normalize_loop dstsz cs (done ++ rev_onto (strip seg) (b'/' ∷ [])) [] in
    let more = normalize_loop dstsz cs done (fold_case c ∷ seg) in
    if ltb (length done + length seg + 1) dstsz
    then (if is_separator c then next else more)
    else done ++ rev_onto seg []

-- The string in `dst`, which has room for `dstsz` bytes with the NUL.
unfoldable pub normalize_entry_name : List ℕ → ℕ → List ℕ
unfolding normalize_loop
normalize_entry_name src dstsz = if dstsz == 0 then [] else normalize_loop dstsz src [] []

abbrev pub fold_all : List ℕ → List ℕ
fold_all [] = []
fold_all (c ∷ cs) = fold_case c ∷ fold_all cs

normalize_loop-full :
    (dstsz : ℕ) (src done seg : List ℕ)
    → All (λ c. is_separator c ≡ false) src
    → dstsz ≡ length done + length seg + length src + 1
    → normalize_loop dstsz src done seg ≡ done ++ rev_onto seg (fold_all src)
unfolding normalize_loop rev_onto
normalize_loop-full dstsz [] done seg h n =
    let full : ltb (length done + length seg + 1) dstsz ≡ false = ground (arith, n) in rw full refl
normalize_loop-full dstsz (c ∷ cs) done seg h n =
    let room : ltb (length done + length seg + 1) dstsz ≡ true = ground (arith, n) in
    rw room (rw h.0 (normalize_loop-full dstsz cs done (fold_case c ∷ seg) h.1 (omega (arith, n))))

-- With the room that the callers give, the length of the source and one byte, the last segment keeps
-- its dots and spaces: a name without separators only has its capitals folded.
pub normalize_entry_name_unstripped :
    (src : List ℕ)
    → All (λ c. is_separator c ≡ false) src
    → normalize_entry_name src (length src + 1) ≡ fold_all src
unfolding normalize_entry_name rev_onto
normalize_entry_name_unstripped src h =
    let room : (length src + 1 == 0) ≡ false = ground arith in
    rw (room, normalize_entry_name) (normalize_loop-full (length src + 1) src [] [] h (omega arith))
