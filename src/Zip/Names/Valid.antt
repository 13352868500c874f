-- ===== src/Zip/Names/Valid.antt =====
-- What pk3_decode_entry_name of src/pk3file.c gives.
use pakka.Prelude.{
  and-true, ℕ, zero, suc, ◌+◌, ◌-◌, ◌≤◌, ◌<◌, ◌≡◌, refl, sym, ap, ◌∙◌, arith, Bool, true, false,
}
use pakka.Prelude.{inl, inr, ◌&&◌, not, none, some, List, [], ◌∷◌, ◌++◌, append-nil, length}
use pakka.Prelude.{length-append, get_or, All, IsByte, ltb, leb, ◌==◌, Bool-cases, Option-cases}
use pakka.Prelude.{bit_and}
use mathlib.Core.Path.{subst}
use pakka.Stdio.Fronts.{some-injective}
use pakka.Utf8.{
  is_valid_utf8, seq_len, two_bytes, three_bytes, four_bytes, is_continuation, three_byte_cp,
  four_byte_cp,
}
use pakka.Utf8.Sequences.{seq_len-cases}
use pakka.Utf8.Substitute.{is_valid_utf8-sequence, nothing_valid, ascii_seq}
use pakka.Zip.Names.{
  cp437_high, utf8_encode_bmp, decode_byte, decode_cp437, decode_entry_name, Decoded, decoded,
  too_long, bit11_invalid,
}

-- One whole sequence.
record IsWhole (bytes : List ℕ) : Type 0 where
  pub some_bytes : 0 < length bytes
  pub any : (more : List ℕ) → seq_len (bytes ++ more) ≡ length bytes

whole : (bytes : List ℕ) → 0 < length bytes → seq_len bytes ≡ length bytes → IsWhole bytes
whole bytes h e = elim (seq_len-cases bytes) [
  | inl invalid ↦ absurd (omega (arith, invalid, e))
  | inr q ↦
      let len : length q.rest ≡ 0 =
        omega (arith, ap (λ t. length t) q.split, length-append q.chunk q.rest, q.size, e) in
      let same : q.chunk ≡ bytes = sym (q.split ∙ nothing q.chunk q.rest len) in
      record {
        some_bytes = h;
        any = subst (λ t. (more : List ℕ) → seq_len (t ++ more) ≡ length t) same q.any;
      }
]
  where
    nothing : (xs ys : List ℕ) → length ys ≡ 0 → xs ++ ys ≡ xs
    nothing xs [] h = append-nil xs
    nothing xs (y ∷ ys) h = absurd (omega arith)

-- Whether a code point becomes one whole sequence.
fine : ℕ → Bool
fine cp = elim (utf8_encode_bmp cp 3) [
  | none ↦ false
  | some bytes ↦ ltb 0 (length bytes) && (seq_len bytes == length bytes)
]

all_fine : List ℕ → Bool
unfolding fine
all_fine [] = true
all_fine (cp ∷ cps) = fine cp && all_fine cps

table_fine : all_fine cp437_high ≡ true
unfolding all_fine cp437_high utf8_encode_bmp seq_len two_bytes three_bytes four_bytes
    is_continuation three_byte_cp four_byte_cp
table_fine = refl

get_fine :
    (cps : List ℕ) (i : ℕ) → all_fine cps ≡ true → i < length cps → fine (get_or cps i 0) ≡ true
unfolding all_fine
get_fine [] i h lt = absurd (omega arith)
get_fine (cp ∷ cps) zero h lt = (and-true (fine cp) (all_fine cps) h).0
get_fine (cp ∷ cps) (suc i) h lt =
    get_fine cps i (and-true (fine cp) (all_fine cps) h).1 (omega arith)

-- What fits does not depend on the room.
encode_room :
    (cp cap : ℕ) (bytes : List ℕ)
    → utf8_encode_bmp cp cap ≡ some bytes
    → (utf8_encode_bmp cp 3 ≡ some bytes) × (length bytes ≤ cap)
unfolding utf8_encode_bmp
encode_room cp cap bytes h = elim (Bool-cases (ltb cp 0x80)) [
  | inl one ↦ elim (Bool-cases (ltb cap 1)) [
    | inl full ↦ let bad = rw (one, full) at h in cc
    | inr room ↦
        let e = rw (one, room) at h in
        (rw one e, subst (λ t. length t ≤ cap) (some-injective e) (ground arith))
  ]
  | inr wide ↦ elim (Bool-cases (ltb cp 0x800)) [
    | inl two ↦ elim (Bool-cases (ltb cap 2)) [
      | inl full ↦ let bad = rw (wide, two, full) at h in cc
      | inr room ↦
          let e = rw (wide, two, room) at h in
          (rw (wide, two) e, subst (λ t. length t ≤ cap) (some-injective e) (ground arith))
    ]
    | inr three ↦ elim (Bool-cases (ltb cap 3)) [
      | inl full ↦ let bad = rw (wide, three, full) at h in cc
      | inr room ↦
          let e = rw (wide, three, room) at h in
          (rw (wide, three) e, subst (λ t. length t ≤ cap) (some-injective e) (ground arith))
    ]
  ]
]

fine-IsWhole :
    (cp : ℕ) (bytes : List ℕ) → fine cp ≡ true → utf8_encode_bmp cp 3 ≡ some bytes → IsWhole bytes
unfolding fine
fine-IsWhole cp bytes h e =
    let tests = rw (e, fine) at h in
    let (some_bytes, size) =
      and-true (ltb 0 (length bytes)) (seq_len bytes == length bytes) tests in
    whole bytes (ground arith) (ground arith)

byte_decoded :
    (b space : ℕ) (bytes : List ℕ)
    → b < 256
    → 1 ≤ space
    → decode_byte b space ≡ some bytes
    → IsWhole bytes × (length bytes + 1 ≤ space)
unfolding decode_byte
byte_decoded b space bytes small room h = elim (Bool-cases (ltb b 0x80)) [
  | inl ascii ↦ elim (Bool-cases (leb space 1)) [
    | inl full ↦ let bad = rw (ascii, full) at h in cc
    | inr more_room ↦
        let e = rw (ascii, more_room) at h in
        subst (λ t. IsWhole t × (length t + 1 ≤ space)) (some-injective e)
          (
            record { some_bytes = omega arith; any = λ more. ascii_seq b more (ground arith) },
            ground arith,
          )
  ]
  | inr high ↦
      let e = rw high at h in
      let (encoded, len) = encode_room (get_or cp437_high (b - 0x80) 0) (space - 1) bytes e in
      (
        fine-IsWhole (get_or cp437_high (b - 0x80) 0) bytes
            (get_fine cp437_high (b - 0x80) table_fine (ground (arith, long))) encoded,
        omega (arith, len),
      )
]
  where
    long : length cp437_high ≡ 128
    long = refl

decode_cp437_lem :
    (src : List ℕ) (space : ℕ) (name : List ℕ)
    → All IsByte src
    → 1 ≤ space
    → decode_cp437 src space ≡ some name
    → (is_valid_utf8 name ≡ true) × (length name + 1 ≤ space)
unfolding decode_cp437
decode_cp437_lem [] space name bs room h =
    subst (λ t. (is_valid_utf8 t ≡ true) × (length t + 1 ≤ space)) (some-injective h)
      (nothing_valid, omega arith)
decode_cp437_lem (b ∷ src) space name bs room h = elim (Option-cases (decode_byte b space)) [
  | inl none1 ↦ let bad = rw (none1, decode_cp437) at h in cc
  | inr (bytes, e1) ↦ elim (Option-cases (decode_cp437 src (space - length bytes))) [
    | inl none2 ↦ let bad = rw (e1, none2, decode_cp437) at h in cc
    | inr (rest, e2) ↦
        let (w, len) = byte_decoded b space bytes bs.0 room e1 in
        let (valid, fits) =
          decode_cp437_lem src (space - length bytes) rest bs.1 (omega (arith, len)) e2 in
        let e = rw (e1, e2, decode_cp437) at h in
        subst (λ t. (is_valid_utf8 t ≡ true) × (length t + 1 ≤ space)) (some-injective e)
          (
            is_valid_utf8-sequence bytes rest w.some_bytes (w.any rest) ∙ valid,
            omega (arith, length-append bytes rest, fits, len),
          )
  ]
]

decoded-injective : {a b : List ℕ} → decoded a ≡ decoded b → a ≡ b
decoded-injective {a = a} h = ap value h
  where
    value : Decoded → List ℕ
    value (decoded x) = x
    value too_long = a
    value bit11_invalid = a

-- A name that is decoded from bytes, as UTF-8 or as CP437, is valid UTF-8 and fits the room with its
-- NUL.
pub decode_entry_name-valid :
    (src : List ℕ) (gp_flags cap : ℕ) (name : List ℕ)
    → All IsByte src
    → decode_entry_name src gp_flags cap ≡ decoded name
    → (is_valid_utf8 name ≡ true) × (length name < cap)
unfolding decode_entry_name
decode_entry_name-valid src gp_flags cap name bs h = elim (Bool-cases (cap == 0)) [
  | inl no_room ↦ let bad = rw no_room at h in cc
  | inr room ↦ elim (Bool-cases (is_valid_utf8 src)) [
    | inl valid ↦ elim (Bool-cases (ltb cap (length src + 1))) [
      | inl long ↦ let bad = rw (room, valid, long) at h in cc
      | inr fits ↦
          let e = rw (room, valid, fits) at h in
          subst (λ t. (is_valid_utf8 t ≡ true) × (length t < cap)) (decoded-injective e)
            (valid, ground arith)
    ]
    | inr invalid ↦ elim (Bool-cases (not (bit_and gp_flags 0x0800 == 0))) [
      | inl claimed ↦ let bad = rw (room, invalid, claimed) at h in cc
      | inr unclaimed ↦ elim (Option-cases (decode_cp437 src cap)) [
        | inl full ↦ let bad = rw (room, invalid, unclaimed, full) at h in cc
        | inr (out, e1) ↦
            let e = rw (room, invalid, unclaimed, e1) at h in
            let (valid, fits) = decode_cp437_lem src cap out bs (ground arith) e1 in
            subst (λ t. (is_valid_utf8 t ≡ true) × (length t < cap)) (decoded-injective e)
              (valid, omega (arith, fits))
      ]
    ]
  ]
]
