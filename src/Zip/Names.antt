-- ===== src/Zip/Names.antt =====
-- The names of ZIP entries, src/pk3file.c: pk3_cp437_high, pk3_utf8_encode_bmp and
-- pk3_decode_entry_name.

pub mod Valid
use pakka.Prelude.{ℕ, ◌+◌, ◌-◌, ◌/◌, ◌^◌, bit_and, bit_or, Bool, not, Option, none, some}
use pakka.Prelude.{List, [], ◌∷◌, ◌++◌, length, get_or, ltb, leb, ◌==◌, if◌then◌else◌}
use pakka.Utf8.{is_valid_utf8}

unfoldable pub cp437_high : List ℕ
cp437_high =
    0x00c7 ∷ 0x00fc ∷ 0x00e9 ∷ 0x00e2 ∷ 0x00e4 ∷ 0x00e0 ∷ 0x00e5 ∷ 0x00e7 ∷ 0x00ea ∷ 0x00eb ∷ 0x00e8
    ∷ 0x00ef ∷ 0x00ee ∷ 0x00ec ∷ 0x00c4 ∷ 0x00c5 ∷ 0x00c9 ∷ 0x00e6 ∷ 0x00c6 ∷ 0x00f4 ∷ 0x00f6
    ∷ 0x00f2 ∷ 0x00fb ∷ 0x00f9 ∷ 0x00ff ∷ 0x00d6 ∷ 0x00dc ∷ 0x00a2 ∷ 0x00a3 ∷ 0x00a5 ∷ 0x20a7
    ∷ 0x0192 ∷ 0x00e1 ∷ 0x00ed ∷ 0x00f3 ∷ 0x00fa ∷ 0x00f1 ∷ 0x00d1 ∷ 0x00aa ∷ 0x00ba ∷ 0x00bf
    ∷ 0x2310 ∷ 0x00ac ∷ 0x00bd ∷ 0x00bc ∷ 0x00a1 ∷ 0x00ab ∷ 0x00bb ∷ 0x2591 ∷ 0x2592 ∷ 0x2593
    ∷ 0x2502 ∷ 0x2524 ∷ 0x2561 ∷ 0x2562 ∷ 0x2556 ∷ 0x2555 ∷ 0x2563 ∷ 0x2551 ∷ 0x2557 ∷ 0x255d
    ∷ 0x255c ∷ 0x255b ∷ 0x2510 ∷ 0x2514 ∷ 0x2534 ∷ 0x252c ∷ 0x251c ∷ 0x2500 ∷ 0x253c ∷ 0x255e
    ∷ 0x255f ∷ 0x255a ∷ 0x2554 ∷ 0x2569 ∷ 0x2566 ∷ 0x2560 ∷ 0x2550 ∷ 0x256c ∷ 0x2567 ∷ 0x2568
    ∷ 0x2564 ∷ 0x2565 ∷ 0x2559 ∷ 0x2558 ∷ 0x2552 ∷ 0x2553 ∷ 0x256b ∷ 0x256a ∷ 0x2518 ∷ 0x250c
    ∷ 0x2588 ∷ 0x2584 ∷ 0x258c ∷ 0x2590 ∷ 0x2580 ∷ 0x03b1 ∷ 0x00df ∷ 0x0393 ∷ 0x03c0 ∷ 0x03a3
    ∷ 0x03c3 ∷ 0x00b5 ∷ 0x03c4 ∷ 0x03a6 ∷ 0x0398 ∷ 0x03a9 ∷ 0x03b4 ∷ 0x221e ∷ 0x03c6 ∷ 0x03b5
    ∷ 0x2229 ∷ 0x2261 ∷ 0x00b1 ∷ 0x2265 ∷ 0x2264 ∷ 0x2320 ∷ 0x2321 ∷ 0x00f7 ∷ 0x2248 ∷ 0x00b0
    ∷ 0x2219 ∷ 0x00b7 ∷ 0x221a ∷ 0x207f ∷ 0x00b2 ∷ 0x25a0 ∷ 0x00a0 ∷ []

-- `none` is -1.
unfoldable pub utf8_encode_bmp : ℕ → ℕ → Option (List ℕ)
utf8_encode_bmp cp cap =
    if ltb cp 0x80
    then (if ltb cap 1 then none else some (cp ∷ []))
    else if ltb cp 0x800
    then (if ltb cap 2
        then none
        else some (bit_or 0xc0 (cp / 2 ^ 6) ∷ bit_or 0x80 (bit_and cp 0x3f) ∷ []))
    else if ltb cap 3
    then none
    else some (
        bit_or 0xe0 (cp / 2 ^ 12)
        ∷ bit_or 0x80 (bit_and (cp / 2 ^ 6) 0x3f)
        ∷ bit_or 0x80 (bit_and cp 0x3f)
        ∷ [])

-- The name, PK3_DECODE_TOOLONG or PK3_DECODE_BIT11_INVALID.
pub data Decoded : Type 0 where
  decoded : List ℕ → Decoded
  too_long : Decoded
  bit11_invalid : Decoded

-- What one byte of a CP437 name becomes, with the space that `dst` has left, its NUL included.
unfoldable pub decode_byte : ℕ → ℕ → Option (List ℕ)
unfolding utf8_encode_bmp cp437_high
decode_byte b space =
    if ltb b 0x80
    then (if leb space 1 then none else some (b ∷ []))
    else utf8_encode_bmp (get_or cp437_high (b - 0x80) 0) (space - 1)

-- The loop over the bytes.
unfoldable pub decode_cp437 : List ℕ → ℕ → Option (List ℕ)
unfolding decode_byte
decode_cp437 [] space = some []
decode_cp437 (b ∷ bs) space = elim (decode_byte b space) [
  | none ↦ none
  | some bytes ↦ elim (decode_cp437 bs (space - length bytes)) [
    | none ↦ none
    | some rest ↦ some (bytes ++ rest)
  ]
]

unfoldable pub decode_entry_name : List ℕ → ℕ → ℕ → Decoded
unfolding decode_cp437
decode_entry_name src gp_flags cap =
    if cap == 0
    then too_long
    else if is_valid_utf8 src
    then (if ltb cap (length src + 1) then too_long else decoded src)
    else if not (bit_and gp_flags 0x0800 == 0)
    then bit11_invalid
    else elim (decode_cp437 src cap) [ none ↦ too_long | some name ↦ decoded name ]
