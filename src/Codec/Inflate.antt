-- ===== src/Codec/Inflate.antt =====
-- pakka_dk_inflate of src/dk_codec.c.
pub mod Rounds
pub mod Total
use pakka.Prelude.{ℕ, zero, suc, ◌+◌, ◌-◌, List, [], ◌∷◌, ◌++◌}
use pakka.Prelude.{
  Option, none, some, ltb, ◌==◌, if◌then◌else◌, length, get_or, take, drop, replicate,
}
use pakka.Status.{Result, ok, err, err_format}

-- What one round of the loop leads to: another round on the input that is left and the output
-- produced so far, the end of the loop at the terminator, or a return with a status.
pub data Round : Type 0 where
  next : List ℕ → List ℕ → Round
  stop : Round
  fail : Round

-- `for (i = 0; i < copy_len; i++) { out[produced] = out[produced - distance]; produced++; }`
unfoldable pub copy_back : ℕ → ℕ → List ℕ → List ℕ
copy_back distance zero out = out
copy_back distance (suc left) out =
    copy_back distance left (out ++ get_or out (length out - distance) 0 ∷ [])

-- opcode < 64: `copy_len` bytes of the input.
literal_run : ℕ → ℕ → List ℕ → List ℕ → Round
literal_run out_len copy_len rest out =
    if ltb (length rest) copy_len
    then fail
    else if ltb (out_len - length out) copy_len
    then fail
    else next (drop copy_len rest) (out ++ take copy_len rest)

-- opcode < 128: `copy_len` zero bytes.
zero_run : ℕ → ℕ → List ℕ → List ℕ → Round
zero_run out_len copy_len rest out =
    if ltb (out_len - length out) copy_len then fail else next rest (out ++ replicate copy_len 0)

-- opcode < 192: `copy_len` copies of the next byte.
byte_run : ℕ → ℕ → List ℕ → List ℕ → Round
byte_run out_len copy_len [] out = fail
byte_run out_len copy_len (b ∷ rest) out =
    if ltb (out_len - length out) copy_len then fail else next rest (out ++ replicate copy_len b)

-- opcode < 254: `copy_len` bytes of the output, from `distance` back.
back_reference : ℕ → ℕ → List ℕ → List ℕ → Round
back_reference out_len copy_len [] out = fail
back_reference out_len copy_len (b ∷ rest) out =
    let distance = b + 2 in
    if ltb (length out) distance
    then fail
    else if ltb (out_len - length out) copy_len
    then fail
    else next rest (copy_back distance copy_len out)

-- One round on a non-empty input: the ladder of tests on the opcode.
unfoldable pub round : ℕ → ℕ → List ℕ → List ℕ → Round
unfolding literal_run zero_run byte_run back_reference
round out_len opcode rest out =
    if ltb opcode 64
    then literal_run out_len (opcode + 1) rest out
    else if ltb opcode 128
    then zero_run out_len (opcode - 62) rest out
    else if ltb opcode 192
    then byte_run out_len (opcode - 126) rest out
    else if ltb opcode 254
    then back_reference out_len (opcode - 190) rest out
    else if opcode == 254
    then fail
    else stop

-- The check behind the loop.
unfoldable pub finish : ℕ → List ℕ → Result (List ℕ)
finish out_len out = if length out == out_len then ok out else err err_format

-- `while (read < in_len)`, with the rounds that are left. `none` is no status of the source: it
-- says that the rounds ran out.
unfoldable pub loop : ℕ → ℕ → List ℕ → List ℕ → Option (Result (List ℕ))
loop fuel out_len [] out = some (finish out_len out)
loop zero out_len (opcode ∷ rest) out = none
loop (suc fuel) out_len (opcode ∷ rest) out = elim (round out_len opcode rest out) [
  | next rest' out' ↦ loop fuel out_len rest' out'
  | stop ↦ some (finish out_len out)
  | fail ↦ some (err err_format)
]

-- A round reads a byte at least, so a round for each byte of the input is enough. The buffers of
-- the model are never NULL, so the check of the arguments cannot fail.
unfoldable pub inflate : List ℕ → ℕ → Option (Result (List ℕ))
inflate input out_len = loop (length input) out_len input []
