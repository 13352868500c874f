-- ===== src/Codec/Inflate/Rounds.antt =====
-- Single rounds of the decoder, and the states that its loop reaches.
use pakka.Prelude.{ℕ, zero, suc, ◌+◌, ◌-◌, ◌≤◌, ◌<◌, ◌≡◌, arith}
use pakka.Prelude.{List, [], ◌∷◌, ◌++◌, length, take, replicate, get_or}
use pakka.Prelude.{length-append, length-take, length-drop, length-replicate}
use pakka.Codec.Inflate.{next, copy_back, round}

pub length-copy_back : (d n : ℕ) (out : List ℕ) → length (copy_back d n out) ≡ length out + n
unfolding copy_back
length-copy_back d zero out = omega arith
length-copy_back d (suc n) out = omega (
  arith,
  length-copy_back d n (out ++ get_or out (length out - d) 0 ∷ []),
  length-append out (get_or out (length out - d) 0 ∷ []),
)

-- A round that goes on fills at most the output buffer, shrinks neither the output nor the input.
pub round_bounds :
    (n opcode : ℕ) (rest out : List ℕ) {rest' out' : List ℕ}
    → round n opcode rest out ≡ next rest' out'
    → length out ≤ n
    → (length rest' ≤ length rest) × (length out < length out') × (length out' ≤ n)
unfolding round
round_bounds n opcode [] out e h =
    ground (
      arith,
      length-append out (replicate (opcode - 62) 0),
      length-replicate {A = ℕ} (opcode - 62) 0,
    )
round_bounds n opcode (b ∷ rest) out e h = ground (
  arith,
  length-append out (take (opcode + 1) (b ∷ rest)),
  length-take (opcode + 1) (b ∷ rest),
  length-drop (opcode + 1) (b ∷ rest),
  length-append out (replicate (opcode - 62) 0),
  length-replicate {A = ℕ} (opcode - 62) 0,
  length-append out (replicate (opcode - 126) b),
  length-replicate (opcode - 126) b,
  length-copy_back (b + 2) (opcode - 190) out,
)

-- A round leaves the input no longer than it was, whatever the output.
pub round_shrinks :
    (n opcode : ℕ) (rest out : List ℕ) {rest' out' : List ℕ}
    → round n opcode rest out ≡ next rest' out'
    → length rest' ≤ length rest
unfolding round
round_shrinks n opcode [] out e = ground arith
round_shrinks n opcode (b ∷ rest) out e = ground (arith, length-drop (opcode + 1) (b ∷ rest))

-- The state (rest, out) is reached from (input, out0) by rounds that go on.
pub data Runs (n : ℕ) (input out0 : List ℕ) : List ℕ → List ℕ → Type 0 where
  here : Runs n input out0 input out0
  after :
      {opcode : ℕ} {rest out rest' out' : List ℕ}
      → Runs n input out0 (opcode ∷ rest) out
      → round n opcode rest out ≡ next rest' out'
      → Runs n input out0 rest' out'

-- In every state that the decoder reaches from an empty output, the output fits its buffer of
-- `n` bytes, and no more than the input is left to read.
pub Runs-bounds :
    {n : ℕ} {input rest out : List ℕ}
    → Runs n input [] rest out
    → (length out ≤ n) × (length rest ≤ length input)
Runs-bounds here = omega arith
Runs-bounds (after {opcode} {rest} {out} r e) =
    let (fits, left) = Runs-bounds r in omega (arith, round_bounds _ opcode rest out e fits)
