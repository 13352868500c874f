-- ===== src/Codec/Inflate/Total.antt =====
-- The decoder returns on every input, and what it returns.
use pakka.Prelude.{ℕ, zero, suc, ◌≤◌, ◌≡◌, ◌⊎◌, inl, inr, refl, ◌∙◌, arith}
use pakka.Prelude.{List, [], ◌∷◌, length, Option, some, ◌==◌, Bool-cases, ==_iff}
use pakka.Status.{Result, ok, err, err_format}
use pakka.Codec.Inflate.{Round, next, stop, fail, round, loop, finish, inflate}
use pakka.Codec.Inflate.Rounds.{Runs, here, after, round_shrinks}

pub Round-cases :
    (r : Round)
    → ((rest : List ℕ) × (out : List ℕ) × (r ≡ next rest out)) ⊎ ((r ≡ stop) ⊎ (r ≡ fail))
Round-cases (next rest out) = inl (rest, out, refl)
Round-cases stop = inr (inl refl)
Round-cases fail = inr (inr refl)

-- The answer does not depend on the rounds allowed, once they are enough.
pub loop_fuel :
    (f g n : ℕ) (rest out : List ℕ)
    → length rest ≤ f
    → length rest ≤ g
    → loop f n rest out ≡ loop g n rest out
unfolding loop
loop_fuel zero zero n [] out p q = refl
loop_fuel zero (suc g) n [] out p q = refl
loop_fuel (suc f) zero n [] out p q = refl
loop_fuel (suc f) (suc g) n [] out p q = refl
loop_fuel zero g n (b ∷ rest) out p q = absurd (omega arith)
loop_fuel (suc f) zero n (b ∷ rest) out p q = absurd (omega arith)
loop_fuel (suc f) (suc g) n (b ∷ rest) out p q = elim (Round-cases (round n b rest out)) [
  | inl (rest', out', e) ↦
      let h : length rest' ≤ length rest = round_shrinks n b rest out e in
      rw (e, loop) (loop_fuel f g n rest' out' (omega arith) (omega arith))
  | inr (inl e) ↦ rw (e, loop)
  | inr (inr e) ↦ rw (e, loop)
]

finish-cases :
    (n : ℕ) (out : List ℕ)
    → (some (finish n out) ≡ some (err err_format))
      ⊎ ((result : List ℕ) × (some (finish n out) ≡ some (ok result)) × (length result ≡ n))
unfolding finish
finish-cases n out = elim (Bool-cases (length out == n)) [
  | inl e ↦ inr (out, rw e, (==_iff _ _).0 e)
  | inr e ↦ inl (rw e)
]

pub loop_returns :
    (f n : ℕ) (rest out : List ℕ)
    → length rest ≤ f
    → (loop f n rest out ≡ some (err err_format))
      ⊎ ((result : List ℕ) × (loop f n rest out ≡ some (ok result)) × (length result ≡ n))
unfolding loop finish
loop_returns zero n [] out h = finish-cases n out
loop_returns (suc f) n [] out h = finish-cases n out
loop_returns zero n (b ∷ rest) out h = absurd (omega arith)
loop_returns (suc f) n (b ∷ rest) out h = elim (Round-cases (round n b rest out)) [
  | inl (rest', out', e) ↦
      let le : length rest' ≤ length rest = round_shrinks n b rest out e in
      rw (e, loop) (loop_returns f n rest' out' (omega arith))
  | inr (inl e) ↦ rw (e, loop) (finish-cases n out)
  | inr (inr e) ↦ rw (e, loop) (inl refl)
]

-- On every input the decoder returns: with PAKKA_ERR_FORMAT, or with as many bytes as asked for.
pub inflate_returns :
    (input : List ℕ) (out_len : ℕ)
    → (inflate input out_len ≡ some (err err_format))
      ⊎ ((result : List ℕ) × (inflate input out_len ≡ some (ok result)) × (length result ≡ out_len))
unfolding inflate
inflate_returns input out_len = loop_returns (length input) out_len input [] (omega arith)

-- What the decoder answers from a state does not change by the rounds that lead to another.
unfoldable pub decode : ℕ → List ℕ → List ℕ → Option (Result (List ℕ))
decode n rest out = loop (length rest) n rest out

decode_step :
    (n opcode : ℕ) (rest out rest' out' : List ℕ)
    → round n opcode rest out ≡ next rest' out'
    → decode n (opcode ∷ rest) out ≡ decode n rest' out'
unfolding decode loop
decode_step n opcode rest out rest' out' e =
    rw (e, loop)
      (loop_fuel (length rest) (length rest') n rest' out' (round_shrinks n opcode rest out e)
        (omega arith))

pub decode-Runs :
    {n : ℕ} {input out0 rest out : List ℕ}
    → Runs n input out0 rest out
    → decode n input out0 ≡ decode n rest out
decode-Runs here = refl
decode-Runs (after {opcode} {rest} {out} {rest'} {out'} r e) =
    decode-Runs r ∙ decode_step _ opcode rest out rest' out' e
