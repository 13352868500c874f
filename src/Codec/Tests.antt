-- ===== src/Codec/Tests.antt =====
-- Runs of the codec on small inputs, and its theorems at such inputs.
use pakka.Prelude.{ℕ, ◌≤◌, ◌≡◌, refl, arith, List, [], ◌∷◌, ◌++◌, some, length, ◌⊎◌}
use pakka.Status.{ok, err, err_format}
use pakka.Codec.Inflate.{inflate, loop, round, finish, copy_back}
use pakka.Codec.Inflate.Total.{inflate_returns}
use pakka.Codec.Inflate.Rounds.{Runs, here, after, Runs-bounds}
use pakka.Codec.Deflate.{
  deflate, worst, encode, encode_round, emit, choose, count_zero_run, count_run, count_byte_run,
  find_match, best_match, count_match, add_literal, flush_pending, flush, token,
}
use pakka.Codec.Deflate.Scan.{IsFound, find_match-IsFound}
use pakka.Codec.RoundTrip.{deflate-inflate}

abbrev sample : List ℕ
sample = 1 ∷ 2 ∷ 3 ∷ 1 ∷ 2 ∷ 3 ∷ 0 ∷ 0 ∷ 0 ∷ 7 ∷ 7 ∷ 7 ∷ 7 ∷ []

abbrev sample_packed : List ℕ
sample_packed = 2 ∷ 1 ∷ 2 ∷ 3 ∷ 193 ∷ 1 ∷ 65 ∷ 130 ∷ 7 ∷ 0xff ∷ []

deflate-sample : deflate sample 15 ≡ some (ok sample_packed)
unfolding deflate worst encode encode_round emit choose count_zero_run count_run count_byte_run
    find_match best_match count_match add_literal flush_pending flush token
deflate-sample = refl

inflate-sample : inflate sample_packed 13 ≡ some (ok sample)
unfolding inflate loop round finish copy_back
inflate-sample = refl

-- The gap in the opcode table, an underflow, and a short stream.
inflate_refusals :
    (inflate (254 ∷ []) 0 ≡ some (err err_format))
    × (inflate (192 ∷ 0 ∷ []) 2 ≡ some (err err_format))
    × (inflate (0 ∷ 7 ∷ []) 2 ≡ some (err err_format))
unfolding inflate loop round finish
inflate_refusals = (refl, refl, refl)

inflate_returns_example :
    (inflate (64 ∷ []) 2 ≡ some (err err_format))
    ⊎ ((result : List ℕ) × (inflate (64 ∷ []) 2 ≡ some (ok result)) × (length result ≡ 2))
inflate_returns_example = inflate_returns (64 ∷ []) 2

zeros_reached : Runs 2 (64 ∷ []) [] [] (0 ∷ 0 ∷ [])
unfolding round
zeros_reached = after here refl

Runs-bounds_example : (2 ≤ 2) × (0 ≤ 1)
Runs-bounds_example = Runs-bounds zeros_reached

deflate-inflate_example :
    (packed : List ℕ) × (deflate sample 15 ≡ some (ok packed))
    × (length packed ≤ worst 13)
    × (inflate (packed ++ 9 ∷ 9 ∷ []) 13 ≡ some (ok sample))
unfolding worst
deflate-inflate_example = deflate-inflate sample 15 (9 ∷ 9 ∷ []) (omega arith) (omega arith)

find_match-IsFound_example : IsFound sample 3 (find_match sample 3)
find_match-IsFound_example = find_match-IsFound sample 3 (omega arith)
