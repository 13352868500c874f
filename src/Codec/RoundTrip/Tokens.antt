-- ===== src/Codec/RoundTrip/Tokens.antt =====
-- What each token of the encoder makes the decoder do.
use pakka.Prelude.{ℕ, zero, suc, ◌+◌, ◌-◌, ◌≤◌, ◌≡◌, sym, ap, ◌∙◌, arith, u8}
use pakka.Prelude.{List, [], ◌∷◌, ◌++◌, append-nil, append_assoc, length, take, replicate}
use pakka.Prelude.{
  get_or, take-suc, take-append, drop-append, length-take, get_or-take, length-append,
}
use pakka.Codec.Inflate.{next, copy_back, round}
use pakka.Codec.Deflate.{byte_at}
use pakka.Codec.Deflate.Scan.{IsRun, IsMatch}

-- The front part up to the end of a run is the front part up to its start and the run.
pub take_run :
    (input : List ℕ) (b i len k : ℕ)
    → i + len ≡ k
    → k ≤ length input
    → IsRun input b i len
    → take i input ++ replicate len b ≡ take k input
take_run input b i zero k e h run =
    let e' : i ≡ k = omega arith in append-nil _ ∙ ap (λ m. take m input) e'
take_run input b i (suc len) k e h run =
    let first : byte_at input i ≡ b =
      let z : i + 0 ≡ i = omega arith in ap (byte_at input) (sym z) ∙ run 0 (omega arith) in
    let later : IsRun input b (suc i) len = λ j lt.
      let z : suc i + j ≡ i + suc j = omega arith in
      ap (byte_at input) z ∙ run (suc j) (omega arith) in
    let grown : take (suc i) input ≡ take i input ++ b ∷ [] =
      rw (← first) (take-suc i input 0 (omega arith)) in
    sym (append_assoc (take i input) (b ∷ []) (replicate len b))
    ∙ rw (← grown) (take_run input b (suc i) len k (omega arith) h later)

-- Copying a match out of the front part gives the front part up to the end of the match.
pub copy_back-take :
    (input : List ℕ) (d i len k : ℕ)
    → i + len ≡ k
    → k ≤ length input
    → 1 ≤ d
    → d ≤ i
    → IsMatch input d i len
    → copy_back d len (take i input) ≡ take k input
unfolding copy_back
copy_back-take input d i zero k e h lo hi m =
    let e' : i ≡ k = omega arith in ap (λ m. take m input) e'
copy_back-take input d i (suc len) k e h lo hi m =
    let source : get_or (take i input) (length (take i input) - d) 0 ≡ byte_at input i =
      let n : length (take i input) ≡ i = omega (arith, length-take i input) in
      let z : i + 0 ≡ i = omega arith in
      rw n (get_or-take i (i - d) input 0 (omega arith))
      ∙ ap (λ t. byte_at input (t - d)) (sym z)
      ∙ sym (m 0 (omega arith))
      ∙ ap (byte_at input) z in
    let later : IsMatch input d (suc i) len =
      λ j lt. let z : suc i + j ≡ i + suc j = omega arith in rw z (m (suc j) (omega arith)) in
    let grown : take i input ++ byte_at input i ∷ [] ≡ take (suc i) input =
      sym (take-suc i input 0 (omega arith)) in
    rw (source, grown) (copy_back-take input d (suc i) len k (omega arith) h lo (omega arith) later)

pub zeros-round :
    (n taken : ℕ) (tail out : List ℕ)
    → 2 ≤ taken
    → taken ≤ 64
    → length out + taken ≤ n
    → round n (u8 (taken + 62)) tail out ≡ next tail (out ++ replicate taken 0)
unfolding round
zeros-round n taken tail out lo hi fits = ground arith

pub bytes-round :
    (n taken b : ℕ) (tail out : List ℕ)
    → 3 ≤ taken
    → taken ≤ 64
    → length out + taken ≤ n
    → round n (u8 (taken + 126)) (b ∷ tail) out ≡ next tail (out ++ replicate taken b)
unfolding round
bytes-round n taken b tail out lo hi fits = ground arith

pub back-round :
    (n taken dist : ℕ) (tail out : List ℕ)
    → 3 ≤ taken
    → taken ≤ 62
    → 2 ≤ dist
    → dist ≤ 257
    → dist ≤ length out
    → length out + taken ≤ n
    → round n (u8 (taken + 190)) (u8 (dist - 2) ∷ tail) out ≡ next tail (copy_back dist taken out)
unfolding round
back-round n taken dist tail out lo hi near far below fits = ground arith

pub literal-round :
    (n : ℕ) (run tail out : List ℕ)
    → 1 ≤ length run
    → length run ≤ 64
    → length out + length run ≤ n
    → round n (u8 (length run - 1)) (run ++ tail) out ≡ next tail (out ++ run)
unfolding round
literal-round n run tail out lo hi fits =
    ground (arith, length-append run tail, take-append run tail, drop-append run tail)
