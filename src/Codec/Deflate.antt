-- ===== src/Codec/Deflate.antt =====
-- pakka_dk_deflate of src/dk_codec.c and its helpers: a greedy matcher over the input.
pub mod Scan
use pakka.Prelude.{ℕ, zero, suc, ◌+◌, ◌-◌, ◌*◌, ◌/◌, ◌&&◌, Option, none, some}
use pakka.Prelude.{List, [], ◌∷◌, ◌++◌, ltb, leb, ◌==◌, if◌then◌else◌, length, get_or, take, drop}
use pakka.Prelude.{u8, u64}
use pakka.Status.{Result, ok, err, err_limit}

abbrev pub max_zero_run : ℕ
max_zero_run = 64

abbrev pub max_byte_run : ℕ
max_byte_run = 64

abbrev pub max_back_ref : ℕ
max_back_ref = 62

abbrev pub max_back_dist : ℕ
max_back_dist = 257

abbrev pub max_literal : ℕ
max_literal = 64

abbrev pub min_zero_run : ℕ
min_zero_run = 2

abbrev pub min_byte_run : ℕ
min_byte_run = 3

abbrev pub min_back_ref : ℕ
min_back_ref = 3

-- `if (x > limit) x = limit;`
abbrev pub cap : ℕ → ℕ → ℕ
cap limit x = if ltb limit x then limit else x

-- in[i]
abbrev pub byte_at : List ℕ → ℕ → ℕ
byte_at input i = get_or input i 0

-- `while (len < max && in[i + len] == b) len++;` with max - len rounds left.
unfoldable pub count_run : List ℕ → ℕ → ℕ → ℕ → ℕ → ℕ
count_run input b i zero len = len
count_run input b i (suc left) len =
    let more = count_run input b i left (len + 1) in
    if byte_at input (i + len) == b then more else len

-- dk_count_zero_run
unfoldable pub count_zero_run : List ℕ → ℕ → ℕ
count_zero_run input i = count_run input 0 i (cap max_zero_run (length input - i)) 0

-- dk_count_byte_run
unfoldable pub count_byte_run : List ℕ → ℕ → ℕ
count_byte_run input i =
    if leb (length input) i
    then 0
    else count_run input (byte_at input i) i (cap max_byte_run (length input - i) - 1) 1

-- `while (len < per_d_cap && in[i + len] == in[i + len - d]) len++;`
unfoldable pub count_match : List ℕ → ℕ → ℕ → ℕ → ℕ → ℕ
count_match input d i zero len = len
count_match input d i (suc left) len =
    let more = count_match input d i left (len + 1) in
    if byte_at input (i + len) == byte_at input (i + len - d) then more else len

-- The loop of dk_find_match over the distances, with those that are left. The pair is
-- (best_len, best_dist).
unfoldable pub best_match : List ℕ → ℕ → ℕ → ℕ → ℕ × ℕ → ℕ × ℕ
best_match input i zero d best = best
best_match input i (suc left) d best =
    let per_d_cap = cap (length input - i) (if ltb d max_back_ref then d else max_back_ref) in
    let len = count_match input d i (per_d_cap - 1) 1 in
    let rest = best_match input i left (d + 1) best in
    let better = best_match input i left (d + 1) (len, d) in
    if ltb per_d_cap min_back_ref
    then rest
    else if byte_at input (i - d) == byte_at input i
    then (if ltb best.0 len then (if len == max_back_ref then (len, d) else better) else rest)
    else rest

-- dk_find_match: the length and the distance; (0, 0) below the smallest length.
unfoldable pub find_match : List ℕ → ℕ → ℕ × ℕ
find_match input i =
    let max_d = if ltb i max_back_dist then i else max_back_dist in
    let best = best_match input i (max_d - 1) 2 (0, 0) in
    if ltb i 2
    then (0, 0)
    else if ltb (length input - i) min_back_ref
    then (0, 0)
    else if ltb best.0 min_back_ref
    then (0, 0)
    else best

pub data Kind : Type 0 where
  literal zeros bytes back : Kind

-- `(len >= least) ? len : 0`
abbrev pub effective : ℕ → ℕ → ℕ
effective least len = if leb least len then len else 0

-- The kind of token and how many bytes it takes, from z_eff, r_eff and m_eff.
unfoldable pub choose : ℕ → ℕ → ℕ → Kind × ℕ
choose z r m =
    if (z == 0) && ((r == 0) && (m == 0))
    then (literal, 1)
    else if ltb r (z * 2) && ltb m (z * 2)
    then (zeros, z)
    else if ltb r m
    then (back, m)
    else (bytes, r)

pub record Encoder : Type 0 where
  pub i : ℕ
  pub out : List ℕ
  pub literal_start : ℕ
  pub literal_len : ℕ

-- The literal run is written out and emptied.
unfoldable pub flush : List ℕ → Encoder → Encoder
flush input s = record s {
  out = s.out ++ u8 (s.literal_len - 1) ∷ take s.literal_len (drop s.literal_start input);
  literal_len = 0;
}

-- `if (literal_len > 0) { … }`
unfoldable pub flush_pending : List ℕ → Encoder → Encoder
flush_pending input s = if ltb 0 s.literal_len then flush input s else s

-- One more byte in the literal run, which is written out when it is full.
unfoldable pub add_literal : List ℕ → Encoder → Encoder
add_literal input s =
    let s' = record s {
      i = s.i + 1;
      literal_start = if s.literal_len == 0 then s.i else s.literal_start;
      literal_len = s.literal_len + 1;
    } in
    if s'.literal_len == max_literal then flush input s' else s'

-- The bytes of a token that is no literal run.
unfoldable pub token : List ℕ → ℕ → Kind → ℕ → ℕ → List ℕ
token input i literal taken dist = []
token input i zeros taken dist = u8 (taken + 62) ∷ []
token input i bytes taken dist = u8 (taken + 126) ∷ byte_at input i ∷ []
token input i back taken dist = u8 (taken + 190) ∷ u8 (dist - 2) ∷ []

unfoldable pub emit : List ℕ → Kind → ℕ → ℕ → Encoder → Encoder
emit input literal taken dist s = add_literal input s
emit input kind taken dist s =
    let s' = flush_pending input s in
    record s' { i = s'.i + taken; out = s'.out ++ token input s'.i kind taken dist }

-- One round of the main loop.
unfoldable pub encode_round : List ℕ → Encoder → Encoder
encode_round input s =
    let (mlen, mdist) = find_match input s.i in
    let (kind, taken) =
      choose (effective min_zero_run (count_zero_run input s.i))
        (effective min_byte_run (count_byte_run input s.i)) (effective min_back_ref mlen) in
    emit input kind taken mdist s

-- `while (i < in_len)`; `none` says that the rounds ran out.
unfoldable pub encode : ℕ → List ℕ → Encoder → Option Encoder
encode zero input s = if ltb s.i (length input) then none else some s
encode (suc left) input s =
    let rest = encode left input (encode_round input s) in
    if ltb s.i (length input) then rest else some s

-- in_len + ceil(in_len / 64) + 1, in 64 bits.
unfoldable pub worst : ℕ → ℕ
worst in_len = u64 (u64 (in_len + u64 (in_len + 63) / 64) + 1)

abbrev pub start : Encoder
start = record { i = 0; out = []; literal_start = 0; literal_len = 0 }

-- A round takes a byte at least, so a round for each byte of the input is enough.
unfoldable pub deflate : List ℕ → ℕ → Option (Result (List ℕ))
deflate input out_cap =
    if ltb out_cap (worst (length input))
    then some (err err_limit)
    else elim (encode (length input) input start) [
      | none ↦ none
      | some s ↦ some (ok ((flush_pending input s).out ++ 0xff ∷ []))
    ]
