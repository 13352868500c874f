-- ===== src/Codec/RoundTrip/Emit.antt =====
-- Each round of the encoder keeps the invariant and takes a byte at least.
use pakka.Prelude.{ℕ, ◌+◌, ◌-◌, ◌*◌, ◌≤◌, ◌<◌, ◌≡◌, refl, ap, ◌∙◌, arith, u8}
use pakka.Prelude.{
  List, [], ◌∷◌, ◌++◌, length, take, length-take, length-append, ltb, ◌==◌, if_intro,
}
use pakka.Prelude.{◌&&◌, ◌⊎◌, inl, inr}
use pakka.Codec.Inflate.{next, round}
use pakka.Codec.Deflate.{
  byte_at, Encoder, flush_pending, token, emit, literal, zeros, bytes, back, Kind, effective,
  choose, min_zero_run, min_byte_run, min_back_ref, find_match, count_zero_run, count_byte_run,
  encode_round,
}
use pakka.Codec.Deflate.Scan.{
  IsRun, IsFound, count_zero_run_lem, count_byte_run_lem, find_match-IsFound,
}
use pakka.Codec.RoundTrip.Tokens.{take_run, copy_back-take, zeros-round, bytes-round, back-round}
use pakka.Codec.RoundTrip.Invariant.{
  IsSound, IsSmall, Runs-append, flush_pending-IsSound, add_literal-IsSound,
}

-- `taken` bytes from `i` on are what the token of this kind stands for.
abbrev pub IsToken : List ℕ → ℕ → Kind → ℕ → ℕ → Type 0
IsToken input i literal taken dist = ⊥
IsToken input i zeros taken dist = (2 ≤ taken) × (taken ≤ 64) × IsRun input 0 i taken
IsToken input i bytes taken dist =
    (3 ≤ taken) × (taken ≤ 64) × IsRun input (byte_at input i) i taken
IsToken input i back taken dist = (3 ≤ taken) × IsFound input i (taken, dist)

abbrev advance : List ℕ → Kind → ℕ → ℕ → Encoder → Encoder
advance input kind taken dist s = record s {
  i = s.i + taken;
  out = s.out ++ token input s.i kind taken dist;
}

module _ (input : List ℕ) (s : Encoder) (h : IsSound input s) (empty : s.literal_len ≡ 0)
    (taken dist : ℕ) (fits : s.i + taken ≤ length input) where
  front : take (s.i - s.literal_len) input ≡ take s.i input
  front = let e : s.i - s.literal_len ≡ s.i = omega arith in ap (λ k. take k input) e

  length-front : length (take s.i input) ≡ s.i
  length-front = omega (arith, length-take s.i input, h.room)

  -- Behind a token the output decodes to the bytes that the token took.
  advance-IsSound :
      (kind : Kind) (opcode : ℕ) (more : List ℕ)
      → token input s.i kind taken dist ≡ opcode ∷ more
      → ((tail : List ℕ)
          → round (length input) opcode (more ++ tail) (take s.i input)
            ≡ next tail (take (s.i + taken) input))
      → IsSound input (advance input kind taken dist s)
  advance-IsSound kind opcode more e step = record {
    room = fits;
    pending = omega arith;
    started = λ p. absurd (omega arith);
    decodes = λ tail.
        let z : s.i + taken - s.literal_len ≡ s.i + taken = omega arith in
        rw (e, z)
          (Runs-append (length input) opcode s.out more tail (take s.i input)
            (take (s.i + taken) input) (λ t. rw front at (h.decodes t)) (step tail));
  }

  token-IsSound :
      (kind : Kind)
      → IsToken input s.i kind taken dist
      → IsSound input (advance input kind taken dist s)
  unfolding token
  token-IsSound literal t = absurd t
  token-IsSound zeros (lo, hi, run) = advance-IsSound zeros (u8 (taken + 62)) [] refl λ tail.
      zeros-round (length input) taken tail (take s.i input) lo hi (omega (arith, length-front))
      ∙ ap (next tail) (take_run input 0 s.i taken (s.i + taken) refl fits run)
  token-IsSound bytes (lo, hi, run) =
      advance-IsSound bytes (u8 (taken + 126)) (byte_at input s.i ∷ []) refl λ tail.
        bytes-round (length input) taken (byte_at input s.i) tail (take s.i input) lo hi
          (omega (arith, length-front))
        ∙ ap (next tail) (take_run input (byte_at input s.i) s.i taken (s.i + taken) refl fits run)
  token-IsSound back (lo, found) =
      let (near, below, far) = found.distance lo in
      advance-IsSound back (u8 (taken + 190)) (u8 (dist - 2) ∷ []) refl λ tail.
        back-round (length input) taken dist tail (take s.i input) lo found.short near far
          (omega (arith, length-front)) (omega (arith, length-front))
        ∙ ap (next tail) (
            copy_back-take input dist s.i taken (s.i + taken) refl fits (omega arith) below
              found.matches)

-- A sound state before another round.
pub record IsReady (input : List ℕ) (s : Encoder) : Type 0 where
  pub sound : IsSound input s
  pub short : s.literal_len < 64
  pub small : IsSmall s

-- A token is shorter than the bytes that it takes.
length-token :
    (input : List ℕ) (i : ℕ) (kind : Kind) (taken dist : ℕ)
    → IsToken input i kind taken dist
    → length (token input i kind taken dist) < taken
unfolding token
length-token input i literal taken dist t = absurd t
length-token input i zeros taken dist t = omega arith
length-token input i bytes taken dist t = omega arith
length-token input i back taken dist t = omega arith

-- A token behind the pending literal run.
flushed-IsReady :
    (input : List ℕ) (kind : Kind) (taken dist : ℕ) (s : Encoder)
    → IsReady input s
    → s.i + taken ≤ length input
    → IsToken input s.i kind taken dist
    → IsReady input (advance input kind taken dist (flush_pending input s))
      × ((flush_pending input s).i + taken ≡ s.i + taken)
flushed-IsReady input kind taken dist s h fits t =
    let (sound, empty, e, size) = flush_pending-IsSound input s h.sound (omega (arith, h.short)) in
    (
      record {
        sound =
            token-IsSound input (flush_pending input s) sound empty taken dist (rw e fits) kind
              (rw e t);
        short = omega arith;
        small = omega (
          arith,
          h.small,
          h.sound.pending,
          length-token input (flush_pending input s).i kind taken dist (rw e t),
          length-append (flush_pending input s).out
              (token input (flush_pending input s).i kind taken dist),
        );
      },
      ap (λ i. i + taken) e,
    )

-- What a round of the encoder takes: one literal byte, or a token.
abbrev IsChoice : List ℕ → ℕ → Kind → ℕ → ℕ → Type 0
IsChoice input i literal taken dist = taken ≡ 1
IsChoice input i kind taken dist = IsToken input i kind taken dist

emit-IsReady :
    (input : List ℕ) (kind : Kind) (taken dist : ℕ) (s : Encoder)
    → IsReady input s
    → s.i + taken ≤ length input
    → IsChoice input s.i kind taken dist
    → IsReady input (emit input kind taken dist s)
      × ((emit input kind taken dist s).i ≡ s.i + taken)
unfolding emit
emit-IsReady input literal taken dist s h fits t =
    let (sound, short, e, small) =
      add_literal-IsSound input s h.sound h.short h.small (omega arith) in
    (record { sound = sound; short = short; small = small }, omega arith)
emit-IsReady input zeros taken dist s h fits t = flushed-IsReady input zeros taken dist s h fits t
emit-IsReady input bytes taken dist s h fits t = flushed-IsReady input bytes taken dist s h fits t
emit-IsReady input back taken dist s h fits t = flushed-IsReady input back taken dist s h fits t

-- A length that counts reaches its least value.
effective_pos : (least n : ℕ) → 0 < effective least n → (effective least n ≡ n) × (least ≤ n)
effective_pos least n h = ground arith

-- The four answers of the choice.
abbrev IsAnswer : ℕ → ℕ → ℕ → Kind × ℕ → Type 0
IsAnswer z r m c =
    (c ≡ (literal, 1))
    ⊎ (((c ≡ (zeros, z)) × (0 < z)) ⊎ (((c ≡ (back, m)) × (0 < m)) ⊎ ((c ≡ (bytes, r)) × (0 < r))))

choose-IsAnswer : (z r m : ℕ) → IsAnswer z r m (choose z r m)
unfolding choose
choose-IsAnswer z r m =
    if_intro (IsAnswer z r m) ((z == 0) && ((r == 0) && (m == 0))) (λ _. inl refl)
      (λ some_left.
        if_intro (IsAnswer z r m) (ltb r (z * 2) && ltb m (z * 2))
          (λ e. inr (inl (refl, ground arith)))
          (λ e.
            if_intro (IsAnswer z r m) (ltb r m) (λ d. inr (inr (inl (refl, ground arith))))
              (λ d. inr (inr (inr (refl, ground arith))))))

-- The choice of the token: it is one that the scans found, and takes a byte at least.
module _ (input : List ℕ) (i : ℕ) (lt : i < length input) where
  abbrev IsGood : ℕ → Kind × ℕ → Type 0
  IsGood dist c = IsChoice input i c.0 c.1 dist × (1 ≤ c.1) × (i + c.1 ≤ length input)

  choose-IsGood :
      (z r : ℕ) (m : ℕ × ℕ)
      → IsRun input 0 i z × (z ≤ 64) × (i + z ≤ length input)
      → IsRun input (byte_at input i) i r × (r ≤ 64) × (i + r ≤ length input)
      → IsFound input i m
      → IsGood m.1 (
          choose (effective min_zero_run z) (effective min_byte_run r) (effective min_back_ref m.0))
  choose-IsGood z r m (zrun, z64, zfits) (rrun, r64, rfits) found =
      elim (choose-IsAnswer (effective min_zero_run z) (effective min_byte_run r)
        (effective min_back_ref m.0)) [
          | inl e ↦ rw e (refl, omega arith, omega arith)
          | inr (inl (e, pos)) ↦
              let (same, least) = effective_pos min_zero_run z pos in
              rw (e, same) ((least, z64, zrun), omega arith, zfits)
          | inr (inr (inl (e, pos))) ↦
              let (same, least) = effective_pos min_back_ref m.0 pos in
              rw (e, same) ((least, found), omega arith, found.room)
          | inr (inr (inr (e, pos))) ↦
              let (same, least) = effective_pos min_byte_run r pos in
              rw (e, same) ((least, r64, rrun), omega arith, rfits)
        ]

-- A round of the main loop from a state before the end of the input.
pub encode_round-IsReady :
    (input : List ℕ) (s : Encoder)
    → IsReady input s
    → s.i < length input
    → IsReady input (encode_round input s) × (s.i < (encode_round input s).i)
unfolding encode_round
encode_round-IsReady input s h lt =
    let m : ℕ × ℕ = find_match input s.i in
    let (choice, progress, fits) =
      choose-IsGood input s.i lt (count_zero_run input s.i) (count_byte_run input s.i) m
        (count_zero_run_lem input s.i h.sound.room) (count_byte_run_lem input s.i h.sound.room)
        (find_match-IsFound input s.i h.sound.room) in
    let (ready, moved) = emit-IsReady input _ _ m.1 s h fits choice in (ready, omega (arith, moved))
