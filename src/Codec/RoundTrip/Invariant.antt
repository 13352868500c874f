-- ===== src/Codec/RoundTrip/Invariant.antt =====
-- The invariant of the encoder's main loop, and that each round keeps it.
use pakka.Prelude.{ℕ, ◌+◌, ◌-◌, ◌≤◌, ◌<◌, ◌≡◌, refl, sym, ap, ◌∙◌, arith, u8}
use pakka.Prelude.{List, [], ◌∷◌, ◌++◌, append_assoc, length, take, drop}
use pakka.Prelude.{take_add, length-take, length-drop, ltb, ◌==◌, if_intro, ltb→lt, if◌then◌else◌}
use native.Mathlib.Nat.{sub-zero}
use pakka.Prelude.{length-append, ◌/◌, min}
use pakka.Codec.Inflate.{next, round}
use pakka.Codec.Inflate.Rounds.{Runs, after}
use pakka.Codec.Deflate.{Encoder, flush, flush_pending, add_literal}
use pakka.Codec.RoundTrip.Tokens.{literal-round}

-- What stands in the output decodes to the input up to the pending literal run.
pub record IsSound (input : List ℕ) (s : Encoder) : Type 0 where
  pub room : s.i ≤ length input
  pub pending : s.literal_len ≤ s.i
  pub started : 0 < s.literal_len → s.literal_start + s.literal_len ≡ s.i
  pub decodes :
      (tail : List ℕ)
      → Runs (length input) (s.out ++ tail) [] tail (take (s.i - s.literal_len) input)

-- The bytes of a literal run and the front part before it make the front part up to its end.
take-literal :
    (input : List ℕ) (at n i : ℕ)
    → at + n ≡ i
    → take (i - n) input ++ take n (drop at input) ≡ take i input
take-literal input at n i e =
    let e' : i - n ≡ at = omega arith in rw e' (sym (take_add at n i input e))

-- One more token behind what decodes already.
pub Runs-append :
    (n opcode : ℕ) (out more tail done done' : List ℕ)
    → ((tail : List ℕ) → Runs n (out ++ tail) [] tail done)
    → round n opcode (more ++ tail) done ≡ next tail done'
    → Runs n ((out ++ opcode ∷ more) ++ tail) [] tail done'
Runs-append n opcode out more tail done done' h e =
    rw append_assoc (after (h (opcode ∷ (more ++ tail))) e)

module _ (input : List ℕ) (s : Encoder) (h : IsSound input s) (lo : 0 < s.literal_len)
    (hi : s.literal_len ≤ 64) where
  abbrev run : List ℕ
  run = take s.literal_len (drop s.literal_start input)

  length-run : length run ≡ s.literal_len
  length-run =
      let e : s.literal_start + s.literal_len ≡ s.i = h.started lo in
      let r : s.i ≤ length input = h.room in
      omega (
        arith,
        length-take s.literal_len (drop s.literal_start input),
        length-drop s.literal_start input,
      )

  literal_step :
      (tail : List ℕ)
      → round
          (length input)
          (u8 (s.literal_len - 1))
          (run ++ tail)
          (take (s.i - s.literal_len) input)
        ≡ next tail (take s.i input)
  literal_step tail =
      let front : List ℕ = take (s.i - s.literal_len) input in
      let r : s.i ≤ length input = h.room in
      let p : s.literal_len ≤ s.i = h.pending in
      let n : length front ≡ s.i - s.literal_len =
        omega (arith, length-take (s.i - s.literal_len) input) in
      let l : length run ≡ s.literal_len = length-run in
      ap (λ k. round (length input) (u8 (k - 1)) (run ++ tail) front) (sym length-run)
      ∙ literal-round (length input) run tail front (omega arith) (omega arith) (omega arith)
      ∙ ap (next tail) (take-literal input s.literal_start s.literal_len s.i (h.started lo))

  flush-IsSound : IsSound input (flush input s)
  unfolding flush
  flush-IsSound = record {
    room = h.room;
    pending = omega arith;
    started = λ p. absurd (omega arith);
    decodes = λ tail.
        Runs-append (length input) (u8 (s.literal_len - 1)) s.out run tail
          (take (s.i - s.literal_len) input) (take (s.i - 0) input) h.decodes
          (rw sub-zero (literal_step tail));
  }

  length-flush : length (flush input s).out ≡ length s.out + 1 + s.literal_len
  unfolding flush
  length-flush = omega (arith, length-append s.out (u8 (s.literal_len - 1) ∷ run), length-run)

-- At most a byte in the output for each byte encoded, and one for each 64 of them.
abbrev pub IsSmall : Encoder → Type 0
IsSmall s = length s.out ≤ s.i - s.literal_len + (s.i - s.literal_len) / 64

-- The literal run is written out before any other token.
pub flush_pending-IsSound :
    (input : List ℕ) (s : Encoder)
    → IsSound input s
    → s.literal_len ≤ 64
    → IsSound input (flush_pending input s)
      × ((flush_pending input s).literal_len ≡ 0)
      × ((flush_pending input s).i ≡ s.i)
      × (length (flush_pending input s).out ≤ length s.out + s.literal_len + min 1 s.literal_len)
unfolding flush_pending flush
flush_pending-IsSound input s h hi =
    if_intro
      (λ t.
        IsSound input t
        × (t.literal_len ≡ 0)
        × (t.i ≡ s.i)
        × (length t.out ≤ length s.out + s.literal_len + min 1 s.literal_len))
      (ltb 0 s.literal_len)
      (λ e. (
        flush-IsSound input s h (ltb→lt _ _ e) hi,
        refl,
        refl,
        omega (arith, length-flush input s h (ltb→lt _ _ e) hi, ltb→lt _ _ e),
      ))
      (λ e. (h, ground arith, refl, omega arith))

pub add_literal-IsSound :
    (input : List ℕ) (s : Encoder)
    → IsSound input s
    → s.literal_len < 64
    → IsSmall s
    → s.i < length input
    → IsSound input (add_literal input s)
      × ((add_literal input s).literal_len < 64)
      × ((add_literal input s).i ≡ s.i + 1)
      × IsSmall (add_literal input s)
unfolding add_literal flush
add_literal-IsSound input s h short small lt =
    if_intro (λ t. IsSound input t × (t.literal_len < 64) × (t.i ≡ s.i + 1) × IsSmall t)
      (s.literal_len + 1 == 64)
      (λ e. (
        flush-IsSound input longer sound (omega arith) (omega arith),
        omega arith,
        refl,
        ground (arith, length-flush input longer sound (omega arith) (omega arith), h.pending),
      ))
      (λ e. (sound, ground arith, refl, omega arith))
  where
    longer : Encoder
    longer = record s {
      i = s.i + 1;
      literal_start = if s.literal_len == 0 then s.i else s.literal_start;
      literal_len = s.literal_len + 1;
    }

    sound : IsSound input longer
    sound = record {
      room = omega arith;
      pending = let p : s.literal_len ≤ s.i = h.pending in omega arith;
      started = λ p. ground (arith, h.started);
      decodes = λ tail.
          let z : s.i + 1 - (s.literal_len + 1) ≡ s.i - s.literal_len = omega arith in
          rw z (h.decodes tail);
    }
