-- ===== src/Codec/RoundTrip.antt =====
-- The encoder and the decoder together: decoding what was encoded gives the input back.
mod Tokens
mod Invariant
mod Emit
use pakka.Prelude.{ℕ, zero, suc, ◌+◌, ◌-◌, ◌*◌, ◌/◌, ◌≤◌, ◌<◌, ◌≡◌, refl, sym, ap, ◌∙◌, arith}
use pakka.Prelude.{
  List, [], ◌∷◌, ◌++◌, append_assoc, length, take, take_all, length-append, ltb, if◌then◌else◌,
}
use pakka.Prelude.{Option, none, some, Bool-cases, ltb→lt, inl, inr, u64, min, ◌^◌, ◌↔◌}
use pakka.Status.{Result, ok, err, err_limit}
use pakka.Codec.Inflate.{inflate, loop, round, finish}
use pakka.Codec.Inflate.Rounds.{Runs, here}
use pakka.Codec.Inflate.Total.{decode, decode-Runs}
use pakka.Codec.Deflate.{Encoder, start, encode_round, encode, flush_pending, worst, deflate}
use Invariant.{IsSound, flush_pending-IsSound}
use Emit.{IsReady, encode_round-IsReady}

start-IsReady : (input : List ℕ) → IsReady input start
start-IsReady input = record {
  sound = record {
    room = omega arith;
    pending = omega arith;
    started = λ p. absurd (omega arith);
    decodes = λ tail. here;
  };
  short = omega arith;
  small = omega arith;
}

-- With a round for each byte that is left, the main loop ends at the end of the input.
encode-IsReady :
    (left : ℕ) (input : List ℕ) (s : Encoder)
    → IsReady input s
    → length input ≤ s.i + left
    → (t : Encoder) × (encode left input s ≡ some t) × IsReady input t × (t.i ≡ length input)
unfolding encode
encode-IsReady zero input s h enough = (s, ground arith, h, omega (arith, h.sound.room))
encode-IsReady (suc left) input s h enough = elim (Bool-cases (ltb s.i (length input))) [
  | inl e ↦
      let (ready, progress) = encode_round-IsReady input s h (ltb→lt _ _ e) in
      rw e (encode-IsReady left input (encode_round input s) ready (omega arith))
  | inr e ↦ (s, rw e, h, ground (arith, h.sound.room))
]

-- At the terminator the decoder looks at nothing that follows.
decode_terminator :
    (input junk : List ℕ) → decode (length input) (0xff ∷ junk) input ≡ some (ok input)
unfolding decode loop round finish
decode_terminator input junk = ground arith

module _ (input : List ℕ) where
  final :
      (t : Encoder) × (encode (length input) input start ≡ some t)
      × IsReady input t
      × (t.i ≡ length input)
  final = encode-IsReady (length input) input start (start-IsReady input) (omega arith)

  abbrev packed : List ℕ
  packed = (flush_pending input final.0).out ++ 0xff ∷ []

  flushed :
      IsSound input (flush_pending input final.0)
      × ((flush_pending input final.0).literal_len ≡ 0)
      × ((flush_pending input final.0).i ≡ final.0.i)
      × (length (flush_pending input final.0).out
          ≤ length final.0.out + final.0.literal_len + min 1 final.0.literal_len)
  flushed = flush_pending-IsSound input final.0 final.2.sound (omega (arith, final.2.short))

  deflate-packed :
      (out_cap : ℕ) → worst (length input) ≤ out_cap → deflate input out_cap ≡ some (ok packed)
  unfolding deflate
  deflate-packed out_cap h = ground (arith, final.1)

  inflate-packed : (junk : List ℕ) → inflate (packed ++ junk) (length input) ≡ some (ok input)
  unfolding inflate decode
  inflate-packed junk =
      let f : Encoder = flush_pending input final.0 in
      let e : f.i - f.literal_len ≡ length input = omega (arith, flushed.1, flushed.2, final.3) in
      let whole : take (f.i - f.literal_len) input ≡ input =
        rw e (take_all (length input) input (omega arith)) in
      let same : packed ++ junk ≡ f.out ++ 0xff ∷ junk = append_assoc f.out (0xff ∷ []) junk in
      rw same
        (decode-Runs (flushed.0.decodes (0xff ∷ junk)) ∙ rw whole (decode_terminator input junk))

  length-packed : length packed ≤ length input + (length input + 63) / 64 + 1
  length-packed = omega (
    arith,
    length-append (flush_pending input final.0).out (0xff ∷ []),
    flushed.3,
    final.2.small,
    final.2.sound.pending,
    final.3,
  )

-- An input whose worst case does not wrap in 64 bits, as every buffer of a program.
abbrev pub IsBuffer : List ℕ → Type 0
IsBuffer input = length input < 2 ^ 62

-- Given room for the worst case the encoder returns, in no more than the worst case, and the
-- decoder makes the input of what it wrote, whatever bytes follow.
pub deflate-inflate :
    (input : List ℕ) (out_cap : ℕ) (junk : List ℕ)
    → IsBuffer input
    → worst (length input) ≤ out_cap
    → (packed : List ℕ) × (deflate input out_cap ≡ some (ok packed))
      × (length packed ≤ worst (length input))
      × (inflate (packed ++ junk) (length input) ≡ some (ok input))
unfolding worst
deflate-inflate input out_cap junk small h = (
  packed input,
  deflate-packed input out_cap h,
  omega (arith, length-packed input),
  inflate-packed input junk,
)
