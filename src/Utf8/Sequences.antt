-- ===== src/Utf8/Sequences.antt =====
-- A sequence that pakka_utf8_seq_len of src/common.c accepts is accepted whatever follows it.
use pakka.Prelude.{ℕ, suc, ◌<◌, ◌≡◌, refl, ap, ◌∙◌, arith, not, ◌&&◌, ◌||◌, ◌⊎◌, inl, inr}
use pakka.Prelude.{List, [], ◌∷◌, ◌++◌, length, ltb, leb, ◌==◌, bit_and, Bool-cases}
use pakka.Utf8.{
  is_continuation, three_byte_cp, four_byte_cp, two_bytes, three_bytes, four_bytes, seq_len,
}

-- What `f` says of the bytes is what it says of the first of them, and it counts them and one more.
pub record IsPiece (f : List ℕ → ℕ) (bytes : List ℕ) : Type 0 where
  pub chunk : List ℕ
  pub rest : List ℕ
  pub split : bytes ≡ chunk ++ rest
  pub size : f bytes ≡ suc (length chunk)
  pub any : (more : List ℕ) → f (chunk ++ more) ≡ f bytes

two_bytes-cases : (c : ℕ) (r : List ℕ) → (two_bytes c r ≡ 0) ⊎ IsPiece (two_bytes c) r
unfolding two_bytes
two_bytes-cases c [] = inl refl
two_bytes-cases c (b1 ∷ r) = elim (Bool-cases (ltb c 0xc2)) [
  | inl low ↦ inl (rw low refl)
  | inr high ↦ elim (Bool-cases (is_continuation b1)) [
    | inl good ↦ inr (record {
      chunk = b1 ∷ [];
      rest = r;
      split = refl;
      size = rw (high, good) refl;
      any = λ more. refl;
    })
    | inr bad ↦ inl (rw (high, bad) refl)
  ]
]

three_bytes-cases : (c : ℕ) (r : List ℕ) → (three_bytes c r ≡ 0) ⊎ IsPiece (three_bytes c) r
unfolding three_bytes
three_bytes-cases c [] = inl refl
three_bytes-cases c (b1 ∷ []) = inl refl
three_bytes-cases c (b1 ∷ b2 ∷ r) =
    let cp = three_byte_cp c b1 b2 in
    elim (Bool-cases (not (is_continuation b1) || not (is_continuation b2))) [
      | inl bad ↦ inl (rw bad refl)
      | inr good ↦ elim (Bool-cases (ltb cp 0x800)) [
        | inl long ↦ inl (rw (good, long) refl)
        | inr short ↦ elim (Bool-cases (leb 0xd800 cp && leb cp 0xdfff)) [
          | inl half ↦ inl (rw (good, short, half) refl)
          | inr whole ↦ inr (record {
            chunk = b1 ∷ b2 ∷ [];
            rest = r;
            split = refl;
            size = rw (good, short, whole) refl;
            any = λ more. refl;
          })
        ]
      ]
    ]

four_bytes-cases : (c : ℕ) (r : List ℕ) → (four_bytes c r ≡ 0) ⊎ IsPiece (four_bytes c) r
unfolding four_bytes
four_bytes-cases c [] = inl refl
four_bytes-cases c (b1 ∷ []) = inl refl
four_bytes-cases c (b1 ∷ b2 ∷ []) = inl refl
four_bytes-cases c (b1 ∷ b2 ∷ b3 ∷ r) =
    let cp = four_byte_cp c b1 b2 b3 in
    elim (Bool-cases (ltb 0xf4 c)) [
      | inl big ↦ inl (rw big refl)
      | inr fits ↦
          elim (Bool-cases
            (not (is_continuation b1) || (not (is_continuation b2) || not (is_continuation b3)))) [
              | inl bad ↦ inl (rw (fits, bad) refl)
              | inr good ↦ elim (Bool-cases (ltb cp 0x10000)) [
                | inl long ↦ inl (rw (fits, good, long) refl)
                | inr short ↦ elim (Bool-cases (ltb 0x10ffff cp)) [
                  | inl above ↦ inl (rw (fits, good, short, above) refl)
                  | inr within ↦ inr (record {
                    chunk = b1 ∷ b2 ∷ b3 ∷ [];
                    rest = r;
                    split = refl;
                    size = rw (fits, good, short, within) refl;
                    any = λ more. refl;
                  })
                ]
              ]
            ]
    ]

-- A sequence at the start of the bytes.
pub record IsSequence (bytes : List ℕ) : Type 0 where
  pub chunk : List ℕ
  pub rest : List ℕ
  pub split : bytes ≡ chunk ++ rest
  pub size : seq_len bytes ≡ length chunk
  pub positive : 0 < length chunk
  pub any : (more : List ℕ) → seq_len (chunk ++ more) ≡ length chunk

-- A piece behind a first byte of its class.
from_piece :
    (c : ℕ) (r : List ℕ) (f : List ℕ → ℕ)
    → ((s : List ℕ) → seq_len (c ∷ s) ≡ f s)
    → (f r ≡ 0) ⊎ IsPiece f r
    → (seq_len (c ∷ r) ≡ 0) ⊎ IsSequence (c ∷ r)
from_piece c r f same (inl none) = inl (same r ∙ none)
from_piece c r f same (inr p) = inr (record {
  chunk = c ∷ p.chunk;
  rest = p.rest;
  split = ap (λ t. c ∷ t) p.split;
  size = same r ∙ p.size;
  positive = omega arith;
  any = λ more. same (p.chunk ++ more) ∙ p.any more ∙ p.size;
})

pub seq_len-cases : (s : List ℕ) → (seq_len s ≡ 0) ⊎ IsSequence s
unfolding seq_len
seq_len-cases [] = inl refl
seq_len-cases (c ∷ r) = elim (Bool-cases (ltb c 0x80)) [
  | inl ascii ↦ inr (record {
    chunk = c ∷ [];
    rest = r;
    split = refl;
    size = rw ascii refl;
    positive = omega arith;
    any = λ more. rw ascii refl;
  })
  | inr wide ↦ elim (Bool-cases (bit_and c 0xe0 == 0xc0)) [
    | inl two ↦ from_piece c r (two_bytes c) (λ s. rw (wide, two) refl) (two_bytes-cases c r)
    | inr more2 ↦ elim (Bool-cases (bit_and c 0xf0 == 0xe0)) [
      | inl three ↦
          from_piece c r (three_bytes c) (λ s. rw (wide, more2, three) refl) (three_bytes-cases c r)
      | inr more3 ↦ elim (Bool-cases (bit_and c 0xf8 == 0xf0)) [
        | inl four ↦
            from_piece c r (four_bytes c) (λ s. rw (wide, more2, more3, four) refl)
              (four_bytes-cases c r)
        | inr no_class ↦ inl (rw (wide, more2, more3, no_class) refl)
      ]
    ]
  ]
]
