-- ===== src/Stdio/Fronts.antt =====
-- What stands before the position of a file that is written from front to back, and the bytes of a
-- file at an offset.
use pakka.Prelude.{ℕ, ◌+◌, ◌≤◌, ◌≡◌, refl, sym, ap, arith, inl, inr}
use pakka.Prelude.{Option, none, some, List, [], ◌++◌, append-nil, append_assoc, length}
use pakka.Prelude.{
  length-append, length-take, length-drop, take, take-append_ge, drop, replicate, ◌-◌,
  take-append-drop, Bool-cases,
}
use pakka.Prelude.{leb}
use mathlib.Core.Path.{subst}
use pakka.Stdio.{File, fseek, fread, fwrite}
use pakka.Stdio.Reads.{At, fread-At-eq}
use pakka.Stdio.Writes.{front, length-front, front-fwrite, fwrite-split}

pub some-injective {ℓ} : {A : Type ℓ} {a b : A} → some a ≡ some b → a ≡ b
some-injective e = cc

-- The bytes at an offset of the file, where it has that many.
unfoldable pub read_at : ℕ → ℕ → File → Option (List ℕ)
read_at offset n f = elim (fread n (fseek offset f)) [ none ↦ none | some (bytes, _) ↦ some bytes ]

pub At-read_at :
    (offset n : ℕ) (f : File) (bytes : List ℕ)
    → At (fseek offset f) bytes
    → n ≡ length bytes
    → read_at offset n f ≡ some bytes
unfolding read_at
At-read_at offset n f bytes h e =
    let at = subst (At (fseek offset f)) (sym (append-nil bytes)) h in
    rw (fread-At-eq (fseek offset f) bytes [] n at e, read_at) refl

-- What was read stands there.
pub read_at-At :
    (offset n : ℕ) (f : File) (bytes : List ℕ)
    → read_at offset n f ≡ some bytes
    → At (fseek offset f) bytes × (n ≡ length bytes)
unfolding read_at fread fseek
read_at-At offset n f bytes h = elim (Bool-cases (leb (offset + n) (length f.contents))) [
  | inr short ↦ let bad = rw (short, read_at, fread) at h in cc
  | inl long ↦
      let fits : offset + n ≤ length f.contents = ground arith in
      let cut : take n (drop offset f.contents) ≡ bytes =
        let h' = rw (long, read_at, fread) at h in some-injective h' in
      subst (λ b. At (fseek offset f) b × (n ≡ length b)) cut
        (
          record {
            before = take offset f.contents;
            behind = drop n (drop offset f.contents);
            split = sym (
                rw (take-append-drop n (drop offset f.contents))
                  (take-append-drop offset f.contents));
            place = omega (arith, length-take offset f.contents);
          },
          omega (arith, length-take n (drop offset f.contents), length-drop offset f.contents),
        )
]

-- `bytes` stand at an offset before the position.
pub record Before (f : File) (offset : ℕ) (bytes : List ℕ) : Type 0 where
  pub ahead : List ℕ
  pub behind : List ℕ
  pub split : front f ≡ ahead ++ (bytes ++ behind)
  pub place : length ahead ≡ offset

-- A write at the position keeps what stands before it, and adds what it writes.
pub Before-fwrite :
    (f : File) (offset : ℕ) (bytes more : List ℕ)
    → Before f offset bytes
    → Before (fwrite more f) offset bytes
Before-fwrite f offset bytes more h = record {
  ahead = h.ahead;
  behind = h.behind ++ more;
  split = rw (front-fwrite more f, h.split) (simp append_assoc);
  place = h.place;
}

pub fwrite-Before : (f : File) (bytes : List ℕ) → Before (fwrite bytes f) f.pos bytes
fwrite-Before f bytes = record {
  ahead = front f;
  behind = [];
  split = rw (front-fwrite bytes f, append-nil) refl;
  place = length-front f;
}

pub Before-empty : (f : File) → Before f f.pos []
Before-empty f = record {
  ahead = front f;
  behind = [];
  split = sym (append-nil (front f));
  place = length-front f;
}

-- What stands before the position is still in the file after a write at the position.
pub Before-At :
    (f : File) (offset : ℕ) (bytes more : List ℕ)
    → Before f offset bytes
    → At (fseek offset (fwrite more f)) bytes
unfolding fseek
Before-At f offset bytes more h = record {
  before = h.ahead;
  behind = h.behind ++ (more ++ drop (f.pos + length more) f.contents);
  split = rw (fwrite-split more f, h.split) (simp append_assoc);
  place = h.place;
}

-- The other way round: what stands in the file, and ends before the position.
pub At-Before :
    (f : File) (offset : ℕ) (bytes : List ℕ)
    → At (fseek offset f) bytes
    → offset + length bytes ≤ f.pos
    → Before f offset bytes
unfolding fseek
At-Before f offset bytes h le = record {
  ahead = h.before;
  behind =
      take (f.pos - length h.before - length bytes) h.behind
      ++ replicate (f.pos - length f.contents) 0;
  split =
      let first : take f.pos f.contents
          ≡ h.before ++ (bytes ++ take (f.pos - length h.before - length bytes) h.behind) =
        rw h.split (
          rw
            (take-append_ge f.pos (f.pos - length h.before) h.before (bytes ++ h.behind)
              (omega (arith, h.place)))
            (rw (
              take-append_ge (f.pos - length h.before) (f.pos - length h.before - length bytes)
                bytes h.behind (omega (arith, h.place))))) in
      rw first (simp append_assoc);
  place = h.place;
}

pub Before-bounds :
    (f : File) (offset : ℕ) (bytes : List ℕ) → Before f offset bytes → offset + length bytes ≤ f.pos
Before-bounds f offset bytes h = omega (
  arith,
  length-front f,
  ap (λ t. length t) h.split,
  length-append h.ahead (bytes ++ h.behind),
  length-append bytes h.behind,
  h.place,
)

-- Where a file stands does not matter to what is read at an offset.
pub read_at-contents :
    (offset n : ℕ) (f g : File) → f.contents ≡ g.contents → read_at offset n f ≡ read_at offset n g
unfolding read_at fseek
read_at-contents offset n f g h =
    ap (λ t. read_at offset n (record { contents = t; pos = offset })) h

pub At-nothing : (offset : ℕ) (f : File) → offset ≤ length f.contents → At (fseek offset f) []
unfolding fseek
At-nothing offset f h = record {
  before = take offset f.contents;
  behind = drop offset f.contents;
  split = sym (take-append-drop offset f.contents);
  place = omega (arith, length-take offset f.contents);
}
