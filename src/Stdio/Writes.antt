-- ===== src/Stdio/Writes.antt =====
-- Writing at the position.
use pakka.Prelude.{ℕ, ◌+◌, ◌-◌, ◌≤◌, ◌≡◌, refl, sym, ap, ◌∙◌, arith, List, ◌++◌, append_assoc}
use pakka.Prelude.{length, length-append, length-take, length-replicate, take, drop, replicate}
use pakka.Prelude.{take-append, drop-append, drop-drop, drop-append_le, length-drop, append-nil}
use pakka.Stdio.{File, fseek, fwrite}
use pakka.Stdio.Reads.{At}

-- What stands before the position, filled up to it.
abbrev pub front : File → List ℕ
front f = take f.pos f.contents ++ replicate (f.pos - length f.contents) 0

pub length-front : (f : File) → length (front f) ≡ f.pos
length-front f = omega (
  arith,
  length-append (take f.pos f.contents) (replicate (f.pos - length f.contents) 0),
  length-take f.pos f.contents,
  length-replicate {A = ℕ} (f.pos - length f.contents) 0,
)

pub fwrite-split :
    (bytes : List ℕ) (f : File)
    → (fwrite bytes f).contents ≡ front f ++ (bytes ++ drop (f.pos + length bytes) f.contents)
unfolding fwrite
fwrite-split bytes f = simp append_assoc

File-eq : (f g : File) → f.contents ≡ g.contents → f.pos ≡ g.pos → f ≡ g
File-eq f g p q = λ i. record { contents = p i; pos = q i }

pub pos-fwrite : (bytes : List ℕ) (f : File) → (fwrite bytes f).pos ≡ f.pos + length bytes
unfolding fwrite
pos-fwrite bytes f = refl

pub front-fwrite : (a : List ℕ) (f : File) → front (fwrite a f) ≡ front f ++ a
front-fwrite a f =
    let none_missing : length (front f ++ a) - length ((front f ++ a) ++ behind) ≡ 0 =
      omega (arith, length-append (front f ++ a) behind) in
    rw (split, place, none_missing, take-append) (append-nil (front f ++ a))
  where
    behind : List ℕ
    behind = drop (f.pos + length a) f.contents

    split : (fwrite a f).contents ≡ (front f ++ a) ++ behind
    split = fwrite-split a f ∙ sym (append_assoc (front f) a behind)

    place : (fwrite a f).pos ≡ length (front f ++ a)
    place = omega (arith, pos-fwrite a f, length-append (front f) a, length-front f)

-- Two writes in a row are one write.
pub fwrite-append : (a b : List ℕ) (f : File) → fwrite b (fwrite a f) ≡ fwrite (a ++ b) f
fwrite-append a b f = File-eq _ _ same (
    omega
      (arith, pos-fwrite b (fwrite a f), pos-fwrite a f, pos-fwrite (a ++ b) f, length-append a b))
  where
    behind : List ℕ
    behind = drop (f.pos + length a) f.contents

    split : (fwrite a f).contents ≡ (front f ++ a) ++ behind
    split = fwrite-split a f ∙ sym (append_assoc (front f) a behind)

    place : (fwrite a f).pos ≡ length (front f ++ a)
    place = omega (arith, pos-fwrite a f, length-append (front f) a, length-front f)

    rest :
        drop ((fwrite a f).pos + length b) (fwrite a f).contents
        ≡ drop (f.pos + length (a ++ b)) f.contents
    rest =
        sym (drop-drop (fwrite a f).pos (length b) _ (fwrite a f).contents refl)
        ∙ rw (split, place, drop-append)
            (drop-drop (f.pos + length a) (length b) (f.pos + length (a ++ b)) f.contents
              (omega (arith, length-append a b)))

    same : (fwrite b (fwrite a f)).contents ≡ (fwrite (a ++ b) f).contents
    same =
        fwrite-split b (fwrite a f)
        ∙ rw (front-fwrite a f, rest)
            (append_assoc (front f) a (b ++ drop (f.pos + length (a ++ b)) f.contents)
              ∙ ap (λ t. front f ++ t)
                  (sym (append_assoc a b (drop (f.pos + length (a ++ b)) f.contents))))
        ∙ sym (fwrite-split (a ++ b) f)

-- What was written can be read.
pub fwrite-At : (bytes : List ℕ) (f : File) → At (fseek f.pos (fwrite bytes f)) bytes
unfolding fseek
fwrite-At bytes f = record {
  before = front f;
  behind = drop (f.pos + length bytes) f.contents;
  split = fwrite-split bytes f;
  place = length-front f;
}

-- A write at the start leaves what stands behind it.
pub fwrite-keeps-At :
    (header bytes : List ℕ) (f : File) (at : ℕ)
    → At (fseek at f) bytes
    → length header ≤ at
    → At (fseek at (fwrite header (fseek 0 f))) bytes
unfolding fseek
fwrite-keeps-At header bytes f at h le = record {
  before = header ++ drop (length header) h.before;
  behind = h.behind;
  split =
      let gap : 0 - length f.contents ≡ 0 = omega arith in
      let zero_add : 0 + length header ≡ length header = omega arith in
      let cut : drop (length header) f.contents
          ≡ drop (length header) h.before ++ (bytes ++ h.behind) =
        rw h.split
          (drop-append_le (length header) h.before (bytes ++ h.behind) (omega (arith, h.place))) in
      fwrite-split header (fseek 0 f)
      ∙ rw (gap, zero_add, cut)
          (sym (append_assoc header (drop (length header) h.before) (bytes ++ h.behind)));
  place = omega (
    arith,
    length-append header (drop (length header) h.before),
    length-drop (length header) h.before,
    h.place,
  );
}
