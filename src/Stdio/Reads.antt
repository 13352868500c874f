-- ===== src/Stdio/Reads.antt =====
-- Reading what stands at the position.
use pakka.Prelude.{ℕ, ◌+◌, ◌≤◌, ◌≡◌, arith, some, List, ◌++◌, append_assoc}
use pakka.Prelude.{length, length-append, take, drop, take-append, drop-append}
use pakka.Stdio.{File, fread}

-- `bytes` stand at the position.
pub record At (f : File) (bytes : List ℕ) : Type 0 where
  pub before : List ℕ
  pub behind : List ℕ
  pub split : f.contents ≡ before ++ (bytes ++ behind)
  pub place : length before ≡ f.pos

module _ (f : File) (bytes more : List ℕ) (n : ℕ) (h : At f (bytes ++ more))
    (e : n ≡ length bytes) where
  from_here : drop f.pos f.contents ≡ bytes ++ (more ++ h.behind)
  from_here =
      rw (← h.place, h.split, append_assoc) (drop-append h.before (bytes ++ (more ++ h.behind)))

  within : f.pos + n ≤ length f.contents
  within = rw h.split (
      omega (
        arith,
        h.place,
        length-append h.before ((bytes ++ more) ++ h.behind),
        length-append (bytes ++ more) h.behind,
        length-append bytes more,
      ))

  pub fread-At-eq : fread n f ≡ some (bytes, record f { pos = f.pos + n })
  unfolding fread
  fread-At-eq =
      let front : take n (drop f.pos f.contents) ≡ bytes =
        rw (from_here, e) (take-append bytes (more ++ h.behind)) in
      rw (front) (ground (arith, within))

  pub fread-At-rest : At (record f { pos = f.pos + n }) more
  fread-At-rest = record {
    before = h.before ++ bytes;
    behind = h.behind;
    split = rw h.split (simp append_assoc);
    place = omega (arith, length-append h.before bytes, h.place);
  }

-- The next `n` bytes are read, and the position moves to what follows.
pub fread-next :
    (f : File) (bytes more : List ℕ) (n : ℕ)
    → At f (bytes ++ more)
    → n ≡ length bytes
    → (f' : File) × (fread n f ≡ some (bytes, f')) × At f' more
fread-next f bytes more n h e =
    (record f { pos = f.pos + n }, fread-At-eq f bytes more n h e, fread-At-rest f bytes more n h e)

pub At-drop :
    (f : File) (bytes : List ℕ) (h : At f bytes) → drop f.pos f.contents ≡ bytes ++ h.behind
At-drop f bytes h = rw (← h.place, h.split) (drop-append h.before (bytes ++ h.behind))

-- What stands at the position lies within the file.
pub At-within : (f : File) (bytes : List ℕ) → At f bytes → f.pos + length bytes ≤ length f.contents
At-within f bytes h = rw h.split (
    omega
      (arith, h.place, length-append h.before (bytes ++ h.behind), length-append bytes h.behind))
