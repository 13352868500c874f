-- ===== src/Reader/Serves.antt =====
-- A reader of src/pakfile.c delivers its payload in pieces.
use pakka.Prelude.{
  ℕ, zero, suc, ◌+◌, ◌-◌, ◌≤◌, ◌≡◌, refl, sym, ap, ◌∙◌, arith, true, false, ◌||◌, inl, inr,
}
use pakka.Prelude.{◌⊎◌, List, [], ◌∷◌, ◌++◌, append-nil, Option, none, some, length}
use pakka.Prelude.{length-append, length-take, length-drop, take, drop, take-append-drop}
use pakka.Prelude.{take-append_le, take_all, drop_all, Bool-cases, ◌==◌, leb, ltb, if◌then◌else◌}
use mathlib.Core.Path.{subst}
use pakka.Status.{ok}
use pakka.Format.{is_zip}
use pakka.Stdio.{File, fseek}
use pakka.Stdio.Reads.{At, At-drop, fread-At-rest}
use pakka.Pak.{Pak}
use pakka.Reader.{
  Reader, Chunk, read_inflated, read_stored, read_by_buffer, pakka_reader_read, read_loop,
}

-- Where the bytes to come are: in the buffer, or in the file.
abbrev pub Comes : File → Reader → Option (List ℕ) → List ℕ → Type 0
Comes f reader none rest = At (fseek reader.next_offset f) rest
Comes f reader (some buf) rest = buf ≡ rest

-- A reader with `rest` left to deliver.
pub record Serves (f : File) (reader : Reader) (rest : List ℕ) : Type 0 where
  pub left : reader.remaining ≡ length rest
  pub comes : rest ≡ [] ⊎ Comes f reader reader.inflated rest

-- What a read of `len` bytes gives, and leaves.
pub record Delivers (f : File) (rest : List ℕ) (len : ℕ) (c : Chunk) : Type 0 where
  pub bytes : c.bytes ≡ take len rest
  pub status : c.status ≡ ok tt
  pub then_serves : Serves f c.reader (drop len rest)

take_min :
    (len : ℕ) (rest : List ℕ)
    → take (if ltb len (length rest) then len else length rest) rest ≡ take len rest
take_min len rest = elim (Bool-cases (ltb len (length rest))) [
  | inl short ↦ rw short refl
  | inr long ↦
      rw long (take_all (length rest) rest (omega arith) ∙ sym (take_all len rest (ground arith)))
]

stored_bytes :
    (f : File) (offset : ℕ) (rest : List ℕ) (len : ℕ)
    → At (fseek offset f) rest
    → take (if ltb len (length rest) then len else length rest) (drop offset f.contents)
      ≡ take len rest
unfolding fseek
stored_bytes f offset rest len h =
    let n = if ltb len (length rest) then len else length rest in
    rw (At-drop (fseek offset f) rest h)
      (take-append_le n rest h.behind (ground arith) ∙ take_min len rest)

length-take_min :
    (len : ℕ) (rest : List ℕ)
    → (length (take len rest) == (if ltb len (length rest) then len else length rest)) ≡ true
length-take_min len rest = ground (arith, length-take len rest)

stored-Delivers :
    (f : File) (reader : Reader) (rest : List ℕ) (len : ℕ)
    → reader.remaining ≡ length rest
    → At (fseek reader.next_offset f) rest
    → reader.inflated ≡ none
    → Delivers f rest len (read_stored f reader len)
unfolding read_stored fseek
stored-Delivers f reader rest len left h plain =
    let got = stored_bytes f reader.next_offset rest len h in
    let at =
      fread-At-rest (fseek reader.next_offset f) (take len rest) (drop len rest)
        (length (take len rest))
        (subst (At (fseek reader.next_offset f)) (sym (take-append-drop len rest)) h) refl in
    rw left (
      rw got (record {
        bytes = refl;
        status = rw (length-take_min len rest) refl;
        then_serves = record {
          left = omega (arith, length-take len rest, length-drop len rest);
          comes = inr (
              subst
                (λ b.
                  Comes f
                    (record reader {
                      next_offset = reader.next_offset + length (take len rest);
                      remaining = 0;
                    })
                    b (drop len rest))
                (sym plain) at);
        };
      }))

inflated-Delivers :
    (f : File) (reader : Reader) (rest : List ℕ) (len : ℕ)
    → reader.remaining ≡ length rest
    → 1 ≤ length (take len rest)
    → Delivers f rest len (read_inflated reader rest len)
unfolding read_inflated
inflated-Delivers f reader rest len left some_left =
    let test : (length (take len rest) == 0) ≡ false = ground arith in
    rw test (record {
      bytes = refl;
      status = refl;
      then_serves = record {
        left = omega (arith, left, length-take len rest, length-drop len rest);
        comes = inr refl;
      };
    })

by_buffer-Delivers :
    (f : File) (reader : Reader) (rest : List ℕ) (len : ℕ) (inflated : Option (List ℕ))
    → reader.inflated ≡ inflated
    → reader.remaining ≡ length rest
    → 1 ≤ length (take len rest)
    → Comes f reader inflated rest
    → Delivers f rest len (read_by_buffer f reader inflated len)
unfolding read_by_buffer
by_buffer-Delivers f reader rest len none same left some_left h =
    stored-Delivers f reader rest len left h same
by_buffer-Delivers f reader rest len (some buf) same left some_left h =
    subst (λ b. Delivers f rest len (read_inflated reader b len)) (sym h)
      (inflated-Delivers f reader rest len left some_left)

module _ (pk3_reader_read_impl : Pak → Reader → ℕ → Chunk) (p : Pak) (live : p.live ≡ true)
    (no_zip : is_zip p.format ≡ false) where
  idle-Delivers :
      (reader : Reader) (rest : List ℕ) (len : ℕ)
      → (reader.remaining == 0 || len == 0) ≡ true
      → (take len rest ≡ []) × (drop len rest ≡ rest)
      → Serves p.file reader rest
      → Delivers p.file rest len (pakka_reader_read pk3_reader_read_impl p reader len)
  unfolding pakka_reader_read
  idle-Delivers reader rest len test (nothing, all) h =
      rw (live, test, pakka_reader_read)
        (record {
          bytes = sym nothing;
          status = refl;
          then_serves = subst (Serves p.file reader) (sym all) h;
        })

  -- A reader delivers the next bytes, as many as are asked for or as are left, without an error, and
  -- goes on with those behind them.
  pub pakka_reader_read-Delivers :
      (reader : Reader) (rest : List ℕ) (len : ℕ)
      → Serves p.file reader rest
      → Delivers p.file rest len (pakka_reader_read pk3_reader_read_impl p reader len)
  unfolding pakka_reader_read
  pakka_reader_read-Delivers reader [] len h =
      let test : (reader.remaining == 0 || len == 0) ≡ true = ground (arith, h.left) in
      idle-Delivers reader [] len test
        (take_all len [] (omega arith), drop_all len [] (omega arith)) h
  pakka_reader_read-Delivers reader (c ∷ cs) zero h =
      let test : (reader.remaining == 0 || zero == 0) ≡ true = ground (arith, h.left) in
      idle-Delivers reader (c ∷ cs) zero test (refl, refl) h
  pakka_reader_read-Delivers reader (c ∷ cs) (suc n) h =
      let test : (reader.remaining == 0 || suc n == 0) ≡ false = ground (arith, h.left) in
      rw (live, test, no_zip, pakka_reader_read)
        (by_buffer-Delivers p.file reader (c ∷ cs) (suc n) reader.inflated refl h.left (omega arith)
          (elim h.comes [ inl none_left ↦ cc | inr comes ↦ comes ]))

  read_loop-full :
      (fuel : ℕ) (reader : Reader) (total : ℕ) (buf : List ℕ)
      → total ≤ length buf
      → read_loop pk3_reader_read_impl fuel p reader total buf ≡ ok buf
  unfolding read_loop
  read_loop-full zero reader total buf h = refl
  read_loop-full (suc fuel) reader total buf h =
      let full : leb total (length buf) ≡ true = ground arith in rw (full, read_loop) refl

  -- The loop reads all that is left.
  pub read_loop_lem :
      (fuel : ℕ) (reader : Reader) (rest buf : List ℕ) (total : ℕ)
      → Serves p.file reader rest
      → total ≡ length buf + length rest
      → length rest ≤ fuel
      → read_loop pk3_reader_read_impl fuel p reader total buf ≡ ok (buf ++ rest)
  unfolding read_loop
  read_loop_lem fuel reader [] buf total h n le =
      read_loop-full fuel reader total buf (omega (arith, n)) ∙ ap ok (sym (append-nil buf))
  read_loop_lem zero reader (c ∷ cs) buf total h n le = absurd (omega arith)
  read_loop_lem (suc fuel) reader (c ∷ cs) buf total h n le =
      let rest = c ∷ cs in
      let open_end : leb total (length buf) ≡ false = ground (arith, n) in
      let want = total - length buf in
      let d = pakka_reader_read-Delivers reader rest want h in
      let all : take want rest ≡ rest = take_all want rest (omega (arith, n)) in
      let bytes = d.bytes ∙ all in
      let some_read : (length rest == 0) ≡ false = ground arith in
      rw (open_end, read_loop)
        (rw d.status (
          rw bytes (
            rw some_read (
              read_loop-full fuel (pakka_reader_read pk3_reader_read_impl p reader want).reader
                total (buf ++ rest) (omega (arith, n, length-append buf rest))))))
