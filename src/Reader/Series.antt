-- ===== src/Reader/Series.antt =====
-- A series of reads of an entry, src/pakfile.c.
use pakka.Prelude.{ℕ, ◌+◌, ◌≤◌, ◌≡◌, refl, sym, ◌∙◌, true, false}
use pakka.Prelude.{List, [], ◌∷◌, ◌++◌, length, take, drop, take_all, take_add}
use pakka.Format.{is_zip}
use pakka.Pak.{Pak}
use pakka.Reader.{Reader, Chunk, pakka_reader_read}
use pakka.Reader.Serves.{Serves, pakka_reader_read-Delivers}

-- The bytes that reads of the given lengths deliver one after the other.
unfoldable pub read_series : (Pak → Reader → ℕ → Chunk) → Pak → Reader → List ℕ → List ℕ
read_series pk3_reader_read_impl p reader [] = []
read_series pk3_reader_read_impl p reader (len ∷ lens) =
    let chunk = pakka_reader_read pk3_reader_read_impl p reader len in
    chunk.bytes ++ read_series pk3_reader_read_impl p chunk.reader lens

abbrev pub sum : List ℕ → ℕ
sum [] = 0
sum (n ∷ ns) = n + sum ns

-- However the lengths are cut, reads from a reader with `rest` left deliver the front of `rest` that
-- is as long as the lengths together, and all of it once they add up to its length.
pub read_series-take :
    (pk3_reader_read_impl : Pak → Reader → ℕ → Chunk) (p : Pak) (reader : Reader)
    (rest lens : List ℕ)
    → p.live ≡ true
    → is_zip p.format ≡ false
    → Serves p.file reader rest
    → (read_series pk3_reader_read_impl p reader lens ≡ take (sum lens) rest)
      × (length rest ≤ sum lens → read_series pk3_reader_read_impl p reader lens ≡ rest)
unfolding read_series
read_series-take impl p reader rest lens live no_zip h =
    (go reader rest lens h, λ le. go reader rest lens h ∙ take_all (sum lens) rest le)
  where
    go :
        (reader : Reader) (rest lens : List ℕ)
        → Serves p.file reader rest
        → read_series impl p reader lens ≡ take (sum lens) rest
    go reader rest [] h = refl
    go reader rest (len ∷ lens) h =
        let d = pakka_reader_read-Delivers impl p live no_zip reader rest len h in
        let next = (pakka_reader_read impl p reader len).reader in
        rw (d.bytes) (
          rw (go next (drop len rest) lens d.then_serves)
            (sym (take_add len (sum lens) (len + sum lens) rest refl)))
