-- ===== src/Disk/RoundTrip/Directory.antt =====
-- The rows of a whole directory: the loops of write_pak_directory and load_directory.
use pakka.Prelude.{ℕ, suc, ◌+◌, ◌*◌, ◌≤◌, ◌<◌, ◌≡◌, ap, ◌∙◌, arith, true}
use pakka.Prelude.{List, [], ◌∷◌, ◌++◌, append-nil, append_assoc, length, All, ◌⊎◌, inl, inr, some}
use pakka.Prelude.{length-append, ◌^◌, u32}
use pakka.Status.{ok}
use pakka.Format.{Format, is_wad, Geometry, geometry}
use pakka.Stdio.{File, fwrite}
use pakka.Stdio.Reads.{At}
use pakka.Stdio.Writes.{fwrite-append}
use mathlib.Core.Path.{subst}
use pakka.Pak.{Entry, header_size, on_disk_extent}
use pakka.Disk.Save.{write_entries}
use pakka.Disk.Rows.{in_range, raise_end, read_entries}
use pakka.Disk.RoundTrip.Rows.{
  row_bytes, IsStorable, write_pak_entry-row_bytes, read_entry-next, length-row_bytes,
}

abbrev pub dir_bytes : Format → Geometry → List Entry → List ℕ
dir_bytes fmt g [] = []
dir_bytes fmt g (e ∷ es) = row_bytes fmt g e ++ dir_bytes fmt g es

-- The bytes of an entry lie between the header and `end`; an empty lump of a WAD may lie anywhere
-- before `end`.
abbrev pub IsPlaced : Format → ℕ → Entry → Type 0
IsPlaced fmt end e =
    ((header_size ≤ e.offset) ⊎ ((is_wad fmt ≡ true) × (e.size ≡ 0)))
    × (e.offset + on_disk_extent e ≤ end)

write_entries-loop :
    (fmt : Format) (g : Geometry) (es : List Entry) (rows : List ℕ) (f : File) (dirlength : ℕ)
    → dirlength + length es * g.dir_entry_size < 2 ^ 32
    → write_entries fmt g es (fwrite rows f, dirlength)
      ≡ (fwrite (rows ++ dir_bytes fmt g es) f, dirlength + length es * g.dir_entry_size)
unfolding write_entries
write_entries-loop fmt g [] rows f dirlength fits =
    rw append-nil (ap (λ (n : ℕ). (fwrite rows f, n)) (omega arith))
write_entries-loop fmt g (e ∷ es) rows f dirlength fits =
    let small : u32 (dirlength + g.dir_entry_size) ≡ dirlength + g.dir_entry_size = omega arith in
    let total : dirlength + g.dir_entry_size + length es * g.dir_entry_size
        ≡ dirlength + suc (length es) * g.dir_entry_size =
      omega arith in
    rw (write_pak_entry-row_bytes, fwrite-append, small)
      (rw
        (write_entries-loop fmt g es (rows ++ row_bytes fmt g e) f (dirlength + g.dir_entry_size)
          (omega arith))
        (simp append_assoc (rw total)))

-- A directory is written as the rows of its entries.
pub write_entries-dir_bytes :
    (fmt : Format) (g : Geometry) (e : Entry) (es : List Entry) (f : File)
    → length (e ∷ es) * g.dir_entry_size < 2 ^ 32
    → write_entries fmt g (e ∷ es) (f, 0)
      ≡ (fwrite (dir_bytes fmt g (e ∷ es)) f, length (e ∷ es) * g.dir_entry_size)
unfolding write_entries
write_entries-dir_bytes fmt g e es f fits =
    let small : u32 (0 + g.dir_entry_size) ≡ g.dir_entry_size = omega arith in
    let total : g.dir_entry_size + length es * g.dir_entry_size
        ≡ suc (length es) * g.dir_entry_size =
      omega arith in
    rw (write_pak_entry-row_bytes, small)
      (rw (write_entries-loop fmt g es (row_bytes fmt g e) f g.dir_entry_size (omega arith))
        (rw total))

in_range-IsPlaced :
    (fmt : Format) (end file_size : ℕ) (e : Entry)
    → IsPlaced fmt end e
    → end ≤ file_size
    → in_range fmt file_size e ≡ true
unfolding in_range
in_range-IsPlaced fmt end file_size e (inl above, fits) h = ground arith
in_range-IsPlaced fmt end file_size e (inr lump, fits) h = ground arith

-- The payload end that the loader finds.
abbrev pub ends : List Entry → ℕ → ℕ
ends [] end = end
ends (e ∷ es) end = ends es (raise_end e end)

pub read_entries-dir_bytes :
    (fmt : Format) (g : Geometry) (end file_size : ℕ) (es seen : List Entry) (from : ℕ) (f : File)
    (more : List ℕ)
    → At f (dir_bytes fmt g es ++ more)
    → All (IsStorable g) es
    → All (IsPlaced fmt end) es
    → end ≤ file_size
    → read_entries fmt g file_size (length es) seen from f ≡ ok (seen ++ es, ends es from)
unfolding read_entries
read_entries-dir_bytes fmt g end file_size [] seen from f more h st pl le = rw append-nil
read_entries-dir_bytes fmt g end file_size (e ∷ es) seen from f more h st pl le =
    let here : At f (row_bytes fmt g e ++ (dir_bytes fmt g es ++ more)) =
      subst (At f) (append_assoc (row_bytes fmt g e) (dir_bytes fmt g es) more) h in
    let (f', e', h') = read_entry-next fmt g e f (dir_bytes fmt g es ++ more) here st.0 in
    rw (e', read_entries)
      (rw (in_range-IsPlaced fmt end file_size e pl.0 le) (
        read_entries-dir_bytes fmt g end file_size es (seen ++ e ∷ []) (raise_end e from) f' more h'
          st.1 pl.1 le
        ∙ rw append_assoc))

-- The payload end found is the least that covers the header and every entry.
pub ends_bounds :
    (fmt : Format) (end : ℕ) (es : List Entry) (from : ℕ)
    → All (IsPlaced fmt end) es
    → from ≤ end
    → (from ≤ ends es from) × (ends es from ≤ end)
unfolding raise_end
ends_bounds fmt end [] from pl le = omega arith
ends_bounds fmt end (e ∷ es) from pl le =
    ground (arith, ends_bounds fmt end es (raise_end e from) pl.1, pl.0.1)

pub length-dir_bytes :
    (fmt : Format) (g : Geometry) (es : List Entry)
    → geometry fmt ≡ some g
    → length (dir_bytes fmt g es) ≡ length es * g.dir_entry_size
length-dir_bytes fmt g [] h = omega arith
length-dir_bytes fmt g (e ∷ es) h = omega (
  arith,
  length-append (row_bytes fmt g e) (dir_bytes fmt g es),
  length-row_bytes fmt g e h,
  length-dir_bytes fmt g es h,
)
