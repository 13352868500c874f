-- ===== src/Commit/Rebuilt.antt =====
-- What pakka_commit_rebuild of src/pakfile.c leaves: the same members in a fresh file.
use pakka.Prelude.{ℕ, suc, ◌+◌, ◌^◌, ◌≤◌, ◌<◌, ◌≡◌, refl, sym, ap, ◌∙◌, arith, true, false}
use pakka.Prelude.{◌||◌, inl, none, some, List, [], ◌∷◌, length, All}
use mathlib.Core.Path.{subst}
use pakka.Status.{Result, ok, ◌>>=◌, ok-injective}
use pakka.Format.{Format, Geometry}
use pakka.Stdio.{File, fseek}
use pakka.Stdio.Reads.{At}
use pakka.Stdio.Fronts.{At-read_at, Before, Before-bounds, read_at, read_at-contents}
use pakka.Pak.{Entry, Pak, header_size, on_disk_extent}
use pakka.Disk.Save.{write_pak_directory}
use pakka.Disk.Kept.{write_pak_directory-Keeps}
use pakka.Disk.Rows.{load_directory}
use pakka.Disk.Load.{load_pakfile}
use pakka.Disk.RoundTrip.{opened, save-load}
use pakka.Disk.RoundTrip.Rows.{IsStorable}
use pakka.Disk.RoundTrip.Directory.{IsPlaced}
use pakka.Disk.RoundTrip.Saved.{IsSavable, save-keeps, save_lem}
use pakka.Archive.AddFile.{Source}
use pakka.Commit.{
  install_layout, install_offsets, drop_pending, publish_rebuild, finish_rebuild, scratch,
  pakka_commit_rebuild, copy_entries, pakka_commit,
}
use pakka.Commit.Copy.{Host}
use pakka.Commit.Dedup.{owners}
use pakka.Commit.View.{view, payload_of}
use pakka.Commit.Owners.{owners-AllOwned}
use pakka.Commit.Loop.{total, AllCopied, LoopEnd, copy_entries_lem}
use pakka.Commit.Bare.{bare_all, length-bare_all, with_entries, write_pak_directory-bare}
use pakka.Commit.Committed.{
  IsNameable, IsCommittable, IsCommitted, IsDirty, IsDirty-commit, not_in_place,
}

length-install_offsets :
    (source_at : List ℕ → Source) (ffd tfd : File) (es : List Entry) (os : List ℕ)
    → AllCopied source_at ffd tfd es os
    → length (install_offsets os es) ≡ length es
unfolding install_offsets
length-install_offsets source_at ffd tfd [] [] h = refl
length-install_offsets source_at ffd tfd [] (o ∷ os) h = absurd (omega (arith, h))
length-install_offsets source_at ffd tfd (e ∷ es) [] h = absurd (omega (arith, h))
length-install_offsets source_at ffd tfd (e ∷ es) (o ∷ os) h =
    ap suc (length-install_offsets source_at ffd tfd es os h.1)

module _ (source_at : List ℕ → Source) where
  drop_pending-committed :
      (es : List Entry) → All (λ (e : Entry). e.pending ≡ none) (drop_pending es)
  unfolding drop_pending
  drop_pending-committed [] = tt
  drop_pending-committed (e ∷ es) = (refl, drop_pending-committed es)

  view-bare_all :
      (f : File) (es : List Entry)
      → view source_at f (bare_all es) ≡ view source_at f (drop_pending es)
  unfolding drop_pending payload_of on_disk_extent
  view-bare_all f [] = refl
  view-bare_all f (e ∷ es) = rw (view-bare_all f es) refl

  -- The view of entries in the file depends on its bytes.
  view-contents :
      (f g : File) (es : List Entry)
      → f.contents ≡ g.contents
      → view source_at f (drop_pending es) ≡ view source_at g (drop_pending es)
  unfolding drop_pending payload_of
  view-contents f g [] h = refl
  view-contents f g (e ∷ es) h =
      rw (view-contents f g es h)
        (rw (read_at-contents e.offset (on_disk_extent (record e { pending = none })) f g h) refl)

  module _ (ffd tfd : File) where
    -- The entries with their new offsets show what they showed, in a file that has what was copied.
    view-copied :
        (f : File) (es : List Entry) (os : List ℕ)
        → AllCopied source_at ffd tfd es os
        → (1 ≤ length es
            → (offset : ℕ) (bytes : List ℕ) → header_size ≤ offset
            → Before tfd offset bytes
            → At (fseek offset f) bytes)
        → view source_at f (drop_pending (install_offsets os es)) ≡ view source_at ffd es
    unfolding drop_pending install_offsets payload_of on_disk_extent
    view-copied f [] [] h keeps = refl
    view-copied f [] (o ∷ os) h keeps = absurd (omega (arith, h))
    view-copied f (e ∷ es) [] h keeps = absurd (omega (arith, h))
    view-copied f (e ∷ es) (o ∷ os) h keeps =
        let c = h.0 in
        let at = keeps (omega arith) o c.bytes c.behind_header c.place in
        let got : read_at o (on_disk_extent e) f ≡ some c.bytes =
          At-read_at o (on_disk_extent e) f c.bytes at c.extent in
        let rest = view-copied f es os h.1 (λ _. keeps (omega arith)) in
        rw rest (
          ap
            (λ b.
              record {
                name = e.filename;
                size = e.size;
                is_packed = e.dk_is_compressed;
                stored = b;
              }
              ∷ view source_at ffd es)
            (got ∙ sym c.there))

    storable :
        (fmt : Format) (g : Geometry) (es : List Entry) (os : List ℕ)
        → All (IsNameable g) es
        → AllCopied source_at ffd tfd es os
        → tfd.pos < 2 ^ 32
        → All (IsStorable g) (bare_all (install_offsets os es))
          × All (IsPlaced fmt tfd.pos) (bare_all (install_offsets os es))
    unfolding install_offsets on_disk_extent
    storable fmt g [] [] n h small = (tt, tt)
    storable fmt g [] (o ∷ os) n h small = absurd (omega (arith, h))
    storable fmt g (e ∷ es) [] n h small = absurd (omega (arith, h))
    storable fmt g (e ∷ es) (o ∷ os) n h small =
        let c = h.0 in
        let m = n.0 in
        let inside : o + length c.bytes ≤ tfd.pos = Before-bounds tfd o c.bytes c.place in
        let (s, l) = storable fmt g es os n.1 h.1 small in
        (
          (
            record {
              name_fits = m.name_fits;
              no_nul = m.no_nul;
              offset_u32 = omega (arith, inside);
              size_u32 = m.size_u32;
              compressed_u32 = m.compressed_u32;
              stored = m.stored;
              no_zip = (m.no_zip.0, m.no_zip.1, m.no_zip.2, m.no_zip.3, refl);
              committed = refl;
            },
            s,
          ),
          ((inl c.behind_header, omega (arith, inside, c.extent)), l),
        )

-- The handle that the copy loop and the directory make, and its bare entries.
module _ (host : Host) (g : Geometry) (p : Pak) (c : IsCommittable host g p) where
  loop_end :
      LoopEnd host.source_at p.file p.entries scratch
        (total p.entries)
        (copy_entries host.source_at p.file (owners p.entries) 0 p.entries [] scratch)
  unfolding scratch fseek
  loop_end =
      copy_entries_lem host.source_at p.file (owners p.entries) p.entries [] p.entries [] 0 scratch
        refl refl tt c.readable (owners-AllOwned p.entries) (omega arith) (omega (arith, c.fits))

  laid_out : List Entry
  laid_out = install_offsets loop_end.new_offsets p.entries

  copied : Pak
  unfolding laid_out
  copied = record p {
    entries = bare_all laid_out;
    payload_end = loop_end.copy.pos;
    file = loop_end.copy;
  }

  length-laid_out : length (bare_all laid_out) ≡ length p.entries
  unfolding laid_out
  length-laid_out =
      length-bare_all laid_out
      ∙ length-install_offsets host.source_at p.file loop_end.copy p.entries loop_end.new_offsets
          loop_end.copied

  copied-IsSavable : IsSavable g copied
  unfolding copied scratch fseek
  copied-IsSavable =
      let n = length-laid_out in
      let high = loop_end.bounded in
      let (s, l) =
        storable host.source_at p.file loop_end.copy p.format g p.entries loop_end.new_offsets
          c.nameable loop_end.copied (omega (arith, c.fits, high)) in
      record {
        pak_class = c.pak_class;
        magic = c.magic;
        counted = c.counted ∙ sym n;
        few = omega (arith, n, c.few);
        behind_header = omega (arith, loop_end.grows);
        fits = rw n (omega (arith, c.fits, high));
        storable = s;
        placed = l;
      }

  -- The handle after the commit, from the one that the directory was written with.
  published : Pak → Pak
  published q = record q {
    entries = drop_pending laid_out;
    file = fseek 0 q.file;
    dirty = false;
    needs_rebuild = false;
  }

  rebuild-published :
      (q : Pak)
      → write_pak_directory copied ≡ ok q
      → pakka_commit_rebuild host p ≡ (published q, ok tt)
  unfolding pakka_commit_rebuild finish_rebuild publish_rebuild install_layout published copied
      laid_out
  rebuild-published q did =
      let (m, f, n, o) = c.works in
      let wrote : write_pak_directory
            (record p { entries = laid_out; payload_end = loop_end.copy.pos; file = loop_end.copy })
          ≡ ok (record q { entries = laid_out }) =
        write_pak_directory-bare
          (record p { entries = laid_out; payload_end = loop_end.copy.pos; file = loop_end.copy })
        ∙ ap (with_entries laid_out) did in
      rw (m, pakka_commit_rebuild)
        (rw loop_end.ends (rw (wrote, finish_rebuild) (rw (f, n, o, publish_rebuild) refl)))

  published-view :
      (q : Pak)
      → write_pak_directory copied ≡ ok q
      → view host.source_at (fseek 0 q.file) (drop_pending laid_out)
        ≡ view host.source_at p.file p.entries
  unfolding copied laid_out fseek
  published-view q did =
      view-copied host.source_at p.file loop_end.copy (fseek 0 q.file) p.entries
        loop_end.new_offsets loop_end.copied
        (λ some_left offset bytes low.
          save-keeps g copied q copied-IsSavable (omega (arith, some_left, length-laid_out)) did
            offset bytes (inl low))

-- The rebuild of such a handle.
pub pakka_commit_rebuild-IsCommitted :
    (host : Host) (g : Geometry) (p : Pak)
    → IsCommittable host g p
    → (q : Pak) × (pakka_commit_rebuild host p ≡ (q, ok tt)) × IsCommitted host p q
unfolding published copied fseek
pakka_commit_rebuild-IsCommitted host g p c =
    let (q0, did0, _) = save_lem g (copied host g p c) (copied-IsSavable host g p c) in
    let q = published host g p c q0 in
    (
      q,
      rebuild-published host g p c q0 did0,
      record {
        clean = (refl, refl);
        same_format =
            ap (λ (t : Pak). t.format) (write_pak_directory-Keeps (copied host g p c) q0 did0);
        committed = drop_pending-committed host.source_at (laid_out host g p c);
        same_view = published-view host g p c q0 did0;
        reopens = λ pk3_open_impl p0.
            let (q1, did1, r, loads, fmt, same, count, end, bytes) =
              save-load pk3_open_impl (copied host g p c) p0 g (copied-IsSavable host g p c) in
            let same_q : q1 ≡ q0 = ok-injective (sym did1 ∙ did0) in
            let laid = laid_out host g p c in
            let there : r.file.contents ≡ (fseek 0 q0.file).contents =
              bytes ∙ ap (λ (t : Pak). t.file.contents) same_q in
            (
              r,
              subst
                  (λ (t : Pak).
                    (load_pakfile pk3_open_impl (opened p0 p.format (fseek 0 t.file))
                      >>= load_directory)
                    ≡ ok r)
                  same_q loads,
              fmt,
              ap (λ t. view host.source_at r.file t) same
                  ∙ view-bare_all host.source_at r.file laid
                  ∙ view-contents host.source_at r.file (fseek 0 q0.file) laid there
                  ∙ published-view host g p c q0 did0,
            );
      },
    )

-- pakka_commit of a handle that needs a rebuild, by a delete or by the atomic mode: it succeeds where
-- every payload can be read and all of them fit with the directory into 32 bits, and the archive
-- holds what it held: in the same order the same names, sizes, flags and stored bytes, all of them in
-- the file now. The new file, opened again, is loaded without an error and shows the same.
pub pakka_commit-rebuilds :
    (pk3_commit_impl : Pak → Pak × Result (Unit {0})) (host : Host) (g : Geometry) (p : Pak)
    → IsCommittable host g p
    → IsDirty p
    → (p.needs_rebuild || p.atomic_commit) ≡ true
    → (q : Pak) × (pakka_commit pk3_commit_impl host p ≡ (q, ok tt)) × IsCommitted host p q
pakka_commit-rebuilds pk3_commit_impl host g p c d rebuilds =
    let (q, done, result) = pakka_commit_rebuild-IsCommitted host g p c in
    let way = not_in_place p.needs_rebuild p.atomic_commit rebuilds in
    (q, IsDirty-commit pk3_commit_impl host p false d way ∙ done, result)
