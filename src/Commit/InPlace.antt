-- ===== src/Commit/InPlace.antt =====
-- What the add-only path of pakka_commit of src/pakfile.c leaves: the directory behind the payloads.
use pakka.Prelude.{ℕ, ◌+◌, ◌≤◌, ◌≡◌, refl, sym, ap, ◌∙◌, arith, true, false, inl, inr, ◌⊎◌}
use pakka.Prelude.{not, ◌&&◌, none, List, [], ◌∷◌, length, All, u64}
use mathlib.Core.Path.{subst}
use pakka.Status.{Result, ok, ◌>>=◌, ok-injective}
use pakka.Format.{Geometry}
use pakka.Format.Widths.{wad_unpacked}
use pakka.Stdio.{File, fseek}
use pakka.Stdio.Fronts.{At-read_at, At-Before, Before, read_at, read_at-At, read_at-contents}
use pakka.Pak.{Entry, Pak, header_size, on_disk_extent}
use pakka.Disk.Kept.{write_pak_directory-Keeps}
use pakka.Disk.Save.{write_pak_directory}
use pakka.Disk.Rows.{load_directory}
use pakka.Disk.Load.{load_pakfile}
use pakka.Disk.RoundTrip.{opened, save-load}
use pakka.Disk.RoundTrip.Rows.{IsStorable}
use pakka.Disk.RoundTrip.Directory.{IsPlaced}
use pakka.Disk.RoundTrip.Saved.{IsSavable, save-keeps, save_lem}
use pakka.Archive.AddFile.{Source}
use pakka.Commit.{commit_in_place, pakka_commit}
use pakka.Commit.Committed.{IsCommitted, IsDirty, IsDirty-commit}
use pakka.Commit.Copy.{Host}
use pakka.Commit.View.{view, payload_of, IsReadable}

module _ (source_at : List ℕ → Source) where
  committed-payload :
      (f : File) (e : Entry)
      → e.pending ≡ none
      → payload_of source_at f e e.pending ≡ read_at e.offset (on_disk_extent e) f
  unfolding payload_of
  committed-payload f e c = ap (λ t. payload_of source_at f e t) c

  -- Two files that have the same bytes for each entry show the same.
  view-same :
      (f g : File) (es : List Entry)
      → All (λ (e : Entry). e.pending ≡ none) es
      → All
          (λ (e : Entry).
            read_at e.offset (on_disk_extent e) f ≡ read_at e.offset (on_disk_extent e) g)
          es
      → view source_at f es ≡ view source_at g es
  view-same f g [] c h = refl
  view-same f g (e ∷ es) c h =
      let same = committed-payload f e c.0 ∙ h.0 ∙ sym (committed-payload g e c.0) in
      rw (view-same f g es c.1 h.1, same) refl

reads-same :
    (f g : File) (es : List Entry)
    → f.contents ≡ g.contents
    → All
        (λ (e : Entry).
          read_at e.offset (on_disk_extent e) f ≡ read_at e.offset (on_disk_extent e) g)
        es
reads-same f g [] h = tt
reads-same f g (e ∷ es) h =
    (read_at-contents e.offset (on_disk_extent e) f g h, reads-same f g es h)

-- A handle with all its payloads in the file before the payload end.
pub record IsSettled (host : Host) (g : Geometry) (p : Pak) : Type 0 where
  pub savable : IsSavable g p
  pub readable : All (IsReadable host.source_at p.file) p.entries
  pub flushes : host.fflush ≡ true

module _ (host : Host) (g : Geometry) (p q : Pak) (s : IsSettled host g p)
    (did : write_pak_directory p ≡ ok q) where
  -- An entry without bytes may lie anywhere before the payload end, any other behind the header.
  low_or_empty :
      (e : Entry) (bytes : List ℕ)
      → IsStorable g e
      → IsPlaced p.format p.payload_end e
      → on_disk_extent e ≡ length bytes
      → (header_size ≤ e.offset) ⊎ (bytes ≡ [])
  unfolding on_disk_extent
  low_or_empty e bytes st (inl low, fits) n = inl low
  low_or_empty e [] st (inr (wad, none_left), fits) n = inr refl
  low_or_empty e (b ∷ bs) st (inr (wad, none_left), fits) n =
      let stored = (st.stored (wad_unpacked p.format g s.savable.pak_class wad)).1 in
      absurd (ground arith)

  payload-kept :
      (e : Entry)
      → 1 ≤ length p.entries
      → IsStorable g e
      → IsPlaced p.format p.payload_end e
      → IsReadable host.source_at p.file e
      → read_at e.offset (on_disk_extent e) q.file ≡ read_at e.offset (on_disk_extent e) p.file
  unfolding fseek
  payload-kept e some_left st placed r =
      let there = sym (committed-payload host.source_at p.file e st.committed) ∙ r.there in
      let (at, n) = read_at-At e.offset (on_disk_extent e) p.file r.bytes there in
      let before : Before (fseek p.payload_end p.file) e.offset r.bytes =
        At-Before (fseek p.payload_end p.file) e.offset r.bytes at (omega (arith, placed.1, n)) in
      let kept =
        save-keeps g p q s.savable some_left did e.offset r.bytes
          (low_or_empty e r.bytes st placed n) before in
      At-read_at e.offset (on_disk_extent e) q.file r.bytes kept n ∙ sym there

  payloads-kept :
      (es : List Entry)
      → length es ≤ length p.entries
      → All (IsStorable g) es
      → All (IsPlaced p.format p.payload_end) es
      → All (IsReadable host.source_at p.file) es
      → All (λ (e : Entry). e.pending ≡ none) es
        × All
            (λ (e : Entry).
              read_at e.offset (on_disk_extent e) q.file
              ≡ read_at e.offset (on_disk_extent e) p.file)
            es
  payloads-kept [] le st pl r = (tt, tt)
  payloads-kept (e ∷ es) le st pl r =
      let (c, k) = payloads-kept es (omega arith) st.1 pl.1 r.1 in
      ((st.0.committed, c), (payload-kept e (omega arith) st.0 pl.0 r.0, k))

settled-IsCommitted :
    (host : Host) (g : Geometry) (p : Pak)
    → IsSettled host g p
    → p.needs_rebuild ≡ false
    → (q : Pak) × (commit_in_place host p ≡ (q, ok tt))
      × (q.file_size ≡ u64 (q.diroffset + q.dirlength))
      × (q.entries ≡ p.entries)
      × IsCommitted host p q
unfolding commit_in_place
settled-IsCommitted host g p s clean =
    let (q0, did0, _) = save_lem g p s.savable in
    let kept = write_pak_directory-Keeps p q0 did0 in
    let (c, k) =
      payloads-kept host g p q0 s did0 p.entries (omega arith) s.savable.storable s.savable.placed
        s.readable in
    let same : q0.entries ≡ p.entries = ap (λ (t : Pak). t.entries) kept in
    let shows = view-same host.source_at q0.file p.file p.entries c k in
    (
      record q0 { file_size = u64 (q0.diroffset + q0.dirlength); dirty = false },
      rw (did0, commit_in_place) (rw s.flushes refl),
      refl,
      same,
      record {
        clean = (refl, ap (λ (t : Pak). t.needs_rebuild) kept ∙ clean);
        same_format = ap (λ (t : Pak). t.format) kept;
        committed = subst (All (λ (e : Entry). e.pending ≡ none)) (sym same) c;
        same_view = ap (λ t. view host.source_at q0.file t) same ∙ shows;
        reopens = λ pk3_open_impl p0.
            let (q1, did1, r, loads, fmt, entries, count, end, bytes) =
              save-load pk3_open_impl p p0 g s.savable in
            let same_q : q1 ≡ q0 = ok-injective (sym did1 ∙ did0) in
            (
              r,
              subst
                  (λ (t : Pak).
                    (load_pakfile pk3_open_impl (opened p0 p.format (fseek 0 t.file))
                      >>= load_directory)
                    ≡ ok r)
                  same_q loads,
              fmt,
              ap (λ t. view host.source_at r.file t) entries
                  ∙ view-same host.source_at r.file q0.file p.entries c (
                      reads-same r.file q0.file p.entries
                        (bytes ∙ ap (λ (t : Pak). t.file.contents) same_q))
                  ∙ shows,
            );
      },
    )

-- pakka_commit of a handle that has only added: it succeeds where every payload is in the file before
-- the payload end and the flush works, no payload moves, and the archive, opened again, is loaded
-- without an error and shows the same members in the same order.
pub pakka_commit-settles :
    (pk3_commit_impl : Pak → Pak × Result (Unit {0})) (host : Host) (g : Geometry) (p : Pak)
    → IsSettled host g p
    → IsDirty p
    → p.needs_rebuild ≡ false
    → p.atomic_commit ≡ false
    → (q : Pak) × (pakka_commit pk3_commit_impl host p ≡ (q, ok tt))
      × (q.file_size ≡ u64 (q.diroffset + q.dirlength))
      × (q.entries ≡ p.entries)
      × IsCommitted host p q
pakka_commit-settles pk3_commit_impl host g p s d clean plain =
    let (q, done, size, same, result) = settled-IsCommitted host g p s clean in
    let way : (not p.needs_rebuild && not p.atomic_commit) ≡ true = rw (clean, plain) refl in
    (q, IsDirty-commit pk3_commit_impl host p true d way ∙ done, size, same, result)
