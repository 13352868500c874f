-- ===== src/Lifecycle/Created.antt =====
-- What pakka_create of src/pakfile.c makes, and what pakka_close publishes of it.
use pakka.Prelude.{
  ℕ, ◌+◌, ◌≡◌, refl, sym, ap, ◌∙◌, arith, Bool, true, false, not, inl, inr, Option, none, some,
  List, [], length, leb, ◌==◌, append-nil, drop, length-drop, if◌then◌else◌, if-cases, if_intro,
  ◌&&◌, length-append,
}
use mathlib.Core.Path.{subst}
use pakka.Status.{
  Status, Result, ok, err, err_io, err_limit, err_exists, err_invalid_argument, ◌>>=◌, refuse_if,
  bind-ok, ok-injective,
}
use pakka.Format.{
  Format, auto, pak, pk3, pk4, sin, daikatana, iwad, pwad, is_zip, Geometry, geometry, same_format,
  pack_magic,
}
use pakka.Stdio.{File, fseek, fwrite}
use pakka.Stdio.Reads.{At, fread-At-rest}
use pakka.Stdio.Writes.{fwrite-At}
use pakka.Stdio.Fronts.{some-injective}
use pakka.Pak.{Pak, header_size}
use pakka.Disk.Save.{init_pak_header, write_pak_header}
use pakka.Disk.Rows.{load_directory}
use pakka.Disk.Load.{load_pakfile}
use pakka.Disk.RoundTrip.{opened, load-dir_bytes, loaded}
use pakka.Disk.RoundTrip.Header.{header_bytes, length-header_bytes, write_pak_header-header_bytes}
use pakka.Archive.Sound.{IsSound}
use pakka.Open.{new_handle, is_writable}
use pakka.Commit.{pakka_commit}
use pakka.Lifecycle.{
  created_handle, pakka_create, Closing, Closed, pakka_close, close_after, publish_new,
}

-- The format that a handle is created with.
abbrev pub created_format : Format → Format
created_format format = if same_format format auto then pak else format

created_geometry :
    (format : Format)
    → is_zip format ≡ false
    → (g : Geometry) × (geometry (created_format format) ≡ some g)
unfolding same_format geometry is_zip
created_geometry auto h = (_, refl)
created_geometry pak h = (_, refl)
created_geometry pk3 h = cc
created_geometry pk4 h = cc
created_geometry sin h = (_, refl)
created_geometry daikatana h = (_, refl)
created_geometry iwad h = (_, refl)
created_geometry pwad h = (_, refl)

-- A handle without entries whose file is a header that says so.
pub record IsFresh (fmt : Format) (p : Pak) : Type 0 where
  pub format : p.format ≡ fmt
  pub sound : IsSound p
  pub none_yet : p.entries ≡ []
  pub is_clean : (p.dirty ≡ false) × (p.is_new ≡ true) × (p.live ≡ true) × (p.writable ≡ true)
  pub twelve : length p.file.contents ≡ header_size
  pub opens :
      (pk3_open_impl : Pak → Result Pak) (p0 : Pak)
      → (r : Pak) × ((load_pakfile pk3_open_impl (opened p0 fmt (fseek 0 p.file))
            >>= load_directory)
          ≡ ok r)
        × (r.format ≡ fmt)
        × (r.entries ≡ [])

init-signature :
    (p : Pak) (g : Geometry)
    → geometry p.format ≡ some g
    → (init_pak_header p).signature ≡ g.signature
unfolding init_pak_header
init-signature p g known = ap (λ t. elim t [ none ↦ pack_magic | some g ↦ g.signature ]) known

module _ (format fmt : Format) (g : Geometry) (known : geometry fmt ≡ some g) where
  start : Pak
  start = init_pak_header (record (created_handle format) { format = fmt })

  header : List ℕ
  header = header_bytes fmt g 0 header_size

  empty_file : File
  empty_file = record { contents = []; pos = 0 }

  new_file : File
  unfolding header empty_file
  new_file = fwrite header empty_file

  fresh : Pak
  unfolding start
  fresh = record start { file = new_file }

  start-fresh : write_pak_header start ≡ fresh
  unfolding start fresh init_pak_header created_handle new_handle new_file
  start-fresh =
      write_pak_header-header_bytes start g 0 known
        (init-signature (record (created_handle format) { format = fmt }) g known) (omega arith)

  length-header : length header ≡ header_size
  unfolding header
  length-header = length-header_bytes fmt g 0 header_size known

  length-new_file : length new_file.contents ≡ header_size
  unfolding new_file empty_file fwrite
  length-new_file = omega (
    arith,
    length-header,
    length-append header (drop (0 + length header) []),
    length-drop {A = ℕ} (0 + length header) [],
  )

  header-At : At (fseek 0 new_file) header
  unfolding new_file empty_file fseek
  header-At = fwrite-At header empty_file

  fresh-IsFresh : IsFresh fmt fresh
  unfolding start fresh init_pak_header created_handle new_handle is_writable header fseek
  fresh-IsFresh = record {
    format = refl;
    sound = record { counted = refl; distinct = λ _. tt; held = tt };
    none_yet = refl;
    is_clean = (refl, refl, refl, refl);
    twelve = length-new_file;
    opens = λ pk3_open_impl p0.
        let rows =
          fread-At-rest (fseek 0 new_file) header [] header_size
            (subst (At (fseek 0 new_file)) (sym (append-nil header)) header-At)
            (sym length-header) in
        (
          loaded (opened p0 fmt (fseek 0 new_file)) g [] header_size,
          load-dir_bytes pk3_open_impl p0 fmt g header_size header_size (fseek 0 new_file) known
              (omega arith) [] header-At rows (omega arith) (omega arith)
              (omega (arith, length-new_file)) tt tt,
          refl,
          refl,
        );
  }

-- pakka_create of a format that is no ZIP, where it succeeds: the handle is of that format, or of the
-- Quake format for PAKKA_FORMAT_AUTO, it is new and sound and has no entries, and its file is a
-- header of 12 bytes that, opened again, loads as an archive without entries.
pub pakka_create-IsFresh :
    (os_path_max : ℕ) (exists mkstemp : Bool) (pk3_create_impl : Pak → Result Pak) (path : List ℕ)
    (format : Format) (flags : ℕ) (p : Pak)
    → is_zip format ≡ false
    → pakka_create os_path_max exists mkstemp pk3_create_impl path format flags ≡ ok p
    → IsFresh (created_format format) p
unfolding pakka_create start
pakka_create-IsFresh os_path_max exists mkstemp pk3_create_impl path format flags p no_zip h =
    let (g, known) = created_geometry format no_zip in
    let (_, _, h1) =
      bind-ok {A = Unit {0}} (refuse_if (not (flags == 0)) err_invalid_argument) _ _ h in
    let (_, _, h2) =
      bind-ok {A = Unit {0}} (refuse_if (leb os_path_max (length path)) err_limit) _ _ h1 in
    let (_, _, h3) = bind-ok {A = Unit {0}} (refuse_if exists err_exists) _ _ h2 in
    let (_, _, h4) = bind-ok {A = Unit {0}} (refuse_if (not mkstemp) err_io) _ _ h3 in
    elim (if-cases (is_zip format) _ _ h4) [
      | inl (zip, _) ↦ let bad = sym zip ∙ no_zip in cc
      | inr (_, done) ↦
          subst (IsFresh (created_format format))
            (sym (start-fresh format (created_format format) g known) ∙ ok-injective done)
            (fresh-IsFresh format (created_format format) g known)
    ]

-- What a close says of the file that it has published.
Publishes : Closing → Pak × Result (Unit {0}) → Closed → Type 0
Publishes host r c =
    (f : File)
    → c.published ≡ some f
    → (c.status ≡ ok tt)
      × (host.rename_noreplace ≡ none)
      × (q : Pak) × (r ≡ (q, ok tt))
      × (q.is_new ≡ true)
      × (q.live ≡ true → host.fclose ≡ true)
      × (q.file ≡ f)

renamed :
    (host : Closing) (q : Pak) (u : Unit {0}) (rename : Option Status)
    → host.rename_noreplace ≡ rename
    → q.is_new ≡ true
    → (q.live ≡ true → host.fclose ≡ true)
    → Publishes host
        (q, ok u)
        (elim rename [
          | none ↦ record { status = ok tt; published = some q.file }
          | some e ↦ record { status = err e; published = none }
        ])
unfolding Publishes
renamed host q u none free new closes f h = (refl, free, q, refl, new, closes, some-injective h)
renamed host q u (some e) taken new closes f h = cc

closes_lem : (live closed : Bool) → (live && not closed) ≡ false → live ≡ true → closed ≡ true
closes_lem live closed h l = ground arith

close_after-Publishes :
    (host : Closing) (r : Pak × Result (Unit {0})) → Publishes host r (close_after host r)
unfolding close_after publish_new Publishes
close_after-Publishes host (q, err e) = λ f h. cc
close_after-Publishes host (q, ok u) =
    if_intro (Publishes host (q, ok u)) q.is_new
      (λ new.
        if_intro (Publishes host (q, ok u)) (q.live && not host.fclose) (λ _ f h. cc)
          (λ closed.
            renamed host q u host.rename_noreplace refl new (closes_lem q.live host.fclose closed)))
      (λ _ f h. cc)

-- pakka_close puts a file at the new path only of a new handle and when nothing has gone wrong: the
-- close succeeds, the commit, if there was something to commit, has succeeded, the file, if it was
-- still open, could be closed, it could be renamed to a path that did not exist, and it is that of
-- the handle after the commit.
pub pakka_close-published :
    (pk3_commit_impl : Pak → Pak × Result (Unit {0})) (host : Closing) (p : Pak) (f : File)
    → (pakka_close pk3_commit_impl host p).published ≡ some f
    → ((pakka_close pk3_commit_impl host p).status ≡ ok tt)
      × (host.rename_noreplace ≡ none)
      × (q : Pak) × ((if p.dirty then pakka_commit pk3_commit_impl host.commit p else (p, ok tt))
          ≡ (q, ok tt))
      × (q.is_new ≡ true)
      × (q.live ≡ true → host.fclose ≡ true)
      × (q.file ≡ f)
unfolding pakka_close Publishes
pakka_close-published pk3_commit_impl host p =
    close_after-Publishes host
      (if p.dirty then pakka_commit pk3_commit_impl host.commit p else (p, ok tt))
