-- ===== src/Zip/Commit/Rebuilt.antt =====
-- A rebuild by pakka_pk3_commit_impl of src/pk3file.c, opened again by pakka_pk3_open_impl.
use pakka.Prelude.{ℕ, ◌+◌, ◌-◌, ◌≤◌, ◌<◌, ◌≡◌, refl, sym, ap, ◌∙◌, arith, true, false}
use pakka.Prelude.{List, [], ◌∷◌, ◌++◌, length}
use pakka.Prelude.{All, if_intro, u16, u32, ◌^◌, ltb, not}
use mathlib.Core.Path.{subst}
use pakka.Status.{Result, ok}
use pakka.Stdio.{File, fseek, fwrite}
use pakka.Stdio.Writes.{front, length-front}
use pakka.Pak.{Entry, Pak, uint32_max}
use pakka.Commit.{drop_pending}
use pakka.Zip.Records.{build_eocd, pk3_cdr_size, pk3_eocd_size}
use pakka.Zip.Directory.{pakka_pk3_open_impl}
use pakka.Zip.Commit.{
  ZipHost, ZipLayout, save_zip_layout, finish_zip, cdrs_size, check_total, moved,
  pakka_pk3_commit_impl, publish_zip, rebuild_zip, write_directory, write_members,
}
use pakka.Zip.Commit.View.{IsZipReadable, zip_view, members_end, next_offset}
use pakka.Zip.Commit.Members.{
  contents-fwrite, placed_from, AllMembers, write_members_lem, MembersEnd,
}
use pakka.Commit.Errors.{contradicts}
use pakka.Zip.Commit.Opened.{HasDirectory, fresh, loaded_zip, open_lem, length-contents}
use pakka.Zip.Commit.Written.{
  write_directory_lem, rows_placed, headers_placed, view_kept, view_reopened,
}
use pakka.Zip.Built.{IsZipEntry, name_length_lem}
use pakka.Zip.Built.Rows.{cdrs_bytes, all_reopened, IsRow, HasHeader}

-- The directory takes as much room behind the payloads as before them.
cdrs_size-placed_from : (es : List Entry) (cur : ℕ) → cdrs_size (placed_from cur es) ≡ cdrs_size es
unfolding cdrs_size moved
cdrs_size-placed_from [] cur = refl
cdrs_size-placed_from (e ∷ es) cur = omega (arith, cdrs_size-placed_from es (next_offset cur e))

length-placed_from : (es : List Entry) (cur : ℕ) → length (placed_from cur es) ≡ length es
length-placed_from [] cur = refl
length-placed_from (e ∷ es) cur = omega (arith, length-placed_from es (next_offset cur e))

check_total_lem :
    (es : List Entry) (total : ℕ)
    → All IsRow es
    → total + cdrs_size es ≤ uint32_max
    → check_total total es ≡ ok tt
unfolding check_total cdrs_size
check_total_lem [] total h fits = refl
check_total_lem (e ∷ es) total h fits =
    let n = name_length_lem e h.0.0 in
    let small : ltb uint32_max (total + (pk3_cdr_size + length e.filename)) ≡ false =
      ground (arith, n) in
    rw small
      (check_total_lem es (total + (pk3_cdr_size + length e.filename)) h.1 (omega (arith, n, fits)))

-- Every call of the host succeeds.
pub record Succeeds (host : ZipHost) : Type 0 where
  pub mkstemp : host.mkstemp ≡ true
  pub fflush : host.fflush ≡ true
  pub fclose_tmp : host.fclose_tmp ≡ true
  pub fclose_orig : host.fclose_orig ≡ true
  pub rename : host.rename ≡ true
  pub reopen : host.reopen ≡ true

-- An archive whose rebuild can be published: its payloads can be read, and all fits.
pub record IsPublishable (host : ZipHost) (p : Pak) : Type 0 where
  pub dirty : p.dirty ≡ true
  pub rebuild : p.needs_rebuild ≡ true
  pub counted : p.num_entries ≡ length p.entries
  pub few : length p.entries < 0xffff
  pub entries : All IsZipEntry p.entries
  pub readable : All (IsZipReadable host.source_at p.file) p.entries
  pub fits : members_end 0 p.entries + cdrs_size p.entries + pk3_eocd_size ≤ uint32_max

-- The archive after the rebuild, and what is loaded from its file.
pub record Republished (host : ZipHost) (p p0 q : Pak) : Type 0 where
  pub settled : (q.dirty ≡ false) × (q.needs_rebuild ≡ false) × (q.live ≡ true)
  pub size : q.file_size ≡ length q.file.contents
  pub same : zip_view host.source_at q.file q.entries ≡ zip_view host.source_at p.file p.entries
  pub loaded : Pak
  pub opens : pakka_pk3_open_impl (fresh p0 q.file) ≡ ok loaded
  pub counted : loaded.num_entries ≡ length p.entries
  pub reloads :
      zip_view host.source_at loaded.file loaded.entries ≡ zip_view host.source_at p.file p.entries

publish_lem :
    (host : ZipHost) (old : ZipLayout) (q : Pak) (tmpfp : File)
    → Succeeds host
    → publish_zip host old q tmpfp ≡ (
      record q {
        entries = drop_pending q.entries;
        dirty = false;
        needs_rebuild = false;
        file = fseek 0 tmpfp;
        live = true;
        file_size = q.pk3_cdr_offset + u32 (cdrs_size q.entries) + pk3_eocd_size;
      },
      ok tt,
    )
unfolding publish_zip
publish_lem host old q tmpfp calm =
    rw (calm.fflush, calm.fclose_tmp, calm.fclose_orig, calm.rename, calm.reopen, publish_zip) refl

-- The members at their new places, and where the directory will start.
abbrev laid : Pak → List Entry → ℕ → Pak
laid p es cdr_offset = record p { entries = es; pk3_cdr_offset = cdr_offset }

rebuild_lem :
    (host : ZipHost) (p : Pak) (es : List Entry) (cdr_offset : ℕ) (copy : File)
    → host.mkstemp ≡ true
    → write_members host.source_at p.file 0 p.entries (record { contents = []; pos = 0 })
      ≡ (es, ok (cdr_offset, copy))
    → check_total (cdr_offset + pk3_eocd_size) es ≡ ok tt
    → rebuild_zip host p
      ≡ publish_zip host
          (save_zip_layout p)
          (laid p es cdr_offset)
          (write_directory cdr_offset es copy)
unfolding rebuild_zip finish_zip
rebuild_lem host p es cdr_offset copy made written totals =
    if_intro
      (λ t.
        t
        ≡ publish_zip host (save_zip_layout p) (laid p es cdr_offset)
            (write_directory cdr_offset es copy))
      (not host.mkstemp) (λ bad. contradicts host.mkstemp made bad)
      (λ _. rw written (rw (totals, finish_zip) refl))

module _ (host : ZipHost) (p p0 : Pak) (calm : Succeeds host) (h : IsPublishable host p) where
  abbrev es : List Entry
  es = p.entries

  abbrev cdr_offset : ℕ
  cdr_offset = members_end 0 es

  abbrev ps : List Entry
  ps = placed_from 0 es

  abbrev nothing : File
  nothing = record { contents = []; pos = 0 }

  written :
      MembersEnd host.source_at p.file es 0 nothing
        (write_members host.source_at p.file 0 es nothing)
  written =
      write_members_lem host.source_at p.file es 0 nothing h.entries h.readable refl (omega arith)
        (omega (arith, h.fits))

  abbrev f : File
  f = write_directory cdr_offset ps written.copy

  members : AllMembers host.source_at p.file written.copy cdr_offset 0 es
  members = written.members

  abbrev tail : List ℕ
  tail = cdrs_bytes ps ++ build_eocd cdr_offset (u32 (cdrs_size ps)) (u16 (length ps))

  one_write : f ≡ fwrite tail written.copy
  one_write = write_directory_lem cdr_offset ps written.copy

  low : cdr_offset < 2 ^ 32 - 1
  low = omega (arith, h.fits)

  placed_rows : All IsRow ps
  placed_rows =
      rows_placed host.source_at p.file written.copy cdr_offset tail es 0 h.entries members low

  directory : HasDirectory (fseek 0 f) cdr_offset ps
  unfolding fseek
  directory = record {
    payloads = front written.copy;
    contents =
        ap (λ (t : File). t.contents) one_write ∙ contents-fwrite tail written.copy written.at_end;
    place = length-front written.copy ∙ written.place;
    rows = placed_rows;
    headers =
        subst (λ t. All (HasHeader (fseek 0 t) cdr_offset) ps) (sym one_write)
          (headers_placed host.source_at p.file written.copy cdr_offset tail es 0 h.entries
            members);
    few = omega (arith, length-placed_from es 0, h.few);
    fits = omega (arith, cdrs_size-placed_from es 0, h.fits);
  }

  abbrev published : Pak
  published = record (laid p ps cdr_offset) {
    entries = drop_pending ps;
    dirty = false;
    needs_rebuild = false;
    file = fseek 0 f;
    live = true;
    file_size = cdr_offset + u32 (cdrs_size ps) + pk3_eocd_size;
  }

  totals : check_total (cdr_offset + pk3_eocd_size) ps ≡ ok tt
  totals =
      check_total_lem ps (cdr_offset + pk3_eocd_size) placed_rows
        (omega (arith, cdrs_size-placed_from es 0, h.fits))

  rebuilds : rebuild_zip host p ≡ (published, ok tt)
  rebuilds =
      rebuild_lem host p ps cdr_offset written.copy calm.mkstemp written.ends totals
      ∙ publish_lem host (save_zip_layout p) (laid p ps cdr_offset) f calm

  abbrev Committed : Pak × Result (Unit {0}) → Type 0
  Committed t = t ≡ (published, ok tt)

  commits : pakka_pk3_commit_impl host p ≡ (published, ok tt)
  unfolding pakka_pk3_commit_impl
  commits =
      let within : ltb 0xffff p.num_entries ≡ false = ground (arith, h.counted, h.few) in
      if_intro Committed (not p.dirty) (λ bad. contradicts p.dirty h.dirty bad)
        (λ _.
          if_intro Committed (ltb 0xffff p.num_entries) (λ bad. cc)
            (λ _. if_intro Committed p.needs_rebuild (λ _. rebuilds) (λ bad. cc)))

  -- Where every call of the host succeeds, the commit of a dirty handle with fewer than 65535 entries
  -- that needs a rebuild succeeds, if every entry is one that the loader takes, its payload can be
  -- read and all fit into 32 bits. The handle is clean, its cached size is that of the file, and the
  -- archive, as its list of names, methods, checksums, sizes and stored bytes, is what it was: in the
  -- handle, and in what is loaded when the new file is opened, which counts as many entries.
  pub pakka_pk3_commit_impl-republishes :
      (q : Pak) × (pakka_pk3_commit_impl host p ≡ (q, ok tt)) × Republished host p p0 q
  unfolding fseek
  pakka_pk3_commit_impl-republishes = (
    published,
    commits,
    record {
      settled = (refl, refl, refl);
      size = sym (length-contents p0 (fseek 0 f) cdr_offset ps directory);
      same =
          subst
            (λ t.
              zip_view host.source_at (fseek 0 t) (drop_pending ps)
              ≡ zip_view host.source_at p.file es)
            (sym one_write)
            (view_kept host.source_at p.file written.copy cdr_offset tail es 0 h.entries members
              low);
      loaded = loaded_zip p0 (fseek 0 f) cdr_offset ps;
      opens = open_lem p0 (fseek 0 f) cdr_offset ps directory;
      counted = length-placed_from es 0;
      reloads =
          subst
            (λ t.
              zip_view host.source_at (fseek 0 t) (all_reopened ps)
              ≡ zip_view host.source_at p.file es)
            (sym one_write)
            (view_reopened host.source_at p.file written.copy cdr_offset tail es 0 members);
    },
  )
