-- ===== src/Commit/Committed.antt =====
-- What a commit needs and what it gives: pakka_commit of src/pakfile.c.
use pakka.Prelude.{◌+◌, ◌*◌, ◌^◌, ◌≤◌, ◌<◌, ◌≡◌, refl, true, false}
use pakka.Archive.{not_editable}
use pakka.Prelude.{Bool, not, ◌&&◌, ◌||◌, if◌then◌else◌, IsU32, none, some, length, All}
use pakka.Status.{Result, ok, err, err_invalid_argument, ◌>>=◌}
use pakka.Format.{Geometry, geometry, is_zip}
use pakka.Stdio.{fseek}
use pakka.Pak.{Entry, Pak, header_size, max_entries}
use pakka.Disk.Rows.{load_directory}
use pakka.Disk.Load.{load_pakfile}
use pakka.Disk.RoundTrip.{opened}
use pakka.Commit.{pakka_commit_rebuild, pakka_commit, commit_in_place}
use pakka.Commit.Copy.{Host}
use pakka.Commit.View.{view, IsReadable}
use pakka.Commit.Loop.{total}

-- An entry that has a row in the directory, wherever its payload is.
pub record IsNameable (g : Geometry) (e : Entry) : Type 0 where
  pub name_fits : length e.filename ≤ g.name_field_len
  pub no_nul : All (λ c. 0 < c) e.filename
  pub size_u32 : IsU32 e.size
  pub compressed_u32 : IsU32 e.dk_compressed_size
  pub stored : g.has_compression ≡ false → (e.dk_compressed_size ≡ 0) × (e.dk_is_compressed ≡ false)
  pub no_zip :
      (e.pk3_compressed_size ≡ 0)
      × (e.pk3_payload_offset ≡ 0)
      × (e.pk3_lfh_offset ≡ 0)
      × (e.pk3_method ≡ 0)

-- A handle whose payloads can all be read, and fit with the directory into 32 bits; the host does
-- what it is asked.
pub record IsCommittable (host : Host) (g : Geometry) (p : Pak) : Type 0 where
  pub pak_class : geometry p.format ≡ some g
  pub magic : p.signature ≡ g.signature
  pub counted : p.num_entries ≡ length p.entries
  pub few : length p.entries ≤ max_entries
  pub fits : header_size + total p.entries + length p.entries * g.dir_entry_size < 2 ^ 32
  pub nameable : All (IsNameable g) p.entries
  pub readable : All (IsReadable host.source_at p.file) p.entries
  pub works :
      (host.mkstemp ≡ true) × (host.fclose ≡ true) × (host.rename ≡ true) × (host.reopen ≡ true)

-- A committed handle, and the archive opened again, hold what the handle held.
pub record IsCommitted (host : Host) (p q : Pak) : Type 0 where
  pub clean : (q.dirty ≡ false) × (q.needs_rebuild ≡ false)
  pub same_format : q.format ≡ p.format
  pub committed : All (λ (e : Entry). e.pending ≡ none) q.entries
  pub same_view : view host.source_at q.file q.entries ≡ view host.source_at p.file p.entries
  pub reopens :
      (pk3_open_impl : Pak → Result Pak) (p0 : Pak)
      → (r : Pak) × ((load_pakfile pk3_open_impl (opened p0 p.format (fseek 0 q.file))
            >>= load_directory)
          ≡ ok r)
        × (r.format ≡ p.format)
        × (view host.source_at r.file r.entries ≡ view host.source_at p.file p.entries)

pub not_in_place : (a b : Bool) → (a || b) ≡ true → (not a && not b) ≡ false
not_in_place true b h = refl
not_in_place false true h = refl
not_in_place false false h = cc

-- A handle that pakka_commit does not refuse, and that has something to commit.
pub record IsDirty (p : Pak) : Type 0 where
  pub dirty : p.dirty ≡ true
  pub editable : not_editable p ≡ false
  pub no_zip : is_zip p.format ≡ false

-- The way of such a handle through pakka_commit.
pub IsDirty-commit :
    (pk3_commit_impl : Pak → Pak × Result (Unit {0})) (host : Host) (p : Pak) (in_place : Bool)
    → IsDirty p
    → (not p.needs_rebuild && not p.atomic_commit) ≡ in_place
    → pakka_commit pk3_commit_impl host p
      ≡ (if in_place then commit_in_place host p else pakka_commit_rebuild host p)
unfolding pakka_commit
IsDirty-commit pk3_commit_impl host p in_place d way =
    go p.dirty (not_editable p) (is_zip p.format) (not p.needs_rebuild && not p.atomic_commit)
      d.dirty d.editable d.no_zip way
  where
    go :
        (dirty refused zip test : Bool)
        → dirty ≡ true
        → refused ≡ false
        → zip ≡ false
        → test ≡ in_place
        → (if not dirty
            then (p, ok tt)
            else if refused
            then (p, err err_invalid_argument)
            else if zip
            then pk3_commit_impl p
            else if test
            then commit_in_place host p
            else pakka_commit_rebuild host p)
          ≡ (if in_place then commit_in_place host p else pakka_commit_rebuild host p)
    go true false false test a b c w = rw w refl
    go true false true test a b c w = cc
    go true true zip test a b c w = cc
    go false refused zip test a b c w = cc
