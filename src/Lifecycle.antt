-- ===== src/Lifecycle.antt =====
-- pakka_create and pakka_close of src/pakfile.c, and the small calls on a handle beside them.
pub mod Created
mod Tests
use pakka.Prelude.{ℕ, ◌*◌, Bool, true, false, not, ◌&&◌, Option, none, some, List, [], ◌∷◌, length}
use pakka.Prelude.{leb, ◌==◌, if◌then◌else◌}
use pakka.Status.{
  Status, Result, ok, err, err_io, err_limit, err_exists, err_invalid_argument, ◌>>=◌, ◌>>◌,
  refuse_if,
}
use pakka.Format.{Format, auto, pak, daikatana, is_zip, same_format}
use pakka.Stdio.{File}
use pakka.Pak.{Entry, Pak}
use pakka.Disk.Save.{init_pak_header, write_pak_header}
use pakka.Open.{new_handle, read_write}
use pakka.Commit.{pakka_commit}
use pakka.Commit.Copy.{Host}

-- PK3_DEFAULT_MAX_DECOMPRESSED
abbrev pub default_max_decompressed : ℕ
default_max_decompressed = 64 * 1024 * 1024

-- The handle before anything is written: a new file, and the cap where entries are compressed.
unfoldable pub created_handle : Format → Pak
created_handle format = record (new_handle [] read_write auto (record { contents = []; pos = 0 })) {
  is_new = true;
  max_decompressed = if same_format format daikatana then default_max_decompressed else 0;
}

-- `os_path_max` is the host's PATH_MAX; `exists` is whether stat finds the path, and `mkstemp` whether
-- a temporary file can be made. `pk3_create_impl` is pakka_pk3_create_impl of src/pk3file.c.
unfoldable pub pakka_create :
    ℕ → Bool → Bool → (Pak → Result Pak) → List ℕ → Format → ℕ → Result Pak
unfolding created_handle
pakka_create os_path_max exists mkstemp pk3_create_impl path format flags = do
  refuse_if (not (flags == 0)) err_invalid_argument
  refuse_if (leb os_path_max (length path)) err_limit
  refuse_if exists err_exists
  refuse_if (not mkstemp) err_io
  if is_zip format
      then pk3_create_impl (record (created_handle format) { format = format })
      else ok (
          write_pak_header (
            init_pak_header (record (created_handle format) {
              format = if same_format format auto then pak else format;
            })))

-- What a close asks of the host besides the commit: whether fclose works, and what the rename of the
-- temporary file to the new path, which must not exist, comes to.
pub record Closing : Type 0 where
  pub commit : Host
  pub fclose : Bool
  pub rename_noreplace : Option Status

-- The result of a close, and the file that the new path has now, where one was put there.
pub record Closed : Type 0 where
  pub status : Result (Unit {0})
  pub published : Option File

unfoldable pub publish_new : Closing → Pak → Closed
publish_new host p =
    if p.live && not host.fclose
    then record { status = err err_io; published = none }
    else elim host.rename_noreplace [
      | none ↦ record { status = ok tt; published = some p.file }
      | some e ↦ record { status = err e; published = none }
    ]

unfoldable pub close_after : Closing → Pak × Result (Unit {0}) → Closed
unfolding publish_new
close_after host (p, err e) = record { status = err e; published = none }
close_after host (p, ok _) =
    if p.is_new then publish_new host p else record { status = ok tt; published = none }

-- A handle with changes is committed first.
unfoldable pub pakka_close : (Pak → Pak × Result (Unit {0})) → Closing → Pak → Closed
unfolding close_after
pakka_close pk3_commit_impl host p =
    close_after host (if p.dirty then pakka_commit pk3_commit_impl host.commit p else (p, ok tt))

-- pakka_entry_count
unfoldable pub pakka_entry_count : Pak → ℕ
pakka_entry_count archive = archive.num_entries

unfoldable pub pakka_entry_first : Pak → Option Entry
pakka_entry_first archive = elim archive.entries [ [] ↦ none | e ∷ es ↦ some e ]

unfoldable pub pakka_entry_size : Entry → ℕ
pakka_entry_size e = e.size

-- The compression methods of a ZIP.
abbrev pub method_store : ℕ
method_store = 0

abbrev pub method_deflate : ℕ
method_deflate = 8

unfoldable pub pakka_entry_compressed_size : Entry → ℕ
pakka_entry_compressed_size e =
    if e.pk3_method == method_deflate
    then e.pk3_compressed_size
    else if e.dk_is_compressed
    then e.dk_compressed_size
    else e.size

unfoldable pub pakka_set_max_decompressed_size : Pak → ℕ → Pak
pakka_set_max_decompressed_size archive max_bytes = record archive { max_decompressed = max_bytes }

unfoldable pub pakka_set_compression : Pak → ℕ → Result Pak
pakka_set_compression archive method = do
  refuse_if (not (method == method_store) && not (method == method_deflate)) err_invalid_argument
  refuse_if (not archive.writable) err_invalid_argument
  refuse_if (method == method_deflate && not (is_zip archive.format)) err_invalid_argument
  ok (record archive { pk3_compression = method })
