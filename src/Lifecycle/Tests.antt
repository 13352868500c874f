-- ===== src/Lifecycle/Tests.antt =====
-- Tests of pakka_create and pakka_close and inputs at which the theorems about them apply.
use pakka.Prelude.{ℕ, ◌≡◌, refl, true, false, if◌then◌else◌, none, some, List, [], ◌∷◌}
use pakka.Status.{Result, ok, err, err_unsupported, err_exists}
use pakka.Format.{sin, is_zip, is_wad, geometry, same_format}
use pakka.Stdio.{fwrite}
use pakka.Words.{write_u32_le, u32_bytes}
use pakka.Pak.{Pak}
use pakka.Disk.Save.{init_pak_header, write_pak_header, header_fields}
use pakka.Open.{new_handle}
use pakka.Commit.{pakka_commit}
use pakka.Lifecycle.{created_handle, pakka_create, Closing, pakka_close, close_after, publish_new}
use pakka.Lifecycle.Created.{IsFresh, pakka_create-IsFresh, pakka_close-published}

abbrev no_zip : Pak → Result Pak
no_zip p = err err_unsupported

abbrev new_sin : Pak
new_sin = write_pak_header (init_pak_header (record (created_handle sin) { format = sin }))

abbrev path : List ℕ
path = b'x' ∷ []

created : pakka_create 4096 false true no_zip path sin 0 ≡ ok new_sin
unfolding pakka_create is_zip same_format
created = refl

-- "SPAK", 12 and 0.
header_test :
    new_sin.file.contents ≡ b'S' ∷ b'P' ∷ b'A' ∷ b'K' ∷ 12 ∷ 0 ∷ 0 ∷ 0 ∷ 0 ∷ 0 ∷ 0 ∷ 0 ∷ []
unfolding write_pak_header init_pak_header created_handle new_handle geometry is_wad header_fields
    write_u32_le u32_bytes fwrite
header_test = refl

taken : pakka_create 4096 true true no_zip path sin 0 ≡ err err_exists
unfolding pakka_create
taken = refl

pakka_create-IsFresh_example : IsFresh sin new_sin
unfolding is_zip same_format
pakka_create-IsFresh_example =
    pakka_create-IsFresh 4096 false true no_zip path sin 0 new_sin refl created

abbrev no_commit : Pak → Pak × Result (Unit {0})
no_commit p = (p, err err_unsupported)

abbrev host : Closing
host = record {
  commit = record {
    source_at = λ p. record { path = p; is_link = false; lstat = none; st_size = 0; fopen = none };
    mkstemp = true;
    fclose = true;
    rename = true;
    reopen = true;
    fflush = true;
  };
  fclose = true;
  rename_noreplace = none;
}

closed : (pakka_close no_commit host new_sin).published ≡ some new_sin.file
unfolding pakka_close close_after publish_new write_pak_header init_pak_header created_handle
    new_handle
closed = refl

pakka_close-published_example :
    ((pakka_close no_commit host new_sin).status ≡ ok tt)
    × (host.rename_noreplace ≡ none)
    × (q : Pak) × ((if new_sin.dirty
          then pakka_commit no_commit host.commit new_sin
          else (new_sin, ok tt))
        ≡ (q, ok tt))
    × (q.is_new ≡ true)
    × (q.live ≡ true → host.fclose ≡ true)
    × (q.file ≡ new_sin.file)
pakka_close-published_example = pakka_close-published no_commit host new_sin new_sin.file closed
