-- ===== src/Commit/Errors.antt =====
-- pakka_commit of src/pakfile.c where it fails.
use pakka.Prelude.{
  ◌≡◌, refl, ap, ◌∙◌, arith, true, false, not, ◌&&◌, Bool, List, [], ◌∷◌, ◌⊎◌, inl, inr,
}
use pakka.Prelude.{ℕ, if◌then◌else◌, if_intro, ◌+◌, u64}
use mathlib.Core.Path.{subst}
use pakka.Status.{Result, ok, err, Status, err_io}
use pakka.Format.{is_zip}
use pakka.Stdio.{File, fseek}
use pakka.Pak.{Entry, Pak}
use pakka.Disk.Save.{write_pak_directory}
use pakka.Disk.Kept.{write_pak_directory-Keeps}
use pakka.Archive.{not_editable}
use pakka.Commit.{
  copy_entries, publish_rebuild, finish_rebuild, install_offsets, offsets_of, save_layout,
  install_layout, restore_layout, scratch, pakka_commit_rebuild, commit_in_place, pakka_commit,
}
use pakka.Commit.Copy.{Host}
use pakka.Commit.Dedup.{owners}

-- What a failure leaves: the handle as it was, or, where the rename failed, with the archive opened
-- again or not open.
abbrev pub Restored : Host → Pak → Pak → Type 0
Restored host p q =
    (q ≡ p) ⊎ ((host.rename ≡ false) × (q ≡ record p { file = fseek 0 p.file; live = host.reopen }))

-- An outcome with an error is such a failure.
abbrev Unchanged : Host → Pak → Pak × Result (Unit {0}) → Type 0
Unchanged host p (q, ok u) = Unit {0}
Unchanged host p (q, err e) = Restored host p q

install_offsets-offsets_of : (es : List Entry) → install_offsets (offsets_of es) es ≡ es
unfolding install_offsets offsets_of
install_offsets-offsets_of [] = refl
install_offsets-offsets_of (e ∷ es) = ap (λ t. e ∷ t) (install_offsets-offsets_of es)

-- The old offsets put back over whatever was installed.
install_offsets_back :
    (new_offsets : List ℕ) (es : List Entry)
    → install_offsets (offsets_of es) (install_offsets new_offsets es) ≡ es
unfolding install_offsets offsets_of
install_offsets_back [] es = install_offsets-offsets_of es
install_offsets_back (o ∷ os) [] = refl
install_offsets_back (o ∷ os) (e ∷ es) = ap (λ t. e ∷ t) (install_offsets_back os es)

restore_lem :
    (new_offsets : List ℕ) (tfd : File) (p : Pak)
    → restore_layout (save_layout p) (install_layout new_offsets tfd p) ≡ p
unfolding restore_layout save_layout install_layout
restore_lem new_offsets tfd p =
    ap (λ es. record p { entries = es }) (install_offsets_back new_offsets p.entries)

-- The directory that was written in between does not matter.
restore_written :
    (new_offsets : List ℕ) (tfd : File) (p q : Pak)
    → write_pak_directory (install_layout new_offsets tfd p) ≡ ok q
    → restore_layout (save_layout p) q ≡ p
unfolding restore_layout save_layout install_layout
restore_written new_offsets tfd p q did =
    ap (restore_layout (save_layout p))
      (write_pak_directory-Keeps (install_layout new_offsets tfd p) q did)
    ∙ ap (λ es. record p { entries = es }) (install_offsets_back new_offsets p.entries)

pub contradicts {ℓ} : {A : Type ℓ} (b : Bool) → b ≡ true → not b ≡ true → A
contradicts true h bad = cc
contradicts false h bad = cc

is_true : (b : Bool) → not b ≡ false → b ≡ true
is_true b h = ground arith

is_false : (b : Bool) → not b ≡ true → b ≡ false
is_false b h = ground arith

module _ (host : Host) (p : Pak) (reopen : host.rename ≡ true → host.reopen ≡ true) where
  publish-Unchanged :
      (q : Pak)
      → restore_layout (save_layout p) q ≡ p
      → Unchanged host p (publish_rebuild host (save_layout p) q)
  unfolding publish_rebuild save_layout
  publish-Unchanged q back =
      if_intro (Unchanged host p) (not host.fclose) (λ _. inl back)
        (λ _.
          if_intro (Unchanged host p) (not host.rename)
            (λ failed. inr (
              is_false host.rename failed,
              ap (λ (t : Pak). record t { file = fseek 0 p.file; live = host.reopen }) back,
            ))
            (λ renamed.
              if_intro (Unchanged host p) (not host.reopen)
                (λ bad. contradicts host.reopen (reopen (is_true host.rename renamed)) bad)
                (λ _. tt)))

  finish-Unchanged :
      (new_offsets : List ℕ) (tfd : File) → Unchanged host p (finish_rebuild host p new_offsets tfd)
  unfolding finish_rebuild
  finish-Unchanged new_offsets tfd =
      go (write_pak_directory (install_layout new_offsets tfd p)) refl
    where
      go :
          (r : Result Pak)
          → write_pak_directory (install_layout new_offsets tfd p) ≡ r
          → Unchanged host p (elim r [
            | err e ↦ (restore_layout (save_layout p) (install_layout new_offsets tfd p), err e)
            | ok q ↦ publish_rebuild host (save_layout p) q
          ])
      go (err e) did = inl (restore_lem new_offsets tfd p)
      go (ok q) did = publish-Unchanged q (restore_written new_offsets tfd p q did)

  rebuild-Unchanged : Unchanged host p (pakka_commit_rebuild host p)
  unfolding pakka_commit_rebuild
  rebuild-Unchanged =
      if_intro (Unchanged host p) (not host.mkstemp) (λ _. inl refl)
        (λ _. go (copy_entries host.source_at p.file (owners p.entries) 0 p.entries [] scratch))
    where
      go :
          (r : Result (List ℕ × File))
          → Unchanged host p (elim r [
            | err e ↦ (p, err e)
            | ok (new_offsets, tfd) ↦ finish_rebuild host p new_offsets tfd
          ])
      go (err e) = inl refl
      go (ok (new_offsets, tfd)) = finish-Unchanged new_offsets tfd

  in_place-Unchanged : host.fflush ≡ true → Unchanged host p (commit_in_place host p)
  unfolding commit_in_place
  in_place-Unchanged flushes = go (write_pak_directory p)
    where
      go :
          (r : Result Pak)
          → Unchanged host p (elim r [
            | err e ↦ (p, err e)
            | ok q ↦ if not host.fflush then (q, err err_io) else (
              record q { file_size = u64 (q.diroffset + q.dirlength); dirty = false },
              ok tt,
            )
          ])
      go (err e) = inl refl
      go (ok q) =
          if_intro (Unchanged host p) (not host.fflush) (λ bad. contradicts host.fflush flushes bad)
            (λ _. tt)

  commit-Unchanged :
      (pk3_commit_impl : Pak → Pak × Result (Unit {0}))
      → host.fflush ≡ true
      → is_zip p.format ≡ false
      → Unchanged host p (pakka_commit pk3_commit_impl host p)
  unfolding pakka_commit
  commit-Unchanged pk3_commit_impl flushes no_zip =
      if_intro (Unchanged host p) (not p.dirty) (λ _. tt)
        (λ _.
          if_intro (Unchanged host p) (not_editable p) (λ _. inl refl)
            (λ _.
              if_intro (Unchanged host p) (is_zip p.format) (λ zip. cc)
                (λ _.
                  if_intro (Unchanged host p) (not p.needs_rebuild && not p.atomic_commit)
                    (λ _. in_place-Unchanged flushes) (λ _. rebuild-Unchanged))))

-- Whatever goes wrong in a commit of a PAK-class handle before the new file is in place, the handle
-- is what it was: where a payload cannot be read, a source has changed since it was staged, a copy or
-- a directory would pass 32 bits, the temporary file cannot be made or closed, or the handle cannot be
-- changed. The offsets, the payload end, the numbers of the directory and the file that the rebuild
-- had installed are put back. After a failed rename the archive is opened again, and where that
-- fails too the handle is no longer open. The flush and the reopening of a renamed file are taken to
-- work.
pub pakka_commit-err :
    (pk3_commit_impl : Pak → Pak × Result (Unit {0})) (host : Host) (p q : Pak) (e : Status)
    → (host.rename ≡ true → host.reopen ≡ true)
    → host.fflush ≡ true
    → is_zip p.format ≡ false
    → pakka_commit pk3_commit_impl host p ≡ (q, err e)
    → Restored host p q
pakka_commit-err pk3_commit_impl host p q e reopen flushes no_zip h =
    subst (Unchanged host p) h (commit-Unchanged host p reopen pk3_commit_impl flushes no_zip)
