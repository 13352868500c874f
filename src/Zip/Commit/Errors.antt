-- ===== src/Zip/Commit/Errors.antt =====
-- pakka_pk3_commit_impl of src/pk3file.c where it fails.
use pakka.Prelude.{
  ap, ◌∷◌, false, Bool, ◌&&◌, u32, arith, ℕ, ◌+◌, ◌≡◌, ◌⊎◌, inl, inr, refl, true, not, List, [],
  if_intro, ltb, not-false,
}
use mathlib.Core.Path.{subst}
use pakka.Status.{Result, ok, err, Status, err_limit, refuse_if, ◌>>◌}
use pakka.Stdio.{File}
use pakka.Pak.{Entry, Pak, uint32_max}
use pakka.Archive.AddFile.{Source}
use pakka.Commit.Errors.{contradicts}
use pakka.Zip.Records.{pk3_eocd_size, pk3_lfh_size}
use pakka.Zip.Commit.{
  ZipHost, ZipLayout, places_of, rollback_offsets, save_zip_layout, pk3_rebuild_rollback_offsets,
  finish_zip, moved, name_length, write_lfh, write_zip_payload, write_directory, check_total,
  pakka_pk3_commit_impl, publish_zip, rebuild_zip, write_members,
}

-- The handle is as it was, or, where the archive could not be closed or the rename failed, has its
-- file opened again or not.
abbrev pub IsRolledBack : ZipHost → Pak → Pak → Type 0
IsRolledBack host p q =
    (q ≡ p) ⊎ (((host.fclose_orig && host.rename) ≡ false) × (q ≡ record p { live = host.reopen }))

abbrev RollsBack : ZipHost → Pak → Pak × Result (Unit {0}) → Type 0
RollsBack host p (q, ok u) = Unit {0}
RollsBack host p (q, err e) = IsRolledBack host p q

unmoved : (es : List Entry) → rollback_offsets (places_of es) es ≡ es
unfolding rollback_offsets places_of
unmoved [] = refl
unmoved (e ∷ es) = ap (λ t. e ∷ t) (unmoved es)

-- One round of the loop, from what the rounds behind it do.
one_back :
    (e : Entry) (es : List Entry) (cur : ℕ) (next : File → List Entry × Result (ℕ × File))
    → ((f : File) → rollback_offsets (places_of es) (next f).0 ≡ es)
    → (r : Result File)
    → rollback_offsets
        (places_of (e ∷ es))
        (elim r as (λ _. List Entry × Result (ℕ × File)) [
          | err s ↦ (e ∷ es, err s)
          | ok f ↦ (moved cur e ∷ (next f).0, (next f).1)
        ]).0
      ≡ e ∷ es
unfolding rollback_offsets places_of moved
one_back e es cur next back (err s) = ap (λ t. e ∷ t) (unmoved es)
one_back e es cur next back (ok f) = ap (λ t. e ∷ t) (back f)

-- Wherever the loop stops, the rollback undoes what it has moved.
moved_back :
    (source_at : List ℕ → Source) (fp : File) (cur : ℕ) (es : List Entry) (tmpfp : File)
    → rollback_offsets (places_of es) (write_members source_at fp cur es tmpfp).0 ≡ es
unfolding rollback_offsets places_of write_members
moved_back source_at fp cur [] tmpfp = refl
moved_back source_at fp cur (e ∷ es) tmpfp =
    let next_offset = u32 ((moved cur e).pk3_payload_offset + e.pk3_compressed_size) in
    one_back e es cur (write_members source_at fp next_offset es)
      (moved_back source_at fp next_offset es)
      (refuse_if (ltb uint32_max (cur + (pk3_lfh_size + name_length e + e.pk3_compressed_size)))
          err_limit
        >> write_zip_payload source_at fp e e.pending (write_lfh e tmpfp))

rolled_back :
    (p : Pak) (es : List Entry) (cdr_offset : ℕ)
    → rollback_offsets (places_of p.entries) es ≡ p.entries
    → pk3_rebuild_rollback_offsets
        (save_zip_layout p)
        (record p { entries = es; pk3_cdr_offset = cdr_offset })
      ≡ p
unfolding pk3_rebuild_rollback_offsets save_zip_layout
rolled_back p es cdr_offset back = ap (λ t. record p { entries = t }) back

one_failed : (a b : Bool) → (not a ≡ true) ⊎ (not b ≡ true) → (a && b) ≡ false
one_failed a b h = ground arith

module _ (host : ZipHost) (p : Pak) (reopens : host.rename ≡ true → host.reopen ≡ true) where
  publish-RollsBack :
      (old : ZipLayout) (q : Pak) (tmpfp : File)
      → pk3_rebuild_rollback_offsets old q ≡ p
      → RollsBack host p (publish_zip host old q tmpfp)
  unfolding publish_zip
  publish-RollsBack old q tmpfp back =
      let again : record (pk3_rebuild_rollback_offsets old q) { live = host.reopen }
          ≡ record p { live = host.reopen } =
        ap (λ (t : Pak). record t { live = host.reopen }) back in
      if_intro (RollsBack host p) (not host.fflush) (λ _. inl back)
        (λ _.
          if_intro (RollsBack host p) (not host.fclose_tmp) (λ _. inl back)
            (λ _.
              if_intro (RollsBack host p) (not host.fclose_orig)
                (λ bad. inr (one_failed host.fclose_orig host.rename (inl bad), again))
                (λ _.
                  if_intro (RollsBack host p) (not host.rename)
                    (λ bad. inr (one_failed host.fclose_orig host.rename (inr bad), again))
                    (λ renamed.
                      if_intro (RollsBack host p) (not host.reopen)
                        (λ bad.
                          contradicts host.reopen (reopens (not-false host.rename renamed)) bad)
                        (λ _. tt)))))

  finish-RollsBack :
      (w : List Entry × Result (ℕ × File))
      → rollback_offsets (places_of p.entries) w.0 ≡ p.entries
      → RollsBack host p (finish_zip host p w)
  unfolding finish_zip
  finish-RollsBack (es, err e) back = inl (rolled_back p es p.pk3_cdr_offset back)
  finish-RollsBack (es, ok (cdr_offset, copy)) back =
      go (check_total (cdr_offset + pk3_eocd_size) es)
    where
      go :
          (r : Result (Unit {0}))
          → RollsBack host p (elim r [
            | err e ↦ (
              pk3_rebuild_rollback_offsets
                  (save_zip_layout p)
                  (record p { entries = es; pk3_cdr_offset = cdr_offset }),
              err e,
            )
            | ok _ ↦
                publish_zip host
                  (save_zip_layout p)
                  (record p { entries = es; pk3_cdr_offset = cdr_offset })
                  (write_directory cdr_offset es copy)
          ])
      go (err e) = inl (rolled_back p es cdr_offset back)
      go (ok u) =
          publish-RollsBack (save_zip_layout p)
            (record p { entries = es; pk3_cdr_offset = cdr_offset })
            (write_directory cdr_offset es copy) (rolled_back p es cdr_offset back)

  rebuild-RollsBack : RollsBack host p (rebuild_zip host p)
  unfolding rebuild_zip
  rebuild-RollsBack =
      let nothing : File = record { contents = []; pos = 0 } in
      if_intro (RollsBack host p) (not host.mkstemp) (λ _. inl refl)
        (λ _.
          finish-RollsBack (write_members host.source_at p.file 0 p.entries nothing)
            (moved_back host.source_at p.file 0 p.entries nothing))

  commit-RollsBack : p.needs_rebuild ≡ true → RollsBack host p (pakka_pk3_commit_impl host p)
  unfolding pakka_pk3_commit_impl
  commit-RollsBack rebuild =
      if_intro (RollsBack host p) (not p.dirty) (λ _. tt)
        (λ _.
          if_intro (RollsBack host p) (ltb 0xffff p.num_entries) (λ _. inl refl)
            (λ _. if_intro (RollsBack host p) p.needs_rebuild (λ _. rebuild-RollsBack) (λ bad. cc)))

-- Where the commit of a handle that needs a rebuild fails, and the archive can be opened again if the
-- rename has worked, the handle is what it was: the offsets of the entries that the rebuild has moved,
-- some or all of them, and that of the directory are rolled back. Its file has been opened again, or
-- is not open, only where the archive could not be closed or the rename failed.
pub pakka_pk3_commit_impl-err :
    (host : ZipHost) (p q : Pak) (e : Status)
    → (host.rename ≡ true → host.reopen ≡ true)
    → p.needs_rebuild ≡ true
    → pakka_pk3_commit_impl host p ≡ (q, err e)
    → IsRolledBack host p q
pakka_pk3_commit_impl-err host p q e reopens rebuild h =
    subst (RollsBack host p) h (commit-RollsBack host p reopens rebuild)
