-- ===== src/Zip/Built/End.antt =====
-- The scan of pk3_find_eocd, src/pk3file.c, over a file that ends with an end record.
use pakka.Prelude.{ℕ, suc, ◌+◌, ◌-◌, ◌≡◌, refl, sym, ap, ◌∙◌, arith, true, false, some, inl, inr}
use pakka.Prelude.{List, [], ◌++◌, append-nil, length, length-append, length-drop, take}
use pakka.Prelude.{drop, drop-append, drop-drop, take-append-drop, length-take, ltb}
use pakka.Prelude.{◌==◌, same_bytes, Bool-cases}
use pakka.Stdio.{File, fseek}
use pakka.Stdio.Fronts.{read_at, At-read_at}
use pakka.Zip.Records.{
  u16_bytes, u16_value, read_u16, u16_value-u16_bytes, build_eocd, eocd_magic, eocd_scan_max,
}
use pakka.Words.{u32_bytes}
use pakka.Zip.Eocd.{is_eocd, scan_back, scan_tail, find_eocd}

module _ (f : File) (before : List ℕ) (cdr_offset size n : ℕ)
    (ends : f.contents ≡ before ++ build_eocd cdr_offset size n) where
  abbrev eocd : List ℕ
  eocd = build_eocd cdr_offset size n

  eocd_long : length eocd ≡ 22
  unfolding build_eocd u16_bytes u32_bytes
  eocd_long = refl

  whole : length f.contents ≡ length before + 22
  whole = omega (arith, ap (λ t. length t) ends, length-append before eocd, eocd_long)

  no_comment : read_u16 20 eocd ≡ 0
  unfolding read_u16 build_eocd u16_bytes u32_bytes
  no_comment = u16_value-u16_bytes 0 (omega arith)

  signed : same_bytes (take 4 eocd) eocd_magic ≡ true
  unfolding build_eocd same_bytes
  signed = refl

  abbrev tail_from : ℕ → List ℕ
  tail_from start = drop start f.contents

  eocd_here : (start k : ℕ) → start + k ≡ length before → drop k (tail_from start) ≡ eocd
  eocd_here start k e =
      drop-drop start k (length before) f.contents e
      ∙ ap (λ t. drop (length before) t) ends
      ∙ drop-append before eocd

  is_eocd_here :
      (start k scan_len : ℕ)
      → start + k ≡ length before
      → scan_len ≡ k + 22
      → is_eocd scan_len k (tail_from start) ≡ true
  unfolding is_eocd read_u16
  is_eocd_here start k scan_len e len =
      let comment : read_u16 (k + 20) (tail_from start) ≡ 0 =
        ap (λ t. u16_value (take 2 t)) (sym (drop-drop k 20 (k + 20) (tail_from start) refl))
        ∙ ap (λ t. read_u16 20 t) (eocd_here start k e)
        ∙ no_comment in
      let exact : (k + 22 + 0 == scan_len) ≡ true = ground arith in
      rw (eocd_here start k e, comment) (rw (signed, exact) refl)

  tail_read :
      (start scan_len : ℕ)
      → start + scan_len ≡ length before + 22
      → read_at start scan_len f ≡ some (tail_from start)
  unfolding fseek
  tail_read start scan_len e =
      At-read_at start scan_len f (tail_from start)
        (record {
          before = take start f.contents;
          behind = [];
          split = sym (
              ap (λ t. take start f.contents ++ t) (append-nil (tail_from start))
              ∙ take-append-drop start f.contents);
          place = omega (arith, length-take start f.contents, whole);
        })
        (omega (arith, length-drop start f.contents, whole))

  scan_found :
      (start k scan_len : ℕ)
      → start + k ≡ length before
      → scan_len ≡ k + 22
      → scan_back scan_len (scan_len - 22 + 1) (tail_from start) ≡ some k
  unfolding scan_back
  scan_found start k scan_len e len =
      let from : scan_len - 22 + 1 ≡ suc k = omega arith in
      rw from (rw (is_eocd_here start k scan_len e len) refl)

  tail_scanned :
      (start k scan_len : ℕ)
      → start + k ≡ length before
      → scan_len ≡ k + 22
      → scan_tail f start scan_len ≡ some (length before)
  unfolding scan_tail
  tail_scanned start k scan_len e len =
      rw (tail_read start scan_len (omega arith), scan_tail)
        (rw (scan_found start k scan_len e len) (ap (λ t. some t) e))

  long : ltb (length f.contents) 22 ≡ false
  long = ground (arith, whole)

  -- The end record is found, since it has no comment and ends the file.
  pub find_eocd-build_eocd : find_eocd f (length f.contents) ≡ some (length before)
  unfolding find_eocd
  find_eocd-build_eocd = elim (Bool-cases (ltb eocd_scan_max (length f.contents))) [
    | inl big ↦
        rw (long, big, find_eocd)
          (tail_scanned (length f.contents - eocd_scan_max) 65535 eocd_scan_max
            (ground (arith, whole)) refl)
    | inr small ↦
        rw (long, small, find_eocd)
          (tail_scanned (length f.contents - length f.contents) (length before) (length f.contents)
            (omega arith) (omega (arith, whole)))
  ]
