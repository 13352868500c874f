-- ===== src/Reader/Opened.antt =====
-- Opening an entry that stores a payload, src/pakfile.c: the reader serves the payload.
use pakka.Prelude.{
  ℕ, ◌≤◌, ◌≡◌, refl, sym, ap, ◌∙◌, arith, Bool, true, false, not, ◌&&◌, ◌⊎◌, inl, inr,
}
use pakka.Prelude.{
  List, [], ◌∷◌, none, some, length, take_all, Bool-cases, if-cases, if_intro, not-true, not-false,
}
use pakka.Prelude.{◌==◌, ltb, if◌then◌else◌}
use mathlib.Core.Path.{subst}
use pakka.Status.{Result, ok, err, err_format, err_limit, err_io, ok-injective, ◌>>=◌}
use pakka.Format.{is_zip, same_format, daikatana}
use pakka.Stdio.{fseek}
use pakka.Stdio.Reads.{At}
use pakka.Stdio.Fronts.{some-injective, read_at, At-read_at}
use pakka.Pak.{Entry, Pak, memory, on_disk_extent}
use pakka.Codec.Inflate.{inflate, loop, finish}
use pakka.Archive.AddFile.{Source}
use pakka.Archive.Stored.{Holds, Stores}
use pakka.Reader.{
  Reader, pakka_dk_inflate, exceeds_cap, pending_bytes, serve_pending, pak_open_pending_reader,
  open_compressed, open_committed, open_by_pending, new_reader, pakka_open_entry_handle,
}
use pakka.Reader.Serves.{Serves, Comes}

inflate-nothing : (n : ℕ) (payload : List ℕ) → inflate [] n ≡ some (ok payload) → payload ≡ []
unfolding inflate loop finish
inflate-nothing n payload h =
    elim (if-cases (length {A = ℕ} [] == n) (ok []) (err err_format) (some-injective h)) [
      | inl (_, e) ↦ sym (ok-injective e)
      | inr (_, e) ↦ cc
    ]

pub and-true : (a b : Bool) → (a && b) ≡ true → (a ≡ true) × (b ≡ true)
and-true true b h = (refl, h)
and-true false b h = cc

extent-packed : (e : Entry) → e.dk_is_compressed ≡ true → on_disk_extent e ≡ e.dk_compressed_size
unfolding on_disk_extent
extent-packed e c = ground arith

pub nothing : (payload : List ℕ) → length payload ≡ 0 → payload ≡ []
nothing [] h = refl
nothing (c ∷ cs) h = absurd (omega arith)

-- A reader that opening gives, and that serves the payload.
abbrev pub Opens : Pak → List ℕ → Result Reader → Type 0
Opens p payload r = (reader : Reader) × (r ≡ ok reader) × Serves p.file reader payload

module _ (p : Pak) (e : Entry) (payload : List ℕ) (s : Stores p e payload) where
  plain : e.dk_is_compressed ≡ false → s.bytes ≡ payload
  plain c = subst (λ t. Holds t s.bytes payload) c s.holds

  packed : e.dk_is_compressed ≡ true → inflate s.bytes (length payload) ≡ some (ok payload)
  packed c = subst (λ t. Holds t s.bytes payload) c s.holds

  unpacks : e.dk_is_compressed ≡ true → pakka_dk_inflate s.bytes e.size ≡ ok payload
  unfolding pakka_dk_inflate
  unpacks c = rw (s.length_kept, pakka_dk_inflate) (rw (packed c) refl)

  -- Without bytes there is no payload.
  empty-payload : s.bytes ≡ [] → payload ≡ []
  empty-payload h = elim (Bool-cases e.dk_is_compressed) [
    | inr c ↦ sym (plain c) ∙ h
    | inl c ↦
        inflate-nothing (length payload) payload
          (subst (λ b. inflate b (length payload) ≡ some (ok payload)) h (packed c))
  ]

  finished :
      (reader : Reader) → payload ≡ [] → Serves p.file (record reader { remaining = 0 }) payload
  finished reader h = record { left = ap (λ t. length t) (sym h); comes = inl h }

  served :
      (reader : Reader)
      → reader.remaining ≡ e.size
      → Serves p.file (record reader { inflated = some payload }) payload
  served reader h = record { left = h ∙ s.length_kept; comes = inr refl }

  unpacked :
      (reader : Reader)
      → reader.remaining ≡ e.size
      → e.dk_is_compressed ≡ true
      → Opens p payload
          (pakka_dk_inflate s.bytes e.size >>= λ out. ok (record reader { inflated = some out }))
  unpacked reader h c =
      subst (λ r. Opens p payload (r >>= λ out. ok (record reader { inflated = some out })))
        (sym (unpacks c)) (record reader { inflated = some payload }, refl, served reader h)

  serve_pending-Opens :
      (reader : Reader)
      → reader.remaining ≡ e.size
      → (e.dk_is_compressed ≡ true → exceeds_cap p e.size (on_disk_extent e) ≡ false)
      → Opens p payload (serve_pending p e reader s.bytes)
  unfolding serve_pending
  serve_pending-Opens reader h small =
      if_intro (Opens p payload) (not e.dk_is_compressed)
        (λ c. (
          record reader { inflated = some s.bytes },
          refl,
          subst (λ b. Serves p.file (record reader { inflated = some b }) payload)
              (sym (plain (not-true e.dk_is_compressed c))) (served reader h),
        ))
        (λ c. inflate_served (not-false e.dk_is_compressed c))
    where
      inflate_served :
          e.dk_is_compressed ≡ true
          → Opens p payload (
              if exceeds_cap p e.size (on_disk_extent e)
              then err err_limit
              else if e.size == 0
              then ok (record reader { remaining = 0 })
              else (pakka_dk_inflate s.bytes e.size >>= λ out.
                  ok (record reader { inflated = some out })))
      inflate_served c =
          if_intro (Opens p payload) (exceeds_cap p e.size (on_disk_extent e))
            (λ over. let bad = sym over ∙ small c in cc)
            (λ _.
              if_intro (Opens p payload) (e.size == 0)
                (λ none_left. (
                  record reader { remaining = 0 },
                  refl,
                  finished reader (nothing payload (ground (arith, s.length_kept))),
                ))
                (λ _. unpacked reader h c))

  pending-Opens :
      (source_at : List ℕ → Source) (reader : Reader)
      → reader.remaining ≡ e.size
      → (e.dk_is_compressed ≡ true → exceeds_cap p e.size (on_disk_extent e) ≡ false)
      → Opens p payload (pak_open_pending_reader source_at p reader e (memory s.bytes))
  unfolding pak_open_pending_reader pending_bytes
  pending-Opens source_at reader h small =
      if_intro (Opens p payload) (on_disk_extent e == 0)
        (λ none_there. (
          record reader { remaining = 0 },
          refl,
          finished reader (empty-payload (nothing s.bytes (ground (arith, s.extent)))),
        ))
        (λ _.
          subst (λ b. Opens p payload (serve_pending p e reader b))
            (sym (take_all (on_disk_extent e) s.bytes (omega (arith, s.extent))))
            (serve_pending-Opens reader h small))

  -- What the decoder is given, in the file at the entry's offset.
  compressed_bytes :
      (e.dk_is_compressed ≡ true)
      → (s.bytes ≡ []) ⊎ At (fseek e.offset p.file) s.bytes
      → (if ltb 0 e.dk_compressed_size
          then read_at e.offset e.dk_compressed_size p.file
          else some [])
        ≡ some s.bytes
  unfolding on_disk_extent
  compressed_bytes c at =
      let n : e.dk_compressed_size ≡ length s.bytes = ground (arith, s.extent) in
      if_intro (λ t. t ≡ some s.bytes) (ltb 0 e.dk_compressed_size)
        (λ some_there. elim at [
          | inl none_there ↦ let zero_size = ap (λ t. length t) none_there in absurd (ground arith)
          | inr there ↦ At-read_at e.offset e.dk_compressed_size p.file s.bytes there n
        ])
        (λ none_there. ap some (sym (nothing s.bytes (ground arith))))

  open_compressed-Opens :
      (reader : Reader)
      → reader.remaining ≡ e.size
      → e.dk_is_compressed ≡ true
      → exceeds_cap p e.size e.dk_compressed_size ≡ false
      → (s.bytes ≡ []) ⊎ At (fseek e.offset p.file) s.bytes
      → Opens p payload (open_compressed p reader e)
  unfolding open_compressed
  open_compressed-Opens reader h c small at =
      if_intro (Opens p payload) (exceeds_cap p e.size e.dk_compressed_size)
        (λ over. let bad = sym over ∙ small in cc)
        (λ _.
          subst
            (λ t. Opens p payload (elim t [
              | none ↦ err err_io
              | some compressed ↦ pakka_dk_inflate compressed e.size >>= λ out.
                  ok (record reader { inflated = some out })
            ]))
            (sym (compressed_bytes c at)) (unpacked reader h c))

  committed-Opens :
      (reader : Reader)
      → reader.remaining ≡ e.size
      → reader.inflated ≡ none
      → reader.next_offset ≡ e.offset
      → (e.dk_is_compressed ≡ true → exceeds_cap p e.size (on_disk_extent e) ≡ false)
      → (s.bytes ≡ []) ⊎ At (fseek e.offset p.file) s.bytes
      → Opens p payload (open_committed p reader e)
  unfolding open_committed
  committed-Opens reader h buffer offset small at =
      if_intro (Opens p payload) (same_format p.format daikatana && e.dk_is_compressed)
        (λ both.
          let c = and-true (same_format p.format daikatana) e.dk_is_compressed both in
          open_compressed-Opens reader h c.1
            (subst (λ n. exceeds_cap p e.size n ≡ false) (extent-packed e c.1) (small c.1)) at)
        (λ other. (
          reader,
          refl,
          record {
            left = h ∙ s.length_kept;
            comes =
                subst (λ t. (t ≡ []) ⊎ Comes p.file reader reader.inflated t)
                  (plain (not_packed other))
                  (elim at [
                    | inl none_there ↦ inl none_there
                    | inr there ↦ inr (
                        subst (λ b. Comes p.file reader b s.bytes) (sym buffer)
                          (subst (λ o. At (fseek o p.file) s.bytes) (sym offset) there))
                  ]);
          },
        ))
    where
      not_packed :
          (same_format p.format daikatana && e.dk_is_compressed) ≡ false
          → e.dk_is_compressed ≡ false
      not_packed other = elim (Bool-cases e.dk_is_compressed) [
        | inr c ↦ c
        | inl c ↦ let bad = rw (s.packed_format c, c) at other in cc
      ]

-- The cap on unpacked sizes is off, does not apply, or is not reached.
abbrev pub WithinCap : Pak → List ℕ → Type 0
WithinCap p payload =
    (p.max_decompressed ≡ 0)
    ⊎ (length payload ≤ p.max_decompressed)
    ⊎ (same_format p.format daikatana ≡ false)

module _ (p : Pak) (e : Entry) (payload : List ℕ) (s : Stores p e payload)
    (within : WithinCap p payload) where
  within_cap : e.dk_is_compressed ≡ true → exceeds_cap p e.size (on_disk_extent e) ≡ false
  unfolding exceeds_cap
  within_cap c = elim within [
    | inl off ↦ ground arith
    | inr (inl small) ↦ ground (arith, s.length_kept, s.extent, s.no_longer)
    | inr (inr other) ↦ let bad = sym (s.packed_format c) ∙ other in cc
  ]

  -- Opening an entry that stores a payload gives a reader that serves it.
  pub pakka_open_entry_handle-Opens :
      (pk3_open_entry_impl : Pak → Reader → Entry → Result Reader) (source_at : List ℕ → Source)
      → p.live ≡ true
      → is_zip p.format ≡ false
      → Opens p payload (pakka_open_entry_handle pk3_open_entry_impl source_at p e)
  unfolding pakka_open_entry_handle new_reader open_by_pending
  pakka_open_entry_handle-Opens pk3_open_entry_impl source_at live no_zip =
      rw (live, no_zip, pakka_open_entry_handle)
        (elim s.place [
          | inl staged ↦
              subst (λ t. Opens p payload (open_by_pending source_at p (new_reader e) e t))
                (sym staged) (pending-Opens p e payload s source_at (new_reader e) refl within_cap)
          | inr (committed, at) ↦
              subst (λ t. Opens p payload (open_by_pending source_at p (new_reader e) e t))
                (sym committed)
                (committed-Opens p e payload s (new_reader e) refl refl refl within_cap at)
        ])
