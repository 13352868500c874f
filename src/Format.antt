-- ===== src/Format.antt =====
-- pakka_format_t of include/pakka.h, and the geometry of the PAK-class formats: pakka_format_is_zip
-- and pakka_format_is_wad of src/common.h, pakka_pak_geometry of src/common.c.
pub mod Widths
use pakka.Prelude.{ℕ, Bool, true, false, Option, none, some, List, [], ◌∷◌}

pub data Format : Type 0 where
  auto pak pk3 pk4 sin daikatana iwad pwad : Format

unfoldable pub is_zip : Format → Bool
is_zip pk3 = true
is_zip pk4 = true
is_zip _ = false

unfoldable pub is_wad : Format → Bool
is_wad iwad = true
is_wad pwad = true
is_wad _ = false

-- The comparisons `format == PAKKA_FORMAT_…` of the sources.
unfoldable pub same_format : Format → Format → Bool
same_format auto auto = true
same_format pak pak = true
same_format pk3 pk3 = true
same_format pk4 pk4 = true
same_format sin sin = true
same_format daikatana daikatana = true
same_format iwad iwad = true
same_format pwad pwad = true
same_format _ _ = false

pub record Geometry : Type 0 where
  pub signature : List ℕ
  pub name_field_len : ℕ
  pub dir_entry_size : ℕ
  pub has_compression : Bool

-- "PACK", "SPAK", "IWAD" and "PWAD"
abbrev pub pack_magic : List ℕ
pack_magic = b'P' ∷ b'A' ∷ b'C' ∷ b'K' ∷ []

abbrev pub spak_magic : List ℕ
spak_magic = b'S' ∷ b'P' ∷ b'A' ∷ b'K' ∷ []

abbrev pub iwad_magic : List ℕ
iwad_magic = b'I' ∷ b'W' ∷ b'A' ∷ b'D' ∷ []

abbrev pub pwad_magic : List ℕ
pwad_magic = b'P' ∷ b'W' ∷ b'A' ∷ b'D' ∷ []

abbrev row : List ℕ → ℕ → ℕ → Bool → Geometry
row sig name_len size compression = record {
  signature = sig;
  name_field_len = name_len;
  dir_entry_size = size;
  has_compression = compression;
}

-- `none` is NULL.
unfoldable pub geometry : Format → Option Geometry
geometry pak = some (row pack_magic 56 64 false)
geometry sin = some (row spak_magic 120 128 false)
geometry daikatana = some (row pack_magic 56 72 true)
geometry iwad = some (row iwad_magic 8 16 false)
geometry pwad = some (row pwad_magic 8 16 false)
geometry _ = none
