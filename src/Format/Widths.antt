-- ===== src/Format/Widths.antt =====
-- The rows of the geometry table.
use pakka.Prelude.{◌+◌, ◌≤◌, ◌≡◌, arith, true, false, some, if◌then◌else◌, length}
use pakka.Format.{
  Format, auto, pak, pk3, pk4, sin, daikatana, iwad, pwad, Geometry, geometry, is_wad,
}

-- A row of the table is a name field, two numbers, and two more where the format compresses; its
-- signature has four bytes, and its names fit the buffer of an entry.
pub record IsRow (g : Geometry) : Type 0 where
  pub width : g.name_field_len + 8 + (if g.has_compression then 8 else 0) ≡ g.dir_entry_size
  pub magic : length g.signature ≡ 4
  pub name_width : (8 ≤ g.name_field_len) × (g.name_field_len ≤ 120)

pub geometry-IsRow : (fmt : Format) (g : Geometry) → geometry fmt ≡ some g → IsRow g
unfolding geometry
geometry-IsRow auto g h = cc
geometry-IsRow pak g h = ground arith
geometry-IsRow pk3 g h = cc
geometry-IsRow pk4 g h = cc
geometry-IsRow sin g h = ground arith
geometry-IsRow daikatana g h = ground arith
geometry-IsRow iwad g h = ground arith
geometry-IsRow pwad g h = ground arith

-- No row of a WAD is compressed.
pub wad_unpacked :
    (fmt : Format) (g : Geometry)
    → geometry fmt ≡ some g
    → is_wad fmt ≡ true
    → g.has_compression ≡ false
unfolding geometry is_wad
wad_unpacked iwad g h w = ground arith
wad_unpacked pwad g h w = ground arith
wad_unpacked auto g h w = cc
wad_unpacked pak g h w = cc
wad_unpacked pk3 g h w = cc
wad_unpacked pk4 g h w = cc
wad_unpacked sin g h w = cc
wad_unpacked daikatana g h w = cc
