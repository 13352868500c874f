-- ===== src/Stdio.antt =====
-- The C library's FILE as the sources use it: a byte sequence with a position. A read past the end
-- comes back short, and a write past the end fills the gap with zeros, as stdio does. No other
-- failure of the device is modelled.
pub mod Reads
pub mod Writes
pub mod Fronts
use pakka.Prelude.{ℕ, ◌+◌, ◌-◌, Option, none, some, List, ◌++◌, length, take, drop, replicate, leb}
use pakka.Prelude.{if◌then◌else◌}

pub record File : Type 0 where
  pub contents : List ℕ
  pub pos : ℕ

unfoldable pub fseek : ℕ → File → File
fseek n f = record f { pos = n }

-- `fread(buf, n, 1, fp) == 1`; `none` is a short read.
unfoldable pub fread : ℕ → File → Option (List ℕ × File)
fread n f =
    if leb (f.pos + n) (length f.contents)
    then some (take n (drop f.pos f.contents), record f { pos = f.pos + n })
    else none

unfoldable pub fwrite : List ℕ → File → File
fwrite bytes f = record {
  contents =
      take f.pos f.contents
      ++ (replicate (f.pos - length f.contents) 0
          ++ (bytes ++ drop (f.pos + length bytes) f.contents));
  pos = f.pos + length bytes;
}
