-- ===== src/Codec.antt =====
-- src/dk_codec.c: the Daikatana byte codec. A buffer is a list of bytes.
pub mod Inflate
pub mod Deflate
pub mod RoundTrip
mod Tests
