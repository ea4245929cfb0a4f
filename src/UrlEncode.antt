-- ===== src/UrlEncode.antt =====
-- src/core/eris.urlencode.c: form encoding (`+` for a space, `%XX`) and its decoder.
mod Encode
mod Decode
pub mod Spec
pub mod Encoder
pub mod Decoder
pub mod RoundTrip
mod Tests
unfoldable pub use Encode.*
unfoldable pub use Decode.*
