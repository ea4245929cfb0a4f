-- ===== src/Http.antt =====
-- include/core/eris.http.h and src/core/eris.http.c: the HTTP context and its parts.
mod Types
mod Fail
pub mod Header
pub mod Chunk
pub mod Body
pub mod Request
pub mod Pack
pub mod Client
pub use Types.*
unfoldable pub use Fail.*
