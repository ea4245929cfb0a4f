-- ===== src/Http/Header.antt =====
-- The header part of `eris_http_request_parse`: the automaton over the bytes of the request line and
-- the header lines.
pub mod Parser
pub mod Feed
mod Line
mod Fields
mod Loop
pub mod Render
pub mod Method
pub mod Version
pub mod Target
pub mod Title
pub mod Lines
pub mod Open
pub mod Refusal
pub mod LineBranches
pub mod FieldBranches
pub mod Branches
pub mod Answer
pub mod Reads
pub mod RoundTrip
pub mod Sample
mod Tests
pub use Parser.*
unfoldable pub use Line.*
unfoldable pub use Fields.*
unfoldable pub use Loop.*
