-- ===== src/Lab2/SerDe.antt =====
-- lab2/src/serde.cpp: structs of uint32_t to bytes in network order, and back.
mod Defs
pub mod RoundTrip
pub mod NewView
unfoldable pub use Defs.*
