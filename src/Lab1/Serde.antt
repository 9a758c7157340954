-- ===== src/Lab1/Serde.antt =====
-- lab1/src/common/serde.cpp: structs of uint32_t to bytes in network order, and back.
mod Defs
pub mod RoundTrip
unfoldable pub use Defs.*
