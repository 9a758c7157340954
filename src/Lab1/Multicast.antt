-- ===== src/Lab1/Multicast.antt =====
-- MulticastService of lab1/src/part1/multicast.h and multicast.cpp: the total order multicast.
mod State
mod Defs
pub mod Agreed
pub mod Delivery
pub mod Duplicates
pub mod Repeats
pub mod Acks
pub mod Wire
unfoldable pub use State.*
unfoldable pub use Defs.*
