-- ===== src/Lab1/HoldBack.antt =====
-- HoldBackQueue of lab1/src/part1/multicast.h and multicast.cpp, with PendingMsg and MsgIdentifier.
mod Defs
pub mod Order
pub mod Queue
pub mod Ordering
pub mod Pending
unfoldable pub use Defs.*
