-- ===== src/Lab1/Sender.antt =====
-- ContinuousMsgSender<T> of lab1/src/part1/multicast.h and multicast.cpp, which sends each queued
-- message again and again until every recipient has acknowledged it.
mod Defs
pub mod Interval
pub mod Outstanding
pub mod Rounds
pub mod Waiting
pub mod Retransmission
unfoldable pub use Defs.*
