-- ===== src/Lab1.antt =====
-- lab1/src: total order multicast and global snapshots.
pub mod Message
pub mod Sockets
pub mod Startup
pub mod Printing
pub mod Reports
pub mod Wiring
pub mod Connecting
pub mod Accepting
pub mod Serde
pub mod HoldBack
pub mod Sender
pub mod Multicast
pub mod Snapshot
mod Tests
