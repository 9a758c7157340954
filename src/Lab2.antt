-- ===== src/Lab2.antt =====
-- lab2/src: group membership with a leader and a failure detector.
pub mod Message
pub mod SerDe
pub mod Printing
pub mod Peers
pub mod FailureDetector
pub mod Sockets
pub mod Udp
pub mod Attempts
pub mod Connecting
pub mod Membership
pub mod Startup
pub mod Tests
