-- ===== src/Lab0.antt =====
-- lab0: the heartbeat by which the hosts learn that all of them are up.
pub mod Udp
pub mod Heartbeat
pub mod Senders
pub mod Keeping
pub mod Hearing
pub mod Handling
pub mod Listening
pub mod Rounds
pub mod Startup
pub mod Launch
pub mod Awaited
pub mod Safety
pub mod Endless
pub mod Faults
pub mod Tests
