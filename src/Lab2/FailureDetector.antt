-- ===== src/Lab2/FailureDetector.antt =====
-- lab2/src/failure_detector.h and failure_detector.cpp: the failure detector.
mod Defs
pub mod Scan
pub mod Events
pub mod Timing
pub mod Listener
unfoldable pub use Defs.{
  new_detector, heart_beat_targets, heart_beat_packet, note_heart_beat, heart_beat_listener_step,
  scan, detector_step, insert_keys, get_alive_peers, add_peer_failure_callback,
}
pub use Defs.{FailureDetector}
