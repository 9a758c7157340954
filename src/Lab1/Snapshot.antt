-- ===== src/Lab1/Snapshot.antt =====
-- lab1/src/part2/snapshot.h and snapshot.cpp: the global snapshot.
mod Defs
pub mod Events
pub mod Channels
pub mod Recording
pub mod Starting
pub mod Markers
unfoldable pub use Defs.{
  recorded_of, record_message, new_snapshot_service, create_marker_message,
  send_marker_message_to_peers, start_recording, take_snapshot, initiate_snapshot, remaining_peers,
  first_marker, marker_step, record_incoming_messages,
}
pub use Defs.{Recorded, SnapshotService}
