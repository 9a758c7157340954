-- ===== src/Lab1/Tests/Snapshots.antt =====
-- The snapshot at concrete inputs: the process gamma, with the peers alpha and beta.
use cs7610_f.Prelude.{
  ◌≡◌, refl, List, [], ◌∷◌, ◌++◌, String, String_discrete, true, some, Result, ok, throws, lookup,
  assign, contains, erase, first_word, read_word,
}
use cs7610_f.Hosts.{parse_hostname_from_sender}
use cs7610_f.Lab1.Message.{Message, cast_type}
use cs7610_f.Lab1.Serde.{get_message_type, deserialize_data_msg, deserialize_marker_message}
use cs7610_f.Lab1.Snapshot.{
  SnapshotService, recorded_of, record_message, new_snapshot_service, marker_step,
  record_incoming_messages,
}
use cs7610_f.Lab1.Snapshot.Events.{Event, incoming, marker, heard, run}
use cs7610_f.Lab1.Snapshot.Recording.{run-heard}
use cs7610_f.Lab1.Tests.Scene.{hosts}

abbrev gamma : SnapshotService
gamma = new_snapshot_service 3 hosts

abbrev data_from_beta : Message
data_from_beta = record {
  buffer = 0 ∷ 0 ∷ 0 ∷ 1 ∷ 0 ∷ 0 ∷ 0 ∷ 2 ∷ 0 ∷ 0 ∷ 0 ∷ 1 ∷ 0 ∷ 0 ∷ 0 ∷ 12 ∷ [];
  n = 16;
  sender = "beta.cs7610-bridge";
}

abbrev marker_from : String → Message
marker_from sender = record { buffer = 0 ∷ 0 ∷ 0 ∷ 5 ∷ 0 ∷ 0 ∷ 0 ∷ 1 ∷ []; n = 8; sender = sender }

-- Only the first of the messages comes before the marker.
abbrev events : List Event
events =
    incoming data_from_beta
    ∷ marker (marker_from "beta.cs7610-bridge")
    ∷ incoming data_from_beta
    ∷ []

abbrev recording : SnapshotService
recording = record gamma {
  incoming_channels = ("beta", []) ∷ [];
  channels_to_be_recorded = "beta" ∷ [];
  snapshot_initiated = true;
}

abbrev force : Result SnapshotService → SnapshotService
force (ok s) = s
force (throws error) = gamma

run-heard_example :
    lookup String_discrete "beta" (force (run "state" events recording)).incoming_channels
    ≡ some ([] ++ heard "beta" events)
unfolding new_snapshot_service contains String_discrete parse_hostname_from_sender get_message_type
    deserialize_marker_message deserialize_data_msg read_word first_word cast_type lookup run
    record_incoming_messages record_message recorded_of marker_step assign erase
run-heard_example =
    run-heard "beta" "state" true [] events recording (force (run "state" events recording))
      (refl, refl, (refl, tt), refl) refl
