-- ===== src/Lab1/Snapshot/Markers.antt =====
-- lab1/src/part2/snapshot.cpp: what the first marker, or the initiator, starts to record.
use cs7610_f.Prelude.{
  ◌≡◌, ap, ◌∙◌, true, [], String, String_discrete, some, lookup, contains, erase, Distinct,
  if◌then◌else◌,
}
use cs7610_f.Hosts.{other_hosts}
use cs7610_f.Lab1.Message.{Message}
use cs7610_f.Lab1.Snapshot.Defs.{SnapshotService, start_recording, take_snapshot, initiate_snapshot}
use cs7610_f.Lab1.Snapshot.Events.{Holds}
use cs7610_f.Lab1.Snapshot.Starting.{
  contains-start_recording, lookup-start_recording, start_recording-keeps,
}

-- A process that initiates the snapshot records every channel from then on, starting with nothing.
pub initiate_snapshot-Holds :
    (state channel : String) (s : SnapshotService)
    → Distinct String_discrete s.channels_to_be_recorded
    → contains String_discrete channel s.all_peers ≡ true
    → Holds channel true [] (initiate_snapshot state s).0
unfolding initiate_snapshot take_snapshot
initiate_snapshot-Holds state channel s d c =
    let begun : SnapshotService = record s { snapshot_initiated = true; local_state = state } in
    let (distinct, initiated, peers, id) = start_recording-keeps s.all_peers begun d in
    (
      contains-start_recording channel s.all_peers begun
          ∙ ap (λ b. if b then true else contains String_discrete channel s.channels_to_be_recorded)
              c,
      lookup-start_recording channel s.all_peers begun
          ∙ ap (λ b. if b then some [] else lookup String_discrete channel s.incoming_channels) c,
      distinct,
      initiated,
    )

-- The state that the first marker leaves.
abbrev pub joined : String → String → SnapshotService → SnapshotService
joined state sender s =
    let s' = start_recording (other_hosts s.all_peers sender) (record s { local_state = state }) in
    record s' {
      snapshot_initiated = true;
      channels_to_be_recorded = erase String_discrete sender s'.channels_to_be_recorded;
    }
