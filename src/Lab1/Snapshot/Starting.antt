-- ===== src/Lab1/Snapshot/Starting.antt =====
-- lab1/src/part2/snapshot.cpp: the loop of takeSnapshot over the channels.
use cs7610_f.Prelude.{
  ◌≡◌, refl, true, List, [], ◌∷◌, String, String_discrete, some, arith, lookup, assign,
  lookup-assign, contains, contains-insert, insert, Distinct, insert-Distinct, if◌then◌else◌,
}
use cs7610_f.Lab1.Snapshot.Defs.{SnapshotService, start_recording}

-- One turn of the loop of takeSnapshot.
abbrev started : String → SnapshotService → SnapshotService
unfolding insert assign
started channel s = record s {
  channels_to_be_recorded = insert String_discrete channel s.channels_to_be_recorded;
  incoming_channels = assign String_discrete channel [] s.incoming_channels;
}

pub contains-start_recording :
    (k : String) (channels : List String) (s : SnapshotService)
    → contains String_discrete k (start_recording channels s).channels_to_be_recorded ≡ (
        if contains String_discrete k channels
        then true
        else contains String_discrete k s.channels_to_be_recorded)
unfolding start_recording contains started
contains-start_recording k [] s = refl
contains-start_recording k (channel ∷ channels) s = ground (
  arith,
  contains-start_recording k channels (started channel s),
  contains-insert String_discrete channel k s.channels_to_be_recorded,
)

pub lookup-start_recording :
    (k : String) (channels : List String) (s : SnapshotService)
    → lookup String_discrete k (start_recording channels s).incoming_channels ≡ (
        if contains String_discrete k channels
        then some []
        else lookup String_discrete k s.incoming_channels)
unfolding start_recording contains started
lookup-start_recording k [] s = refl
lookup-start_recording k (channel ∷ channels) s = ground (
  arith,
  lookup-start_recording k channels (started channel s),
  lookup-assign String_discrete channel k [] s.incoming_channels,
)

-- The loop leaves the rest of the state alone.
pub start_recording-keeps :
    (channels : List String) (s : SnapshotService)
    → Distinct String_discrete s.channels_to_be_recorded
    → Distinct String_discrete (start_recording channels s).channels_to_be_recorded
      × ((start_recording channels s).snapshot_initiated ≡ s.snapshot_initiated)
      × ((start_recording channels s).all_peers ≡ s.all_peers)
      × ((start_recording channels s).sender_id ≡ s.sender_id)
unfolding start_recording started
start_recording-keeps [] s d = (d, refl, refl, refl)
start_recording-keeps (channel ∷ channels) s d =
    start_recording-keeps channels (started channel s)
      (insert-Distinct String_discrete channel s.channels_to_be_recorded d)
