-- ===== src/Lab1/Snapshot/Defs.antt =====
-- SnapshotService and IncomingChannelState of lab1/src/part2/snapshot.cpp. A recorded message is kept as
-- the message instead of the text that operator<< prints of it.
use cs7610_f.Prelude.{
  ℕ, zero, suc, ◌-◌, Bool, true, false, List, [], ◌∷◌, ◌++◌, String, String_discrete, Result, ok,
  throws, fatal, undefined, out_of_range, check, or_throw, ◌>>=◌, ◌>>◌, lookup, assign, contains,
  insert, erase, length, if◌then◌else◌, map,
}
use cs7610_f.Hosts.{parse_hostname_from_sender, other_hosts}
use cs7610_f.Lab1.Message.{
  MessageType, data_type, ack_type, seq_type, seq_ack_type, marker_type, unknown_type, type_code,
  DataMessage, AckMessage, SeqMessage, SeqAckMessage, MarkerMessage, Message,
}
use cs7610_f.Lab1.Serde.{
  get_message_type, deserialize_data_msg, deserialize_ack_message, deserialize_seq_message,
  deserialize_seq_ack_message, deserialize_marker_message, serialize_marker_message,
}
use cs7610_f.Lab1.Sender.{Packet}

pub data Recorded : Type 0 where
  data_recorded : DataMessage → Recorded
  ack_recorded : AckMessage → Recorded
  seq_recorded : SeqMessage → Recorded
  seq_ack_recorded : SeqAckMessage → Recorded
  -- The text on an unknown type, with the sender.
  error_recorded : MessageType → String → Recorded

-- The switch of recordMessage.
unfoldable pub recorded_as : MessageType → Message → Result Recorded
recorded_as data_type message = do m ← deserialize_data_msg message; ok (data_recorded m)
recorded_as ack_type message = do m ← deserialize_ack_message message; ok (ack_recorded m)
recorded_as seq_type message = do m ← deserialize_seq_message message; ok (seq_recorded m)
recorded_as seq_ack_type message = do
  m ← deserialize_seq_ack_message message
  ok (seq_ack_recorded m)
recorded_as marker_type message = ok (error_recorded marker_type message.sender)
recorded_as (unknown_type n) message = ok (error_recorded (unknown_type n) message.sender)

unfoldable pub recorded_of : Message → Result Recorded
unfolding get_message_type recorded_as
recorded_of message = do msg_type ← get_message_type message; recorded_as msg_type message

unfoldable pub record_message : Message → List Recorded → Result (List Recorded)
unfolding recorded_of
record_message message messages = do
  recorded ← recorded_of message
  ok (messages ++ (recorded ∷ []))

pub record SnapshotService : Type 0 where
  pub sender_id : ℕ
  pub all_peers : List String
  pub incoming_channels : List (String × List Recorded)
  pub local_state : String
  pub channels_to_be_recorded : List String
  pub snapshot_initiated : Bool

unfoldable pub new_snapshot_service : ℕ → List String → SnapshotService
new_snapshot_service sender_id peers = record {
  sender_id = sender_id;
  all_peers = peers;
  incoming_channels = [];
  local_state = "";
  channels_to_be_recorded = [];
  snapshot_initiated = false;
}

unfoldable pub create_marker_message : SnapshotService → MarkerMessage
unfolding type_code
create_marker_message s = record { type = type_code marker_type; sender = s.sender_id }

-- The clients connect with the default number of retries, so that the packets are sent once the peers
-- listen.
unfoldable pub send_marker_message_to_peers : SnapshotService → List Packet
unfolding create_marker_message serialize_marker_message
send_marker_message_to_peers s =
    map (λ peer. (peer, serialize_marker_message (create_marker_message s))) s.all_peers

-- The loop of takeSnapshot over the channels.
unfoldable pub start_recording : List String → SnapshotService → SnapshotService
unfolding insert assign
start_recording [] s = s
start_recording (channel ∷ channels) s = start_recording channels (record s {
  channels_to_be_recorded = insert String_discrete channel s.channels_to_be_recorded;
  incoming_channels = assign String_discrete channel [] s.incoming_channels;
})

-- `state` is what localStateGetter returns.
unfoldable pub take_snapshot :
    String → List String → SnapshotService → SnapshotService × List Packet
unfolding start_recording send_marker_message_to_peers
take_snapshot state channels s =
    let s' = start_recording channels (record s { local_state = state }) in
    (s', send_marker_message_to_peers s')

-- takeSnapshot()
unfoldable pub initiate_snapshot : String → SnapshotService → SnapshotService × List Packet
unfolding take_snapshot
initiate_snapshot state s = take_snapshot state s.all_peers (record s { snapshot_initiated = true })

-- The vector of one element less than all peers, into which all peers but the sender are copied: what
-- is not written is the empty string, and a write past its end is undefined.
unfoldable pub fill_peers : ℕ → List String → Result (List String)
fill_peers zero [] = ok []
fill_peers zero (peer ∷ peers) = throws undefined
fill_peers (suc n) [] = do rest ← fill_peers n []; ok ("" ∷ rest)
fill_peers (suc n) (peer ∷ peers) = do rest ← fill_peers n peers; ok (peer ∷ rest)

unfoldable pub remaining_peers : SnapshotService → String → Result (List String)
unfolding fill_peers other_hosts
remaining_peers s sender = fill_peers (length s.all_peers - 1) (other_hosts s.all_peers sender)

abbrev pub is_marker : MessageType → Bool
is_marker marker_type = true
is_marker _ = false

-- What a marker does if no snapshot was initiated before.
unfoldable pub first_marker :
    String → String → SnapshotService → Result (SnapshotService × List Packet)
unfolding remaining_peers take_snapshot
first_marker state sender s = do
  remaining ← remaining_peers s sender
  let (s', packets) = take_snapshot state remaining s
  ok (record s' { snapshot_initiated = true }, packets)

-- One of the threads of `start`, with the message that its connection receives: its bytes are what the
-- memory of the array that receive has left reads as.
unfoldable pub marker_step :
    String → Message → SnapshotService → Result (SnapshotService × List Packet)
unfolding parse_hostname_from_sender get_message_type deserialize_marker_message first_marker erase
marker_step state message s = do
  msg_type ← get_message_type message
  let sender = parse_hostname_from_sender message.sender
  check (is_marker msg_type) fatal
  _ ← deserialize_marker_message message
  (s', packets) ← (if s.snapshot_initiated then ok (s, []) else first_marker state sender s)
  ok (
    record s' { channels_to_be_recorded = erase String_discrete sender s'.channels_to_be_recorded },
    packets,
  )

unfoldable pub record_incoming_messages : Message → SnapshotService → Result SnapshotService
unfolding parse_hostname_from_sender contains lookup assign record_message
record_incoming_messages message s = do
  let sender = parse_hostname_from_sender message.sender
  let recording = do
    messages ← or_throw (lookup String_discrete sender s.incoming_channels) out_of_range
    messages' ← record_message message messages
    ok (record s {
      incoming_channels = assign String_discrete sender messages' s.incoming_channels;
    })
  if contains String_discrete sender s.channels_to_be_recorded then recording else ok s
