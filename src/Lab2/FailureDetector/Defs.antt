-- ===== src/Lab2/FailureDetector/Defs.antt =====
-- FailureDetector of lab2/src/failure_detector.cpp. Each turn of a thread's loop is one step. A callback
-- is the number under which it was added; a call of it is that number with the peer it is told of.
use cs7610_f.Prelude.{
  ℕ, zero, suc, List, [], ◌∷◌, ◌++◌, map, Option, none, some, String, Result, ok, fatal, check,
  ◌>>=◌, ◌>>◌, Bool, true, false, ◌==◌, if◌then◌else◌, assign, ℕ_discrete, set_insert,
}
use cs7610_f.Hosts.{parse_hostname_from_sender}
use cs7610_f.Lab2.Message.{MsgTypeEnum, heartbeat, msg_type_code, Message}
use cs7610_f.Lab2.SerDe.{get_msg_type, serialize_heart_beat_msg, deserialize_heart_beat_msg}
use cs7610_f.Lab2.Peers.{PeerInfo, get_peer_id}

-- peerHeartBeatMap in its iteration order. A count is an int that starts at 2 and is erased when it
-- would become negative.
pub record FailureDetector : Type 0 where
  pub heart_beat_port : ℕ
  pub on_failure_callbacks : List ℕ
  pub peer_heart_beat_map : List (ℕ × ℕ)

unfoldable pub new_detector : ℕ → FailureDetector
new_detector heart_beat_port = record {
  heart_beat_port = heart_beat_port;
  on_failure_callbacks = [];
  peer_heart_beat_map = [];
}

-- The hosts that `start` starts a heartbeat thread for.
unfoldable pub heart_beat_targets : PeerInfo → List String → Result (List String)
unfolding get_peer_id
heart_beat_targets info [] = ok []
heart_beat_targets info (hostname ∷ hostnames) = do
  peer_id ← get_peer_id info hostname
  rest ← heart_beat_targets info hostnames
  ok (if peer_id == info.my_peer_id then rest else hostname ∷ rest)

-- What a heartbeat thread sends in every round; a failure to send is caught.
unfoldable pub heart_beat_packet : PeerInfo → List ℕ
unfolding serialize_heart_beat_msg msg_type_code
heart_beat_packet info =
    serialize_heart_beat_msg
      (record { msg_type = msg_type_code heartbeat; peer_id = info.my_peer_id })

unfoldable pub note_heart_beat : ℕ → FailureDetector → FailureDetector
unfolding assign
note_heart_beat peer_id d = record d {
  peer_heart_beat_map = assign ℕ_discrete peer_id 2 d.peer_heart_beat_map;
}

abbrev pub is_heartbeat : MsgTypeEnum → Bool
is_heartbeat heartbeat = true
is_heartbeat _ = false

-- One packet received by the listener.
unfoldable pub heart_beat_listener_step :
    PeerInfo → FailureDetector → Message → Result FailureDetector
unfolding note_heart_beat get_msg_type deserialize_heart_beat_msg get_peer_id
    parse_hostname_from_sender
heart_beat_listener_step info d message = do
  msg_type_enum ← get_msg_type message
  check (is_heartbeat msg_type_enum) fatal
  let sender = parse_hostname_from_sender message.sender
  msg ← deserialize_heart_beat_msg message
  sender_peer_id ← get_peer_id info sender
  check (msg.peer_id == sender_peer_id) fatal
  ok (note_heart_beat msg.peer_id d)

-- The loop over the map, which ends at the first peer whose count is 0. Keys are distinct, so `erase`
-- takes away this entry.
unfoldable pub scan : List (ℕ × ℕ) → List (ℕ × ℕ) × Option ℕ
scan [] = ([], none)
scan ((peer_id, zero) ∷ m) = (m, some peer_id)
scan ((peer_id, suc count) ∷ m) = let (rest, crashed) = scan m in ((peer_id, count) ∷ rest, crashed)

-- The calls of all callbacks.
abbrev pub report : List ℕ → Option ℕ → List (ℕ × ℕ)
report callbacks none = []
report callbacks (some crashed) = map (λ callback. (callback, crashed)) callbacks

-- One turn of the detector thread.
unfoldable pub detector_step : FailureDetector → FailureDetector × List (ℕ × ℕ)
unfolding scan
detector_step d =
    let (m, crashed) = scan d.peer_heart_beat_map in
    (record d { peer_heart_beat_map = m }, report d.on_failure_callbacks crashed)

unfoldable pub insert_keys : List (ℕ × ℕ) → List ℕ → List ℕ
unfolding set_insert
insert_keys [] alive = alive
insert_keys ((peer_id, count) ∷ m) alive = insert_keys m (set_insert peer_id alive)

unfoldable pub get_alive_peers : FailureDetector → List ℕ
unfolding insert_keys
get_alive_peers d = insert_keys d.peer_heart_beat_map []

unfoldable pub add_peer_failure_callback : FailureDetector → ℕ → FailureDetector
add_peer_failure_callback d callback = record d {
  on_failure_callbacks = d.on_failure_callbacks ++ (callback ∷ []);
}
