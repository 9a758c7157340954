-- ===== src/Lab2/FailureDetector/Listener.antt =====
-- lab2/src/failure_detector.cpp: the heartbeat that one process sends and another receives.
use cs7610_f.Prelude.{
  ℕ, ◌≡◌, List, ◌++◌, String, ok, throws, fatal, arith, IsWord, ◌==◌, if◌then◌else◌,
}
use cs7610_f.Hosts.{parse_hostname_from_sender}
use cs7610_f.Lab2.Message.{Message, heartbeat}
use cs7610_f.Lab2.Peers.{PeerInfo, get_peer_id}
use cs7610_f.Lab2.SerDe.{get_msg_type, deserialize_heart_beat_msg}
use cs7610_f.Lab2.FailureDetector.Defs.{
  FailureDetector, heart_beat_packet, heart_beat_listener_step, note_heart_beat,
}

abbrev pub arrival : List ℕ → List ℕ → String → Message
arrival bytes rest sender = record { buffer = bytes ++ rest; n = 8; sender = sender }

get_msg_type-heart_beat_packet :
    (from : PeerInfo) (rest : List ℕ) (sender : String)
    → get_msg_type (arrival (heart_beat_packet from) rest sender) ≡ ok heartbeat
unfolding get_msg_type heart_beat_packet
get_msg_type-heart_beat_packet from rest sender = ground arith

deserialize_heart_beat_msg-heart_beat_packet :
    (from : PeerInfo) (rest : List ℕ) (sender : String)
    → IsWord from.my_peer_id
    → deserialize_heart_beat_msg (arrival (heart_beat_packet from) rest sender)
      ≡ ok (record { msg_type = 5; peer_id = from.my_peer_id })
unfolding heart_beat_packet deserialize_heart_beat_msg
deserialize_heart_beat_msg-heart_beat_packet from rest sender w = ground arith

-- A heartbeat is counted for the peer that sent it if it comes from the host of that peer; from another
-- known host it ends the process.
pub heart_beat_listener_step-heart_beat_packet :
    (info from : PeerInfo) (d : FailureDetector) (rest : List ℕ) (sender : String) (i : ℕ)
    → IsWord from.my_peer_id
    → get_peer_id info (parse_hostname_from_sender sender) ≡ ok i
    → heart_beat_listener_step info d (arrival (heart_beat_packet from) rest sender)
      ≡ (if from.my_peer_id == i then ok (note_heart_beat i d) else throws fatal)
unfolding heart_beat_listener_step
heart_beat_listener_step-heart_beat_packet info from d rest sender i w h = ground (
  arith,
  get_msg_type-heart_beat_packet from rest sender,
  deserialize_heart_beat_msg-heart_beat_packet from rest sender w,
)
