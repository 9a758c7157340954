-- ===== src/Lab2/SerDe/RoundTrip.antt =====
-- lab2/src/serde.cpp: what is written is read back, whatever follows it in the buffer.
use cs7610_f.Prelude.{ℕ, ◌≡◌, List, ◌++◌, String, ok, arith, IsWord}
use cs7610_f.Lab2.Message.{RequestMsg, OkMsg, NewLeaderMsg, HeartBeatMsg}
use cs7610_f.Lab2.SerDe.Defs.{
  serialize_request_msg, deserialize_request_msg, serialize_ok_msg, deserialize_ok_msg,
  serialize_heart_beat_msg, deserialize_heart_beat_msg, serialize_new_leader_msg,
  deserialize_new_leader_msg,
}

pub record FitsRequestMsg (msg : RequestMsg) : Type 0 where
  pub msg_type : IsWord msg.msg_type
  pub request_id : IsWord msg.request_id
  pub current_view_id : IsWord msg.current_view_id
  pub operation_type : IsWord msg.operation_type
  pub peer_id : IsWord msg.peer_id

-- A RequestMsg of 32-bit fields that is serialized and received is deserialized to itself.
pub deserialize_request_msg-serialize_request_msg :
    (msg : RequestMsg) (rest : List ℕ) (sender : String)
    → FitsRequestMsg msg
    → deserialize_request_msg
        (record { buffer = serialize_request_msg msg ++ rest; n = 20; sender = sender })
      ≡ ok msg
unfolding deserialize_request_msg serialize_request_msg
deserialize_request_msg-serialize_request_msg msg rest sender fits = ground arith

pub record FitsOkMsg (msg : OkMsg) : Type 0 where
  pub msg_type : IsWord msg.msg_type
  pub request_id : IsWord msg.request_id
  pub current_view_id : IsWord msg.current_view_id

-- A OkMsg of 32-bit fields that is serialized and received is deserialized to itself.
pub deserialize_ok_msg-serialize_ok_msg :
    (msg : OkMsg) (rest : List ℕ) (sender : String)
    → FitsOkMsg msg
    → deserialize_ok_msg (record { buffer = serialize_ok_msg msg ++ rest; n = 12; sender = sender })
      ≡ ok msg
unfolding deserialize_ok_msg serialize_ok_msg
deserialize_ok_msg-serialize_ok_msg msg rest sender fits = ground arith

pub record FitsHeartBeatMsg (msg : HeartBeatMsg) : Type 0 where
  pub msg_type : IsWord msg.msg_type
  pub peer_id : IsWord msg.peer_id

-- A HeartBeatMsg of 32-bit fields that is serialized and received is deserialized to itself.
pub deserialize_heart_beat_msg-serialize_heart_beat_msg :
    (msg : HeartBeatMsg) (rest : List ℕ) (sender : String)
    → FitsHeartBeatMsg msg
    → deserialize_heart_beat_msg
        (record { buffer = serialize_heart_beat_msg msg ++ rest; n = 8; sender = sender })
      ≡ ok msg
unfolding deserialize_heart_beat_msg serialize_heart_beat_msg
deserialize_heart_beat_msg-serialize_heart_beat_msg msg rest sender fits = ground arith

pub record FitsNewLeaderMsg (msg : NewLeaderMsg) : Type 0 where
  pub msg_type : IsWord msg.msg_type
  pub request_id : IsWord msg.request_id
  pub current_view_id : IsWord msg.current_view_id
  pub operation_type : IsWord msg.operation_type

-- A NewLeaderMsg of 32-bit fields that is serialized and received is deserialized to itself.
pub deserialize_new_leader_msg-serialize_new_leader_msg :
    (msg : NewLeaderMsg) (rest : List ℕ) (sender : String)
    → FitsNewLeaderMsg msg
    → deserialize_new_leader_msg
        (record { buffer = serialize_new_leader_msg msg ++ rest; n = 16; sender = sender })
      ≡ ok msg
unfolding deserialize_new_leader_msg serialize_new_leader_msg
deserialize_new_leader_msg-serialize_new_leader_msg msg rest sender fits = ground arith
