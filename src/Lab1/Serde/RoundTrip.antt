-- ===== src/Lab1/Serde/RoundTrip.antt =====
-- lab1/src/common/serde.cpp: what is written is read back, whatever follows it in the buffer.
use cs7610_f.Prelude.{ℕ, ◌≡◌, List, ◌++◌, String, ok, arith, IsWord}
use cs7610_f.Lab1.Message.{DataMessage, AckMessage, SeqMessage, SeqAckMessage, MarkerMessage}
use cs7610_f.Lab1.Serde.Defs.{
  serialize_data_message, deserialize_data_msg, serialize_ack_message, deserialize_ack_message,
  serialize_seq_message, deserialize_seq_message, serialize_seq_ack_message,
  deserialize_seq_ack_message, serialize_marker_message, deserialize_marker_message,
}

pub record FitsDataMessage (msg : DataMessage) : Type 0 where
  pub type : IsWord msg.type
  pub sender : IsWord msg.sender
  pub msg_id : IsWord msg.msg_id
  pub payload : IsWord msg.payload

-- A DataMessage of 32-bit fields that is serialized and received, with any bytes behind it in the buffer,
-- is deserialized to itself.
pub deserialize_data_msg-serialize_data_message :
    (msg : DataMessage) (rest : List ℕ) (sender : String)
    → FitsDataMessage msg
    → deserialize_data_msg
        (record { buffer = serialize_data_message msg ++ rest; n = 16; sender = sender })
      ≡ ok msg
unfolding deserialize_data_msg serialize_data_message
deserialize_data_msg-serialize_data_message msg rest sender fits = ground arith

pub record FitsAckMessage (msg : AckMessage) : Type 0 where
  pub type : IsWord msg.type
  pub sender : IsWord msg.sender
  pub msg_id : IsWord msg.msg_id
  pub proposed_seq : IsWord msg.proposed_seq
  pub proposer : IsWord msg.proposer

-- A AckMessage of 32-bit fields that is serialized and received, with any bytes behind it in the buffer,
-- is deserialized to itself.
pub deserialize_ack_message-serialize_ack_message :
    (msg : AckMessage) (rest : List ℕ) (sender : String)
    → FitsAckMessage msg
    → deserialize_ack_message
        (record { buffer = serialize_ack_message msg ++ rest; n = 20; sender = sender })
      ≡ ok msg
unfolding deserialize_ack_message serialize_ack_message
deserialize_ack_message-serialize_ack_message msg rest sender fits = ground arith

pub record FitsSeqMessage (msg : SeqMessage) : Type 0 where
  pub type : IsWord msg.type
  pub sender : IsWord msg.sender
  pub msg_id : IsWord msg.msg_id
  pub final_seq : IsWord msg.final_seq
  pub final_seq_proposer : IsWord msg.final_seq_proposer

-- A SeqMessage of 32-bit fields that is serialized and received, with any bytes behind it in the buffer,
-- is deserialized to itself.
pub deserialize_seq_message-serialize_seq_message :
    (msg : SeqMessage) (rest : List ℕ) (sender : String)
    → FitsSeqMessage msg
    → deserialize_seq_message
        (record { buffer = serialize_seq_message msg ++ rest; n = 20; sender = sender })
      ≡ ok msg
unfolding deserialize_seq_message serialize_seq_message
deserialize_seq_message-serialize_seq_message msg rest sender fits = ground arith

pub record FitsSeqAckMessage (msg : SeqAckMessage) : Type 0 where
  pub type : IsWord msg.type
  pub sender : IsWord msg.sender
  pub msg_id : IsWord msg.msg_id
  pub ack_sender : IsWord msg.ack_sender

-- A SeqAckMessage of 32-bit fields that is serialized and received, with any bytes behind it in the buffer,
-- is deserialized to itself.
pub deserialize_seq_ack_message-serialize_seq_ack_message :
    (msg : SeqAckMessage) (rest : List ℕ) (sender : String)
    → FitsSeqAckMessage msg
    → deserialize_seq_ack_message
        (record { buffer = serialize_seq_ack_message msg ++ rest; n = 16; sender = sender })
      ≡ ok msg
unfolding deserialize_seq_ack_message serialize_seq_ack_message
deserialize_seq_ack_message-serialize_seq_ack_message msg rest sender fits = ground arith

pub record FitsMarkerMessage (msg : MarkerMessage) : Type 0 where
  pub type : IsWord msg.type
  pub sender : IsWord msg.sender

-- A MarkerMessage of 32-bit fields that is serialized and received, with any bytes behind it in the buffer,
-- is deserialized to itself.
pub deserialize_marker_message-serialize_marker_message :
    (msg : MarkerMessage) (rest : List ℕ) (sender : String)
    → FitsMarkerMessage msg
    → deserialize_marker_message
        (record { buffer = serialize_marker_message msg ++ rest; n = 8; sender = sender })
      ≡ ok msg
unfolding deserialize_marker_message serialize_marker_message
deserialize_marker_message-serialize_marker_message msg rest sender fits = ground arith
