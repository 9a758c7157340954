-- ===== src/Lab1/Message.antt =====
-- lab1/src/common/message.h and the Message class of lab1/src/common/network_utils.h: the packets of
-- the multicast and of the snapshot. A uint32_t is a number below 2 ^ 32. `payload` is the field that
-- the source names `data`.
use cs7610_f.Prelude.{ℕ, ◌^◌, List, String, ◌==◌, if◌then◌else◌}

abbrev pub u32_mod : ℕ
u32_mod = 2 ^ 32

pub data MessageType : Type 0 where
  data_type ack_type seq_type seq_ack_type marker_type : MessageType
  -- A number that names no enumerator.
  unknown_type : ℕ → MessageType

unfoldable pub type_code : MessageType → ℕ
type_code data_type = 1
type_code ack_type = 2
type_code seq_type = 3
type_code seq_ack_type = 4
type_code marker_type = 5
type_code (unknown_type n) = n

-- static_cast<MessageType>(n)
unfoldable pub cast_type : ℕ → MessageType
cast_type n =
    if n == 1
    then data_type
    else if n == 2
    then ack_type
    else if n == 3
    then seq_type
    else if n == 4
    then seq_ack_type
    else if n == 5
    then marker_type
    else unknown_type n

pub record DataMessage : Type 0 where
  pub type : ℕ
  pub sender : ℕ
  pub msg_id : ℕ
  pub payload : ℕ

pub record AckMessage : Type 0 where
  pub type : ℕ
  pub sender : ℕ
  pub msg_id : ℕ
  pub proposed_seq : ℕ
  pub proposer : ℕ

pub record SeqMessage : Type 0 where
  pub type : ℕ
  pub sender : ℕ
  pub msg_id : ℕ
  pub final_seq : ℕ
  pub final_seq_proposer : ℕ

pub record SeqAckMessage : Type 0 where
  pub type : ℕ
  pub sender : ℕ
  pub msg_id : ℕ
  pub ack_sender : ℕ

pub record MarkerMessage : Type 0 where
  pub type : ℕ
  pub sender : ℕ

-- A packet: the receive buffer, how many of its bytes were received, and the host it came from.
pub record Message : Type 0 where
  pub buffer : List ℕ
  pub n : ℕ
  pub sender : String
