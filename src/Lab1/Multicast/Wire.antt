-- ===== src/Lab1/Multicast/Wire.antt =====
-- From a handler's message through the bytes of the packet to the handler that gets it.
use cs7610_f.Prelude.{ℕ, ◌≡◌, List, ◌++◌, String, false, Result, ok, arith}
use cs7610_f.Lab1.Message.{
  DataMessage, AckMessage, SeqMessage, SeqAckMessage, Message, data_type, ack_type, seq_type,
  seq_ack_type,
}
use cs7610_f.Lab1.Serde.{
  get_message_type, serialize_data_message, serialize_ack_message, serialize_seq_message,
  serialize_seq_ack_message,
}
use cs7610_f.Lab1.Serde.RoundTrip.{
  FitsDataMessage, FitsAckMessage, FitsSeqMessage, FitsSeqAckMessage,
  deserialize_data_msg-serialize_data_message, deserialize_ack_message-serialize_ack_message,
  deserialize_seq_message-serialize_seq_message,
  deserialize_seq_ack_message-serialize_seq_ack_message,
}
use cs7610_f.Lab1.Multicast.State.{MulticastService, Outcome}
use cs7610_f.Lab1.Multicast.Defs.{
  process_data_msg, process_ack_msg, process_seq_msg, process_seq_ack_msg, dispatch, receive,
}

-- The messages of the multicast.
pub data Incoming : Type 0 where
  data_in : DataMessage → Incoming
  ack_in : AckMessage → Incoming
  seq_in : SeqMessage → Incoming
  seq_ack_in : SeqAckMessage → Incoming

abbrev pub encode : Incoming → List ℕ
encode (data_in m) = serialize_data_message m
encode (ack_in m) = serialize_ack_message m
encode (seq_in m) = serialize_seq_message m
encode (seq_ack_in m) = serialize_seq_ack_message m

abbrev pub size : Incoming → ℕ
size (data_in m) = 16
size (ack_in m) = 20
size (seq_in m) = 20
size (seq_ack_in m) = 16

abbrev pub handle : MulticastService → Incoming → Result Outcome
handle s (data_in m) = process_data_msg s m
handle s (ack_in m) = process_ack_msg s m
handle s (seq_in m) = process_seq_msg s m
handle s (seq_ack_in m) = process_seq_ack_msg s m

-- The fields are 32-bit words, and the type is the one that belongs to the struct.
abbrev pub IsProper : Incoming → Type 0
IsProper (data_in m) = FitsDataMessage m × (m.type ≡ 1)
IsProper (ack_in m) = FitsAckMessage m × (m.type ≡ 2)
IsProper (seq_in m) = FitsSeqMessage m × (m.type ≡ 3)
IsProper (seq_ack_in m) = FitsSeqAckMessage m × (m.type ≡ 4)

abbrev pub packet : Incoming → List ℕ → String → Message
packet i rest sender = record { buffer = encode i ++ rest; n = size i; sender = sender }

get_message_type-packet :
    (i : Incoming) (rest : List ℕ) (sender : String)
    → IsProper i
    → get_message_type (packet i rest sender)
      ≡ ok (elim i [
        | data_in m ↦ data_type
        | ack_in m ↦ ack_type
        | seq_in m ↦ seq_type
        | seq_ack_in m ↦ seq_ack_type
      ])
unfolding get_message_type serialize_data_message serialize_ack_message serialize_seq_message
    serialize_seq_ack_message
get_message_type-packet (data_in m) rest sender (fits, t) = ground arith
get_message_type-packet (ack_in m) rest sender (fits, t) = ground arith
get_message_type-packet (seq_in m) rest sender (fits, t) = ground arith
get_message_type-packet (seq_ack_in m) rest sender (fits, t) = ground arith

-- A message that is serialized, and arrives with whatever bytes behind it in the receive buffer, goes to
-- the handler of its kind, as the message that it was.
pub receive-packet :
    (s : MulticastService) (i : Incoming) (rest : List ℕ) (sender : String)
    → IsProper i
    → receive s (packet i rest sender) false ≡ handle s i
unfolding receive dispatch
receive-packet s (data_in m) rest sender p = rw (
  get_message_type-packet (data_in m) rest sender p,
  deserialize_data_msg-serialize_data_message m rest sender p.0,
)
receive-packet s (ack_in m) rest sender p = rw (
  get_message_type-packet (ack_in m) rest sender p,
  deserialize_ack_message-serialize_ack_message m rest sender p.0,
)
receive-packet s (seq_in m) rest sender p = rw (
  get_message_type-packet (seq_in m) rest sender p,
  deserialize_seq_message-serialize_seq_message m rest sender p.0,
)
receive-packet s (seq_ack_in m) rest sender p = rw (
  get_message_type-packet (seq_ack_in m) rest sender p,
  deserialize_seq_ack_message-serialize_seq_ack_message m rest sender p.0,
)
