-- ===== src/Lab1/Serde/Defs.antt =====
-- lab1/src/common/serde.cpp: the functions.
use cs7610_f.Prelude.{
  ℕ, List, [], ◌∷◌, Result, ok, fatal, check, ◌>>=◌, ◌>>◌, ltb, ◌==◌, read_word, store_words,
}
use cs7610_f.Lab1.Message.{
  MessageType, cast_type, DataMessage, AckMessage, SeqMessage, SeqAckMessage, MarkerMessage,
  Message,
}

-- Only n > 0 is checked before four bytes are read.
unfoldable pub get_message_type : Message → Result MessageType
unfolding read_word cast_type
get_message_type message = do
  check (ltb 0 message.n) fatal
  word ← read_word message.buffer 0
  ok (cast_type word)

unfoldable pub serialize_data_message : DataMessage → List ℕ
unfolding store_words
serialize_data_message msg = store_words (msg.type ∷ msg.sender ∷ msg.msg_id ∷ msg.payload ∷ [])

unfoldable pub deserialize_data_msg : Message → Result DataMessage
unfolding read_word
deserialize_data_msg message = do
  check (message.n == 16) fatal
  type ← read_word message.buffer 0
  sender ← read_word message.buffer 1
  msg_id ← read_word message.buffer 2
  payload ← read_word message.buffer 3
  ok (record { type = type; sender = sender; msg_id = msg_id; payload = payload })

unfoldable pub serialize_ack_message : AckMessage → List ℕ
unfolding store_words
serialize_ack_message msg =
    store_words (msg.type ∷ msg.sender ∷ msg.msg_id ∷ msg.proposed_seq ∷ msg.proposer ∷ [])

unfoldable pub deserialize_ack_message : Message → Result AckMessage
unfolding read_word
deserialize_ack_message message = do
  check (message.n == 20) fatal
  type ← read_word message.buffer 0
  sender ← read_word message.buffer 1
  msg_id ← read_word message.buffer 2
  proposed_seq ← read_word message.buffer 3
  proposer ← read_word message.buffer 4
  ok (record {
    type = type;
    sender = sender;
    msg_id = msg_id;
    proposed_seq = proposed_seq;
    proposer = proposer;
  })

unfoldable pub serialize_seq_message : SeqMessage → List ℕ
unfolding store_words
serialize_seq_message msg =
    store_words (msg.type ∷ msg.sender ∷ msg.msg_id ∷ msg.final_seq ∷ msg.final_seq_proposer ∷ [])

unfoldable pub deserialize_seq_message : Message → Result SeqMessage
unfolding read_word
deserialize_seq_message message = do
  check (message.n == 20) fatal
  type ← read_word message.buffer 0
  sender ← read_word message.buffer 1
  msg_id ← read_word message.buffer 2
  final_seq ← read_word message.buffer 3
  final_seq_proposer ← read_word message.buffer 4
  ok (record {
    type = type;
    sender = sender;
    msg_id = msg_id;
    final_seq = final_seq;
    final_seq_proposer = final_seq_proposer;
  })

unfoldable pub serialize_seq_ack_message : SeqAckMessage → List ℕ
unfolding store_words
serialize_seq_ack_message msg =
    store_words (msg.type ∷ msg.sender ∷ msg.msg_id ∷ msg.ack_sender ∷ [])

unfoldable pub deserialize_seq_ack_message : Message → Result SeqAckMessage
unfolding read_word
deserialize_seq_ack_message message = do
  check (message.n == 16) fatal
  type ← read_word message.buffer 0
  sender ← read_word message.buffer 1
  msg_id ← read_word message.buffer 2
  ack_sender ← read_word message.buffer 3
  ok (record { type = type; sender = sender; msg_id = msg_id; ack_sender = ack_sender })

unfoldable pub serialize_marker_message : MarkerMessage → List ℕ
unfolding store_words
serialize_marker_message msg = store_words (msg.type ∷ msg.sender ∷ [])

unfoldable pub deserialize_marker_message : Message → Result MarkerMessage
unfolding read_word
deserialize_marker_message message = do
  check (message.n == 8) fatal
  type ← read_word message.buffer 0
  sender ← read_word message.buffer 1
  ok (record { type = type; sender = sender })
