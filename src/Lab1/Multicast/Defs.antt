-- ===== src/Lab1/Multicast/Defs.antt =====
-- MulticastService of lab1/src/part1/multicast.cpp: the handlers. Each runs on one thread and is one
-- step; what it sends and what it delivers are part of its result. The random choices, to drop a
-- message and to delay an answer, are arguments; a delay changes no state.
use cs7610_f.Prelude.{
  ℕ, ◌+◌, ◌%◌, max, Bool, List, [], none, some, Result, ok, throws, out_of_range, fatal, or_throw,
  ◌>>=◌, ◌==◌, if◌then◌else◌, lookup, assign, remove, ℕ_discrete, length,
}
use cs7610_f.Lab1.Message.{
  u32_mod, MessageType, data_type, ack_type, seq_type, seq_ack_type, marker_type, unknown_type,
  DataMessage, AckMessage, SeqMessage, SeqAckMessage, Message,
}
use cs7610_f.Lab1.Serde.{
  get_message_type, serialize_ack_message, serialize_seq_ack_message, deserialize_data_msg,
  deserialize_ack_message, deserialize_seq_message, deserialize_seq_ack_message,
}
use cs7610_f.Lab1.HoldBack.{MsgIdentifier-discrete, identifier, add_to_queue, mark_deliverable}
use cs7610_f.Lab1.Sender.{queue_msg, remove_recipient}
use cs7610_f.Lab1.Multicast.State.{
  MulticastService, Outcome, create_or_get_ack_message, create_seq_message, create_seq_ack_message,
  send_to_id,
}

unfoldable pub process_data_msg : MulticastService → DataMessage → Result Outcome
unfolding create_or_get_ack_message send_to_id
process_data_msg s data_msg = do
  let proposed_seq = (s.latest_seq_id + 1) % u32_mod
  let (queue, added) = add_to_queue s.hold_back_queue data_msg proposed_seq s.sender_id
  (s', ack_msg) ←
      create_or_get_ack_message (record s { hold_back_queue = queue }) data_msg proposed_seq added
  let latest = if added then (s.latest_seq_id + 1) % u32_mod else s.latest_seq_id
  sent ← send_to_id s' data_msg.sender (serialize_ack_message ack_msg)
  ok (record { service = record s' { latest_seq_id = latest }; sent = sent; delivered = [] })

-- proposedSeqIdMap[msg_id], which is made empty first if it is not there.
unfoldable pub proposals : MulticastService → ℕ → List (ℕ × ℕ)
proposals s msg_id = elim (lookup ℕ_discrete msg_id s.proposed_seq_id_map) [
  | none ↦ []
  | some m ↦ m
]

unfoldable pub record_proposal : MulticastService → AckMessage → Result MulticastService
unfolding proposals create_seq_message
record_proposal s ack_msg = do
  let proposed =
      assign ℕ_discrete ack_msg.proposer ack_msg.proposed_seq (proposals s ack_msg.msg_id)
  let s' = record s {
    proposed_seq_id_map = assign ℕ_discrete ack_msg.msg_id proposed s.proposed_seq_id_map;
  }
  if length proposed == length s.recipients
      then (do
        seq_msg ← create_seq_message ack_msg proposed
        ok (record s' { seq_msg_sender = queue_msg s'.seq_msg_sender seq_msg }))
      else ok s'

unfoldable pub process_ack_msg : MulticastService → AckMessage → Result Outcome
unfolding record_proposal
process_ack_msg s ack_msg = do
  host ← or_throw (lookup ℕ_discrete ack_msg.proposer s.recipient_id_map) out_of_range
  let (sender, removed) = remove_recipient (λ m. m.msg_id) s.data_msg_sender ack_msg.msg_id host
  let s' = record s { data_msg_sender = sender }
  s'' ← (if removed then record_proposal s' ack_msg else ok s')
  ok (record { service = s''; sent = []; delivered = [] })

unfoldable pub process_seq_msg : MulticastService → SeqMessage → Result Outcome
unfolding create_seq_ack_message send_to_id identifier
process_seq_msg s seq_msg = do
  let r = mark_deliverable s.hold_back_queue seq_msg
  let latest = if r.marked then max s.latest_seq_id seq_msg.final_seq else s.latest_seq_id
  let bytes = serialize_seq_ack_message (create_seq_ack_message s seq_msg)
  sent ← send_to_id s seq_msg.sender bytes
  let id = identifier seq_msg.msg_id seq_msg.sender
  ok (record {
    service = record s {
      hold_back_queue = r.queue;
      latest_seq_id = latest;
      ack_message_cache = remove MsgIdentifier-discrete id s.ack_message_cache;
    };
    sent = sent;
    delivered = r.delivered;
  })

unfoldable pub process_seq_ack_msg : MulticastService → SeqAckMessage → Result Outcome
process_seq_ack_msg s seq_ack_msg = do
  host ← or_throw (lookup ℕ_discrete seq_ack_msg.ack_sender s.recipient_id_map) out_of_range
  let (sender, removed) = remove_recipient (λ m. m.msg_id) s.seq_msg_sender seq_ack_msg.msg_id host
  ok (record { service = record s { seq_msg_sender = sender }; sent = []; delivered = [] })

-- The switch of startListeningForMessages.
unfoldable pub dispatch : MulticastService → MessageType → Message → Result Outcome
dispatch s data_type message = do m ← deserialize_data_msg message; process_data_msg s m
dispatch s ack_type message = do m ← deserialize_ack_message message; process_ack_msg s m
dispatch s seq_type message = do m ← deserialize_seq_message message; process_seq_msg s m
dispatch s seq_ack_type message = do
  m ← deserialize_seq_ack_message message
  process_seq_ack_msg s m
dispatch s marker_type message = throws fatal
dispatch s (unknown_type n) message = throws fatal

-- One round of startListeningForMessages; `dropped` is what dropMessage answers. The callback for
-- incoming messages belongs to the snapshot.
unfoldable pub receive : MulticastService → Message → Bool → Result Outcome
unfolding get_message_type dispatch
receive s message dropped = do
  message_type ← get_message_type message
  if dropped
      then ok (record { service = s; sent = []; delivered = [] })
      else dispatch s message_type message
