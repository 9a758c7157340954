-- ===== src/Lab1/Multicast/Duplicates.antt =====
-- What a copy of a packet does that arrives after the original was processed.
use cs7610_f.Prelude.{
  ℕ, ◌+◌, ◌%◌, ◌≡◌, ◌>>=◌, true, false, none, some, [], Result, ok, throws, out_of_range, arith,
  lookup, assign, lookup-assign, lookup-remove,
}
use cs7610_f.Lab1.Message.{u32_mod, DataMessage, AckMessage, SeqMessage}
use cs7610_f.Lab1.Serde.{serialize_ack_message}
use cs7610_f.Lab1.HoldBack.{MsgIdentifier-discrete, HoldBackQueue, identifier, add_to_queue}
use cs7610_f.Lab1.HoldBack.Queue.{is_pending, add_to_queue_lem}
use cs7610_f.Lab1.Multicast.State.{MulticastService, Outcome, new_ack, send_to_id}
use cs7610_f.Lab1.Multicast.Defs.{process_data_msg, process_seq_msg}

add_to_queue_pending :
    (q : HoldBackQueue) (m : DataMessage) (proposed_seq proposer : ℕ)
    → is_pending (identifier m.msg_id m.sender) q ≡ true
    → add_to_queue q m proposed_seq proposer ≡ (q, false)
unfolding add_to_queue
add_to_queue_pending q m proposed_seq proposer h = rw h

-- A pending message for which no acknowledgement is cached.
pub process_data_msg_uncached :
    (s : MulticastService) (m : DataMessage)
    → is_pending (identifier m.msg_id m.sender) s.hold_back_queue ≡ true
    → lookup MsgIdentifier-discrete (identifier m.msg_id m.sender) s.ack_message_cache ≡ none
    → process_data_msg s m ≡ throws out_of_range
unfolding process_data_msg
process_data_msg_uncached s m h c = ground (
  arith,
  add_to_queue_pending s.hold_back_queue m ((s.latest_seq_id + 1) % u32_mod) s.sender_id h,
)

process_seq_msg-cache :
    (s : MulticastService) (m : SeqMessage) (o : Outcome)
    → process_seq_msg s m ≡ ok o
    → lookup MsgIdentifier-discrete (identifier m.msg_id m.sender) o.service.ack_message_cache
      ≡ none
unfolding process_seq_msg
process_seq_msg-cache s m o e = ground (
  arith,
  lookup-remove MsgIdentifier-discrete (identifier m.msg_id m.sender) (identifier m.msg_id m.sender)
      s.ack_message_cache,
)

-- processSeqMsg takes the acknowledgement out of the cache even where the message goes on waiting. A
-- copy of the data message that arrives then is taken for a retransmission, and `at` throws: the
-- process ends.
pub process_data_msg-process_seq_msg :
    (s : MulticastService) (m : SeqMessage) (copy : DataMessage) (o : Outcome)
    → process_seq_msg s m ≡ ok o
    → copy.msg_id ≡ m.msg_id
    → copy.sender ≡ m.sender
    → is_pending (identifier m.msg_id m.sender) o.service.hold_back_queue ≡ true
    → process_data_msg o.service copy ≡ throws out_of_range
process_data_msg-process_seq_msg s m copy o e p q h =
    process_data_msg_uncached o.service copy (rw (p, q) h)
      (rw (p, q) (process_seq_msg-cache s m o e))

-- The answer to a data message: the packet, if the maps know the sender.
unfoldable pub answered : MulticastService → ℕ → AckMessage → Result Outcome
unfolding send_to_id
answered s id ack = do
  sent ← send_to_id s id (serialize_ack_message ack)
  ok (record { service = s; sent = sent; delivered = [] })

pub answered-service :
    (s : MulticastService) (id : ℕ) (ack : AckMessage) (o : Outcome)
    → answered s id ack ≡ ok o
    → o.service ≡ s
unfolding answered
answered-service s id ack o e = ground arith

pub process_data_msg_cached :
    (s : MulticastService) (m : DataMessage) (ack : AckMessage)
    → is_pending (identifier m.msg_id m.sender) s.hold_back_queue ≡ true
    → lookup MsgIdentifier-discrete (identifier m.msg_id m.sender) s.ack_message_cache ≡ some ack
    → process_data_msg s m ≡ answered s m.sender ack
unfolding process_data_msg answered
process_data_msg_cached s m ack h c = ground (
  arith,
  add_to_queue_pending s.hold_back_queue m ((s.latest_seq_id + 1) % u32_mod) s.sender_id h,
)

-- The service after a new data message.
abbrev pub noted : MulticastService → DataMessage → MulticastService
noted s m =
    let next = (s.latest_seq_id + 1) % u32_mod in
    record s {
      latest_seq_id = next;
      hold_back_queue = (add_to_queue s.hold_back_queue m next s.sender_id).0;
      ack_message_cache =
          assign MsgIdentifier-discrete (identifier m.msg_id m.sender) (new_ack s m next)
            s.ack_message_cache;
    }

abbrev pub next_ack : MulticastService → DataMessage → AckMessage
next_ack s m = new_ack s m ((s.latest_seq_id + 1) % u32_mod)

pub lookup-noted :
    (s : MulticastService) (m : DataMessage)
    → lookup MsgIdentifier-discrete (identifier m.msg_id m.sender) (noted s m).ack_message_cache
      ≡ some (next_ack s m)
lookup-noted s m =
    let id = identifier m.msg_id m.sender in
    ground (arith, lookup-assign MsgIdentifier-discrete id id (next_ack s m) s.ack_message_cache)

pub process_data_msg_new :
    (s : MulticastService) (m : DataMessage)
    → is_pending (identifier m.msg_id m.sender) s.hold_back_queue ≡ false
    → process_data_msg s m ≡ answered (noted s m) m.sender (next_ack s m)
unfolding process_data_msg answered
process_data_msg_new s m h = ground (
  arith,
  lookup-noted s m,
  add_to_queue_lem s.hold_back_queue m ((s.latest_seq_id + 1) % u32_mod) s.sender_id
      (identifier m.msg_id m.sender),
)

pub noted-pending :
    (s : MulticastService) (m : DataMessage)
    → is_pending (identifier m.msg_id m.sender) (noted s m).hold_back_queue ≡ true
noted-pending s m =
    let id = identifier m.msg_id m.sender in
    ground
      (arith, add_to_queue_lem s.hold_back_queue m ((s.latest_seq_id + 1) % u32_mod) s.sender_id id)
