-- ===== src/Lab1/Multicast/State.antt =====
-- MulticastService of lab1/src/part1/multicast.h and multicast.cpp: the state, the messages that it
-- makes, and the choice of the agreed sequence number.
use cs7610_f.Prelude.{
  ℕ, ◌+◌, ◌%◌, Bool, List, [], ◌∷◌, Option, none, some, String, String_discrete, Result, ok,
  undefined, out_of_range, or_throw, check, ◌>>=◌, ◌>>◌, ltb, ◌==◌, if◌then◌else◌, contains,
  from_list, lookup, assign, ℕ_discrete,
}
use cs7610_f.Lab1.Message.{
  u32_mod, data_type, ack_type, seq_type, seq_ack_type, type_code, DataMessage, AckMessage,
  SeqMessage, SeqAckMessage,
}
use cs7610_f.Lab1.Serde.{serialize_data_message, serialize_seq_message}
use cs7610_f.Lab1.HoldBack.{
  MsgIdentifier, MsgIdentifier-discrete, identifier, PendingMsg, HoldBackQueue,
}
use cs7610_f.Lab1.Sender.{Packet, ContinuousMsgSender, new_sender, queue_msg}

pub record MulticastService : Type 0 where
  pub sender_id : ℕ
  pub recipients : List String
  pub recipient_id_map : List (ℕ × String)
  pub msg_id : ℕ
  pub latest_seq_id : ℕ
  pub proposed_seq_id_map : List (ℕ × List (ℕ × ℕ))
  pub hold_back_queue : HoldBackQueue
  pub data_msg_sender : ContinuousMsgSender DataMessage
  pub seq_msg_sender : ContinuousMsgSender SeqMessage
  pub ack_message_cache : List (MsgIdentifier × AckMessage)
  -- The keys of udpSenderMap.
  pub udp_sender_map : List String

-- The constructor.
unfoldable pub new_service : ℕ → List String → List (ℕ × String) → MulticastService
unfolding new_sender
new_service sender_id recipients recipient_id_map = record {
  sender_id = sender_id;
  recipients = recipients;
  recipient_id_map = recipient_id_map;
  msg_id = 0;
  latest_seq_id = 0;
  proposed_seq_id_map = [];
  hold_back_queue = record { pending_msg_set = []; deque = [] };
  data_msg_sender = new_sender 4000 recipients serialize_data_message;
  seq_msg_sender = new_sender 4000 recipients serialize_seq_message;
  ack_message_cache = [];
  udp_sender_map = from_list String_discrete recipients;
}

-- What a handler leaves: the state, the packets sent, and the entries that the callback got.
pub record Outcome : Type 0 where
  pub service : MulticastService
  pub sent : List Packet
  pub delivered : List PendingMsg

unfoldable pub create_data_message : MulticastService → ℕ → MulticastService × DataMessage
unfolding type_code
create_data_message s payload =
    let next_id = (s.msg_id + 1) % u32_mod in
    (
      record s { msg_id = next_id },
      record {
        type = type_code data_type;
        sender = s.sender_id;
        msg_id = next_id;
        payload = payload;
      },
    )

unfoldable pub multicast : MulticastService → ℕ → MulticastService
unfolding create_data_message
multicast s payload =
    let (s', message) = create_data_message s payload in
    record s' { data_msg_sender = queue_msg s'.data_msg_sender message }

unfoldable pub new_ack : MulticastService → DataMessage → ℕ → AckMessage
unfolding type_code
new_ack s data_msg proposed_seq = record {
  type = type_code ack_type;
  sender = data_msg.sender;
  msg_id = data_msg.msg_id;
  proposed_seq = proposed_seq;
  proposer = s.sender_id;
}

unfoldable pub create_or_get_ack_message :
    MulticastService → DataMessage → ℕ → Bool → Result (MulticastService × AckMessage)
unfolding new_ack identifier
create_or_get_ack_message s data_msg proposed_seq create_new = do
  let id = identifier data_msg.msg_id data_msg.sender
  let cache =
      if create_new
      then assign MsgIdentifier-discrete id (new_ack s data_msg proposed_seq) s.ack_message_cache
      else s.ack_message_cache
  ack ← or_throw (lookup MsgIdentifier-discrete id cache) out_of_range
  ok (record s { ack_message_cache = cache }, ack)

-- The comparison of two proposals, pairs of a proposer and its number.
unfoldable pub proposal_less : ℕ × ℕ → ℕ × ℕ → Bool
proposal_less (proposer, seq) (proposer', seq') =
    if seq == seq' then ltb proposer' proposer else ltb seq seq'

-- std::max_element, from its current candidate on.
unfoldable pub max_from : ℕ × ℕ → List (ℕ × ℕ) → ℕ × ℕ
max_from best [] = best
max_from best (p ∷ ps) = max_from (if proposal_less best p then p else best) ps

unfoldable pub max_element : List (ℕ × ℕ) → Option (ℕ × ℕ)
unfolding max_from
max_element [] = none
max_element (p ∷ ps) = some (max_from p ps)

-- The end iterator of an empty map is dereferenced.
unfoldable pub create_seq_message : AckMessage → List (ℕ × ℕ) → Result SeqMessage
unfolding max_element type_code
create_seq_message ack_msg proposed_seq_ids = do
  (proposer, seq) ← or_throw (max_element proposed_seq_ids) undefined
  ok (record {
    type = type_code seq_type;
    sender = ack_msg.sender;
    msg_id = ack_msg.msg_id;
    final_seq = seq;
    final_seq_proposer = proposer;
  })

unfoldable pub create_seq_ack_message : MulticastService → SeqMessage → SeqAckMessage
unfolding type_code
create_seq_ack_message s seq_msg = record {
  type = type_code seq_ack_type;
  sender = seq_msg.sender;
  msg_id = seq_msg.msg_id;
  ack_sender = s.sender_id;
}

-- udpSenderMap.at(recipientIdMap.at(id))->send(buffer, …)
unfoldable pub send_to_id : MulticastService → ℕ → List ℕ → Result (List Packet)
send_to_id s id bytes = do
  host ← or_throw (lookup ℕ_discrete id s.recipient_id_map) out_of_range
  check (contains String_discrete host s.udp_sender_map) out_of_range
  ok ((host, bytes) ∷ [])
