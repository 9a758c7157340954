-- ===== src/Lab1/Printing.antt =====
-- The operators << of lab1/src/common/message.cpp and of lab1/src/part1/multicast.cpp, as the texts that
-- they write.
use Prim.Native.Char.{char}
use cs7610_f.Prelude.{
  List, [], ◌∷◌, Bool, true, false, String, Result, ok, throws, transport, concat, to_string,
}
use cs7610_f.Lab1.Message.{
  MessageType, data_type, ack_type, seq_type, seq_ack_type, marker_type, unknown_type, DataMessage,
  AckMessage, SeqMessage, SeqAckMessage, MarkerMessage,
}
use cs7610_f.Lab1.HoldBack.{MsgIdentifier, PendingMsg, HoldBackQueue}

abbrev pub newline : String
newline = String.◌∷◌ (char 10 tt) String.[]

unfoldable pub print_data_message : DataMessage → String
unfolding concat to_string
print_data_message m = concat (
    "type: "
    ∷ to_string m.type
    ∷ ", sender: "
    ∷ to_string m.sender
    ∷ ", msg_id: "
    ∷ to_string m.msg_id
    ∷ ", data: "
    ∷ to_string m.payload
    ∷ [])

unfoldable pub print_ack_message : AckMessage → String
unfolding concat to_string
print_ack_message m = concat (
    "type: "
    ∷ to_string m.type
    ∷ ", sender: "
    ∷ to_string m.sender
    ∷ ", msg_id: "
    ∷ to_string m.msg_id
    ∷ ", proposed_seq: "
    ∷ to_string m.proposed_seq
    ∷ ", proposer: "
    ∷ to_string m.proposer
    ∷ [])

unfoldable pub print_seq_message : SeqMessage → String
unfolding concat to_string
print_seq_message m = concat (
    "type: "
    ∷ to_string m.type
    ∷ ", sender: "
    ∷ to_string m.sender
    ∷ ", msg_id: "
    ∷ to_string m.msg_id
    ∷ ", final_seq: "
    ∷ to_string m.final_seq
    ∷ ", final_seq_proposer: "
    ∷ to_string m.final_seq_proposer
    ∷ [])

unfoldable pub print_seq_ack_message : SeqAckMessage → String
unfolding concat to_string
print_seq_ack_message m = concat (
    "type: "
    ∷ to_string m.type
    ∷ ", sender: "
    ∷ to_string m.sender
    ∷ ", msg_id: "
    ∷ to_string m.msg_id
    ∷ ", ack_sender: "
    ∷ to_string m.ack_sender
    ∷ [])

unfoldable pub print_marker_message : MarkerMessage → String
unfolding concat to_string
print_marker_message m =
    concat ("type: " ∷ to_string m.type ∷ ", sender: " ∷ to_string m.sender ∷ [])

unfoldable pub print_message_type : MessageType → Result String
print_message_type data_type = ok "DataMsg"
print_message_type ack_type = ok "AckMsg"
print_message_type seq_type = ok "SeqMsg"
print_message_type seq_ack_type = ok "SeqAckMsg"
print_message_type marker_type = ok "MarkerMsg"
print_message_type (unknown_type n) = throws transport

unfoldable pub print_msg_identifier : MsgIdentifier → String
unfolding concat to_string
print_msg_identifier id =
    concat ("msgId: " ∷ to_string id.msg_id ∷ ", sender: " ∷ to_string id.sender ∷ [])

-- A bool is written as a number.
abbrev flag_text : Bool → String
flag_text true = "1"
flag_text false = "0"

unfoldable pub print_pending_msg : PendingMsg → String
unfolding concat to_string
print_pending_msg p = concat (
    "msgId: "
    ∷ to_string p.data_msg.msg_id
    ∷ ", sender: "
    ∷ to_string p.data_msg.sender
    ∷ ", seqId: "
    ∷ to_string p.final_seq_id
    ∷ ", seqIdProposer: "
    ∷ to_string p.final_seq_proposer
    ∷ ", deliverable: "
    ∷ flag_text p.deliverable
    ∷ [])

-- Every element on a line of its own.
unfoldable pub lines_of : {A : Type 0} → (A → String) → List A → String
unfolding concat
lines_of print [] = String.[]
lines_of print (a ∷ rest) = concat (print a ∷ newline ∷ lines_of print rest ∷ [])

unfoldable pub print_deque : List PendingMsg → String
unfolding concat print_pending_msg lines_of
print_deque deque = concat (
    newline
    ∷ "============================= start of HoldBackQueue ============================="
    ∷ newline
    ∷ lines_of print_pending_msg deque
    ∷ newline
    ∷ "============================== end of HoldBackQueue =============================="
    ∷ newline
    ∷ [])

-- HoldBackQueue::getCurrentState
unfoldable pub queue_state : HoldBackQueue → String
unfolding print_deque
queue_state q = print_deque q.deque
