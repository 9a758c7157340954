-- ===== src/Lab1/Reports.antt =====
-- getCurrentState of lab1/src/part1/multicast.cpp, as texts. The name of a type is whatever
-- typeid(T).name() returns.
use cs7610_f.Prelude.{ℕ, List, [], ◌∷◌, String, concat, to_string}
use cs7610_f.Lab1.Sender.{MsgHolder, ContinuousMsgSender}
use cs7610_f.Lab1.Multicast.{MulticastService}
use cs7610_f.Lab1.Printing.{
  newline, lines_of, queue_state, print_data_message, print_ack_message, print_seq_message,
}

-- The holders of getCurrentState's loop.
unfoldable pub print_holders : {T : Type 0} → (T → String) → List (MsgHolder T) → String
unfolding concat lines_of
print_holders print [] = String.[]
print_holders print (holder ∷ holders) = concat (
    "Data: "
    ∷ print holder.org_msg
    ∷ newline
    ∷ "======================= start of the recipients ======================="
    ∷ newline
    ∷ lines_of (λ recipient. recipient) holder.recipients
    ∷ "======================= end of the recipients ======================="
    ∷ newline
    ∷ print_holders print holders
    ∷ [])

-- ContinuousMsgSender::getCurrentState
unfoldable pub sender_state : {T : Type 0} → String → (T → String) → ContinuousMsgSender T → String
unfolding concat print_holders
sender_state type_name print s = concat (
    newline
    ∷ "=================== start of the "
    ∷ type_name
    ∷ " ContinuousMsgSender ==================="
    ∷ newline
    ∷ newline
    ∷ "======================= start of the sending queue ======================="
    ∷ newline
    ∷ print_holders print s.msg_list
    ∷ newline
    ∷ "======================= end of the sending queue ======================="
    ∷ newline
    ∷ newline
    ∷ "==================== end of the "
    ∷ type_name
    ∷ " ContinuousMsgSender ===================="
    ∷ newline
    ∷ [])

unfoldable pub print_proposal : ℕ × ℕ → String
unfolding concat to_string
print_proposal (proposer, proposed) =
    concat (to_string proposer ∷ " proposes: " ∷ to_string proposed ∷ [])

unfoldable pub print_proposed : List (ℕ × List (ℕ × ℕ)) → String
unfolding concat to_string lines_of print_proposal
print_proposed [] = String.[]
print_proposed ((msg_id, proposals) ∷ later) = concat (
    newline
    ∷ "================== start of proposed Seq Id for MsdId: "
    ∷ to_string msg_id
    ∷ " =================="
    ∷ newline
    ∷ lines_of print_proposal proposals
    ∷ newline
    ∷ "=================== End of proposed Seq Id for MsdId: "
    ∷ to_string msg_id
    ∷ " ==================="
    ∷ newline
    ∷ print_proposed later
    ∷ [])

-- MulticastService::getCurrentState, with the texts of the delay and of the drop rate, and the names of
-- the two message types.
unfoldable pub get_current_state : String → String → String → String → MulticastService → String
unfolding concat to_string print_proposed sender_state queue_state lines_of print_ack_message
    print_data_message print_seq_message
get_current_state delay drop_rate data_name seq_name s = concat (
    newline
    ∷ "================================= start of MutlicastService state ================================="
    ∷ newline
    ∷ "senderId: "
    ∷ to_string s.sender_id
    ∷ newline
    ∷ "messageDelay: "
    ∷ delay
    ∷ "ms"
    ∷ newline
    ∷ "dropRate: "
    ∷ drop_rate
    ∷ newline
    ∷ "currentMsgId: "
    ∷ to_string s.msg_id
    ∷ newline
    ∷ "currSeqId: "
    ∷ to_string s.latest_seq_id
    ∷ newline
    ∷ print_proposed s.proposed_seq_id_map
    ∷ sender_state data_name print_data_message s.data_msg_sender
    ∷ newline
    ∷ sender_state seq_name print_seq_message s.seq_msg_sender
    ∷ newline
    ∷ queue_state s.hold_back_queue
    ∷ newline
    ∷ newline
    ∷ "============================== start of ack message cache =============================="
    ∷ newline
    ∷ lines_of (λ entry. print_ack_message entry.1) s.ack_message_cache
    ∷ newline
    ∷ "============================== end of ack message cache =============================="
    ∷ newline
    ∷ newline
    ∷ "================================= end of MutlicastService state ================================="
    ∷ newline
    ∷ [])
