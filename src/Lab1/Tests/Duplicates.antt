-- ===== src/Lab1/Tests/Duplicates.antt =====
-- Late copies and acknowledgements at concrete inputs.
use mathlib.Core.List.Perm
use cs7610_f.Prelude.{◌≡◌, refl, [], ◌∷◌, ok, throws, out_of_range}
use cs7610_f.Lab1.Message.{AckMessage, SeqMessage}
use cs7610_f.Lab1.Sender.{queue_msg}
use cs7610_f.Lab1.Sender.Outstanding.{outstanding}
use cs7610_f.Lab1.Multicast.{
  MulticastService, Outcome, process_data_msg, process_ack_msg, multicast, create_seq_message,
  proposals,
}
use cs7610_f.Lab1.Multicast.Delivery.{data_received, seq_received, ack_received}
use cs7610_f.Lab1.Multicast.Duplicates.{process_data_msg-process_seq_msg}
use cs7610_f.Lab1.Multicast.Repeats.{process_data_msg_again, at_once, and_then}
use cs7610_f.Lab1.Multicast.Acks.{process_ack_msg_fresh, with_proposal}
use cs7610_f.Lab1.Multicast.Agreed.{IsAgreed, create_seq_message-IsAgreed, create_seq_message-perm}
use cs7610_f.Lab1.Tests.Scene.{program, message_a, message_b, seq_a, alpha, after}

abbrev first : Outcome
first = after alpha (data_received message_a)

abbrev second : Outcome
second = after first.service (data_received message_b)

-- Message a arrives, then b, then a again.
process_data_msg_again_example :
    process_data_msg second.service message_a
    ≡ ok (record { service = second.service; sent = first.sent; delivered = [] })
unfolding program
process_data_msg_again_example =
    process_data_msg_again alpha second.service message_a first refl
      (and_then at_once (data_received message_b) second tt refl)

-- Message a waits behind b when its sequence message has come.
abbrev third : Outcome
third = after second.service (seq_received seq_a)

process_data_msg-process_seq_msg_example :
    process_data_msg third.service message_a ≡ throws out_of_range
unfolding program
process_data_msg-process_seq_msg_example =
    process_data_msg-process_seq_msg second.service seq_a message_a third refl refl refl refl

abbrev requested_one : MulticastService
requested_one = multicast alpha 11

abbrev ack_alpha : AckMessage
ack_alpha = record { type = 2; sender = 1; msg_id = 1; proposed_seq = 1; proposer = 1 }

abbrev ack_beta : AckMessage
ack_beta = record { type = 2; sender = 1; msg_id = 1; proposed_seq = 3; proposer = 2 }

abbrev one_ack : MulticastService
one_ack = (after requested_one (ack_received ack_alpha)).service

process_ack_msg_fresh_example :
    (m : SeqMessage) × (o : Outcome) × (process_ack_msg one_ack ack_beta ≡ ok o)
    × (m.msg_id ≡ 1)
    × IsAgreed (with_proposal one_ack ack_beta) m
    × (proposals o.service 1 ≡ with_proposal one_ack ack_beta)
    × (o.service.seq_msg_sender ≡ queue_msg one_ack.seq_msg_sender m)
unfolding program outstanding
process_ack_msg_fresh_example =
    process_ack_msg_fresh one_ack ack_beta "beta" 1 refl (refl, (refl, tt), tt, tt) refl

create_seq_message-IsAgreed_example :
    (m : SeqMessage) × (create_seq_message ack_beta ((1, 3) ∷ (2, 3) ∷ (3, 1) ∷ []) ≡ ok m)
    × (m.sender ≡ 1)
    × (m.msg_id ≡ 1)
    × IsAgreed ((1, 3) ∷ (2, 3) ∷ (3, 1) ∷ []) m
create_seq_message-IsAgreed_example =
    create_seq_message-IsAgreed ack_beta (1, 3) ((2, 3) ∷ (3, 1) ∷ [])

create_seq_message-perm_example :
    create_seq_message ack_beta ((2, 3) ∷ (1, 3) ∷ [])
    ≡ create_seq_message ack_beta ((1, 3) ∷ (2, 3) ∷ [])
create_seq_message-perm_example = create_seq_message-perm ack_beta _ _ (Perm.swap (1, 3) (2, 3) [])
