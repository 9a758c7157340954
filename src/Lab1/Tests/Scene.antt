-- ===== src/Lab1/Tests/Scene.antt =====
-- Two processes and two messages: each process gets the other's message late.
use cs7610_f.Prelude.{
  ℕ, ◌≡◌, refl, List, [], ◌∷◌, true, Result, ok, throws, String, String_discrete, ℕ_discrete,
  contains, insert, erase, from_list, assign, remove, lookup, sort, sort_insert,
}
use cs7610_f.Lab1.Message.{DataMessage, SeqMessage, type_code}
use cs7610_f.Lab1.HoldBack.{
  MsgIdentifier-discrete, add_to_queue, mark_deliverable, mark_first, split_deliverable, erase_each,
  less, identifier, new_pending,
}
use cs7610_f.Lab1.Multicast.{
  MulticastService, Outcome, new_service, process_data_msg, process_seq_msg, process_ack_msg,
  process_seq_ack_msg, multicast,
}
use cs7610_f.Lab1.Multicast.Delivery.{Event, data_received, seq_received, step}
use cs7610_f.Lab1.Serde.{serialize_ack_message, serialize_seq_ack_message}
use cs7610_f.Lab1.Sender.{queue_msg, remove_recipient}

-- What a test by evaluation unfolds.
unfoldable pub program : Unit {0}
unfolding String_discrete ℕ_discrete contains insert erase from_list assign remove lookup sort
    sort_insert type_code MsgIdentifier-discrete add_to_queue mark_deliverable mark_first
    split_deliverable erase_each less identifier new_pending new_service process_data_msg
    process_seq_msg process_ack_msg process_seq_ack_msg multicast step serialize_ack_message
    serialize_seq_ack_message queue_msg remove_recipient
program = tt

abbrev pub hosts : List String
hosts = "alpha" ∷ "beta" ∷ []

abbrev pub ids : List (ℕ × String)
ids = (1, "alpha") ∷ (2, "beta") ∷ []

abbrev pub message_a : DataMessage
message_a = record { type = 1; sender = 1; msg_id = 1; payload = 11 }

abbrev pub message_b : DataMessage
message_b = record { type = 1; sender = 2; msg_id = 1; payload = 12 }

abbrev pub seq_a : SeqMessage
seq_a = record { type = 3; sender = 1; msg_id = 1; final_seq = 2; final_seq_proposer = 2 }

abbrev pub seq_b : SeqMessage
seq_b = record { type = 3; sender = 2; msg_id = 1; final_seq = 2; final_seq_proposer = 1 }

abbrev pub alpha : MulticastService
alpha = new_service 1 hosts ids

abbrev pub beta : MulticastService
beta = new_service 2 hosts ids

-- The outcome of a step that throws nothing.
abbrev pub force : MulticastService → Result Outcome → Outcome
force s (ok o) = o
force s (throws e) = record { service = s; sent = []; delivered = [] }

abbrev pub after : MulticastService → Event → Outcome
after s e = force s (step s e)

test_delivered :
    (after
      (after
        (after (after alpha (data_received message_a)).service (data_received message_b)).service
        (seq_received seq_a)).service
      (seq_received seq_b)).delivered
    ≡ record { data_msg = message_b; final_seq_id = 2; final_seq_proposer = 1; deliverable = true }
      ∷ record {
        data_msg = message_a;
        final_seq_id = 2;
        final_seq_proposer = 2;
        deliverable = true;
      }
      ∷ []
unfolding program
test_delivered = refl
