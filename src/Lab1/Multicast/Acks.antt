-- ===== src/Lab1/Multicast/Acks.antt =====
-- processAckMsg: the sender collects one proposal of each recipient, and then announces the agreed one.
use cs7610_f.Prelude.{
  ℕ, ◌≡◌, refl, sym, ap, subst, ◌∙◌, Bool, true, false, some, List, [], ◌∷◌, ok, arith,
  if◌then◌else◌, length, ◌==◌, lookup, assign, lookup-assign, contains, String, String_discrete,
  ℕ_discrete,
}
use cs7610_f.Lab1.Message.{DataMessage, AckMessage, SeqMessage}
use cs7610_f.Lab1.Sender.{queue_msg, remove_recipient}
use cs7610_f.Lab1.Sender.Outstanding.{
  outstanding, IsWell, remove_recipient-absent, remove_recipient_lem,
}
use cs7610_f.Lab1.Multicast.State.{MulticastService, Outcome, create_seq_message}
use cs7610_f.Lab1.Multicast.Defs.{proposals, process_ack_msg}
use cs7610_f.Lab1.Multicast.Agreed.{IsAgreed, create_seq_message-IsAgreed}

abbrev pub data_id : DataMessage → ℕ
data_id m = m.msg_id

abbrev pub awaits : MulticastService → ℕ → String → Bool
awaits s id host = contains String_discrete host (outstanding data_id s.data_msg_sender.msg_list id)

-- An acknowledgement of a recipient that its message does not wait for any more changes nothing.
pub process_ack_msg_duplicate :
    (s : MulticastService) (a : AckMessage) (host : String)
    → lookup ℕ_discrete a.proposer s.recipient_id_map ≡ some host
    → IsWell data_id s.data_msg_sender.msg_list
    → awaits s a.msg_id host ≡ false
    → process_ack_msg s a ≡ ok (record { service = s; sent = []; delivered = [] })
unfolding process_ack_msg
process_ack_msg_duplicate s a host e w n =
    ground (arith, remove_recipient-absent data_id s.data_msg_sender a.msg_id host w n)

abbrev pub with_proposal : MulticastService → AckMessage → List (ℕ × ℕ)
with_proposal s a = assign ℕ_discrete a.proposer a.proposed_seq (proposals s a.msg_id)

assign-cons :
    (k v : ℕ) (m : List (ℕ × ℕ))
    → (p : ℕ × ℕ) × (ps : List (ℕ × ℕ)) × (assign ℕ_discrete k v m ≡ p ∷ ps)
unfolding assign
assign-cons k v [] = (_, _, refl)
assign-cons k v ((j, w) ∷ m) = elim (ℕ_discrete j k) [
  | yes e ↦ ((j, v), m, ground arith)
  | no n ↦ ((j, w), assign ℕ_discrete k v m, ground arith)
]

with_proposal-IsAgreed :
    (s : MulticastService) (a : AckMessage)
    → (m : SeqMessage) × (create_seq_message a (with_proposal s a) ≡ ok m)
      × (m.sender ≡ a.sender)
      × (m.msg_id ≡ a.msg_id)
      × IsAgreed (with_proposal s a) m
with_proposal-IsAgreed s a =
    let (p, ps, e) = assign-cons a.proposer a.proposed_seq (proposals s a.msg_id) in
    let (m, made, sender, id, agreed) = create_seq_message-IsAgreed a p ps in
    (m, ap (create_seq_message a) e ∙ made, sender, id, subst (λ l. IsAgreed l m) (sym e) agreed)

-- The outcome of a proposal that counts.
abbrev collected : MulticastService → AckMessage → String → SeqMessage → Outcome
collected s a host m = record {
  service = record s {
    data_msg_sender = (remove_recipient data_id s.data_msg_sender a.msg_id host).0;
    proposed_seq_id_map = assign ℕ_discrete a.msg_id (with_proposal s a) s.proposed_seq_id_map;
    seq_msg_sender =
        if length (with_proposal s a) == length s.recipients
        then queue_msg s.seq_msg_sender m
        else s.seq_msg_sender;
  };
  sent = [];
  delivered = [];
}

-- An acknowledgement that the message waits for is recorded as a proposal of its sender for that
-- message and no other, and the agreed sequence message is queued exactly when this makes as many
-- proposals as there are recipients.
pub process_ack_msg_fresh :
    (s : MulticastService) (a : AckMessage) (host : String) (j : ℕ)
    → lookup ℕ_discrete a.proposer s.recipient_id_map ≡ some host
    → IsWell data_id s.data_msg_sender.msg_list
    → awaits s a.msg_id host ≡ true
    → (m : SeqMessage) × (o : Outcome) × (process_ack_msg s a ≡ ok o)
      × (m.msg_id ≡ a.msg_id)
      × IsAgreed (with_proposal s a) m
      × (proposals o.service j ≡ (if a.msg_id == j then with_proposal s a else proposals s j))
      × (o.service.seq_msg_sender ≡ (
          if length (with_proposal s a) == length s.recipients
          then queue_msg s.seq_msg_sender m
          else s.seq_msg_sender))
unfolding process_ack_msg
process_ack_msg_fresh s a host j e w n =
    let (m, made, sender, id, agreed) = with_proposal-IsAgreed s a in
    (
      m,
      collected s a host m,
      ground (arith, made, (remove_recipient_lem data_id s.data_msg_sender a.msg_id j host w).0),
      id,
      agreed,
      ground (arith, lookup-assign ℕ_discrete a.msg_id j (with_proposal s a) s.proposed_seq_id_map),
      refl,
    )
