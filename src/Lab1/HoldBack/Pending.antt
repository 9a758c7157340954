-- ===== src/Lab1/HoldBack/Pending.antt =====
-- The set of pending identifiers, and what markDeliverable takes off it.
use cs7610_f.Prelude.{
  ℕ, ◌≡◌, ◌≢◌, refl, Bool, true, false, List, [], ◌∷◌, arith, if◌then◌else◌, ite, contains, erase,
  Distinct, contains-erase, erase-Distinct,
}
use cs7610_f.Lab1.Message.{DataMessage, SeqMessage}
use cs7610_f.Lab1.HoldBack.Defs.{
  MsgIdentifier, MsgIdentifier-discrete, identifier, PendingMsg, HoldBackQueue, add_to_queue,
  erase_each, Marking, mark_deliverable,
}
use cs7610_f.Lab1.HoldBack.Queue.{is_pending}

abbrev pub IsSetLike : HoldBackQueue → Type 0
IsSetLike q = Distinct MsgIdentifier-discrete q.pending_msg_set

abbrev pub is_nil : List PendingMsg → Bool
is_nil [] = true
is_nil (p ∷ ps) = false

erase_each-absent :
    (id j : MsgIdentifier) (ps : List PendingMsg) (set : List MsgIdentifier)
    → Distinct MsgIdentifier-discrete set
    → contains MsgIdentifier-discrete j (erase_each id ps set) ≡ (
        if is_nil ps
        then contains MsgIdentifier-discrete j set
        else ite (MsgIdentifier-discrete id j) false (contains MsgIdentifier-discrete j set))
unfolding erase_each
erase_each-absent id j [] set d = refl
erase_each-absent id j (p ∷ ps) set d = ground (
  arith,
  erase_each-absent id j ps (erase MsgIdentifier-discrete id set)
      (erase-Distinct MsgIdentifier-discrete id set d),
  contains-erase MsgIdentifier-discrete id j set d,
)

erase_each-Distinct :
    (id : MsgIdentifier) (ps : List PendingMsg) (set : List MsgIdentifier)
    → Distinct MsgIdentifier-discrete set
    → Distinct MsgIdentifier-discrete (erase_each id ps set)
unfolding erase_each
erase_each-Distinct id [] set d = d
erase_each-Distinct id (p ∷ ps) set d =
    erase_each-Distinct id ps _ (erase-Distinct MsgIdentifier-discrete id set d)

-- markDeliverable on a pending message takes that message's own identifier off the set, if it delivers
-- anything, and no other: neither the identifiers of the other messages that it delivers, nor none at
-- all where the message itself still waits.
pub is_pending-mark_deliverable :
    (q : HoldBackQueue) (m : SeqMessage) (j : MsgIdentifier)
    → IsSetLike q
    → is_pending (identifier m.msg_id m.sender) q ≡ true
    → let r = mark_deliverable q m in
      (is_pending j r.queue ≡ (
        if is_nil r.delivered
        then is_pending j q
        else ite (MsgIdentifier-discrete (identifier m.msg_id m.sender) j) false (is_pending j q)))
      × IsSetLike r.queue
unfolding mark_deliverable
is_pending-mark_deliverable q m j d h =
    rw (h, mark_deliverable)
      (erase_each-absent _ j _ q.pending_msg_set d, erase_each-Distinct _ _ q.pending_msg_set d)

add_to_queue_absent :
    (q : HoldBackQueue) (data_msg : DataMessage) (proposed_seq proposer : ℕ)
    → is_pending (identifier data_msg.msg_id data_msg.sender) q ≡ false
    → (add_to_queue q data_msg proposed_seq proposer).1 ≡ true
unfolding add_to_queue
add_to_queue_absent q data_msg proposed_seq proposer h = ground (arith, h)

same_identifier :
    (data_msg : DataMessage) (m : SeqMessage)
    → data_msg.msg_id ≡ m.msg_id
    → data_msg.sender ≡ m.sender
    → identifier data_msg.msg_id data_msg.sender ≡ identifier m.msg_id m.sender
same_identifier data_msg m e f = cc

is_nil-false : (ps : List PendingMsg) → ps ≢ [] → is_nil ps ≡ false
is_nil-false [] h = absurd (h refl)
is_nil-false (p ∷ ps) h = refl

-- So once markDeliverable has delivered anything, a late copy of the data message that it names is
-- taken as a new message, also where the message was delivered or is still in the queue.
pub late_copy_accepted :
    (q : HoldBackQueue) (m : SeqMessage) (data_msg : DataMessage) (proposed_seq proposer : ℕ)
    → IsSetLike q
    → is_pending (identifier m.msg_id m.sender) q ≡ true
    → (mark_deliverable q m).delivered ≢ []
    → data_msg.msg_id ≡ m.msg_id
    → data_msg.sender ≡ m.sender
    → (add_to_queue (mark_deliverable q m).queue data_msg proposed_seq proposer).1 ≡ true
late_copy_accepted q m data_msg proposed_seq proposer d h some_delivered e f =
    add_to_queue_absent r.queue data_msg proposed_seq proposer
      (rw (same_identifier data_msg m e f) gone)
  where
    r : Marking
    r = mark_deliverable q m

    id : MsgIdentifier
    id = identifier m.msg_id m.sender

    gone : is_pending id r.queue ≡ false
    gone =
        ground (
          arith,
          (is_pending-mark_deliverable q m id d h).0,
          is_nil-false r.delivered some_delivered,
        )
