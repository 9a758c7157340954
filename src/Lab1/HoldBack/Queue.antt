-- ===== src/Lab1/HoldBack/Queue.antt =====
-- What addToQueue and markDeliverable do to the hold-back queue, on each branch.
use cs7610_f.Prelude.{
  ℕ, ◌≡◌, refl, sym, subst, Bool, true, false, List, [], ◌∷◌, ◌++◌, Perm, inl, inr, arith, All,
  contains, sort, IsSorted, sort-IsSorted, sort-perm, Bool-cases, contains-insert, if◌then◌else◌,
  ite,
}
use cs7610_f.Lab1.Message.{DataMessage, SeqMessage}
use cs7610_f.Lab1.HoldBack.Defs.{
  MsgIdentifier, MsgIdentifier-discrete, identifier, PendingMsg, new_pending, less, HoldBackQueue,
  add_to_queue, mark_first, split_deliverable, Marking, mark_deliverable,
}
use cs7610_f.Lab1.HoldBack.Order.{less-IsStrictWeakOrder}

abbrev pub is_pending : MsgIdentifier → HoldBackQueue → Bool
is_pending id q = contains MsgIdentifier-discrete id q.pending_msg_set

-- An entry that waits at the front is not deliverable.
abbrev pub IsBlocked : List PendingMsg → Type 0
IsBlocked [] = Unit
IsBlocked (p ∷ ps) = p.deliverable ≡ false

pub split_deliverable-append :
    (ps : List PendingMsg) → (split_deliverable ps).0 ++ (split_deliverable ps).1 ≡ ps
unfolding split_deliverable
split_deliverable-append [] = refl
split_deliverable-append (p ∷ ps) = ground (arith, split_deliverable-append ps)

pub split_deliverable-deliverable :
    (ps : List PendingMsg) → All (λ p. p.deliverable ≡ true) (split_deliverable ps).0
unfolding split_deliverable
split_deliverable-deliverable [] = tt
split_deliverable-deliverable (p ∷ ps) = elim (Bool-cases p.deliverable) [
  | inl e ↦ rw (e, split_deliverable) (refl, split_deliverable-deliverable ps)
  | inr e ↦ rw (e, split_deliverable) tt
]

split_deliverable-IsBlocked : (ps : List PendingMsg) → IsBlocked (split_deliverable ps).1
unfolding split_deliverable
split_deliverable-IsBlocked [] = tt
split_deliverable-IsBlocked (p ∷ ps) = elim (Bool-cases p.deliverable) [
  | inl e ↦ rw (e, split_deliverable) (split_deliverable-IsBlocked ps)
  | inr e ↦ rw (e, split_deliverable)
]

-- What one accepted sequence message does.
pub record Delivers (q : HoldBackQueue) (seq_msg : SeqMessage) (r : Marking) : Type 0 where
  -- Nothing is lost or made up: the entries are those of the queue, the named one finalised.
  pub conserved : Perm (r.delivered ++ r.queue.deque) (mark_first seq_msg q.deque).0
  pub only_deliverable : All (λ p. p.deliverable ≡ true) r.delivered
  -- What is delivered and what stays are in the order of operator<, one behind the other.
  pub in_order : IsSorted less (r.delivered ++ r.queue.deque)
  pub blocked : IsBlocked r.queue.deque

pub split_deliverable-IsSorted :
    (ps : List PendingMsg)
    → IsSorted less ((split_deliverable (sort less ps)).0 ++ (split_deliverable (sort less ps)).1)
split_deliverable-IsSorted ps =
    subst (IsSorted less) (sym (split_deliverable-append (sort less ps)))
      (sort-IsSorted less less-IsStrictWeakOrder ps)

-- markDeliverable on a pending message delivers, in the order of operator<, exactly the deliverable
-- entries at the front of the sorted queue, keeps all others, and leaves the front blocked.
pub mark_deliverable-Delivers :
    (q : HoldBackQueue) (seq_msg : SeqMessage)
    → is_pending (identifier seq_msg.msg_id seq_msg.sender) q ≡ true
    → Delivers q seq_msg (mark_deliverable q seq_msg)
unfolding mark_deliverable
mark_deliverable-Delivers q seq_msg h =
    let ps = (mark_first seq_msg q.deque).0 in
    rw (h, mark_deliverable)
      (record {
        conserved =
            subst (λ l. Perm l ps) (sym (split_deliverable-append (sort less ps)))
              (sort-perm less ps);
        only_deliverable = split_deliverable-deliverable (sort less ps);
        in_order = split_deliverable-IsSorted ps;
        blocked = split_deliverable-IsBlocked (sort less ps);
      })

-- On a message that is not pending it does nothing.
pub mark_deliverable_absent :
    (q : HoldBackQueue) (seq_msg : SeqMessage)
    → is_pending (identifier seq_msg.msg_id seq_msg.sender) q ≡ false
    → mark_deliverable q seq_msg ≡ record { queue = q; delivered = []; marked = false }
unfolding mark_deliverable
mark_deliverable_absent q seq_msg h = rw (h, mark_deliverable)

-- addToQueue answers whether the message is new, and afterwards the message is pending and every
-- other identifier is pending as before; the queue grows by an undeliverable entry, at the back,
-- exactly if the message is new.
pub add_to_queue_lem :
    (q : HoldBackQueue) (data_msg : DataMessage) (proposed_seq proposer : ℕ) (id : MsgIdentifier)
    → let this = identifier data_msg.msg_id data_msg.sender in
      let (q', added) = add_to_queue q data_msg proposed_seq proposer in
      ((if added then is_pending this q ≡ false else is_pending this q ≡ true)
        × (q'.deque ≡ (
            if added then q.deque ++ new_pending data_msg proposed_seq proposer ∷ [] else q.deque))
        × (is_pending id q' ≡ ite (MsgIdentifier-discrete this id) true (is_pending id q)))
unfolding add_to_queue
add_to_queue_lem q data_msg proposed_seq proposer id = ground (
  arith,
  contains-insert MsgIdentifier-discrete (identifier data_msg.msg_id data_msg.sender) id
      q.pending_msg_set,
)
