-- ===== src/Lab1/HoldBack/Defs.antt =====
-- HoldBackQueue of lab1/src/part1/multicast.h and multicast.cpp: the definitions. The callback of a
-- delivery is the list of the messages that it is called with.
use cs7610_f.Prelude.{
  ℕ, Bool, true, false, ◌&&◌, List, [], ◌∷◌, ◌++◌, ltb, ◌==◌, if◌then◌else◌, ℕ_discrete, contains,
  insert, erase, sort,
}
use cs7610_f.Lab1.Message.{DataMessage, SeqMessage}

pub record MsgIdentifier : Type 0 where
  pub msg_id : ℕ
  pub sender : ℕ

unfoldable pub MsgIdentifier-discrete : Discrete MsgIdentifier
MsgIdentifier-discrete = hlevel ℕ_discrete

pub record PendingMsg : Type 0 where
  pub data_msg : DataMessage
  pub final_seq_id : ℕ
  pub final_seq_proposer : ℕ
  pub deliverable : Bool

-- The constructor.
unfoldable pub new_pending : DataMessage → ℕ → ℕ → PendingMsg
new_pending data_msg proposed_seq proposer = record {
  data_msg = data_msg;
  final_seq_id = proposed_seq;
  final_seq_proposer = proposer;
  deliverable = false;
}

-- operator== of two flags
unfoldable pub same_flag : Bool → Bool → Bool
same_flag true b = b
same_flag false true = false
same_flag false false = true

-- operator<
unfoldable pub less : PendingMsg → PendingMsg → Bool
unfolding same_flag
less p other =
    if p.final_seq_id == other.final_seq_id
    then (if same_flag p.deliverable other.deliverable
        then ltb p.final_seq_proposer other.final_seq_proposer
        else other.deliverable)
    else ltb p.final_seq_id other.final_seq_id

pub record HoldBackQueue : Type 0 where
  pub pending_msg_set : List MsgIdentifier
  pub deque : List PendingMsg

unfoldable pub identifier : ℕ → ℕ → MsgIdentifier
identifier msg_id sender = record { msg_id = msg_id; sender = sender }

unfoldable pub add_to_queue : HoldBackQueue → DataMessage → ℕ → ℕ → HoldBackQueue × Bool
unfolding identifier
add_to_queue q data_msg proposed_seq proposer =
    let id = identifier data_msg.msg_id data_msg.sender in
    if contains MsgIdentifier-discrete id q.pending_msg_set then (q, false) else (
      record {
        pending_msg_set = insert MsgIdentifier-discrete id q.pending_msg_set;
        deque = q.deque ++ new_pending data_msg proposed_seq proposer ∷ [];
      },
      true,
    )

unfoldable pub names : SeqMessage → PendingMsg → Bool
names seq_msg p = p.data_msg.msg_id == seq_msg.msg_id && p.data_msg.sender == seq_msg.sender

unfoldable pub finalise : SeqMessage → PendingMsg → PendingMsg
finalise seq_msg p = record p {
  final_seq_id = seq_msg.final_seq;
  final_seq_proposer = seq_msg.final_seq_proposer;
  deliverable = true;
}

-- The first loop of markDeliverable: the first entry that the message names, and whether there is
-- one.
unfoldable pub mark_first : SeqMessage → List PendingMsg → List PendingMsg × Bool
unfolding names finalise
mark_first seq_msg [] = ([], false)
mark_first seq_msg (p ∷ ps) =
    let rest = mark_first seq_msg ps in
    if names seq_msg p then (finalise seq_msg p ∷ ps, true) else (p ∷ rest.0, rest.1)

-- The second loop: what it delivers, and what it leaves.
unfoldable pub split_deliverable : List PendingMsg → List PendingMsg × List PendingMsg
split_deliverable [] = ([], [])
split_deliverable (p ∷ ps) =
    let rest = split_deliverable ps in if p.deliverable then (p ∷ rest.0, rest.1) else ([], p ∷ ps)

-- It erases the identifier of the sequence message once for each delivery.
unfoldable pub erase_each :
    MsgIdentifier → List PendingMsg → List MsgIdentifier → List MsgIdentifier
erase_each id [] set = set
erase_each id (p ∷ ps) set = erase_each id ps (erase MsgIdentifier-discrete id set)

pub record Marking : Type 0 where
  pub queue : HoldBackQueue
  -- The entries whose `data_msg` the callback gets, in order.
  pub delivered : List PendingMsg
  pub marked : Bool

unfoldable pub mark_deliverable : HoldBackQueue → SeqMessage → Marking
unfolding identifier
mark_deliverable q seq_msg =
    let id = identifier seq_msg.msg_id seq_msg.sender in
    let (deque, marked) = mark_first seq_msg q.deque in
    let (delivered, remaining) = split_deliverable (sort less deque) in
    if contains MsgIdentifier-discrete id q.pending_msg_set
    then record {
      queue = record {
        pending_msg_set = erase_each id delivered q.pending_msg_set;
        deque = remaining;
      };
      delivered = delivered;
      marked = marked;
    }
    else record { queue = q; delivered = []; marked = false }
