-- ===== src/Lab1/Multicast/Delivery.antt =====
-- Total order: what one process delivers, over any sequence of handler calls, and what two processes
-- deliver.
use mathlib.Core.List.{append-nil}
use cs7610_f.Prelude.{
  ◌∙◌, ℕ, ◌+◌, ◌%◌, ◌^◌, ◌<◌, ◌≡◌, sym, ap, subst, List, [], ◌++◌, Perm, Result, ok, arith, All,
  if◌then◌else◌, Distinguishes, IsSorted-unique, String,
}
use cs7610_f.Lab1.Message.{u32_mod, DataMessage, AckMessage, SeqMessage, SeqAckMessage}
use cs7610_f.Lab1.HoldBack.{PendingMsg, less, add_to_queue, mark_deliverable}
use cs7610_f.Lab1.HoldBack.Order.{less-IsStrictWeakOrder}
use cs7610_f.Lab1.HoldBack.Ordering.{
  Ordered, Respects, seen_after, add_to_queue-Ordered, mark_deliverable-Ordered,
}
use cs7610_f.Lab1.Multicast.State.{MulticastService, Outcome, new_service, multicast}
use cs7610_f.Lab1.Multicast.Defs.{
  process_data_msg, process_ack_msg, process_seq_msg, process_seq_ack_msg, record_proposal,
}

-- The calls that the threads make on one service.
pub data Event : Type 0 where
  requested : ℕ → Event
  data_received : DataMessage → Event
  ack_received : AckMessage → Event
  seq_received : SeqMessage → Event
  seq_ack_received : SeqAckMessage → Event

unfoldable pub step : MulticastService → Event → Result Outcome
step s (requested payload) =
    ok (record { service = multicast s payload; sent = []; delivered = [] })
step s (data_received m) = process_data_msg s m
step s (ack_received m) = process_ack_msg s m
step s (seq_received m) = process_seq_msg s m
step s (seq_ack_received m) = process_seq_ack_msg s m

-- What is asked of the environment: sequence numbers do not run out, and a sequence message respects
-- the proposal that this process made.
abbrev pub Honors : MulticastService → Event → Type 0
Honors s (data_received m) = s.latest_seq_id + 1 < 2 ^ 32
Honors s (seq_received m) = All (Respects m) s.hold_back_queue.deque
Honors s e = Unit

-- The service t is reached from s by calls that end without an exception, and `log` is all that was
-- delivered on the way, in order.
pub data Run (s : MulticastService) : List PendingMsg → MulticastService → Type 0 where
  start : Run s [] s
  later :
      {log : List PendingMsg} {t : MulticastService}
      → Run s log t
      → (e : Event) (o : Outcome) → Honors t e
      → step t e ≡ ok o
      → Run s (log ++ o.delivered) o.service

abbrev pub InOrder : List PendingMsg → MulticastService → Type 0
InOrder log s = Ordered log s.hold_back_queue.deque s.latest_seq_id

process_data_msg-parts :
    (s : MulticastService) (m : DataMessage) (o : Outcome)
    → process_data_msg s m ≡ ok o
    → let next = (s.latest_seq_id + 1) % u32_mod in
      let (queue, added) = add_to_queue s.hold_back_queue m next s.sender_id in
      (o.service.hold_back_queue ≡ queue)
      × (o.service.latest_seq_id ≡ (if added then next else s.latest_seq_id))
      × (o.delivered ≡ [])
unfolding process_data_msg
process_data_msg-parts s m o e = ground arith

process_seq_msg-parts :
    (s : MulticastService) (m : SeqMessage) (o : Outcome)
    → process_seq_msg s m ≡ ok o
    → let r = mark_deliverable s.hold_back_queue m in
      (o.service.hold_back_queue ≡ r.queue)
      × (o.service.latest_seq_id ≡ seen_after s.latest_seq_id m r.marked)
      × (o.delivered ≡ r.delivered)
unfolding process_seq_msg
process_seq_msg-parts s m o e = ground arith

record_proposal-parts :
    (s s' : MulticastService) (m : AckMessage)
    → record_proposal s m ≡ ok s'
    → (s'.hold_back_queue ≡ s.hold_back_queue) × (s'.latest_seq_id ≡ s.latest_seq_id)
unfolding record_proposal
record_proposal-parts s s' m e = ground arith

process_ack_msg-parts :
    (s : MulticastService) (m : AckMessage) (o : Outcome)
    → process_ack_msg s m ≡ ok o
    → (o.service.hold_back_queue ≡ s.hold_back_queue)
      × (o.service.latest_seq_id ≡ s.latest_seq_id)
      × (o.delivered ≡ [])
unfolding process_ack_msg
process_ack_msg-parts s m o e = ground arith

process_seq_ack_msg-parts :
    (s : MulticastService) (m : SeqAckMessage) (o : Outcome)
    → process_seq_ack_msg s m ≡ ok o
    → (o.service.hold_back_queue ≡ s.hold_back_queue)
      × (o.service.latest_seq_id ≡ s.latest_seq_id)
      × (o.delivered ≡ [])
unfolding process_seq_ack_msg
process_seq_ack_msg-parts s m o e = ground arith

Ordered-eq :
    {log log' deque deque' : List PendingMsg} {latest latest' : ℕ}
    → log ≡ log'
    → deque ≡ deque'
    → latest ≡ latest'
    → Ordered log deque latest
    → Ordered log' deque' latest'
Ordered-eq {log' = log'} {deque = deque} {deque' = deque'} {latest = latest} p q r o =
    subst (Ordered log' deque') r
      (subst (λ d. Ordered log' d latest) q (subst (λ l. Ordered l deque latest) p o))

unchanged-InOrder :
    (s : MulticastService) {log : List PendingMsg} (o : Outcome)
    → (o.service.hold_back_queue ≡ s.hold_back_queue)
      × (o.service.latest_seq_id ≡ s.latest_seq_id)
      × (o.delivered ≡ [])
    → InOrder log s
    → InOrder (log ++ o.delivered) o.service
unchanged-InOrder s {log} o (q, l, d) i =
    Ordered-eq (sym (append-nil log) ∙ ap (◌++◌ log) (sym d)) (ap (λ q. q.deque) (sym q)) (sym l) i

-- Every call that ends without an exception, whatever it is, keeps the order of deliveries.
pub step-InOrder :
    (s : MulticastService) {log : List PendingMsg} (e : Event) (o : Outcome)
    → Honors s e
    → step s e ≡ ok o
    → InOrder log s
    → InOrder (log ++ o.delivered) o.service
unfolding step
step-InOrder s (requested payload) o h e i = unchanged-InOrder s o (parts e) i
  where
    parts :
        ok (record { service = multicast s payload; sent = []; delivered = [] }) ≡ ok o
        → (o.service.hold_back_queue ≡ s.hold_back_queue)
          × (o.service.latest_seq_id ≡ s.latest_seq_id)
          × (o.delivered ≡ [])
    parts e = unfold multicast in ground arith
step-InOrder s {log} (data_received m) o h e i =
    let (q, l, d) = process_data_msg-parts s m o e in
    let next : (s.latest_seq_id + 1) % u32_mod ≡ s.latest_seq_id + 1 = omega arith in
    Ordered-eq (sym (append-nil log) ∙ ap (◌++◌ log) (sym d))
      (ap (λ (n : ℕ). (add_to_queue s.hold_back_queue m n s.sender_id).0.deque) (sym next)
        ∙ ap (λ q. q.deque) (sym q))
      (ap
          (λ (n : ℕ).
            if (add_to_queue s.hold_back_queue m n s.sender_id).1 then n else s.latest_seq_id)
          (sym next)
        ∙ sym l)
      (add_to_queue-Ordered s.hold_back_queue m s.sender_id log s.latest_seq_id i)
step-InOrder s (ack_received m) o h e i = unchanged-InOrder s o (process_ack_msg-parts s m o e) i
step-InOrder s {log} (seq_received m) o h e i =
    let (q, l, d) = process_seq_msg-parts s m o e in
    Ordered-eq (ap (◌++◌ log) (sym d)) (ap (λ q. q.deque) (sym q)) (sym l)
      (mark_deliverable-Ordered s.hold_back_queue m log s.latest_seq_id h i)
step-InOrder s (seq_ack_received m) o h e i =
    unchanged-InOrder s o (process_seq_ack_msg-parts s m o e) i

Run-InOrder :
    {s : MulticastService} {log : List PendingMsg} {t : MulticastService}
    → InOrder [] s
    → Run s log t
    → InOrder log t
Run-InOrder i start = i
Run-InOrder i (later r e o h step_ok) = step-InOrder _ e o h step_ok (Run-InOrder i r)

new_service-InOrder :
    (sender_id : ℕ) (recipients : List String) (ids : List (ℕ × String))
    → InOrder [] (new_service sender_id recipients ids)
unfolding new_service
new_service-InOrder sender_id recipients ids = record { sorted = tt; seen = tt; waiting = tt }

-- A process that starts empty delivers its messages in the order of their final sequence numbers, and
-- all that still waits, and all that it delivers later, comes behind them.
pub Run-sorted :
    (sender_id : ℕ) (recipients : List String) (ids : List (ℕ × String)) {log : List PendingMsg}
    {t : MulticastService}
    → Run (new_service sender_id recipients ids) log t
    → Ordered log t.hold_back_queue.deque t.latest_seq_id
Run-sorted sender_id recipients ids r = Run-InOrder (new_service-InOrder sender_id recipients ids) r

-- Total order: two processes start empty and handle messages without an exception, sequence numbers do
-- not run out at either, and every sequence message that a process handles respects what that process has
-- proposed. If they have delivered the same messages with the same final numbers, no two of which tie,
-- they have delivered them in the same order.
pub total_order :
    (i j : ℕ) (hosts hosts' : List String) (ids ids' : List (ℕ × String))
    {log log' : List PendingMsg} {t t' : MulticastService}
    → Run (new_service i hosts ids) log t
    → Run (new_service j hosts' ids') log' t'
    → Perm log log'
    → Distinguishes less log
    → log ≡ log'
total_order i j hosts hosts' ids ids' r r' perm d =
    IsSorted-unique less less-IsStrictWeakOrder.irreflexive _ _ (Run-sorted i hosts ids r).sorted
      (Run-sorted j hosts' ids' r').sorted perm d
