-- ===== src/Lab1/HoldBack/Ordering.antt =====
-- The invariant behind total order: what has been delivered lies below everything that waits.
use mathlib.Core.List.{append-nil}
use cs7610_f.Prelude.{
  ℕ, ◌+◌, ◌≤◌, ◌<◌, max, ◌≡◌, sym, subst, Bool, true, false, List, [], ◌∷◌, ◌++◌, inl, inr, arith,
  All, All-append, All-map, All-swap, All-sort, All-append_left, All-append_right, sort, IsSorted,
  IsSorted-append, IsSorted-append_left, IsSorted-append_across, Bool-cases, if◌then◌else◌,
}
use cs7610_f.Lab1.Message.{DataMessage, SeqMessage}
use cs7610_f.Lab1.HoldBack.Defs.{
  identifier, PendingMsg, new_pending, less, HoldBackQueue, names, finalise, add_to_queue,
  mark_first, split_deliverable, mark_deliverable,
}
use cs7610_f.Lab1.HoldBack.Queue.{
  is_pending, split_deliverable-IsSorted, split_deliverable-append, split_deliverable-deliverable,
}

-- The entry p comes after the delivered d, whatever final sequence number it still gets.
abbrev pub After : PendingMsg → PendingMsg → Type 0
After d p =
    (p.deliverable ≡ true → less p d ≡ false)
    × (p.deliverable ≡ false → d.final_seq_id < p.final_seq_id)

abbrev pub Waits : List PendingMsg → ℕ → PendingMsg → Type 0
Waits log latest p = All (λ d. After d p) log × (p.deliverable ≡ true → p.final_seq_id ≤ latest)

-- `log` is what has been delivered so far, `latest` the largest sequence number seen.
pub record Ordered (log deque : List PendingMsg) (latest : ℕ) : Type 0 where
  pub sorted : IsSorted less log
  pub seen : All (λ d. d.final_seq_id ≤ latest) log
  pub waiting : All (Waits log latest) deque

-- What the protocol promises of a sequence message about the entry that it names: the final number
-- is at least the one that this process proposed, and a repeated message repeats the number.
abbrev pub Respects : SeqMessage → PendingMsg → Type 0
Respects m p =
    names m p ≡ true
    → (p.deliverable ≡ false → p.final_seq_id ≤ m.final_seq)
      × (p.deliverable ≡ true
          → (p.final_seq_id ≡ m.final_seq) × (p.final_seq_proposer ≡ m.final_seq_proposer))

After-finalise :
    (m : SeqMessage) (d p : PendingMsg)
    → names m p ≡ true
    → Respects m p
    → After d p
    → After d (finalise m p)
unfolding finalise less
After-finalise m d p n r a = ground (arith, r n)

new-Waits :
    (m : DataMessage) (latest proposer : ℕ) (log : List PendingMsg)
    → All (λ d. d.final_seq_id ≤ latest) log
    → Waits log latest (new_pending m (latest + 1) proposer)
unfolding new_pending
new-Waits m latest proposer log h =
    (All-map _ _ (λ d q. ((λ e. cc), λ e. omega arith)) log h, λ e. cc)

Waits-mono :
    (log : List PendingMsg) (l l' : ℕ) (p : PendingMsg) → l ≤ l' → Waits log l p → Waits log l' p
Waits-mono log l l' p h w = (w.0, λ e. omega (arith, w.1 e))

Waits-finalise :
    (m : SeqMessage) (log : List PendingMsg) (latest : ℕ) (p : PendingMsg)
    → names m p ≡ true
    → Respects m p
    → Waits log latest p
    → Waits log (max latest m.final_seq) (finalise m p)
Waits-finalise m log latest p n r w = (
  All-map (λ d. After d p) (λ d. After d (finalise m p)) (λ d a. After-finalise m d p n r a) log
      w.0,
  bound,
)
  where
    bound : (finalise m p).deliverable ≡ true → (finalise m p).final_seq_id ≤ max latest m.final_seq
    bound e = unfold finalise in omega arith

-- The largest sequence number seen, after a sequence message.
abbrev pub seen_after : ℕ → SeqMessage → Bool → ℕ
seen_after latest m marked = if marked then max latest m.final_seq else latest

mark_first-Waits :
    (m : SeqMessage) (log : List PendingMsg) (latest : ℕ) (ps : List PendingMsg)
    → All (Respects m) ps
    → All (Waits log latest) ps
    → All (Waits log (seen_after latest m (mark_first m ps).1)) (mark_first m ps).0
unfolding mark_first
mark_first-Waits m log latest [] r w = tt
mark_first-Waits m log latest (p ∷ ps) r w = elim (Bool-cases (names m p)) [
  | inl e ↦
      rw (e, mark_first)
        (
          Waits-finalise m log latest p e r.0 w.0,
          All-map (Waits log latest) (Waits log (max latest m.final_seq))
              (λ q. Waits-mono log latest (max latest m.final_seq) q (omega arith)) ps w.1,
        )
  | inr e ↦
      rw (e, mark_first)
        (
          Waits-mono log latest (seen_after latest m (mark_first m ps).1) p (ground arith) w.0,
          mark_first-Waits m log latest ps r.1 w.1,
        )
]

After-of_less : (d p : PendingMsg) → d.deliverable ≡ true → less p d ≡ false → After d p
unfolding less
After-of_less d p e h = ground arith

remaining-After :
    (ds ps : List PendingMsg)
    → All (λ d. d.deliverable ≡ true) ds
    → All (λ d. All (λ p. less p d ≡ false) ps) ds
    → All (λ d. All (After d) ps) ds
remaining-After [] ps h k = tt
remaining-After (d ∷ ds) ps h k =
    (All-map _ _ (λ p. After-of_less d p h.0) ps k.0, remaining-After ds ps h.1 k.1)

Waits-extend :
    (log ds : List PendingMsg) (latest : ℕ) (ps : List PendingMsg)
    → All (Waits log latest) ps
    → All (λ p. All (λ d. After d p) ds) ps
    → All (Waits (log ++ ds) latest) ps
Waits-extend log ds latest [] w a = tt
Waits-extend log ds latest (p ∷ ps) w a =
    ((All-append (λ d. After d p) log ds w.0.0 a.0, w.0.1), Waits-extend log ds latest ps w.1 a.1)

delivered-below :
    (log : List PendingMsg) (latest : ℕ) (ds : List PendingMsg)
    → All (λ d. d.deliverable ≡ true) ds
    → All (Waits log latest) ds
    → All (λ d. d.final_seq_id ≤ latest) ds × All (λ p. All (λ d. less p d ≡ false) log) ds
delivered-below log latest [] h w = (tt, tt)
delivered-below log latest (p ∷ ps) h w =
    let (seen, above) = delivered-below log latest ps h.1 w.1 in
    (
      (w.0.1 h.0, seen),
      (All-map (λ d. After d p) (λ d. less p d ≡ false) (λ d a. a.0 h.0) log w.0.0, above),
    )

-- Delivering a sorted prefix of deliverable entries keeps the invariant.
deliver-Ordered :
    (log ds ps : List PendingMsg) (latest : ℕ)
    → IsSorted less log
    → All (λ d. d.final_seq_id ≤ latest) log
    → All (λ d. d.deliverable ≡ true) ds
    → IsSorted less (ds ++ ps)
    → All (Waits log latest) (ds ++ ps)
    → Ordered (log ++ ds) ps latest
deliver-Ordered log ds ps latest sorted seen flags order w =
    let (seen', above) =
      delivered-below log latest ds flags (All-append_left (Waits log latest) ds ps w) in
    record {
      sorted =
          IsSorted-append less log ds sorted (IsSorted-append_left less ds ps order)
            (All-swap (λ d p. less p d ≡ false) log ds above);
      seen = All-append (λ d. d.final_seq_id ≤ latest) log ds seen seen';
      waiting = Waits-extend log ds latest ps (All-append_right (Waits log latest) ds ps w) (
          All-swap (λ p d. After d p) ps ds
            (remaining-After ds ps flags (IsSorted-append_across less ds ps order)));
    }

-- A sequence message that respects the queue keeps what is delivered in order, below all that waits.
pub mark_deliverable-Ordered :
    (q : HoldBackQueue) (m : SeqMessage) (log : List PendingMsg) (latest : ℕ)
    → All (Respects m) q.deque
    → Ordered log q.deque latest
    → let r = mark_deliverable q m in
      Ordered (log ++ r.delivered) r.queue.deque (seen_after latest m r.marked)
unfolding mark_deliverable
mark_deliverable-Ordered q m log latest r o =
    elim (Bool-cases (is_pending (identifier m.msg_id m.sender) q)) [
      | inl e ↦ rw (e, mark_deliverable) accepted
      | inr e ↦ rw (e, mark_deliverable) (rw append-nil o)
    ]
  where
    latest' : ℕ
    latest' = seen_after latest m (mark_first m q.deque).1

    parts : List PendingMsg × List PendingMsg
    parts = split_deliverable (sort less (mark_first m q.deque).0)

    waits : All (Waits log latest') (parts.0 ++ parts.1)
    waits =
        subst (All (Waits log latest')) (sym (split_deliverable-append _))
          (All-sort less (Waits log latest') _ (mark_first-Waits m log latest q.deque r o.waiting))

    accepted : Ordered (log ++ parts.0) parts.1 latest'
    accepted =
        deliver-Ordered log parts.0 parts.1 latest' o.sorted
          (All-map (λ d. d.final_seq_id ≤ latest) (λ d. d.final_seq_id ≤ latest')
            (λ d h. ground arith) log o.seen)
          (split_deliverable-deliverable _) (split_deliverable-IsSorted _) waits

-- A new entry, proposed one above all that has been seen, keeps it.
pub add_to_queue-Ordered :
    (q : HoldBackQueue) (m : DataMessage) (proposer : ℕ) (log : List PendingMsg) (latest : ℕ)
    → Ordered log q.deque latest
    → let (q', added) = add_to_queue q m (latest + 1) proposer in
      Ordered log q'.deque (if added then latest + 1 else latest)
unfolding add_to_queue
add_to_queue-Ordered q m proposer log latest o =
    elim (Bool-cases (is_pending (identifier m.msg_id m.sender) q)) [
      | inl e ↦ rw (e, add_to_queue) o
      | inr e ↦
          rw (e, add_to_queue)
            (record {
              sorted = o.sorted;
              seen = All-map _ _ (λ d h. omega arith) log o.seen;
              waiting =
                  All-map (Waits log latest) (Waits log (latest + 1))
                    (λ p. Waits-mono log latest (latest + 1) p (omega arith)) _
                    (All-append (Waits log latest) q.deque _ o.waiting
                      (new-Waits m latest proposer log o.seen, tt));
            })
    ]
