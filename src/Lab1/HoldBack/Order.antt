-- ===== src/Lab1/HoldBack/Order.antt =====
-- PendingMsg::operator<, by which std::sort orders the hold-back queue.
use cs7610_f.Prelude.{◌<◌, ◌≡◌, true, false, arith, IsStrictWeakOrder}
use cs7610_f.Lab1.HoldBack.Defs.{PendingMsg, less}

-- What the comparison says, without its tests: sequence number, then undeliverable first, then
-- proposer.
pub data Precedes (p q : PendingMsg) : Type 0 where
  by_seq : p.final_seq_id < q.final_seq_id → Precedes p q
  by_flag :
      p.final_seq_id ≡ q.final_seq_id → p.deliverable ≡ false → q.deliverable ≡ true → Precedes p q
  by_proposer :
      p.final_seq_id ≡ q.final_seq_id
      → p.deliverable ≡ q.deliverable
      → p.final_seq_proposer < q.final_seq_proposer
      → Precedes p q

less-Precedes : (p q : PendingMsg) → Precedes p q → less p q ≡ true
unfolding less
less-Precedes p q (by_seq h) = ground arith
less-Precedes p q (by_flag e f g) = ground arith
less-Precedes p q (by_proposer e f h) = ground arith

-- The comparison is a strict weak order, which std::sort asks for.
pub less-IsStrictWeakOrder : IsStrictWeakOrder less
unfolding less
less-IsStrictWeakOrder = record {
  irreflexive = λ x. ground arith;
  transitive = λ x y z h k. ground arith;
  negatively_transitive = λ x y z h k. ground arith;
}
