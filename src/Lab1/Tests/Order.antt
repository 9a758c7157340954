-- ===== src/Lab1/Tests/Order.antt =====
-- Total order at the run of the two processes.
use mathlib.Core.List.{Mem, mem-cons, not-mem-nil}
use mathlib.Core.List.Perm
use mathlib.Core.HLevel.{Π_prop}
use mathlib.Core.Logic.Or
use cs7610_f.Prelude.{◌≡◌, refl, sym, subst, List, [], ◌∷◌, true, false, Distinguishes, arith}
use cs7610_f.Lab1.HoldBack.{
  PendingMsg, HoldBackQueue, less, identifier, mark_deliverable, add_to_queue,
}
use cs7610_f.Lab1.HoldBack.Ordering.{Ordered}
use cs7610_f.Lab1.HoldBack.Queue.{Delivers, mark_deliverable-Delivers, is_pending}
use cs7610_f.Lab1.HoldBack.Pending.{is_pending-mark_deliverable, late_copy_accepted, IsSetLike}
use cs7610_f.Lab1.Multicast.{Outcome}
use cs7610_f.Lab1.Multicast.Delivery.{
  data_received, seq_received, Run, start, later, Run-sorted, total_order,
}
use cs7610_f.Lab1.Tests.Scene.{
  program, hosts, ids, message_a, message_b, seq_a, seq_b, alpha, beta, after,
}

abbrev entry_a : PendingMsg
entry_a = record {
  data_msg = message_a;
  final_seq_id = 2;
  final_seq_proposer = 2;
  deliverable = true;
}

abbrev entry_b : PendingMsg
entry_b = record {
  data_msg = message_b;
  final_seq_id = 2;
  final_seq_proposer = 1;
  deliverable = true;
}

abbrev log : List PendingMsg
log = entry_b ∷ entry_a ∷ []

abbrev alpha1 : Outcome
alpha1 = after alpha (data_received message_a)

abbrev alpha2 : Outcome
alpha2 = after alpha1.service (data_received message_b)

abbrev alpha3 : Outcome
alpha3 = after alpha2.service (seq_received seq_a)

abbrev alpha4 : Outcome
alpha4 = after alpha3.service (seq_received seq_b)

abbrev beta1 : Outcome
beta1 = after beta (data_received message_b)

abbrev beta2 : Outcome
beta2 = after beta1.service (data_received message_a)

abbrev beta3 : Outcome
beta3 = after beta2.service (seq_received seq_b)

abbrev beta4 : Outcome
beta4 = after beta3.service (seq_received seq_a)

alpha-Run : Run alpha log alpha4.service
unfolding program
alpha-Run =
    later
      (later
        (later (later start (data_received message_a) alpha1 (omega arith) refl)
          (data_received message_b) alpha2 (omega arith) refl)
        (seq_received seq_a) alpha3 (ground arith) refl)
      (seq_received seq_b) alpha4 (ground arith) refl

beta-Run : Run beta log beta4.service
unfolding program
beta-Run =
    later
      (later
        (later (later start (data_received message_b) beta1 (omega arith) refl)
          (data_received message_a) beta2 (omega arith) refl)
        (seq_received seq_b) beta3 (ground arith) refl)
      (seq_received seq_a) beta4 (ground arith) refl

PendingMsg-set : IsSet PendingMsg
PendingMsg-set = hlevel

log_members :
    (P : PendingMsg → Type 0)
    → ((x : PendingMsg) → IsProp (P x))
    → P entry_b
    → P entry_a
    → (x : PendingMsg) → Mem x log
    → P x
log_members P prop b a x m =
    Or.elim (prop x) (mem-cons.0 m) (λ e. subst P (sym e) b)
      λ m'.
        Or.elim (prop x) (mem-cons.0 m') (λ e. subst P (sym e) a) (λ m''. absurd (not-mem-nil m''))

abbrev Tied : PendingMsg → PendingMsg → Type 0
Tied x y = less x y ≡ false → less y x ≡ false → x ≡ y

Tied-prop : (x y : PendingMsg) → IsProp (Tied x y)
Tied-prop x y = Π_prop (λ h. Π_prop (λ k. PendingMsg-set x y))

apart : Distinguishes less log
unfolding program
apart x y mx my =
    log_members (λ x. Tied x y) (λ x. Tied-prop x y)
      (log_members (Tied entry_b) (Tied-prop entry_b) (λ h k. refl) (λ h k. cc) y my)
      (log_members (Tied entry_a) (Tied-prop entry_a) (λ h k. cc) (λ h k. refl) y my) x mx

total_order_example : ◌≡◌ {A = List PendingMsg} log log
total_order_example = total_order 1 2 hosts hosts ids ids alpha-Run beta-Run (Perm.refl log) apart

Run-sorted_example : Ordered log [] 2
unfolding program
Run-sorted_example = Run-sorted 1 hosts ids alpha-Run

abbrev waiting : HoldBackQueue
waiting = alpha3.service.hold_back_queue

mark_deliverable-Delivers_example : Delivers waiting seq_b (mark_deliverable waiting seq_b)
unfolding program
mark_deliverable-Delivers_example = mark_deliverable-Delivers waiting seq_b refl

is_pending-mark_deliverable_example :
    (is_pending (identifier 1 1) (mark_deliverable waiting seq_b).queue ≡ true)
    × IsSetLike (mark_deliverable waiting seq_b).queue
unfolding program
is_pending-mark_deliverable_example =
    is_pending-mark_deliverable waiting seq_b (identifier 1 1) (refl, (refl, tt)) refl

late_copy_accepted_example :
    (add_to_queue (mark_deliverable waiting seq_b).queue message_b 3 1).1 ≡ true
unfolding program
late_copy_accepted_example =
    late_copy_accepted waiting seq_b message_b 3 1 (refl, (refl, tt)) refl (λ e. cc) refl refl
