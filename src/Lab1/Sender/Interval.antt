-- ===== src/Lab1/Sender/Interval.antt =====
-- getSendingInterval: exponential backoff that starts again at its limit.
use native.Mathlib.Nat.{pow-suc}
use native.Mathlib.Numerals.{towards_suc}
use cs7610_f.Prelude.{ℕ, zero, suc, ◌+◌, ◌*◌, ◌^◌, ◌≤◌, ◌≡◌, arith}
use cs7610_f.Lab1.Sender.Defs.{ContinuousMsgSender, get_sending_interval}

-- The power that the next call computes is at most twice the limit, so it fits wherever that does.
abbrev pub IsPaced : {T : Type 0} → ContinuousMsgSender T → Type 0
IsPaced s = 2 ^ s.retry_count * 200 ≤ 2 * s.max_sending_interval_millis

pow_add_one : (n : ℕ) → 2 ^ (n + 1) ≡ 2 * 2 ^ n
pow_add_one n = simp towards_suc (omega arith)

-- Every interval lies between 200 ms and the limit, and the counter stays so small that the power
-- never exceeds twice the limit.
pub get_sending_interval_bounds :
    {T : Type 0} (s : ContinuousMsgSender T)
    → 200 ≤ s.max_sending_interval_millis
    → IsPaced s
    → let (s', interval) = get_sending_interval s in
      IsPaced s' × (200 ≤ interval) × (interval ≤ s.max_sending_interval_millis)
unfolding get_sending_interval
get_sending_interval_bounds s lo p = ground (arith, pow_add_one s.retry_count, one_le s.retry_count)
  where
    one_le : (n : ℕ) → 1 ≤ 2 ^ n
    one_le zero = omega arith
    one_le (suc n) = simp pow-suc (omega (arith, one_le n))
