-- ===== src/Lab1/Wiring/Snapshots.antt =====
-- lab1/src/main.cpp: when the loop over the messages takes its snapshot.
use cs7610_f.Prelude.{
  ℕ, zero, suc, ◌+◌, ◌-◌, ◌≤◌, ◌<◌, ◌≡◌, refl, ap, arith, List, [], ◌∷◌, ◌++◌, true, false, ◌&&◌,
  if◌then◌else◌, ltb, Bool, not, ◌||◌, ◌==◌, ◌^◌, ◌∙◌, ◌>>=◌, ok, throws, undefined, Bool-cases,
  inl, inr,
}
use cs7610_f.Lab1.Startup.{Action, message, snapshot, send_messages, run_main}

-- n multicasts from message i on.
abbrev pub multicasts : ℕ → ℕ → List Action
multicasts i zero = []
multicasts i (suc n) = message (i + 10) ∷ multicasts (i + 1) n

-- The actions, for numbers without a bound.
unfoldable planned : ℕ → ℕ → ℕ → Bool → List Action
planned count zero i snapshot_taken = []
planned count (suc left) i snapshot_taken =
    let trigger = not snapshot_taken && not (count == 0) && ltb count i in
    let later = planned count left (i + 1) (trigger || snapshot_taken) in
    message (i + 10) ∷ (if trigger then snapshot ∷ later else later)

-- They are the actions as long as an int holds the last payload.
send_messages-planned :
    (count left i : ℕ) (taken : Bool)
    → i + left + 9 < 2 ^ 31
    → send_messages count left i taken ≡ ok (planned count left i taken)
unfolding send_messages planned
send_messages-planned count zero i taken l = refl
send_messages-planned count (suc left) i taken l =
    let trigger : Bool = not taken && not (count == 0) && ltb count i in
    let fits : ltb (i + 10) (2 ^ 31) ≡ true = ground arith in
    rw fits (
      ap
        (λ later. later >>= λ actions.
          ok (message (i + 10) ∷ (if trigger then snapshot ∷ actions else actions)))
        (send_messages-planned count left (i + 1) (trigger || taken) (omega (arith, l))))

send_messages_overflow :
    (count left i : ℕ) (taken : Bool)
    → 0 < left
    → 2 ^ 31 ≤ i + left + 9
    → send_messages count left i taken ≡ throws undefined
unfolding send_messages
send_messages_overflow count zero i taken p l = absurd (omega (arith, p))
send_messages_overflow count (suc left) i taken p l = elim (Bool-cases (ltb (i + 10) (2 ^ 31))) [
  | inl e ↦
      let trigger : Bool = not taken && not (count == 0) && ltb count i in
      let some_left : 0 < left = ground arith in
      rw e (
        ap
          (λ later. later >>= λ actions.
            ok (message (i + 10) ∷ (if trigger then snapshot ∷ actions else actions)))
          (send_messages_overflow count left (i + 1) (trigger || taken) some_left
            (omega (arith, l))))
  | inr e ↦ rw e refl
]

after_snapshot : (count left i : ℕ) → planned count left i true ≡ multicasts i left
unfolding planned
after_snapshot count zero i = refl
after_snapshot count (suc left) i =
    ap (λ later. message (i + 10) ∷ later) (after_snapshot count left (i + 1))

no_snapshot : (left i : ℕ) → planned 0 left i false ≡ multicasts i left
unfolding planned
no_snapshot zero i = refl
no_snapshot (suc left) i = ap (λ later. message (i + 10) ∷ later) (no_snapshot left (i + 1))

-- Too few messages for a snapshot.
before_snapshot :
    (count left i : ℕ) → i + left ≤ count + 1 → planned count left i false ≡ multicasts i left
unfolding planned
before_snapshot count zero i l = refl
before_snapshot count (suc left) i l = ground (arith, before_snapshot count left (i + 1))

with_snapshot :
    (d count r i left : ℕ)
    → 0 < count
    → i + d ≡ count + 1
    → left ≡ d + suc r
    → planned count left i false ≡ multicasts i (suc d) ++ (snapshot ∷ multicasts (count + 2) r)
unfolding planned
with_snapshot d count r i zero p e l = absurd (omega (arith, l))
with_snapshot zero count r i (suc left) p e l =
    let next : i + 1 ≡ count + 2 = omega arith in
    let same : left ≡ r = omega arith in ground (arith, after_snapshot count left (i + 1))
with_snapshot (suc d) count r i (suc left) p e l =
    ground (arith, with_snapshot d count r (i + 1) left)

-- A process that sends multicasts one message more than the count before its snapshot, and the rest after
-- it; where the count is zero or not below the number of messages it takes no snapshot. That is so as long
-- as an int holds the last payload, the number of messages and ten; where it does not, the behaviour is
-- undefined.
pub run_main_lem :
    (msg_count count : ℕ)
    → run_main true msg_count count ≡ (
        if ltb (msg_count + 10) (2 ^ 31)
        then ok (
            if ltb 0 count && ltb count msg_count
            then multicasts 1 (count + 1)
              ++ (snapshot ∷ multicasts (count + 2) (msg_count - (count + 1)))
            else multicasts 1 msg_count)
        else throws undefined)
unfolding run_main
run_main_lem msg_count count = elim (Bool-cases (ltb (msg_count + 10) (2 ^ 31))) [
  | inl e ↦
      let fits : 1 + msg_count + 9 < 2 ^ 31 = ground arith in
      rw e
        (send_messages-planned count msg_count 1 false fits ∙ ap ok (planned_lem msg_count count))
  | inr e ↦
      let over : 2 ^ 31 ≤ 1 + msg_count + 9 = ground arith in
      let positive : 0 < msg_count = omega (arith, over) in
      rw e (send_messages_overflow count msg_count 1 false positive over)
]
  where
    planned_lem :
        (msg_count count : ℕ)
        → planned count msg_count 1 false ≡ (
            if ltb 0 count && ltb count msg_count
            then multicasts 1 (count + 1)
              ++ (snapshot ∷ multicasts (count + 2) (msg_count - (count + 1)))
            else multicasts 1 msg_count)
    planned_lem msg_count count = ground (
      arith,
      no_snapshot msg_count 1,
      before_snapshot count msg_count 1,
      with_snapshot count count (msg_count - (count + 1)) 1 msg_count,
    )
