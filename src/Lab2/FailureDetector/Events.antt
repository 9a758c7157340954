-- ===== src/Lab2/FailureDetector/Events.antt =====
-- lab2/src/failure_detector.cpp: a run of heartbeats and turns of the detector thread, and what it tells.
use cs7610_f.Prelude.{
  ℕ, zero, suc, ◌≡◌, ap, refl, ◌≢◌, inl, inr, List, [], ◌∷◌, ◌++◌, Option, none, some, Bool, true,
  false, arith, contains, ℕ_discrete, ◌==◌, if◌then◌else◌, set_insert, contains-set_insert,
}
use cs7610_f.Lab2.FailureDetector.Defs.{
  FailureDetector, note_heart_beat, report, detector_step, insert_keys,
}
use cs7610_f.Lab2.FailureDetector.Scan.{AtLeast}

-- A heartbeat that the listener accepts, or one turn of the detector thread.
pub data Event : Type 0 where
  beat : ℕ → Event
  scanned : Event

-- The detector after the events, and the calls of callbacks in between.
unfoldable pub run : FailureDetector → List Event → FailureDetector × List (ℕ × ℕ)
unfolding note_heart_beat detector_step
run d [] = (d, [])
run d (beat p ∷ events) = run (note_heart_beat p d) events
run d (scanned ∷ events) =
    let (d', calls) = detector_step d in
    let (after, later) = run d' events in (after, calls ++ later)

-- p beats before more than `left` turns, and then before more than two turns each time.
abbrev pub paced : ℕ → ℕ → List Event → Bool
paced p left [] = true
paced p left (beat q ∷ events) =
    let again = paced p 2 events in let on = paced p left events in if q == p then again else on
paced p zero (scanned ∷ events) = false
paced p (suc left) (scanned ∷ events) = paced p left events

abbrev pub silent : ℕ → List Event → Bool
silent p [] = true
silent p (beat q ∷ events) = let rest = silent p events in if q == p then false else rest
silent p (scanned ∷ events) = silent p events

abbrev pub turns : List Event → ℕ
turns [] = 0
turns (beat q ∷ events) = turns events
turns (scanned ∷ events) = suc (turns events)

abbrev pub told : ℕ → List (ℕ × ℕ) → Bool
told p [] = false
told p ((callback, q) ∷ calls) = let rest = told p calls in if q == p then true else rest

keep_alive :
    (p : ℕ) (m : List (ℕ × ℕ)) (alive : List ℕ)
    → contains ℕ_discrete p alive ≡ true
    → contains ℕ_discrete p (insert_keys m alive) ≡ true
unfolding insert_keys
keep_alive p [] alive h = h
keep_alive p ((q, n) ∷ m) alive h =
    keep_alive p m (set_insert q alive) (ground (arith, contains-set_insert q p alive))

pub AtLeast-alive :
    (p c : ℕ) (m : List (ℕ × ℕ)) (alive : List ℕ)
    → AtLeast p c m
    → contains ℕ_discrete p (insert_keys m alive) ≡ true
unfolding insert_keys
AtLeast-alive p c [] alive t = absurd t
AtLeast-alive p c ((q, n) ∷ m) alive (inl (e, le, t)) =
    keep_alive p m (set_insert q alive) (ground (arith, contains-set_insert q p alive))
AtLeast-alive p c ((q, n) ∷ m) alive (inr (e, t)) = AtLeast-alive p c m (set_insert q alive) t

pub report-other :
    (p : ℕ) (callbacks : List ℕ) (crashed : Option ℕ)
    → crashed ≢ some p
    → told p (report callbacks crashed) ≡ false
report-other p callbacks none h = refl
report-other p [] (some q) h = refl
report-other p (k ∷ ks) (some q) h =
    ground (arith, report-other p ks (some q) h, λ (e : q ≡ p). h (ap some e))

pub told-append : (p : ℕ) (a b : List (ℕ × ℕ)) → told p a ≡ false → told p (a ++ b) ≡ told p b
told-append p [] b h = refl
told-append p ((k, q) ∷ a) b h = ground (arith, told-append p a b)
