-- ===== src/Lab2/FailureDetector/Timing.antt =====
-- lab2/src/failure_detector.cpp: heartbeats and turns of the detector thread in any order.
use cs7610_f.Prelude.{
  ℕ, zero, suc, ◌+◌, ◌≤◌, ◌≡◌, ap, refl, subst, sym, ◌∙◌, inl, inr, List, [], ◌∷◌, ◌++◌, Option,
  some, true, false, arith, length, length-append, contains, Distinct, assign, ℕ_discrete,
  Bool-cases,
}
use cs7610_f.Lab2.FailureDetector.Defs.{
  FailureDetector, note_heart_beat, scan, report, detector_step, get_alive_peers,
}
use cs7610_f.Lab2.FailureDetector.Scan.{
  AtLeast, AtMost, keys, keys-assign-Distinct, keys-scan-Distinct, AtLeast-assign_self,
  AtLeast-assign, AtMost-assign, AtLeast-scan, AtMost-scan,
}
use cs7610_f.Lab2.FailureDetector.Events.{
  run, paced, silent, turns, told, AtLeast-alive, report-other, told-append, Event, beat, scanned,
}

paced-alive :
    (p left : ℕ) (d : FailureDetector) (events : List Event)
    → Distinct ℕ_discrete (keys d.peer_heart_beat_map)
    → AtLeast p left d.peer_heart_beat_map
    → paced p left events ≡ true
    → (told p (run d events).1 ≡ false)
      × (contains ℕ_discrete p (get_alive_peers (run d events).0) ≡ true)
unfolding run get_alive_peers detector_step note_heart_beat
paced-alive p left d [] k t h = (refl, AtLeast-alive p left d.peer_heart_beat_map [] t)
paced-alive p left d (beat q ∷ events) k t h = elim (ℕ_discrete q p) [
  | yes e ↦
      paced-alive p 2 (note_heart_beat q d) events
        (keys-assign-Distinct q 2 d.peer_heart_beat_map k)
        (subst (λ r. AtLeast p 2 (assign ℕ_discrete r 2 d.peer_heart_beat_map)) (sym e)
          (AtLeast-assign_self p 2 d.peer_heart_beat_map k))
        (ground arith)
  | no e ↦
      paced-alive p left (note_heart_beat q d) events
        (keys-assign-Distinct q 2 d.peer_heart_beat_map k)
        (AtLeast-assign p left q 2 d.peer_heart_beat_map e t) (ground arith)
]
paced-alive p zero d (scanned ∷ events) k t h = ground arith
paced-alive p (suc left) d (scanned ∷ events) k t h =
    let (held, other) = AtLeast-scan p left d.peer_heart_beat_map t in
    let d' : FailureDetector = record d { peer_heart_beat_map = (scan d.peer_heart_beat_map).0 } in
    let (quiet, alive) =
      paced-alive p left d' events (keys-scan-Distinct d.peer_heart_beat_map k) held h in
    (
      told-append p (report d.on_failure_callbacks (scan d.peer_heart_beat_map).1) (run d' events).1
            (report-other p d.on_failure_callbacks (scan d.peer_heart_beat_map).1 other)
          ∙ quiet,
      alive,
    )

-- A peer whose heartbeat has come, and whose next heartbeats each come before a third turn of the
-- detector thread, is not reported and stays among the alive peers, whatever other peers do.
pub note_heart_beat-run_alive :
    (p : ℕ) (d : FailureDetector) (events : List Event)
    → Distinct ℕ_discrete (keys d.peer_heart_beat_map)
    → paced p 2 events ≡ true
    → (told p (run (note_heart_beat p d) events).1 ≡ false)
      × (contains ℕ_discrete p (get_alive_peers (run (note_heart_beat p d) events).0) ≡ true)
unfolding note_heart_beat
note_heart_beat-run_alive p d events k h =
    paced-alive p 2 (note_heart_beat p d) events (keys-assign-Distinct p 2 d.peer_heart_beat_map k)
      (AtLeast-assign_self p 2 d.peer_heart_beat_map k) h

report-told :
    (p k : ℕ) (ks callbacks : List ℕ) (crashed : Option ℕ) (b : List (ℕ × ℕ))
    → callbacks ≡ k ∷ ks
    → crashed ≡ some p
    → told p (report callbacks crashed ++ b) ≡ true
report-told p k ks callbacks crashed b e e' = ground arith

told-append_right : (p : ℕ) (a b : List (ℕ × ℕ)) → told p (a ++ b) ≡ false → told p b ≡ false
told-append_right p [] b h = h
told-append_right p ((k, q) ∷ a) b h = ground (arith, told-append_right p a b)

-- A peer that falls silent is reported before it has missed more turns of the detector thread than its
-- count, and one more for each report of another peer.
pub turns-run-silent :
    (p c k : ℕ) (ks : List ℕ) (d : FailureDetector) (events : List Event)
    → d.on_failure_callbacks ≡ k ∷ ks
    → AtMost p c d.peer_heart_beat_map
    → silent p events ≡ true
    → told p (run d events).1 ≡ false
    → turns events ≤ c + length (run d events).1
unfolding run detector_step note_heart_beat
turns-run-silent p c k ks d [] e t h n = omega arith
turns-run-silent p c k ks d (beat q ∷ events) e t h n =
    turns-run-silent p c k ks (note_heart_beat q d) events e
      (AtMost-assign p c q 2 d.peer_heart_beat_map (ground arith) t) (ground arith) n
turns-run-silent p c k ks d (scanned ∷ events) e t h n =
    let d' : FailureDetector = record d { peer_heart_beat_map = (scan d.peer_heart_beat_map).0 } in
    let now : List (ℕ × ℕ) = report d.on_failure_callbacks (scan d.peer_heart_beat_map).1 in
    let later : List (ℕ × ℕ) = (run d' events).1 in
    let n' : told p later ≡ false = told-append_right p now later n in
    let sum : length (now ++ later) ≡ length now + length later = length-append now later in
    elim (AtMost-scan p c d.peer_heart_beat_map t) [
      | inl crashed ↦ ground (
        arith,
        report-told p k ks d.on_failure_callbacks (scan d.peer_heart_beat_map).1 later e crashed,
      )
      | inr (inl (c', less, t')) ↦
          let rest = turns-run-silent p c' k ks d' events e t' h n' in
          omega (arith, rest, sum, less)
      | inr (inr (q, crashed, t')) ↦
          let rest = turns-run-silent p c k ks d' events e t' h n' in
          let one : length now ≡ suc (length (report ks (some q))) = rw (e, crashed) in
          omega (arith, rest, sum, one)
    ]

abbrev pub only_turns : ℕ → List Event
only_turns zero = []
only_turns (suc n) = scanned ∷ only_turns n

only_turns-silent : (p n : ℕ) → silent p (only_turns n) ≡ true
only_turns-silent p zero = refl
only_turns-silent p (suc n) = only_turns-silent p n

turns-only_turns : (n : ℕ) → turns (only_turns n) ≡ n
turns-only_turns zero = refl
turns-only_turns (suc n) = ap suc (turns-only_turns n)

length-scan :
    (k : ℕ) (m : List (ℕ × ℕ)) → length (report (k ∷ []) (scan m).1) + length (scan m).0 ≡ length m
unfolding scan
length-scan k [] = refl
length-scan k ((q, zero) ∷ m) = omega arith
length-scan k ((q, suc n) ∷ m) = omega (arith, length-scan k m)

length-run :
    (k n : ℕ) (d : FailureDetector)
    → d.on_failure_callbacks ≡ k ∷ []
    → length (run d (only_turns n)).1 ≤ length d.peer_heart_beat_map
unfolding run detector_step
length-run k zero d e = omega arith
length-run k (suc n) d e =
    let d' : FailureDetector = record d { peer_heart_beat_map = (scan d.peer_heart_beat_map).0 } in
    let now : List (ℕ × ℕ) = report d.on_failure_callbacks (scan d.peer_heart_beat_map).1 in
    let rest : length (run d' (only_turns n)).1 ≤ length d'.peer_heart_beat_map =
      length-run k n d' e in
    let sum : length (now ++ (run d' (only_turns n)).1)
        ≡ length now + length (run d' (only_turns n)).1 =
      length-append now (run d' (only_turns n)).1 in
    let one : length now + length (scan d.peer_heart_beat_map).0 ≡ length d.peer_heart_beat_map =
      ground (arith, length-scan k d.peer_heart_beat_map) in
    omega (arith, rest, sum, one)

-- When no heartbeats come any more, every peer of the map is reported, within as many turns as its count
-- and the size of the map together and one more.
pub run-only_turns-told :
    (p c k : ℕ) (d : FailureDetector)
    → d.on_failure_callbacks ≡ k ∷ []
    → AtMost p c d.peer_heart_beat_map
    → told p (run d (only_turns (c + length d.peer_heart_beat_map + 1))).1 ≡ true
run-only_turns-told p c k d e t =
    let n : ℕ = c + length d.peer_heart_beat_map + 1 in
    elim (Bool-cases (told p (run d (only_turns n)).1)) [
      | inl yes_told ↦ yes_told
      | inr not_told ↦
          let late =
            turns-run-silent p c k [] d (only_turns n) e t (only_turns-silent p n) not_told in
          absurd (omega (arith, late, turns-only_turns n, length-run k n d e))
    ]
