-- ===== src/Lab2/Tests/Beats.antt =====
-- The failure detector at concrete inputs.
use cs7610_f.Prelude.{
  ◌≡◌, refl, ◌≤◌, ◌+◌, List, [], ◌∷◌, true, false, ok, throws, fatal, arith, ℕ_discrete, contains,
  length, inl, ◌==◌, if◌then◌else◌,
}
use cs7610_f.Lab2.FailureDetector.{
  FailureDetector, note_heart_beat, heart_beat_packet, heart_beat_listener_step, detector_step,
  scan, get_alive_peers,
}
use cs7610_f.Lab2.FailureDetector.Events.{Event, beat, scanned, run, told, turns}
use cs7610_f.Lab2.FailureDetector.Timing.{
  only_turns, note_heart_beat-run_alive, turns-run-silent, run-only_turns-told,
}
use cs7610_f.Lab2.FailureDetector.Listener.{arrival, heart_beat_listener_step-heart_beat_packet}
use cs7610_f.Lab2.Tests.Scene.{program, peer}

abbrev detector : FailureDetector
detector = record {
  heart_beat_port = 10001;
  on_failure_callbacks = 0 ∷ [];
  peer_heart_beat_map = (1, 2) ∷ (3, 0) ∷ [];
}

-- The second host beats once more after two turns, while the third is reported.
abbrev events : List Event
events = scanned ∷ scanned ∷ beat 2 ∷ scanned ∷ scanned ∷ []

note_heart_beat-run_alive_example :
    (told 2 (run (note_heart_beat 2 detector) events).1 ≡ false)
    × (contains ℕ_discrete 2 (get_alive_peers (run (note_heart_beat 2 detector) events).0) ≡ true)
unfolding program
note_heart_beat-run_alive_example =
    note_heart_beat-run_alive 2 detector events (refl, (refl, tt)) refl

turns-run-silent_example :
    turns (scanned ∷ scanned ∷ []) ≤ 2 + length (run detector (scanned ∷ scanned ∷ [])).1
unfolding program run detector_step scan
turns-run-silent_example =
    turns-run-silent 1 2 0 [] detector (scanned ∷ scanned ∷ []) refl (inl (refl, omega arith)) refl
      refl

run-only_turns-told_example : told 1 (run detector (only_turns 5)).1 ≡ true
run-only_turns-told_example = run-only_turns-told 1 2 0 detector refl (inl (refl, omega arith))

heart_beat_listener_step-heart_beat_packet_example :
    heart_beat_listener_step
      (peer 1)
      detector
      (arrival (heart_beat_packet (peer 2)) [] "bee.cs7610-bridge")
    ≡ (if 2 == 2 then ok (note_heart_beat 2 detector) else throws fatal)
unfolding program
heart_beat_listener_step-heart_beat_packet_example =
    heart_beat_listener_step-heart_beat_packet (peer 1) (peer 2) detector [] "bee.cs7610-bridge" 2
      (omega arith) refl
