-- ===== src/Lab1/Snapshot/Recording.antt =====
-- lab1/src/part2/snapshot.cpp: a channel records what comes between the snapshot and its marker.
use cs7610_f.Prelude.{
  ◌≡◌, refl, sym, ap, ◌∙◌, ◌≢◌, Bool, true, false, List, [], ◌∷◌, ◌++◌, String, String_discrete,
  some, Result, ok, throws, ite, lookup,
}
use cs7610_f.Lab1.Message.{Message}
use cs7610_f.Lab1.Snapshot.Defs.{Recorded, recorded_of, SnapshotService, record_incoming_messages}
use cs7610_f.Lab1.Snapshot.Events.{
  Event, from, step, run, entry, heard, ok_bind_inv, ok_injective, Holds, ite_same, ite_other,
  incoming, marker,
}
use cs7610_f.Lab1.Snapshot.Channels.{
  news, append_nil, append_assoc, incoming-Holds_other, incoming-Holds_own, marker-Holds,
}

entry-append : (r : Result Recorded) (rest : List Recorded) → entry r rest ≡ entry r [] ++ rest
entry-append (ok recorded) rest = refl
entry-append (throws error) rest = refl

-- What is heard on a channel, if it is recorded.
abbrev heard_if : Bool → String → List Event → List Recorded
heard_if false channel events = []
heard_if true channel events = heard channel events

heard-own :
    (channel : String) (recording : Bool) (message : Message) (events : List Event)
    → from message ≡ channel
    → news channel recording message ++ heard_if recording channel events
      ≡ heard_if recording channel (incoming message ∷ events)
heard-own channel false message events n = refl
heard-own channel true message events n =
    ap (λ xs. xs ++ heard channel events)
      (ite_same (from message) channel (entry (recorded_of message) []) [] n)
    ∙ sym (entry-append (recorded_of message) (heard channel events))
    ∙ sym (
        ite_same (from message) channel (entry (recorded_of message) (heard channel events))
          (heard channel events) n)

heard-other :
    (channel : String) (recording : Bool) (message : Message) (events : List Event)
    → from message ≢ channel
    → heard_if recording channel events ≡ heard_if recording channel (incoming message ∷ events)
heard-other channel false message events n = refl
heard-other channel true message events n = sym (
    ite_other (from message) channel (entry (recorded_of message) (heard channel events))
      (heard channel events) n)

heard-marker :
    (channel : String) (recording : Bool) (message : Message) (events : List Event)
    → heard_if (ite (String_discrete (from message) channel) false recording) channel events
      ≡ heard_if recording channel (marker message ∷ events)
heard-marker channel false message events =
    elim (String_discrete (from message) channel)
      as (λ t. heard_if (ite t false false) channel events ≡ []) [ yes e ↦ refl | no e ↦ refl ]
heard-marker channel true message events =
    elim (String_discrete (from message) channel)
      as (λ t. heard_if (ite t false true) channel events ≡ ite t [] (heard channel events)) [
        | yes e ↦ refl
        | no e ↦ refl
      ]

incoming-Holds :
    (channel : String) (recording : Bool) (messages : List Recorded) (message : Message)
    (events : List Event) (s after : SnapshotService)
    → record_incoming_messages message s ≡ ok after
    → Holds channel recording messages s
    → (messages' : List Recorded) × Holds channel recording messages' after
      × (messages' ++ heard_if recording channel events
          ≡ messages ++ heard_if recording channel (incoming message ∷ events))
incoming-Holds channel recording messages message events s after e h =
    elim (String_discrete (from message) channel) [
      | yes n ↦ (
        messages ++ news channel recording message,
        incoming-Holds_own channel recording messages message s after n e h,
        append_assoc messages (news channel recording message) (heard_if recording channel events)
            ∙ ap (λ xs. messages ++ xs) (heard-own channel recording message events n),
      )
      | no n ↦ (
        messages,
        incoming-Holds_other channel recording messages message s after n e h,
        ap (λ xs. messages ++ xs) (heard-other channel recording message events n),
      )
    ]

step_incoming :
    (state : String) (message : Message) (s after : SnapshotService)
    → step state (incoming message) s ≡ ok after
    → record_incoming_messages message s ≡ ok after
unfolding step
step_incoming state message s after e = e

heard_if_nil : (recording : Bool) (channel : String) → heard_if recording channel [] ≡ []
heard_if_nil true channel = refl
heard_if_nil false channel = refl

-- Once the snapshot is initiated, a channel that is recorded gets exactly the messages that come on it
-- before its marker, in their order, and a channel that is not recorded gets nothing.
pub run-heard :
    (channel state : String) (recording : Bool) (messages : List Recorded) (events : List Event)
    (s after : SnapshotService)
    → Holds channel recording messages s
    → run state events s ≡ ok after
    → lookup String_discrete channel after.incoming_channels
      ≡ some (messages ++ heard_if recording channel events)
unfolding run
run-heard channel state recording messages [] s after h e =
    ap (lookup String_discrete channel) (ap (λ s. s.incoming_channels) (sym (ok_injective after e)))
    ∙ h.1
    ∙ ap some (sym (append_nil messages))
    ∙ ap (λ xs. some (messages ++ xs)) (sym (heard_if_nil recording channel))
run-heard channel state recording messages (incoming message ∷ events) s after h e =
    let (s', e1, k1) = ok_bind_inv (step state (incoming message) s) (run state events) after e in
    let (messages', h', same) =
      incoming-Holds channel recording messages message events s s'
        (step_incoming state message s s' e1) h in
    run-heard channel state recording messages' events s' after h' k1 ∙ ap some same
run-heard channel state recording messages (marker message ∷ events) s after h e =
    let (s', e1, k1) = ok_bind_inv (step state (marker message) s) (run state events) after e in
    run-heard channel state (ite (String_discrete (from message) channel) false recording) messages
      events s' after (marker-Holds channel state recording messages message s s' e1 h) k1
    ∙ ap (λ xs. some (messages ++ xs)) (heard-marker channel recording message events)
