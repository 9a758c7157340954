-- ===== src/Lab1/Snapshot/Channels.antt =====
-- lab1/src/part2/snapshot.cpp: what one message or one marker does to a channel.
use cs7610_f.Prelude.{
  ◌≡◌, refl, sym, ap, subst, ◌∙◌, ◌≢◌, Bool, true, false, Bool-cases, inl, inr, List, [], ◌∷◌, ◌++◌,
  String, String_discrete, some, ok, ite, lookup, lookup-assign, contains, contains-erase,
  erase-Distinct,
}
use cs7610_f.Lab1.Message.{Message}
use cs7610_f.Lab1.Snapshot.Defs.{Recorded, recorded_of, SnapshotService, record_incoming_messages}
use cs7610_f.Lab1.Snapshot.Events.{
  from, step, entry, Holds, marker_step-initiated, some_injective, record_incoming_messages_open,
  record_incoming_messages_closed, ite_same, ite_other, marker,
}

-- What a message adds to the channel.
abbrev pub news : String → Bool → Message → List Recorded
news channel false message = []
news channel true message =
    ite (String_discrete (from message) channel) (entry (recorded_of message) []) []

pub append_nil : (xs : List Recorded) → xs ++ [] ≡ xs
append_nil [] = refl
append_nil (x ∷ xs) = ap (◌∷◌ x) (append_nil xs)

pub append_assoc : (xs ys zs : List Recorded) → (xs ++ ys) ++ zs ≡ xs ++ (ys ++ zs)
append_assoc [] ys zs = refl
append_assoc (x ∷ xs) ys zs = ap (◌∷◌ x) (append_assoc xs ys zs)

-- A message on another channel.
pub incoming-Holds_other :
    (channel : String) (recording : Bool) (messages : List Recorded) (message : Message)
    (s after : SnapshotService)
    → from message ≢ channel
    → record_incoming_messages message s ≡ ok after
    → Holds channel recording messages s
    → Holds channel recording messages after
incoming-Holds_other channel recording messages message s after n e (c, l, d, i) =
    elim (Bool-cases (contains String_discrete (from message) s.channels_to_be_recorded)) [
      | inr closed ↦
          subst (Holds channel recording messages)
            (sym (record_incoming_messages_closed message s after closed e)) (c, l, d, i)
      | inl opened ↦
          let (old, recorded, found, r, same) =
            record_incoming_messages_open message s after opened e in
          subst (Holds channel recording messages) (sym same) (
            c,
            lookup-assign String_discrete (from message) channel (old ++ (recorded ∷ []))
                  s.incoming_channels
                ∙ ite_other (from message) channel (some (old ++ (recorded ∷ [])))
                    (lookup String_discrete channel s.incoming_channels) n
                ∙ l,
            d,
            i,
          )
    ]

-- A message on the channel.
pub incoming-Holds_own :
    (channel : String) (recording : Bool) (messages : List Recorded) (message : Message)
    (s after : SnapshotService)
    → from message ≡ channel
    → record_incoming_messages message s ≡ ok after
    → Holds channel recording messages s
    → Holds channel recording (messages ++ news channel recording message) after
incoming-Holds_own channel false messages message s after n e (c, l, d, i) =
    subst (Holds channel false (messages ++ []))
      (sym (
        record_incoming_messages_closed message s after
          (ap (λ k. contains String_discrete k s.channels_to_be_recorded) n ∙ c) e))
      (c, l ∙ ap some (sym (append_nil messages)), d, i)
incoming-Holds_own channel true messages message s after n e (c, l, d, i) =
    let (old, recorded, found, r, same) =
      record_incoming_messages_open message s after
        (ap (λ k. contains String_discrete k s.channels_to_be_recorded) n ∙ c) e in
    let old_is : old ≡ messages =
      some_injective messages
        (sym found ∙ ap (λ k. lookup String_discrete k s.incoming_channels) n ∙ l) in
    let adds : news channel true message ≡ recorded ∷ [] =
      ite_same (from message) channel (entry (recorded_of message) []) [] n
      ∙ ap (λ r. entry r []) r in
    subst (Holds channel true (messages ++ news channel true message)) (sym same) (
      c,
      lookup-assign String_discrete (from message) channel (old ++ (recorded ∷ []))
            s.incoming_channels
          ∙ ite_same (from message) channel (some (old ++ (recorded ∷ [])))
              (lookup String_discrete channel s.incoming_channels) n
          ∙ (λ j. some (old_is j ++ sym adds j)),
      d,
      i,
    )

-- A marker ends the recording of its channel, and of no other.
pub marker-Holds :
    (channel state : String) (recording : Bool) (messages : List Recorded) (message : Message)
    (s after : SnapshotService)
    → step state (marker message) s ≡ ok after
    → Holds channel recording messages s
    → Holds channel (ite (String_discrete (from message) channel) false recording) messages after
marker-Holds channel state recording messages message s after e (c, l, d, i) =
    subst (Holds channel (ite (String_discrete (from message) channel) false recording) messages)
      (sym (marker_step-initiated state message s after i e))
      (
        contains-erase String_discrete (from message) channel s.channels_to_be_recorded d
            ∙ ap (ite (String_discrete (from message) channel) false) c,
        l,
        erase-Distinct String_discrete (from message) s.channels_to_be_recorded d,
        i,
      )
