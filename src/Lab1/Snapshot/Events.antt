-- ===== src/Lab1/Snapshot/Events.antt =====
-- lab1/src/part2/snapshot.cpp: the messages and markers that come in, and what each leaves.
use cs7610_f.Prelude.{
  ◌≡◌, refl, sym, ap, ◌∙◌, ◌≢◌, Bool, true, false, List, [], ◌∷◌, ◌++◌, String, String_discrete,
  Option, none, some, Result, ok, throws, Error, arith, ite, out_of_range, fatal, check, or_throw,
  ◌>>=◌, ◌>>◌, lookup, assign, contains, erase, Distinct, if◌then◌else◌,
}
use cs7610_f.Hosts.{parse_hostname_from_sender}
use cs7610_f.Lab1.Message.{Message}
use cs7610_f.Lab1.Snapshot.Defs.{
  Recorded, recorded_of, record_message, SnapshotService, marker_step, record_incoming_messages,
  first_marker, is_marker,
}
use cs7610_f.Lab1.Serde.{get_message_type, deserialize_marker_message}
use cs7610_f.Lab1.Sender.{Packet}

-- A multicast message that is received, or a connection that brings a marker.
pub data Event : Type 0 where
  incoming : Message → Event
  marker : Message → Event

abbrev pub from : Message → String
from message = parse_hostname_from_sender message.sender

unfoldable pub step : String → Event → SnapshotService → Result SnapshotService
unfolding record_incoming_messages marker_step
step state (incoming message) s = record_incoming_messages message s
step state (marker message) s = do (s', packets) ← marker_step state message s; ok s'

unfoldable pub run : String → List Event → SnapshotService → Result SnapshotService
unfolding step
run state [] s = ok s
run state (event ∷ events) s = do s' ← step state event s; run state events s'

abbrev pub entry : Result Recorded → List Recorded → List Recorded
entry (ok recorded) rest = recorded ∷ rest
entry (throws error) rest = rest

-- What comes on the channel before its marker.
abbrev pub heard : String → List Event → List Recorded
heard channel [] = []
heard channel (incoming message ∷ events) =
    let rest = heard channel events in
    ite (String_discrete (from message) channel) (entry (recorded_of message) rest) rest
heard channel (marker message ∷ events) =
    let rest = heard channel events in ite (String_discrete (from message) channel) [] rest

pub ok_bind_inv :
    {A B : Type 0} (r : Result A) (f : A → Result B) (b : B)
    → (r >>= f) ≡ ok b
    → (a : A) × (r ≡ ok a) × (f a ≡ ok b)
ok_bind_inv (ok a) f b e = (a, refl, e)
ok_bind_inv (throws error) f b e = ground arith

pub ok_injective : {A : Type 0} {a : A} (b : A) → ok a ≡ ok b → a ≡ b
ok_injective b e = ap (λ r. elim r [ ok value ↦ value | throws error ↦ b ]) e

-- The state of a channel: whether it is recorded, and what has been.
abbrev pub Holds : String → Bool → List Recorded → SnapshotService → Type 0
Holds channel recording messages s =
    (contains String_discrete channel s.channels_to_be_recorded ≡ recording)
    × (lookup String_discrete channel s.incoming_channels ≡ some messages)
    × Distinct String_discrete s.channels_to_be_recorded
    × (s.snapshot_initiated ≡ true)

pub marker_step-initiated :
    (state : String) (message : Message) (s after : SnapshotService)
    → s.snapshot_initiated ≡ true
    → step state (marker message) s ≡ ok after
    → after ≡ record s {
      channels_to_be_recorded = erase String_discrete (from message) s.channels_to_be_recorded;
    }
unfolding step marker_step
marker_step-initiated state message s after i e =
    let ended : SnapshotService × List Packet → Result (SnapshotService × List Packet) = λ r. ok (
      record r.0 {
        channels_to_be_recorded = erase String_discrete (from message) r.0.channels_to_be_recorded;
      },
      r.1,
    ) in
    let started : Result (SnapshotService × List Packet) =
      if s.snapshot_initiated then ok (s, []) else first_marker state (from message) s in
    let decoded : Result (SnapshotService × List Packet) =
      deserialize_marker_message message >>= λ _. started >>= ended in
    let (r, e1, k1) = ok_bind_inv (marker_step state message s) (λ r. ok r.0) after e in
    let (t, e2, k2) =
      ok_bind_inv (get_message_type message) (λ t. check (is_marker t) fatal >> decoded) r e1 in
    let (u, e3, k3) = ok_bind_inv (check (is_marker t) fatal) (λ _. decoded) r k2 in
    let (m, e4, k4) =
      ok_bind_inv (deserialize_marker_message message) (λ _. started >>= ended) r k3 in
    let same : ended (s, []) ≡ ok r =
      sym (ap (λ b. (if b then ok (s, []) else first_marker state (from message) s) >>= ended) i)
      ∙ k4 in
    ground arith

or_throw_inv :
    {A : Type 0} (o : Option A) (error : Error) (a : A) → or_throw o error ≡ ok a → o ≡ some a
or_throw_inv none error a e = ground arith
or_throw_inv (some b) error a e = ap some (ok_injective a e)

pub some_injective : {A : Type 0} {a : A} (b : A) → some a ≡ some b → a ≡ b
some_injective b e = ap (λ o. elim o [ some value ↦ value | none ↦ b ]) e

-- What a message on a channel that is recorded does.
pub record_incoming_messages_open :
    (message : Message) (s after : SnapshotService)
    → contains String_discrete (from message) s.channels_to_be_recorded ≡ true
    → record_incoming_messages message s ≡ ok after
    → (messages : List Recorded) × (recorded : Recorded) × (lookup String_discrete
          (from message)
          s.incoming_channels
        ≡ some messages)
      × (recorded_of message ≡ ok recorded)
      × (after ≡ record s {
        incoming_channels =
            assign String_discrete (from message) (messages ++ (recorded ∷ [])) s.incoming_channels;
      })
unfolding record_incoming_messages record_message
record_incoming_messages_open message s after c e =
    let put : List Recorded → Result SnapshotService = λ messages. ok (record s {
      incoming_channels = assign String_discrete (from message) messages s.incoming_channels;
    }) in
    let record_it : List Recorded → Result SnapshotService =
      λ messages. record_message message messages >>= put in
    let found : Result (List Recorded) =
      or_throw (lookup String_discrete (from message) s.incoming_channels) out_of_range in
    let (messages, e1, k1) =
      ok_bind_inv found record_it after
        (sym (ap (λ b. if b then (found >>= record_it) else ok s) c) ∙ e) in
    let (messages', e2, k2) = ok_bind_inv (record_message message messages) put after k1 in
    let (recorded, e3, k3) =
      ok_bind_inv (recorded_of message) (λ recorded. ok (messages ++ (recorded ∷ []))) messages'
        e2 in
    (
      messages,
      recorded,
      or_throw_inv (lookup String_discrete (from message) s.incoming_channels) out_of_range messages
          e1,
      e3,
      sym (ok_injective after k2)
          ∙ ap
              (λ messages. record s {
                incoming_channels =
                    assign String_discrete (from message) messages s.incoming_channels;
              })
              (sym (ok_injective messages' k3)),
    )

pub ite_same : {A : Type 0} (x y : String) (a b : A) → x ≡ y → ite (String_discrete x y) a b ≡ a
ite_same x y a b e = ground arith

pub ite_other : {A : Type 0} (x y : String) (a b : A) → x ≢ y → ite (String_discrete x y) a b ≡ b
ite_other x y a b e = ground arith

pub record_incoming_messages_closed :
    (message : Message) (s after : SnapshotService)
    → contains String_discrete (from message) s.channels_to_be_recorded ≡ false
    → record_incoming_messages message s ≡ ok after
    → after ≡ s
unfolding record_incoming_messages
record_incoming_messages_closed message s after c e = ground arith
