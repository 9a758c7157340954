-- ===== src/Lab1/Multicast/Repeats.antt =====
-- A data message that arrives again, while the service does other things in between.
use cs7610_f.Prelude.{
  ℕ, ◌≡◌, ◌≢◌, refl, sym, ap, ◌∙◌, true, false, List, [], ◌∷◌, some, ok, throws, arith, lookup,
  lookup-assign, lookup-remove, contains, contains-erase_ne, erase, remove, ◌+◌, ◌%◌, Bool-cases,
  Option-cases, inl, inr, subst,
}
use cs7610_f.Lab1.Message.{u32_mod, DataMessage, AckMessage, SeqMessage, SeqAckMessage}
use cs7610_f.Lab1.HoldBack.{
  MsgIdentifier, MsgIdentifier-discrete, HoldBackQueue, PendingMsg, identifier, mark_deliverable,
  erase_each,
}
use cs7610_f.Lab1.HoldBack.Queue.{is_pending, add_to_queue_lem}
use cs7610_f.Lab1.Multicast.State.{MulticastService, Outcome, send_to_id, multicast}
use cs7610_f.Lab1.Multicast.Defs.{
  process_data_msg, process_ack_msg, process_seq_msg, process_seq_ack_msg, record_proposal,
}
use cs7610_f.Lab1.Multicast.Delivery.{
  Event, requested, data_received, ack_received, seq_received, seq_ack_received, step,
}
use cs7610_f.Lab1.Multicast.Duplicates.{
  answered, answered-service, noted, next_ack, lookup-noted, noted-pending,
  process_data_msg_uncached, process_data_msg_cached, process_data_msg_new,
}

-- The event is not a sequence message for the identifier.
abbrev pub Spares : MsgIdentifier → Event → Type 0
Spares id (seq_received m) = identifier m.msg_id m.sender ≢ id
Spares id e = Unit

-- The service t is reached from s by calls that end without an exception, none of them about a sequence
-- message for the identifier.
pub data Between (id : MsgIdentifier) (s : MulticastService) : MulticastService → Type 0 where
  at_once : Between id s s
  and_then :
      {t : MulticastService}
      → Between id s t
      → (e : Event) (o : Outcome) → Spares id e
      → step t e ≡ ok o
      → Between id s o.service

-- The message waits and its acknowledgement is cached; the maps are those of s.
record Holds (id : MsgIdentifier) (ack : AckMessage) (s t : MulticastService) : Type 0 where
  pub pending : is_pending id t.hold_back_queue ≡ true
  pub cached : lookup MsgIdentifier-discrete id t.ack_message_cache ≡ some ack
  pub ids : t.recipient_id_map ≡ s.recipient_id_map
  pub senders : t.udp_sender_map ≡ s.udp_sender_map

-- What a call leaves alone that is about other messages.
abbrev Keeps : MulticastService → MulticastService → Type 0
Keeps s t =
    (t.hold_back_queue ≡ s.hold_back_queue)
    × (t.ack_message_cache ≡ s.ack_message_cache)
    × (t.recipient_id_map ≡ s.recipient_id_map)
    × (t.udp_sender_map ≡ s.udp_sender_map)

Keeps-Holds :
    (id : MsgIdentifier) (ack : AckMessage) (s t t' : MulticastService)
    → Keeps t t'
    → Holds id ack s t
    → Holds id ack s t'
Keeps-Holds id ack s t t' (q, c, i, u) h = record {
  pending = ap (is_pending id) q ∙ h.pending;
  cached = ap (lookup MsgIdentifier-discrete id) c ∙ h.cached;
  ids = i ∙ h.ids;
  senders = u ∙ h.senders;
}

record_proposal-Keeps :
    (s s' : MulticastService) (m : AckMessage) → record_proposal s m ≡ ok s' → Keeps s s'
unfolding record_proposal
record_proposal-Keeps s s' m e = ground arith

process_ack_msg-Keeps :
    (s : MulticastService) (m : AckMessage) (o : Outcome)
    → process_ack_msg s m ≡ ok o
    → Keeps s o.service
unfolding process_ack_msg
process_ack_msg-Keeps s m o e = ground arith

process_seq_ack_msg-Keeps :
    (s : MulticastService) (m : SeqAckMessage) (o : Outcome)
    → process_seq_ack_msg s m ≡ ok o
    → Keeps s o.service
unfolding process_seq_ack_msg
process_seq_ack_msg-Keeps s m o e = ground arith

multicast-Keeps : (s : MulticastService) (payload : ℕ) → Keeps s (multicast s payload)
unfolding multicast
multicast-Keeps s payload = (refl, refl, refl, refl)

contains-erase_each :
    (k j : MsgIdentifier) (ps : List PendingMsg) (l : List MsgIdentifier)
    → k ≢ j
    → contains MsgIdentifier-discrete j (erase_each k ps l) ≡ contains MsgIdentifier-discrete j l
unfolding erase_each
contains-erase_each k j [] l n = refl
contains-erase_each k j (p ∷ ps) l n =
    contains-erase_each k j ps (erase MsgIdentifier-discrete k l) n
    ∙ contains-erase_ne MsgIdentifier-discrete k j l n

-- A sequence message takes no other identifier off the set.
mark_deliverable-other :
    (q : HoldBackQueue) (m : SeqMessage) (j : MsgIdentifier)
    → identifier m.msg_id m.sender ≢ j
    → is_pending j (mark_deliverable q m).queue ≡ is_pending j q
unfolding mark_deliverable
mark_deliverable-other q m j n = elim (Bool-cases (is_pending (identifier m.msg_id m.sender) q)) [
  | inl e ↦ rw (e, mark_deliverable) (contains-erase_each _ j _ q.pending_msg_set n)
  | inr e ↦ rw (e, mark_deliverable) refl
]

data_received-Holds :
    (id : MsgIdentifier) (ack : AckMessage) (s t : MulticastService) (m : DataMessage) (o : Outcome)
    → process_data_msg t m ≡ ok o
    → Holds id ack s t
    → Holds id ack s o.service
data_received-Holds id ack s t m o e h =
    let this : MsgIdentifier = identifier m.msg_id m.sender in
    elim (Bool-cases (is_pending this t.hold_back_queue)) [
      | inl p ↦ elim (Option-cases (lookup MsgIdentifier-discrete this t.ack_message_cache)) [
        | inl c ↦ cc (process_data_msg_uncached t m p c)
        | inr (old, c) ↦
            subst (Holds id ack s)
              (sym
                (answered-service t m.sender old o (sym (process_data_msg_cached t m old p c) ∙ e)))
              h
      ]
      | inr p ↦
          let same : o.service ≡ noted t m =
            answered-service (noted t m) m.sender (next_ack t m) o
              (sym (process_data_msg_new t m p) ∙ e) in
          subst (Holds id ack s) (sym same) (noted-Holds id ack s t m p h)
    ]
  where
    noted-Holds :
        (id : MsgIdentifier) (ack : AckMessage) (s t : MulticastService) (m : DataMessage)
        → is_pending (identifier m.msg_id m.sender) t.hold_back_queue ≡ false
        → Holds id ack s t
        → Holds id ack s (noted t m)
    noted-Holds id ack s t m p h = record {
      pending = ground (
        arith,
        h.pending,
        add_to_queue_lem t.hold_back_queue m ((t.latest_seq_id + 1) % u32_mod) t.sender_id id,
      );
      cached = ground (
        arith,
        h.pending,
        h.cached,
        p,
        lookup-assign MsgIdentifier-discrete (identifier m.msg_id m.sender) id (next_ack t m)
            t.ack_message_cache,
      );
      ids = h.ids;
      senders = h.senders;
    }

process_seq_msg-parts :
    (s : MulticastService) (m : SeqMessage) (o : Outcome)
    → process_seq_msg s m ≡ ok o
    → (o.service.hold_back_queue ≡ (mark_deliverable s.hold_back_queue m).queue)
      × (o.service.ack_message_cache
          ≡ remove MsgIdentifier-discrete (identifier m.msg_id m.sender) s.ack_message_cache)
      × (o.service.recipient_id_map ≡ s.recipient_id_map)
      × (o.service.udp_sender_map ≡ s.udp_sender_map)
unfolding process_seq_msg
process_seq_msg-parts s m o e = ground arith

seq_received-Holds :
    (id : MsgIdentifier) (ack : AckMessage) (s t : MulticastService) (m : SeqMessage) (o : Outcome)
    → identifier m.msg_id m.sender ≢ id
    → process_seq_msg t m ≡ ok o
    → Holds id ack s t
    → Holds id ack s o.service
seq_received-Holds id ack s t m o n e h =
    let this : MsgIdentifier = identifier m.msg_id m.sender in
    let (q, c, i, u) = process_seq_msg-parts t m o e in
    let found : lookup MsgIdentifier-discrete id
          (remove MsgIdentifier-discrete this t.ack_message_cache)
        ≡ lookup MsgIdentifier-discrete id t.ack_message_cache =
      ground (arith, n, lookup-remove MsgIdentifier-discrete this id t.ack_message_cache) in
    record {
      pending = ap (is_pending id) q ∙ mark_deliverable-other t.hold_back_queue m id n ∙ h.pending;
      cached = ap (lookup MsgIdentifier-discrete id) c ∙ found ∙ h.cached;
      ids = i ∙ h.ids;
      senders = u ∙ h.senders;
    }

step-Holds :
    (id : MsgIdentifier) (ack : AckMessage) (s t : MulticastService) (e : Event) (o : Outcome)
    → Spares id e
    → step t e ≡ ok o
    → Holds id ack s t
    → Holds id ack s o.service
unfolding step
step-Holds id ack s t (requested payload) o n e h =
    subst (Holds id ack s) (ap (λ r. elim r [ ok o ↦ o.service | throws error ↦ t ]) e)
      (Keeps-Holds id ack s t (multicast t payload) (multicast-Keeps t payload) h)
step-Holds id ack s t (data_received m) o n e h = data_received-Holds id ack s t m o e h
step-Holds id ack s t (ack_received m) o n e h =
    Keeps-Holds id ack s t o.service (process_ack_msg-Keeps t m o e) h
step-Holds id ack s t (seq_received m) o n e h = seq_received-Holds id ack s t m o n e h
step-Holds id ack s t (seq_ack_received m) o n e h =
    Keeps-Holds id ack s t o.service (process_seq_ack_msg-Keeps t m o e) h

Between-Holds :
    (id : MsgIdentifier) (ack : AckMessage) (s t : MulticastService)
    → Holds id ack s s
    → Between id s t
    → Holds id ack s t
Between-Holds id ack s t h at_once = h
Between-Holds id ack s t h (and_then {t = t'} b e o n k) =
    step-Holds id ack s t' e o n k (Between-Holds id ack s t' h b)

-- The answer depends on the maps alone.
answered_again :
    (s t : MulticastService) (id : ℕ) (ack : AckMessage) (o : Outcome)
    → t.recipient_id_map ≡ s.recipient_id_map
    → t.udp_sender_map ≡ s.udp_sender_map
    → answered s id ack ≡ ok o
    → answered t id ack ≡ ok (record { service = t; sent = o.sent; delivered = [] })
unfolding answered send_to_id
answered_again s t id ack o i u e = ground arith

-- What the first processing leaves.
processed-Holds :
    (s : MulticastService) (m : DataMessage) (o : Outcome)
    → process_data_msg s m ≡ ok o
    → (ack : AckMessage) × (answered o.service m.sender ack ≡ ok o)
      × Holds (identifier m.msg_id m.sender) ack o.service o.service
processed-Holds s m o e =
    let id : MsgIdentifier = identifier m.msg_id m.sender in
    elim (Bool-cases (is_pending id s.hold_back_queue)) [
      | inl p ↦ elim (Option-cases (lookup MsgIdentifier-discrete id s.ack_message_cache)) [
        | inl c ↦ cc (process_data_msg_uncached s m p c)
        | inr (ack, c) ↦ from s ack p c (sym (process_data_msg_cached s m ack p c) ∙ e)
      ]
      | inr p ↦
          from (noted s m) (next_ack s m) (noted-pending s m) (lookup-noted s m)
            (sym (process_data_msg_new s m p) ∙ e)
    ]
  where
    from :
        (t : MulticastService) (ack : AckMessage)
        → is_pending (identifier m.msg_id m.sender) t.hold_back_queue ≡ true
        → lookup MsgIdentifier-discrete (identifier m.msg_id m.sender) t.ack_message_cache
          ≡ some ack
        → answered t m.sender ack ≡ ok o
        → (ack : AckMessage) × (answered o.service m.sender ack ≡ ok o)
          × Holds (identifier m.msg_id m.sender) ack o.service o.service
    from t ack p c e =
        let same : t ≡ o.service = sym (answered-service t m.sender ack o e) in
        (
          ack,
          subst (λ u. answered u m.sender ack ≡ ok o) same e,
          subst (λ u. Holds (identifier m.msg_id m.sender) ack u u) same
              (record { pending = p; cached = c; ids = refl; senders = refl }),
        )

-- A data message that arrives again, at once or after any calls that end without an exception and are not
-- about a sequence message for it, changes nothing, delivers nothing, and is answered by the packet that
-- answered it first.
pub process_data_msg_again :
    (s t : MulticastService) (m : DataMessage) (o : Outcome)
    → process_data_msg s m ≡ ok o
    → Between (identifier m.msg_id m.sender) o.service t
    → process_data_msg t m ≡ ok (record { service = t; sent = o.sent; delivered = [] })
process_data_msg_again s t m o e b =
    let (ack, first, held) = processed-Holds s m o e in
    let h = Between-Holds (identifier m.msg_id m.sender) ack o.service t held b in
    process_data_msg_cached t m ack h.pending h.cached
    ∙ answered_again o.service t m.sender ack o h.ids h.senders first
