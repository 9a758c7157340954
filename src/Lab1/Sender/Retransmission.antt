-- ===== src/Lab1/Sender/Retransmission.antt =====
-- ContinuousMsgSender<T> of lab1/src/part1/multicast.cpp: a message is sent until it is acknowledged.
use cs7610_f.Prelude.{
  ℕ, ◌≡◌, ◌≢◌, refl, sym, ◌∙◌, subst, true, false, List, [], ◌∷◌, some, ok, inl, inr, arith, String,
  String_discrete, All, All-append, All-erase, ◌==◌, contains, contains-from_list, Bool-cases, ◌⊎◌,
}
use cs7610_f.Lab1.Sender.Defs.{
  MsgHolder, ContinuousMsgSender, Round, Position, at_top, new_holder, queue_msg, erase_recipient,
  no_recipients, drop_finished, remove_recipient, sending_step, await_data, send_round,
  get_sending_interval, is_empty,
}
use cs7610_f.Lab1.Sender.Rounds.{
  IsReachable, AllReachable, from_list-IsReachable, full_round, sending_step_top,
}
use cs7610_f.Lab1.Sender.Waiting.{
  Goes, Waits, Waits-append, Waits-last, Waits-erase_recipient, Waits-drop_finished, Waits-Goes,
}

module _ {T : Type 0} (id_of : T → ℕ) where
  -- What a thread may do while the recipient does not acknowledge the message of that id: another message
  -- is queued, another recipient or another id is acknowledged, or the sending thread makes a round.
  pub data Unacknowledged (id : ℕ) (r : String) (s : ContinuousMsgSender T)
      : ContinuousMsgSender T → Type 0 where
    at_once : Unacknowledged id r s s
    queued :
        {t : ContinuousMsgSender T}
        → Unacknowledged id r s t
        → (m : T) → Unacknowledged id r s (queue_msg t m)
    acknowledged :
        {t : ContinuousMsgSender T}
        → Unacknowledged id r s t
        → (other : ℕ) (recipient : String) → (other ≢ id) ⊎ (recipient ≢ r)
        → Unacknowledged id r s (remove_recipient id_of t other recipient).0
    rounds :
        {t : ContinuousMsgSender T}
        → Unacknowledged id r s t
        → (position : Position) (round : Round T) → sending_step position t ≡ some (ok round)
        → Unacknowledged id r s round.after

  -- Every listed recipient has a sender, and so has every recipient of a message to come.
  abbrev Sendable : ContinuousMsgSender T → Type 0
  Sendable s = AllReachable s × IsReachable s.udp_sender_map s.recipients

  new_holder-IsReachable :
      (s : ContinuousMsgSender T) (m : T) → Sendable s → Sendable (queue_msg s m)
  unfolding queue_msg
  new_holder-IsReachable s m (a, k) = (
    All-append (λ h. IsReachable s.udp_sender_map h.recipients) s.msg_list _ a
        (from_list-IsReachable s.udp_sender_map s.recipients k, tt),
    k,
  )

  erase_recipient-All :
      (senders : List String) (id : ℕ) (r : String) (hs : List (MsgHolder T))
      → All (λ h. IsReachable senders h.recipients) hs
      → All (λ h. IsReachable senders h.recipients) (erase_recipient id_of id r hs).0
  unfolding erase_recipient
  erase_recipient-All senders id r [] a = tt
  erase_recipient-All senders id r (h ∷ hs) a = elim (Bool-cases (id == id_of h.org_msg)) [
    | inl e ↦
        rw (e, erase_recipient)
          (
            All-erase String_discrete (λ r. contains String_discrete r senders ≡ true) r
                h.recipients a.0,
            a.1,
          )
    | inr e ↦ rw (e, erase_recipient) (a.0, erase_recipient-All senders id r hs a.1)
  ]

  drop_finished-All :
      (senders : List String) (hs : List (MsgHolder T))
      → All (λ h. IsReachable senders h.recipients) hs
      → All (λ h. IsReachable senders h.recipients) (drop_finished hs)
  unfolding drop_finished
  drop_finished-All senders [] a = tt
  drop_finished-All senders (h ∷ hs) a = elim (Bool-cases (no_recipients h)) [
    | inl e ↦ rw (e, drop_finished) a.1
    | inr e ↦ rw (e, drop_finished) (a.0, drop_finished-All senders hs a.1)
  ]

  -- A round changes neither the list nor the recipients.
  sending_step-keeps :
      (position : Position) (s : ContinuousMsgSender T) (round : Round T)
      → sending_step position s ≡ some (ok round)
      → (round.after.msg_list ≡ s.msg_list)
        × (round.after.udp_sender_map ≡ s.udp_sender_map)
        × (round.after.recipients ≡ s.recipients)
  unfolding sending_step await_data send_round get_sending_interval
  sending_step-keeps position s round e = ground arith

  -- What holds until the acknowledgement.
  abbrev Listed : ℕ → String → List ℕ → ContinuousMsgSender T → Type 0
  Listed id r bytes s = Sendable s × Waits id_of id r bytes s.msg_list

  Unacknowledged-Listed :
      (id : ℕ) (r : String) (bytes : List ℕ) (s t : ContinuousMsgSender T)
      → Unacknowledged id r s t
      → Listed id r bytes s
      → Listed id r bytes t
  unfolding queue_msg remove_recipient
  Unacknowledged-Listed id r bytes s t at_once l = l
  Unacknowledged-Listed id r bytes s t (queued {t = t'} u m) l =
      let (k, w) = Unacknowledged-Listed id r bytes s t' u l in
      (
        new_holder-IsReachable t' m k,
        Waits-append id_of id r bytes t'.msg_list (new_holder m t'.serializer t'.recipients ∷ []) w,
      )
  Unacknowledged-Listed id r bytes s t (acknowledged {t = t'} u other recipient n) l =
      let ((a, k), w) = Unacknowledged-Listed id r bytes s t' u l in
      let left : List (MsgHolder T) = (erase_recipient id_of other recipient t'.msg_list).0 in
      (
        (
          drop_finished-All t'.udp_sender_map left
              (erase_recipient-All t'.udp_sender_map other recipient t'.msg_list a),
          k,
        ),
        Waits-drop_finished id_of id r bytes left
            (Waits-erase_recipient id_of id r bytes other recipient t'.msg_list n w),
      )
  Unacknowledged-Listed id r bytes s t (rounds {t = t'} u position round e) l =
      let ((a, k), w) = Unacknowledged-Listed id r bytes s t' u l in
      let (hs, senders, rs) = sending_step-keeps position t' round e in
      (
        (
          subst (λ hs. All (λ h. IsReachable round.after.udp_sender_map h.recipients) hs) (sym hs)
              (subst (λ l. All (λ h. IsReachable l h.recipients) t'.msg_list) (sym senders) a),
          subst (IsReachable round.after.udp_sender_map) (sym rs)
              (subst (λ l. IsReachable l t'.recipients) (sym senders) k),
        ),
        subst (Waits id_of id r bytes) (sym hs) w,
      )

  listed-is_empty :
      (id : ℕ) (r : String) (bytes : List ℕ) (hs : List (MsgHolder T))
      → Waits id_of id r bytes hs
      → is_empty hs ≡ false
  listed-is_empty id r bytes [] w = absurd w
  listed-is_empty id r bytes (h ∷ hs) w = refl

  -- After queueMsg, as long as the recipient has not acknowledged the id of the message, and whatever else
  -- is queued, acknowledged or sent, the next round from the top of the loop throws nothing and sends the
  -- message, serialized, to the recipient.
  pub queue_msg-sending_step :
      (s t : ContinuousMsgSender T) (m : T) (r : String)
      → AllReachable s
      → IsReachable s.udp_sender_map s.recipients
      → contains String_discrete r s.recipients ≡ true
      → Unacknowledged (id_of m) r (queue_msg s m) t
      → (round : Round T) × (sending_step at_top t ≡ some (ok round))
        × Goes r (s.serializer m) round.packets
  unfolding queue_msg
  queue_msg-sending_step s t m r a k c u =
      let bytes : List ℕ = s.serializer m in
      let holder : MsgHolder T = new_holder m s.serializer s.recipients in
      let new : Waits id_of (id_of m) r bytes (holder ∷ []) =
        unfold new_holder in
        inl (refl, refl, contains-from_list String_discrete r s.recipients ∙ c) in
      let ((a', k'), w) = Unacknowledged-Listed (id_of m) r bytes (queue_msg s m) t u (
        new_holder-IsReachable s m (a, k),
        Waits-last id_of (id_of m) r bytes s.msg_list (holder ∷ []) new,
      ) in
      (
        full_round t,
        sending_step_top t a' (listed-is_empty (id_of m) r bytes t.msg_list w),
        Waits-Goes id_of (id_of m) r bytes t.msg_list w,
      )
