-- ===== src/Lab1/Sender/Rounds.antt =====
-- startSendingMessages: what one round of the sending thread sends, and when the thread waits.
use mathlib.Core.List.{append-nil, append_assoc}
use cs7610_f.Prelude.{
  ℕ, ◌≡◌, refl, true, false, List, [], ◌∷◌, ◌++◌, map, some, arith, String, String_discrete, All,
  ok, contains, from_list, All-append, All-insert, ap, ◌∙◌,
}
use cs7610_f.Lab1.Sender.Defs.{
  Packet, MsgHolder, ContinuousMsgSender, queue_msg, send_to, send_all, Round, send_round,
  sending_step, await_data, Position, at_top, in_wait, get_sending_interval, is_empty, new_holder,
}

-- One packet for each message and each of its recipients.
unfoldable pub packets_of : {T : Type 0} → List (MsgHolder T) → List Packet
packets_of [] = []
packets_of (h ∷ hs) = map (λ r. (r, h.serialized_msg)) h.recipients ++ packets_of hs

-- There is a UDPSender for each recipient.
abbrev pub IsReachable : List String → List String → Type 0
IsReachable senders = All λ r. contains String_discrete r senders ≡ true

send_to_lem :
    (senders : List String) (bytes : List ℕ) (rs : List String)
    → IsReachable senders rs
    → send_to senders bytes rs ≡ ok (map (λ r. (r, bytes)) rs)
unfolding send_to
send_to_lem senders bytes [] h = refl
send_to_lem senders bytes (r ∷ rs) h = ground (arith, send_to_lem senders bytes rs h.1)

pub from_list-IsReachable :
    (senders rs : List String)
    → IsReachable senders rs
    → IsReachable senders (from_list String_discrete rs)
unfolding from_list
from_list-IsReachable senders [] h = tt
from_list-IsReachable senders (r ∷ rs) h =
    All-insert String_discrete (λ r. contains String_discrete r senders ≡ true) r _ h.0
      (from_list-IsReachable senders rs h.1)

module _ {T : Type 0} where
  abbrev pub AllReachable : ContinuousMsgSender T → Type 0
  AllReachable s = All (λ h. IsReachable s.udp_sender_map h.recipients) s.msg_list

  send_all_lem :
      (senders : List String) (hs : List (MsgHolder T))
      → All (λ h. IsReachable senders h.recipients) hs
      → send_all senders hs ≡ ok (packets_of hs)
  unfolding send_all packets_of
  send_all_lem senders [] h = refl
  send_all_lem senders (x ∷ hs) h =
      ground
        (arith, send_all_lem senders hs h.1, send_to_lem senders x.serialized_msg x.recipients h.0)

  -- The round that sends what is listed: the list stays as it is.
  abbrev pub full_round : ContinuousMsgSender T → Round T
  full_round s = record {
    after = (get_sending_interval s).0;
    packets = packets_of s.msg_list;
    sleep = (get_sending_interval s).1;
  }

  send_round_lem : (s : ContinuousMsgSender T) → AllReachable s → send_round s ≡ ok (full_round s)
  unfolding send_round
  send_round_lem s h = rw (send_all_lem s.udp_sender_map s.msg_list h)

  is_empty-append : (hs : List (MsgHolder T)) (h : MsgHolder T) → is_empty (hs ++ h ∷ []) ≡ false
  is_empty-append [] h = refl
  is_empty-append (g ∷ hs) h = refl

  -- What a round sends of a list that waits to be sent, from either position of the thread.
  pub sending_step_lem :
      (position : Position) (s : ContinuousMsgSender T)
      → AllReachable s
      → is_empty s.msg_list ≡ false
      → s.queue_contains_data ≡ true
      → (r : Round T) × (sending_step position s ≡ some (ok r))
        × (r.packets ≡ packets_of s.msg_list)
  unfolding sending_step await_data
  sending_step_lem at_top s h n f = (full_round s, ground (arith, send_round_lem s h), refl)
  sending_step_lem in_wait s h n f = (
    full_round (record s { queue_contains_data = false }),
    ground (arith, send_round_lem (record s { queue_contains_data = false }) h),
    refl,
  )

  -- From the top of the loop a list that is not empty is sent, whatever the flag is.
  pub sending_step_top :
      (s : ContinuousMsgSender T)
      → AllReachable s
      → is_empty s.msg_list ≡ false
      → sending_step at_top s ≡ some (ok (full_round s))
  unfolding sending_step await_data
  sending_step_top s h n = ground (arith, send_round_lem s h)

  packets_of-append :
      (hs gs : List (MsgHolder T)) → packets_of (hs ++ gs) ≡ packets_of hs ++ packets_of gs
  unfolding packets_of
  packets_of-append [] gs = refl
  packets_of-append (h ∷ hs) gs = simp (packets_of-append hs gs, append_assoc)

  -- No wake-up is lost: after queueMsg the thread goes on, be it at the top of its loop or inside its
  -- wait, and its next round sends the new message, serialized, to every recipient, along with all that
  -- was listed before.
  pub sending_step-queue_msg :
      (position : Position) (s : ContinuousMsgSender T) (m : T)
      → AllReachable s
      → IsReachable s.udp_sender_map s.recipients
      → let sent =
          map {B = Packet} (λ r. (r, s.serializer m)) (from_list String_discrete s.recipients) in
        (r : Round T) × (sending_step position (queue_msg s m) ≡ some (ok r))
        × (r.packets ≡ packets_of s.msg_list ++ sent)
  unfolding queue_msg
  sending_step-queue_msg position s m h k =
      let holder : MsgHolder T = new_holder m s.serializer s.recipients in
      let (r, done, packets) =
        sending_step_lem position (queue_msg s m)
          (All-append (λ h. IsReachable s.udp_sender_map h.recipients) s.msg_list _ h
            (from_list-IsReachable s.udp_sender_map s.recipients k, tt))
          (is_empty-append s.msg_list holder) refl in
      (
        r,
        done,
        packets
            ∙ packets_of-append s.msg_list (holder ∷ [])
            ∙ ap (◌++◌ (packets_of s.msg_list)) packets_of_one,
      )
    where
      packets_of_one :
          packets_of (new_holder m s.serializer s.recipients ∷ [])
          ≡ map {B = Packet} (λ r. (r, s.serializer m)) (from_list String_discrete s.recipients)
      packets_of_one = unfold packets_of in append-nil _
