-- ===== src/Lab0/Hearing.antt =====
-- handleMessage's branches of lab0/heartbeat.cpp, by what the packet announces.
use cs7610_f.Prelude.{
  ℕ, ◌≡◌, refl, sym, ap, subst, List, [], ◌∷◌, ◌++◌, String, String_discrete, Option, none, some,
  Bool, true, false, Result, ok, throws, undefined, if◌then◌else◌, ◌==◌, erase, length,
}
use cs7610_f.Program.{Program, ◌>>◌, continued, pure, fail, modify}
use cs7610_f.Hosts.{parse_hostname_from_sender}
use cs7610_f.Sockets.{Resolution}
use cs7610_f.Lab0.Udp.{UdpSender, Arrival, receive_message, send_message}
use cs7610_f.Lab0.Heartbeat.{
  Heartbeat, alive_message, ack_message, starts_with, on_kernel, sending_ack_messages,
  get_udp_sender, handle_message, listen_once, remove_from_alive_message_receiver_list,
}
use cs7610_f.Lab0.Keeping.{Named, Keeps, get_udp_sender-Keeps}

-- What a packet says: that a host is up, that a host has heard from this one, or neither.
pub data Announcement : Type 0 where
  alive ack : String → Announcement
  noise : Announcement

abbrev pub announcement_of : Bool → Bool → String → Announcement
announcement_of true is_ack host = alive host
announcement_of false true host = ack host
announcement_of false false host = noise

unfoldable pub announced : List ℕ → String → Announcement
unfolding starts_with parse_hostname_from_sender
announced message from =
    announcement_of (starts_with alive_message message) (starts_with ack_message message)
      (parse_hostname_from_sender from)

unfoldable pub announcement : Arrival → Announcement
unfolding receive_message announced
announcement arrival = elim (receive_message arrival) [
  | ok (message, from) ↦ announced message from
  | throws error ↦ noise
]

-- The hosts that are still awaited after an announcement.
abbrev pub left : Option String → List String → List String
left (some host) hosts = erase String_discrete host hosts
left none hosts = hosts

abbrev pub alive_of : Announcement → Option String
alive_of (alive host) = some host
alive_of _ = none

abbrev pub ack_of : Announcement → Option String
ack_of (ack host) = some host
ack_of _ = none

-- The answers that an announcement gets.
abbrev pub replies : Announcement → List (String × List ℕ)
replies (alive host) = (host, ack_message) ∷ []
replies _ = []

abbrev pub stops : Announcement → Heartbeat → Bool
stops (ack host) s =
    if length (erase String_discrete host s.alive_message_receivers) == 0
    then true
    else s.stop_alive_message_loop
stops _ s = s.stop_alive_message_loop

-- What a packet changes.
pub record Heard (a : Announcement) (s s' : Heartbeat) : Type 0 where
  pub receivers : s'.alive_message_receivers ≡ left (ack_of a) s.alive_message_receivers
  pub valid : s'.valid_senders ≡ left (alive_of a) s.valid_senders
  pub stop : s'.stop_alive_message_loop ≡ stops a s
  pub sent : s'.kernel.sent ≡ s.kernel.sent ++ replies a
  pub named : Named s'.udp_senders

-- What holds of the state that a program leaves when it returns.
abbrev pub Leaves : (Heartbeat → Type 0) → Result (Unit {0}) × Heartbeat → Type 0
Leaves P (ok x, s') = P s'
Leaves P (throws error, s') = Unit

abbrev pub acts : (ℕ → String → Resolution) → Announcement → Program Heartbeat (Unit {0})
acts answers (alive host) =
    sending_ack_messages answers host
    >> modify (λ s. record s { valid_senders = erase String_discrete host s.valid_senders })
acts answers (ack host) = modify (remove_from_alive_message_receiver_list host)
acts answers noise = pure tt

-- The statements of sendingAckMessages behind getUDPSender.
abbrev pub acknowledge : Option UdpSender → Program Heartbeat (Unit {0})
acknowledge found = elim found [
  | some sender ↦ on_kernel (send_message sender ack_message)
  | none ↦ fail undefined
]

append_nil : {A : Type 0} (xs : List A) → xs ++ [] ≡ xs
append_nil [] = refl
append_nil (x ∷ xs) = ap (λ ys. x ∷ ys) (append_nil xs)

acknowledged :
    (host : String) (s : Heartbeat) (r : Result (Option UdpSender) × Heartbeat)
    → Keeps host s r
    → Leaves
        (λ s'.
          Heard
            (alive host)
            s
            (record s' { valid_senders = erase String_discrete host s'.valid_senders }))
        (continued acknowledge r)
unfolding on_kernel send_message
acknowledged host s (ok none, s') k = tt
acknowledged host s (ok (some sender), s') k = record {
  receivers = k.0.receivers;
  valid = ap (erase String_discrete host) k.0.valid;
  stop = k.0.stop;
  sent = λ i. k.0.sent i ++ ((k.2 i, ack_message) ∷ []);
  named = k.1;
}
acknowledged host s (throws error, s') k = tt

-- The assignment that follows `sending_ack_messages`.
with_valid :
    (P : Heartbeat → Type 0) (f : Heartbeat → Heartbeat) (r : Result (Unit {0}) × Heartbeat)
    → Leaves (λ s'. P (f s')) r
    → Leaves P (continued (λ x. modify f) r)
with_valid P f (ok x, s') h = h
with_valid P f (throws error, s') h = tt

module _ (answers : ℕ → String → Resolution) where
  pub sending_ack_messages_lem :
      (host : String) (s : Heartbeat)
      → sending_ack_messages answers host s ≡ continued acknowledge (get_udp_sender answers host s)
  unfolding sending_ack_messages
  sending_ack_messages_lem host s = refl

  acts-Heard :
      (a : Announcement) (s : Heartbeat)
      → Named s.udp_senders
      → Leaves (Heard a s) (acts answers a s)
  unfolding remove_from_alive_message_receiver_list
  acts-Heard (alive host) s h =
      with_valid (Heard (alive host) s)
        (λ s'. record s' { valid_senders = erase String_discrete host s'.valid_senders })
        (sending_ack_messages answers host s)
        (subst
          (Leaves (λ s'.
            Heard (alive host) s
              (record s' { valid_senders = erase String_discrete host s'.valid_senders })))
          (sym (sending_ack_messages_lem host s))
          (acknowledged host s (get_udp_sender answers host s)
            (get_udp_sender-Keeps answers host s h)))
  acts-Heard (ack host) s h = record {
    receivers = refl;
    valid = refl;
    stop = refl;
    sent = sym (append_nil s.kernel.sent);
    named = h;
  }
  acts-Heard noise s h = record {
    receivers = refl;
    valid = refl;
    stop = refl;
    sent = sym (append_nil s.kernel.sent);
    named = h;
  }

  pub handle_message_lem :
      (message : List ℕ) (from : String) (s : Heartbeat)
      → handle_message answers message from s ≡ acts answers (announced message from) s
  unfolding handle_message announced
  handle_message_lem message from s =
      by_tests (starts_with alive_message message) (starts_with ack_message message)
    where
      by_tests :
          (is_alive is_ack : Bool)
          → elim is_alive as (λ _. Program Heartbeat (Unit {0})) [
            | true ↦
                sending_ack_messages answers (parse_hostname_from_sender from)
                >> modify (λ s. record s {
                  valid_senders =
                      erase String_discrete (parse_hostname_from_sender from) s.valid_senders;
                })
            | false ↦ elim is_ack [
              | true ↦
                  modify (remove_from_alive_message_receiver_list (parse_hostname_from_sender from))
              | false ↦ pure tt
            ]
          ]
              s
            ≡ acts answers (announcement_of is_alive is_ack (parse_hostname_from_sender from)) s
      by_tests true is_ack = refl
      by_tests false true = refl
      by_tests false false = refl

  -- A packet changes what its announcement says, in every state.
  pub listen_once-Heard :
      (arrival : Arrival) (s : Heartbeat)
      → Named s.udp_senders
      → Leaves (Heard (announcement arrival) s) (listen_once answers arrival s)
  unfolding listen_once announcement
  listen_once-Heard arrival s h =
      elim (receive_message arrival)
        as (λ r.
          Leaves
            (Heard (elim r [ ok (message, from) ↦ announced message from | throws error ↦ noise ])
              s)
            (continued (λ received. handle_message answers received.0 received.1) (r, s))) [
              | ok (message, from) ↦
                  subst (Leaves (Heard (announced message from) s))
                    (sym (handle_message_lem message from s))
                    (acts-Heard (announced message from) s h)
              | throws error ↦ tt
            ]
