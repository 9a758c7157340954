-- ===== src/Lab0/Handling.antt =====
-- When lab0/heartbeat.cpp handles a packet to the end.
use cs7610_f.Prelude.{
  ℕ, ◌≡◌, refl, sym, subst, arith, List, String, String_discrete, Option, none, some, Bool, true,
  false, Result, ok, throws, erase, Option-cases, inl, inr, lookup,
}
use cs7610_f.Program.{continued, modify}
use cs7610_f.Hosts.{parse_hostname_from_sender}
use cs7610_f.Sockets.{Resolution, unresolved, addresses}
use cs7610_f.Sockets.Binding.{first_socket}
use cs7610_f.Lab0.Udp.{UdpSender, Arrival, receive_message, send_message}
use cs7610_f.Lab0.Heartbeat.{
  Heartbeat, alive_message, ack_message, starts_with, on_kernel, sending_ack_messages,
  get_udp_sender, handle_message, listen_once,
}
use cs7610_f.Lab0.Senders.{get_udp_sender_known, get_udp_sender_new, obtained, obtained_on}
use cs7610_f.Lab0.Hearing.{
  announcement_of, announced, acts, acknowledge, handle_message_lem, sending_ack_messages_lem,
}

-- Whether getUDPSender gets a sender from what getaddrinfo returned.
unfoldable pub opens : Resolution → Bool
unfolding first_socket
opens unresolved = false
opens (addresses list) = elim (first_socket list) [ some fd ↦ true | none ↦ false ]

-- A packet that can be read, from a host for which a sender can be made at any time.
abbrev pub IsReadable : (ℕ → String → Resolution) → Arrival → Type 0
IsReadable answers arrival = elim (receive_message arrival) [
  | ok (message, from) ↦ (t : ℕ) → opens (answers t (parse_hostname_from_sender from)) ≡ true
  | throws error ↦ ⊥
]

abbrev pub Finishes : Result (Unit {0}) × Heartbeat → Type 0
Finishes (ok x, s') = Unit
Finishes (throws error, s') = ⊥

abbrev Gets : Result (Option UdpSender) × Heartbeat → Type 0
Gets (ok (some sender), s') = Unit
Gets (ok none, s') = ⊥
Gets (throws error, s') = ⊥

module _ (answers : ℕ → String → Resolution) where
  obtained_on-Gets :
      (host : String) (fd : Option ℕ) (s : Heartbeat)
      → elim fd as (λ _. Bool) [ some fd ↦ true | none ↦ false ] ≡ true
      → Gets (obtained_on host fd s)
  obtained_on-Gets host (some fd) s h = tt
  obtained_on-Gets host none s h = ground arith

  obtained-Gets :
      (host : String) (found : Resolution) (s : Heartbeat)
      → opens found ≡ true
      → Gets (obtained host found s)
  unfolding opens
  obtained-Gets host unresolved s h = ground arith
  obtained-Gets host (addresses list) s h = obtained_on-Gets host (first_socket list) s h

  get_udp_sender-Gets :
      (host : String) (s : Heartbeat)
      → ((t : ℕ) → opens (answers t host) ≡ true)
      → Gets (get_udp_sender answers host s)
  get_udp_sender-Gets host s h = elim (Option-cases (lookup String_discrete host s.udp_senders)) [
    | inl e ↦
        subst Gets (sym (get_udp_sender_new answers host s _ e refl))
          (obtained-Gets host (answers s.kernel.calls host) s (h s.kernel.calls))
    | inr (sender, e) ↦ subst Gets (sym (get_udp_sender_known answers host s sender e)) tt
  ]

  acknowledged-Finishes :
      (r : Result (Option UdpSender) × Heartbeat) → Gets r → Finishes (continued acknowledge r)
  unfolding on_kernel send_message
  acknowledged-Finishes (ok (some sender), s') g = tt
  acknowledged-Finishes (ok none, s') g = g
  acknowledged-Finishes (throws error, s') g = g

  with_valid-Finishes :
      (f : Heartbeat → Heartbeat) (r : Result (Unit {0}) × Heartbeat)
      → Finishes r
      → Finishes (continued (λ x. modify f) r)
  with_valid-Finishes f (ok x, s') h = h
  with_valid-Finishes f (throws error, s') h = h

  acts-Finishes :
      (message : List ℕ) (from : String) (s : Heartbeat)
      → ((t : ℕ) → opens (answers t (parse_hostname_from_sender from)) ≡ true)
      → Finishes (acts answers (announced message from) s)
  unfolding announced
  acts-Finishes message from s h =
      by_tests (starts_with alive_message message) (starts_with ack_message message)
    where
      by_tests :
          (is_alive is_ack : Bool)
          → Finishes
              (acts answers (announcement_of is_alive is_ack (parse_hostname_from_sender from)) s)
      by_tests true is_ack =
          with_valid-Finishes
            (λ s. record s {
              valid_senders =
                  erase String_discrete (parse_hostname_from_sender from) s.valid_senders;
            })
            (sending_ack_messages answers (parse_hostname_from_sender from) s)
            (subst Finishes
              (sym (sending_ack_messages_lem answers (parse_hostname_from_sender from) s))
              (acknowledged-Finishes (get_udp_sender answers (parse_hostname_from_sender from) s)
                (get_udp_sender-Gets (parse_hostname_from_sender from) s h)))
      by_tests false true = tt
      by_tests false false = tt

  -- A packet that can be read is handled to the end.
  pub listen_once-Finishes :
      (arrival : Arrival) (s : Heartbeat)
      → IsReadable answers arrival
      → Finishes (listen_once answers arrival s)
  unfolding listen_once
  listen_once-Finishes arrival s =
      elim (receive_message arrival)
        as (λ r.
          elim r as (λ _. Type 0) [
            | ok (message, from) ↦
                (t : ℕ) → opens (answers t (parse_hostname_from_sender from)) ≡ true
            | throws error ↦ ⊥
          ]
          → Finishes
              (continued (λ received. handle_message answers received.0 received.1) (r, s))) [
                | ok (message, from) ↦ λ h.
                    subst Finishes (sym (handle_message_lem answers message from s))
                      (acts-Finishes message from s h)
                | throws error ↦ λ h. h
              ]
