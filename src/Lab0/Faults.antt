-- ===== src/Lab0/Faults.antt =====
-- What lab0/heartbeat.cpp does where a host cannot be found, and where the listener is early.
use cs7610_f.Prelude.{
  ℕ, ◌≡◌, refl, sym, ap, ◌∙◌, subst, List, [], ◌∷◌, String, String_discrete, none, true, false,
  Result, ok, throws, undefined, blocked, lookup, erase,
}
use cs7610_f.Program.{Program, ◌>>◌, continued, fail, modify}
use cs7610_f.Hosts.{parse_hostname_from_sender}
use cs7610_f.Sockets.{Resolution, unresolved, close_fd}
use cs7610_f.Lab0.Udp.{Arrival}
use cs7610_f.Lab0.Heartbeat.{
  Heartbeat, alive_message, ack_message, starts_with, handle_message, is_listening, listen_once,
  on_kernel, start_listening_for_messages, start_sending_alive_messages,
}
use cs7610_f.Lab0.Keeping.{Named}
use cs7610_f.Lab0.Senders.{get_udp_sender_new}
use cs7610_f.Lab0.Hearing.{
  alive, announcement_of, announced, acts, acknowledge, handle_message_lem,
  sending_ack_messages_lem,
}
use cs7610_f.Lab0.Endless.{usable, goes_on}
use cs7610_f.Lab0.Startup.{add_peers}
use cs7610_f.Lab0.Listening.{loop_on}
use cs7610_f.Lab0.Launch.{add_peers-Added}

abbrev forget_sender : String → Unit {0} → Program Heartbeat (Unit {0})
forget_sender host x =
    modify (λ s. record s { valid_senders = erase String_discrete host s.valid_senders })

module _ (answers : ℕ → String → Resolution) where
  -- An alive message from a host that has no sender and that getaddrinfo does not find ends in a call
  -- through a null pointer.
  pub alive_of_unresolved :
      (message : List ℕ) (from : String) (s : Heartbeat)
      → starts_with alive_message message ≡ true
      → lookup String_discrete (parse_hostname_from_sender from) s.udp_senders ≡ none
      → answers s.kernel.calls (parse_hostname_from_sender from) ≡ unresolved
      → (handle_message answers message from s).0 ≡ throws undefined
  unfolding announced
  alive_of_unresolved message from s a l u =
      let host = parse_hostname_from_sender from in
      let said : announced message from ≡ alive host =
        ap (λ test. announcement_of test (starts_with ack_message message) host) a in
      ap (λ r. r.0) (handle_message_lem answers message from s)
      ∙ ap (λ what. (acts answers what s).0) said
      ∙ ap (λ r. (continued (forget_sender host) r).0)
          (sending_ack_messages_lem answers host s
            ∙ ap (continued acknowledge) (get_udp_sender_new answers host s unresolved l u))

  -- The state in which the listener leaves its loop.
  abbrev closed : Heartbeat → Result (Unit {0}) × Heartbeat
  closed s = on_kernel (close_fd s.receiver_fd) s

  nothing_awaited :
      (s : Heartbeat)
      → s.valid_senders ≡ []
      → s.alive_message_receivers ≡ []
      → is_listening s ≡ false
  unfolding is_listening
  nothing_awaited s v r = rw (v, r) refl

  returns_at_once :
      (arrivals : List Arrival) (s : Heartbeat)
      → is_listening s ≡ false
      → start_listening_for_messages answers arrivals s ≡ closed s
  unfolding start_listening_for_messages
  returns_at_once [] s e = ap (loop_on (fail blocked) s) e
  returns_at_once (arrival ∷ arrivals) s e =
      ap (loop_on (listen_once answers arrival >> start_listening_for_messages answers arrivals) s)
        e

  -- Where every host that is found has a socket, a listener that has heard of every peer before the peers
  -- are listed as receivers returns at once, and the alive messages that then start go on for as many
  -- rounds as one looks at, without an exception: nobody takes the Acks any more.
  pub early_listener :
      (peers : List String) (arrivals : List Arrival) (n : ℕ) (s : Heartbeat)
      → Named s.udp_senders
      → s.valid_senders ≡ []
      → s.alive_message_receivers ≡ []
      → s.stop_alive_message_loop ≡ false
      → ((t : ℕ) (host : String) → usable (answers t host) ≡ true)
      → let s' = (start_listening_for_messages answers arrivals s).1 in
        ((start_listening_for_messages answers arrivals s).0 ≡ ok tt)
        × ((start_sending_alive_messages answers n (add_peers peers s')).0 ≡ throws blocked)
  unfolding on_kernel close_fd
  early_listener peers arrivals n s h v r f u =
      let done : start_listening_for_messages answers arrivals s ≡ closed s =
        returns_at_once arrivals s (nothing_awaited s v r) in
      let added = add_peers-Added peers (closed s).1 in
      (
        ap (λ r. r.0) done,
        subst
            (λ r. (start_sending_alive_messages answers n (add_peers peers r.1)).0 ≡ throws blocked)
            (sym done)
            (goes_on answers n (add_peers peers (closed s).1) u (rw added.senders h)
              (added.stop ∙ f)),
      )
