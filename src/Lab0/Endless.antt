-- ===== src/Lab0/Endless.antt =====
-- startSendingAliveMessages of lab0/heartbeat.cpp while its flag is not set.
use cs7610_f.Prelude.{
  ℕ, zero, suc, ◌≡◌, refl, ap, ◌∙◌, subst, arith, List, [], ◌∷◌, String, String_discrete, Option,
  Option-cases, none, some, inl, inr, Bool, true, false, ok, throws, blocked, lookup,
}
use cs7610_f.Program.{Program, ◌>>◌, bind_ok, pure}
use cs7610_f.Sockets.{Resolution, unresolved, addresses}
use cs7610_f.Sockets.Binding.{first_socket}
use cs7610_f.Lab0.Udp.{UdpSender, send_message}
use cs7610_f.Lab0.Heartbeat.{
  Heartbeat, alive_message, close_senders, get_udp_sender, on_kernel, send_alive_messages,
  start_sending_alive_messages, alive_round,
}
use cs7610_f.Lab0.Keeping.{Named}
use cs7610_f.Lab0.Senders.{get_udp_sender_known, get_udp_sender_new, obtained, obtained_on}
use cs7610_f.Lab0.Hearing.{Leaves}
use cs7610_f.Lab0.Rounds.{Sent, alive_round-Sent}
use cs7610_f.Lab0.Handling.{opens}

-- A host that is found has an address with a socket.
abbrev pub usable : Resolution → Bool
usable unresolved = true
usable (addresses list) = opens (addresses list)

obtained_on-ok :
    (host : String) (s : Heartbeat) (fd : Option ℕ)
    → elim fd as (λ _. Bool) [ some fd ↦ true | none ↦ false ] ≡ true
    → (sender : Option UdpSender) × (s' : Heartbeat) × (obtained_on host fd s ≡ (ok sender, s'))
obtained_on-ok host s (some fd) e = (_, _, refl)
obtained_on-ok host s none e = ground arith

obtained-ok :
    (host : String) (found : Resolution) (s : Heartbeat)
    → usable found ≡ true
    → (sender : Option UdpSender) × (s' : Heartbeat) × (obtained host found s ≡ (ok sender, s'))
unfolding opens
obtained-ok host unresolved s u = (_, _, refl)
obtained-ok host (addresses list) s u = obtained_on-ok host s (first_socket list) u

module _ (answers : ℕ → String → Resolution) where
  get_udp_sender-ok :
      (host : String) (s : Heartbeat)
      → usable (answers s.kernel.calls host) ≡ true
      → (found : Option UdpSender) × (s' : Heartbeat) × (get_udp_sender answers host s
          ≡ (ok found, s'))
  get_udp_sender-ok host s u = elim (Option-cases (lookup String_discrete host s.udp_senders)) [
    | inl e ↦
        let (found, s', same) = obtained-ok host (answers s.kernel.calls host) s u in
        (found, s', get_udp_sender_new answers host s (answers s.kernel.calls host) e refl ∙ same)
    | inr (sender, e) ↦ (some sender, s, get_udp_sender_known answers host s sender e)
  ]

  abbrev greets : Option UdpSender → Program Heartbeat (Unit {0})
  greets found = elim found [
    | some sender ↦ on_kernel (send_message sender alive_message)
    | none ↦ pure tt
  ]

  greets-ok :
      (found : Option UdpSender) (s : Heartbeat) → (s' : Heartbeat) × (greets found s ≡ (ok tt, s'))
  unfolding on_kernel send_message
  greets-ok (some sender) s = (_, refl)
  greets-ok none s = (_, refl)

  send_alive_messages-ok :
      (hosts : List String) (s : Heartbeat)
      → ((t : ℕ) (host : String) → usable (answers t host) ≡ true)
      → (s' : Heartbeat) × (send_alive_messages answers hosts s ≡ (ok tt, s'))
  unfolding send_alive_messages
  send_alive_messages-ok [] s u = (s, refl)
  send_alive_messages-ok (host ∷ hosts) s u =
      let (found, s1, e1) = get_udp_sender-ok host s (u s.kernel.calls host) in
      let (s2, e2) = greets-ok found s1 in
      let (s3, e3) = send_alive_messages-ok hosts s2 u in
      (
        s3,
        bind_ok (get_udp_sender answers host)
              (λ found. greets found >> send_alive_messages answers hosts) s s1 found e1
            ∙ bind_ok (greets found) (λ _. send_alive_messages answers hosts) s1 s2 tt e2
            ∙ e3,
      )

  abbrev tested : Heartbeat → ℕ → Bool → Program Heartbeat (Unit {0})
  tested s k test = elim test as (λ _. Program Heartbeat (Unit {0})) [
    | true ↦ on_kernel (close_senders s.udp_senders)
    | false ↦ alive_round answers >> start_sending_alive_messages answers k
  ]

  -- While the flag is not set every round is followed by another, whatever number of rounds is looked at.
  pub goes_on :
      (n : ℕ) (s : Heartbeat)
      → ((t : ℕ) (host : String) → usable (answers t host) ≡ true)
      → Named s.udp_senders
      → s.stop_alive_message_loop ≡ false
      → (start_sending_alive_messages answers n s).0 ≡ throws blocked
  unfolding start_sending_alive_messages alive_round
  goes_on zero s u n e = refl
  goes_on (suc k) s u n e =
      let (s', done) = send_alive_messages-ok s.alive_message_receivers s u in
      let sent : Sent s s' = subst (Leaves (Sent s)) done (alive_round-Sent answers s n) in
      ap (λ test. (tested s k test s).0) e
      ∙ ap (λ r. r.0)
          (bind_ok (alive_round answers) (λ _. start_sending_alive_messages answers k) s s' tt done)
      ∙ goes_on k s' u sent.named (sent.stop ∙ e)
