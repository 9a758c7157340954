-- ===== src/Lab0/Rounds.antt =====
-- The two threads of lab0/main.cpp: rounds of alive messages and packets that are handled, in any
-- order. A round holds aliveMessageMutex; a packet's handling is one step.
use cs7610_f.Prelude.{
  ℕ, ◌≡◌, refl, sym, ap, ◌∙◌, subst, arith, List, [], ◌∷◌, ◌++◌, String, String_discrete, Option,
  none, some, Bool, false, ◌||◌, Result, ok, throws, ite,
}
use cs7610_f.Program.{Program, continued, continued_assoc, pure}
use cs7610_f.Sockets.{Resolution}
use cs7610_f.Lab0.Udp.{UdpSender, send_message}
use cs7610_f.Lab0.Heartbeat.{
  Heartbeat, alive_message, ack_message, starts_with, on_kernel, get_udp_sender,
  send_alive_messages, alive_round,
}
use cs7610_f.Lab0.Keeping.{Named, Keeps, get_udp_sender-Keeps}
use cs7610_f.Lab0.Hearing.{Leaves}

-- Whether an Ack was sent to the host.
unfoldable pub answered : String → List (String × List ℕ) → Bool
unfolding starts_with
answered host [] = false
answered host ((other, message) ∷ sent) =
    ite (String_discrete other host) (starts_with ack_message message) false || answered host sent

pub answered-append :
    (host : String) (xs ys : List (String × List ℕ))
    → answered host (xs ++ ys) ≡ answered host xs || answered host ys
unfolding answered
answered-append host [] ys = refl
answered-append host ((other, m) ∷ xs) ys = ground (arith, answered-append host xs ys)

-- What sending alive messages leaves alone.
pub record Sent (s s' : Heartbeat) : Type 0 where
  pub receivers : s'.alive_message_receivers ≡ s.alive_message_receivers
  pub stop : s'.stop_alive_message_loop ≡ s.stop_alive_message_loop
  pub valid : s'.valid_senders ≡ s.valid_senders
  pub acks : (host : String) → answered host s'.kernel.sent ≡ answered host s.kernel.sent
  pub named : Named s'.udp_senders

Sent_trans : (s s' s'' : Heartbeat) → Sent s s' → Sent s' s'' → Sent s s''
Sent_trans s s' s'' h k = record {
  receivers = k.receivers ∙ h.receivers;
  stop = k.stop ∙ h.stop;
  valid = k.valid ∙ h.valid;
  acks = λ host. k.acks host ∙ h.acks host;
  named = k.named;
}

abbrev greet_host : Option UdpSender → Program Heartbeat (Unit {0})
greet_host found = elim found [
  | some sender ↦ on_kernel (send_message sender alive_message)
  | none ↦ pure tt
]

alive-unanswered :
    (host other : String) (sent : List (String × List ℕ))
    → answered host (sent ++ ((other, alive_message) ∷ [])) ≡ answered host sent
unfolding answered starts_with
alive-unanswered host other sent = answered-append host sent ((other, alive_message) ∷ []) ∙ last
  where
    last : (answered host sent || answered host ((other, alive_message) ∷ [])) ≡ answered host sent
    last = ground arith

greeted :
    (host : String) (s : Heartbeat) (r : Result (Option UdpSender) × Heartbeat)
    → Keeps host s r
    → Leaves (Sent s) (continued greet_host r)
unfolding on_kernel send_message
greeted host s (ok (some sender), s') k = record {
  receivers = k.0.receivers;
  stop = k.0.stop;
  valid = k.0.valid;
  acks = λ other.
      alive-unanswered other sender.server_host s'.kernel.sent ∙ ap (answered other) k.0.sent;
  named = k.1;
}
greeted host s (ok none, s') k = record {
  receivers = k.0.receivers;
  stop = k.0.stop;
  valid = k.0.valid;
  acks = λ other. ap (answered other) k.0.sent;
  named = k.1;
}
greeted host s (throws error, s') k = tt

module _ (answers : ℕ → String → Resolution) where
  then_Sent :
      (s : Heartbeat) (rest : Program Heartbeat (Unit {0}))
      → ((s' : Heartbeat) → Sent s s' → Leaves (Sent s) (rest s'))
      → (r : Result (Unit {0}) × Heartbeat) → Leaves (Sent s) r
      → Leaves (Sent s) (continued (λ x. rest) r)
  then_Sent s rest h (ok x, s') k = h s' k
  then_Sent s rest h (throws error, s') k = tt

  from_Sent :
      (s s' : Heartbeat)
      → Sent s s'
      → (r : Result (Unit {0}) × Heartbeat) → Leaves (Sent s') r
      → Leaves (Sent s) r
  from_Sent s s' h (ok x, s'') k = Sent_trans s s' s'' h k
  from_Sent s s' h (throws error, s'') k = tt

  send_alive_messages-Sent :
      (hosts : List String) (s s' : Heartbeat)
      → Sent s s'
      → Leaves (Sent s) (send_alive_messages answers hosts s')
  unfolding send_alive_messages
  send_alive_messages-Sent [] s s' h = h
  send_alive_messages-Sent (host ∷ hosts) s s' h =
      subst (Leaves (Sent s))
        (sym (
          continued_assoc greet_host (λ x. send_alive_messages answers hosts)
            (get_udp_sender answers host s')))
        (then_Sent s (send_alive_messages answers hosts)
          (λ s'' k. send_alive_messages-Sent hosts s s'' k)
          (continued greet_host (get_udp_sender answers host s'))
          (from_Sent s s' h (continued greet_host (get_udp_sender answers host s')) (
            greeted host s' (get_udp_sender answers host s')
              (get_udp_sender-Keeps answers host s' h.named))))

  pub alive_round-Sent :
      (s : Heartbeat) → Named s.udp_senders → Leaves (Sent s) (alive_round answers s)
  unfolding alive_round
  alive_round-Sent s h =
      send_alive_messages-Sent s.alive_message_receivers s s
        (record { receivers = refl; stop = refl; valid = refl; acks = λ host. refl; named = h })
