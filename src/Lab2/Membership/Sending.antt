-- ===== src/Lab2/Membership/Sending.antt =====
-- lab2/src/membership.cpp: what the loops over the peers send, where every connection works.
use cs7610_f.Prelude.{
  ℕ, ◌≡◌, refl, sym, ap, ◌∙◌, List, [], ◌∷◌, ◌++◌, Bool, true, false, ◌&&◌, not, Option,
  Option-cases, inl, inr, none, some, ok, arith, lookup, ℕ_discrete, contains,
}
use cs7610_f.Lab2.Message.{RequestMsg}
use cs7610_f.Lab2.SerDe.{serialize_request_msg}
use cs7610_f.Program.{Program, ◌>>=◌, ◌>>◌, pure, bind_ok, bind_alike}
use cs7610_f.Lab2.Sockets.{TcpClient, send}
use cs7610_f.Lab2.Membership.State.{World, client_of, on_network, service}
use cs7610_f.Lab2.Membership.Requests.{send_to_each, send_requests, send_request_msg}

-- The client of the peer, if there is one and it can send.
abbrev pub working : List ℕ → Option TcpClient → Bool
working broken none = false
working broken (some client) = not (contains ℕ_discrete client.sock_fd broken)

-- Every one of the peers has a client that can send.
abbrev pub all_working : World → List ℕ → Bool
all_working w [] = true
all_working w (peer ∷ peers) =
    working w.network.broken (lookup ℕ_discrete peer w.member.tcp_client_map) && all_working w peers

abbrev pub packet_to : Option TcpClient → List ℕ → List (ℕ × List ℕ)
packet_to none buffer = []
packet_to (some client) buffer = (client.sock_fd, buffer) ∷ []

-- One packet for each of the peers, in their order.
abbrev pub packets : List (ℕ × TcpClient) → List ℕ → List ℕ → List (ℕ × List ℕ)
packets clients [] buffer = []
packets clients (peer ∷ peers) buffer =
    packet_to (lookup ℕ_discrete peer clients) buffer ++ packets clients peers buffer

abbrev pub with_sent : World → List (ℕ × List ℕ) → World
with_sent w more = record w { network = record w.network { sent = w.network.sent ++ more } }

++-assoc : (xs ys zs : List (ℕ × List ℕ)) → (xs ++ ys) ++ zs ≡ xs ++ (ys ++ zs)
++-assoc [] ys zs = refl
++-assoc (x ∷ xs) ys zs = ap (◌∷◌ x) (++-assoc xs ys zs)

++-nil : (xs : List (ℕ × List ℕ)) → xs ++ [] ≡ xs
++-nil [] = refl
++-nil (x ∷ xs) = ap (◌∷◌ x) (++-nil xs)

pub with_sent_twice :
    (w : World) (a b : List (ℕ × List ℕ)) → with_sent (with_sent w a) b ≡ with_sent w (a ++ b)
with_sent_twice w a b =
    ap (λ s. record w { network = record w.network { sent = s } }) (++-assoc w.network.sent a b)

pub with_sent-nil : (w : World) → with_sent w [] ≡ w
with_sent-nil w =
    ap (λ s. record w { network = record w.network { sent = s } }) (++-nil w.network.sent)

pub all_working-with_sent :
    (w : World) (more : List (ℕ × List ℕ)) (peers : List ℕ)
    → all_working (with_sent w more) peers ≡ all_working w peers
all_working-with_sent w more [] = refl
all_working-with_sent w more (p ∷ peers) =
    ap (λ b. working w.network.broken (lookup ℕ_discrete p w.member.tcp_client_map) && b)
      (all_working-with_sent w more peers)

-- The first send of a loop that goes on with `rest`.
send_one :
    (buffer : List ℕ) (peer : ℕ) (w : World) (rest : Program World (Unit {0}))
    → working w.network.broken (lookup ℕ_discrete peer w.member.tcp_client_map) ≡ true
    → (client_of peer >>= λ client. on_network (send client buffer) >> rest) w
      ≡ rest (with_sent w (packet_to (lookup ℕ_discrete peer w.member.tcp_client_map) buffer))
unfolding client_of on_network send
send_one buffer peer w rest h =
    elim (Option-cases (lookup ℕ_discrete peer w.member.tcp_client_map)) [
      | inl e ↦ ground arith
      | inr (client, e) ↦
          let alive : contains ℕ_discrete client.sock_fd w.network.broken ≡ false = ground arith in
          let found : client_of peer w ≡ (ok client, w) = rw e in
          let done : on_network (send client buffer) w
              ≡ (ok tt, with_sent w ((client.sock_fd, buffer) ∷ [])) =
            rw alive in
          let tail : Program World (Unit {0}) = on_network (send client buffer) >> rest in
          bind_ok (client_of peer) (λ client. on_network (send client buffer) >> rest) w w client
            found
          ∙ bind_ok (on_network (send client buffer)) (λ _. rest) w
              (with_sent w ((client.sock_fd, buffer) ∷ [])) tt done
          ∙ ap (λ o. rest (with_sent w (packet_to o buffer))) (sym e)
    ]

-- Where every connection works, the loop over the peers sends one packet to each, in order, and changes
-- nothing else.
pub send_to_each_lem :
    (buffer : List ℕ) (peers : List ℕ) (w : World)
    → all_working w peers ≡ true
    → send_to_each buffer peers w
      ≡ (ok tt, with_sent w (packets w.member.tcp_client_map peers buffer))
unfolding send_to_each
send_to_each_lem buffer [] w h = ap (λ v. (ok tt, v)) (sym (with_sent-nil w))
send_to_each_lem buffer (peer ∷ peers) w h =
    let now : List (ℕ × List ℕ) =
      packet_to (lookup ℕ_discrete peer w.member.tcp_client_map) buffer in
    send_one buffer peer w (send_to_each buffer peers) (ground arith)
    ∙ send_to_each_lem buffer peers (with_sent w now)
        (all_working-with_sent w now peers ∙ ground arith)
    ∙ ap (λ v. (ok tt, v)) (with_sent_twice w now (packets w.member.tcp_client_map peers buffer))

send_requests_lem :
    (buffer : List ℕ) (peers : List ℕ) (w : World)
    → send_requests false buffer peers w ≡ send_to_each buffer peers w
unfolding send_requests send_to_each
send_requests_lem buffer [] w = refl
send_requests_lem buffer (peer ∷ peers) w =
    bind_alike (client_of peer)
      (λ client. on_network (send client buffer) >> send_requests false buffer peers)
      (λ client. on_network (send client buffer) >> send_to_each buffer peers) w
      (λ client v.
        bind_alike (on_network (send client buffer)) (λ _. send_requests false buffer peers)
          (λ _. send_to_each buffer peers) v (λ _ v'. send_requests_lem buffer peers v'))

-- Outside the demonstration of a crash, the request goes to every alive peer.
pub send_request_msg_lem :
    (msg : RequestMsg) (w : World)
    → all_working w w.member.alive_peers ≡ true
    → send_request_msg false msg w ≡ (
      ok tt,
      with_sent w
          (packets w.member.tcp_client_map w.member.alive_peers (serialize_request_msg msg)),
    )
unfolding send_request_msg service
send_request_msg_lem msg w h =
    bind_ok (send_requests false (serialize_request_msg msg) w.member.alive_peers) (λ _. pure tt) w
      (with_sent w
        (packets w.member.tcp_client_map w.member.alive_peers (serialize_request_msg msg)))
      tt
      (send_requests_lem (serialize_request_msg msg) w.member.alive_peers w
        ∙ send_to_each_lem (serialize_request_msg msg) w.member.alive_peers w h)

-- Which connections work depends on the clients and the broken descriptors alone.
pub all_working_same :
    (w v : World) (peers : List ℕ)
    → w.network.broken ≡ v.network.broken
    → w.member.tcp_client_map ≡ v.member.tcp_client_map
    → all_working w peers ≡ all_working v peers
all_working_same w v [] b m = refl
all_working_same w v (peer ∷ peers) b m =
    λ i. working (b i) (lookup ℕ_discrete peer (m i)) && all_working_same w v peers b m i
