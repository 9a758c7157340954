-- ===== src/Lab2/Membership/Requesting.antt =====
-- lab2/src/membership.cpp: waitForOkMsg returns when every peer has answered.
use cs7610_f.Prelude.{
  ℕ, ◌≡◌, refl, sym, ap, ◌∙◌, subst, List, [], ◌∷◌, Option-cases, inl, inr, some, ok, arith, lookup,
  ℕ_discrete,
}
use cs7610_f.Lab2.Message.{ok_msg, OkMsg, Message}
use cs7610_f.Lab2.SerDe.{get_msg_type, deserialize_ok_msg}
use cs7610_f.Program.{Program, ◌>>=◌, ◌>>◌, lift, bind_inv}
use cs7610_f.Lab2.Sockets.{TcpClient, Network, receive}
use cs7610_f.Lab2.Membership.State.{World, client_of, on_network}
use cs7610_f.Lab2.Membership.Answers.{ok_answer, ok_answer_inv}
use cs7610_f.Lab2.Membership.Requests.{wait_for_ok_msg}

-- The next message from the peer is an OkMsg for the request, and is taken from its connection.
pub record Answer (expected_request_id peer : ℕ) (w after : World) : Type 0 where
  pub client : TcpClient
  pub raw : Message
  pub connected : lookup ℕ_discrete peer w.member.tcp_client_map ≡ some client
  pub taken : receive client w.network ≡ (ok raw, after.network)
  pub unchanged : after.member ≡ w.member
  pub type_is_ok : get_msg_type raw ≡ ok ok_msg
  pub decoded :
      (msg : OkMsg) × (deserialize_ok_msg raw ≡ ok msg) × (msg.request_id ≡ expected_request_id)

-- One answer from each of the peers, in their order.
pub data Answers (expected_request_id : ℕ) : List ℕ → World → World → Type 0 where
  all_answered : {w : World} → Answers expected_request_id [] w w
  and_then :
      {peer : ℕ} {peers : List ℕ} {w next after : World}
      → Answer expected_request_id peer w next
      → Answers expected_request_id peers next after
      → Answers expected_request_id (peer ∷ peers) w after

on_network_inv :
    {A : Type 0} (call : Program Network A) (w after : World) (a : A)
    → on_network call w ≡ (ok a, after)
    → (call w.network ≡ (ok a, after.network)) × (after.member ≡ w.member)
unfolding on_network
on_network_inv call w after a e = (ap (λ r. (r.0, r.1.network)) e, sym (ap (λ r. r.1.member) e))

client_of_inv :
    (peer : ℕ) (s s' : World) (client : TcpClient)
    → client_of peer s ≡ (ok client, s')
    → (lookup ℕ_discrete peer s.member.tcp_client_map ≡ some client) × (s ≡ s')
unfolding client_of
client_of_inv peer s s' client e =
    elim (Option-cases (lookup ℕ_discrete peer s.member.tcp_client_map)) [
      | inl p ↦ ground arith
      | inr (c, p) ↦ ground arith
    ]

-- When waitForOkMsg returns, each of the peers has answered with an OkMsg for the request, in turn.
pub wait_for_ok_msg-Answers :
    (expected_request_id : ℕ) (peers : List ℕ) (w after : World)
    → wait_for_ok_msg expected_request_id peers w ≡ (ok tt, after)
    → Answers expected_request_id peers w after
unfolding wait_for_ok_msg on_network
wait_for_ok_msg-Answers expected [] w after e =
    subst (Answers expected [] w) (ap (λ r. r.1) e) all_answered
wait_for_ok_msg-Answers expected (peer ∷ peers) w after e =
    let rest : Program World (Unit {0}) = wait_for_ok_msg expected peers in
    let (client, w1, e1, k1) =
      bind_inv (client_of peer)
        (λ client. on_network (receive client) >>= λ raw. lift (ok_answer expected raw) >> rest) w
        after tt e in
    let (raw, w2, e2, k2) =
      bind_inv (on_network (receive client)) (λ raw. lift (ok_answer expected raw) >> rest) w1 after
        tt k1 in
    let (u, w3, e3, k3) = bind_inv (lift (ok_answer expected raw)) (λ _. rest) w2 after tt k2 in
    let answers = wait_for_ok_msg-Answers expected peers w3 after k3 in
    let (found, same) = client_of_inv peer w w1 client e1 in
    let (taken, kept) = on_network_inv (receive client) w1 w2 raw e2 in
    let (type_ok, msg, decoded, same_request) = ok_answer_inv expected raw (ap (λ r. r.0) e3) in
    let answer : Answer expected peer w1 w2 = record {
      client = client;
      raw = raw;
      connected =
          subst (λ v. lookup ℕ_discrete peer v.member.tcp_client_map ≡ some client) same found;
      taken = taken;
      unchanged = kept;
      type_is_ok = type_ok;
      decoded = (msg, decoded, same_request);
    } in
    let first : Answer expected peer w w3 =
      subst (λ v. Answer expected peer v w3) (sym same)
        (subst (Answer expected peer w1) (ap (λ r. r.1) e3) answer) in
    and_then first answers

receive-sent :
    (client : TcpClient) (net : Network)
    → ((receive client net).1.sent ≡ net.sent) × ((receive client net).1.broken ≡ net.broken)
unfolding receive
receive-sent client net = elim (Option-cases (lookup ℕ_discrete client.sock_fd net.inbox)) [
  | inl e ↦ rw (e, receive) (refl, refl)
  | inr ([], e) ↦ rw (e, receive) (refl, refl)
  | inr (a ∷ later, e) ↦ rw (e, receive) (refl, refl)
]

receive-keeps :
    (client : TcpClient) (net net' : Network) (raw : Message)
    → receive client net ≡ (ok raw, net')
    → (net'.sent ≡ net.sent) × (net'.broken ≡ net.broken)
receive-keeps client net net' raw e =
    let (s, b) = receive-sent client net in
    (sym (ap (λ r. r.1.sent) e) ∙ s, sym (ap (λ r. r.1.broken) e) ∙ b)

-- Waiting for the answers changes neither the service nor what was sent, and breaks no connection.
pub Answers-keep :
    (expected_request_id : ℕ) (peers : List ℕ) (w after : World)
    → Answers expected_request_id peers w after
    → (after.member ≡ w.member)
      × (after.network.sent ≡ w.network.sent)
      × (after.network.broken ≡ w.network.broken)
Answers-keep expected [] w after all_answered = (refl, refl, refl)
Answers-keep expected (peer ∷ peers) w after (and_then {next = next} a rest) =
    let (m, s, b) = Answers-keep expected peers next after rest in
    let (s', b') = receive-keeps a.client w.network next.network a.raw a.taken in
    (m ∙ a.unchanged, s ∙ s', b ∙ b')
