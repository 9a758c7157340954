-- ===== src/Lab2/Membership/Quiet.antt =====
-- lab2/src/membership.cpp: what sending leaves alone, on whatever connections.
use cs7610_f.Prelude.{
  ℕ, ◌≡◌, sym, ap, ◌∙◌, List, [], ◌∷◌, ◌++◌, Bool, true, false, ◌&&◌, inl, inr, ok, arith,
  ℕ_discrete, contains, exited, ◌==◌, subst, Result, throws, transport, Bool-cases, if◌then◌else◌,
}
use cs7610_f.Lab2.Message.{RequestMsg}
use cs7610_f.Lab2.SerDe.{serialize_request_msg}
use cs7610_f.Program.{Program, ◌>>=◌, ◌>>◌, pure, when, fail, bind_inv, throws_ne_ok}
use cs7610_f.Lab2.Sockets.{TcpClient, Network, send}
use cs7610_f.Lab2.Membership.State.{World, client_of, on_network, service}
use cs7610_f.Lab2.Membership.Requests.{send_to_each, send_requests, send_request_msg}
use cs7610_f.Lab2.Message.{NewViewMsg}
use cs7610_f.Lab2.SerDe.{serialize_new_view_msg}
use cs7610_f.Lab2.Peers.{PeerInfo}
use cs7610_f.Program.{lift}
use cs7610_f.Lab2.Membership.State.{Uninitialised}
use cs7610_f.Lab2.Membership.Requests.{new_view_msg, send_new_view_msg}

-- Sending changes neither the service nor what will be received.
abbrev pub Quiet : World → World → Type 0
Quiet w after = (after.member ≡ w.member) × (after.network.inbox ≡ w.network.inbox)

Quiet-trans : (w v after : World) → Quiet w v → Quiet v after → Quiet w after
Quiet-trans w v after (m, i) (m', i') = (m' ∙ m, i' ∙ i)

Quiet-same : {A : Type 0} (a : A) (w after : World) → pure a w ≡ (ok a, after) → Quiet w after
Quiet-same a w after e = (sym (ap (λ r. r.1.member) e), sym (ap (λ r. r.1.network.inbox) e))

-- A call, as one that is quiet where it returns.
abbrev IsQuiet : Program World (Unit {0}) → Type 0
IsQuiet call = (w after : World) → call w ≡ (ok tt, after) → Quiet w after

send-Quiet : (client : TcpClient) (buffer : List ℕ) → IsQuiet (on_network (send client buffer))
unfolding on_network send
send-Quiet client buffer w after e =
    elim (Bool-cases (contains ℕ_discrete client.sock_fd w.network.broken)) [
      | inl b ↦ absurd (throws_ne_ok (sym (sent b) ∙ ap (λ r. r.0) e))
      | inr b ↦ (
        sym (ap (λ r. r.1.member) e),
        sym (ap (λ r. r.1.network.inbox) e) ∙ ap (λ test. (outcome test).1.inbox) b,
      )
    ]
  where
    outcome : Bool → Result (Unit {0}) × Network
    outcome test =
        if test
        then (throws transport, w.network)
        else (ok tt, record w.network { sent = w.network.sent ++ ((client.sock_fd, buffer) ∷ []) })

    sent :
        contains ℕ_discrete client.sock_fd w.network.broken ≡ true
        → (on_network (send client buffer) w).0 ≡ throws transport
    sent b = ap (λ test. (outcome test).0) b

then-IsQuiet :
    (call rest : Program World (Unit {0})) → IsQuiet call → IsQuiet rest → IsQuiet (call >> rest)
then-IsQuiet call rest q q' w after e =
    let (u, v, e1, k1) = bind_inv call (λ _. rest) w after tt e in
    Quiet-trans w v after (q w v e1) (q' v after k1)

-- A call that only reads, before one that is quiet whatever was read.
reading-IsQuiet :
    {A : Type 0} (read : Program World A) (continue : A → Program World (Unit {0}))
    → ((a : A) (w v : World) → read w ≡ (ok a, v) → v ≡ w)
    → ((a : A) → IsQuiet (continue a))
    → IsQuiet (read >>= continue)
reading-IsQuiet read continue same q w after e =
    let (a, v, e1, k1) = bind_inv read continue w after tt e in
    subst (λ v. Quiet v after) (same a w v e1) (q a v after k1)

client_of-world :
    (peer : ℕ) (client : TcpClient) (w after : World)
    → client_of peer w ≡ (ok client, after)
    → after ≡ w
unfolding client_of
client_of-world peer client w after e = sym (ap (λ r. r.1) e)

send_one-IsQuiet :
    (buffer : List ℕ) (peer : ℕ) (rest : Program World (Unit {0}))
    → IsQuiet rest
    → IsQuiet (client_of peer >>= λ client. on_network (send client buffer) >> rest)
send_one-IsQuiet buffer peer rest q =
    reading-IsQuiet (client_of peer) (λ client. on_network (send client buffer) >> rest)
      (client_of-world peer)
      (λ client. then-IsQuiet (on_network (send client buffer)) rest (send-Quiet client buffer) q)

send_to_each-IsQuiet : (buffer peers : List ℕ) → IsQuiet (send_to_each buffer peers)
unfolding send_to_each
send_to_each-IsQuiet buffer [] = Quiet-same tt
send_to_each-IsQuiet buffer (peer ∷ peers) =
    send_one-IsQuiet buffer peer (send_to_each buffer peers) (send_to_each-IsQuiet buffer peers)

either-IsQuiet :
    (skip : Bool) (p q : Program World (Unit {0}))
    → IsQuiet p
    → IsQuiet q
    → IsQuiet (if skip then p else q)
either-IsQuiet true p q h k = h
either-IsQuiet false p q h k = k

send_requests-IsQuiet :
    (test_case : Bool) (buffer peers : List ℕ) → IsQuiet (send_requests test_case buffer peers)
unfolding send_requests
send_requests-IsQuiet test_case buffer [] = Quiet-same tt
send_requests-IsQuiet test_case buffer (peer ∷ peers) =
    let rest : Program World (Unit {0}) = send_requests test_case buffer peers in
    either-IsQuiet (test_case && (peer == 2)) rest
      (client_of peer >>= λ client. on_network (send client buffer) >> rest)
      (send_requests-IsQuiet test_case buffer peers)
      (send_one-IsQuiet buffer peer rest (send_requests-IsQuiet test_case buffer peers))

exited-IsQuiet : (b : Bool) → IsQuiet (when b (fail exited))
exited-IsQuiet true w after e = ground arith
exited-IsQuiet false w after e = Quiet-same tt w after e

pub send_request_msg-IsQuiet :
    (demo : Bool) (msg : RequestMsg) → IsQuiet (send_request_msg demo msg)
unfolding send_request_msg service
send_request_msg-IsQuiet demo msg w after e =
    let test_case : Bool = demo && (msg.operation_type == 2) in
    then-IsQuiet (send_requests test_case (serialize_request_msg msg) w.member.alive_peers)
      (when test_case (fail exited))
      (send_requests-IsQuiet test_case (serialize_request_msg msg) w.member.alive_peers)
      (exited-IsQuiet test_case) w after e

abbrev send_filled : NewViewMsg → List ℕ → List ℕ → Program World (Unit {0})
send_filled msg stack [] = pure tt
send_filled msg stack (peer ∷ peers) =
    lift (serialize_new_view_msg msg stack) >>= λ buffer. send_to_each buffer (peer ∷ peers)

lift-world : {A : Type 0} (r : Result A) (a : A) (w v : World) → lift r w ≡ (ok a, v) → v ≡ w
lift-world r a w v e = sym (ap (λ r. r.1) e)

send_filled-IsQuiet :
    (msg : NewViewMsg) (stack peers : List ℕ) → IsQuiet (send_filled msg stack peers)
send_filled-IsQuiet msg stack [] = Quiet-same tt
send_filled-IsQuiet msg stack (peer ∷ peers) =
    reading-IsQuiet (lift (serialize_new_view_msg msg stack))
      (λ buffer. send_to_each buffer (peer ∷ peers)) (lift-world (serialize_new_view_msg msg stack))
      (λ buffer. send_to_each-IsQuiet buffer (peer ∷ peers))

pub send_new_view_msg-IsQuiet :
    (info : PeerInfo) (u : Uninitialised) → IsQuiet (send_new_view_msg info u)
unfolding send_new_view_msg service
send_new_view_msg-IsQuiet info u w after e =
    reading-IsQuiet (lift (new_view_msg info w.member u))
      (λ msg. elim w.member.alive_peers as (λ _. Program World (Unit {0})) [
        | [] ↦ pure tt
        | peer ∷ peers ↦ lift (serialize_new_view_msg msg u.buffer) >>= λ buffer.
            send_to_each buffer (peer ∷ peers)
      ])
      (lift-world (new_view_msg info w.member u)) (λ msg. filled msg w.member.alive_peers) w after e
  where
    filled :
        (msg : NewViewMsg) (peers : List ℕ)
        → IsQuiet (elim peers as (λ _. Program World (Unit {0})) [
          | [] ↦ pure tt
          | peer ∷ peers ↦ lift (serialize_new_view_msg msg u.buffer) >>= λ buffer.
              send_to_each buffer (peer ∷ peers)
        ])
    filled msg [] = send_filled-IsQuiet msg u.buffer []
    filled msg (peer ∷ peers) = send_filled-IsQuiet msg u.buffer (peer ∷ peers)
