-- ===== src/Lab2/Membership/Views.antt =====
-- lab2/src/membership.cpp: the view message, from the leader's members to the follower's.
use cs7610_f.Prelude.{ℕ, ◌≡◌, sym, ap, ◌∙◌, List, [], ◌∷◌, ok, true}
use cs7610_f.Lab2.Message.{NewViewMsg}
use cs7610_f.Lab2.SerDe.{serialize_new_view_msg}
use cs7610_f.Lab2.Peers.{PeerInfo}
use cs7610_f.Program.{Program, ◌>>=◌, pure, lift, bind_ok}
use cs7610_f.Lab2.Membership.State.{World, Uninitialised, service}
use cs7610_f.Lab2.Membership.Requests.{new_view_msg, send_new_view_msg, send_to_each}
use cs7610_f.Lab2.Membership.Sending.{
  all_working, packets, with_sent, with_sent-nil, send_to_each_lem,
}

send_view :
    (buffer peers : List ℕ) (msg : NewViewMsg) (u : Uninitialised) (w : World)
    → serialize_new_view_msg msg u.buffer ≡ ok buffer
    → all_working w peers ≡ true
    → elim peers as (λ _. Program World (Unit {0})) [
      | [] ↦ pure tt
      | peer ∷ peers ↦ lift (serialize_new_view_msg msg u.buffer) >>= λ buffer.
          send_to_each buffer (peer ∷ peers)
    ]
        w
      ≡ (ok tt, with_sent w (packets w.member.tcp_client_map peers buffer))
send_view buffer [] msg u w e h = ap (λ v. (ok tt, v)) (sym (with_sent-nil w))
send_view buffer (peer ∷ peers) msg u w e h =
    bind_ok (lift (serialize_new_view_msg msg u.buffer))
      (λ buffer. send_to_each buffer (peer ∷ peers)) w w buffer (ap (λ r. (r, w)) e)
    ∙ send_to_each_lem buffer (peer ∷ peers) w h

-- Where every connection works, the view is sent to every alive peer.
pub send_new_view_msg_lem :
    (info : PeerInfo) (u : Uninitialised) (w : World) (msg : NewViewMsg) (buffer : List ℕ)
    → new_view_msg info w.member u ≡ ok msg
    → serialize_new_view_msg msg u.buffer ≡ ok buffer
    → all_working w w.member.alive_peers ≡ true
    → send_new_view_msg info u w
      ≡ (ok tt, with_sent w (packets w.member.tcp_client_map w.member.alive_peers buffer))
unfolding send_new_view_msg service
send_new_view_msg_lem info u w msg buffer e e' h =
    bind_ok (lift (new_view_msg info w.member u))
      (λ msg. elim w.member.alive_peers as (λ _. Program World (Unit {0})) [
        | [] ↦ pure tt
        | peer ∷ peers ↦ lift (serialize_new_view_msg msg u.buffer) >>= λ buffer.
            send_to_each buffer (peer ∷ peers)
      ])
      w w msg (ap (λ r. (r, w)) e)
    ∙ send_view buffer w.member.alive_peers msg u w e' h
