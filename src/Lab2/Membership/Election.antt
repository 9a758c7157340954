-- ===== src/Lab2/Membership/Election.antt =====
-- lab2/src/membership.cpp: handleLeaderCrash. Who takes over, and with which view.
use cs7610_f.Prelude.{
  ℕ, ◌≡◌, refl, sym, ap, ◌∙◌, ◌≢◌, List, [], ◌∷◌, Bool, true, false, Result, ok, arith, set_insert,
  set_erase, set_insert_all, ◌==◌, ==_iff, if◌then◌else◌,
}
use cs7610_f.Lab2.Message.{cast_operation_type}
use cs7610_f.Lab2.Peers.{PeerInfo}
use cs7610_f.Program.{Program, ◌>>=◌, ◌>>◌, pure, lift, bind_ok, bind_inv}
use cs7610_f.Lab2.Membership.State.{
  World, Uninitialised, next, service, update, create_new_leader_msg, get_dummy_pending_request_msg,
  get_group_members,
}
use cs7610_f.Lab2.Membership.Requests.{
  new_view_msg, fill_members, greet_each, collect_pending, send_new_leader_msg,
  wait_for_pending_request_msg, send_new_view_msg, wait_for_new_leader_msg,
  send_pending_request_msg,
}
use cs7610_f.Lab2.Membership.Protocol.{
  Phase, leading, following, first_of, modify_group_membership, handle_leader_crash,
}

-- What the process that takes over does, and what the others do.
abbrev take_over : PeerInfo → Bool → Uninitialised → ℕ → Program World Phase
take_over info demo u next_leader =
    update (λ s. record s { alive_peers = set_erase s.leader_peer_id s.alive_peers })
    >> (send_new_leader_msg info
        >> (wait_for_pending_request_msg >>= λ msg.
            (if msg.operation_type == 0
              then send_new_view_msg info u
              else modify_group_membership info demo u msg.peer_id
                  (cast_operation_type msg.operation_type))
            >> (update (λ s. record s { leader_peer_id = next_leader }) >> pure leading)))

abbrev join : PeerInfo → Program World Phase
join info = wait_for_new_leader_msg info >> (send_pending_request_msg >> pure following)

abbrev without_clients : World → World
without_clients w = record w { member = record w.member { tcp_client_map = [] } }

handle_leader_crash_turn :
    (info : PeerInfo) (demo : Bool) (u : Uninitialised) (alive : List ℕ) (w : World)
    → handle_leader_crash info demo u alive w
      ≡ (lift (first_of (set_insert info.my_peer_id alive)) >>= λ next_leader.
            if info.my_peer_id == next_leader then take_over info demo u next_leader else join info)
          (without_clients w)
unfolding handle_leader_crash update
handle_leader_crash_turn info demo u alive w = refl

-- A process that joins does not lead.
join-follows : (info : PeerInfo) (w after : World) → join info w ≢ (ok leading, after)
join-follows info w after e =
    let (a, w1, e1, k1) =
      bind_inv (wait_for_new_leader_msg info) (λ _. send_pending_request_msg >> pure following) w
        after leading e in
    let (b, w2, e2, k2) =
      bind_inv send_pending_request_msg (λ _. pure following) w1 after leading k1 in
    let same : ok following ≡ ok leading = ap (λ r. r.0) k2 in ground arith

leads :
    (info : PeerInfo) (demo : Bool) (u : Uninitialised) (next_leader : ℕ) (b : Bool)
    (w after : World)
    → (if b then take_over info demo u next_leader else join info) w ≡ (ok leading, after)
    → b ≡ true
leads info demo u next_leader true w after e = refl
leads info demo u next_leader false w after e = absurd (join-follows info w after e)

-- A process that takes over is the smallest of its candidates.
pub handle_leader_crash-first :
    (info : PeerInfo) (demo : Bool) (u : Uninitialised) (alive : List ℕ) (w after : World)
    → handle_leader_crash info demo u alive w ≡ (ok leading, after)
    → first_of (set_insert info.my_peer_id alive) ≡ ok info.my_peer_id
handle_leader_crash-first info demo u alive w after e =
    let (next_leader, w1, e1, k1) =
      bind_inv (lift (first_of (set_insert info.my_peer_id alive)))
        (λ next_leader.
          if info.my_peer_id == next_leader then take_over info demo u next_leader else join info)
        (without_clients w) after leading
        (sym (handle_leader_crash_turn info demo u alive w) ∙ e) in
    let mine : info.my_peer_id ≡ next_leader =
      (==_iff info.my_peer_id next_leader).0
        (leads info demo u next_leader (info.my_peer_id == next_leader) w1 after k1) in
    ap (λ r. r.0) e1 ∙ ap ok (sym mine)

-- Of two processes that see the same candidates, when one takes over the other does not.
pub handle_leader_crash_unique :
    (info info' : PeerInfo) (demo : Bool) (u u' : Uninitialised) (alive alive' : List ℕ)
    (w w' after after' : World)
    → set_insert info.my_peer_id alive ≡ set_insert info'.my_peer_id alive'
    → info.my_peer_id ≢ info'.my_peer_id
    → handle_leader_crash info demo u alive w ≡ (ok leading, after)
    → handle_leader_crash info' demo u' alive' w' ≢ (ok leading, after')
handle_leader_crash_unique info info' demo u u' alive alive' w w' after after' c differ e e' =
    let mine = handle_leader_crash-first info demo u alive w after e in
    let theirs = handle_leader_crash-first info' demo u' alive' w' after' e' in
    let same : ok info.my_peer_id ≡ ok info'.my_peer_id = sym mine ∙ ap first_of c ∙ theirs in
    differ (ground arith)

-- What the process leaves that takes over a group without other peers.
abbrev alone : PeerInfo → World → World
alone info w = record w {
  member = record w.member {
    alive_peers = [];
    request_counter = next w.member.request_counter;
    leader_peer_id = info.my_peer_id;
  };
}

take_over-alone :
    (info : PeerInfo) (demo : Bool) (m : ℕ) (ms buffer : List ℕ) (w : World)
    → set_erase w.member.leader_peer_id w.member.alive_peers ≡ []
    → take_over info demo (record { members = m ∷ ms; buffer = buffer }) info.my_peer_id w
      ≡ (ok leading, alone info w)
unfolding update service send_new_leader_msg greet_each create_new_leader_msg
    wait_for_pending_request_msg collect_pending get_dummy_pending_request_msg send_new_view_msg
    new_view_msg fill_members get_group_members set_insert set_insert_all
take_over-alone info demo m ms buffer w e =
    ap
      (λ peers.
        after_update info demo (record { members = m ∷ ms; buffer = buffer })
          (record w { member = record w.member { alive_peers = peers } }))
      e
  where
    after_update : PeerInfo → Bool → Uninitialised → World → Result Phase × World
    after_update info demo u v =
        (send_new_leader_msg info
            >> (wait_for_pending_request_msg >>= λ msg.
                (if msg.operation_type == 0
                  then send_new_view_msg info u
                  else modify_group_membership info demo u msg.peer_id
                      (cast_operation_type msg.operation_type))
                >> (update (λ s. record s { leader_peer_id = info.my_peer_id }) >> pure leading)))
          v

set_erase_only : (k : ℕ) → set_erase k (k ∷ []) ≡ []
unfolding set_erase
set_erase_only k = ground arith

-- When the leader of a group of two crashes, and no process that the failure detector takes for alive has
-- a smaller identifier than the other member, that member takes over, and its group is itself alone under
-- the view id that the group of two had.
pub handle_leader_crash_same_view :
    (info : PeerInfo) (demo : Bool) (m : ℕ) (ms buffer alive : List ℕ) (w : World)
    → w.member.alive_peers ≡ w.member.leader_peer_id ∷ []
    → first_of (set_insert info.my_peer_id alive) ≡ ok info.my_peer_id
    → (after : World) × (handle_leader_crash info demo
          (record { members = m ∷ ms; buffer = buffer })
          alive
          w
        ≡ (ok leading, after))
      × (after.member.alive_peers ≡ [])
      × (after.member.view_id ≡ w.member.view_id)
handle_leader_crash_same_view info demo m ms buffer alive w two c =
    let u : Uninitialised = record { members = m ∷ ms; buffer = buffer } in
    let own : (info.my_peer_id == info.my_peer_id) ≡ true = ground arith in
    (
      alone info (without_clients w),
      handle_leader_crash_turn info demo u alive w
          ∙ bind_ok (lift (first_of (set_insert info.my_peer_id alive)))
              (λ next_leader.
                if info.my_peer_id == next_leader
                then take_over info demo u next_leader
                else join info)
              (without_clients w) (without_clients w) info.my_peer_id
              (ap (λ r. (r, without_clients w)) c)
          ∙ ap
              (λ b.
                (if b then take_over info demo u info.my_peer_id else join info)
                  (without_clients w))
              own
          ∙ take_over-alone info demo m ms buffer (without_clients w)
              (ap (set_erase w.member.leader_peer_id) two ∙ set_erase_only w.member.leader_peer_id),
      refl,
      refl,
    )
