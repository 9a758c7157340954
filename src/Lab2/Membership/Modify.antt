-- ===== src/Lab2/Membership/Modify.antt =====
-- lab2/src/membership.cpp: modifyGroupMembership.
use cs7610_f.Prelude.{
  ℕ, ◌≡◌, refl, subst, sym, ap, ◌∙◌, List, ◌++◌, Bool, true, false, ok, ℕ_discrete, remove,
  set_insert, set_erase,
}
use cs7610_f.Lab2.Message.{
  OperationTypeEnum, nothing, add, del, pending, other_operation, RequestMsg, NewViewMsg,
}
use cs7610_f.Lab2.SerDe.{serialize_request_msg, serialize_new_view_msg}
use cs7610_f.Lab2.Peers.{PeerInfo}
use cs7610_f.Program.{Program, ◌>>=◌, ◌>>◌, when, bind_ok, bind_inv}
use cs7610_f.Lab2.Membership.State.{
  MembershipService, World, Uninitialised, create_request_msg, next, service, update,
}
use cs7610_f.Lab2.Membership.Requests.{
  new_view_msg, send_request_msg, send_new_view_msg, wait_for_ok_msg,
}
use cs7610_f.Lab2.Membership.Protocol.{modify_group_membership, is_add}
use cs7610_f.Lab2.Membership.Sending.{
  all_working, packets, with_sent, send_request_msg_lem, all_working_same,
}
use cs7610_f.Lab2.Membership.Quiet.{send_request_msg-IsQuiet, send_new_view_msg-IsQuiet}
use cs7610_f.Lab2.Membership.Requesting.{Answers, wait_for_ok_msg-Answers, Answers-keep}
use cs7610_f.Lab2.Membership.Views.{send_new_view_msg_lem}

-- The request that the operation makes.
abbrev pub request_of : MembershipService → ℕ → OperationTypeEnum → RequestMsg
request_of s peer operation = (create_request_msg s peer operation).1

-- The service while it asks the peers: a peer that is removed is gone already.
abbrev pub asking : MembershipService → ℕ → OperationTypeEnum → MembershipService
asking s peer del = record s {
  request_counter = next s.request_counter;
  tcp_client_map = remove ℕ_discrete peer s.tcp_client_map;
  alive_peers = set_erase peer s.alive_peers;
}
asking s peer _ = record s { request_counter = next s.request_counter }

-- The service once the view is installed: a peer that is added is there, and the view has the next id.
abbrev pub installed : MembershipService → ℕ → OperationTypeEnum → MembershipService
installed s peer add = record s {
  alive_peers = set_insert peer s.alive_peers;
  view_id = next s.view_id;
}
installed s peer _ = record s { view_id = next s.view_id }

abbrev pub to_ask : World → ℕ → OperationTypeEnum → World
to_ask w peer operation = record w { member = asking w.member peer operation }

-- What is done once everybody has agreed.
abbrev install : PeerInfo → Uninitialised → ℕ → OperationTypeEnum → Program World (Unit {0})
install info u peer operation =
    when (is_add operation) (update (λ s. record s { alive_peers = set_insert peer s.alive_peers }))
    >> (update (λ s. record s { view_id = next s.view_id }) >> send_new_view_msg info u)

abbrev ask : Bool → RequestMsg → Program World (Unit {0}) → Program World (Unit {0})
ask demo msg then_install =
    send_request_msg demo msg
    >> (service >>= λ asked. wait_for_ok_msg msg.request_id asked.alive_peers >> then_install)

modify_group_membership-ask :
    (info : PeerInfo) (demo : Bool) (u : Uninitialised) (peer : ℕ) (operation : OperationTypeEnum)
    (w : World)
    → modify_group_membership info demo u peer operation w
      ≡ ask demo
          (request_of w.member peer operation)
          (install info u peer operation)
          (to_ask w peer operation)
unfolding modify_group_membership service update create_request_msg
modify_group_membership-ask info demo u peer nothing w = refl
modify_group_membership-ask info demo u peer add w = refl
modify_group_membership-ask info demo u peer del w = refl
modify_group_membership-ask info demo u peer pending w = refl
modify_group_membership-ask info demo u peer (other_operation n) w = refl

install-view :
    (info : PeerInfo) (u : Uninitialised) (peer : ℕ) (operation : OperationTypeEnum) (w : World)
    → install info u peer operation w
      ≡ send_new_view_msg info u (record w { member = installed w.member peer operation })
unfolding update
install-view info u peer nothing w = refl
install-view info u peer add w = refl
install-view info u peer del w = refl
install-view info u peer pending w = refl
install-view info u peer (other_operation n) w = refl

-- Installing the view reads nothing that has arrived.
install-inbox :
    (info : PeerInfo) (u : Uninitialised) (peer : ℕ) (operation : OperationTypeEnum)
    (w after : World)
    → install info u peer operation w ≡ (ok tt, after)
    → after.network.inbox ≡ w.network.inbox
install-inbox info u peer operation w after e =
    let now : World = record w { member = installed w.member peer operation } in
    (send_new_view_msg-IsQuiet info u now after (sym (install-view info u peer operation w) ∙ e)).1

-- modifyGroupMembership returns only after every peer that is alive without the removed one has answered
-- the request with an OkMsg for it. It takes these answers, one of each peer, from what had arrived or
-- was to arrive when it was called, and takes nothing else.
pub modify_group_membership-Answers :
    (info : PeerInfo) (demo : Bool) (u : Uninitialised) (peer : ℕ) (operation : OperationTypeEnum)
    (w after : World)
    → modify_group_membership info demo u peer operation w ≡ (ok tt, after)
    → (asked agreed : World) × (asked.member ≡ asking w.member peer operation)
      × (asked.network.inbox ≡ w.network.inbox)
      × Answers
          (next w.member.request_counter)
          (asking w.member peer operation).alive_peers
          asked
          agreed
      × (after.network.inbox ≡ agreed.network.inbox)
unfolding create_request_msg service
modify_group_membership-Answers info demo u peer operation w after e =
    let msg : RequestMsg = request_of w.member peer operation in
    let last : Program World (Unit {0}) = install info u peer operation in
    let w0 : World = to_ask w peer operation in
    let (v, w1, e1, k1) =
      bind_inv (send_request_msg demo msg)
        (λ _. service >>= λ asked. wait_for_ok_msg msg.request_id asked.alive_peers >> last) w0
        after tt (sym (modify_group_membership-ask info demo u peer operation w) ∙ e) in
    let (v', w2, e2, k2) =
      bind_inv (wait_for_ok_msg msg.request_id w1.member.alive_peers) (λ _. last) w1 after tt k1 in
    let (kept, unread) = send_request_msg-IsQuiet demo msg w0 w1 e1 in
    (
      w1,
      w2,
      kept,
      unread,
      subst (λ peers. Answers msg.request_id peers w1 w2) (ap (λ s. s.alive_peers) kept)
          (wait_for_ok_msg-Answers msg.request_id w1.member.alive_peers w1 w2 e2),
      install-inbox info u peer operation w2 after k2,
    )

-- The service that modifyGroupMembership leaves.
abbrev pub modified : MembershipService → ℕ → OperationTypeEnum → MembershipService
modified s peer operation = installed (asking s peer operation) peer operation

abbrev pub requests : MembershipService → ℕ → OperationTypeEnum → List (ℕ × List ℕ)
requests s peer operation =
    packets (asking s peer operation).tcp_client_map (asking s peer operation).alive_peers
      (serialize_request_msg (request_of s peer operation))

installed-clients :
    (s : MembershipService) (peer : ℕ) (operation : OperationTypeEnum)
    → (installed s peer operation).tcp_client_map ≡ s.tcp_client_map
installed-clients s peer nothing = refl
installed-clients s peer add = refl
installed-clients s peer del = refl
installed-clients s peer pending = refl
installed-clients s peer (other_operation n) = refl

-- Installing the view in a world that differs from the one of the request in what has arrived.
install-views :
    (info : PeerInfo) (u : Uninitialised) (peer : ℕ) (operation : OperationTypeEnum)
    (w agreed : World) (view : NewViewMsg) (bytes : List ℕ)
    → agreed.member ≡ w.member
    → agreed.network.broken ≡ w.network.broken
    → new_view_msg info (installed w.member peer operation) u ≡ ok view
    → serialize_new_view_msg view u.buffer ≡ ok bytes
    → all_working w (installed w.member peer operation).alive_peers ≡ true
    → install info u peer operation agreed ≡ (
      ok tt,
      with_sent
          (record agreed { member = installed agreed.member peer operation })
          (packets
            (installed agreed.member peer operation).tcp_client_map
            (installed agreed.member peer operation).alive_peers
            bytes),
    )
install-views info u peer operation w agreed view bytes m b h3 h4 h5 =
    let now : World = record agreed { member = installed agreed.member peer operation } in
    let ready : all_working now (installed agreed.member peer operation).alive_peers ≡ true =
      ap (λ s. all_working now (installed s peer operation).alive_peers) m
      ∙ all_working_same now w (installed w.member peer operation).alive_peers b
          (installed-clients agreed.member peer operation ∙ ap (λ s. s.tcp_client_map) m)
      ∙ h5 in
    install-view info u peer operation agreed
    ∙ send_new_view_msg_lem info u now view bytes
        (ap (λ s. new_view_msg info (installed s peer operation) u) m ∙ h3) h4 ready

-- Outside the demonstration of a leader failure, where every connection works, every peer agrees and the
-- new group fits the view message, modifyGroupMembership sends the request to the
-- alive peers, without one that is removed, installs the next view, in which a peer that is added is
-- alive, and sends that view to all that are alive in it.
pub modify_group_membership_lem :
    (info : PeerInfo) (u : Uninitialised) (peer : ℕ) (operation : OperationTypeEnum)
    (w agreed : World) (view : NewViewMsg) (bytes : List ℕ)
    → all_working (to_ask w peer operation) (asking w.member peer operation).alive_peers ≡ true
    → wait_for_ok_msg
        (next w.member.request_counter)
        (asking w.member peer operation).alive_peers
        (with_sent (to_ask w peer operation) (requests w.member peer operation))
      ≡ (ok tt, agreed)
    → new_view_msg info (modified w.member peer operation) u ≡ ok view
    → serialize_new_view_msg view u.buffer ≡ ok bytes
    → all_working (to_ask w peer operation) (modified w.member peer operation).alive_peers ≡ true
    → (after : World) × (modify_group_membership info false u peer operation w ≡ (ok tt, after))
      × (after.member ≡ modified w.member peer operation)
      × (after.network.sent
          ≡ (w.network.sent ++ requests w.member peer operation)
            ++ packets
                (modified w.member peer operation).tcp_client_map
                (modified w.member peer operation).alive_peers
                bytes)
unfolding create_request_msg service
modify_group_membership_lem info u peer operation w agreed view bytes h1 h2 h3 h4 h5 =
    let msg : RequestMsg = request_of w.member peer operation in
    let last : Program World (Unit {0}) = install info u peer operation in
    let w0 : World = to_ask w peer operation in
    let w1 : World = with_sent w0 (requests w.member peer operation) in
    let peers : List ℕ = (asking w.member peer operation).alive_peers in
    let (m, s, b) =
      Answers-keep msg.request_id peers w1 agreed
        (wait_for_ok_msg-Answers msg.request_id peers w1 agreed h2) in
    let views : MembershipService → List (ℕ × List ℕ) = λ s.
      packets (installed s peer operation).tcp_client_map (installed s peer operation).alive_peers
        bytes in
    (
      with_sent (record agreed { member = installed agreed.member peer operation })
          (views agreed.member),
      modify_group_membership-ask info false u peer operation w
          ∙ bind_ok (send_request_msg false msg)
              (λ _. service >>= λ asked. wait_for_ok_msg msg.request_id asked.alive_peers >> last)
              w0 w1 tt (send_request_msg_lem msg w0 h1)
          ∙ bind_ok (wait_for_ok_msg msg.request_id peers) (λ _. last) w1 agreed tt h2
          ∙ install-views info u peer operation w0 agreed view bytes m b h3 h4 h5,
      ap (λ s. installed s peer operation) m,
      λ i. s i ++ views (m i),
    )
