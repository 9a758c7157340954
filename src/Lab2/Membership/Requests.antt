-- ===== src/Lab2/Membership/Requests.antt =====
-- lab2/src/membership.cpp: what is sent, what is waited for, and what is done with what arrives.
use cs7610_f.Prelude.{
  ℕ, List, [], ◌∷◌, Bool, true, false, ◌&&◌, Result, ok, throws, none, some, exited, undefined,
  ◌==◌, if◌then◌else◌, lookup, ℕ_discrete, length, take, set_insert, set_insert_all, set_erase,
  insert_absent,
}
use cs7610_f.Lab2.Message.{new_view, msg_type_code, RequestMsg, OkMsg, NewViewMsg, Message}
use cs7610_f.Lab2.SerDe.{
  serialize_request_msg, deserialize_request_msg, serialize_ok_msg, serialize_new_view_msg,
  deserialize_new_view_msg, serialize_new_leader_msg, loop_count,
}
use cs7610_f.Lab2.Peers.{PeerInfo, get_hostname, get_peer_id}
use cs7610_f.Program.{Program, ◌>>=◌, ◌>>◌, pure, fail, lift, when, catch}
use cs7610_f.Lab2.Sockets.{new_tcp_client, open_server, accept, client_hostname, send, receive}
use cs7610_f.Lab2.Membership.Answers.{ok_answer, pending_answer, new_leader_answer}
use cs7610_f.Lab2.Membership.State.{
  MembershipService, World, Uninitialised, get_dummy_pending_request_msg, get_group_members,
  create_new_leader_msg, on_network, service, update, client_of,
}

-- Send the same bytes to each of the peers.
unfoldable pub send_to_each : List ℕ → List ℕ → Program World (Unit {0})
unfolding client_of on_network send
send_to_each buffer [] = pure tt
send_to_each buffer (peer_id ∷ peers) = do
  tcp_client ← client_of peer_id
  on_network (send tcp_client buffer)
  send_to_each buffer peers

-- The loop of sendRequestMsg; in test case 4 it passes over peer 2.
unfoldable pub send_requests : Bool → List ℕ → List ℕ → Program World (Unit {0})
unfolding client_of on_network send
send_requests is_test_case4 buffer [] = pure tt
send_requests is_test_case4 buffer (peer_id ∷ peers) =
    let rest = send_requests is_test_case4 buffer peers in
    let sending = do tcp_client ← client_of peer_id; on_network (send tcp_client buffer); rest
    in if is_test_case4 && (peer_id == 2) then rest else sending

unfoldable pub send_request_msg : Bool → RequestMsg → Program World (Unit {0})
unfolding send_requests serialize_request_msg service
send_request_msg leader_failure_demo request_msg = do
  let buffer = serialize_request_msg request_msg
  let is_test_case4 = leader_failure_demo && (request_msg.operation_type == 2)
  s ← service
  send_requests is_test_case4 buffer s.alive_peers
  when is_test_case4 (fail exited)

unfoldable pub send_ok_msg : OkMsg → Program World (Unit {0})
unfolding serialize_ok_msg service client_of on_network send
send_ok_msg msg = do
  let buffer = serialize_ok_msg msg
  s ← service
  tcp_client ← client_of s.leader_peer_id
  on_network (send tcp_client buffer)

-- `members[i++] = peer` over the array.
unfoldable pub fill_members : List ℕ → List ℕ → Result (List ℕ)
fill_members [] members = ok members
fill_members (peer ∷ peers) [] = throws undefined
fill_members (peer ∷ peers) (_ ∷ members) = elim (fill_members peers members) [
  | ok rest ↦ ok (peer ∷ rest)
  | throws error ↦ throws error
]

unfoldable pub new_view_msg : PeerInfo → MembershipService → Uninitialised → Result NewViewMsg
unfolding get_group_members fill_members msg_type_code
new_view_msg info s u =
    let members = get_group_members info s in
    elim (fill_members members u.members) [
      | ok filled ↦ ok (record {
        msg_type = msg_type_code new_view;
        new_view_id = s.view_id;
        number_of_members = length members;
        members = filled;
      })
      | throws error ↦ throws error
    ]

-- Without peers nothing is serialized, and the message is only filled in.
unfoldable pub send_new_view_msg : PeerInfo → Uninitialised → Program World (Unit {0})
unfolding new_view_msg serialize_new_view_msg send_to_each service
send_new_view_msg info u = do
  s ← service
  msg ← lift (new_view_msg info s u)
  elim s.alive_peers [
    | [] ↦ pure tt
    | peer ∷ peers ↦
        lift (serialize_new_view_msg msg u.buffer) >>= λ buffer. send_to_each buffer (peer ∷ peers)
  ]

unfoldable pub send_pending_request_msg : Program World (Unit {0})
unfolding serialize_request_msg service client_of on_network send
send_pending_request_msg = do
  s ← service
  let request_msg = record s.pending_request { current_view_id = s.view_id }
  let buffer = serialize_request_msg request_msg
  leader_tcp_client ← client_of s.leader_peer_id
  on_network (send leader_tcp_client buffer)

-- The try block of sendNewLeaderMsg, for one peer.
unfoldable pub greet : PeerInfo → List ℕ → ℕ → Program World (Unit {0})
unfolding service get_hostname on_network new_tcp_client send update insert_absent
greet info buffer peer = do
  s ← service
  hostname ← lift (get_hostname info peer)
  client ← on_network (new_tcp_client hostname s.membership_port 5)
  on_network (send client buffer)
  update (λ s. record s { tcp_client_map = insert_absent ℕ_discrete peer client s.tcp_client_map })

-- Its loop, with tempAlivePeers.
unfoldable pub greet_each : PeerInfo → List ℕ → List ℕ → List ℕ → Program World (List ℕ)
unfolding greet set_insert
greet_each info buffer [] temp_alive_peers = pure temp_alive_peers
greet_each info buffer (peer ∷ peers) temp_alive_peers = do
  greeted ← catch (greet info buffer peer >> pure true) (pure false)
  greet_each info buffer peers
      (if greeted then set_insert peer temp_alive_peers else temp_alive_peers)

unfoldable pub send_new_leader_msg : PeerInfo → Program World (Unit {0})
unfolding create_new_leader_msg serialize_new_leader_msg greet_each service update set_insert_all
send_new_leader_msg info = do
  s ← service
  let (counted, new_leader_msg) = create_new_leader_msg s
  update (λ _. counted)
  let buffer = serialize_new_leader_msg new_leader_msg
  temp_alive_peers ← greet_each info buffer counted.alive_peers []
  update (λ s. record s { alive_peers = set_insert_all temp_alive_peers [] })

unfoldable pub process_request_msg : Message → Program World (Unit {0})
unfolding deserialize_request_msg update
process_request_msg raw = do
  msg ← lift (deserialize_request_msg raw)
  update (λ s. record s { pending_request = msg })

unfoldable pub process_new_view_msg : PeerInfo → Uninitialised → Message → Program World (Unit {0})
unfolding deserialize_new_view_msg update set_insert_all set_erase get_dummy_pending_request_msg
process_new_view_msg info u raw = do
  msg ← lift (deserialize_new_view_msg raw u.members)
  update (λ s. record s {
    view_id = msg.new_view_id;
    alive_peers =
        set_erase info.my_peer_id
          (set_insert_all (take (loop_count msg.number_of_members) msg.members) []);
    pending_request = get_dummy_pending_request_msg;
  })

-- The loop of waitForOkMsg.
unfoldable pub wait_for_ok_msg : ℕ → List ℕ → Program World (Unit {0})
unfolding client_of on_network receive ok_answer
wait_for_ok_msg expected_request_id [] = pure tt
wait_for_ok_msg expected_request_id (peer_id ∷ peers) = do
  tcp_client ← client_of peer_id
  raw ← on_network (receive tcp_client)
  lift (ok_answer expected_request_id raw)
  wait_for_ok_msg expected_request_id peers

unfoldable pub wait_for_new_leader_msg : PeerInfo → Program World (Unit {0})
unfolding on_network open_server accept client_hostname get_peer_id update insert_absent receive
    new_leader_answer
wait_for_new_leader_msg info = do
  on_network open_server
  leader_client ← on_network accept
  leader ← lift (get_peer_id info (client_hostname leader_client))
  update (λ s. record s {
    leader_peer_id = leader;
    tcp_client_map = insert_absent ℕ_discrete leader leader_client s.tcp_client_map;
  })
  message ← on_network (receive leader_client)
  _ ← lift (new_leader_answer message)
  pure tt

-- The loop of waitForPendingRequestMsg, with the request it has so far.
unfoldable pub collect_pending : List ℕ → RequestMsg → Program World RequestMsg
unfolding service lookup on_network receive pending_answer
collect_pending [] found = pure found
collect_pending (peer ∷ peers) found = do
  s ← service
  elim (lookup ℕ_discrete peer s.tcp_client_map) [
    | none ↦ collect_pending peers found
    | some tcp_client ↦ on_network (receive tcp_client) >>= λ message.
        lift (pending_answer message) >>= λ msg.
        collect_pending peers (if msg.operation_type == 0 then found else msg)
  ]

unfoldable pub wait_for_pending_request_msg : Program World RequestMsg
unfolding service collect_pending get_dummy_pending_request_msg
wait_for_pending_request_msg = do
  s ← service
  collect_pending s.alive_peers get_dummy_pending_request_msg
