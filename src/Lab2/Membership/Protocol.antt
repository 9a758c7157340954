-- ===== src/Lab2/Membership/Protocol.antt =====
-- lab2/src/membership.cpp: the membership protocol. The threads' endless loops are given by their turns.
use cs7610_f.Prelude.{
  ℕ, List, [], ◌∷◌, Bool, true, false, Result, ok, throws, none, some, fatal, blocked, undefined,
  ◌==◌, if◌then◌else◌, String, ℕ_discrete, remove, set_insert, set_erase, insert_absent,
}
use cs7610_f.Lab2.Message.{
  MsgTypeEnum, request, new_view, OperationTypeEnum, add, del, cast_operation_type, Message,
}
use cs7610_f.Lab2.SerDe.{get_msg_type}
use cs7610_f.Lab2.Peers.{PeerInfo, get_peer_id}
use cs7610_f.Program.{Program, ◌>>=◌, ◌>>◌, pure, fail, lift, when, catch}
use cs7610_f.Lab2.Sockets.{new_tcp_client, open_server, accept, client_hostname, receive}
use cs7610_f.Lab2.Membership.State.{
  World, Uninitialised, create_request_msg, create_ok_msg, next, on_network, service, update,
  client_of,
}
use cs7610_f.Lab2.Membership.Requests.{
  send_request_msg, send_ok_msg, send_new_view_msg, send_pending_request_msg, send_new_leader_msg,
  process_request_msg, process_new_view_msg, wait_for_ok_msg, wait_for_new_leader_msg,
  wait_for_pending_request_msg,
}

abbrev pub is_del : OperationTypeEnum → Bool
is_del del = true
is_del _ = false

abbrev pub is_add : OperationTypeEnum → Bool
is_add add = true
is_add _ = false

unfoldable pub modify_group_membership :
    PeerInfo → Bool → Uninitialised → ℕ → OperationTypeEnum → Program World (Unit {0})
unfolding create_request_msg service update remove set_erase set_insert send_request_msg
    wait_for_ok_msg send_new_view_msg
modify_group_membership info leader_failure_demo u peer_id operation_type = do
  s ← service
  let (counted, request_msg) = create_request_msg s peer_id operation_type
  update (λ _. counted)
  when (is_del operation_type) (
      update (λ s. record s {
        tcp_client_map = remove ℕ_discrete peer_id s.tcp_client_map;
        alive_peers = set_erase peer_id s.alive_peers;
      }))
  send_request_msg leader_failure_demo request_msg
  asked ← service
  wait_for_ok_msg request_msg.request_id asked.alive_peers
  when (is_add operation_type)
      (update (λ s. record s { alive_peers = set_insert peer_id s.alive_peers }))
  update (λ s. record s { view_id = next s.view_id })
  send_new_view_msg info u

-- The loop of findLeader over the hostnames that are left.
unfoldable pub try_leaders : PeerInfo → List String → Program World (Unit {0})
unfolding get_peer_id service update on_network new_tcp_client insert_absent
try_leaders info [] = update (λ s. record s { leader_peer_id = info.my_peer_id })
try_leaders info (hostname ∷ hostnames) = do
  peer_id ← lift (get_peer_id info hostname)
  let rest = try_leaders info hostnames
  s ← service
  let attempt =
      on_network (new_tcp_client hostname s.membership_port 0) >>= λ client. pure (some client)
  let connecting = catch attempt (pure none)
  let trying = connecting >>= λ connected. elim connected [
    | none ↦ rest
    | some client ↦ update (λ s. record s {
      leader_peer_id = peer_id;
      tcp_client_map = insert_absent ℕ_discrete peer_id client s.tcp_client_map;
    })
  ]
  if peer_id == info.my_peer_id then rest else trying

unfoldable pub find_leader : PeerInfo → Program World (Unit {0})
unfolding try_leaders
find_leader info = try_leaders info info.all_peer_hostnames

-- *begin()
abbrev pub first_of : List ℕ → Result ℕ
first_of [] = throws undefined
first_of (x ∷ xs) = ok x

-- Where a process is: in startAsLeader, in startAsFollower, or waiting for its failure detector.
pub data Phase : Type 0 where
  leading following waiting : Phase

-- `alive` is what alivePeersGetter returns.
unfoldable pub handle_leader_crash : PeerInfo → Bool → Uninitialised → List ℕ → Program World Phase
unfolding service update set_insert set_erase send_new_leader_msg wait_for_pending_request_msg
    modify_group_membership cast_operation_type send_new_view_msg wait_for_new_leader_msg
    send_pending_request_msg
handle_leader_crash info leader_failure_demo u alive = do
  update (λ s. record s { tcp_client_map = [] })
  next_leader ← lift (first_of (set_insert info.my_peer_id alive))
  let taking_over = do
    update (λ s. record s { alive_peers = set_erase s.leader_peer_id s.alive_peers })
    send_new_leader_msg info
    pending_request_msg ← wait_for_pending_request_msg
    if pending_request_msg.operation_type == 0
        then send_new_view_msg info u
        else modify_group_membership info leader_failure_demo u pending_request_msg.peer_id
            (cast_operation_type pending_request_msg.operation_type)
    update (λ s. record s { leader_peer_id = next_leader })
    pure leading
  let joining = do wait_for_new_leader_msg info; send_pending_request_msg; pure following
  if info.my_peer_id == next_leader then taking_over else joining

-- One turn of startAsLeader.
unfoldable pub leader_step : PeerInfo → Bool → Uninitialised → Program World (Unit {0})
unfolding on_network accept client_hostname get_peer_id update insert_absent modify_group_membership
leader_step info leader_failure_demo u = do
  tcp_client ← on_network accept
  new_peer_id ← lift (get_peer_id info (client_hostname tcp_client))
  update (λ s. record s {
    tcp_client_map = insert_absent ℕ_discrete new_peer_id tcp_client s.tcp_client_map;
  })
  modify_group_membership info leader_failure_demo u new_peer_id add

-- The switch of startAsFollower.
unfoldable pub handle_leader_message :
    PeerInfo → Uninitialised → Message → MsgTypeEnum → Program World (Unit {0})
unfolding service process_request_msg create_ok_msg send_ok_msg process_new_view_msg
handle_leader_message info u message request = do
  process_request_msg message
  s ← service
  send_ok_msg (create_ok_msg s)
handle_leader_message info u message new_view = process_new_view_msg info u message
handle_leader_message info u message _ = fail fatal

-- One turn of startAsFollower.
unfoldable pub follower_step : PeerInfo → Uninitialised → Program World (Unit {0})
unfolding service client_of on_network receive get_msg_type handle_leader_message
follower_step info u = do
  s ← service
  leader_tcp_client ← client_of s.leader_peer_id
  message ← on_network (receive leader_tcp_client)
  msg_type_enum ← lift (get_msg_type message)
  handle_leader_message info u message msg_type_enum

unfoldable pub handle_peer_failure : PeerInfo → Bool → Uninitialised → ℕ → Program World (Unit {0})
unfolding service update modify_group_membership
handle_peer_failure info leader_failure_demo u crashed_peer_id = do
  s ← service
  let deleting = modify_group_membership info leader_failure_demo u crashed_peer_id del
  let noting = update (λ s. record s { leader_crashed = true })
  if info.my_peer_id == s.leader_peer_id
      then deleting
      else if crashed_peer_id == s.leader_peer_id
      then noting
      else pure tt

-- startAsLeader sets up its server before its loop.
unfoldable pub enter : Phase → Program World Phase
unfolding on_network open_server
enter leading = on_network open_server >> pure leading
enter following = pure following
enter waiting = pure waiting

-- How `start` begins.
unfoldable pub start : PeerInfo → Program World Phase
unfolding find_leader service enter
start info = do
  find_leader info
  s ← service
  enter (if info.my_peer_id == s.leader_peer_id then leading else following)

-- And how it goes on.
unfoldable pub step : PeerInfo → Bool → Uninitialised → List ℕ → Phase → Program World Phase
unfolding leader_step follower_step service update handle_leader_crash enter
step info leader_failure_demo u alive leading =
    leader_step info leader_failure_demo u >> pure leading
step info leader_failure_demo u alive following =
    catch (follower_step info u >> pure following) (pure waiting)
step info leader_failure_demo u alive waiting = do
  s ← service
  let noticed = do
    update (λ s. record s { leader_crashed = false })
    phase ← handle_leader_crash info leader_failure_demo u alive
    enter phase
  if s.leader_crashed then noticed else fail blocked
