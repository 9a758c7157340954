-- ===== src/Lab2/Membership/State.antt =====
-- lab2/src/membership.h and membership.cpp: the state of the service, and the messages made from it.
use cs7610_f.Prelude.{
  ℕ, ◌+◌, ◌%◌, ◌^◌, List, [], Bool, false, ok, or_throw, out_of_range, lookup, ℕ_discrete,
  set_insert, set_insert_all,
}
use cs7610_f.Lab2.Message.{
  request, ok_msg, new_leader, msg_type_code, OperationTypeEnum, nothing, pending, operation_code,
  RequestMsg, OkMsg, NewLeaderMsg,
}
use cs7610_f.Lab2.Peers.{PeerInfo}
use cs7610_f.Program.{Program}
use cs7610_f.Lab2.Sockets.{TcpClient, Network}

pub record MembershipService : Type 0 where
  pub membership_port : ℕ
  pub leader_peer_id : ℕ
  pub request_counter : ℕ
  pub view_id : ℕ
  -- A std::set: its elements, which ascend.
  pub alive_peers : List ℕ
  pub tcp_client_map : List (ℕ × TcpClient)
  pub pending_request : RequestMsg
  pub leader_crashed : Bool

-- The service with the network it uses.
pub record World : Type 0 where
  pub member : MembershipService
  pub network : Network

-- What local arrays hold before they are written: ten words and 52 bytes.
pub record Uninitialised : Type 0 where
  pub members : List ℕ
  pub buffer : List ℕ

unfoldable pub get_dummy_pending_request_msg : RequestMsg
unfolding msg_type_code operation_code
get_dummy_pending_request_msg = record {
  msg_type = msg_type_code request;
  request_id = 0;
  current_view_id = 0;
  operation_type = operation_code nothing;
  peer_id = 0;
}

unfoldable pub new_membership_service : ℕ → MembershipService
unfolding get_dummy_pending_request_msg
new_membership_service membership_port = record {
  membership_port = membership_port;
  leader_peer_id = 1;
  request_counter = 1;
  view_id = 1;
  alive_peers = [];
  tcp_client_map = [];
  pending_request = get_dummy_pending_request_msg;
  leader_crashed = false;
}

unfoldable pub get_group_members : PeerInfo → MembershipService → List ℕ
unfolding set_insert set_insert_all
get_group_members info s = set_insert info.my_peer_id (set_insert_all s.alive_peers [])

-- The id of the next request, and of the next view: uint32_t.
abbrev pub next : ℕ → ℕ
next n = (n + 1) % 2 ^ 32

unfoldable pub create_request_msg :
    MembershipService → ℕ → OperationTypeEnum → MembershipService × RequestMsg
unfolding msg_type_code operation_code
create_request_msg s new_peer_id operation_type_enum = (
  record s { request_counter = next s.request_counter },
  record {
    msg_type = msg_type_code request;
    request_id = next s.request_counter;
    current_view_id = s.view_id;
    operation_type = operation_code operation_type_enum;
    peer_id = new_peer_id;
  },
)

unfoldable pub create_ok_msg : MembershipService → OkMsg
unfolding msg_type_code
create_ok_msg s = record {
  msg_type = msg_type_code ok_msg;
  request_id = s.pending_request.request_id;
  current_view_id = s.view_id;
}

unfoldable pub create_new_leader_msg : MembershipService → MembershipService × NewLeaderMsg
unfolding msg_type_code operation_code
create_new_leader_msg s = (
  record s { request_counter = next s.request_counter },
  record {
    msg_type = msg_type_code new_leader;
    request_id = next s.request_counter;
    current_view_id = s.view_id;
    operation_type = operation_code pending;
  },
)

-- A call of a socket class.
unfoldable pub on_network : {A : Type 0} → Program Network A → Program World A
on_network call w = let (result, net) = call w.network in (result, record w { network = net })

unfoldable pub service : Program World MembershipService
service w = (ok w.member, w)

unfoldable pub update : (MembershipService → MembershipService) → Program World (Unit {0})
update f w = (ok tt, record w { member = f w.member })

-- tcpClientMap.at(peerId)
unfoldable pub client_of : ℕ → Program World TcpClient
unfolding lookup
client_of peer_id w = (or_throw (lookup ℕ_discrete peer_id w.member.tcp_client_map) out_of_range, w)
