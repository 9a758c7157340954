-- ===== src/Lab2/Tests/Scene.antt =====
-- Three hosts, the first of which leads the second, while the third has just connected.
use cs7610_f.Prelude.{
  ℕ, zero, suc, ◌≡◌, refl, List, [], ◌∷◌, String, false, ok, String_discrete, ℕ_discrete, lookup,
  assign, contains, remove, insert_absent, store_word, store_words, first_word, read_word,
  set_insert, set_erase, set_insert_all,
}
use cs7610_f.Hosts.{parse_hostname_from_sender}
use cs7610_f.Lab2.Message.{
  RequestMsg, add, operation_code, msg_type_code, cast_msg_type, cast_operation_type,
}
use cs7610_f.Lab2.SerDe.{
  get_msg_type, serialize_request_msg, deserialize_request_msg, serialize_ok_msg,
  deserialize_ok_msg, serialize_new_view_msg, deserialize_new_view_msg, store_members, read_members,
}
use cs7610_f.Lab2.Peers.{PeerInfo, get_hostname, get_peer_id}
use cs7610_f.Lab2.Sockets.{
  TcpClient, bytes, send, receive, received, accept, connect, new_tcp_client, client_hostname,
}
use cs7610_f.Lab2.Membership.{
  World, Uninitialised, get_dummy_pending_request_msg, get_group_members, create_request_msg,
  create_ok_msg, create_new_leader_msg, on_network, service, update, client_of, ok_answer,
  pending_answer, new_leader_answer, send_to_each, send_requests, send_request_msg, send_ok_msg,
  fill_members, new_view_msg, send_new_view_msg, send_pending_request_msg, greet,
  send_new_leader_msg, process_request_msg, process_new_view_msg, wait_for_ok_msg,
  wait_for_new_leader_msg, collect_pending, wait_for_pending_request_msg, modify_group_membership,
  try_leaders, find_leader, handle_leader_crash, leader_step, handle_leader_message, follower_step,
  handle_peer_failure,
}

-- What a test by evaluation unfolds.
unfoldable pub program : Unit {0}
unfolding String_discrete ℕ_discrete lookup assign contains remove insert_absent store_word
    store_words first_word read_word set_insert set_erase set_insert_all parse_hostname_from_sender
    operation_code msg_type_code cast_msg_type cast_operation_type get_msg_type
    serialize_request_msg deserialize_request_msg serialize_ok_msg deserialize_ok_msg
    serialize_new_view_msg deserialize_new_view_msg store_members read_members get_hostname
    get_peer_id send receive received accept connect new_tcp_client client_hostname
    get_dummy_pending_request_msg get_group_members create_request_msg create_ok_msg
    create_new_leader_msg on_network service update client_of ok_answer pending_answer
    new_leader_answer send_to_each send_requests send_request_msg send_ok_msg fill_members
    new_view_msg send_new_view_msg send_pending_request_msg greet send_new_leader_msg
    process_request_msg process_new_view_msg wait_for_ok_msg wait_for_new_leader_msg collect_pending
    wait_for_pending_request_msg modify_group_membership try_leaders find_leader handle_leader_crash
    leader_step handle_leader_message follower_step handle_peer_failure
program = tt

abbrev pub hosts : List String
hosts = "ant" ∷ "bee" ∷ "cat" ∷ []

abbrev pub peer : ℕ → PeerInfo
peer me = record {
  my_peer_id = me;
  all_peer_hostnames = hosts;
  hostname_to_peer_id_map = ("ant", 1) ∷ ("bee", 2) ∷ ("cat", 3) ∷ [];
  peer_id_to_hostname_map = (1, "ant") ∷ (2, "bee") ∷ (3, "cat") ∷ [];
}

abbrev pub client : String → ℕ → TcpClient
client hostname fd = record { hostname = hostname; port = 10000; sock_fd = fd }

abbrev pub zeros : ℕ → List ℕ
zeros zero = []
zeros (suc n) = 0 ∷ zeros n

abbrev pub stack : Uninitialised
stack = record { members = zeros 10; buffer = zeros 52 }

abbrev pub no_request : RequestMsg
no_request = record {
  msg_type = 1;
  request_id = 0;
  current_view_id = 0;
  operation_type = 0;
  peer_id = 0;
}

abbrev pub leader : World
leader = record {
  member = record {
    membership_port = 10000;
    leader_peer_id = 1;
    request_counter = 2;
    view_id = 2;
    alive_peers = 2 ∷ [];
    tcp_client_map = (2, client "bee" 7) ∷ (3, client "cat" 8) ∷ [];
    pending_request = no_request;
    leader_crashed = false;
  };
  network = record {
    inbox = (7, bytes (0 ∷ 0 ∷ 0 ∷ 2 ∷ 0 ∷ 0 ∷ 0 ∷ 3 ∷ 0 ∷ 0 ∷ 0 ∷ 2 ∷ []) ∷ []) ∷ [];
    broken = [];
    dials = [];
    servers = [];
    incoming = [];
    sent = [];
  };
}

abbrev pub request : RequestMsg
request = record {
  msg_type = 1;
  request_id = 3;
  current_view_id = 2;
  operation_type = 1;
  peer_id = 3;
}

-- The second host, which the request has reached.
abbrev pub follower : World
follower = record {
  member = record leader.member {
    alive_peers = 1 ∷ [];
    request_counter = 1;
    tcp_client_map = (1, client "ant" 5) ∷ [];
  };
  network = record {
    inbox =
        (
          5,
          bytes (0 ∷ 0 ∷ 0 ∷ 1 ∷ 0 ∷ 0 ∷ 0 ∷ 3 ∷ 0 ∷ 0 ∷ 0 ∷ 2 ∷ 0 ∷ 0 ∷ 0 ∷ 1 ∷ 0 ∷ 0 ∷ 0 ∷ 3 ∷ [])
              ∷ [],
        )
        ∷ [];
    broken = [];
    dials = [];
    servers = [];
    incoming = [];
    sent = [];
  };
}

abbrev pub after_add : World
after_add = record {
  member = record leader.member { request_counter = 3; view_id = 3; alive_peers = 2 ∷ 3 ∷ [] };
  network = record leader.network {
    inbox = (7, []) ∷ [];
    sent = (modify_group_membership (peer 1) false stack 3 add leader).1.network.sent;
  };
}

-- The third host joins: the second has agreed, and the view goes to both.
pub test_add : modify_group_membership (peer 1) false stack 3 add leader ≡ (ok tt, after_add)
unfolding program
test_add = refl
