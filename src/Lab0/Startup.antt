-- ===== src/Lab0/Startup.antt =====
-- lab0/utils.cpp and the start of lab0/main.cpp. A file is the list of its lines.
use cs7610_f.Prelude.{
  ℕ, ◌+◌, List, [], ◌∷◌, String, String_discrete, Option, false, Result, ok, throws, fatal, check,
  or_throw, ◌>>=◌, ◌>>◌, leb, length, ite, from_list,
}
use cs7610_f.Hosts.{unique_lines, other_hosts, position_from}
use cs7610_f.Sockets.{Resolution, Kernel}
use cs7610_f.Lab0.Udp.{new_udp_receiver}
use cs7610_f.Lab0.Heartbeat.{Heartbeat, add_to_alive_message_receiver_list}

-- `gethostname`'s answer, none where it fails.
unfoldable pub get_current_container_hostname : Option String → Result String
get_current_container_hostname hostname = or_throw hostname fatal

unfoldable pub read_host_file : List String → Result (List String)
unfolding unique_lines
read_host_file lines = do
  let hostnames = unique_lines [] lines
  check (leb 2 (length hostnames)) fatal
  ok hostnames

unfoldable pub get_peer_container_hostnames : List String → String → List String
unfolding other_hosts
get_peer_container_hostnames all_hostnames current_hostname =
    other_hosts all_hostnames current_hostname

unfoldable pub get_process_identifier : List String → String → Result ℕ
unfolding position_from
get_process_identifier all_hostnames hostname = do
  i ← or_throw (position_from 0 all_hostnames hostname) fatal
  ok (i + 1)

-- The arguments are those of argv, the program's name first.
unfoldable pub parse_host_file_from_cmd_arguments : List String → Result String
parse_host_file_from_cmd_arguments (program ∷ option ∷ path ∷ []) =
    ite (String_discrete option "-h") (ok path) (throws fatal)
parse_host_file_from_cmd_arguments _ = throws fatal

-- The loop that makes the peers receivers of alive messages.
unfoldable pub add_peers : List String → Heartbeat → Heartbeat
unfolding add_to_alive_message_receiver_list
add_peers [] s = s
add_peers (peer ∷ peers) s = add_peers peers (add_to_alive_message_receiver_list peer s)

-- The static members, and a receiver of the peers' messages.
unfoldable pub new_heartbeat : List String → ℕ → Kernel → Heartbeat
unfolding from_list
new_heartbeat valid_senders fd k = record {
  alive_message_receivers = [];
  udp_senders = [];
  stop_alive_message_loop = false;
  valid_senders = from_list String_discrete valid_senders;
  receiver_fd = fd;
  kernel = k;
}

-- `main` up to the loops of its two threads, with the peers added before a packet is handled.
unfoldable pub launch :
    (ℕ → String → Resolution)
    → (String → List String)
    → List String
    → Option String
    → Kernel
    → Result Heartbeat
unfolding parse_host_file_from_cmd_arguments read_host_file get_current_container_hostname
    get_peer_container_hostnames get_process_identifier new_udp_receiver add_peers new_heartbeat
launch answers files argv hostname k = do
  host_file_path ← parse_host_file_from_cmd_arguments argv
  hostnames ← read_host_file (files host_file_path)
  current ← get_current_container_hostname hostname
  let peers = get_peer_container_hostnames hostnames current
  current_process_identifier ← get_process_identifier hostnames current
  let receiver = new_udp_receiver answers k
  fd ← receiver.0
  ok (add_peers peers (new_heartbeat peers fd receiver.1))
