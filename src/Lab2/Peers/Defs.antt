-- ===== src/Lab2/Peers/Defs.antt =====
-- lab2/src/utils.cpp: Utils and PeerInfo. A file is the list of its lines. A host file has at most ten
-- hosts, so the identifiers do not reach the end of uint32_t.
use cs7610_f.Prelude.{
  ℕ, ◌+◌, List, [], ◌∷◌, String, String_discrete, Result, ok, fatal, out_of_range, check, or_throw,
  ◌>>=◌, ◌>>◌, leb, length, lookup, assign, ℕ_discrete,
}
use cs7610_f.Hosts.{unique_lines, other_hosts, position_from}

unfoldable pub read_host_file : List String → Result (List String)
unfolding unique_lines
read_host_file lines = do
  let hostnames = unique_lines [] lines
  check (leb 5 (length hostnames)) fatal
  check (leb (length hostnames) 10) fatal
  ok hostnames

unfoldable pub get_peer_container_hostnames : List String → String → List String
unfolding other_hosts
get_peer_container_hostnames all_hostnames current_hostname =
    other_hosts all_hostnames current_hostname

unfoldable pub get_process_identifier : String → List String → Result ℕ
unfolding position_from
get_process_identifier hostname all_hostnames = do
  i ← or_throw (position_from 0 all_hostnames hostname) fatal
  ok (i + 1)

pub record PeerInfo : Type 0 where
  pub my_peer_id : ℕ
  pub all_peer_hostnames : List String
  pub hostname_to_peer_id_map : List (String × ℕ)
  pub peer_id_to_hostname_map : List (ℕ × String)

-- The static members before `initialize`; the id is 2^32 - 1.
unfoldable pub no_peers : PeerInfo
no_peers = record {
  my_peer_id = 4294967295;
  all_peer_hostnames = [];
  hostname_to_peer_id_map = [];
  peer_id_to_hostname_map = [];
}

-- The loop of `initialize` over the hostnames that are left.
unfoldable pub register : List String → PeerInfo → Result PeerInfo
unfolding get_process_identifier assign
register [] info = ok info
register (hostname ∷ hostnames) info = do
  peer_id ← get_process_identifier hostname info.all_peer_hostnames
  register hostnames (record info {
    hostname_to_peer_id_map = assign String_discrete hostname peer_id info.hostname_to_peer_id_map;
    peer_id_to_hostname_map = assign ℕ_discrete peer_id hostname info.peer_id_to_hostname_map;
  })

unfoldable pub initialize : String → List String → PeerInfo → Result PeerInfo
unfolding register lookup
initialize my_hostname all_peer_hostnames info = do
  filled ← register all_peer_hostnames (record info { all_peer_hostnames = all_peer_hostnames })
  my_peer_id ←
      or_throw (lookup String_discrete my_hostname filled.hostname_to_peer_id_map) out_of_range
  ok (record filled { my_peer_id = my_peer_id })

unfoldable pub get_hostname : PeerInfo → ℕ → Result String
unfolding lookup
get_hostname info peer_id =
    or_throw (lookup ℕ_discrete peer_id info.peer_id_to_hostname_map) out_of_range

unfoldable pub get_peer_id : PeerInfo → String → Result ℕ
unfolding lookup
get_peer_id info hostname =
    or_throw (lookup String_discrete hostname info.hostname_to_peer_id_map) out_of_range
