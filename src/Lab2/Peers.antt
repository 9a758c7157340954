-- ===== src/Lab2/Peers.antt =====
-- lab2/src/utils.cpp: the host file and PeerInfo.
mod Defs
mod Ids
pub mod Files
unfoldable pub use Defs.{
  read_host_file, get_peer_container_hostnames, get_process_identifier, no_peers, register,
  initialize, get_hostname, get_peer_id,
}
pub use Defs.{PeerInfo}
pub use Ids.{Known, initialize-Known, get_peer_id_injective}
