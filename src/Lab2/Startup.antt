-- ===== src/Lab2/Startup.antt =====
-- lab2/src/main.cpp: what `main` builds before it starts the threads of its two services.
use cs7610_f.Prelude.{
  ℕ, ◌≤◌, ◌≡◌, refl, ◌∙◌, true, List, [], ◌∷◌, String, String_discrete, Option, some, Result, ok,
  ◌>>=◌, contains, Distinct, length, set_insert, set_insert_all,
}
use cs7610_f.Lab2.Peers.{
  PeerInfo, Known, initialize, initialize-Known, get_peer_id, no_peers, read_host_file,
}
use cs7610_f.Lab2.Peers.Files.{read_host_file_lem}
use cs7610_f.Lab2.Udp.{get_current_hostname}
use cs7610_f.Lab2.FailureDetector.{FailureDetector, new_detector, add_peer_failure_callback}
use cs7610_f.Lab2.Membership.{MembershipService, new_membership_service, get_group_members}

pub record Process : Type 0 where
  pub peers : PeerInfo
  pub failure_detector : FailureDetector
  pub membership_service : MembershipService

-- The number of the one callback of the failure detector, which calls the service's handlePeerFailure.
abbrev pub handles_failure : ℕ
handles_failure = 0

unfoldable pub launch : List String → Option String → Result Process
unfolding read_host_file initialize no_peers get_current_hostname new_detector
    add_peer_failure_callback new_membership_service
launch lines hostname = do
  hostnames ← read_host_file lines
  my_hostname ← get_current_hostname hostname
  info ← initialize my_hostname hostnames no_peers
  ok (record {
    peers = info;
    failure_detector = add_peer_failure_callback (new_detector 10001) handles_failure;
    membership_service = new_membership_service 10000;
  })

launched :
    (lines hosts : List String) (current : String) (info : PeerInfo)
    → read_host_file lines ≡ ok hosts
    → initialize current hosts no_peers ≡ ok info
    → launch lines (some current)
      ≡ ok (record {
        peers = info;
        failure_detector = add_peer_failure_callback (new_detector 10001) handles_failure;
        membership_service = new_membership_service 10000;
      })
unfolding launch get_current_hostname
launched lines hosts current info e f = rw (e, f) refl

-- A process whose host is in a host file that can be read starts: it knows the five to ten hosts of the
-- file, every one of them under one identifier that leads back to it, and its own, it is the only member of
-- its group, and its failure detector calls the membership service and nobody else.
pub launch_knows :
    (lines hosts : List String) (current : String)
    → read_host_file lines ≡ ok hosts
    → contains String_discrete current lines ≡ true
    → (s : Process) × (launch lines (some current) ≡ ok s)
      × Known s.peers hosts
      × (get_peer_id s.peers current ≡ ok s.peers.my_peer_id)
      × (get_group_members s.peers s.membership_service ≡ s.peers.my_peer_id ∷ [])
      × Distinct String_discrete hosts
      × (5 ≤ length hosts)
      × (length hosts ≤ 10)
      × (s.failure_detector.on_failure_callbacks ≡ handles_failure ∷ [])
unfolding new_detector add_peer_failure_callback new_membership_service get_group_members set_insert
    set_insert_all
launch_knows lines hosts current e c =
    let (distinct, low, high, same) = read_host_file_lem lines hosts current e in
    let (info, done, known, all, own) = initialize-Known current hosts (same ∙ c) in
    (
      record {
        peers = info;
        failure_detector = add_peer_failure_callback (new_detector 10001) handles_failure;
        membership_service = new_membership_service 10000;
      },
      launched lines hosts current info e done,
      known,
      own,
      refl,
      distinct,
      low,
      high,
      refl,
    )
