-- ===== src/Lab2/Tests/Launching.antt =====
-- The start of a process from a host file with a line that stands twice.
use cs7610_f.Prelude.{
  ◌≤◌, ◌≡◌, refl, List, [], ◌∷◌, String, String_discrete, some, ok, contains, Distinct, length,
  insert,
}
use cs7610_f.Hosts.{unique_lines}
use cs7610_f.Lab2.Peers.{Known, get_peer_id, read_host_file}
use cs7610_f.Lab2.Membership.{get_group_members}
use cs7610_f.Lab2.Startup.{Process, launch, launch_knows}

abbrev host_file : List String
host_file = "ant" ∷ "bee" ∷ "ant" ∷ "cat" ∷ "dog" ∷ "elk" ∷ []

abbrev five_hosts : List String
five_hosts = "ant" ∷ "bee" ∷ "cat" ∷ "dog" ∷ "elk" ∷ []

launch_knows_example :
    (s : Process) × (launch host_file (some "dog") ≡ ok s)
    × Known s.peers five_hosts
    × (get_peer_id s.peers "dog" ≡ ok s.peers.my_peer_id)
    × (get_group_members s.peers s.membership_service ≡ s.peers.my_peer_id ∷ [])
    × Distinct String_discrete five_hosts
    × (5 ≤ length five_hosts)
    × (length five_hosts ≤ 10)
    × (s.failure_detector.on_failure_callbacks ≡ 0 ∷ [])
unfolding read_host_file unique_lines insert contains String_discrete
launch_knows_example = launch_knows host_file five_hosts "dog" refl refl
