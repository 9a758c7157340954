-- ===== src/Lab0/Awaited.antt =====
-- Whom the two threads of lab0/main.cpp wait for at the start.
use cs7610_f.Prelude.{
  ℕ, ◌≡◌, refl, sym, ap, ◌∙◌, subst, arith, List, [], ◌∷◌, String, String_discrete, some, false,
  ◌||◌, ok, ite, contains, contains-from_list, contains-insert, from_list,
}
use cs7610_f.Sockets.{Resolution, Kernel}
use cs7610_f.Hosts.{unique_lines, contains-unique_lines, other_hosts}
use cs7610_f.Lab0.Heartbeat.{Heartbeat, add_to_alive_message_receiver_list}
use cs7610_f.Lab0.Startup.{
  launch, add_peers, new_heartbeat, parse_host_file_from_cmd_arguments,
  get_current_container_hostname,
}
use cs7610_f.Lab0.Launch.{Launched, launch_inv, add_peers-Added, contains-other_hosts, ok_injective}

add_peers-contains :
    (peers : List String) (s : Heartbeat) (peer : String)
    → contains String_discrete peer (add_peers peers s).alive_message_receivers ≡ (
        contains String_discrete peer peers
        || contains String_discrete peer s.alive_message_receivers)
unfolding add_peers add_to_alive_message_receiver_list contains
add_peers-contains [] s peer = refl
add_peers-contains (p ∷ peers) s peer = ground (
  arith,
  add_peers-contains peers (add_to_alive_message_receiver_list p s) peer,
  contains-insert String_discrete p peer s.alive_message_receivers,
)

file_contains :
    (lines : List String) (current peer : String)
    → contains String_discrete peer (other_hosts (unique_lines [] lines) current)
      ≡ ite (String_discrete peer current) false (contains String_discrete peer lines)
unfolding contains
file_contains lines current peer = ground (
  arith,
  contains-other_hosts (unique_lines [] lines) current peer,
  contains-unique_lines [] lines peer,
)

-- The hosts that are awaited from the start.
abbrev Awaits : List String → String → String → Heartbeat → Type 0
Awaits lines current peer s =
    (contains String_discrete peer s.valid_senders
      ≡ ite (String_discrete peer current) false (contains String_discrete peer lines))
    × (contains String_discrete peer s.alive_message_receivers
        ≡ ite (String_discrete peer current) false (contains String_discrete peer lines))

Launched-Awaits :
    (lines : List String) (current peer : String) (s : Heartbeat)
    → Launched s lines current
    → Awaits lines current peer s
unfolding new_heartbeat from_list contains
Launched-Awaits lines current peer s l =
    let hosts : contains String_discrete peer l.peers
        ≡ ite (String_discrete peer current) false (contains String_discrete peer lines) =
      ap (contains String_discrete peer) l.of_file ∙ file_contains lines current peer in
    let fresh = new_heartbeat l.peers l.fd l.kernel in
    subst (Awaits lines current peer) l.started (
      ap (contains String_discrete peer) (add_peers-Added l.peers fresh).valid
          ∙ contains-from_list String_discrete peer l.peers
          ∙ hosts,
      ground (arith, add_peers-contains l.peers fresh peer, hosts),
    )

module _ (answers : ℕ → String → Resolution) (files : String → List String) where
  -- The hosts from which alive messages are awaited, and those from which an Ack is, are the lines of the
  -- host file but for the current host.
  pub launch_lem :
      (argv : List String) (path current peer : String) (k : Kernel) (s : Heartbeat)
      → parse_host_file_from_cmd_arguments argv ≡ ok path
      → launch answers files argv (some current) k ≡ ok s
      → (contains String_discrete peer s.valid_senders
          ≡ ite (String_discrete peer current) false (contains String_discrete peer (files path)))
        × (contains String_discrete peer s.alive_message_receivers
            ≡ ite (String_discrete peer current) false (contains String_discrete peer (files path)))
  unfolding get_current_container_hostname
  launch_lem argv path current peer k s e l =
      let (path', current', e1, e2, started) = launch_inv answers files argv (some current) k s l in
      let same_path : path' ≡ path = ok_injective (sym e1 ∙ e) in
      let same_current : current' ≡ current = ok_injective (sym e2) in
      subst (λ current. Awaits (files path) current peer s) same_current
        (subst (λ path. Awaits (files path) current' peer s) same_path
          (Launched-Awaits (files path') current' peer s started))
