-- ===== src/Lab0/Launch.antt =====
-- What `main` of lab0/main.cpp starts its threads from.
use cs7610_f.Prelude.{
  ℕ, ◌≡◌, refl, sym, ap, ◌∙◌, subst, arith, List, [], ◌∷◌, String, String_discrete, Option, Bool,
  true, false, ◌&&◌, Result, ok, check, fatal, leb, ◌>>=◌, ◌>>◌, ok_inv, ite, contains, insert,
  Distinct, length, ◌==◌,
}
use cs7610_f.Sockets.{Resolution, Kernel}
use cs7610_f.Hosts.{unique_lines, unique_lines-Distinct, other_hosts}
use cs7610_f.Lab0.Udp.{new_udp_receiver}
use cs7610_f.Lab0.Heartbeat.{Heartbeat, add_to_alive_message_receiver_list}
use cs7610_f.Lab0.Startup.{
  launch, add_peers, new_heartbeat, read_host_file, get_peer_container_hostnames,
  parse_host_file_from_cmd_arguments, get_current_container_hostname, get_process_identifier,
}

-- What making the peers receivers leaves alone.
pub record Added (s s' : Heartbeat) : Type 0 where
  pub stop : s'.stop_alive_message_loop ≡ s.stop_alive_message_loop
  pub valid : s'.valid_senders ≡ s.valid_senders
  pub senders : s'.udp_senders ≡ s.udp_senders

pub add_peers-Added : (peers : List String) (s : Heartbeat) → Added s (add_peers peers s)
unfolding add_peers add_to_alive_message_receiver_list
add_peers-Added [] s = record { stop = refl; valid = refl; senders = refl }
add_peers-Added (peer ∷ peers) s =
    let later = add_peers-Added peers (add_to_alive_message_receiver_list peer s) in
    record { stop = later.stop; valid = later.valid; senders = later.senders }

insert_nonempty :
    (host : String) (hosts : List String)
    → (length (insert String_discrete host hosts) == 0) ≡ false
unfolding insert
insert_nonempty host [] = refl
insert_nonempty host (x ∷ hosts) = ground arith

pub add_peers-receivers :
    (peers : List String) (s : Heartbeat)
    → (length (add_peers peers s).alive_message_receivers == 0)
      ≡ ((length s.alive_message_receivers == 0) && (length peers == 0))
unfolding add_peers add_to_alive_message_receiver_list
add_peers-receivers [] s = ground arith
add_peers-receivers (peer ∷ peers) s = ground (
  arith,
  add_peers-receivers peers (add_to_alive_message_receiver_list peer s),
  insert_nonempty peer s.alive_message_receivers,
)

-- A host file of two hosts leaves a peer.
other_hosts_nonempty :
    (hosts : List String) (current : String)
    → Distinct String_discrete hosts
    → leb 2 (length hosts) ≡ true
    → (length (other_hosts hosts current) == 0) ≡ false
unfolding other_hosts contains
other_hosts_nonempty [] current d l = ground arith
other_hosts_nonempty (a ∷ []) current d l = ground arith
other_hosts_nonempty (a ∷ b ∷ hosts) current d l = ground arith

pub contains-other_hosts :
    (hosts : List String) (current peer : String)
    → contains String_discrete peer (other_hosts hosts current)
      ≡ ite (String_discrete peer current) false (contains String_discrete peer hosts)
unfolding other_hosts contains
contains-other_hosts [] current peer = ground arith
contains-other_hosts (host ∷ hosts) current peer =
    ground (arith, contains-other_hosts hosts current peer)

check_inv :
    (test : Bool) (hosts found : List String)
    → (check test fatal >> ok hosts) ≡ ok found
    → (test ≡ true) × (hosts ≡ found)
check_inv test hosts found e = ground arith

read_host_file_inv :
    (lines hosts : List String)
    → read_host_file lines ≡ ok hosts
    → (leb 2 (length hosts) ≡ true) × (unique_lines [] lines ≡ hosts)
unfolding read_host_file
read_host_file_inv lines hosts e =
    let (enough, same) =
      check_inv (leb 2 (length (unique_lines [] lines))) (unique_lines [] lines) hosts e in
    (ap (λ hosts. leb 2 (length hosts)) (sym same) ∙ enough, same)

pub ok_injective : {A : Type 0} {a b : A} → ok a ≡ ok b → a ≡ b
ok_injective e = cc

-- What `launch` starts from.
pub record Launched (s : Heartbeat) (lines : List String) (current : String) : Type 0 where
  pub peers : List String
  pub fd : ℕ
  pub kernel : Kernel
  pub some_peer : (length peers == 0) ≡ false
  pub of_file : peers ≡ other_hosts (unique_lines [] lines) current
  pub started : add_peers peers (new_heartbeat peers fd kernel) ≡ s

module _ (answers : ℕ → String → Resolution) (files : String → List String) where
  after_peers : List String → Kernel → ℕ → Result Heartbeat
  after_peers peers k fd = ok (add_peers peers (new_heartbeat peers fd k))

  after_current : List String → Kernel → String → Result Heartbeat
  after_current hostnames k current = get_process_identifier hostnames current >>= λ id.
      (new_udp_receiver answers k).0
      >>= after_peers (get_peer_container_hostnames hostnames current)
          (new_udp_receiver answers k).1

  after_hosts : Option String → Kernel → List String → Result Heartbeat
  after_hosts hostname k hostnames =
      get_current_container_hostname hostname >>= after_current hostnames k

  pub launch_inv :
      (argv : List String) (hostname : Option String) (k : Kernel) (s : Heartbeat)
      → launch answers files argv hostname k ≡ ok s
      → (path : String) × (current : String) × (parse_host_file_from_cmd_arguments argv ≡ ok path)
        × (get_current_container_hostname hostname ≡ ok current)
        × Launched s (files path) current
  unfolding launch after_peers after_current after_hosts get_peer_container_hostnames
  launch_inv argv hostname k s e =
      let (path, e1, f1) =
        ok_inv (parse_host_file_from_cmd_arguments argv)
          (λ path. read_host_file (files path) >>= after_hosts hostname k) s e in
      let (hostnames, e2, f2) =
        ok_inv (read_host_file (files path)) (after_hosts hostname k) s f1 in
      let (current, e3, f3) =
        ok_inv (get_current_container_hostname hostname) (after_current hostnames k) s f2 in
      let (id, e4, f4) =
        ok_inv (get_process_identifier hostnames current)
          (λ id.
            (new_udp_receiver answers k).0
            >>= after_peers (get_peer_container_hostnames hostnames current)
                (new_udp_receiver answers k).1)
          s f3 in
      let (fd, e5, f5) =
        ok_inv (new_udp_receiver answers k).0
          (after_peers (get_peer_container_hostnames hostnames current)
            (new_udp_receiver answers k).1)
          s f4 in
      let (enough, same) = read_host_file_inv (files path) hostnames e2 in
      (
        path,
        current,
        e1,
        e3,
        record {
          peers = other_hosts hostnames current;
          fd = fd;
          kernel = (new_udp_receiver answers k).1;
          some_peer =
              other_hosts_nonempty hostnames current
                (subst (Distinct String_discrete) same (unique_lines-Distinct [] (files path)))
                enough;
          of_file = ap (λ hosts. other_hosts hosts current) (sym same);
          started = ok_injective f5;
        },
      )
