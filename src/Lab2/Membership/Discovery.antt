-- ===== src/Lab2/Membership/Discovery.antt =====
-- lab2/src/membership.cpp: findLeader takes the first host that answers.
use cs7610_f.Prelude.{
  ℕ, ◌≡◌, refl, ap, ◌∙◌, List, [], ◌∷◌, Bool, true, false, Option, some, none, String,
  String_discrete, ok, lookup, All, Distinct, ◌==◌, if◌then◌else◌, ℕ_discrete, insert_absent,
}
use cs7610_f.Lab2.Peers.{PeerInfo, get_peer_id}
use cs7610_f.Program.{Program, ◌>>=◌, lift, bind_ok}
use cs7610_f.Lab2.Sockets.{TcpClient}
use cs7610_f.Lab2.Membership.State.{World, service, update}
use cs7610_f.Lab2.Membership.Protocol.{try_leaders}
use cs7610_f.Lab2.Membership.Dials.{
  next_dial, answered_by, choose, first_answer, found, spent, attempt, client_at, attempt_lem,
  first_answer-spent,
}

-- What follows an attempt to connect.
abbrev go_on : String → ℕ → Program World (Unit {0}) → Option TcpClient → Program World (Unit {0})
go_on host peer_id rest none = rest
go_on host peer_id rest (some client) = update (λ s. record s {
  leader_peer_id = peer_id;
  tcp_client_map = insert_absent ℕ_discrete peer_id client s.tcp_client_map;
})

try_leaders_turn :
    (info : PeerInfo) (host : String) (hosts : List String) (peer_id : ℕ) (w : World)
    → get_peer_id info host ≡ ok peer_id
    → try_leaders info (host ∷ hosts) w
      ≡ (if peer_id == info.my_peer_id
            then try_leaders info hosts
            else (attempt host w.member.membership_port
                >>= go_on host peer_id (try_leaders info hosts)))
          w
unfolding try_leaders service
try_leaders_turn info host hosts peer_id w e =
    bind_ok (lift (get_peer_id info host))
      (λ peer_id. service >>= λ s.
        if peer_id == info.my_peer_id
        then try_leaders info hosts
        else (attempt host s.membership_port >>= go_on host peer_id (try_leaders info hosts)))
      w w peer_id (ap (λ r. (r, w)) e)

-- The rest of the loop finds a leader as the list of answers says.
abbrev Finds :
    PeerInfo → (String → ℕ) → Program World (Unit {0}) → World → Option (String × ℕ) → Type 0
Finds info id rest w answer =
    (after : World) × (rest w ≡ (ok tt, after)) × (after.member ≡ found info id w.member answer)

go_on-Finds :
    (info : PeerInfo) (id : String → ℕ) (host : String) (rest : Program World (Unit {0}))
    (w : World) (answer : Option (String × ℕ)) (dial : Option ℕ)
    → Finds info id rest w answer
    → Finds info id
        (go_on host (id host) rest (client_at host w.member.membership_port dial))
        w
        (answered_by host dial answer)
unfolding update
go_on-Finds info id host rest w answer none f = f
go_on-Finds info id host rest w answer (some fd) f =
    (record w { member = found info id w.member (some (host, fd)) }, refl, refl)

-- The world after an attempt to connect to the host.
abbrev dialled : String → World → World
dialled host w = record w {
  network = record w.network {
    dials = spent host w.network.dials (lookup String_discrete host w.network.dials);
  };
}

turn-Finds :
    (info : PeerInfo) (id : String → ℕ) (host : String) (rest : Program World (Unit {0}))
    (w : World) (answer : Option (String × ℕ)) (own : Bool)
    → Finds info id rest w answer
    → Finds info id rest (dialled host w) answer
    → Finds info id
        (if own
          then rest
          else (attempt host w.member.membership_port >>= go_on host (id host) rest))
        w
        (choose own host (next_dial (lookup String_discrete host w.network.dials)) answer)
turn-Finds info id host rest w answer true f g = f
turn-Finds info id host rest w answer false f g =
    let dial : Option ℕ = next_dial (lookup String_discrete host w.network.dials) in
    let (after, done, same) = go_on-Finds info id host rest (dialled host w) answer dial g in
    (
      after,
      bind_ok (attempt host w.member.membership_port) (go_on host (id host) rest) w (dialled host w)
            (client_at host w.member.membership_port dial)
            (attempt_lem host w.member.membership_port w)
          ∙ done,
      same,
    )

-- findLeader takes the first of the hosts, its own left aside, that accepts a connection, and becomes
-- the leader itself if none does.
pub try_leaders_lem :
    (info : PeerInfo) (id : String → ℕ) (hosts : List String) (w : World)
    → Distinct String_discrete hosts
    → All (λ host. get_peer_id info host ≡ ok (id host)) hosts
    → (after : World) × (try_leaders info hosts w ≡ (ok tt, after))
      × (after.member ≡ found info id w.member (first_answer info id w.network.dials hosts))
unfolding try_leaders update
try_leaders_lem info id [] w d k =
    (record w { member = record w.member { leader_peer_id = info.my_peer_id } }, refl, refl)
try_leaders_lem info id (host ∷ hosts) w d k =
    let seen : Option (List (Option ℕ)) = lookup String_discrete host w.network.dials in
    let (later, later_done, later_same) = try_leaders_lem info id hosts (dialled host w) d.1 k.1 in
    let answer : first_answer info id (spent host w.network.dials seen) hosts
        ≡ first_answer info id w.network.dials hosts =
      first_answer-spent info id host w.network.dials seen hosts d.0 in
    let (after, done, same) =
      turn-Finds info id host (try_leaders info hosts) w
        (first_answer info id w.network.dials hosts) (id host == info.my_peer_id)
        (try_leaders_lem info id hosts w d.1 k.1)
        (later, later_done, later_same ∙ ap (found info id w.member) answer) in
    (after, try_leaders_turn info host hosts (id host) w k.0 ∙ done, same)
