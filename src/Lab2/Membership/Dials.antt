-- ===== src/Lab2/Membership/Dials.antt =====
-- lab2/src/membership.cpp: one attempt of findLeader to connect, and what it leaves.
use cs7610_f.Prelude.{
  ℕ, ◌≡◌, refl, ap, ◌∙◌, ◌≢◌, List, [], ◌∷◌, Bool, true, false, Option-cases, inl, inr, Option,
  some, none, String, String_discrete, Result, ok, arith, lookup, assign, lookup-assign, contains,
  ◌==◌, transport, ℕ_discrete, insert_absent,
}
use cs7610_f.Lab2.Peers.{PeerInfo}
use cs7610_f.Program.{Program, ◌>>=◌, pure, fail, catch}
use cs7610_f.Lab2.Sockets.{TcpClient, Network, connect, new_tcp_client}
use cs7610_f.Lab2.Membership.State.{MembershipService, World, on_network}

-- What the next attempt to connect to a host gives.
abbrev pub next_dial : Option (List (Option ℕ)) → Option ℕ
next_dial (some (outcome ∷ later)) = outcome
next_dial _ = none

abbrev pub answered_by : String → Option ℕ → Option (String × ℕ) → Option (String × ℕ)
answered_by host (some fd) rest = some (host, fd)
answered_by host none rest = rest

abbrev pub choose : Bool → String → Option ℕ → Option (String × ℕ) → Option (String × ℕ)
choose true host dial rest = rest
choose false host dial rest = answered_by host dial rest

-- The first host but the own that accepts a connection, with its connection.
abbrev pub first_answer :
    PeerInfo → (String → ℕ) → List (String × List (Option ℕ)) → List String → Option (String × ℕ)
first_answer info id dials [] = none
first_answer info id dials (host ∷ hosts) =
    choose (id host == info.my_peer_id) host (next_dial (lookup String_discrete host dials))
      (first_answer info id dials hosts)

-- The service that found that leader, or none.
abbrev pub found :
    PeerInfo → (String → ℕ) → MembershipService → Option (String × ℕ) → MembershipService
found info id s none = record s { leader_peer_id = info.my_peer_id }
found info id s (some (host, fd)) = record s {
  leader_peer_id = id host;
  tcp_client_map =
      insert_absent ℕ_discrete (id host)
        (record { hostname = host; port = s.membership_port; sock_fd = fd }) s.tcp_client_map;
}

-- The dials after one attempt.
abbrev pub spent :
    String
    → List (String × List (Option ℕ))
    → Option (List (Option ℕ))
    → List (String × List (Option ℕ))
spent host dials (some (outcome ∷ later)) = assign String_discrete host later dials
spent host dials _ = dials

-- One attempt of findLeader, with the exception caught.
abbrev pub attempt : String → ℕ → Program World (Option TcpClient)
attempt host port =
    catch (on_network (new_tcp_client host port 0) >>= λ client. pure (some client)) (pure none)

abbrev pub client_at : String → ℕ → Option ℕ → Option TcpClient
client_at host port (some fd) = some (record { hostname = host; port = port; sock_fd = fd })
client_at host port none = none

connect_lem :
    (host : String) (net : Network)
    → connect host net ≡ (
      ok (next_dial (lookup String_discrete host net.dials)),
      record net { dials = spent host net.dials (lookup String_discrete host net.dials) },
    )
unfolding connect
connect_lem host net = elim (Option-cases (lookup String_discrete host net.dials)) [
  | inl e ↦ rw (e, connect) refl
  | inr ([], e) ↦ rw (e, connect) refl
  | inr (outcome ∷ later, e) ↦ rw (e, connect) refl
]

-- The attempt, from what connect gives.
after_connect : String → ℕ → World → Result (Option ℕ) × Network → Result (Option TcpClient) × World
unfolding on_network
after_connect host port w r =
    let made : Program Network TcpClient = (λ (net : Network). r) >>= λ outcome. elim outcome [
      | some fd ↦ pure (record { hostname = host; port = port; sock_fd = fd })
      | none ↦ fail transport
    ] in
    catch (on_network made >>= λ client. pure (some client)) (pure none) w

after_connect_lem :
    (host : String) (port : ℕ) (w : World) (outcome : Option ℕ) (net : Network)
    → after_connect host port w (ok outcome, net)
      ≡ (ok (client_at host port outcome), record w { network = net })
unfolding after_connect on_network
after_connect_lem host port w none net = refl
after_connect_lem host port w (some fd) net = refl

pub attempt_lem :
    (host : String) (port : ℕ) (w : World)
    → attempt host port w ≡ (
      ok (client_at host port (next_dial (lookup String_discrete host w.network.dials))),
      record w {
        network = record w.network {
          dials = spent host w.network.dials (lookup String_discrete host w.network.dials);
        };
      },
    )
unfolding on_network new_tcp_client after_connect
attempt_lem host port w =
    ap (after_connect host port w) (connect_lem host w.network)
    ∙ after_connect_lem host port w (next_dial (lookup String_discrete host w.network.dials))
        (record w.network {
          dials = spent host w.network.dials (lookup String_discrete host w.network.dials);
        })

lookup-spent :
    (host other : String) (dials : List (String × List (Option ℕ)))
    (found : Option (List (Option ℕ)))
    → host ≢ other
    → lookup String_discrete other (spent host dials found) ≡ lookup String_discrete other dials
lookup-spent host other dials none n = refl
lookup-spent host other dials (some []) n = refl
lookup-spent host other dials (some (outcome ∷ later)) n =
    ground (arith, lookup-assign String_discrete host other later dials)

-- A dial of another host leaves the first answer of the rest alone.
pub first_answer-spent :
    (info : PeerInfo) (id : String → ℕ) (host : String) (dials : List (String × List (Option ℕ)))
    (seen : Option (List (Option ℕ))) (hosts : List String)
    → contains String_discrete host hosts ≡ false
    → first_answer info id (spent host dials seen) hosts ≡ first_answer info id dials hosts
unfolding contains
first_answer-spent info id host dials seen [] c = refl
first_answer-spent info id host dials seen (h ∷ hosts) c =
    let rest : first_answer info id (spent host dials seen) hosts
        ≡ first_answer info id dials hosts =
      first_answer-spent info id host dials seen hosts (ground arith) in
    let same : lookup String_discrete h (spent host dials seen) ≡ lookup String_discrete h dials =
      lookup-spent host h dials seen (λ e. ground arith) in
    λ i. choose (id h == info.my_peer_id) h (next_dial (same i)) (rest i)
