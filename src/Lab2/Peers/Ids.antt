-- ===== src/Lab2/Peers/Ids.antt =====
-- lab2/src/utils.cpp: hostnames and peer ids determine one another.
use cs7610_f.Prelude.{
  subst, ◌++◌, ℕ, ◌+◌, ◌-◌, ◌≡◌, refl, sym, ap, ◌∙◌, true, List, [], ◌∷◌, String, String_discrete,
  ok, arith, ite, contains, assign, lookup-assign, ℕ_discrete,
}
use cs7610_f.Hosts.{get_elem?-position_from, position_from-contains}
use cs7610_f.Lab2.Peers.Defs.{
  PeerInfo, no_peers, get_process_identifier, register, initialize, get_hostname, get_peer_id,
}

-- Two hosts have two ids.
pub get_process_identifier_injective :
    (all : List String) (a b : String) (i : ℕ)
    → get_process_identifier a all ≡ ok i
    → get_process_identifier b all ≡ ok i
    → a ≡ b
unfolding get_process_identifier
get_process_identifier_injective all a b i p q =
    ground (arith, get_elem?-position_from 0 all a (i - 1), get_elem?-position_from 0 all b (i - 1))

-- Every host of `seen` is in both maps, with its position in the file.
pub record Known (info : PeerInfo) (seen : List String) : Type 0 where
  pub listed :
      (host : String)
      → contains String_discrete host seen ≡ true
      → (i : ℕ) × (get_peer_id info host ≡ ok i)
  pub back :
      (host : String) (i : ℕ)
      → get_peer_id info host ≡ ok i
      → (get_process_identifier host info.all_peer_hostnames ≡ ok i)
        × (get_hostname info i ≡ ok host)

-- One turn of the loop of `initialize`.
enter : PeerInfo → String → ℕ → PeerInfo
enter info host i = record info {
  hostname_to_peer_id_map = assign String_discrete host i info.hostname_to_peer_id_map;
  peer_id_to_hostname_map = assign ℕ_discrete i host info.peer_id_to_hostname_map;
}

get_peer_id-enter :
    (info : PeerInfo) (host : String) (i : ℕ) (other : String)
    → get_peer_id (enter info host i) other
      ≡ ite (String_discrete host other) (ok i) (get_peer_id info other)
unfolding get_peer_id enter
get_peer_id-enter info host i other =
    ground (arith, lookup-assign String_discrete host other i info.hostname_to_peer_id_map)

get_hostname-enter :
    (info : PeerInfo) (host : String) (i j : ℕ)
    → get_hostname (enter info host i) j ≡ ite (ℕ_discrete i j) (ok host) (get_hostname info j)
unfolding get_hostname enter
get_hostname-enter info host i j =
    ground (arith, lookup-assign ℕ_discrete i j host info.peer_id_to_hostname_map)

enter-Known :
    (info : PeerInfo) (seen : List String) (host : String) (i : ℕ)
    → Known info seen
    → get_process_identifier host info.all_peer_hostnames ≡ ok i
    → Known (enter info host i) (host ∷ seen)
unfolding enter contains
enter-Known info seen host i k p = record {
  listed = λ other c. elim (String_discrete host other) [
    | yes e ↦ (i, ground (arith, get_peer_id-enter info host i other))
    | no e ↦
        let (j, found) = k.listed other (ground arith) in
        (j, ground (arith, get_peer_id-enter info host i other))
  ];
  back = λ other j found. elim (String_discrete host other) [
    | yes e ↦
        let same : i ≡ j = ground (arith, get_peer_id-enter info host i other) in
        (ground arith, ground (arith, get_hostname-enter info host i j))
    | no e ↦
        let before : get_peer_id info other ≡ ok j =
          ground (arith, get_peer_id-enter info host i other) in
        let (identified, named) = k.back other j before in
        (
          identified,
          ground (
            arith,
            get_hostname-enter info host i j,
            get_process_identifier_injective info.all_peer_hostnames host other i,
          ),
        )
  ];
}

get_process_identifier_ok :
    (all : List String) (host : String)
    → contains String_discrete host all ≡ true
    → (i : ℕ) × (get_process_identifier host all ≡ ok i)
unfolding get_process_identifier
get_process_identifier_ok all host c =
    let (j, found, below) = position_from-contains 0 all host c in (j + 1, rw found)

contains-append_swap :
    (x : String) (xs ys : List String) (h : String)
    → contains String_discrete h (x ∷ xs ++ ys) ≡ contains String_discrete h (xs ++ (x ∷ ys))
unfolding contains
contains-append_swap x [] ys h = refl
contains-append_swap x (y ∷ xs) ys h = ground (arith, contains-append_swap x xs ys h)

Known-of_same :
    (info : PeerInfo) (xs ys : List String)
    → ((h : String) → contains String_discrete h xs ≡ contains String_discrete h ys)
    → Known info ys
    → Known info xs
Known-of_same info xs ys e k = record {
  listed = λ host c. k.listed host (sym (e host) ∙ c);
  back = k.back;
}

register-Known :
    (info : PeerInfo) (hosts seen : List String)
    → Known info seen
    → ((h : String)
        → contains String_discrete h hosts ≡ true
        → contains String_discrete h info.all_peer_hostnames ≡ true)
    → (out : PeerInfo) × (register hosts info ≡ ok out)
      × Known out (hosts ++ seen)
      × (out.all_peer_hostnames ≡ info.all_peer_hostnames)
unfolding register contains enter
register-Known info [] seen k within = (info, refl, k, refl)
register-Known info (host ∷ hosts) seen k within =
    let (i, identified) =
      get_process_identifier_ok info.all_peer_hostnames host (within host (ground arith)) in
    let (out, done, known, same) =
      register-Known (enter info host i) hosts (host ∷ seen)
        (enter-Known info seen host i k identified) (λ h c. within h (ground arith)) in
    (
      out,
      cc,
      Known-of_same out (host ∷ hosts ++ seen) (hosts ++ (host ∷ seen))
          (contains-append_swap host hosts seen) known,
      same,
    )

no_peers-Known : (all : List String) → Known (record no_peers { all_peer_hostnames = all }) []
unfolding no_peers get_peer_id contains
no_peers-Known all = record { listed = λ h e. ground arith; back = λ h i e. ground arith }

append_nil : (xs : List String) → xs ++ [] ≡ xs
append_nil [] = refl
append_nil (x ∷ xs) = ap (◌∷◌ x) (append_nil xs)

within_itself :
    (all : List String) (h : String)
    → contains String_discrete h all ≡ true
    → contains String_discrete h (record no_peers { all_peer_hostnames = all }).all_peer_hostnames
      ≡ true
unfolding no_peers
within_itself all h e = e

-- The id of this process is entered last, and is its own.
own-Known :
    (mine : String) (all : List String) (out : PeerInfo) (i : ℕ)
    → register all (record no_peers { all_peer_hostnames = all }) ≡ ok out
    → get_peer_id out mine ≡ ok i
    → Known out all
    → out.all_peer_hostnames ≡ all
    → (info : PeerInfo) × (initialize mine all no_peers ≡ ok info)
      × Known info all
      × (info.all_peer_hostnames ≡ all)
      × (get_peer_id info mine ≡ ok info.my_peer_id)
unfolding initialize get_peer_id get_hostname no_peers
own-Known mine all out i done found k same = (
  record out { my_peer_id = i },
  rw (done, found),
  record { listed = k.listed; back = k.back },
  same,
  found,
)

-- Once initialised with a list of hosts that has the own host, hostnames and ids determine one another.
pub initialize-Known :
    (mine : String) (all : List String)
    → contains String_discrete mine all ≡ true
    → (info : PeerInfo) × (initialize mine all no_peers ≡ ok info)
      × Known info all
      × (info.all_peer_hostnames ≡ all)
      × (get_peer_id info mine ≡ ok info.my_peer_id)
initialize-Known mine all c =
    let start : PeerInfo = record no_peers { all_peer_hostnames = all } in
    let nothing_yet : Known start [] = no_peers-Known all in
    let (out, done, known, same) = register-Known start all [] nothing_yet (within_itself all) in
    let here : Known out all = subst (Known out) (append_nil all) known in
    let (i, found) = here.listed mine c in own-Known mine all out i done found here same

-- Two hosts have two ids.
pub get_peer_id_injective :
    (info : PeerInfo) (all : List String) (a b : String) (i : ℕ)
    → Known info all
    → get_peer_id info a ≡ ok i
    → get_peer_id info b ≡ ok i
    → a ≡ b
get_peer_id_injective info all a b i k p q =
    get_process_identifier_injective info.all_peer_hostnames a b i (k.back a i p).0 (k.back b i q).0
