-- ===== src/Lab2/Tests/Leaders.antt =====
-- The hosts look for their leader, at the start and after a crash.
use cs7610_f.Prelude.{
  ℕ, ◌≡◌, ◌≢◌, refl, [], ◌∷◌, String, String_discrete, false, some, none, ok, arith, ite,
}
use cs7610_f.Lab2.Membership.{World, leading, try_leaders, handle_leader_crash}
use cs7610_f.Lab2.Membership.Dials.{found}
use cs7610_f.Lab2.Membership.Discovery.{try_leaders_lem}
use cs7610_f.Lab2.Membership.Election.{handle_leader_crash_unique, handle_leader_crash_same_view}
use cs7610_f.Lab2.Tests.Scene.{program, hosts, peer, zeros, stack, follower}

abbrev id : String → ℕ
unfolding String_discrete
id host = ite (String_discrete host "ant") 1 (ite (String_discrete host "bee") 2 3)

-- The first host does not accept, the second is the own, and the third accepts.
abbrev newcomer : World
newcomer = record follower {
  network = record follower.network { dials = ("ant", none ∷ []) ∷ ("cat", some 9 ∷ []) ∷ [] };
}

try_leaders_lem_example :
    (after : World) × (try_leaders (peer 2) hosts newcomer ≡ (ok tt, after))
    × (after.member ≡ found (peer 2) id newcomer.member (some ("cat", 9)))
unfolding program id
try_leaders_lem_example =
    try_leaders_lem (peer 2) id hosts newcomer (refl, (refl, (refl, tt))) (refl, (refl, (refl, tt)))

handle_leader_crash_same_view_example :
    (after : World) × (handle_leader_crash (peer 2) false stack [] follower ≡ (ok leading, after))
    × (after.member.alive_peers ≡ [])
    × (after.member.view_id ≡ follower.member.view_id)
unfolding program
handle_leader_crash_same_view_example =
    handle_leader_crash_same_view (peer 2) false 0 (zeros 9) (zeros 52) [] follower refl refl

-- The second host takes over; the third sees the same two.
abbrev in_charge : World
in_charge = (handle_leader_crash (peer 2) false stack (3 ∷ []) follower).1

handle_leader_crash_unique_example :
    handle_leader_crash (peer 3) false stack (2 ∷ []) newcomer ≢ (ok leading, newcomer)
unfolding program
handle_leader_crash_unique_example =
    handle_leader_crash_unique (peer 2) (peer 3) false stack stack (3 ∷ []) (2 ∷ []) follower
      newcomer in_charge newcomer refl (λ e. ground arith) refl
