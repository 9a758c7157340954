-- ===== src/Lab2/Membership/Agreement.antt =====
-- lab2/src/membership.cpp: a follower that receives the leader's view has the leader's group.
use cs7610_f.Prelude.{
  ℕ, suc, ◌≤◌, ◌≡◌, refl, subst, sym, ap, ◌∙◌, List, [], ◌∷◌, ◌++◌, String, true, false, ok, arith,
  ℕ_discrete, contains, length, take, All, IsWord, if◌then◌else◌, ◌==◌, set_insert, set_insert_all,
  set_erase, Ascending, set_insert-Ascending, set_insert_all-Ascending, contains-set_insert,
  contains-set_insert_all, contains-set_erase, Ascending-unique, All-set_insert, All-set_insert_all,
}
use cs7610_f.Lab2.Message.{NewViewMsg, Message}
use cs7610_f.Lab2.SerDe.{serialize_new_view_msg, deserialize_new_view_msg, loop_count}
use cs7610_f.Lab2.SerDe.NewView.{
  FitsNewViewMsg, counted, deserialize_new_view_msg-serialize_new_view_msg,
}
use cs7610_f.Lab2.Peers.{PeerInfo}
use cs7610_f.Program.{lift, bind_ok}
use cs7610_f.Lab2.Membership.State.{
  MembershipService, World, Uninitialised, update, get_group_members, get_dummy_pending_request_msg,
}
use cs7610_f.Lab2.Membership.Requests.{fill_members, new_view_msg, process_new_view_msg}

fill_members_lem :
    (peers array : List ℕ)
    → All IsWord peers
    → All IsWord array
    → length peers ≤ length array
    → (filled : List ℕ) × (fill_members peers array ≡ ok filled)
      × (take (length peers) filled ≡ peers)
      × (length filled ≡ length array)
      × All IsWord filled
unfolding fill_members
fill_members_lem [] array p a l = (array, refl, refl, refl, a)
fill_members_lem (x ∷ peers) [] p a l = absurd (omega arith)
fill_members_lem (x ∷ peers) (y ∷ array) p a l =
    let (filled, done, front, size, words) = fill_members_lem peers array p.1 a.1 (omega arith) in
    (x ∷ filled, rw done, ap (◌∷◌ x) front, ap suc size, (p.0, words))

-- Local arrays have the size that they are declared with, and hold some words.
pub record IsStack (u : Uninitialised) : Type 0 where
  pub members : length u.members ≡ 10
  pub words : All IsWord u.members
  pub buffer : length u.buffer ≡ 52

-- A service whose set ascends, whose numbers are uint32_t, and whose group fits in a view message.
pub record IsService (info : PeerInfo) (s : MembershipService) : Type 0 where
  pub alive : Ascending s.alive_peers
  pub words : All IsWord s.alive_peers
  pub me : IsWord info.my_peer_id
  pub view : IsWord s.view_id
  pub size : length (get_group_members info s) ≤ 10

group-Ascending : (info : PeerInfo) (s : MembershipService) → Ascending (get_group_members info s)
unfolding get_group_members
group-Ascending info s =
    set_insert-Ascending info.my_peer_id (set_insert_all s.alive_peers [])
      (set_insert_all-Ascending s.alive_peers [] tt)

group-All :
    (info : PeerInfo) (s : MembershipService)
    → IsService info s
    → All IsWord (get_group_members info s)
unfolding get_group_members
group-All info s i =
    All-set_insert IsWord info.my_peer_id (set_insert_all s.alive_peers []) i.me
      (All-set_insert_all IsWord s.alive_peers [] i.words tt)

contains-nil : (k : ℕ) → contains ℕ_discrete k [] ≡ false
unfolding contains
contains-nil k = refl

contains-rebuilt :
    (me k : ℕ) (group : List ℕ)
    → contains ℕ_discrete k
        (set_insert me (set_insert_all (set_erase me (set_insert_all group [])) []))
      ≡ (if me == k then true else contains ℕ_discrete k group)
contains-rebuilt me k group =
    let inner : List ℕ = set_erase me (set_insert_all group []) in
    ground (
      arith,
      contains-set_insert me k (set_insert_all inner []),
      contains-set_insert_all k inner [],
      contains-set_erase me k (set_insert_all group []) (set_insert_all-Ascending group [] tt),
      contains-set_insert_all k group [],
      contains-nil k,
    )

-- A member of the group that takes the group without itself has the group.
rebuilt :
    (me : ℕ) (group : List ℕ)
    → Ascending group
    → contains ℕ_discrete me group ≡ true
    → set_insert me (set_insert_all (set_erase me (set_insert_all group [])) []) ≡ group
rebuilt me group a c =
    let inner : List ℕ = set_erase me (set_insert_all group []) in
    Ascending-unique (set_insert me (set_insert_all inner [])) group
      (set_insert-Ascending me (set_insert_all inner []) (set_insert_all-Ascending inner [] tt)) a
      (λ k. ground (arith, contains-rebuilt me k group))

abbrev pub view_packet : List ℕ → List ℕ → String → Message
view_packet bytes rest sender = record { buffer = bytes ++ rest; n = 52; sender = sender }

loop_count_small : (n : ℕ) → n ≤ 10 → loop_count n ≡ n
loop_count_small n l = ground arith

-- The view that the leader fills in counts its group.
new_view_msg_lem :
    (info : PeerInfo) (s : MembershipService) (u : Uninitialised)
    → IsService info s
    → IsStack u
    → (view : NewViewMsg) × (new_view_msg info s u ≡ ok view)
      × FitsNewViewMsg view
      × (counted view ≡ get_group_members info s)
      × (view.new_view_id ≡ s.view_id)
unfolding new_view_msg
new_view_msg_lem info s u i k =
    let group : List ℕ = get_group_members info s in
    let (filled, done, front, size, words) =
      fill_members_lem group u.members (group-All info s i) k.words
        (subst (λ n. length group ≤ n) (sym k.members) i.size) in
    (
      record {
        msg_type = 3;
        new_view_id = s.view_id;
        number_of_members = length group;
        members = filled;
      },
      rw (done, new_view_msg),
      record {
        msg_type = omega arith;
        new_view_id = i.view;
        number_of_members = i.size;
        members = words;
        size = size ∙ k.members;
      },
      ap (λ n. take n filled) (loop_count_small (length group) i.size) ∙ front,
      refl,
    )

-- The follower once it has the view.
abbrev followed : PeerInfo → NewViewMsg → World → World
followed info view w = record w {
  member = record w.member {
    view_id = view.new_view_id;
    alive_peers = set_erase info.my_peer_id (set_insert_all (counted view) []);
    pending_request = get_dummy_pending_request_msg;
  };
}

same_group :
    (info : PeerInfo) (view : NewViewMsg) (w : World) (group : List ℕ)
    → counted view ≡ group
    → Ascending group
    → contains ℕ_discrete info.my_peer_id group ≡ true
    → get_group_members info (followed info view w).member ≡ group
unfolding get_group_members
same_group info view w group e a c =
    ap
      (λ g.
        set_insert info.my_peer_id
          (set_insert_all (set_erase info.my_peer_id (set_insert_all g [])) []))
      e
    ∙ rebuilt info.my_peer_id group a c

-- What a follower does with a view message that is deserialized.
process_new_view_msg_lem :
    (info : PeerInfo) (u : Uninitialised) (raw : Message) (view : NewViewMsg) (w : World)
    → deserialize_new_view_msg raw u.members ≡ ok view
    → process_new_view_msg info u raw w ≡ (ok tt, followed info view w)
unfolding process_new_view_msg update
process_new_view_msg_lem info u raw view w e =
    bind_ok (lift (deserialize_new_view_msg raw u.members))
      (λ msg. update (λ s. record s {
        view_id = msg.new_view_id;
        alive_peers =
            set_erase info.my_peer_id
              (set_insert_all (take (loop_count msg.number_of_members) msg.members) []);
        pending_request = get_dummy_pending_request_msg;
      }))
      w w view (ap (λ r. (r, w)) e)

-- A member of the leader's group that receives the leader's view message has the leader's view id and
-- group, and no pending request.
pub process_new_view_msg-new_view_msg :
    (leader follower : PeerInfo) (s : MembershipService) (u u' : Uninitialised) (rest : List ℕ)
    (sender : String) (w : World)
    → IsService leader s
    → IsStack u
    → IsStack u'
    → contains ℕ_discrete follower.my_peer_id (get_group_members leader s) ≡ true
    → (view : NewViewMsg) × (new_view_msg leader s u ≡ ok view)
      × (bytes : List ℕ) × (serialize_new_view_msg view u.buffer ≡ ok bytes)
      × (after : World) × (process_new_view_msg follower u' (view_packet bytes rest sender) w
          ≡ (ok tt, after))
      × (after.member.view_id ≡ s.view_id)
      × (get_group_members follower after.member ≡ get_group_members leader s)
      × (after.member.pending_request ≡ get_dummy_pending_request_msg)
process_new_view_msg-new_view_msg leader follower s u u' rest sender w i k k' c =
    let (view, filled, fits, counts, id) = new_view_msg_lem leader s u i k in
    let (bytes, written, got, read, same_id, same) =
      deserialize_new_view_msg-serialize_new_view_msg view u.buffer rest u'.members sender fits
        k.buffer k'.members in
    (
      view,
      filled,
      bytes,
      written,
      followed follower got w,
      process_new_view_msg_lem follower u' (view_packet bytes rest sender) got w read,
      same_id ∙ id,
      same_group follower got w (get_group_members leader s) (same ∙ counts)
          (group-Ascending leader s) c,
      refl,
    )
