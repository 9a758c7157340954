-- ===== src/Lab2/Tests/Groups.antt =====
-- A host joins the group: what the leader, the second host and the third host do.
use cs7610_f.Prelude.{ℕ, ◌≡◌, refl, List, [], ◌∷◌, ◌++◌, false, ok, fatal, check, ◌==◌, arith}
use cs7610_f.Lab2.Message.{NewViewMsg, add}
use cs7610_f.Lab2.SerDe.{serialize_ok_msg, serialize_new_view_msg}
use cs7610_f.Lab2.Membership.{
  World, get_group_members, get_dummy_pending_request_msg, create_ok_msg, ok_answer, new_view_msg,
  process_new_view_msg, wait_for_ok_msg, modify_group_membership,
}
use cs7610_f.Lab2.Membership.Sending.{packets, with_sent}
use cs7610_f.Lab2.Membership.Requesting.{Answers}
use cs7610_f.Lab2.Membership.Modify.{
  asking, modified, requests, to_ask, modify_group_membership_lem, modify_group_membership-Answers,
}
use cs7610_f.Lab2.Membership.Agreement.{
  IsStack, IsService, view_packet, process_new_view_msg-new_view_msg,
}
use cs7610_f.Lab2.Membership.Rounds.{asked, ok_answer-create_ok_msg}
use cs7610_f.Lab2.Tests.Scene.{
  program, peer, client, zeros, stack, leader, follower, request, after_add, test_add,
}

abbrev view : NewViewMsg
view = record {
  msg_type = 3;
  new_view_id = 3;
  number_of_members = 3;
  members = 1 ∷ 2 ∷ 3 ∷ zeros 7;
}

abbrev view_bytes : List ℕ
view_bytes =
    0
    ∷ 0
    ∷ 0
    ∷ 3
    ∷ 0
    ∷ 0
    ∷ 0
    ∷ 3
    ∷ 0
    ∷ 0
    ∷ 0
    ∷ 3
    ∷ 0
    ∷ 0
    ∷ 0
    ∷ 1
    ∷ 0
    ∷ 0
    ∷ 0
    ∷ 2
    ∷ 0
    ∷ 0
    ∷ 0
    ∷ 3
    ∷ zeros 28

abbrev agreed : World
agreed =
    (wait_for_ok_msg 3 (2 ∷ []) (with_sent (to_ask leader 3 add) (requests leader.member 3 add))).1

modify_group_membership_lem_example :
    (after : World) × (modify_group_membership (peer 1) false stack 3 add leader ≡ (ok tt, after))
    × (after.member ≡ modified leader.member 3 add)
    × (after.network.sent
        ≡ (leader.network.sent ++ requests leader.member 3 add)
          ++ packets
              (modified leader.member 3 add).tcp_client_map
              (modified leader.member 3 add).alive_peers
              view_bytes)
unfolding program
modify_group_membership_lem_example =
    modify_group_membership_lem (peer 1) stack 3 add leader agreed view view_bytes refl refl refl
      refl refl

modify_group_membership-Answers_example :
    (asked agreed : World) × (asked.member ≡ asking leader.member 3 add)
    × (asked.network.inbox ≡ leader.network.inbox)
    × Answers 3 (asking leader.member 3 add).alive_peers asked agreed
    × (after_add.network.inbox ≡ agreed.network.inbox)
modify_group_membership-Answers_example =
    modify_group_membership-Answers (peer 1) false stack 3 add leader after_add test_add

after_add-IsService : IsService (peer 1) after_add.member
unfolding program
after_add-IsService = record {
  alive = ((omega arith, tt), (tt, tt));
  words = (omega arith, (omega arith, tt));
  me = omega arith;
  view = omega arith;
  size = omega arith;
}

stack-IsStack : IsStack stack
stack-IsStack = record { members = refl; words = ground arith; buffer = refl }

process_new_view_msg-new_view_msg_example :
    (view : NewViewMsg) × (new_view_msg (peer 1) after_add.member stack ≡ ok view)
    × (bytes : List ℕ) × (serialize_new_view_msg view stack.buffer ≡ ok bytes)
    × (after : World) × (process_new_view_msg (peer 2) stack (view_packet bytes [] "ant") follower
        ≡ (ok tt, after))
    × (after.member.view_id ≡ 3)
    × (get_group_members (peer 2) after.member ≡ get_group_members (peer 1) after_add.member)
    × (after.member.pending_request ≡ get_dummy_pending_request_msg)
unfolding program
process_new_view_msg-new_view_msg_example =
    process_new_view_msg-new_view_msg (peer 1) (peer 2) after_add.member stack stack [] "ant"
      follower after_add-IsService stack-IsStack stack-IsStack refl

ok_answer-create_ok_msg_example :
    ok_answer 3 (record {
      buffer =
          serialize_ok_msg (create_ok_msg (asked follower (client "ant" 5) request []).member)
          ++ [];
      n = 12;
      sender = "bee";
    })
    ≡ check (3 == 3) fatal
ok_answer-create_ok_msg_example =
    ok_answer-create_ok_msg (asked follower (client "ant" 5) request []).member 3 [] "bee"
      (omega arith) (omega arith)
