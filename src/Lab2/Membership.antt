-- ===== src/Lab2/Membership.antt =====
-- lab2/src/membership.h and membership.cpp: the group membership service.
mod State
mod Answers
mod Requests
mod Protocol
pub mod Sending
pub mod Quiet
pub mod Requesting
pub mod Views
pub mod Modify
pub mod Agreement
pub mod Election
pub mod Rounds
pub mod Dials
pub mod Discovery
unfoldable pub use State.{
  get_dummy_pending_request_msg, new_membership_service, get_group_members, create_request_msg,
  create_ok_msg, create_new_leader_msg, on_network, service, update, client_of,
}
pub use State.{MembershipService, World, Uninitialised}
unfoldable pub use Answers.{ok_answer, pending_answer, new_leader_answer}
unfoldable pub use Requests.{
  send_to_each, send_requests, send_request_msg, send_ok_msg, fill_members, new_view_msg,
  send_new_view_msg, send_pending_request_msg, greet, send_new_leader_msg, process_request_msg,
  process_new_view_msg, wait_for_ok_msg, wait_for_new_leader_msg, collect_pending,
  wait_for_pending_request_msg,
}
unfoldable pub use Protocol.{
  modify_group_membership, try_leaders, find_leader, handle_leader_crash, leader_step,
  handle_leader_message, follower_step, handle_peer_failure, start, step,
}
pub use Protocol.{Phase, leading, following, waiting}
