-- ===== src/Lab2/Membership/Answers.antt =====
-- lab2/src/membership.cpp: the checks of a message that was waited for.
use cs7610_f.Prelude.{
  ℕ, ◌≡◌, refl, arith, Bool, true, false, Result, ok, throws, check, ◌>>=◌, ◌>>◌, fatal, ◌==◌,
}
use cs7610_f.Lab2.Message.{
  MsgTypeEnum, request, ok_msg, new_view, new_leader, heartbeat, other_msg, RequestMsg, OkMsg,
  NewLeaderMsg, Message,
}
use cs7610_f.Lab2.SerDe.{
  get_msg_type, deserialize_request_msg, deserialize_ok_msg, deserialize_new_leader_msg,
}

abbrev pub is_ok : MsgTypeEnum → Bool
is_ok ok_msg = true
is_ok _ = false

abbrev pub is_request : MsgTypeEnum → Bool
is_request request = true
is_request _ = false

abbrev pub is_new_leader : MsgTypeEnum → Bool
is_new_leader new_leader = true
is_new_leader _ = false

-- Of waitForOkMsg.
unfoldable pub ok_answer : ℕ → Message → Result (Unit {0})
unfolding get_msg_type deserialize_ok_msg
ok_answer expected_request_id raw = do
  msg_type_enum ← get_msg_type raw
  check (is_ok msg_type_enum) fatal
  msg ← deserialize_ok_msg raw
  check (msg.request_id == expected_request_id) fatal

-- Of waitForPendingRequestMsg.
unfoldable pub pending_answer : Message → Result RequestMsg
unfolding get_msg_type deserialize_request_msg
pending_answer message = do
  msg_type ← get_msg_type message
  check (is_request msg_type) fatal
  deserialize_request_msg message

-- Of waitForNewLeaderMsg.
unfoldable pub new_leader_answer : Message → Result NewLeaderMsg
unfolding get_msg_type deserialize_new_leader_msg
new_leader_answer message = do
  msg_type ← get_msg_type message
  check (is_new_leader msg_type) fatal
  deserialize_new_leader_msg message

passes_checks :
    (expected_request_id : ℕ) (t : Result MsgTypeEnum) (m : Result OkMsg)
    → (t >>= λ t.
        check (is_ok t) fatal >> (m >>= λ msg. check (msg.request_id == expected_request_id) fatal))
      ≡ ok tt
    → (t ≡ ok ok_msg) × (msg : OkMsg) × (m ≡ ok msg) × (msg.request_id ≡ expected_request_id)
passes_checks expected (throws error) m e = ground arith
passes_checks expected (ok ok_msg) (throws error) e = ground arith
passes_checks expected (ok ok_msg) (ok msg) e = (refl, msg, refl, ground arith)
passes_checks expected (ok request) m e = ground arith
passes_checks expected (ok new_view) m e = ground arith
passes_checks expected (ok new_leader) m e = ground arith
passes_checks expected (ok heartbeat) m e = ground arith
passes_checks expected (ok (other_msg n)) m e = ground arith

-- What the checks of waitForOkMsg let pass.
pub ok_answer_inv :
    (expected_request_id : ℕ) (raw : Message)
    → ok_answer expected_request_id raw ≡ ok tt
    → (get_msg_type raw ≡ ok ok_msg)
      × (msg : OkMsg) × (deserialize_ok_msg raw ≡ ok msg)
      × (msg.request_id ≡ expected_request_id)
unfolding ok_answer
ok_answer_inv expected raw e = passes_checks expected (get_msg_type raw) (deserialize_ok_msg raw) e
