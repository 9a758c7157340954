-- ===== src/Lab2/Printing.antt =====
-- lab2/src/message.cpp: the operators <<, as the texts that they write. One that throws has no text.
use cs7610_f.Prelude.{
  ℕ, zero, suc, ◌+◌, ◌-◌, ◌^◌, List, [], ◌∷◌, String, Result, ok, throws, transport, undefined,
  ◌>>=◌, concat, to_string, get_elem?, or_throw, ltb, if◌then◌else◌, ◌==◌,
}
use cs7610_f.Lab2.Message.{
  MsgTypeEnum, request, ok_msg, new_view, new_leader, heartbeat, other_msg, cast_msg_type,
  OperationTypeEnum, nothing, add, del, pending, other_operation, cast_operation_type, RequestMsg,
  OkMsg, NewViewMsg, NewLeaderMsg, HeartBeatMsg,
}

unfoldable pub print_msg_type : MsgTypeEnum → Result String
print_msg_type request = ok "RequestMsg"
print_msg_type ok_msg = ok "OkMsg"
print_msg_type new_view = ok "NewViewMsg"
print_msg_type heartbeat = ok "HeartBeatMsg"
print_msg_type new_leader = ok "NewLeaderMsg"
print_msg_type (other_msg n) = throws transport

unfoldable pub print_operation_type : OperationTypeEnum → Result String
print_operation_type nothing = ok "Nothing"
print_operation_type add = ok "AddOperation"
print_operation_type del = ok "DelOperation"
print_operation_type pending = ok "PendingOperation"
print_operation_type (other_operation n) = throws transport

unfoldable pub print_request_msg : RequestMsg → Result String
unfolding print_msg_type print_operation_type cast_msg_type cast_operation_type concat to_string
print_request_msg m = do
  type_text ← print_msg_type (cast_msg_type m.msg_type)
  operation_text ← print_operation_type (cast_operation_type m.operation_type)
  ok (
      concat (
        "msgType: "
        ∷ type_text
        ∷ ", requestId: "
        ∷ to_string m.request_id
        ∷ ", currentViewId: "
        ∷ to_string m.current_view_id
        ∷ ", operationType: "
        ∷ operation_text
        ∷ ", peerId: "
        ∷ to_string m.peer_id
        ∷ []))

unfoldable pub print_ok_msg : OkMsg → Result String
unfolding print_msg_type cast_msg_type concat to_string
print_ok_msg m = do
  type_text ← print_msg_type (cast_msg_type m.msg_type)
  ok (
      concat (
        "msgType: "
        ∷ type_text
        ∷ ", requestId: "
        ∷ to_string m.request_id
        ∷ ", currentViewId: "
        ∷ to_string m.current_view_id
        ∷ []))

-- The loop over the members, so many from member i on; the array has no more than the list.
unfoldable pub print_members : List ℕ → ℕ → ℕ → Result String
unfolding concat to_string
print_members members zero i = ok String.[]
print_members members (suc left) i = do
  member ← or_throw (get_elem? members i) undefined
  later ← print_members members left (i + 1)
  ok (concat ((if i == 0 then "" else ", ") ∷ to_string member ∷ later ∷ []))

-- An int that is held as its 32 bits.
unfoldable pub int_text : ℕ → String
unfolding concat to_string
int_text n = if ltb n (2 ^ 31) then to_string n else concat ("-" ∷ to_string (2 ^ 32 - n) ∷ [])

-- A number of members that is negative as an int leaves the loop at once.
unfoldable pub print_new_view_msg : NewViewMsg → Result String
unfolding print_msg_type cast_msg_type concat to_string print_members int_text
print_new_view_msg m = do
  type_text ← print_msg_type (cast_msg_type m.msg_type)
  members_text ←
      print_members m.members (if ltb m.number_of_members (2 ^ 31) then m.number_of_members else 0)
        0
  ok (
      concat (
        "msgType: "
        ∷ type_text
        ∷ ", newViewId: "
        ∷ to_string m.new_view_id
        ∷ ", numberOfMembers: "
        ∷ int_text m.number_of_members
        ∷ ", members: {"
        ∷ members_text
        ∷ "}"
        ∷ []))

unfoldable pub print_heart_beat_msg : HeartBeatMsg → Result String
unfolding print_msg_type cast_msg_type concat to_string
print_heart_beat_msg m = do
  type_text ← print_msg_type (cast_msg_type m.msg_type)
  ok (concat ("msgType: " ∷ type_text ∷ ", peerId: " ∷ to_string m.peer_id ∷ []))

unfoldable pub print_new_leader_msg : NewLeaderMsg → Result String
unfolding print_msg_type print_operation_type cast_msg_type cast_operation_type concat to_string
print_new_leader_msg m = do
  type_text ← print_msg_type (cast_msg_type m.msg_type)
  operation_text ← print_operation_type (cast_operation_type m.operation_type)
  ok (
      concat (
        "msgType: "
        ∷ type_text
        ∷ ", requestId: "
        ∷ to_string m.request_id
        ∷ ", currentViewId: "
        ∷ to_string m.current_view_id
        ∷ ", operationType: "
        ∷ operation_text
        ∷ []))
