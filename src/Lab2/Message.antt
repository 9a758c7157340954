-- ===== src/Lab2/Message.antt =====
-- lab2/src/message.h and the Message class of lab2/src/network_utils.h.
use cs7610_f.Prelude.{ℕ, List, String, ◌==◌, if◌then◌else◌}

abbrev pub max_peers : ℕ
max_peers = 10

pub data MsgTypeEnum : Type 0 where
  request ok_msg new_view new_leader heartbeat : MsgTypeEnum
  -- A number that names no enumerator.
  other_msg : ℕ → MsgTypeEnum

-- static_cast<MsgTypeEnum>(n)
unfoldable pub cast_msg_type : ℕ → MsgTypeEnum
cast_msg_type n =
    if n == 1
    then request
    else if n == 2
    then ok_msg
    else if n == 3
    then new_view
    else if n == 4
    then new_leader
    else if n == 5
    then heartbeat
    else other_msg n

unfoldable pub msg_type_code : MsgTypeEnum → ℕ
msg_type_code request = 1
msg_type_code ok_msg = 2
msg_type_code new_view = 3
msg_type_code new_leader = 4
msg_type_code heartbeat = 5
msg_type_code (other_msg n) = n

pub data OperationTypeEnum : Type 0 where
  nothing add del pending : OperationTypeEnum
  other_operation : ℕ → OperationTypeEnum

unfoldable pub cast_operation_type : ℕ → OperationTypeEnum
cast_operation_type n =
    if n == 0
    then nothing
    else if n == 1
    then add
    else if n == 2
    then del
    else if n == 3
    then pending
    else other_operation n

unfoldable pub operation_code : OperationTypeEnum → ℕ
operation_code nothing = 0
operation_code add = 1
operation_code del = 2
operation_code pending = 3
operation_code (other_operation n) = n

pub record RequestMsg : Type 0 where
  pub msg_type : ℕ
  pub request_id : ℕ
  pub current_view_id : ℕ
  pub operation_type : ℕ
  pub peer_id : ℕ

pub record OkMsg : Type 0 where
  pub msg_type : ℕ
  pub request_id : ℕ
  pub current_view_id : ℕ

-- `number_of_members` is an int, held as its 32 bits; `members` has `max_peers` words.
pub record NewViewMsg : Type 0 where
  pub msg_type : ℕ
  pub new_view_id : ℕ
  pub number_of_members : ℕ
  pub members : List ℕ

pub record NewLeaderMsg : Type 0 where
  pub msg_type : ℕ
  pub request_id : ℕ
  pub current_view_id : ℕ
  pub operation_type : ℕ

pub record HeartBeatMsg : Type 0 where
  pub msg_type : ℕ
  pub peer_id : ℕ

-- A packet: the bytes of the buffer, how many were received, and the host they came from.
pub record Message : Type 0 where
  pub buffer : List ℕ
  pub n : ℕ
  pub sender : String
