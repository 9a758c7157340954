-- ===== src/Lab2/SerDe/Defs.antt =====
-- lab2/src/serde.cpp: the functions.
use cs7610_f.Prelude.{
  ℕ, zero, suc, ◌^◌, List, [], ◌∷◌, Result, ok, throws, fatal, undefined, check, ◌>>=◌, ◌>>◌, ltb,
  ◌==◌, if◌then◌else◌, drop, first_word, read_word, store_word, store_words,
}
use cs7610_f.Lab2.Message.{
  MsgTypeEnum, cast_msg_type, RequestMsg, OkMsg, NewViewMsg, NewLeaderMsg, HeartBeatMsg, Message,
}

-- Only n > 0 is checked before four bytes are read.
unfoldable pub get_msg_type : Message → Result MsgTypeEnum
unfolding read_word cast_msg_type
get_msg_type message = do
  check (ltb 0 message.n) fatal
  word ← read_word message.buffer 0
  ok (cast_msg_type word)

-- How often `for (int i = 0; i < n; ++i)` runs, for the int of these 32 bits.
abbrev pub loop_count : ℕ → ℕ
loop_count n = if ltb n (2 ^ 31) then n else 0

-- The loop that writes the members: word by word over what the buffer holds.
unfoldable pub store_members : ℕ → List ℕ → List ℕ → Result (List ℕ)
unfolding store_word
store_members zero members buffer = ok buffer
store_members (suc i) (m ∷ ms) (_ ∷ _ ∷ _ ∷ _ ∷ buffer) = do
  rest ← store_members i ms buffer
  ok (store_word m rest)
store_members (suc i) _ _ = throws undefined

-- The loop that reads them: word by word over what the array holds.
unfoldable pub read_members : ℕ → List ℕ → List ℕ → Result (List ℕ)
unfolding first_word
read_members zero buffer members = ok members
read_members (suc i) buffer [] = throws undefined
read_members (suc i) buffer (_ ∷ ms) = do
  m ← first_word buffer
  rest ← read_members i (drop 4 buffer) ms
  ok (m ∷ rest)

-- Over a buffer of 52 bytes, of which the members that are not written keep their contents.
unfoldable pub serialize_new_view_msg : NewViewMsg → List ℕ → Result (List ℕ)
unfolding store_word
serialize_new_view_msg msg buffer = do
  members ← store_members (loop_count msg.number_of_members) msg.members (drop 12 buffer)
  ok (
      store_word msg.msg_type
        (store_word msg.new_view_id (store_word msg.number_of_members members)))

-- Into a struct whose members hold `members` before.
unfoldable pub deserialize_new_view_msg : Message → List ℕ → Result NewViewMsg
unfolding read_word
deserialize_new_view_msg message members = do
  check (message.n == 52) fatal
  msg_type ← read_word message.buffer 0
  new_view_id ← read_word message.buffer 1
  number_of_members ← read_word message.buffer 2
  members ← read_members (loop_count number_of_members) (drop 12 message.buffer) members
  ok (record {
    msg_type = msg_type;
    new_view_id = new_view_id;
    number_of_members = number_of_members;
    members = members;
  })

unfoldable pub serialize_request_msg : RequestMsg → List ℕ
unfolding store_words
serialize_request_msg msg =
    store_words
      (msg.msg_type ∷ msg.request_id ∷ msg.current_view_id ∷ msg.operation_type ∷ msg.peer_id ∷ [])

unfoldable pub deserialize_request_msg : Message → Result RequestMsg
unfolding read_word
deserialize_request_msg message = do
  check (message.n == 20) fatal
  msg_type ← read_word message.buffer 0
  request_id ← read_word message.buffer 1
  current_view_id ← read_word message.buffer 2
  operation_type ← read_word message.buffer 3
  peer_id ← read_word message.buffer 4
  ok (record {
    msg_type = msg_type;
    request_id = request_id;
    current_view_id = current_view_id;
    operation_type = operation_type;
    peer_id = peer_id;
  })

unfoldable pub serialize_ok_msg : OkMsg → List ℕ
unfolding store_words
serialize_ok_msg msg = store_words (msg.msg_type ∷ msg.request_id ∷ msg.current_view_id ∷ [])

unfoldable pub deserialize_ok_msg : Message → Result OkMsg
unfolding read_word
deserialize_ok_msg message = do
  check (message.n == 12) fatal
  msg_type ← read_word message.buffer 0
  request_id ← read_word message.buffer 1
  current_view_id ← read_word message.buffer 2
  ok (record { msg_type = msg_type; request_id = request_id; current_view_id = current_view_id })

unfoldable pub serialize_heart_beat_msg : HeartBeatMsg → List ℕ
unfolding store_words
serialize_heart_beat_msg msg = store_words (msg.msg_type ∷ msg.peer_id ∷ [])

unfoldable pub deserialize_heart_beat_msg : Message → Result HeartBeatMsg
unfolding read_word
deserialize_heart_beat_msg message = do
  check (message.n == 8) fatal
  msg_type ← read_word message.buffer 0
  peer_id ← read_word message.buffer 1
  ok (record { msg_type = msg_type; peer_id = peer_id })

unfoldable pub serialize_new_leader_msg : NewLeaderMsg → List ℕ
unfolding store_words
serialize_new_leader_msg msg =
    store_words (msg.msg_type ∷ msg.request_id ∷ msg.current_view_id ∷ msg.operation_type ∷ [])

unfoldable pub deserialize_new_leader_msg : Message → Result NewLeaderMsg
unfolding read_word
deserialize_new_leader_msg message = do
  check (message.n == 16) fatal
  msg_type ← read_word message.buffer 0
  request_id ← read_word message.buffer 1
  current_view_id ← read_word message.buffer 2
  operation_type ← read_word message.buffer 3
  ok (record {
    msg_type = msg_type;
    request_id = request_id;
    current_view_id = current_view_id;
    operation_type = operation_type;
  })
