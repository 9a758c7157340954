-- ===== src/Lab1/Sender/Defs.antt =====
-- ContinuousMsgSender<T> of lab1/src/part1/multicast.h and multicast.cpp: the definitions. The
-- UDPSender of a host is the host's name, and what it sends are pairs of a host and the bytes. In this
-- lab UDPSender::send logs an error of the socket and returns.
use cs7610_f.Prelude.{
  ℕ, ◌+◌, ◌*◌, ◌^◌, Bool, true, false, List, [], ◌∷◌, ◌++◌, Option, none, some, String,
  String_discrete, Result, ok, out_of_range, check, ◌>>=◌, ◌>>◌, ltb, ◌==◌, if◌then◌else◌, contains,
  erase, from_list, not, ◌&&◌,
}

abbrev pub Packet : Type 0
Packet = String × List ℕ

pub record MsgHolder (T : Type 0) : Type 0 where
  pub org_msg : T
  pub serialized_msg : List ℕ
  pub recipients : List String

pub record ContinuousMsgSender (T : Type 0) : Type 0 where
  pub retry_count : ℕ
  pub max_sending_interval_millis : ℕ
  pub recipients : List String
  pub serializer : T → List ℕ
  -- The keys of udpSenderMap.
  pub udp_sender_map : List String
  pub queue_contains_data : Bool
  pub msg_list : List (MsgHolder T)

-- The inner loop of a round: `at` throws if there is no sender for the recipient.
unfoldable pub send_to : List String → List ℕ → List String → Result (List Packet)
send_to senders bytes [] = ok []
send_to senders bytes (r ∷ rs) = do
  check (contains String_discrete r senders) out_of_range
  rest ← send_to senders bytes rs
  ok ((r, bytes) ∷ rest)

-- The interval to sleep, and the counter afterwards.
unfoldable pub next_interval : ℕ → ℕ → ℕ × ℕ
next_interval max_interval retry_count =
    let interval = 2 ^ retry_count * 200 in
    if ltb max_interval interval then (200, 0) else (interval, retry_count + 1)

pub record Round (T : Type 0) : Type 0 where
  pub after : ContinuousMsgSender T
  pub packets : List Packet
  pub sleep : ℕ

-- Where the sending thread is: at the top of its loop, or inside cv.wait.
pub data Position : Type 0 where
  at_top in_wait : Position

abbrev pub is_at_top : Position → Bool
is_at_top at_top = true
is_at_top in_wait = false

module _ {T : Type 0} where
  -- The constructors.
  unfoldable pub new_holder : T → (T → List ℕ) → List String → MsgHolder T
  new_holder msg serializer recipients = record {
    org_msg = msg;
    serialized_msg = serializer msg;
    recipients = from_list String_discrete recipients;
  }

  unfoldable pub new_sender : ℕ → List String → (T → List ℕ) → ContinuousMsgSender T
  new_sender max_interval recipients serializer = record {
    retry_count = 0;
    max_sending_interval_millis = max_interval;
    recipients = recipients;
    serializer = serializer;
    udp_sender_map = from_list String_discrete recipients;
    queue_contains_data = false;
    msg_list = [];
  }

  unfoldable pub queue_msg : ContinuousMsgSender T → T → ContinuousMsgSender T
  unfolding new_holder
  queue_msg s message = record s {
    queue_contains_data = true;
    msg_list = s.msg_list ++ new_holder message s.serializer s.recipients ∷ [];
  }

  unfoldable pub send_all : List String → List (MsgHolder T) → Result (List Packet)
  unfolding send_to
  send_all senders [] = ok []
  send_all senders (h ∷ hs) = do
    first ← send_to senders h.serialized_msg h.recipients
    rest ← send_all senders hs
    ok (first ++ rest)

  unfoldable pub get_sending_interval : ContinuousMsgSender T → ContinuousMsgSender T × ℕ
  unfolding next_interval
  get_sending_interval s =
      let (interval, retry) = next_interval s.max_sending_interval_millis s.retry_count in
      (record s { retry_count = retry }, interval)

  abbrev pub is_empty : List (MsgHolder T) → Bool
  is_empty [] = true
  is_empty (h ∷ hs) = false

  -- The wait at the top of the sending loop: `none` while the thread is blocked, which is then inside
  -- cv.wait. Only a thread at the top looks at the list; in the wait the flag alone decides.
  unfoldable pub await_data : Position → ContinuousMsgSender T → Option (ContinuousMsgSender T)
  await_data position s =
      if is_at_top position && not (is_empty s.msg_list)
      then some s
      else if s.queue_contains_data
      then some (record s { queue_contains_data = false })
      else none

  -- One round of startSendingMessages.
  unfoldable pub send_round : ContinuousMsgSender T → Result (Round T)
  unfolding send_all get_sending_interval
  send_round s = do
    packets ← send_all s.udp_sender_map s.msg_list
    let (s', interval) = get_sending_interval s
    ok (record { after = s'; packets = packets; sleep = interval })

  unfoldable pub sending_step : Position → ContinuousMsgSender T → Option (Result (Round T))
  unfolding await_data send_round
  sending_step position s = elim (await_data position s) [
    | none ↦ none
    | some s' ↦ some (send_round s')
  ]

  -- The loop of removeRecipient over the list: the first message of that id loses the recipient. The
  -- flag is what erase returned.
  unfoldable pub erase_recipient :
      (T → ℕ) → ℕ → String → List (MsgHolder T) → List (MsgHolder T) × Bool
  erase_recipient id_of message_id recipient [] = ([], false)
  erase_recipient id_of message_id recipient (h ∷ hs) =
      let rest = erase_recipient id_of message_id recipient hs in
      if message_id == id_of h.org_msg
      then (
        record h { recipients = erase String_discrete recipient h.recipients } ∷ hs,
        contains String_discrete recipient h.recipients,
      )
      else (h ∷ rest.0, rest.1)

  abbrev pub no_recipients : MsgHolder T → Bool
  no_recipients h = elim h.recipients [ [] ↦ true | r ∷ rs ↦ false ]

  -- find_if and erase: the first message that has no recipient left.
  unfoldable pub drop_finished : List (MsgHolder T) → List (MsgHolder T)
  drop_finished [] = []
  drop_finished (h ∷ hs) = if no_recipients h then hs else h ∷ drop_finished hs

  unfoldable pub remove_recipient :
      (T → ℕ) → ContinuousMsgSender T → ℕ → String → ContinuousMsgSender T × Bool
  unfolding erase_recipient drop_finished
  remove_recipient id_of s message_id recipient =
      let (msg_list, removed) = erase_recipient id_of message_id recipient s.msg_list in
      (record s { msg_list = drop_finished msg_list }, removed)
