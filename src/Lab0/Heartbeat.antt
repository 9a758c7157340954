-- ===== src/Lab0/Heartbeat.antt =====
-- lab0/heartbeat.cpp: the static members of HeartbeatSender and the receiver's valid senders, with the
-- operations of both classes. The two threads run the steps of Lab0.Rounds.
use cs7610_f.Prelude.{
  ℕ, zero, suc, List, [], ◌∷◌, String, String_discrete, Option, none, some, Bool, true, false,
  undefined, blocked, ◌==◌, ◌&&◌, ◌||◌, not, if◌then◌else◌, length, erase, insert, lookup,
  insert_absent,
}
use cs7610_f.Program.{Program, ◌>>=◌, ◌>>◌, pure, fail, get, modify, lift, catch}
use cs7610_f.Sockets.{Resolution, Kernel, close_fd}
use cs7610_f.Hosts.{parse_hostname_from_sender}
use cs7610_f.Lab0.Udp.{
  UdpSender, new_udp_sender, send_message, close_sender, Arrival, receive_message,
}

-- "I am alive"
abbrev pub alive_message : List ℕ
alive_message = b'I' ∷ b' ' ∷ b'a' ∷ b'm' ∷ b' ' ∷ b'a' ∷ b'l' ∷ b'i' ∷ b'v' ∷ b'e' ∷ []

-- "Ack"
abbrev pub ack_message : List ℕ
ack_message = b'A' ∷ b'c' ∷ b'k' ∷ []

-- UDP_PORT, as lab0/CMakeLists.txt sets it.
abbrev pub udp_port : ℕ
udp_port = 7610

pub record Heartbeat : Type 0 where
  pub alive_message_receivers : List String
  pub udp_senders : List (String × UdpSender)
  pub stop_alive_message_loop : Bool
  pub valid_senders : List String
  -- The descriptor of the receiver.
  pub receiver_fd : ℕ
  pub kernel : Kernel

-- `s.rfind(start, 0) == 0`
unfoldable pub starts_with : List ℕ → List ℕ → Bool
starts_with [] s = true
starts_with (b ∷ start) [] = false
starts_with (b ∷ start) (c ∷ s) = b == c && starts_with start s

unfoldable pub on_kernel : {A : Type 0} → Program Kernel A → Program Heartbeat A
on_kernel program s = let (result, k) = program s.kernel in (result, record s { kernel = k })

unfoldable pub add_to_alive_message_receiver_list : String → Heartbeat → Heartbeat
unfolding insert
add_to_alive_message_receiver_list hostname s = record s {
  alive_message_receivers = insert String_discrete hostname s.alive_message_receivers;
}

unfoldable pub remove_from_alive_message_receiver_list : String → Heartbeat → Heartbeat
unfolding erase
remove_from_alive_message_receiver_list hostname s =
    let receivers = erase String_discrete hostname s.alive_message_receivers in
    record s {
      alive_message_receivers = receivers;
      stop_alive_message_loop = if length receivers == 0 then true else s.stop_alive_message_loop;
    }

unfoldable pub get_alive_message_receiver_list_size : Heartbeat → ℕ
get_alive_message_receiver_list_size s = length s.alive_message_receivers

-- The test of the loop of startListeningForMessages.
unfoldable pub is_listening : Heartbeat → Bool
unfolding get_alive_message_receiver_list_size
is_listening s =
    not (length s.valid_senders == 0) || not (get_alive_message_receiver_list_size s == 0)

module _ (answers : ℕ → String → Resolution) where
  unfoldable pub create_udp_sender : String → Program Heartbeat (Unit {0})
  unfolding new_udp_sender on_kernel insert_absent
  create_udp_sender hostname = do
    sender ← on_kernel (new_udp_sender answers hostname udp_port)
    modify (λ s. record s {
      udp_senders = insert_absent String_discrete hostname sender s.udp_senders;
    })

  -- getUDPSender; the null pointer is none.
  unfoldable pub get_udp_sender : String → Program Heartbeat (Option UdpSender)
  unfolding create_udp_sender lookup
  get_udp_sender hostname = do
    s ← get
    elim (lookup String_discrete hostname s.udp_senders) [
      | some sender ↦ pure tt
      | none ↦ catch (create_udp_sender hostname) (pure tt)
    ]
    t ← get
    pure (lookup String_discrete hostname t.udp_senders)

  -- The loop of startSendingAliveMessages over the receivers.
  unfoldable pub send_alive_messages : List String → Program Heartbeat (Unit {0})
  unfolding get_udp_sender on_kernel send_message
  send_alive_messages [] = pure tt
  send_alive_messages (hostname ∷ hostnames) = do
    found ← get_udp_sender hostname
    elim found [ some sender ↦ on_kernel (send_message sender alive_message) | none ↦ pure tt ]
    send_alive_messages hostnames

  -- The body of the while loop of startSendingAliveMessages, which holds aliveMessageMutex.
  unfoldable pub alive_round : Program Heartbeat (Unit {0})
  unfolding send_alive_messages
  alive_round s = send_alive_messages s.alive_message_receivers s

  -- sendingAckMessages calls through the pointer without a test.
  unfoldable pub sending_ack_messages : String → Program Heartbeat (Unit {0})
  unfolding get_udp_sender on_kernel send_message
  sending_ack_messages hostname = do
    found ← get_udp_sender hostname
    elim found [ some sender ↦ on_kernel (send_message sender ack_message) | none ↦ fail undefined ]

  -- The body of the while loop of startListeningForMessages, after `receiveMessage`.
  unfoldable pub handle_message : List ℕ → String → Program Heartbeat (Unit {0})
  unfolding starts_with sending_ack_messages parse_hostname_from_sender erase
      remove_from_alive_message_receiver_list
  handle_message message received_from = do
    let sender = parse_hostname_from_sender received_from
    elim (starts_with alive_message message) [
      | true ↦
          sending_ack_messages sender
          >> modify (λ s. record s { valid_senders = erase String_discrete sender s.valid_senders })
      | false ↦ elim (starts_with ack_message message) [
        | true ↦ modify (remove_from_alive_message_receiver_list sender)
        | false ↦ pure tt
      ]
    ]

  unfoldable pub listen_once : Arrival → Program Heartbeat (Unit {0})
  unfolding receive_message handle_message
  listen_once arrival = do
    received ← lift (receive_message arrival)
    handle_message received.0 received.1

  -- startListeningForMessages, with what will arrive. When nothing more arrives it waits.
  unfoldable pub start_listening_for_messages : List Arrival → Program Heartbeat (Unit {0})
  unfolding is_listening listen_once on_kernel close_fd
  start_listening_for_messages [] = do
    s ← get
    elim (is_listening s) [ true ↦ fail blocked | false ↦ on_kernel (close_fd s.receiver_fd) ]
  start_listening_for_messages (arrival ∷ arrivals) = do
    s ← get
    elim (is_listening s) [
      | true ↦ listen_once arrival >> start_listening_for_messages arrivals
      | false ↦ on_kernel (close_fd s.receiver_fd)
    ]

-- After the loop of startSendingAliveMessages: all senders are closed.
unfoldable pub close_senders : List (String × UdpSender) → Program Kernel (Unit {0})
unfolding close_sender
close_senders [] = pure tt
close_senders ((hostname, sender) ∷ senders) = close_sender sender >> close_senders senders

module _ (answers : ℕ → String → Resolution) where
  -- startSendingAliveMessages, when no other thread runs: at most so many tests of the flag.
  unfoldable pub start_sending_alive_messages : ℕ → Program Heartbeat (Unit {0})
  unfolding alive_round on_kernel close_senders
  start_sending_alive_messages zero = fail blocked
  start_sending_alive_messages (suc n) = do
    s ← get
    elim s.stop_alive_message_loop [
      | true ↦ on_kernel (close_senders s.udp_senders)
      | false ↦ alive_round answers >> start_sending_alive_messages n
    ]
