-- ===== src/Lab1/Tests/Sending.antt =====
-- The sending thread at concrete inputs.
use text.Mathlib.TextEquality.{eq_iff}
use cs7610_f.Prelude.{
  ℕ, ◌≤◌, ◌≡◌, refl, [], ◌∷◌, ◌++◌, map, false, ok, some, none, arith, String_discrete, erase,
  from_list, contains, inr,
}
use cs7610_f.Lab1.Message.{DataMessage}
use cs7610_f.Lab1.Serde.{serialize_data_message}
use cs7610_f.Lab1.Sender.{
  Packet, ContinuousMsgSender, Round, new_sender, queue_msg, remove_recipient, sending_step, at_top,
  in_wait, get_sending_interval,
}
use cs7610_f.Lab1.Sender.Interval.{IsPaced, get_sending_interval_bounds}
use cs7610_f.Lab1.Sender.Outstanding.{outstanding, IsWell, remove_recipient_lem}
use cs7610_f.Lab1.Sender.Rounds.{packets_of, sending_step-queue_msg}
use cs7610_f.Lab1.Sender.Waiting.{Goes}
use cs7610_f.Lab1.Sender.Retransmission.{at_once, queued, acknowledged, queue_msg-sending_step}
use cs7610_f.Lab1.Multicast.{process_data_msg, receive}
use cs7610_f.Lab1.Multicast.Wire.{data_in, packet, receive-packet}
use cs7610_f.Lab1.Tests.Scene.{program, hosts, message_a, message_b, alpha}

abbrev id_of : DataMessage → ℕ
id_of m = m.msg_id

abbrev idle : ContinuousMsgSender DataMessage
idle = new_sender 4000 hosts serialize_data_message

abbrev busy : ContinuousMsgSender DataMessage
busy = queue_msg idle message_a

get_sending_interval_bounds_example :
    let (s', interval) = get_sending_interval idle in
    IsPaced s' × (200 ≤ interval) × (interval ≤ 4000)
unfolding new_sender
get_sending_interval_bounds_example = get_sending_interval_bounds idle (omega arith) (omega arith)

remove_recipient_lem_example :
    let (s', removed) = remove_recipient id_of busy 1 "beta" in
    (removed ≡ contains String_discrete "beta" (outstanding id_of busy.msg_list 1))
    × (outstanding id_of s'.msg_list 1
        ≡ erase String_discrete "beta" (outstanding id_of busy.msg_list 1))
    × IsWell id_of s'.msg_list
unfolding program new_sender
remove_recipient_lem_example =
    remove_recipient_lem id_of busy 1 1 "beta" (refl, (refl, (refl, tt)), tt, tt)

-- An idle thread is blocked, wherever it is.
idle_blocked : (sending_step at_top idle ≡ none) × (sending_step in_wait idle ≡ none)
unfolding sending_step new_sender
idle_blocked = (refl, refl)

sending_step-queue_msg_example :
    (r : Round DataMessage) × (sending_step in_wait (queue_msg idle message_a) ≡ some (ok r))
    × (r.packets
        ≡ packets_of idle.msg_list
          ++ map {B = Packet}
              (λ r. (r, serialize_data_message message_a))
              (from_list String_discrete hosts))
unfolding program new_sender
sending_step-queue_msg_example = sending_step-queue_msg in_wait idle message_a tt (refl, (refl, tt))

-- Another message is queued, and the other recipient acknowledges.
abbrev later : ContinuousMsgSender DataMessage
later = (remove_recipient id_of (queue_msg busy message_b) 1 "beta").0

queue_msg-sending_step_example :
    (round : Round DataMessage) × (sending_step at_top later ≡ some (ok round))
    × Goes "alpha" (serialize_data_message message_a) round.packets
unfolding program new_sender
queue_msg-sending_step_example =
    queue_msg-sending_step id_of idle later message_a "alpha" tt (refl, (refl, tt)) refl
      (acknowledged (queued at_once message_b) 1 "beta"
        (inr (λ e. ground (arith, eq_iff "beta" "alpha"))))

receive-packet_example :
    receive alpha (packet (data_in message_a) (7 ∷ []) "alpha.net") false
    ≡ process_data_msg alpha message_a
receive-packet_example = receive-packet alpha (data_in message_a) (7 ∷ []) "alpha.net" (omega arith)
