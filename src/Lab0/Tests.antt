-- ===== src/Lab0/Tests.antt =====
-- Two hosts of lab0 that find one another.
use text.Mathlib.TextEquality.{eq_iff}
use cs7610_f.Prelude.{
  arith, ℕ, ◌+◌, ◌≡◌, refl, List, [], ◌∷◌, String, String_discrete, some, true, false, ok, throws,
  undefined, blocked, contains, lookup, length, ◌==◌, ◌||◌,
}
use cs7610_f.Sockets.{Resolution, unresolved, addresses, bindable, no_socket, Kernel}
use cs7610_f.Lab0.Udp.{Arrival, datagram, receive_message}
use cs7610_f.Lab0.Heartbeat.{
  Heartbeat, alive_message, ack_message, start_listening_for_messages, start_sending_alive_messages,
  handle_message, listen_once, alive_round, is_listening, starts_with,
}
use cs7610_f.Hosts.{parse_hostname_from_sender}
use cs7610_f.Lab0.Startup.{launch, add_peers, parse_host_file_from_cmd_arguments}
use cs7610_f.Lab0.Hearing.{announcement}
use cs7610_f.Lab0.Handling.{opens}
use cs7610_f.Lab0.Listening.{covers, start_listening_for_messages_lem}
use cs7610_f.Lab0.Safety.{Reaches, Reaches_lem}
use cs7610_f.Lab0.Rounds.{answered}
use cs7610_f.Lab0.Faults.{alive_of_unresolved, early_listener}

-- What a test by evaluation unfolds.
unfoldable program : Unit {0}
unfolding String_discrete contains lookup launch parse_host_file_from_cmd_arguments is_listening
    alive_round listen_once announcement start_listening_for_messages start_sending_alive_messages
    handle_message answered opens covers parse_hostname_from_sender starts_with receive_message
program = tt

abbrev answers : ℕ → String → Resolution
answers t host = addresses (no_socket ∷ bindable (t + 3) ∷ [])

abbrev nobody : ℕ → String → Resolution
nobody t host = unresolved

abbrev files : String → List String
files path = "ant" ∷ "bee" ∷ "ant" ∷ []

abbrev argv : List String
argv = "lab0" ∷ "-h" ∷ "hosts" ∷ []

abbrev boot : Kernel
boot = record { calls = 0; open_fds = []; sent = [] }

abbrev bee_alive : Arrival
bee_alive = datagram alive_message (some "bee.net")

abbrev bee_ack : Arrival
bee_ack = datagram ack_message (some "bee.net")

abbrev started : Heartbeat
started = record {
  alive_message_receivers = "bee" ∷ [];
  udp_senders = [];
  stop_alive_message_loop = false;
  valid_senders = "bee" ∷ [];
  receiver_fd = 3;
  kernel = record { calls = 1; open_fds = 3 ∷ []; sent = [] };
}

launch_started : launch answers files argv (some "ant") boot ≡ ok started
unfolding program
launch_started = refl

start_listening_for_messages_lem_example :
    (start_listening_for_messages answers (bee_ack ∷ bee_alive ∷ []) started).0 ≡ ok tt
unfolding program
start_listening_for_messages_lem_example =
    start_listening_for_messages_lem answers (bee_ack ∷ bee_alive ∷ []) started
      ((λ t. refl), ((λ t. refl), tt)) tt (refl, tt) (refl, tt)

-- One packet is not enough.
still_waiting :
    (start_listening_for_messages answers (bee_alive ∷ bee_alive ∷ []) started).0 ≡ throws blocked
unfolding program
still_waiting = refl

-- A round of alive messages, the other host's alive message, and its Ack.
abbrev greeted : Heartbeat
unfolding program
greeted = (alive_round answers started).1

abbrev answered_bee : Heartbeat
unfolding program
answered_bee = (listen_once answers bee_alive greeted).1

abbrev finished : Heartbeat
unfolding program
finished = (listen_once answers bee_ack answered_bee).1

finished_reached : Reaches answers started finished
unfolding program greeted answered_bee finished
finished_reached =
    Reaches.hears bee_ack answered_bee finished
      (Reaches.hears bee_alive greeted answered_bee
        (Reaches.sends started greeted Reaches.start refl refl) refl refl)
      refl refl

Reaches_lem_example :
    (finished.stop_alive_message_loop ≡ (length finished.alive_message_receivers == 0))
    × ((contains String_discrete "bee" finished.valid_senders
          || answered "bee" finished.kernel.sent)
        ≡ true)
unfolding program greeted answered_bee finished
Reaches_lem_example =
    Reaches_lem answers files argv "hosts" "ant" "bee" boot started finished refl launch_started
      finished_reached refl (λ e. ground (arith, eq_iff "bee" "ant"))

alive_of_unresolved_example :
    (handle_message nobody alive_message "bee.net" started).0 ≡ throws undefined
unfolding program
alive_of_unresolved_example =
    alive_of_unresolved nobody alive_message "bee.net" started refl refl refl

-- The listener has heard of the other host before the alive thread lists it.
abbrev hasty : Heartbeat
hasty = record started { valid_senders = []; alive_message_receivers = [] }

early_listener_example :
    ((start_listening_for_messages answers [] hasty).0 ≡ ok tt)
    × ((start_sending_alive_messages answers 3
          (add_peers ("bee" ∷ []) (start_listening_for_messages answers [] hasty).1)).0
        ≡ throws blocked)
unfolding program
early_listener_example =
    early_listener answers ("bee" ∷ []) [] 3 hasty tt refl refl refl (λ t host. refl)
