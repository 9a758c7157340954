-- ===== src/Lab1/Tests/Starting.antt =====
-- The start of a process, and its sockets.
use Prim.Native.Char.{char}
use cs7610_f.Prelude.{
  ℕ, ◌≡◌, ◌↔◌, refl, List, [], ◌∷◌, true, ok, throws, fatal, some, arith, String, String_discrete,
  lookup, ℕ_discrete, contains, invalid_argument, to_string, cons-ne-nil, stoi, glue, out_of_range,
  ltb, if◌then◌else◌,
}
use cs7610_f.Sockets.{Resolution, unresolved, addresses, no_socket, unbound, bindable, Kernel}
use cs7610_f.Sockets.Binding.{taken, first_bindable, first_socket}
use cs7610_f.Lab1.Sockets.{new_udp_sender, new_tcp_server, new_udp_receiver, accept}
use cs7610_f.Lab1.Connecting.{new_udp_sender_lem, new_tcp_server-new_udp_receiver}
use cs7610_f.Lab1.Accepting.{accept_lem}
use cs7610_f.Lab1.Startup.{
  make_recipient_id_map, get_process_identifier, send_multicast_msg, run_main, message, snapshot,
}
use cs7610_f.Lab1.Wiring.Recipients.{make_recipient_id_map_lem}
use cs7610_f.Lab1.Wiring.Flags.{comma_separated, no_comma, send_multicast_msg-comma_separated}
use cs7610_f.Lab1.Wiring.Snapshots.{run_main_lem}

abbrev boot : Kernel
boot = record { calls = 0; open_fds = []; sent = [] }

-- A host that is found at the second attempt.
abbrev slow : ℕ → String → Resolution
slow t host = if ltb t 1 then unresolved else addresses (no_socket ∷ unbound 4 ∷ bindable 5 ∷ [])

new_udp_sender_lem_example : new_udp_sender slow 3 "ant" 7610 boot ≡ (
  ok (record { server_host = "ant"; server_port = 7610; send_fd = 4 }),
  record boot { calls = 2; open_fds = 4 ∷ [] },
)
unfolding first_socket
new_udp_sender_lem_example =
    new_udp_sender_lem slow 1 3 "ant" 7610 4 (no_socket ∷ unbound 4 ∷ bindable 5 ∷ []) boot
      (omega arith) (λ t l. ground (arith, l)) refl refl

abbrev two_addresses : ℕ → String → Resolution
two_addresses t host = addresses (unbound 4 ∷ bindable 5 ∷ [])

second_address :
    ((new_tcp_server two_addresses true true 7610 boot).0 ≡ throws fatal)
    × (new_udp_receiver two_addresses boot
        ≡ taken fatal (first_bindable (bindable 5 ∷ [])) (record boot { calls = 1 }))
second_address =
    new_tcp_server-new_udp_receiver two_addresses true true 7610 4 (unbound 4 ∷ bindable 5 ∷ [])
      (bindable 5 ∷ []) boot refl refl

-- The names of a port that has no service, of port 80, and of port 106, which is read as port 3.
accept_lem_example :
    (accept (some 6) (some "bee.net") (some (to_string 3))
      ≡ ok (record { hostname = "bee.net"; port = 3; sock_fd = 6 }))
    × (accept (some 6) (some "bee.net") (some "http") ≡ throws invalid_argument)
    × (accept (some 6) (some "bee.net") (some (glue (to_string 3) "com-tsmux"))
        ≡ ok (record { hostname = "bee.net"; port = 3; sock_fd = 6 }))
accept_lem_example =
    accept_lem 6 3 "bee.net" "ttp" "com-tsmux" (char 104 tt) (cons-ne-nil (char 98 tt) "ee.net")
      (omega arith) refl refl

-- Space, signs and the bounds of int.
int_texts :
    (stoi " 80" ≡ ok 80)
    × (stoi "+80" ≡ ok 80)
    × (stoi "-5" ≡ ok 4294967291)
    × (stoi "2147483648" ≡ throws out_of_range)
    × (stoi "-" ≡ throws invalid_argument)
unfolding stoi
int_texts = (refl, refl, refl, refl, refl)

abbrev three : List String
three = "ant" ∷ "bee" ∷ "cat" ∷ []

make_recipient_id_map_lem_example :
    (mapping : List (ℕ × String)) × (make_recipient_id_map three ≡ ok mapping)
    × ((get_process_identifier three "bee" ≡ ok 2) ↔ (lookup ℕ_discrete 2 mapping ≡ some "bee"))
make_recipient_id_map_lem_example = make_recipient_id_map_lem three "bee" 2

send_multicast_msg-comma_separated_example :
    send_multicast_msg "bee" "ant,bee" ≡ contains String_discrete "bee" ("ant" ∷ "bee" ∷ [])
unfolding comma_separated no_comma
send_multicast_msg-comma_separated_example =
    send_multicast_msg-comma_separated "bee" ("ant" ∷ "bee" ∷ [])
      ((refl, cons-ne-nil (char 97 tt) "nt"), ((refl, cons-ne-nil (char 98 tt) "ee"), tt))

-- The flag asks for a snapshot after two messages: it comes after three.
run_main_lem_example :
    run_main true 4 2 ≡ ok (message 11 ∷ message 12 ∷ message 13 ∷ snapshot ∷ message 14 ∷ [])
run_main_lem_example = run_main_lem 4 2
