-- ===== src/Lab1/Accepting.antt =====
-- TcpServer::accept of lab1/src/common/network_utils.cpp: the port that getnameinfo gives as a name.
use Prim.Native.Char.{Char, code}
use cs7610_f.Prelude.{
  ℕ, ◌≡◌, ◌≢◌, ap, ◌∙◌, true, false, String, String_discrete, some, Result, ok, throws,
  invalid_argument, fatal, to_string, glue, stoi-to_string, stoi-glue, stoi_of_letter, is_letter,
  starts_digit, ◌<◌, ◌^◌,
}
use mathlib.Core.Logic.{if_neg}
use cs7610_f.Lab1.Sockets.{
  TcpClient, accept, client_over, get_hostname_from_socket, get_service_name_from_socket,
}

-- What accept makes of the port.
abbrev with_port : ℕ → String → Result ℕ → Result TcpClient
with_port fd host port = elim port [
  | throws error ↦ throws error
  | ok number ↦ client_over host number fd
]

-- A connection from a host whose name is not empty. Where its port, a number below 2^31, is given as that
-- number, it becomes a client of that port. Where it is given as the name of a service, accept throws
-- invalid_argument if the name starts with a letter, and takes a number that the name starts with, with
-- another character behind it, for the port.
pub accept_lem :
    (fd port : ℕ) (host service rest : String) (c : Char)
    → host ≢ ""
    → port < 2 ^ 31
    → is_letter (code c) ≡ true
    → starts_digit rest ≡ false
    → (accept (some fd) (some host) (some (to_string port))
        ≡ ok (record { hostname = host; port = port; sock_fd = fd }))
      × (accept (some fd) (some host) (some (String.◌∷◌ c service)) ≡ throws invalid_argument)
      × (accept (some fd) (some host) (some (glue (to_string port) rest))
          ≡ ok (record { hostname = host; port = port; sock_fd = fd }))
unfolding accept get_hostname_from_socket get_service_name_from_socket client_over
accept_lem fd port host service rest c n small letter stops =
    let client : client_over host port fd
        ≡ ok (record { hostname = host; port = port; sock_fd = fd }) =
      if_neg (String_discrete host "") n (throws fatal)
        (ok (record { hostname = host; port = port; sock_fd = fd })) in
    (
      ap (with_port fd host) (stoi-to_string port small) ∙ client,
      ap (with_port fd host) (stoi_of_letter c service letter),
      ap (with_port fd host) (stoi-glue port rest small stops) ∙ client,
    )
