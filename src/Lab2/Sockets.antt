-- ===== src/Lab2/Sockets.antt =====
-- The TCP classes of lab2/src/network_utils.cpp, over what the calls of the operating system return.
use cs7610_f.Prelude.{
  ℕ, zero, suc, List, [], ◌∷◌, ◌++◌, String, Option, none, some, Result, ok, throws, transport,
  fatal, undefined, or_throw, ite, stoi, blocked, lookup, assign, ℕ_discrete, String_discrete,
  contains, length, if◌then◌else◌,
}
use cs7610_f.Hosts.{parse_hostname_from_sender}
use cs7610_f.Lab2.Message.{Message}
use cs7610_f.Program.{Program, ◌>>=◌, pure, fail}

pub record TcpClient : Type 0 where
  pub hostname : String
  pub port : ℕ
  pub sock_fd : ℕ

-- What recv will return: bytes, none of them where the other end has closed, or an error.
pub data Arrival : Type 0 where
  bytes : List ℕ → Arrival
  recv_error : Arrival

-- A connection: what accept returns, none where it fails, and the name of the other end and of its port
-- that getnameinfo gives, none where it fails.
pub record Connection : Type 0 where
  pub fd : Option ℕ
  pub name : Option String
  pub service_name : Option String

-- What the operating system will answer, and what has been sent.
pub record Network : Type 0 where
  -- By the descriptor, what its calls of recv return.
  pub inbox : List (ℕ × List Arrival)
  -- The descriptors on which send fails.
  pub broken : List ℕ
  -- By the host, the outcomes of the attempts to connect: a descriptor or a failure.
  pub dials : List (String × List (Option ℕ))
  -- What setting up a server comes to: a descriptor, or what the constructor of TcpServer throws.
  pub servers : List (Result ℕ)
  -- The connections that come.
  pub incoming : List Connection
  -- What was sent, on which descriptor, in order.
  pub sent : List (ℕ × List ℕ)

-- One attempt to connect.
unfoldable pub connect : String → Program Network (Option ℕ)
unfolding lookup assign
connect host net = elim (lookup String_discrete host net.dials) [
  | some (outcome ∷ later) ↦
      (ok outcome, record net { dials = assign String_discrete host later net.dials })
  | _ ↦ (ok none, net)
]

-- The constructor that connects: it tries again as often as it may, and throws after that.
unfoldable pub new_tcp_client : String → ℕ → ℕ → Program Network TcpClient
unfolding connect
new_tcp_client hostname port zero = do
  outcome ← connect hostname
  elim outcome [
    | some fd ↦ pure (record { hostname = hostname; port = port; sock_fd = fd })
    | none ↦ fail transport
  ]
new_tcp_client hostname port (suc retry_count) = do
  outcome ← connect hostname
  elim outcome [
    | some fd ↦ pure (record { hostname = hostname; port = port; sock_fd = fd })
    | none ↦ new_tcp_client hostname port retry_count
  ]

unfoldable pub get_hostname_from_socket : Option String → Result String
get_hostname_from_socket name = or_throw name fatal

unfoldable pub get_service_name_from_socket : Option String → Result String
get_service_name_from_socket port = or_throw port fatal

-- The constructor over a descriptor.
unfoldable pub client_over : ℕ → String → ℕ → Result TcpClient
client_over fd hostname port =
    ite (String_discrete hostname String.[]) (throws fatal)
      (ok (record { hostname = hostname; port = port; sock_fd = fd }))

-- The client of a connection. Where accept fails, the address that getnameinfo reads was not written.
unfoldable pub accepted : Connection → Result TcpClient
unfolding get_hostname_from_socket get_service_name_from_socket client_over stoi
accepted connection = elim connection.fd [
  | none ↦ throws undefined
  | some fd ↦ elim (get_hostname_from_socket connection.name) [
    | throws error ↦ throws error
    | ok hostname ↦ elim (get_service_name_from_socket connection.service_name) [
      | throws error ↦ throws error
      | ok port_name ↦ elim (stoi port_name) [
        | throws error ↦ throws error
        | ok port ↦ client_over fd hostname port
      ]
    ]
  ]
]

unfoldable pub accept : Program Network TcpClient
unfolding accepted
accept net = elim net.incoming [
  | [] ↦ (throws blocked, net)
  | connection ∷ later ↦ (accepted connection, record net { incoming = later })
]

-- The constructor of TcpServer; it aborts where nothing more can be bound.
unfoldable pub open_server : Program Network (Unit {0})
open_server net = elim net.servers [
  | [] ↦ (throws fatal, net)
  | ok fd ∷ later ↦ (ok tt, record net { servers = later })
  | throws error ∷ later ↦ (throws error, record net { servers = later })
]

unfoldable pub client_hostname : TcpClient → String
unfolding parse_hostname_from_sender
client_hostname client = parse_hostname_from_sender client.hostname

unfoldable pub send : TcpClient → List ℕ → Program Network (Unit {0})
unfolding contains
send client buff net =
    if contains ℕ_discrete client.sock_fd net.broken
    then (throws transport, net)
    else (ok tt, record net { sent = net.sent ++ ((client.sock_fd, buff) ∷ []) })

-- What `receive` makes of the value that recv returned.
unfoldable pub received : TcpClient → Arrival → Result Message
received client (bytes []) = throws transport
received client (bytes (b ∷ bs)) =
    ok (record { buffer = b ∷ bs; n = length (b ∷ bs); sender = client.hostname })
received client recv_error = throws transport

unfoldable pub receive : TcpClient → Program Network Message
unfolding received lookup assign
receive client net = elim (lookup ℕ_discrete client.sock_fd net.inbox) [
  | some (arrival ∷ later) ↦ (
    received client arrival,
    record net { inbox = assign ℕ_discrete client.sock_fd later net.inbox },
  )
  | _ ↦ (throws blocked, net)
]
