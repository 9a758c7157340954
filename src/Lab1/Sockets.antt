-- ===== src/Lab1/Sockets.antt =====
-- lab1/src/common/network_utils.cpp: the socket classes of lab1. `answers` is what getaddrinfo returns,
-- by the number of the call and the host.
use cs7610_f.Prelude.{
  ℕ, zero, suc, ◌+◌, ◌++◌, List, [], ◌∷◌, Bool, true, false, String, String_discrete, Option, none,
  some, Result, ok, throws, fatal, transport, undefined, blocked, stoi, ite, or_throw, take, ◌&&◌,
  length,
}
use cs7610_f.Program.{Program, ◌>>=◌, pure, fail, modify, lift, catch}
use cs7610_f.Sockets.{
  Resolution, unresolved, addresses, Kernel, close_fd, resolve, open_socket, bind_loop,
  open_address,
}

-- The answers of gethostname and getnameinfo, none where they fail.
unfoldable pub get_current_hostname : Option String → Result String
get_current_hostname hostname = or_throw hostname fatal

unfoldable pub get_hostname_from_socket : Option String → Result String
get_hostname_from_socket name = or_throw name fatal

unfoldable pub get_service_name_from_socket : Option String → Result String
get_service_name_from_socket port = or_throw port fatal

pub record UdpSender : Type 0 where
  pub server_host : String
  pub server_port : ℕ
  pub send_fd : ℕ

module _ (answers : ℕ → String → Resolution) where
  -- UDPSender::initSocket
  unfoldable pub init_sender_socket : String → Program Kernel ℕ
  unfolding resolve open_socket
  init_sender_socket host = do
    resolution ← resolve answers host
    elim resolution [ unresolved ↦ fail transport | addresses list ↦ open_socket fatal list ]

  -- The constructor, which tries until it succeeds: at most so many times.
  unfoldable pub new_udp_sender : ℕ → String → ℕ → Program Kernel UdpSender
  unfolding init_sender_socket
  new_udp_sender zero host port = fail blocked
  new_udp_sender (suc n) host port =
      catch
        (do
          fd ← init_sender_socket host
          pure (record { server_host = host; server_port = port; send_fd = fd }))
        (new_udp_sender n host port)

  -- UDPReceiver's constructor and initSocket
  unfoldable pub new_udp_receiver : Program Kernel ℕ
  unfolding resolve bind_loop
  new_udp_receiver = do
    resolution ← resolve answers String.[]
    elim resolution [ unresolved ↦ fail fatal | addresses list ↦ bind_loop fatal list ]

  -- The descriptor, and whether bind will succeed on it. The test after the loop reads a pointer that
  -- only the loop sets.
  unfoldable pub bind_socket_to_fd : String → Program Kernel (ℕ × Bool)
  unfolding resolve open_address
  bind_socket_to_fd hostname = do
    resolution ← resolve answers hostname
    elim resolution [ unresolved ↦ fail transport | addresses list ↦ open_address undefined list ]

-- Both overloads of UDPSender::send: what sendto returns changes the log only.
unfoldable pub send_udp : UdpSender → List ℕ → Program Kernel (Unit {0})
send_udp sender buff = modify (λ k. record k { sent = k.sent ++ ((sender.server_host, buff) ∷ []) })

unfoldable pub close_udp_sender : UdpSender → Program Kernel (Unit {0})
unfolding close_fd
close_udp_sender sender = close_fd sender.send_fd

-- What recvfrom and recv return: an error, or bytes, with what getnameinfo says of the sender.
pub data Arrival : Type 0 where
  recv_error : Arrival
  datagram : List ℕ → Option String → Arrival

-- UDPReceiver::receive into a buffer of n bytes: the bytes, their number and the sender.
unfoldable pub receive_udp : ℕ → Arrival → Result (List ℕ × ℕ × String)
unfolding get_hostname_from_socket
receive_udp n recv_error = throws transport
receive_udp n (datagram bytes name) = elim (get_hostname_from_socket name) [
  | throws error ↦ throws error
  | ok received_from ↦ ok (take n bytes, length (take n bytes), received_from)
]

pub record TcpServer : Type 0 where
  pub listening_port : ℕ
  pub sock_fd : ℕ

-- TcpServer's constructor and initSocket; the tests are those of setsockopt and listen.
unfoldable pub new_tcp_server :
    (ℕ → String → Resolution) → Bool → Bool → ℕ → Program Kernel TcpServer
unfolding bind_socket_to_fd
new_tcp_server answers sets_option listens port = do
  found ← bind_socket_to_fd answers String.[]
  elim (sets_option && found.1 && listens) [
    | true ↦ pure (record { listening_port = port; sock_fd = found.0 })
    | false ↦ fail fatal
  ]

pub record TcpClient : Type 0 where
  pub hostname : String
  pub port : ℕ
  pub sock_fd : ℕ

-- The constructor over a descriptor.
unfoldable pub client_over : String → ℕ → ℕ → Result TcpClient
client_over hostname port fd =
    ite (String_discrete hostname String.[]) (throws fatal)
      (ok (record { hostname = hostname; port = port; sock_fd = fd }))

-- TcpServer::accept, from what accept returns and the two answers of getnameinfo. Where accept fails the
-- address that getnameinfo reads was not written.
unfoldable pub accept : Option ℕ → Option String → Option String → Result TcpClient
unfolding get_hostname_from_socket get_service_name_from_socket stoi client_over
accept none name service = throws undefined
accept (some fd) name service = elim (get_hostname_from_socket name) [
  | throws error ↦ throws error
  | ok hostname ↦ elim (get_service_name_from_socket service) [
    | throws error ↦ throws error
    | ok port_name ↦ elim (stoi port_name) [
      | throws error ↦ throws error
      | ok port ↦ client_over hostname port fd
    ]
  ]
]

-- The loop that connects: `connects` is what connect returns, by the number of the attempt.
unfoldable pub connect_loop : (ℕ → Bool) → ℕ → ℕ → Result (Unit {0})
connect_loop connects zero i = throws blocked
connect_loop connects (suc n) i =
    let later = connect_loop connects n (i + 1) in
    elim (connects i) [ true ↦ ok tt | false ↦ later ]

-- The constructor that connects, with at most n attempts.
unfoldable pub new_tcp_client :
    (ℕ → String → Resolution) → (ℕ → Bool) → ℕ → String → ℕ → Program Kernel TcpClient
unfolding bind_socket_to_fd connect_loop client_over
new_tcp_client answers connects n hostname port =
    ite (String_discrete hostname String.[]) (fail fatal) (do
      found ← bind_socket_to_fd answers hostname
      connected ← lift (connect_loop connects n 0)
      lift (client_over hostname port found.0))

-- TcpClient::send, which logs a failure and returns.
unfoldable pub send_tcp : TcpClient → List ℕ → Program Kernel (Unit {0})
send_tcp client buff = modify (λ k. record k { sent = k.sent ++ ((client.hostname, buff) ∷ []) })

-- The buffer of a message: in an array that exists, or in one that went with its function.
pub data Buffer : Type 0 where
  live : List ℕ → Buffer
  dangling : Buffer

pub record Received : Type 0 where
  pub buffer : Buffer
  pub n : ℕ
  pub sender : String

abbrev pub max_tcp_buffer_size : ℕ
max_tcp_buffer_size = 1024

-- TcpClient::receive: the message points into an array of the function.
unfoldable pub receive_tcp : TcpClient → Option (List ℕ) → Result Received
receive_tcp client none = throws transport
receive_tcp client (some bytes) = ok (record {
  buffer = dangling;
  n = length (take max_tcp_buffer_size bytes);
  sender = client.hostname;
})

-- A read of the message's bytes.
unfoldable pub read_buffer : Buffer → Result (List ℕ)
read_buffer (live bytes) = ok bytes
read_buffer dangling = throws undefined

unfoldable pub close_tcp_client : TcpClient → Program Kernel (Unit {0})
unfolding close_fd
close_tcp_client client = close_fd client.sock_fd

unfoldable pub close_tcp_server : TcpServer → Program Kernel (Unit {0})
unfolding close_fd
close_tcp_server server = close_fd server.sock_fd
