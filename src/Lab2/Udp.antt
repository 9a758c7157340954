-- ===== src/Lab2/Udp.antt =====
-- lab2/src/network_utils.cpp: UDPSender, UDPReceiver, NetworkUtils and the sockets of the TCP classes,
-- whose use of them Lab2.Sockets models by its outcomes. `answers` is what getaddrinfo returns, by the
-- number of the call and the host.
use cs7610_f.Prelude.{
  ℕ, zero, suc, ◌++◌, List, [], ◌∷◌, Bool, true, false, String, String_discrete, Option, Result, ok,
  throws, fatal, transport, undefined, ite, or_throw, take, length, ◌&&◌,
}
use cs7610_f.Program.{Program, ◌>>=◌, ◌>>◌, pure, fail, get, modify, catch}
use cs7610_f.Sockets.{
  Resolution, unresolved, addresses, Kernel, close_fd, resolve, open_socket, bind_loop,
  open_address,
}
use cs7610_f.Lab2.Message.{Message}
use cs7610_f.Lab2.Sockets.{TcpClient, get_hostname_from_socket}

-- The answer of gethostname, none where it fails.
unfoldable pub get_current_hostname : Option String → Result String
get_current_hostname hostname = or_throw hostname fatal

pub record UdpSender : Type 0 where
  pub server_host : String
  pub server_port : ℕ
  pub send_fd : ℕ

module _ (answers : ℕ → String → Resolution) where
  -- UDPSender::initSocket
  unfoldable pub init_sender_socket : String → Program Kernel ℕ
  unfolding resolve open_socket
  init_sender_socket host = do
    resolution ← resolve answers host
    elim resolution [ unresolved ↦ fail transport | addresses list ↦ open_socket fatal list ]

  -- One round of the constructor's loop.
  unfoldable pub try_sender : String → ℕ → Program Kernel UdpSender
  unfolding init_sender_socket
  try_sender host port = do
    fd ← init_sender_socket host
    pure (record { server_host = host; server_port = port; send_fd = fd })

  -- The constructor: as many retries as it may make, then the exception.
  unfoldable pub new_udp_sender : ℕ → String → ℕ → Program Kernel UdpSender
  unfolding try_sender
  new_udp_sender zero host port = try_sender host port
  new_udp_sender (suc retry_count) host port =
      catch (try_sender host port) (new_udp_sender retry_count host port)

  -- UDPReceiver's constructor and initSocket
  unfoldable pub new_udp_receiver : Program Kernel ℕ
  unfolding resolve bind_loop
  new_udp_receiver = do
    resolution ← resolve answers String.[]
    elim resolution [ unresolved ↦ fail fatal | addresses list ↦ bind_loop fatal list ]

  -- The descriptor, and whether bind will succeed on it. The test after the loop reads a pointer that
  -- only the loop sets.
  unfoldable pub bind_socket_to_fd : String → Program Kernel (ℕ × Bool)
  unfolding resolve open_address
  bind_socket_to_fd hostname = do
    resolution ← resolve answers hostname
    elim resolution [ unresolved ↦ fail transport | addresses list ↦ open_address undefined list ]

  -- TcpServer's constructor and initSocket; the tests are those of setsockopt and listen.
  unfoldable pub new_tcp_server : Bool → Bool → Program Kernel ℕ
  unfolding bind_socket_to_fd
  new_tcp_server sets_option listens = do
    found ← bind_socket_to_fd String.[]
    elim (sets_option && found.1 && listens) [ true ↦ pure found.0 | false ↦ fail fatal ]

  module _ (connects : ℕ → Bool) where
    -- The try block of the TCP client's constructor; `connects` is what connect returns, by the number
    -- of the call of getaddrinfo before it.
    unfoldable pub try_connect : String → Program Kernel ℕ
    unfolding bind_socket_to_fd close_fd
    try_connect hostname = do
      k ← get
      found ← bind_socket_to_fd hostname
      elim (connects k.calls) [ true ↦ pure found.0 | false ↦ close_fd found.0 >> fail transport ]

    -- The loop of that constructor.
    unfoldable pub connect_loop : ℕ → String → Program Kernel ℕ
    unfolding try_connect
    connect_loop zero hostname = try_connect hostname
    connect_loop (suc retry_count) hostname =
        catch (try_connect hostname) (connect_loop retry_count hostname)

    unfoldable pub open_tcp_client : String → ℕ → ℕ → Program Kernel TcpClient
    unfolding connect_loop
    open_tcp_client hostname port retry_count =
        ite (String_discrete hostname String.[]) (fail fatal) (do
          fd ← connect_loop retry_count hostname
          pure (record { hostname = hostname; port = port; sock_fd = fd }))

-- UDPSender::send: a failure of sendto throws.
unfoldable pub send_udp : Bool → UdpSender → List ℕ → Program Kernel (Unit {0})
send_udp false sender buff = fail transport
send_udp true sender buff =
    modify (λ k. record k { sent = k.sent ++ ((sender.server_host, buff) ∷ []) })

unfoldable pub close_udp_sender : UdpSender → Program Kernel (Unit {0})
unfolding close_fd
close_udp_sender sender = close_fd sender.send_fd

-- What recvfrom returns: an error, or bytes, with what getnameinfo says of the sender.
pub data Datagram : Type 0 where
  recv_error : Datagram
  datagram : List ℕ → Option String → Datagram

abbrev pub max_buffer_size : ℕ
max_buffer_size = 1024

-- UDPReceiver::receive
unfoldable pub receive_udp : Datagram → Result Message
unfolding get_hostname_from_socket
receive_udp recv_error = throws transport
receive_udp (datagram bytes name) = elim (get_hostname_from_socket name) [
  | throws error ↦ throws error
  | ok received_from ↦ ok (record {
    buffer = take max_buffer_size bytes;
    n = length (take max_buffer_size bytes);
    sender = received_from;
  })
]
