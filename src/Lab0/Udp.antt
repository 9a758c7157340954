-- ===== src/Lab0/Udp.antt =====
-- lab0/socket_utils.cpp: UDPSender, UDPReceiver and SocketUtils. Bytes are numbers.
use cs7610_f.Prelude.{
  ℕ, ◌-◌, List, [], ◌∷◌, ◌++◌, String, Option, Result, ok, throws, fatal, transport, ◌==◌,
  if◌then◌else◌, take, or_throw,
}
use cs7610_f.Program.{Program, ◌>>=◌, pure, fail, modify}
use cs7610_f.Sockets.{
  Resolution, unresolved, addresses, Kernel, close_fd, resolve, open_socket, bind_loop,
}

-- The descriptor and the host of a sender; the port is the same for all.
pub record UdpSender : Type 0 where
  pub server_host : String
  pub server_port : ℕ
  pub socket_fd : ℕ

module _ (answers : ℕ → String → Resolution) where
  -- The constructor and the initSocket that it calls.
  unfoldable pub new_udp_sender : String → ℕ → Program Kernel UdpSender
  unfolding resolve open_socket
  new_udp_sender host port = do
    resolution ← resolve answers host
    elim resolution [
      | unresolved ↦ fail transport
      | addresses list ↦ do
        fd ← open_socket fatal list
        pure (record { server_host = host; server_port = port; socket_fd = fd })
    ]

  -- The constructor of the receiver; getaddrinfo is called with no host.
  unfoldable pub new_udp_receiver : Program Kernel ℕ
  unfolding resolve bind_loop
  new_udp_receiver = do
    resolution ← resolve answers String.[]
    elim resolution [ unresolved ↦ fail fatal | addresses list ↦ bind_loop fatal list ]

-- sendMessage: what sendto returns changes the log only.
unfoldable pub send_message : UdpSender → List ℕ → Program Kernel (Unit {0})
send_message sender message =
    modify (λ k. record k { sent = k.sent ++ ((sender.server_host, message) ∷ []) })

unfoldable pub close_sender : UdpSender → Program Kernel (Unit {0})
unfolding close_fd
close_sender sender = close_fd sender.socket_fd

-- What recvfrom returns: an error, or a datagram and what getnameinfo says of its sender.
pub data Arrival : Type 0 where
  recv_error : Arrival
  datagram : List ℕ → Option String → Arrival

abbrev pub max_buffer_size : ℕ
max_buffer_size = 100

-- std::string(buffer): up to the first NUL.
unfoldable pub c_string : List ℕ → List ℕ
c_string [] = []
c_string (b ∷ bs) = if b == 0 then [] else b ∷ c_string bs

-- getHostnameFromSocket
unfoldable pub get_hostname_from_socket : Option String → Result String
get_hostname_from_socket name = or_throw name fatal

unfoldable pub receive_message : Arrival → Result (List ℕ × String)
unfolding c_string get_hostname_from_socket
receive_message recv_error = throws transport
receive_message (datagram bytes name) = elim (get_hostname_from_socket name) [
  | throws error ↦ throws error
  | ok received_from ↦ ok (c_string (take (max_buffer_size - 1) bytes), received_from)
]
