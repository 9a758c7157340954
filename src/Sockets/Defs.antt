-- ===== src/Sockets/Defs.antt =====
-- socket_utils.cpp of lab0 and network_utils.cpp of lab1 and lab2: getaddrinfo, socket, bind, close.
-- The descriptors that the process holds are a list, the newest first.
use cs7610_f.Prelude.{
  ℕ, ◌+◌, Bool, true, false, List, [], ◌∷◌, String, Option, none, some, ok, Error, ℕ_discrete,
  erase,
}
use cs7610_f.Program.{Program, ◌>>◌, pure, fail, modify}

-- What the calls on one address of getaddrinfo's list return: socket fails, bind fails, or neither.
pub data Address : Type 0 where
  no_socket : Address
  unbound : ℕ → Address
  bindable : ℕ → Address

-- What getaddrinfo returns.
pub data Resolution : Type 0 where
  unresolved : Resolution
  addresses : List Address → Resolution

-- What the process has done: the calls of getaddrinfo it made, the descriptors it holds, and the
-- datagrams it gave to sendto, each with its host.
pub record Kernel : Type 0 where
  pub calls : ℕ
  pub open_fds : List ℕ
  pub sent : List (String × List ℕ)

unfoldable pub open_fd : ℕ → Program Kernel (Unit {0})
open_fd fd = modify (λ k. record k { open_fds = fd ∷ k.open_fds })

unfoldable pub close_fd : ℕ → Program Kernel (Unit {0})
unfolding erase
close_fd fd = modify (λ k. record k { open_fds = erase ℕ_discrete fd k.open_fds })

-- One call of getaddrinfo: `answers` is what it returns, by the number of the call and the host.
unfoldable pub resolve : (ℕ → String → Resolution) → String → Program Kernel Resolution
resolve answers host k = (ok (answers k.calls host), record k { calls = k.calls + 1 })

-- The descriptor that socket returns for an address.
unfoldable pub socket_of : Address → Option ℕ
socket_of no_socket = none
socket_of (unbound fd) = some fd
socket_of (bindable fd) = some fd

-- The loop of the senders: the first address for which there is a socket. An error where none is.
unfoldable pub open_socket : Error → List Address → Program Kernel ℕ
unfolding open_fd socket_of
open_socket error [] = fail error
open_socket error (address ∷ list) =
    let later = open_socket error list in
    elim (socket_of address) [ some fd ↦ open_fd fd >> pure fd | none ↦ later ]

-- The loop of the receivers: the first address to which the socket can be bound. A socket that cannot
-- be bound is closed.
unfoldable pub bind_loop : Error → List Address → Program Kernel ℕ
unfolding open_fd close_fd
bind_loop error [] = fail error
bind_loop error (no_socket ∷ list) = bind_loop error list
bind_loop error (unbound fd ∷ list) = open_fd fd >> close_fd fd >> bind_loop error list
bind_loop error (bindable fd ∷ list) = open_fd fd >> pure fd

-- The loop of bindSocketToFd, which stops at the first address for which there is a socket; whether the
-- socket can be bound to it shows later.
unfoldable pub open_address : Error → List Address → Program Kernel (ℕ × Bool)
unfolding open_fd
open_address error [] = fail error
open_address error (no_socket ∷ list) = open_address error list
open_address error (unbound fd ∷ list) = open_fd fd >> pure (fd, false)
open_address error (bindable fd ∷ list) = open_fd fd >> pure (fd, true)
