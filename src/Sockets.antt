-- ===== src/Sockets.antt =====
-- The calls of the operating system that the socket classes of all labs make, and the loops over the
-- addresses of a host, which the classes repeat.
mod Defs
pub mod Binding
pub use Defs.{Address, no_socket, unbound, bindable, Resolution, unresolved, addresses, Kernel}
unfoldable pub use Defs.{
  open_fd, close_fd, resolve, socket_of, open_socket, bind_loop, open_address,
}
