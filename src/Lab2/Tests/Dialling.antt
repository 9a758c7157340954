-- ===== src/Lab2/Tests/Dialling.antt =====
-- The constructor of a TCP client that connects at its second attempt.
use Prim.Native.Char.{char}
use cs7610_f.Prelude.{
  ℕ, ◌≡◌, refl, [], ◌∷◌, Bool, some, none, String, String_discrete, lookup, ◌==◌, cons-ne-nil,
}
use cs7610_f.Sockets.{Resolution, addresses, bindable, Kernel}
use cs7610_f.Sockets.Binding.{first_socket}
use cs7610_f.Lab2.Sockets.{Network, new_tcp_client}
use cs7610_f.Lab2.Udp.{open_tcp_client}
use cs7610_f.Lab2.Connecting.{held, open_tcp_client-new_tcp_client}

abbrev boot : Kernel
boot = record { calls = 0; open_fds = 3 ∷ []; sent = [] }

abbrev answers : ℕ → String → Resolution
answers t host = addresses (bindable 7 ∷ [])

abbrev second : ℕ → Bool
second t = t == 1

abbrev net : Network
net = record {
  inbox = [];
  broken = [];
  dials = ("bee", none ∷ some 7 ∷ []) ∷ [];
  servers = [];
  incoming = [];
  sent = [];
}

open_tcp_client-new_tcp_client_example :
    ((open_tcp_client answers second "bee" 7610 1 boot).0 ≡ (new_tcp_client "bee" 7610 1 net).0)
    × ((open_tcp_client answers second "bee" 7610 1 boot).1.open_fds
        ≡ held (new_tcp_client "bee" 7610 1 net).0 boot.open_fds)
unfolding first_socket lookup String_discrete
open_tcp_client-new_tcp_client_example =
    open_tcp_client-new_tcp_client answers second "bee" 7610 1 boot net
      (cons-ne-nil (char 98 tt) "ee") (λ t. refl) refl
