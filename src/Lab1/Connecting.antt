-- ===== src/Lab1/Connecting.antt =====
-- The constructors of lab1/src/common/network_utils.cpp: the sender that tries until a host is found, and
-- the sockets of the servers.
use cs7610_f.Prelude.{
  ℕ, zero, suc, ◌+◌, ◌<◌, ◌≡◌, refl, sym, ap, ◌∙◌, subst, arith, List, ◌∷◌, Bool, true, false,
  String, some, Result, ok, throws, fatal, transport, undefined, ◌&&◌,
}
use cs7610_f.Program.{Program, pure, fail, continued, caught}
use cs7610_f.Sockets.{
  Address, unbound, Resolution, unresolved, addresses, Kernel, resolve, open_address,
}
use cs7610_f.Sockets.Binding.{first_socket, first_bindable, taken, open_socket_lem, bind_loop_lem}
use cs7610_f.Lab1.Sockets.{
  UdpSender, TcpServer, init_sender_socket, new_udp_sender, new_udp_receiver, bind_socket_to_fd,
  new_tcp_server,
}

module _ (answers : ℕ → String → Resolution) where
  abbrev sender_on : String → ℕ → ℕ → Program Kernel UdpSender
  sender_on host port fd = pure (record { server_host = host; server_port = port; send_fd = fd })

  abbrev accepting : Bool → Bool → ℕ → ℕ × Bool → Program Kernel TcpServer
  accepting sets_option listens port found = elim (sets_option && found.1 && listens) [
    | true ↦ pure (record { listening_port = port; sock_fd = found.0 })
    | false ↦ fail fatal
  ]

  not_found :
      (host : String) (k : Kernel)
      → answers k.calls host ≡ unresolved
      → init_sender_socket answers host k ≡ (throws transport, record k { calls = k.calls + 1 })
  unfolding init_sender_socket resolve
  not_found host k e = rw e refl

  is_found :
      (host : String) (k : Kernel) (list : List Address)
      → answers k.calls host ≡ addresses list
      → init_sender_socket answers host k
        ≡ taken fatal (first_socket list) (record k { calls = k.calls + 1 })
  unfolding init_sender_socket resolve
  is_found host k list e = rw e (open_socket_lem fatal list (record k { calls = k.calls + 1 }))

  once :
      (n : ℕ) (host : String) (port : ℕ) (k : Kernel) (r : Result ℕ × Kernel)
      → init_sender_socket answers host k ≡ r
      → new_udp_sender answers (suc n) host port k
        ≡ caught (new_udp_sender answers n host port) (continued (sender_on host port) r)
  unfolding new_udp_sender
  once n host port k r e =
      ap (λ r. caught (new_udp_sender answers n host port) (continued (sender_on host port) r)) e

  -- The constructor of a sender returns with the first attempt that finds the host, where that attempt
  -- has a socket; it has opened that socket and no other.
  pub new_udp_sender_lem :
      (m n : ℕ) (host : String) (port fd : ℕ) (list : List Address) (k : Kernel)
      → m < n
      → ((t : ℕ) → t < m → answers (k.calls + t) host ≡ unresolved)
      → answers (k.calls + m) host ≡ addresses list
      → first_socket list ≡ some fd
      → new_udp_sender answers n host port k ≡ (
        ok (record { server_host = host; server_port = port; send_fd = fd }),
        record k { calls = k.calls + m + 1; open_fds = fd ∷ k.open_fds },
      )
  new_udp_sender_lem m zero host port fd list k l u a f = absurd (omega (arith, l))
  new_udp_sender_lem zero (suc n) host port fd list k l u a f =
      let same : k.calls + 0 ≡ k.calls = omega arith in
      rw same (
        once n host port k _ (
          is_found host k list (rw same at a)
          ∙ ap (λ found. taken fatal found (record k { calls = k.calls + 1 })) f))
  new_udp_sender_lem (suc m) (suc n) host port fd list k l u a f =
      let start : (j : ℕ) → k.calls + suc j ≡ k.calls + 1 + j = λ j. omega arith in
      once n host port k _ (
        not_found host k
          (subst (λ t. answers t host ≡ unresolved) (later k.calls) (u 0 (omega arith))))
      ∙ new_udp_sender_lem m n host port fd list (record k { calls = k.calls + 1 }) (omega arith)
          (λ t b. subst (λ i. answers i host ≡ unresolved) (start t) (u (suc t) (omega (arith, b))))
          (subst (λ i. answers i host ≡ addresses list) (start m) a) f
      ∙ ap
          (λ i. (
            ok (record { server_host = host; server_port = port; send_fd = fd }),
            record k { calls = i + 1; open_fds = fd ∷ k.open_fds },
          ))
          (sym (start m))
    where
      later : (c : ℕ) → c + 0 ≡ c
      later c = omega arith

  -- Where the first address that has a socket cannot be bound, a TCP server ends the process, whatever
  -- addresses follow. A UDP receiver goes on to the next address, and closes the socket first.
  pub new_tcp_server-new_udp_receiver :
      (sets_option listens : Bool) (port fd : ℕ) (list later : List Address) (k : Kernel)
      → answers k.calls String.[] ≡ addresses list
      → list ≡ unbound fd ∷ later
      → ((new_tcp_server answers sets_option listens port k).0 ≡ throws fatal)
        × (new_udp_receiver answers k
            ≡ taken fatal (first_bindable later) (record k { calls = k.calls + 1 }))
  unfolding new_tcp_server bind_socket_to_fd resolve new_udp_receiver open_address first_bindable
  new_tcp_server-new_udp_receiver sets_option listens port fd list later k a e = (
    ap (λ r. (continued (accepting sets_option listens port) r).0) (bound list a)
        ∙ ap
            (λ list.
              (continued (accepting sets_option listens port)
                (open_address undefined list (record k { calls = k.calls + 1 }))).0)
            e
        ∙ refused sets_option,
    rw a (bind_loop_lem fatal list (record k { calls = k.calls + 1 }))
        ∙ ap (λ list. taken fatal (first_bindable list) (record k { calls = k.calls + 1 })) e,
  )
    where
      bound :
          (found : List Address)
          → answers k.calls String.[] ≡ addresses found
          → bind_socket_to_fd answers String.[] k
            ≡ open_address undefined found (record k { calls = k.calls + 1 })
      bound found e = rw e refl

      refused :
          (test : Bool)
          → (continued
              (accepting test listens port)
              (ok (fd, false), record k { calls = k.calls + 1; open_fds = fd ∷ k.open_fds })).0
            ≡ throws fatal
      refused true = refl
      refused false = refl
