-- ===== src/Lab0/Senders.antt =====
-- getUDPSender of lab0/heartbeat.cpp: what it returns and what it changes.
use cs7610_f.Prelude.{
  ℕ, ◌+◌, ◌≡◌, refl, ap, ◌∙◌, arith, List, [], ◌∷◌, String, String_discrete, Option, none, some,
  Result, ok, throws, invalid_argument, out_of_range, fatal, transport, undefined, exited, blocked,
  lookup, insert_absent,
}
use cs7610_f.Program.{Program, pure, bind_lem, continued, caught}
use cs7610_f.Sockets.{Resolution, unresolved, addresses, Kernel, resolve, open_socket}
use cs7610_f.Sockets.Binding.{first_socket, taken, open_socket_lem}
use cs7610_f.Lab0.Udp.{UdpSender, new_udp_sender}
use cs7610_f.Lab0.Heartbeat.{Heartbeat, udp_port, create_udp_sender, get_udp_sender, on_kernel}

-- What the search for a socket makes of the sender to come.
abbrev pub made : String → ℕ → Option ℕ → Kernel → Result UdpSender × Kernel
made host port (some fd) k = (
  ok (record { server_host = host; server_port = port; socket_fd = fd }),
  record k { calls = k.calls + 1; open_fds = fd ∷ k.open_fds },
)
made host port none k = (throws fatal, record k { calls = k.calls + 1 })

abbrev pub made_from : String → ℕ → Resolution → Kernel → Result UdpSender × Kernel
made_from host port unresolved k = (throws transport, record k { calls = k.calls + 1 })
made_from host port (addresses list) k = made host port (first_socket list) k

abbrev sender_on : String → ℕ → ℕ → Program Kernel UdpSender
sender_on host port fd = pure (record { server_host = host; server_port = port; socket_fd = fd })

with_socket :
    (host : String) (port : ℕ) (k : Kernel) (found : Option ℕ)
    → continued (sender_on host port) (taken fatal found (record k { calls = k.calls + 1 }))
      ≡ made host port found k
with_socket host port k none = refl
with_socket host port k (some fd) = refl

module _ (answers : ℕ → String → Resolution) where
  new_udp_sender_from :
      (host : String) (port : ℕ) (k : Kernel) (found : Resolution)
      → answers k.calls host ≡ found
      → new_udp_sender answers host port k ≡ made_from host port found k
  unfolding new_udp_sender resolve
  new_udp_sender_from host port k unresolved e = rw e refl
  new_udp_sender_from host port k (addresses list) e = rw e (
      bind_lem (open_socket fatal list) (sender_on host port) (record k { calls = k.calls + 1 }) _
        (open_socket_lem fatal list (record k { calls = k.calls + 1 }))
      ∙ with_socket host port k (first_socket list))

abbrev pub obtained_on : String → Option ℕ → Heartbeat → Result (Option UdpSender) × Heartbeat
obtained_on host none s =
    (throws fatal, record s { kernel = record s.kernel { calls = s.kernel.calls + 1 } })
obtained_on host (some fd) s =
    let sender : UdpSender = record {
      server_host = host;
      server_port = udp_port;
      socket_fd = fd;
    } in
    (
      ok (some sender),
      record s {
        udp_senders = insert_absent String_discrete host sender s.udp_senders;
        kernel = record s.kernel { calls = s.kernel.calls + 1; open_fds = fd ∷ s.kernel.open_fds };
      },
    )

abbrev pub obtained : String → Resolution → Heartbeat → Result (Option UdpSender) × Heartbeat
obtained host unresolved s =
    (ok none, record s { kernel = record s.kernel { calls = s.kernel.calls + 1 } })
obtained host (addresses list) s = obtained_on host (first_socket list) s

lookup-insert_absent :
    (host : String) (sender : UdpSender) (senders : List (String × UdpSender))
    → lookup String_discrete host senders ≡ none
    → lookup String_discrete host (insert_absent String_discrete host sender senders) ≡ some sender
unfolding lookup insert_absent
lookup-insert_absent host sender [] e = ground arith
lookup-insert_absent host sender ((other, old) ∷ senders) e =
    ground (arith, lookup-insert_absent host sender senders)

-- What `create_udp_sender` makes of what the constructor did.
abbrev created : String → Result UdpSender × Kernel → Heartbeat → Result (Unit {0}) × Heartbeat
created host r s = elim r.0 [
  | ok sender ↦ (
    ok tt,
    record s {
      udp_senders = insert_absent String_discrete host sender s.udp_senders;
      kernel = r.1;
    },
  )
  | throws error ↦ (throws error, record s { kernel = r.1 })
]

-- The handler and the second search of getUDPSender.
abbrev searched : String → Result (Unit {0}) × Heartbeat → Result (Option UdpSender) × Heartbeat
searched host (ok x, t) = (ok (lookup String_discrete host t.udp_senders), t)
searched host (throws transport, t) = (ok (lookup String_discrete host t.udp_senders), t)
searched host (throws error, t) = (throws error, t)

search_again : String → Unit {0} → Program Heartbeat (Option UdpSender)
search_again host x t = (ok (lookup String_discrete host t.udp_senders), t)

handled :
    (host : String) (r : Result (Unit {0}) × Heartbeat)
    → continued (search_again host) (caught (pure tt) r) ≡ searched host r
unfolding search_again
handled host (ok x, t) = refl
handled host (throws out_of_range, t) = refl
handled host (throws invalid_argument, t) = refl
handled host (throws fatal, t) = refl
handled host (throws transport, t) = refl
handled host (throws undefined, t) = refl
handled host (throws exited, t) = refl
handled host (throws blocked, t) = refl

searched-created :
    (host : String) (found : Resolution) (s : Heartbeat)
    → lookup String_discrete host s.udp_senders ≡ none
    → searched host (created host (made_from host udp_port found s.kernel) s)
      ≡ obtained host found s
searched-created host unresolved s e = ground arith
searched-created host (addresses list) s e = on_socket (first_socket list)
  where
    on_socket :
        (fd : Option ℕ)
        → searched host (created host (made host udp_port fd s.kernel) s) ≡ obtained_on host fd s
    on_socket none = refl
    on_socket (some fd) = ground (
      arith,
      lookup-insert_absent host
          (record { server_host = host; server_port = udp_port; socket_fd = fd }) s.udp_senders e,
    )

module _ (answers : ℕ → String → Resolution) where
  pub get_udp_sender_known :
      (host : String) (s : Heartbeat) (sender : UdpSender)
      → lookup String_discrete host s.udp_senders ≡ some sender
      → get_udp_sender answers host s ≡ (ok (some sender), s)
  unfolding get_udp_sender
  get_udp_sender_known host s sender e = rw e (rw e refl)

  create_lem :
      (host : String) (s : Heartbeat)
      → create_udp_sender answers host s
        ≡ created host (new_udp_sender answers host udp_port s.kernel) s
  unfolding create_udp_sender on_kernel
  create_lem host s = refl

  pub get_udp_sender_new :
      (host : String) (s : Heartbeat) (found : Resolution)
      → lookup String_discrete host s.udp_senders ≡ none
      → answers s.kernel.calls host ≡ found
      → get_udp_sender answers host s ≡ obtained host found s
  unfolding get_udp_sender search_again
  get_udp_sender_new host s found e a = rw e (
      handled host (create_udp_sender answers host s)
      ∙ ap (searched host) (create_lem host s)
      ∙ ap (λ r. searched host (created host r s))
          (new_udp_sender_from answers host udp_port s.kernel found a)
      ∙ searched-created host found s e)
