-- ===== src/Lab2/Connecting.antt =====
-- The constructors of TcpClient in lab2/src/network_utils.cpp: the calls of the operating system, and
-- the outcomes by which Lab2.Sockets models them.
use cs7610_f.Prelude.{
  ℕ, zero, suc, ◌+◌, ◌≡◌, ◌≢◌, refl, sym, ap, ◌∙◌, subst, arith, List, [], ◌∷◌, Bool, true, String,
  String_discrete, Option, none, some, Result, ok, throws, fatal, transport, lookup, assign,
  lookup-assign,
}
use mathlib.Core.Logic.{if_neg}
use cs7610_f.Program.{Program, ◌>>=◌, pure, fail, continued}
use cs7610_f.Sockets.{Resolution, Kernel}
use cs7610_f.Lab2.Sockets.{TcpClient, Network, connect, new_tcp_client}
use cs7610_f.Lab2.Udp.{connect_loop, open_tcp_client}
use cs7610_f.Lab2.Attempts.{has_socket, dial, settle, Comes, dials_from, connect_loop-Comes}

connect_known :
    (host : String) (net : Network) (outcome : Option ℕ) (later : List (Option ℕ))
    → lookup String_discrete host net.dials ≡ some (outcome ∷ later)
    → connect host net
      ≡ (ok outcome, record net { dials = assign String_discrete host later net.dials })
unfolding connect
connect_known host net outcome later e = rw (e, connect) refl

lookup_assigned :
    (host : String) (later : List (Option ℕ)) (dials : List (String × List (Option ℕ)))
    → lookup String_discrete host (assign String_discrete host later dials) ≡ some later
lookup_assigned host later dials =
    ground (arith, lookup-assign String_discrete host host later dials)

-- The descriptors after a connection, or none.
abbrev pub held : Result TcpClient → List ℕ → List ℕ
held (ok client) fds = client.sock_fd ∷ fds
held (throws error) fds = fds

module _ (answers : ℕ → String → Resolution) (connects : ℕ → Bool) (hostname : String) where
  abbrev client_result : ℕ → Option ℕ → Result TcpClient
  client_result port (some fd) = ok (record { hostname = hostname; port = port; sock_fd = fd })
  client_result port none = throws transport

  abbrev settled_last : ℕ → Option ℕ → Program Network TcpClient
  settled_last port outcome = elim outcome [
    | some fd ↦ pure (record { hostname = hostname; port = port; sock_fd = fd })
    | none ↦ fail transport
  ]

  abbrev settled_next : ℕ → ℕ → Option ℕ → Program Network TcpClient
  settled_next port n outcome = elim outcome [
    | some fd ↦ pure (record { hostname = hostname; port = port; sock_fd = fd })
    | none ↦ new_tcp_client hostname port n
  ]

  last_dial :
      (port : ℕ) (found : Option ℕ) (net : Network)
      → (continued (settled_last port) (ok found, net)).0 ≡ client_result port (settle (found ∷ []))
  last_dial port none net = refl
  last_dial port (some fd) net = refl

  next_dial :
      (port n : ℕ) (found : Option ℕ) (later : List (Option ℕ)) (net : Network)
      → (new_tcp_client hostname port n net).0 ≡ client_result port (settle later)
      → (continued (settled_next port n) (ok found, net)).0
        ≡ client_result port (settle (found ∷ later))
  next_dial port n none later net e = e
  next_dial port n (some fd) later net e = refl

  -- The model by outcomes.
  dialled :
      (port n t : ℕ) (net : Network)
      → lookup String_discrete hostname net.dials ≡ some (dials_from answers connects hostname t n)
      → (new_tcp_client hostname port n net).0
        ≡ client_result port (settle (dials_from answers connects hostname t n))
  unfolding new_tcp_client
  dialled port zero t net e =
      ap (λ r. (continued (settled_last port) r).0)
        (connect_known hostname net (dial (answers t hostname) (connects t)) [] e)
      ∙ last_dial port (dial (answers t hostname) (connects t)) _
  dialled port (suc n) t net e =
      ap (λ r. (continued (settled_next port n) r).0)
        (connect_known hostname net (dial (answers t hostname) (connects t))
          (dials_from answers connects hostname (t + 1) n) e)
      ∙ next_dial port n (dial (answers t hostname) (connects t))
          (dials_from answers connects hostname (t + 1) n) _
          (dialled port n (t + 1)
            (record net {
              dials =
                  assign String_discrete hostname (dials_from answers connects hostname (t + 1) n)
                    net.dials;
            })
            (lookup_assigned hostname (dials_from answers connects hostname (t + 1) n) net.dials))

  abbrev client_on : ℕ → ℕ → Program Kernel TcpClient
  client_on port fd = pure (record { hostname = hostname; port = port; sock_fd = fd })

  abbrev Agrees : Result TcpClient → Kernel → Result TcpClient × Kernel → Type 0
  Agrees expected k r = (r.0 ≡ expected) × (r.1.open_fds ≡ held expected k.open_fds)

  client_on-Agrees :
      (port : ℕ) (found : Option ℕ) (k : Kernel) (r : Result ℕ × Kernel)
      → Comes found k r
      → Agrees (client_result port found) k (continued (client_on port) r)
  client_on-Agrees port none k (ok fd, k') c = ground (arith, c.0)
  client_on-Agrees port none k (throws error, k') c = (by_error c.0, c.1)
    where
      by_error :
          ◌≡◌ {A = Result ℕ} (throws error) (throws transport)
          → ◌≡◌ {A = Result TcpClient} (throws error) (throws transport)
      by_error e = ground arith
  client_on-Agrees port (some fd) k (ok fd', k') c = ground (arith, c.0, c.1)
  client_on-Agrees port (some fd) k (throws error, k') c = ground (arith, c.0)

  -- The constructor that connects, on the calls of the operating system, comes to what Lab2.Sockets makes of
  -- their outcomes, where the hostname is not empty and a host that is found has a socket. Afterwards the
  -- process holds the descriptor of the client and none of the failed attempts.
  pub open_tcp_client-new_tcp_client :
      (port n : ℕ) (k : Kernel) (net : Network)
      → hostname ≢ ""
      → ((t : ℕ) → has_socket (answers t hostname) ≡ true)
      → lookup String_discrete hostname net.dials
        ≡ some (dials_from answers connects hostname k.calls n)
      → ((open_tcp_client answers connects hostname port n k).0
          ≡ (new_tcp_client hostname port n net).0)
        × ((open_tcp_client answers connects hostname port n k).1.open_fds
            ≡ held (new_tcp_client hostname port n net).0 k.open_fds)
  unfolding open_tcp_client
  open_tcp_client-new_tcp_client port n k net ne h e =
      subst (λ r. Agrees r k (open_tcp_client answers connects hostname port n k))
        (sym (dialled port n k.calls net e))
        (subst
          (Agrees (client_result port (settle (dials_from answers connects hostname k.calls n))) k)
          (sym (
            ap (λ (p : Program Kernel TcpClient). p k)
              (if_neg (String_discrete hostname "") ne (fail fatal)
                (connect_loop answers connects n hostname >>= client_on port))))
          (client_on-Agrees port (settle (dials_from answers connects hostname k.calls n)) k
            (connect_loop answers connects n hostname k)
            (connect_loop-Comes answers connects hostname n k h)))
