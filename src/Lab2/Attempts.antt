-- ===== src/Lab2/Attempts.antt =====
-- The attempts to connect in lab2/src/network_utils.cpp, and the descriptors that they leave open.
use cs7610_f.Prelude.{
  ℕ, zero, suc, ◌+◌, ◌≡◌, refl, sym, ap, ◌∙◌, subst, arith, List, [], ◌∷◌, Bool, true, false,
  String, Option, none, some, Result, ok, throws, transport, undefined,
}
use cs7610_f.Program.{Program, ◌>>◌, pure, fail, continued, caught}
use cs7610_f.Sockets.{
  Address, no_socket, unbound, bindable, Resolution, unresolved, addresses, Kernel, close_fd,
  resolve, open_address,
}
use cs7610_f.Sockets.Binding.{first_socket, erase_head}
use cs7610_f.Lab2.Udp.{bind_socket_to_fd, try_connect, connect_loop}

-- Whether a socket can be had where the host is found.
abbrev pub has_socket : Resolution → Bool
has_socket unresolved = true
has_socket (addresses list) = elim (first_socket list) [ some fd ↦ true | none ↦ false ]

-- The outcome of an attempt, as Lab2.Sockets has it.
abbrev pub dial : Resolution → Bool → Option ℕ
dial unresolved connected = none
dial (addresses list) true = first_socket list
dial (addresses list) false = none

-- What an attempt with that outcome leaves.
abbrev attempted : Option ℕ → Kernel → Result ℕ × Kernel
attempted (some fd) k = (ok fd, record k { calls = k.calls + 1; open_fds = fd ∷ k.open_fds })
attempted none k = (throws transport, record k { calls = k.calls + 1 })

-- What open_address finds, by the first address with a socket.
abbrev finish : Bool → ℕ × Bool → Program Kernel ℕ
finish connected found = elim connected [
  | true ↦ pure found.0
  | false ↦ close_fd found.0 >> fail transport
]

opened :
    (connected : Bool) (list : List Address) (k : Kernel)
    → has_socket (addresses list) ≡ true
    → continued (finish connected) (open_address undefined list (record k { calls = k.calls + 1 }))
      ≡ attempted (dial (addresses list) connected) k
unfolding open_address first_socket close_fd
opened connected [] k h = ground arith
opened true (no_socket ∷ list) k h = opened true list k h
opened false (no_socket ∷ list) k h = opened false list k h
opened true (unbound fd ∷ list) k h = refl
opened true (bindable fd ∷ list) k h = refl
opened false (unbound fd ∷ list) k h =
    ap (λ fds. (throws transport, record k { calls = k.calls + 1; open_fds = fds }))
      (erase_head fd k.open_fds)
opened false (bindable fd ∷ list) k h =
    ap (λ fds. (throws transport, record k { calls = k.calls + 1; open_fds = fds }))
      (erase_head fd k.open_fds)

-- What a list of outcomes comes to: the first descriptor in it.
abbrev pub settle : List (Option ℕ) → Option ℕ
settle [] = none
settle (some fd ∷ later) = some fd
settle (none ∷ later) = settle later

abbrev pub result_of : Option ℕ → Result ℕ
result_of (some fd) = ok fd
result_of none = throws transport

abbrev pub fds_of : Option ℕ → List ℕ → List ℕ
fds_of (some fd) fds = fd ∷ fds
fds_of none fds = fds

abbrev pub Comes : Option ℕ → Kernel → Result ℕ × Kernel → Type 0
Comes found k r = (r.0 ≡ result_of found) × (r.1.open_fds ≡ fds_of found k.open_fds)

attempted-Comes :
    (found : Option ℕ) (k : Kernel) → Comes (settle (found ∷ [])) k (attempted found k)
attempted-Comes (some fd) k = (refl, refl)
attempted-Comes none k = (refl, refl)

-- A failed attempt is followed by the next one.
retried-Comes :
    (found : Option ℕ) (later : List (Option ℕ)) (again : Program Kernel ℕ) (k : Kernel)
    → Comes
        (settle later)
        (record k { calls = k.calls + 1 })
        (again (record k { calls = k.calls + 1 }))
    → Comes (settle (found ∷ later)) k (caught again (attempted found k))
retried-Comes (some fd) later again k h = (refl, refl)
retried-Comes none later again k h = h

-- What bindSocketToFd makes of what getaddrinfo returned.
abbrev binding : Resolution → Kernel → Result (ℕ × Bool) × Kernel
binding unresolved k = (throws transport, record k { calls = k.calls + 1 })
binding (addresses list) k = open_address undefined list (record k { calls = k.calls + 1 })

module _ (answers : ℕ → String → Resolution) (connects : ℕ → Bool) (hostname : String) where
  -- The outcomes of an attempt and of so many after it, from a call of getaddrinfo on.
  abbrev pub dials_from : ℕ → ℕ → List (Option ℕ)
  dials_from t zero = dial (answers t hostname) (connects t) ∷ []
  dials_from t (suc n) = dial (answers t hostname) (connects t) ∷ dials_from (t + 1) n

  bound :
      (k : Kernel) (found : Resolution)
      → answers k.calls hostname ≡ found
      → bind_socket_to_fd answers hostname k ≡ binding found k
  unfolding bind_socket_to_fd resolve
  bound k unresolved e = rw e refl
  bound k (addresses list) e = rw e refl

  finish-binding :
      (k : Kernel) (found : Resolution) (connected : Bool)
      → has_socket found ≡ true
      → continued (finish connected) (binding found k) ≡ attempted (dial found connected) k
  finish-binding k unresolved connected h = refl
  finish-binding k (addresses list) connected h = opened connected list k h

  attempt_lem :
      (k : Kernel)
      → has_socket (answers k.calls hostname) ≡ true
      → try_connect answers connects hostname k
        ≡ attempted (dial (answers k.calls hostname) (connects k.calls)) k
  unfolding try_connect
  attempt_lem k h =
      ap (continued (finish (connects k.calls))) (bound k (answers k.calls hostname) refl)
      ∙ finish-binding k (answers k.calls hostname) (connects k.calls) h

  pub connect_loop-Comes :
      (n : ℕ) (k : Kernel)
      → ((t : ℕ) → has_socket (answers t hostname) ≡ true)
      → Comes (settle (dials_from k.calls n)) k (connect_loop answers connects n hostname k)
  unfolding connect_loop
  connect_loop-Comes zero k h =
      subst (Comes (settle (dials_from k.calls zero)) k) (sym (attempt_lem k (h k.calls)))
        (attempted-Comes (dial (answers k.calls hostname) (connects k.calls)) k)
  connect_loop-Comes (suc n) k h =
      subst
        (λ r.
          Comes (settle (dials_from k.calls (suc n))) k
            (caught (connect_loop answers connects n hostname) r))
        (sym (attempt_lem k (h k.calls)))
        (retried-Comes (dial (answers k.calls hostname) (connects k.calls))
          (dials_from (k.calls + 1) n) (connect_loop answers connects n hostname) k
          (connect_loop-Comes n (record k { calls = k.calls + 1 }) h))
