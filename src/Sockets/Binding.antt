-- ===== src/Sockets/Binding.antt =====
-- What the loops over the addresses leave behind: socket_utils.cpp and network_utils.cpp.
use cs7610_f.Prelude.{
  ℕ, ◌≡◌, refl, ap, arith, List, [], ◌∷◌, Option, none, some, Result, ok, throws, Error, erase,
  ℕ_discrete, ◌∙◌,
}
use cs7610_f.Sockets.Defs.{Address, no_socket, unbound, bindable, Kernel, open_socket, bind_loop}

-- What comes of a search through the addresses: the descriptor that was found is held from now on,
-- and nothing else has changed.
abbrev pub taken : Error → Option ℕ → Kernel → Result ℕ × Kernel
taken error (some fd) k = (ok fd, record k { open_fds = fd ∷ k.open_fds })
taken error none k = (throws error, k)

unfoldable pub first_socket : List Address → Option ℕ
first_socket [] = none
first_socket (no_socket ∷ list) = first_socket list
first_socket (unbound fd ∷ list) = some fd
first_socket (bindable fd ∷ list) = some fd

unfoldable pub first_bindable : List Address → Option ℕ
first_bindable [] = none
first_bindable (no_socket ∷ list) = first_bindable list
first_bindable (unbound fd ∷ list) = first_bindable list
first_bindable (bindable fd ∷ list) = some fd

pub open_socket_lem :
    (error : Error) (list : List Address) (k : Kernel)
    → open_socket error list k ≡ taken error (first_socket list) k
unfolding open_socket first_socket
open_socket_lem error [] k = refl
open_socket_lem error (no_socket ∷ list) k = open_socket_lem error list k
open_socket_lem error (unbound fd ∷ list) k = refl
open_socket_lem error (bindable fd ∷ list) k = refl

pub erase_head : (fd : ℕ) (fds : List ℕ) → erase ℕ_discrete fd (fd ∷ fds) ≡ fds
unfolding erase
erase_head fd fds = ground arith

pub bind_loop_lem :
    (error : Error) (list : List Address) (k : Kernel)
    → bind_loop error list k ≡ taken error (first_bindable list) k
unfolding bind_loop first_bindable
bind_loop_lem error [] k = refl
bind_loop_lem error (no_socket ∷ list) k = bind_loop_lem error list k
bind_loop_lem error (unbound fd ∷ list) k =
    ap (λ (fds : List ℕ). bind_loop error list (record k { open_fds = fds }))
      (erase_head fd k.open_fds)
    ∙ bind_loop_lem error list k
bind_loop_lem error (bindable fd ∷ list) k = refl
