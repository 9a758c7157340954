-- ===== src/Lab0/Keeping.antt =====
-- What getUDPSender of lab0/heartbeat.cpp leaves alone.
use cs7610_f.Prelude.{
  All, Option-cases, inl, inr, sym, subst, ℕ, ◌≡◌, refl, ◌∙◌, arith, List, [], ◌∷◌, String,
  String_discrete, Option, none, some, Result, ok, throws, lookup, insert_absent, ite,
}
use cs7610_f.Sockets.{Resolution, unresolved, addresses}
use cs7610_f.Sockets.Binding.{first_socket}
use cs7610_f.Lab0.Udp.{UdpSender}
use cs7610_f.Lab0.Heartbeat.{Heartbeat, get_udp_sender}
use cs7610_f.Lab0.Senders.{obtained, obtained_on, get_udp_sender_known, get_udp_sender_new}

-- Every sender is stored under the host that it sends to.
abbrev pub Named : List (String × UdpSender) → Type 0
Named senders = All (λ entry. entry.1.server_host ≡ entry.0) senders

abbrev pub IsFor : String → Option UdpSender → Type 0
IsFor host none = Unit
IsFor host (some sender) = sender.server_host ≡ host

-- What getting a sender leaves alone.
pub record Untouched (s s' : Heartbeat) : Type 0 where
  pub receivers : s'.alive_message_receivers ≡ s.alive_message_receivers
  pub stop : s'.stop_alive_message_loop ≡ s.stop_alive_message_loop
  pub valid : s'.valid_senders ≡ s.valid_senders
  pub sent : s'.kernel.sent ≡ s.kernel.sent

abbrev pub Keeps : String → Heartbeat → Result (Option UdpSender) × Heartbeat → Type 0
Keeps host s (ok found, s') = Untouched s s' × Named s'.udp_senders × IsFor host found
Keeps host s (throws error, s') = Unit

lookup-IsFor :
    (host : String) (senders : List (String × UdpSender))
    → Named senders
    → IsFor host (lookup String_discrete host senders)
unfolding lookup
lookup-IsFor host [] h = tt
lookup-IsFor host ((other, sender) ∷ senders) h =
    elim (String_discrete host other)
      as (λ d. IsFor host (ite d (some sender) (lookup String_discrete host senders))) [
        | yes p ↦ h.0 ∙ sym p
        | no _ ↦ lookup-IsFor host senders h.1
      ]

insert_absent-Named :
    (host : String) (sender : UdpSender) (senders : List (String × UdpSender))
    → sender.server_host ≡ host
    → Named senders
    → Named (insert_absent String_discrete host sender senders)
unfolding insert_absent
insert_absent-Named host sender [] e h = (e, tt)
insert_absent-Named host sender ((other, old) ∷ senders) e h =
    ground (arith, insert_absent-Named host sender senders e h.1)

obtained-Keeps :
    (host : String) (found : Resolution) (s : Heartbeat)
    → Named s.udp_senders
    → Keeps host s (obtained host found s)
obtained-Keeps host unresolved s h = ground arith
obtained-Keeps host (addresses list) s h = on_socket (first_socket list)
  where
    on_socket : (fd : Option ℕ) → Keeps host s (obtained_on host fd s)
    on_socket none = tt
    on_socket (some fd) = (
      record { receivers = refl; stop = refl; valid = refl; sent = refl },
      insert_absent-Named host _ s.udp_senders refl h,
      refl,
    )

pub get_udp_sender-Keeps :
    (answers : ℕ → String → Resolution) (host : String) (s : Heartbeat)
    → Named s.udp_senders
    → Keeps host s (get_udp_sender answers host s)
get_udp_sender-Keeps answers host s h =
    elim (Option-cases (lookup String_discrete host s.udp_senders)) [
      | inl e ↦
          subst (Keeps host s) (sym (get_udp_sender_new answers host s _ e refl))
            (obtained-Keeps host (answers s.kernel.calls host) s h)
      | inr (sender, e) ↦
          subst (Keeps host s) (sym (get_udp_sender_known answers host s sender e)) (
            record { receivers = refl; stop = refl; valid = refl; sent = refl },
            h,
            subst (IsFor host) e (lookup-IsFor host s.udp_senders h),
          )
    ]
