-- ===== src/Lab0/Safety.antt =====
-- Every state that the two threads of lab0/main.cpp reach.
use mathlib.Core.Logic.{if_neg}
use cs7610_f.Prelude.{
  some, ◌≢◌, ℕ, ◌≡◌, refl, sym, ◌∙◌, subst, arith, List, [], ◌∷◌, String, String_discrete, true,
  false, ◌||◌, ok, contains, contains-erase, contains-from_list, erase, Distinct, erase-Distinct,
  from_list-Distinct, from_list, length, ◌==◌,
}
use cs7610_f.Sockets.{Resolution, Kernel}
use cs7610_f.Lab0.Udp.{Arrival}
use cs7610_f.Lab0.Heartbeat.{
  Heartbeat, ack_message, starts_with, alive_round, is_listening, listen_once,
}
use cs7610_f.Lab0.Keeping.{Named}
use cs7610_f.Lab0.Hearing.{
  Announcement, alive, ack, noise, announcement, Heard, Leaves, listen_once-Heard,
}
use cs7610_f.Lab0.Rounds.{answered, answered-append, Sent, alive_round-Sent}
use cs7610_f.Lab0.Awaited.{launch_lem}
use cs7610_f.Lab0.Launch.{Launched, launch_inv, add_peers-Added, add_peers-receivers}
use cs7610_f.Lab0.Startup.{launch, add_peers, new_heartbeat, parse_host_file_from_cmd_arguments}

-- The states that the threads reach: a round of the alive thread while its flag is not set, or a
-- packet that the listener handles while it listens.
pub data Reaches (answers : ℕ → String → Resolution) (s0 : Heartbeat) : Heartbeat → Type 0 where
  start : Reaches answers s0 s0
  sends :
      (s s' : Heartbeat)
      → Reaches answers s0 s
      → s.stop_alive_message_loop ≡ false
      → alive_round answers s ≡ (ok tt, s')
      → Reaches answers s0 s'
  hears :
      (arrival : Arrival) (s s' : Heartbeat)
      → Reaches answers s0 s
      → is_listening s ≡ true
      → listen_once answers arrival s ≡ (ok tt, s')
      → Reaches answers s0 s'

pub record Inv (peers : List String) (s : Heartbeat) : Type 0 where
  pub stop : s.stop_alive_message_loop ≡ (length s.alive_message_receivers == 0)
  pub acked :
      (peer : String)
      → contains String_discrete peer peers ≡ true
      → (contains String_discrete peer s.valid_senders || answered peer s.kernel.sent) ≡ true
  pub named : Named s.udp_senders
  pub distinct : Distinct String_discrete s.valid_senders

erase_empty :
    (host : String) (hosts : List String)
    → (length hosts == 0) ≡ true
    → (length (erase String_discrete host hosts) == 0) ≡ true
unfolding erase
erase_empty host [] e = refl
erase_empty host (x ∷ hosts) e = ground arith

Heard-stop :
    (a : Announcement) (s s' : Heartbeat)
    → s.stop_alive_message_loop ≡ (length s.alive_message_receivers == 0)
    → Heard a s s'
    → s'.stop_alive_message_loop ≡ (length s'.alive_message_receivers == 0)
Heard-stop (alive host) s s' e h = rw (h.stop, h.receivers) e
Heard-stop noise s s' e h = rw (h.stop, h.receivers) e
Heard-stop (ack host) s s' e h =
    rw (h.stop, h.receivers) (ground (arith, e, erase_empty host s.alive_message_receivers))

Heard-acked :
    (a : Announcement) (s s' : Heartbeat) (peer : String)
    → Distinct String_discrete s.valid_senders
    → Heard a s s'
    → (contains String_discrete peer s.valid_senders || answered peer s.kernel.sent) ≡ true
    → (contains String_discrete peer s'.valid_senders || answered peer s'.kernel.sent) ≡ true
unfolding answered starts_with
Heard-acked (alive host) s s' peer d h e =
    rw (h.valid, h.sent)
      (ground (
        arith,
        e,
        contains-erase String_discrete host peer s.valid_senders d,
        answered-append peer s.kernel.sent ((host, ack_message) ∷ []),
      ))
Heard-acked (ack host) s s' peer d h e =
    rw (h.valid, h.sent) (ground (arith, e, answered-append peer s.kernel.sent []))
Heard-acked noise s s' peer d h e =
    rw (h.valid, h.sent) (ground (arith, e, answered-append peer s.kernel.sent []))

Heard-Distinct :
    (a : Announcement) (s s' : Heartbeat)
    → Distinct String_discrete s.valid_senders
    → Heard a s s'
    → Distinct String_discrete s'.valid_senders
Heard-Distinct (alive host) s s' d h =
    rw h.valid (erase-Distinct String_discrete host s.valid_senders d)
Heard-Distinct (ack host) s s' d h = rw h.valid d
Heard-Distinct noise s s' d h = rw h.valid d

Heard-Inv :
    (peers : List String) (a : Announcement) (s s' : Heartbeat)
    → Inv peers s
    → Heard a s s'
    → Inv peers s'
Heard-Inv peers a s s' i h = record {
  stop = Heard-stop a s s' i.stop h;
  acked = λ peer m. Heard-acked a s s' peer i.distinct h (i.acked peer m);
  named = h.named;
  distinct = Heard-Distinct a s s' i.distinct h;
}

Sent-Inv : (peers : List String) (s s' : Heartbeat) → Inv peers s → Sent s s' → Inv peers s'
Sent-Inv peers s s' i h = record {
  stop = rw (h.stop, h.receivers) i.stop;
  acked = λ peer m. rw (h.valid, h.acks peer) (i.acked peer m);
  named = h.named;
  distinct = rw h.valid i.distinct;
}

module _ (answers : ℕ → String → Resolution) where
  Reaches-Inv :
      (peers : List String) (s0 s : Heartbeat) → Inv peers s0 → Reaches answers s0 s → Inv peers s
  Reaches-Inv peers s0 s i start = i
  Reaches-Inv peers s0 last i (sends s s' r f e) =
      let before : Inv peers s = Reaches-Inv peers s0 s i r in
      Sent-Inv peers s s' before
        (subst (Leaves (Sent s)) e (alive_round-Sent answers s before.named))
  Reaches-Inv peers s0 last i (hears arrival s s' r f e) =
      let before : Inv peers s = Reaches-Inv peers s0 s i r in
      Heard-Inv peers (announcement arrival) s s' before (
        subst (Leaves (Heard (announcement arrival) s)) e
          (listen_once-Heard answers arrival s before.named))

start-Inv :
    (peers : List String) (fd : ℕ) (k : Kernel)
    → (length peers == 0) ≡ false
    → Inv peers (add_peers peers (new_heartbeat peers fd k))
unfolding new_heartbeat
start-Inv peers fd k e =
    let added = add_peers-Added peers (new_heartbeat peers fd k) in
    record {
      stop = rw (added.stop, add_peers-receivers peers (new_heartbeat peers fd k)) (ground arith);
      acked =
          λ peer m. rw (added.valid, contains-from_list String_discrete peer peers) (ground arith);
      named = rw added.senders tt;
      distinct = rw added.valid (from_list-Distinct String_discrete peers);
    }

module _ (answers : ℕ → String → Resolution) (files : String → List String) where
  Launched-Inv :
      (lines : List String) (current : String) (s : Heartbeat)
      → Launched s lines current
      → (peers : List String) × Inv peers s
        × ((peer : String)
            → contains String_discrete peer s.valid_senders ≡ contains String_discrete peer peers)
  unfolding new_heartbeat from_list
  Launched-Inv lines current s l = (
    l.peers,
    subst (Inv l.peers) l.started (start-Inv l.peers l.fd l.kernel l.some_peer),
    λ peer.
        subst
          (λ (s : Heartbeat).
            contains String_discrete peer s.valid_senders ≡ contains String_discrete peer l.peers)
          l.started
          (rw (add_peers-Added l.peers (new_heartbeat l.peers l.fd l.kernel)).valid
            (contains-from_list String_discrete peer l.peers)),
  )

  -- Where the peers are listed as receivers before a packet is handled: in every state that the threads
  -- reach from the start of the program, the flag that stops the alive messages is set exactly when the
  -- list of their receivers is empty, and every host of the file but the own is awaited still or was sent
  -- an Ack.
  pub Reaches_lem :
      (argv : List String) (path current peer : String) (k : Kernel) (s s' : Heartbeat)
      → parse_host_file_from_cmd_arguments argv ≡ ok path
      → launch answers files argv (some current) k ≡ ok s
      → Reaches answers s s'
      → contains String_discrete peer (files path) ≡ true
      → peer ≢ current
      → (s'.stop_alive_message_loop ≡ (length s'.alive_message_receivers == 0))
        × ((contains String_discrete peer s'.valid_senders || answered peer s'.kernel.sent) ≡ true)
  Reaches_lem argv path current peer k s s' p e r c n =
      let (path', current', e1, e2, l) = launch_inv answers files argv (some current) k s e in
      let (peers, i, same) = Launched-Inv (files path') current' s l in
      let inv : Inv peers s' = Reaches-Inv answers peers s s' i r in
      let listed : contains String_discrete peer s.valid_senders ≡ true =
        (launch_lem answers files argv path current peer k s p e).0
        ∙ if_neg (String_discrete peer current) n false (contains String_discrete peer (files path))
        ∙ c in
      (inv.stop, inv.acked peer (sym (same peer) ∙ listed))
