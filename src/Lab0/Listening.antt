-- ===== src/Lab0/Listening.antt =====
-- startListeningForMessages of lab0/heartbeat.cpp: when it returns.
use cs7610_f.Prelude.{
  ℕ, ◌==◌, map, Bool-cases, ◌≡◌, refl, sym, ap, ◌∙◌, subst, arith, List, [], ◌∷◌, String,
  String_discrete, Option, none, some, Option-cases, inl, inr, Bool, true, false, ◌&&◌, Result, ok,
  throws, blocked, if◌then◌else◌, ite, All, contains, erase, Distinct, erase-Distinct, length,
}
use cs7610_f.Program.{Program, ◌>>◌, continued, fail}
use cs7610_f.Sockets.{Resolution, close_fd}
use cs7610_f.Lab0.Udp.{Arrival}
use cs7610_f.Lab0.Heartbeat.{
  Heartbeat, on_kernel, listen_once, is_listening, start_listening_for_messages,
}
use cs7610_f.Lab0.Keeping.{Named}
use cs7610_f.Lab0.Handling.{IsReadable, Finishes, listen_once-Finishes}
use cs7610_f.Lab0.Hearing.{
  Announcement, announcement, left, alive_of, ack_of, Heard, Leaves, listen_once-Heard,
}

-- Whether one of the announcements says `says` of the host.
unfoldable pub among : (Announcement → Option String) → String → List Announcement → Bool
among says host [] = false
among says host (a ∷ later) = elim (says a) [
  | some other ↦ ite (String_discrete other host) true (among says host later)
  | none ↦ among says host later
]

unfoldable pub covers : (Announcement → Option String) → List Announcement → List String → Bool
unfolding among
covers says later [] = true
covers says later (host ∷ hosts) = among says host later && covers says later hosts

among_other :
    (says : Announcement → Option String) (a : Announcement) (later : List Announcement)
    (hosts : List String) (other : String)
    → says a ≡ some other
    → contains String_discrete other hosts ≡ false
    → covers says (a ∷ later) hosts ≡ covers says later hosts
unfolding covers contains among
among_other says a later [] other e n = refl
among_other says a later (host ∷ hosts) other e n =
    ground (arith, among_other says a later hosts other e)

covers-left_some :
    (says : Announcement → Option String) (a : Announcement) (later : List Announcement)
    (hosts : List String) (other : String)
    → says a ≡ some other
    → Distinct String_discrete hosts
    → covers says (a ∷ later) hosts ≡ covers says later (erase String_discrete other hosts)
unfolding covers erase among
covers-left_some says a later [] other e d = refl
covers-left_some says a later (host ∷ hosts) other e d =
    ground (
      arith,
      covers-left_some says a later hosts other e d.1,
      among_other says a later hosts other e,
    )

covers-none :
    (says : Announcement → Option String) (a : Announcement) (later : List Announcement)
    (hosts : List String)
    → says a ≡ none
    → covers says (a ∷ later) hosts ≡ covers says later hosts
unfolding covers among
covers-none says a later [] e = refl
covers-none says a later (host ∷ hosts) e = ground (arith, covers-none says a later hosts e)

-- An announcement later, the awaited hosts are covered by what remains.
covers-left :
    (says : Announcement → Option String) (a : Announcement) (later : List Announcement)
    (hosts : List String)
    → Distinct String_discrete hosts
    → covers says (a ∷ later) hosts ≡ covers says later (left (says a) hosts)
covers-left says a later hosts d = elim (Option-cases (says a)) [
  | inl e ↦ rw e (covers-none says a later hosts e)
  | inr (other, e) ↦ rw e (covers-left_some says a later hosts other e d)
]

-- All peers that are awaited announce themselves and acknowledge.
abbrev pub all_hear : List Announcement → Heartbeat → Bool
all_hear later s =
    covers alive_of later s.valid_senders && covers ack_of later s.alive_message_receivers

abbrev awaited : Bool → Result (Unit {0})
awaited heard = if heard then ok tt else throws blocked

covers-empty :
    (says : Announcement → Option String) (hosts : List String)
    → covers says [] hosts ≡ (length hosts == 0)
unfolding covers among
covers-empty says [] = refl
covers-empty says (host ∷ hosts) = ground arith

covers_of_empty :
    (says : Announcement → Option String) (later : List Announcement) (hosts : List String)
    → (length hosts == 0) ≡ true
    → covers says later hosts ≡ true
unfolding covers
covers_of_empty says later [] e = refl
covers_of_empty says later (host ∷ hosts) e = ground arith

idle-all_hear :
    (later : List Announcement) (s : Heartbeat) → is_listening s ≡ false → all_hear later s ≡ true
unfolding is_listening
idle-all_hear later s e = ground (
  arith,
  covers_of_empty alive_of later s.valid_senders,
  covers_of_empty ack_of later s.alive_message_receivers,
)

busy-all_hear : (s : Heartbeat) → is_listening s ≡ true → all_hear [] s ≡ false
unfolding is_listening
busy-all_hear s e =
    ground
      (arith, covers-empty alive_of s.valid_senders, covers-empty ack_of s.alive_message_receivers)

left-Distinct :
    (gone : Option String) (hosts : List String)
    → Distinct String_discrete hosts
    → Distinct String_discrete (left gone hosts)
left-Distinct none hosts d = d
left-Distinct (some host) hosts d = erase-Distinct String_discrete host hosts d

-- The loop with its test decided.
abbrev pub loop_on : Program Heartbeat (Unit {0}) → Heartbeat → Bool → Result (Unit {0}) × Heartbeat
loop_on body s test =
    (elim test as (λ _. Program Heartbeat (Unit {0})) [
      | true ↦ body
      | false ↦ on_kernel (close_fd s.receiver_fd)
    ])
      s

module _ (answers : ℕ → String → Resolution) where
  listened :
      (s : Heartbeat) (a : Announcement) (later : List Announcement)
      (rest : Program Heartbeat (Unit {0}))
      → Distinct String_discrete s.valid_senders
      → Distinct String_discrete s.alive_message_receivers
      → ((s' : Heartbeat) → Heard a s s' → (rest s').0 ≡ awaited (all_hear later s'))
      → (r : Result (Unit {0}) × Heartbeat) → Leaves (Heard a s) r
      → Finishes r
      → (continued (λ x. rest) r).0 ≡ awaited (all_hear (a ∷ later) s)
  listened s a later rest dv dr h (ok x, s') heard f =
      h s' heard
      ∙ ap awaited (
          (λ i. covers alive_of later (heard.valid i) && covers ack_of later (heard.receivers i))
          ∙ sym (λ i.
            covers-left alive_of a later s.valid_senders dv i
            && covers-left ack_of a later s.alive_message_receivers dr i))
  listened s a later rest dv dr h (throws error, s') heard f = absurd f

  stops_at :
      (body : Program Heartbeat (Unit {0})) (s : Heartbeat) (later : List Announcement)
      → is_listening s ≡ false
      → (loop_on body s (is_listening s)).0 ≡ awaited (all_hear later s)
  unfolding on_kernel close_fd
  stops_at body s later e =
      ap (λ test. (loop_on body s test).0) e ∙ ap awaited (sym (idle-all_hear later s e))

  -- Where every packet can be read and comes from a host for which a sender can be made, the listener
  -- returns if each awaited host is among those whose alive messages come, and each receiver of alive
  -- messages among those whose Acks come. It waits for more packets if not.
  pub start_listening_for_messages_lem :
      (arrivals : List Arrival) (s : Heartbeat)
      → All (IsReadable answers) arrivals
      → Named s.udp_senders
      → Distinct String_discrete s.valid_senders
      → Distinct String_discrete s.alive_message_receivers
      → (start_listening_for_messages answers arrivals s).0
        ≡ awaited (all_hear (map announcement arrivals) s)
  unfolding start_listening_for_messages
  start_listening_for_messages_lem [] s r n dv dr = elim (Bool-cases (is_listening s)) [
    | inl e ↦
        ap (λ test. (loop_on (fail blocked) s test).0) e ∙ ap awaited (sym (busy-all_hear s e))
    | inr e ↦ stops_at (fail blocked) s [] e
  ]
  start_listening_for_messages_lem (arrival ∷ arrivals) s r n dv dr =
      elim (Bool-cases (is_listening s)) [
        | inl e ↦
            ap
              (λ test.
                (loop_on
                  (listen_once answers arrival >> start_listening_for_messages answers arrivals) s
                  test).0)
              e
            ∙ (listened s (announcement arrival) (map announcement arrivals)
                (start_listening_for_messages answers arrivals) dv dr
                (λ s' heard.
                  start_listening_for_messages_lem arrivals s' r.1 heard.named
                    (subst (Distinct String_discrete) (sym heard.valid)
                      (left-Distinct (alive_of (announcement arrival)) s.valid_senders dv))
                    (subst (Distinct String_discrete) (sym heard.receivers)
                      (left-Distinct (ack_of (announcement arrival)) s.alive_message_receivers dr)))
                (listen_once answers arrival s) (listen_once-Heard answers arrival s n)
                (listen_once-Finishes answers arrival s r.0))
        | inr e ↦
            stops_at (listen_once answers arrival >> start_listening_for_messages answers arrivals)
              s (map announcement (arrival ∷ arrivals)) e
      ]
