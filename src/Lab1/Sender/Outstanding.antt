-- ===== src/Lab1/Sender/Outstanding.antt =====
-- The sender seen as a map from message ids to the recipients that have not acknowledged yet.
use cs7610_f.Prelude.{
  ℕ, ◌≡◌, refl, ap, true, false, List, [], ◌∷◌, ◌++◌, arith, String, String_discrete, All,
  All-append, ◌==◌, if◌then◌else◌, contains, insert, erase, from_list, ◌≢◌, Distinct,
  erase-Distinct, from_list-Distinct,
}
use cs7610_f.Lab1.Sender.Defs.{
  MsgHolder, ContinuousMsgSender, new_holder, queue_msg, erase_recipient, no_recipients,
  drop_finished, remove_recipient,
}

module _ {T : Type 0} (id_of : T → ℕ) where
  -- The recipients that the first message of an id still waits for.
  unfoldable pub outstanding : List (MsgHolder T) → ℕ → List String
  outstanding [] id = []
  outstanding (h ∷ hs) id = if id == id_of h.org_msg then h.recipients else outstanding hs id

  abbrev pub Other : ℕ → List (MsgHolder T) → Type 0
  Other id = All λ h. (id == id_of h.org_msg) ≡ false

  -- No message is listed twice, none has been acknowledged by all, and no recipient is listed twice.
  abbrev pub IsWell : List (MsgHolder T) → Type 0
  IsWell [] = Unit
  IsWell (h ∷ hs) =
      (no_recipients h ≡ false)
      × Distinct String_discrete h.recipients
      × Other (id_of h.org_msg) hs
      × IsWell hs

  outstanding-Other : (id : ℕ) (hs : List (MsgHolder T)) → Other id hs → outstanding hs id ≡ []
  unfolding outstanding
  outstanding-Other id [] o = refl
  outstanding-Other id (h ∷ hs) o = ground (arith, outstanding-Other id hs o.1)

  drop_finished-IsWell : (hs : List (MsgHolder T)) → IsWell hs → drop_finished hs ≡ hs
  unfolding drop_finished
  drop_finished-IsWell [] w = refl
  drop_finished-IsWell (h ∷ hs) w =
      rw (w.0, drop_finished) (ap (◌∷◌ h) (drop_finished-IsWell hs w.3))

  abbrev after_removal : ℕ → String → List (MsgHolder T) → List (MsgHolder T)
  after_removal id r hs = drop_finished (erase_recipient id_of id r hs).0

  erase_recipient-flag :
      (id : ℕ) (r : String) (hs : List (MsgHolder T))
      → (erase_recipient id_of id r hs).1 ≡ contains String_discrete r (outstanding hs id)
  unfolding erase_recipient outstanding contains
  erase_recipient-flag id r [] = refl
  erase_recipient-flag id r (h ∷ hs) = ground (arith, erase_recipient-flag id r hs)

  no_recipients-eq : (h : MsgHolder T) → no_recipients h ≡ true → h.recipients ≡ []
  no_recipients-eq h e = ground arith

  outstanding-after_removal :
      (id j : ℕ) (r : String) (hs : List (MsgHolder T))
      → IsWell hs
      → outstanding (after_removal id r hs) j
        ≡ (if id == j then erase String_discrete r (outstanding hs j) else outstanding hs j)
  unfolding erase_recipient outstanding drop_finished erase
  outstanding-after_removal id j r [] w = ground arith
  outstanding-after_removal id j r (h ∷ hs) w = ground (
    arith,
    outstanding-after_removal id j r hs w.3,
    drop_finished-IsWell hs w.3,
    outstanding-Other (id_of h.org_msg) hs w.2,
    no_recipients-eq (record h { recipients = erase String_discrete r h.recipients }),
  )

  Other-drop_finished : (j : ℕ) (hs : List (MsgHolder T)) → Other j hs → Other j (drop_finished hs)
  unfolding drop_finished
  Other-drop_finished j [] o = tt
  Other-drop_finished j (h ∷ hs) o = ground (arith, Other-drop_finished j hs o.1)

  Other-erase_recipient :
      (id j : ℕ) (r : String) (hs : List (MsgHolder T))
      → Other j hs
      → Other j (erase_recipient id_of id r hs).0
  unfolding erase_recipient
  Other-erase_recipient id j r [] o = tt
  Other-erase_recipient id j r (h ∷ hs) o = ground (arith, Other-erase_recipient id j r hs o.1)

  Other-after_removal :
      (id j : ℕ) (r : String) (hs : List (MsgHolder T))
      → Other j hs
      → Other j (after_removal id r hs)
  Other-after_removal id j r hs o = Other-drop_finished j _ (Other-erase_recipient id j r hs o)

  IsWell-after_removal :
      (id : ℕ) (r : String) (hs : List (MsgHolder T)) → IsWell hs → IsWell (after_removal id r hs)
  unfolding erase_recipient drop_finished
  IsWell-after_removal id r [] w = tt
  IsWell-after_removal id r (h ∷ hs) w = ground (
    arith,
    IsWell-after_removal id r hs w.3,
    Other-after_removal id (id_of h.org_msg) r hs w.2,
    drop_finished-IsWell hs w.3,
    erase-Distinct String_discrete r h.recipients w.1,
  )

  -- removeRecipient takes the recipient off the message's outstanding recipients and off no other
  -- message's, answers whether it was among them, and keeps the list free of messages that all
  -- recipients have acknowledged.
  pub remove_recipient_lem :
      (s : ContinuousMsgSender T) (id j : ℕ) (r : String)
      → IsWell s.msg_list
      → let (s', removed) = remove_recipient id_of s id r in
        (removed ≡ contains String_discrete r (outstanding s.msg_list id))
        × (outstanding s'.msg_list j ≡ (
            if id == j
            then erase String_discrete r (outstanding s.msg_list j)
            else outstanding s.msg_list j))
        × IsWell s'.msg_list
  unfolding remove_recipient
  remove_recipient_lem s id j r w = (
    erase_recipient-flag id r s.msg_list,
    outstanding-after_removal id j r s.msg_list w,
    IsWell-after_removal id r s.msg_list w,
  )

  outstanding-append :
      (hs : List (MsgHolder T)) (h : MsgHolder T) (id : ℕ)
      → Other (id_of h.org_msg) hs
      → outstanding (hs ++ h ∷ []) id
        ≡ (if id == id_of h.org_msg then h.recipients else outstanding hs id)
  unfolding outstanding
  outstanding-append [] h id o = refl
  outstanding-append (g ∷ hs) h id o = ground (arith, outstanding-append hs h id o.1)

  Other-append :
      (hs : List (MsgHolder T)) (h : MsgHolder T) (id : ℕ)
      → Other id hs
      → (id == id_of h.org_msg) ≡ false
      → Other id (hs ++ h ∷ [])
  Other-append hs h id o n = All-append (λ h. (id == id_of h.org_msg) ≡ false) hs (h ∷ []) o (n, tt)

  IsWell-append :
      (hs : List (MsgHolder T)) (h : MsgHolder T)
      → IsWell hs
      → Other (id_of h.org_msg) hs
      → no_recipients h ≡ false
      → Distinct String_discrete h.recipients
      → IsWell (hs ++ h ∷ [])
  IsWell-append [] h w o f d = (f, d, tt, tt)
  IsWell-append (g ∷ hs) h w o f d = (
    w.0,
    w.1,
    Other-append hs h (id_of g.org_msg) w.2 (ground arith),
    IsWell-append hs h w.3 o.1 f d,
  )

  from_list-not_empty : (r : String) (rs : List String) → from_list String_discrete (r ∷ rs) ≢ []
  unfolding from_list insert
  from_list-not_empty r rs = go (from_list String_discrete rs)
    where
      go : (l : List String) → insert String_discrete r l ≢ []
      go [] e = cc
      go (x ∷ xs) e = ground arith

  -- A message of a new id that is queued waits for every recipient, as often as it is listed once, and
  -- the other messages wait as before.
  pub queue_msg_lem :
      (s : ContinuousMsgSender T) (m : T) (j : ℕ)
      → IsWell s.msg_list
      → Other (id_of m) s.msg_list
      → s.recipients ≢ []
      → let s' = queue_msg s m in
        (outstanding s'.msg_list j ≡ (
          if j == id_of m
          then from_list String_discrete s.recipients
          else outstanding s.msg_list j))
        × IsWell s'.msg_list
  unfolding queue_msg
  queue_msg_lem s m j w o n = (
    outstanding-append s.msg_list (new_holder m s.serializer s.recipients) j o,
    IsWell-append s.msg_list (new_holder m s.serializer s.recipients) w o (filled s.recipients n)
        (from_list-Distinct String_discrete s.recipients),
  )
    where
      filled : (l : List String) → l ≢ [] → no_recipients (new_holder m s.serializer l) ≡ false
      filled [] e = absurd (e refl)
      filled (r ∷ rs) e = ground (arith, from_list-not_empty r rs)

  erase-absent :
      (r : String) (rs : List String)
      → contains String_discrete r rs ≡ false
      → erase String_discrete r rs ≡ rs
  unfolding erase contains
  erase-absent r [] n = refl
  erase-absent r (x ∷ rs) n = ground (arith, erase-absent r rs)

  after_removal-absent :
      (id : ℕ) (r : String) (hs : List (MsgHolder T))
      → IsWell hs
      → contains String_discrete r (outstanding hs id) ≡ false
      → after_removal id r hs ≡ hs
  unfolding erase_recipient drop_finished outstanding
  after_removal-absent id r [] w n = refl
  after_removal-absent id r (h ∷ hs) w n = ground (
    arith,
    after_removal-absent id r hs w.3,
    drop_finished-IsWell hs w.3,
    erase-absent r h.recipients,
  )

  -- A second acknowledgement of the same recipient changes nothing.
  pub remove_recipient-absent :
      (s : ContinuousMsgSender T) (id : ℕ) (r : String)
      → IsWell s.msg_list
      → contains String_discrete r (outstanding s.msg_list id) ≡ false
      → remove_recipient id_of s id r ≡ (s, false)
  unfolding remove_recipient
  remove_recipient-absent s id r w n =
      rw (after_removal-absent id r s.msg_list w n, erase_recipient-flag id r s.msg_list, n)
