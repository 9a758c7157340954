-- ===== src/Lab1/Sender/Waiting.antt =====
-- ContinuousMsgSender<T> of lab1/src/part1/multicast.cpp: a listed message that waits for a recipient, and
-- what a round sends of it.
use cs7610_f.Prelude.{
  ℕ, ◌≡◌, ◌≢◌, sym, ap, ◌∙◌, subst, true, false, List, [], ◌∷◌, ◌++◌, map, inl, inr, arith, String,
  String_discrete, ◌==◌, contains, contains-erase_ne, erase, Bool-cases, ◌⊎◌,
}
use cs7610_f.Lab1.Sender.Defs.{Packet, MsgHolder, erase_recipient, no_recipients, drop_finished}
use cs7610_f.Lab1.Sender.Rounds.{packets_of}

-- The bytes are among what is sent to the recipient.
abbrev pub Goes : String → List ℕ → List Packet → Type 0
Goes r bytes [] = ⊥
Goes r bytes (packet ∷ packets) = (packet ≡ (r, bytes)) ⊎ Goes r bytes packets

Goes-append_left :
    (r : String) (bytes : List ℕ) (xs ys : List Packet) → Goes r bytes xs → Goes r bytes (xs ++ ys)
Goes-append_left r bytes [] ys g = absurd g
Goes-append_left r bytes (x ∷ xs) ys (inl e) = inl e
Goes-append_left r bytes (x ∷ xs) ys (inr g) = inr (Goes-append_left r bytes xs ys g)

Goes-append_right :
    (r : String) (bytes : List ℕ) (xs ys : List Packet) → Goes r bytes ys → Goes r bytes (xs ++ ys)
Goes-append_right r bytes [] ys g = g
Goes-append_right r bytes (x ∷ xs) ys g = inr (Goes-append_right r bytes xs ys g)

Goes-map :
    (r : String) (bytes : List ℕ) (rs : List String)
    → contains String_discrete r rs ≡ true
    → Goes r bytes (map {B = Packet} (λ r. (r, bytes)) rs)
unfolding contains
Goes-map r bytes [] c = ground arith
Goes-map r bytes (x ∷ rs) c = elim (String_discrete x r) [
  | yes e ↦ inl (ap (λ r. (r, bytes)) e)
  | no n ↦ inr (Goes-map r bytes rs (ground arith))
]

module _ {T : Type 0} (id_of : T → ℕ) where
  -- A message of that id and those bytes is listed, and waits for the recipient.
  abbrev pub Waits : ℕ → String → List ℕ → List (MsgHolder T) → Type 0
  Waits id r bytes [] = ⊥
  Waits id r bytes (h ∷ hs) =
      ((id_of h.org_msg ≡ id)
        × (h.serialized_msg ≡ bytes)
        × (contains String_discrete r h.recipients ≡ true))
      ⊎ Waits id r bytes hs

  pub Waits-append :
      (id : ℕ) (r : String) (bytes : List ℕ) (hs gs : List (MsgHolder T))
      → Waits id r bytes hs
      → Waits id r bytes (hs ++ gs)
  Waits-append id r bytes [] gs w = absurd w
  Waits-append id r bytes (h ∷ hs) gs (inl here) = inl here
  Waits-append id r bytes (h ∷ hs) gs (inr w) = inr (Waits-append id r bytes hs gs w)

  pub Waits-last :
      (id : ℕ) (r : String) (bytes : List ℕ) (hs gs : List (MsgHolder T))
      → Waits id r bytes gs
      → Waits id r bytes (hs ++ gs)
  Waits-last id r bytes [] gs w = w
  Waits-last id r bytes (h ∷ hs) gs w = inr (Waits-last id r bytes hs gs w)

  -- The recipient of the message itself is not taken off.
  kept :
      (id : ℕ) (r : String) (other : ℕ) (recipient : String) (h : MsgHolder T)
      → (other ≢ id) ⊎ (recipient ≢ r)
      → (other == id_of h.org_msg) ≡ true
      → id_of h.org_msg ≡ id
      → contains String_discrete r h.recipients ≡ true
      → contains String_discrete r (erase String_discrete recipient h.recipients) ≡ true
  kept id r other recipient h (inl n) e i c = ground arith
  kept id r other recipient h (inr n) e i c =
      contains-erase_ne String_discrete recipient r h.recipients n ∙ c

  erased :
      (id : ℕ) (r : String) (bytes : List ℕ) (other : ℕ) (recipient : String) (h : MsgHolder T)
      (hs : List (MsgHolder T))
      → (other ≢ id) ⊎ (recipient ≢ r)
      → (other == id_of h.org_msg) ≡ true
      → Waits id r bytes (h ∷ hs)
      → Waits id r bytes
          (record h { recipients = erase String_discrete recipient h.recipients } ∷ hs)
  erased id r bytes other recipient h hs n e (inl (i, b, c)) =
      inl (i, b, kept id r other recipient h n e i c)
  erased id r bytes other recipient h hs n e (inr w) = inr w

  passed :
      (id : ℕ) (r : String) (bytes : List ℕ) (h : MsgHolder T) (hs hs' : List (MsgHolder T))
      → (Waits id r bytes hs → Waits id r bytes hs')
      → Waits id r bytes (h ∷ hs)
      → Waits id r bytes (h ∷ hs')
  passed id r bytes h hs hs' f (inl here) = inl here
  passed id r bytes h hs hs' f (inr w) = inr (f w)

  pub Waits-erase_recipient :
      (id : ℕ) (r : String) (bytes : List ℕ) (other : ℕ) (recipient : String)
      (hs : List (MsgHolder T))
      → (other ≢ id) ⊎ (recipient ≢ r)
      → Waits id r bytes hs
      → Waits id r bytes (erase_recipient id_of other recipient hs).0
  unfolding erase_recipient
  Waits-erase_recipient id r bytes other recipient [] n w = absurd w
  Waits-erase_recipient id r bytes other recipient (h ∷ hs) n w =
      elim (Bool-cases (other == id_of h.org_msg)) [
        | inl e ↦ rw (e, erase_recipient) (erased id r bytes other recipient h hs n e w)
        | inr e ↦
            rw (e, erase_recipient)
              (passed id r bytes h hs (erase_recipient id_of other recipient hs).0
                (Waits-erase_recipient id r bytes other recipient hs n) w)
      ]

  has_recipient :
      (r : String) (h : MsgHolder T)
      → contains String_discrete r h.recipients ≡ true
      → no_recipients h ≡ false
  unfolding contains
  has_recipient r h c = ground arith

  pub Waits-drop_finished :
      (id : ℕ) (r : String) (bytes : List ℕ) (hs : List (MsgHolder T))
      → Waits id r bytes hs
      → Waits id r bytes (drop_finished hs)
  unfolding drop_finished
  Waits-drop_finished id r bytes [] w = w
  Waits-drop_finished id r bytes (h ∷ hs) (inl (i, b, c)) =
      rw (has_recipient r h c, drop_finished) (inl (i, b, c))
  Waits-drop_finished id r bytes (h ∷ hs) (inr w) = elim (Bool-cases (no_recipients h)) [
    | inl e ↦ rw (e, drop_finished) w
    | inr e ↦ rw (e, drop_finished) (inr (Waits-drop_finished id r bytes hs w))
  ]

  pub Waits-Goes :
      (id : ℕ) (r : String) (bytes : List ℕ) (hs : List (MsgHolder T))
      → Waits id r bytes hs
      → Goes r bytes (packets_of hs)
  unfolding packets_of
  Waits-Goes id r bytes [] w = absurd w
  Waits-Goes id r bytes (h ∷ hs) (inl (i, b, c)) =
      Goes-append_left r bytes (map (λ r. (r, h.serialized_msg)) h.recipients) (packets_of hs) (
        subst (λ bytes'. Goes r bytes (map {B = Packet} (λ r. (r, bytes')) h.recipients)) (sym b)
          (Goes-map r bytes h.recipients c))
  Waits-Goes id r bytes (h ∷ hs) (inr w) =
      Goes-append_right r bytes (map (λ r. (r, h.serialized_msg)) h.recipients) (packets_of hs)
        (Waits-Goes id r bytes hs w)
