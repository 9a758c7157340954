-- ===== src/Lab1/Multicast/Agreed.antt =====
-- createSeqMessage: the agreed sequence number is the largest proposal, and of equal ones that of the
-- smallest proposer, in whatever order the map yields the proposals.
use mathlib.Core.List.{Mem, mem-cons_self, mem-cons_of_mem}
use mathlib.Core.List.Perm
use cs7610_f.Prelude.{
  ℕ, ◌≤◌, ◌≡◌, refl, true, false, List, [], ◌∷◌, Perm, ok, arith, All, All-map, All-mem, Bool-cases,
  Bool-eq_prop, inl, inr, if◌then◌else◌,
}
use cs7610_f.Lab1.Message.{AckMessage, SeqMessage}
use cs7610_f.Lab1.Multicast.State.{proposal_less, max_from, create_seq_message}

abbrev Proposal : Type 0
Proposal = ℕ × ℕ

less_trans :
    (a b c : Proposal)
    → proposal_less a b ≡ false
    → proposal_less b c ≡ false
    → proposal_less a c ≡ false
unfolding proposal_less
less_trans a b c h k = ground arith

less_asym : (a b : Proposal) → proposal_less a b ≡ true → proposal_less b a ≡ false
unfolding proposal_less
less_asym a b h = ground arith

less_irrefl : (a : Proposal) → proposal_less a a ≡ false
unfolding proposal_less
less_irrefl a = ground arith

less_total : (a b : Proposal) → proposal_less a b ≡ false → proposal_less b a ≡ false → a ≡ b
unfolding proposal_less
less_total a b h k = ground arith

-- No proposal beats m.
abbrev IsMax : Proposal → List Proposal → Type 0
IsMax m = All λ p. proposal_less m p ≡ false

abbrev better : Proposal → Proposal → Proposal
better best p = if proposal_less best p then p else best

IsMax-better :
    (m best p : Proposal) (ps : List Proposal)
    → IsMax m (better best p ∷ ps)
    → IsMax m (best ∷ p ∷ ps)
IsMax-better m best p ps h = elim (Bool-cases (proposal_less best p)) [
  | inl e ↦
      let at_p : proposal_less m p ≡ false = ground (arith, h.0) in
      (less_trans m p best at_p (less_asym best p e), (at_p, h.1))
  | inr e ↦
      let at_best : proposal_less m best ≡ false = ground (arith, h.0) in
      (at_best, (less_trans m best p at_best e, h.1))
]

max_from-IsMax : (best : Proposal) (ps : List Proposal) → IsMax (max_from best ps) (best ∷ ps)
unfolding max_from
max_from-IsMax best [] = (less_irrefl best, tt)
max_from-IsMax best (p ∷ ps) =
    IsMax-better (max_from best (p ∷ ps)) best p ps (max_from-IsMax (better best p) ps)

max_from-Mem : (best : Proposal) (ps : List Proposal) → Mem (max_from best ps) (best ∷ ps)
unfolding max_from
max_from-Mem best [] = mem-cons_self
max_from-Mem best (p ∷ ps) = elim (Bool-cases (proposal_less best p)) [
  | inl e ↦ rw (e, max_from) (mem-cons_of_mem best (max_from-Mem p ps))
  | inr e ↦ rw (e, max_from) (skip (max_from best ps) (max_from-Mem best ps))
]
  where
    skip : (m : Proposal) → Mem m (best ∷ ps) → Mem m (best ∷ p ∷ ps)
    skip m h = (Perm.mem_iff (Perm.swap best p ps)).0 (mem-cons_of_mem p h)

-- What the protocol calls the agreed proposal.
pub record IsAgreed (ps : List Proposal) (seq_msg : SeqMessage) : Type 0 where
  pub proposed : Mem (seq_msg.final_seq_proposer, seq_msg.final_seq) ps
  pub largest : All (λ p. p.1 ≤ seq_msg.final_seq) ps
  pub smallest_proposer : All (λ p. p.1 ≡ seq_msg.final_seq → seq_msg.final_seq_proposer ≤ p.0) ps

-- The sequence message of at least one proposal carries a number that was proposed, by the process
-- that it names, none is larger, and no process with a smaller id proposed the same. It answers for
-- the message of the acknowledgement.
pub create_seq_message-IsAgreed :
    (ack_msg : AckMessage) (p : ℕ × ℕ) (ps : List (ℕ × ℕ))
    → (m : SeqMessage) × (create_seq_message ack_msg (p ∷ ps) ≡ ok m)
      × (m.sender ≡ ack_msg.sender)
      × (m.msg_id ≡ ack_msg.msg_id)
      × IsAgreed (p ∷ ps) m
unfolding create_seq_message
create_seq_message-IsAgreed ack_msg p ps = (
  _,
  refl,
  refl,
  refl,
  record {
    proposed = max_from-Mem p ps;
    largest =
        All-map (λ q. proposal_less best q ≡ false) (λ q. q.1 ≤ best.1) (below best) (p ∷ ps)
          (max_from-IsMax p ps);
    smallest_proposer =
        All-map (λ q. proposal_less best q ≡ false) (λ q. q.1 ≡ best.1 → best.0 ≤ q.0) (tie best)
          (p ∷ ps) (max_from-IsMax p ps);
  },
)
  where
    best : Proposal
    best = max_from p ps

    below : (m q : Proposal) → proposal_less m q ≡ false → q.1 ≤ m.1
    below m q h = unfold proposal_less in ground arith

    tie : (m q : Proposal) → proposal_less m q ≡ false → q.1 ≡ m.1 → m.0 ≤ q.0
    tie m q h e = unfold proposal_less in ground arith

max_of_perm :
    (p q : Proposal) (ps qs : List Proposal)
    → Perm (p ∷ ps) (q ∷ qs)
    → max_from p ps ≡ max_from q qs
max_of_perm p q ps qs perm =
    less_total (max_from p ps) (max_from q qs)
      (beats (max_from p ps) (p ∷ ps) (max_from q qs) (max_from-IsMax p ps)
        ((Perm.mem_iff perm).1 (max_from-Mem q qs)))
      (beats (max_from q qs) (q ∷ qs) (max_from p ps) (max_from-IsMax q qs)
        ((Perm.mem_iff perm).0 (max_from-Mem p ps)))
  where
    beats :
        (m : Proposal) (l : List Proposal) (a : Proposal)
        → IsMax m l
        → Mem a l
        → proposal_less m a ≡ false
    beats m l a h k =
        All-mem (λ p. proposal_less m p ≡ false) (λ p. Bool-eq_prop (proposal_less m p) false) l a h
          k

-- The order in which the unordered map yields the proposals does not matter.
pub create_seq_message-perm :
    (ack_msg : AckMessage) (ps qs : List (ℕ × ℕ))
    → Perm ps qs
    → create_seq_message ack_msg ps ≡ create_seq_message ack_msg qs
unfolding create_seq_message
create_seq_message-perm ack_msg [] [] perm = refl
create_seq_message-perm ack_msg [] (q ∷ qs) perm = absurd (cc (Perm.nil-eq perm))
create_seq_message-perm ack_msg (p ∷ ps) [] perm = absurd (cc (Perm.eq-nil perm))
create_seq_message-perm ack_msg (p ∷ ps) (q ∷ qs) perm = rw (max_of_perm p q ps qs perm)
