-- ===== src/Lab2/FailureDetector/Scan.antt =====
-- lab2/src/failure_detector.cpp: what one turn of the detector thread does to the count of a peer.
use cs7610_f.Prelude.{
  ℕ, zero, suc, ◌≤◌, ◌≡◌, ap, refl, ◌≢◌, ◌⊎◌, inl, inr, List, [], ◌∷◌, some, true, false, arith,
  ite, All, contains, Distinct, assign, ℕ_discrete,
}
use cs7610_f.Lab2.FailureDetector.Defs.{scan}

-- The map has no entry of p.
abbrev pub Absent : ℕ → List (ℕ × ℕ) → Type 0
Absent p m = All (λ entry. entry.0 ≢ p) m

-- It has one, whose count is at least c.
abbrev pub AtLeast : ℕ → ℕ → List (ℕ × ℕ) → Type 0
AtLeast p c [] = ⊥
AtLeast p c ((q, n) ∷ m) = ((q ≡ p) × (c ≤ n) × Absent p m) ⊎ ((q ≢ p) × AtLeast p c m)

-- It has one whose count is at most c.
abbrev pub AtMost : ℕ → ℕ → List (ℕ × ℕ) → Type 0
AtMost p c [] = ⊥
AtMost p c ((q, n) ∷ m) = ((q ≡ p) × (n ≤ c)) ⊎ AtMost p c m

abbrev pub keys : List (ℕ × ℕ) → List ℕ
keys [] = []
keys ((q, n) ∷ m) = q ∷ keys m

contains-keys-Absent :
    (p : ℕ) (m : List (ℕ × ℕ)) → contains ℕ_discrete p (keys m) ≡ false → Absent p m
unfolding contains
contains-keys-Absent p [] h = tt
contains-keys-Absent p ((q, n) ∷ m) h = ground (arith, contains-keys-Absent p m)

pub AtLeast-assign_self :
    (p c : ℕ) (m : List (ℕ × ℕ))
    → Distinct ℕ_discrete (keys m)
    → AtLeast p c (assign ℕ_discrete p c m)
unfolding assign
AtLeast-assign_self p c [] d = inl (refl, omega arith, tt)
AtLeast-assign_self p c ((q, n) ∷ m) d =
    elim (ℕ_discrete q p)
      as (λ t. AtLeast p c (ite t ((q, c) ∷ m) ((q, n) ∷ assign ℕ_discrete p c m))) [
        | yes e ↦ inl (e, omega arith, contains-keys-Absent p m (ground arith))
        | no e ↦ inr (e, AtLeast-assign_self p c m d.1)
      ]

pub Absent-assign :
    (p q c : ℕ) (m : List (ℕ × ℕ)) → q ≢ p → Absent p m → Absent p (assign ℕ_discrete q c m)
unfolding assign
Absent-assign p q c [] h a = (h, tt)
Absent-assign p q c ((r, n) ∷ m) h a =
    elim (ℕ_discrete r q)
      as (λ t. Absent p (ite t ((r, c) ∷ m) ((r, n) ∷ assign ℕ_discrete q c m))) [
        | yes e ↦ a
        | no e ↦ (a.0, Absent-assign p q c m h a.1)
      ]

pub AtLeast-assign :
    (p c q d : ℕ) (m : List (ℕ × ℕ)) → q ≢ p → AtLeast p c m → AtLeast p c (assign ℕ_discrete q d m)
unfolding assign
AtLeast-assign p c q d [] h t = absurd t
AtLeast-assign p c q d ((r, n) ∷ m) h t =
    elim (ℕ_discrete r q)
      as (λ e. AtLeast p c (ite e ((r, d) ∷ m) ((r, n) ∷ assign ℕ_discrete q d m))) [
        | yes e ↦ elim t [ inl (e', le, rest) ↦ ground arith | inr (e', a) ↦ inr (e', a) ]
        | no e ↦ elim t [
          | inl (e', le, absent) ↦ inl (e', le, Absent-assign p q d m h absent)
          | inr (e', a) ↦ inr (e', AtLeast-assign p c q d m h a)
        ]
      ]

pub AtMost-assign :
    (p c q d : ℕ) (m : List (ℕ × ℕ)) → q ≢ p → AtMost p c m → AtMost p c (assign ℕ_discrete q d m)
unfolding assign
AtMost-assign p c q d [] h t = absurd t
AtMost-assign p c q d ((r, n) ∷ m) h t =
    elim (ℕ_discrete r q)
      as (λ e. AtMost p c (ite e ((r, d) ∷ m) ((r, n) ∷ assign ℕ_discrete q d m))) [
        | yes e ↦ elim t [ inl (e', rest) ↦ ground arith | inr a ↦ inr a ]
        | no e ↦ elim t [ inl (e', le) ↦ inl (e', le) | inr a ↦ inr (AtMost-assign p c q d m h a) ]
      ]

pub Absent-scan :
    (p : ℕ) (m : List (ℕ × ℕ)) → Absent p m → Absent p (scan m).0 × ((scan m).1 ≢ some p)
unfolding scan
Absent-scan p [] a = (tt, λ e. ground arith)
Absent-scan p ((q, zero) ∷ m) a = (a.1, λ e. ground arith)
Absent-scan p ((q, suc n) ∷ m) a = let (rest, other) = Absent-scan p m a.1 in ((a.0, rest), other)

AtLeast-weaken : (p c : ℕ) (m : List (ℕ × ℕ)) → AtLeast p (suc c) m → AtLeast p c m
AtLeast-weaken p c [] t = t
AtLeast-weaken p c ((q, n) ∷ m) (inl (e, le, a)) = inl (e, omega arith, a)
AtLeast-weaken p c ((q, n) ∷ m) (inr (e, a)) = inr (e, AtLeast-weaken p c m a)

-- A peer whose count is not 0 is not reported, and loses at most one.
pub AtLeast-scan :
    (p c : ℕ) (m : List (ℕ × ℕ))
    → AtLeast p (suc c) m
    → AtLeast p c (scan m).0 × ((scan m).1 ≢ some p)
unfolding scan
AtLeast-scan p c [] t = absurd t
AtLeast-scan p c ((q, zero) ∷ m) (inl (e, le, a)) = absurd (omega arith)
AtLeast-scan p c ((q, suc n) ∷ m) (inl (e, le, a)) =
    let (rest, other) = Absent-scan p m a in (inl (e, omega arith, rest), other)
AtLeast-scan p c ((q, zero) ∷ m) (inr (e, a)) = (AtLeast-weaken p c m a, λ e'. ground arith)
AtLeast-scan p c ((q, suc n) ∷ m) (inr (e, a)) =
    let (rest, other) = AtLeast-scan p c m a in (inr (e, rest), other)

-- A peer is reported, or loses one, or another peer is reported.
pub AtMost-scan :
    (p c : ℕ) (m : List (ℕ × ℕ))
    → AtMost p c m
    → ((scan m).1 ≡ some p)
      ⊎ ((d : ℕ) × (c ≡ suc d) × AtMost p d (scan m).0)
      ⊎ ((q : ℕ) × ((scan m).1 ≡ some q) × AtMost p c (scan m).0)
unfolding scan
AtMost-scan p c [] t = absurd t
AtMost-scan p c ((q, zero) ∷ m) (inl (e, le)) = inl (ap some e)
AtMost-scan p zero ((q, suc n) ∷ m) (inl (e, le)) = absurd (omega arith)
AtMost-scan p (suc d) ((q, suc n) ∷ m) (inl (e, le)) = inr (inl (d, refl, inl (e, omega arith)))
AtMost-scan p c ((q, zero) ∷ m) (inr a) = inr (inr (q, refl, a))
AtMost-scan p c ((q, suc n) ∷ m) (inr a) = elim (AtMost-scan p c m a) [
  | inl e ↦ inl e
  | inr (inl (d, e, b)) ↦ inr (inl (d, e, inr b))
  | inr (inr (r, e, b)) ↦ inr (inr (r, e, inr b))
]

contains-keys-assign :
    (j p c : ℕ) (m : List (ℕ × ℕ))
    → contains ℕ_discrete j (keys (assign ℕ_discrete p c m))
      ≡ ite (ℕ_discrete p j) true (contains ℕ_discrete j (keys m))
unfolding contains assign
contains-keys-assign j p c [] = refl
contains-keys-assign j p c ((q, n) ∷ m) = ground (arith, contains-keys-assign j p c m)

pub keys-assign-Distinct :
    (p c : ℕ) (m : List (ℕ × ℕ))
    → Distinct ℕ_discrete (keys m)
    → Distinct ℕ_discrete (keys (assign ℕ_discrete p c m))
unfolding assign contains
keys-assign-Distinct p c [] d = (refl, tt)
keys-assign-Distinct p c ((q, n) ∷ m) d =
    ground (arith, keys-assign-Distinct p c m d.1, contains-keys-assign q p c m)

contains-keys-scan :
    (j : ℕ) (m : List (ℕ × ℕ))
    → contains ℕ_discrete j (keys m) ≡ false
    → contains ℕ_discrete j (keys (scan m).0) ≡ false
unfolding contains scan
contains-keys-scan j [] h = refl
contains-keys-scan j ((q, zero) ∷ m) h = ground arith
contains-keys-scan j ((q, suc n) ∷ m) h = ground (arith, contains-keys-scan j m)

pub keys-scan-Distinct :
    (m : List (ℕ × ℕ)) → Distinct ℕ_discrete (keys m) → Distinct ℕ_discrete (keys (scan m).0)
unfolding scan
keys-scan-Distinct [] d = tt
keys-scan-Distinct ((q, zero) ∷ m) d = d.1
keys-scan-Distinct ((q, suc n) ∷ m) d = (contains-keys-scan q m d.0, keys-scan-Distinct m d.1)
