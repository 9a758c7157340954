-- ===== src/Prelude/Members.antt =====
-- `All` read at a member, and what a sorted list owes to its members.
use mathlib.Core.Bool.{Bool, false}
use mathlib.Core.List.{
  List, [], ◌∷◌, Mem, Perm, mem-cons, not-mem-nil, mem-cons_self, mem-cons_of_mem,
}
use mathlib.Core.List.Perm
use mathlib.Core.Logic.Or
use mathlib.Core.Path.{◌≡◌, ap₂, sym}
use cs7610_f.Prelude.Lists.{All}
use cs7610_f.Prelude.Sort.{IsSorted}

pub Bool-eq_prop : (a b : Bool) → IsProp (a ≡ b)
Bool-eq_prop a b = hlevel

module _ {ℓ κ} {A : Type ℓ} (P : A → Type κ) (prop : (a : A) → IsProp (P a)) where
  pub All-mem : (xs : List A) (a : A) → All P xs → Mem a xs → P a
  All-mem [] a h m = absurd (not-mem-nil m)
  All-mem (x ∷ xs) a h m = Or.elim (prop a) (mem-cons.0 m) (λ e. rw e h.0) (All-mem xs a h.1)

module _ {ℓ κ} {A : Type ℓ} (P : A → Type κ) where
  pub All_of_mem : (xs : List A) → ((a : A) → Mem a xs → P a) → All P xs
  All_of_mem [] h = tt
  All_of_mem (x ∷ xs) h = (h x mem-cons_self, All_of_mem xs (λ a m. h a (mem-cons_of_mem x m)))

module _ {A : Type 0} (less : A → A → Bool) where
  -- Elements that the comparison does not tell apart are equal.
  abbrev pub Distinguishes : List A → Type 0
  Distinguishes xs = (x y : A) → Mem x xs → Mem y xs → less x y ≡ false → less y x ≡ false → x ≡ y

  head-le :
      (x y : A) (ys : List A)
      → IsSorted less (y ∷ ys)
      → less y y ≡ false
      → Mem x (y ∷ ys)
      → less x y ≡ false
  head-le x y ys s irr m =
      All-mem (λ z. less z y ≡ false) (λ z. Bool-eq_prop (less z y) false) (y ∷ ys) x (irr, s.0) m

  -- There is one way to sort a list whose elements the comparison tells apart.
  pub IsSorted-unique :
      ((x : A) → less x x ≡ false)
      → (xs ys : List A) → IsSorted less xs
      → IsSorted less ys
      → Perm xs ys
      → Distinguishes xs
      → xs ≡ ys
  IsSorted-unique irr [] ys sx sy p d = sym (Perm.eq-nil (Perm.symm p))
  IsSorted-unique irr (x ∷ xs) [] sx sy p d = Perm.eq-nil p
  IsSorted-unique irr (x ∷ xs) (y ∷ ys) sx sy p d = ap₂ ◌∷◌ heads (
      IsSorted-unique irr xs ys sx.1 sy.1 (Perm.cons_inv (rw heads at p))
        (λ a b ma mb. d a b (mem-cons_of_mem x ma) (mem-cons_of_mem x mb)))
    where
      y_in : Mem y (x ∷ xs)
      y_in = (Perm.mem_iff p).1 mem-cons_self

      heads : x ≡ y
      heads =
          d x y mem-cons_self y_in (head-le x y ys sy (irr y) ((Perm.mem_iff p).0 mem-cons_self))
            (head-le y x xs sx (irr x) y_in)
