-- ===== src/Prelude/Sort.antt =====
-- std::sort over a comparison, as an insertion sort: the standard fixes the result up to the order
-- of elements that the comparison does not tell apart, and the lemmas hold for any such order.
use mathlib.Core.Bool.{Bool, true, false}
use mathlib.Core.List.{List, [], ◌∷◌, ◌++◌, Perm}
use mathlib.Core.List.Perm
use mathlib.Core.Path.{◌≡◌}
use cs7610_f.Prelude.Tests.{if◌then◌else◌, Bool-cases}
use cs7610_f.Prelude.Lists.{All, All-map, All-append_left, All-append_right}
use mathlib.Core.Logic.{inl, inr}

-- What std::sort and std::max_element ask of a comparison.
pub record IsStrictWeakOrder {A : Type 0} (less : A → A → Bool) : Type 0 where
  pub irreflexive : (x : A) → less x x ≡ false
  pub transitive : (x y z : A) → less x y ≡ true → less y z ≡ true → less x z ≡ true
  pub negatively_transitive : (x y z : A) → less x y ≡ false → less y z ≡ false → less x z ≡ false

module _ {A : Type 0} (less : A → A → Bool) where
  unfoldable pub sort_insert : A → List A → List A
  sort_insert x [] = x ∷ []
  sort_insert x (y ∷ ys) = if less y x then y ∷ sort_insert x ys else x ∷ y ∷ ys

  unfoldable pub sort : List A → List A
  unfolding sort_insert
  sort [] = []
  sort (x ∷ xs) = sort_insert x (sort xs)

  -- No element is less than one before it.
  abbrev pub IsSorted : List A → Type 0
  IsSorted [] = Unit
  IsSorted (x ∷ xs) = All (λ y. less y x ≡ false) xs × IsSorted xs

  All-sort_insert {κ} :
      (P : A → Type κ) (x : A) (xs : List A) → P x → All P xs → All P (sort_insert x xs)
  unfolding sort_insert
  All-sort_insert P x [] h hs = (h, tt)
  All-sort_insert P x (y ∷ ys) h hs =
      elim (less y x) as (λ b. All P (if b then y ∷ sort_insert x ys else x ∷ y ∷ ys)) [
        | true ↦ (hs.0, All-sort_insert P x ys h hs.1)
        | false ↦ (h, hs)
      ]

  pub All-sort {κ} : (P : A → Type κ) (xs : List A) → All P xs → All P (sort xs)
  unfolding sort
  All-sort P [] h = tt
  All-sort P (x ∷ xs) h = All-sort_insert P x (sort xs) h.0 (All-sort P xs h.1)

  sort_insert-perm : (x : A) (xs : List A) → Perm (sort_insert x xs) (x ∷ xs)
  unfolding sort_insert
  sort_insert-perm x [] = Perm.refl _
  sort_insert-perm x (y ∷ ys) = elim (Bool-cases (less y x)) [
    | inl e ↦
        rw (e, sort_insert) (Perm.trans (Perm.cons y (sort_insert-perm x ys)) (Perm.swap x y ys))
    | inr e ↦ rw (e, sort_insert) (Perm.refl _)
  ]

  pub sort-perm : (xs : List A) → Perm (sort xs) xs
  unfolding sort
  sort-perm [] = Perm.nil
  sort-perm (x ∷ xs) = Perm.trans (sort_insert-perm x (sort xs)) (Perm.cons x (sort-perm xs))

  module _ (order : IsStrictWeakOrder less) where
    less_asym : (x y : A) → less x y ≡ true → less y x ≡ false
    less_asym x y h = elim (Bool-cases (less y x)) [
      | inl e ↦ cc (order.transitive x y x h e, order.irreflexive x)
      | inr e ↦ e
    ]

    sort_insert-IsSorted : (x : A) (xs : List A) → IsSorted xs → IsSorted (sort_insert x xs)
    unfolding sort_insert
    sort_insert-IsSorted x [] h = (tt, tt)
    sort_insert-IsSorted x (y ∷ ys) h = elim (Bool-cases (less y x)) [
      | inl e ↦
          rw (e, sort_insert)
            (
              All-sort_insert (λ z. less z y ≡ false) x ys (less_asym y x e) h.0,
              sort_insert-IsSorted x ys h.1,
            )
      | inr e ↦
          rw (e, sort_insert)
            (
              (
                e,
                All-map (λ z. less z y ≡ false) (λ z. less z x ≡ false)
                    (λ z q. order.negatively_transitive z y x q e) ys h.0,
              ),
              h,
            )
    ]

    pub sort-IsSorted : (xs : List A) → IsSorted (sort xs)
    unfolding sort
    sort-IsSorted [] = tt
    sort-IsSorted (x ∷ xs) = sort_insert-IsSorted x (sort xs) (sort-IsSorted xs)

  pub IsSorted-append_left : (xs ys : List A) → IsSorted (xs ++ ys) → IsSorted xs
  IsSorted-append_left [] ys h = tt
  IsSorted-append_left (x ∷ xs) ys h =
      (All-append_left (λ y. less y x ≡ false) xs ys h.0, IsSorted-append_left xs ys h.1)

  -- Every element of the first part is at or below every element of the second.
  pub IsSorted-append_across :
      (xs ys : List A) → IsSorted (xs ++ ys) → All (λ x. All (λ y. less y x ≡ false) ys) xs
  IsSorted-append_across [] ys h = tt
  IsSorted-append_across (x ∷ xs) ys h =
      (All-append_right (λ y. less y x ≡ false) xs ys h.0, IsSorted-append_across xs ys h.1)

  pub IsSorted-append :
      (xs ys : List A)
      → IsSorted xs
      → IsSorted ys
      → All (λ x. All (λ y. less y x ≡ false) ys) xs
      → IsSorted (xs ++ ys)
  IsSorted-append [] ys hx hy h = hy
  IsSorted-append (x ∷ xs) ys hx hy h =
      (All-both x xs ys hx.0 h.0, IsSorted-append xs ys hx.1 hy h.1)
    where
      All-both :
          (x : A) (xs ys : List A)
          → All (λ y. less y x ≡ false) xs
          → All (λ y. less y x ≡ false) ys
          → All (λ y. less y x ≡ false) (xs ++ ys)
      All-both x [] ys hx hy = hy
      All-both x (z ∷ zs) ys hx hy = (hx.0, All-both x zs ys hx.1 hy)
