-- ===== src/Prelude/Keyed.antt =====
-- The standard sets and maps as lists in their iteration order, over keys whose equality is decided.
-- A new element goes to the end; the theorems about a component do not depend on where it goes.
use Prim.Native.Nat.{◌+◌, ◌≤◌}
use mathlib.Core.Bool.{Bool, true, false}
use mathlib.Core.List.{List, [], ◌∷◌, lookup}
use mathlib.Core.Logic.{ite, ◌≢◌}
use mathlib.Core.Option.{none, some}
use mathlib.Core.Path.{◌≡◌, refl}
use native.Mathlib.Omega.{arith}
use cs7610_f.Prelude.Lists.{length, All}

module _ {K : Type 0} (dec : Discrete K) where
  -- `find(k) != end()`
  unfoldable pub contains : K → List K → Bool
  contains k [] = false
  contains k (x ∷ xs) = ite (dec x k) true (contains k xs)

  unfoldable pub erase : K → List K → List K
  erase k [] = []
  erase k (x ∷ xs) = ite (dec x k) xs (x ∷ erase k xs)

  unfoldable pub insert : K → List K → List K
  insert k [] = k ∷ []
  insert k (x ∷ xs) = ite (dec x k) (x ∷ xs) (x ∷ insert k xs)

  -- A set built from a range.
  unfoldable pub from_list : List K → List K
  unfolding insert
  from_list [] = []
  from_list (x ∷ xs) = insert x (from_list xs)

  abbrev pub Distinct : List K → Type 0
  Distinct [] = Unit
  Distinct (x ∷ xs) = (contains x xs ≡ false) × Distinct xs

  contains_self : (k : K) (xs : List K) → contains k (k ∷ xs) ≡ true
  unfolding contains
  contains_self k xs = ground arith

  pub contains-insert :
      (k j : K) (xs : List K) → contains j (insert k xs) ≡ ite (dec k j) true (contains j xs)
  unfolding contains insert
  contains-insert k j [] = refl
  contains-insert k j (x ∷ xs) = ground (arith, contains-insert k j xs)

  pub contains-erase_ne : (k j : K) (xs : List K) → k ≢ j → contains j (erase k xs) ≡ contains j xs
  unfolding contains erase
  contains-erase_ne k j [] h = refl
  contains-erase_ne k j (x ∷ xs) h = ground (arith, contains-erase_ne k j xs h)

  contains-erase_self : (k : K) (xs : List K) → Distinct xs → contains k (erase k xs) ≡ false
  unfolding contains erase
  contains-erase_self k [] d = refl
  contains-erase_self k (x ∷ xs) d = ground (arith, contains-erase_self k xs d.1)

  -- In a set, erasing takes the element away and no other.
  pub contains-erase :
      (k j : K) (xs : List K)
      → Distinct xs
      → contains j (erase k xs) ≡ ite (dec k j) false (contains j xs)
  contains-erase k j xs d = elim (dec k j) [
    | yes p ↦ ground (arith, contains-erase_self k xs d)
    | no p ↦ ground (arith, contains-erase_ne k j xs p)
  ]

  contains-erase_of_absent :
      (k j : K) (xs : List K) → contains j xs ≡ false → contains j (erase k xs) ≡ false
  unfolding contains erase
  contains-erase_of_absent k j [] h = refl
  contains-erase_of_absent k j (x ∷ xs) h = ground (arith, contains-erase_of_absent k j xs)

  pub erase-Distinct : (k : K) (xs : List K) → Distinct xs → Distinct (erase k xs)
  unfolding erase
  erase-Distinct k [] d = tt
  erase-Distinct k (x ∷ xs) d =
      ground (arith, erase-Distinct k xs d.1, contains-erase_of_absent k x xs d.0)

  pub insert-Distinct : (k : K) (xs : List K) → Distinct xs → Distinct (insert k xs)
  unfolding insert contains
  insert-Distinct k [] d = (refl, tt)
  insert-Distinct k (x ∷ xs) d = ground (arith, insert-Distinct k xs d.1, contains-insert k x xs)

  pub from_list-Distinct : (xs : List K) → Distinct (from_list xs)
  unfolding from_list
  from_list-Distinct [] = tt
  from_list-Distinct (x ∷ xs) = insert-Distinct x (from_list xs) (from_list-Distinct xs)

  pub contains-from_list : (k : K) (xs : List K) → contains k (from_list xs) ≡ contains k xs
  unfolding from_list contains
  contains-from_list k [] = refl
  contains-from_list k (x ∷ xs) =
      ground (arith, contains-insert x k (from_list xs), contains-from_list k xs)

  pub All-insert {κ} : (P : K → Type κ) (k : K) (xs : List K) → P k → All P xs → All P (insert k xs)
  unfolding insert
  All-insert P k [] p h = (p, tt)
  All-insert P k (x ∷ xs) p h = elim (dec x k) as (λ d. All P (ite d (x ∷ xs) (x ∷ insert k xs))) [
    | yes e ↦ h
    | no e ↦ (h.0, All-insert P k xs p h.1)
  ]

  pub All-erase {κ} : (P : K → Type κ) (k : K) (xs : List K) → All P xs → All P (erase k xs)
  unfolding erase
  All-erase P k [] h = tt
  All-erase P k (x ∷ xs) h = elim (dec x k) as (λ d. All P (ite d xs (x ∷ erase k xs))) [
    | yes p ↦ h.1
    | no p ↦ (h.0, All-erase P k xs h.1)
  ]

module _ {K V : Type 0} (dec : Discrete K) where
  -- `m[k] = v`
  unfoldable pub assign : K → V → List (K × V) → List (K × V)
  assign k v [] = (k, v) ∷ []
  assign k v ((j, w) ∷ m) = ite (dec j k) ((j, v) ∷ m) ((j, w) ∷ assign k v m)

  -- `m.erase(k)`
  unfoldable pub remove : K → List (K × V) → List (K × V)
  remove k [] = []
  remove k ((j, w) ∷ m) = ite (dec j k) (remove k m) ((j, w) ∷ remove k m)

  -- `m.insert({k, v})`, which leaves a key that is there alone
  unfoldable pub insert_absent : K → V → List (K × V) → List (K × V)
  insert_absent k v [] = (k, v) ∷ []
  insert_absent k v ((j, w) ∷ m) = ite (dec j k) ((j, w) ∷ m) ((j, w) ∷ insert_absent k v m)

  pub lookup-assign :
      (k j : K) (v : V) (m : List (K × V))
      → lookup dec j (assign k v m) ≡ ite (dec k j) (some v) (lookup dec j m)
  unfolding assign lookup
  lookup-assign k j v [] = ground arith
  lookup-assign k j v ((i, w) ∷ m) = ground (arith, lookup-assign k j v m)

  pub lookup-remove :
      (k j : K) (m : List (K × V)) → lookup dec j (remove k m) ≡ ite (dec k j) none (lookup dec j m)
  unfolding remove lookup
  lookup-remove k j [] = ground arith
  lookup-remove k j ((i, w) ∷ m) = ground (arith, lookup-remove k j m)

  pub length-assign-le : (k : K) (v : V) (m : List (K × V)) → length (assign k v m) ≤ length m + 1
  unfolding assign
  length-assign-le k v [] = omega arith
  length-assign-le k v ((j, w) ∷ m) = ground (arith, length-assign-le k v m)
