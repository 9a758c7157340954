-- ===== src/Prelude/OrderedSet.antt =====
-- std::set<uint32_t> as the list of its elements in iteration order, which ascends.
use Prim.Native.Nat.{ℕ, ◌<◌}
use mathlib.Core.Path.{◌≡◌, refl}
use mathlib.Core.Bool.{true, false}
use mathlib.Core.List.{List, [], ◌∷◌}
use native.Mathlib.Omega.{arith}
use native.Mathlib.Decide.{ℕ_discrete}
use cs7610_f.Prelude.Tests.{ltb, ◌==◌, if◌then◌else◌}
use cs7610_f.Prelude.Lists.{All, All-map}
use cs7610_f.Prelude.Keyed.{contains}

unfoldable pub set_insert : ℕ → List ℕ → List ℕ
set_insert k [] = k ∷ []
set_insert k (x ∷ xs) =
    let rest = set_insert k xs in
    if ltb k x then k ∷ x ∷ xs else if k == x then x ∷ xs else x ∷ rest

unfoldable pub set_erase : ℕ → List ℕ → List ℕ
set_erase k [] = []
set_erase k (x ∷ xs) = let rest = set_erase k xs in if k == x then xs else x ∷ rest

-- The elements of a range, inserted one after the other.
unfoldable pub set_insert_all : List ℕ → List ℕ → List ℕ
unfolding set_insert
set_insert_all [] s = s
set_insert_all (x ∷ xs) s = set_insert_all xs (set_insert x s)

abbrev pub Ascending : List ℕ → Type 0
Ascending [] = Unit
Ascending (x ∷ xs) = All (λ y. x < y) xs × Ascending xs

pub All-set_insert :
    (P : ℕ → Type 0) (k : ℕ) (xs : List ℕ) → P k → All P xs → All P (set_insert k xs)
unfolding set_insert
All-set_insert P k [] p h = (p, tt)
All-set_insert P k (x ∷ xs) p h = ground (arith, All-set_insert P k xs p h.1)

above : (k x : ℕ) (xs : List ℕ) → k < x → All (λ y. x < y) xs → All (λ y. k < y) xs
above k x xs l h = All-map (λ y. x < y) (λ y. k < y) (λ y m. omega arith) xs h

pub set_insert-Ascending : (k : ℕ) (xs : List ℕ) → Ascending xs → Ascending (set_insert k xs)
unfolding set_insert
set_insert-Ascending k [] a = (tt, tt)
set_insert-Ascending k (x ∷ xs) a =
    ground (arith, set_insert-Ascending k xs a.1, above k x xs, All-set_insert (λ y. x < y) k xs)

All-set_erase : (P : ℕ → Type 0) (k : ℕ) (xs : List ℕ) → All P xs → All P (set_erase k xs)
unfolding set_erase
All-set_erase P k [] h = tt
All-set_erase P k (x ∷ xs) h = ground (arith, All-set_erase P k xs h.1)

pub set_erase-Ascending : (k : ℕ) (xs : List ℕ) → Ascending xs → Ascending (set_erase k xs)
unfolding set_erase
set_erase-Ascending k [] a = tt
set_erase-Ascending k (x ∷ xs) a =
    ground (arith, set_erase-Ascending k xs a.1, All-set_erase (λ y. x < y) k xs)

pub set_insert_all-Ascending : (ys xs : List ℕ) → Ascending xs → Ascending (set_insert_all ys xs)
unfolding set_insert_all
set_insert_all-Ascending [] xs a = a
set_insert_all-Ascending (y ∷ ys) xs a =
    set_insert_all-Ascending ys (set_insert y xs) (set_insert-Ascending y xs a)

pub contains-set_insert :
    (k j : ℕ) (xs : List ℕ)
    → contains ℕ_discrete j (set_insert k xs) ≡ (if k == j then true else contains ℕ_discrete j xs)
unfolding set_insert contains
contains-set_insert k j [] = ground arith
contains-set_insert k j (x ∷ xs) = ground (arith, contains-set_insert k j xs)

pub contains-set_insert_all :
    (j : ℕ) (ys xs : List ℕ)
    → contains ℕ_discrete j (set_insert_all ys xs)
      ≡ (if contains ℕ_discrete j ys then true else contains ℕ_discrete j xs)
unfolding set_insert_all contains
contains-set_insert_all j [] xs = refl
contains-set_insert_all j (y ∷ ys) xs =
    ground (arith, contains-set_insert_all j ys (set_insert y xs), contains-set_insert y j xs)

pub above-contains : (k : ℕ) (xs : List ℕ) → All (λ y. k < y) xs → contains ℕ_discrete k xs ≡ false
unfolding contains
above-contains k [] h = refl
above-contains k (x ∷ xs) h = ground (arith, above-contains k xs h.1)

pub contains-set_erase :
    (k j : ℕ) (xs : List ℕ)
    → Ascending xs
    → contains ℕ_discrete j (set_erase k xs) ≡ (if k == j then false else contains ℕ_discrete j xs)
unfolding set_erase contains
contains-set_erase k j [] a = ground arith
contains-set_erase k j (x ∷ xs) a =
    ground (arith, contains-set_erase k j xs a.1, above-contains x xs a.0)

pub All-set_insert_all :
    (P : ℕ → Type 0) (ys xs : List ℕ) → All P ys → All P xs → All P (set_insert_all ys xs)
unfolding set_insert_all
All-set_insert_all P [] xs h k = k
All-set_insert_all P (y ∷ ys) xs h k =
    All-set_insert_all P ys (set_insert y xs) h.1 (All-set_insert P y xs h.0 k)

-- Two sets with the same elements are the same list.
pub Ascending-unique :
    (xs ys : List ℕ)
    → Ascending xs
    → Ascending ys
    → ((k : ℕ) → contains ℕ_discrete k xs ≡ contains ℕ_discrete k ys)
    → xs ≡ ys
unfolding contains
Ascending-unique [] [] a b h = refl
Ascending-unique [] (y ∷ ys) a b h = ground (arith, h y)
Ascending-unique (x ∷ xs) [] a b h = ground (arith, h x)
Ascending-unique (x ∷ xs) (y ∷ ys) a b h =
    let below_x : (k : ℕ) → k < x → All (λ z. k < z) xs = λ k l. above k x xs l a.0 in
    let below_y : (k : ℕ) → k < y → All (λ z. k < z) ys = λ k l. above k y ys l b.0 in
    let same : x ≡ y =
      ground (arith, h x, h y, above-contains x ys, above-contains y xs, below_x y, below_y x) in
    let rest : xs ≡ ys =
      Ascending-unique xs ys a.1 b.1
        (λ k. ground (arith, h k, above-contains x xs a.0, above-contains y ys b.0)) in
    cc
