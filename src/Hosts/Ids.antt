-- ===== src/Hosts/Ids.antt =====
-- Ids and hostnames determine one another, where no host is listed twice.
use cs7610_f.Prelude.{
  ℕ, suc, ◌+◌, ◌-◌, ◌≤◌, ◌<◌, ◌≡◌, refl, true, false, List, [], ◌∷◌, String, String_discrete, some,
  arith, ◌∙◌, if◌then◌else◌, contains, insert, contains-insert, Distinct, length, get_elem?,
}
use cs7610_f.Hosts.Defs.{unique_lines, position_from}

unique_lines-not_seen :
    (seen lines : List String) (host : String)
    → contains String_discrete host seen ≡ true
    → contains String_discrete host (unique_lines seen lines) ≡ false
unfolding unique_lines contains
unique_lines-not_seen seen [] host h = refl
unique_lines-not_seen seen (line ∷ lines) host h = ground (
  arith,
  unique_lines-not_seen seen lines host h,
  contains-insert String_discrete line host seen,
  unique_lines-not_seen (insert String_discrete line seen) lines host,
)

-- No host is listed twice.
pub unique_lines-Distinct :
    (seen lines : List String) → Distinct String_discrete (unique_lines seen lines)
unfolding unique_lines
unique_lines-Distinct seen [] = tt
unique_lines-Distinct seen (line ∷ lines) = ground (
  arith,
  unique_lines-Distinct seen lines,
  unique_lines-Distinct (insert String_discrete line seen) lines,
  contains-insert String_discrete line line seen,
  unique_lines-not_seen (insert String_discrete line seen) lines line,
)

-- And the hosts listed are those of the file.
pub contains-unique_lines :
    (seen lines : List String) (host : String)
    → contains String_discrete host (unique_lines seen lines)
      ≡ (if contains String_discrete host seen then false else contains String_discrete host lines)
unfolding unique_lines contains
contains-unique_lines seen [] host = ground arith
contains-unique_lines seen (line ∷ lines) host = ground (
  arith,
  contains-unique_lines seen lines host,
  contains-insert String_discrete line host seen,
  contains-unique_lines (insert String_discrete line seen) lines host,
)

position_from-le :
    (i : ℕ) (hosts : List String) (host : String) (j : ℕ)
    → position_from i hosts host ≡ some j
    → i ≤ j
unfolding position_from
position_from-le i [] host j e = cc
position_from-le i (h ∷ hosts) host j e = ground (arith, position_from-le (i + 1) hosts host j)

get_elem?_later :
    (h : String) (hosts : List String) (i j : ℕ)
    → i + 1 ≤ j
    → get_elem? (h ∷ hosts) (j - i) ≡ get_elem? hosts (j - (i + 1))
get_elem?_later h hosts i j l = let e : j - i ≡ suc (j - (i + 1)) = omega arith in rw e

-- The position that is found holds the host, and counts from i.
pub get_elem?-position_from :
    (i : ℕ) (hosts : List String) (host : String) (j : ℕ)
    → position_from i hosts host ≡ some j
    → get_elem? hosts (j - i) ≡ some host
unfolding position_from
get_elem?-position_from i [] host j e = cc
get_elem?-position_from i (h ∷ hosts) host j e = elim (String_discrete h host) [
  | yes p ↦
      let here : j ≡ i = ground arith in let zeroth : j - i ≡ 0 = omega arith in rw (zeroth, p)
  | no p ↦
      let found : position_from (i + 1) hosts host ≡ some j = ground arith in
      get_elem?_later h hosts i j (position_from-le (i + 1) hosts host j found)
      ∙ get_elem?-position_from (i + 1) hosts host j found
]

pub position_from-contains :
    (i : ℕ) (hosts : List String) (host : String)
    → contains String_discrete host hosts ≡ true
    → (j : ℕ) × (position_from i hosts host ≡ some j) × (j < i + length hosts)
unfolding position_from contains
position_from-contains i [] host e = cc
position_from-contains i (h ∷ hosts) host e = elim (String_discrete h host) [
  | yes p ↦ (i, ground arith, omega arith)
  | no p ↦
      let (j, found, below) = position_from-contains (i + 1) hosts host (ground arith) in
      (j, ground arith, omega arith)
]
