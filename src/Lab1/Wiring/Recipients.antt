-- ===== src/Lab1/Wiring/Recipients.antt =====
-- lab1/src/main.cpp: the map of the recipients.
use cs7610_f.Prelude.{
  ℕ, ◌+◌, ◌-◌, ◌≡◌, refl, arith, List, [], ◌∷◌, true, ◌↔◌, some, String, String_discrete, ok,
  lookup, assign, lookup-assign, ℕ_discrete, contains, All, All-map, ok_inv,
}
use cs7610_f.Hosts.{position_from, get_elem?-position_from, position_from-contains}
use cs7610_f.Lab1.Startup.{get_process_identifier, fill_mapping, make_recipient_id_map}

-- What get_process_identifier finds, by the position.
identifier_inv :
    (all : List String) (host : String) (id : ℕ)
    → get_process_identifier all host ≡ ok id
    → position_from 0 all host ≡ some (id - 1)
unfolding get_process_identifier
identifier_inv all host id e = ground arith

identifier_injective :
    (all : List String) (a b : String) (id : ℕ)
    → get_process_identifier all a ≡ ok id
    → get_process_identifier all b ≡ ok id
    → a ≡ b
identifier_injective all a b id e f = ground (
  arith,
  get_elem?-position_from 0 all a (id - 1) (identifier_inv all a id e),
  get_elem?-position_from 0 all b (id - 1) (identifier_inv all b id f),
)

fill_step :
    (all later : List String) (host : String) (mapping filled : List (ℕ × String))
    → fill_mapping all (host ∷ later) mapping ≡ ok filled
    → (id : ℕ) × (get_process_identifier all host ≡ ok id)
      × (fill_mapping all later (assign ℕ_discrete id host mapping) ≡ ok filled)
unfolding fill_mapping
fill_step all later host mapping filled e =
    ok_inv (get_process_identifier all host)
      (λ id. fill_mapping all later (assign ℕ_discrete id host mapping)) filled e

-- The entries of the map are hosts with their identifiers.
fill_sound :
    (all later : List String) (mapping filled : List (ℕ × String)) (id : ℕ) (host : String)
    → fill_mapping all later mapping ≡ ok filled
    → (lookup ℕ_discrete id mapping ≡ some host → get_process_identifier all host ≡ ok id)
    → lookup ℕ_discrete id filled ≡ some host
    → get_process_identifier all host ≡ ok id
unfolding fill_mapping
fill_sound all [] mapping filled id host e h l = h (ground arith)
fill_sound all (other ∷ later) mapping filled id host e h l =
    let (j, found, rest) = fill_step all later other mapping filled e in
    fill_sound all later (assign ℕ_discrete j other mapping) filled id host rest
      (λ k. ground (arith, lookup-assign ℕ_discrete j id other mapping, h)) l

fill_kept :
    (all later : List String) (mapping filled : List (ℕ × String)) (id : ℕ) (host : String)
    → fill_mapping all later mapping ≡ ok filled
    → get_process_identifier all host ≡ ok id
    → lookup ℕ_discrete id mapping ≡ some host
    → lookup ℕ_discrete id filled ≡ some host
unfolding fill_mapping
fill_kept all [] mapping filled id host e g l = ground arith
fill_kept all (other ∷ later) mapping filled id host e g l =
    let (j, found, rest) = fill_step all later other mapping filled e in
    fill_kept all later (assign ℕ_discrete j other mapping) filled id host rest g (
      ground (
        arith,
        lookup-assign ℕ_discrete j id other mapping,
        identifier_injective all other host id,
      ))

fill_complete :
    (all later : List String) (mapping filled : List (ℕ × String)) (id : ℕ) (host : String)
    → fill_mapping all later mapping ≡ ok filled
    → get_process_identifier all host ≡ ok id
    → contains String_discrete host later ≡ true
    → lookup ℕ_discrete id filled ≡ some host
unfolding contains
fill_complete all [] mapping filled id host e g c = ground arith
fill_complete all (other ∷ later) mapping filled id host e g c =
    let (j, found, rest) = fill_step all later other mapping filled e in
    elim (String_discrete other host) [
      | yes p ↦
          fill_kept all later (assign ℕ_discrete j other mapping) filled id host rest g
            (ground (arith, lookup-assign ℕ_discrete j id other mapping))
      | no p ↦
          fill_complete all later (assign ℕ_discrete j other mapping) filled id host rest g
            (ground arith)
    ]

position_found :
    (i j : ℕ) (hosts : List String) (host : String)
    → position_from i hosts host ≡ some j
    → contains String_discrete host hosts ≡ true
unfolding position_from contains
position_found i j [] host e = cc
position_found i j (h ∷ hosts) host e = ground (arith, position_found (i + 1) j hosts host)

identifier_total :
    (all : List String) (host : String)
    → contains String_discrete host all ≡ true
    → (id : ℕ) × (get_process_identifier all host ≡ ok id)
unfolding get_process_identifier
identifier_total all host c =
    let (j, found, below) = position_from-contains 0 all host c in (j + 1, rw found refl)

fill_total :
    (all later : List String) (mapping : List (ℕ × String))
    → All (λ host. contains String_discrete host all ≡ true) later
    → (filled : List (ℕ × String)) × (fill_mapping all later mapping ≡ ok filled)
unfolding fill_mapping
fill_total all [] mapping h = (mapping, refl)
fill_total all (host ∷ later) mapping h =
    let (id, found) = identifier_total all host h.0 in
    let (filled, e) = fill_total all later (assign ℕ_discrete id host mapping) h.1 in
    (filled, rw found e)

still_contained :
    (h : String) (all hosts : List String)
    → All (λ host. contains String_discrete host all ≡ true) hosts
    → All (λ host. contains String_discrete host (h ∷ all) ≡ true) hosts
unfolding contains
still_contained h all hosts =
    All-map (λ host. contains String_discrete host all ≡ true)
      (λ host. contains String_discrete host (h ∷ all) ≡ true) (λ host e. ground (arith, e)) hosts

all_contained : (all : List String) → All (λ host. contains String_discrete host all ≡ true) all
unfolding contains
all_contained [] = tt
all_contained (h ∷ all) = (ground arith, still_contained h all all (all_contained all))

-- The map of the recipients can always be built, and holds every host under its identifier, and nothing
-- else.
pub make_recipient_id_map_lem :
    (hostnames : List String) (host : String) (id : ℕ)
    → (mapping : List (ℕ × String)) × (make_recipient_id_map hostnames ≡ ok mapping)
      × ((get_process_identifier hostnames host ≡ ok id)
          ↔ (lookup ℕ_discrete id mapping ≡ some host))
unfolding make_recipient_id_map lookup
make_recipient_id_map_lem hostnames host id =
    let (mapping, e) = fill_total hostnames hostnames [] (all_contained hostnames) in
    (
      mapping,
      e,
      (
        λ g.
            fill_complete hostnames hostnames [] mapping id host e g
              (position_found 0 (id - 1) hostnames host (identifier_inv hostnames host id g)),
        fill_sound hostnames hostnames [] mapping id host e (λ l. absurd (nothing id host l)),
      ),
    )
  where
    nothing : (id : ℕ) (host : String) → lookup ℕ_discrete id [] ≡ some host → ⊥
    nothing id host l = ground arith
