-- ===== src/Program.antt =====
-- Statements of lab0, of the sockets and of lab2/src/membership.cpp: state that survives an exception.
use cs7610_f.Prelude.{◌≡◌, refl, ap, arith, Bool, true, false, Result, ok, throws, Error, transport}

abbrev pub Program : Type 0 → Type 0 → Type 0
Program S A = S → Result A × S

infixl 5 ◌>>=◌ ◌>>◌
abbrev pub ◌>>=◌ : {S A B : Type 0} → Program S A → (A → Program S B) → Program S B
(call >>= continue) s =
    let (result, s') = call s in
    elim result [ ok value ↦ continue value s' | throws error ↦ (throws error, s') ]

abbrev pub ◌>>◌ : {S B : Type 0} → Program S (Unit {0}) → Program S B → Program S B
call >> then_call = call >>= λ _. then_call

abbrev pub pure : {S A : Type 0} → A → Program S A
pure value s = (ok value, s)

abbrev pub fail : {S A : Type 0} → Error → Program S A
fail error s = (throws error, s)

-- A call that changes no state.
abbrev pub lift : {S A : Type 0} → Result A → Program S A
lift result s = (result, s)

abbrev pub get : {S : Type 0} → Program S S
get s = (ok s, s)

abbrev pub modify : {S : Type 0} → (S → S) → Program S (Unit {0})
modify f s = (ok tt, f s)

abbrev pub when : {S : Type 0} → Bool → Program S (Unit {0}) → Program S (Unit {0})
when true p = p
when false p = pure tt

-- catch (const std::runtime_error &)
abbrev pub catch : {S A : Type 0} → Program S A → Program S A → Program S A
catch body handler s =
    let (result, s') = body s in
    elim result [
      | ok value ↦ (ok value, s')
      | throws transport ↦ handler s'
      | throws error ↦ (throws error, s')
    ]

-- What a call returns goes to what follows it.
pub bind_ok :
    {S A B : Type 0} (call : Program S A) (continue : A → Program S B) (s s' : S) (a : A)
    → call s ≡ (ok a, s')
    → (call >>= continue) s ≡ continue a s'
bind_ok call continue s s' a e =
    ap (λ r. elim r.0 [ ok value ↦ continue value r.1 | throws error ↦ (throws error, r.1) ]) e

-- What a call throws, the whole throws.
pub bind_throws :
    {S A B : Type 0} (call : Program S A) (continue : A → Program S B) (s s' : S) (error : Error)
    → call s ≡ (throws error, s')
    → (call >>= continue) s ≡ (throws error, s')
bind_throws call continue s s' error e =
    ap (λ r. elim r.0 [ ok value ↦ continue value r.1 | throws error ↦ (throws error, r.1) ]) e

-- Programs that behave alike can take one another's place behind a call.
pub bind_alike :
    {S A B : Type 0} (call : Program S A) (p q : A → Program S B) (s : S)
    → ((a : A) (s' : S) → p a s' ≡ q a s')
    → (call >>= p) s ≡ (call >>= q) s
bind_alike call p q s h = ap (λ k. (call >>= k) s) (λ i a s'. h a s' i)

pub throws_ne_ok : {A : Type 0} {error : Error} {a : A} → throws error ≡ ok a → ⊥
throws_ne_ok e = ground arith

bind_inv_from :
    {S A B : Type 0} (continue : A → Program S B) (t : S) (b : B) (r : Result A × S)
    → elim r.0 as (λ _. Result B × S) [
      | ok value ↦ continue value r.1
      | throws error ↦ (throws error, r.1)
    ]
      ≡ (ok b, t)
    → (a : A) × (s' : S) × (r ≡ (ok a, s')) × (continue a s' ≡ (ok b, t))
bind_inv_from continue t b (ok a, s') e = (a, s', refl, e)
bind_inv_from continue t b (throws error, s') e = absurd (throws_ne_ok (ap (λ r. r.0) e))

-- What a program that returned did first.
pub bind_inv :
    {S A B : Type 0} (call : Program S A) (continue : A → Program S B) (s t : S) (b : B)
    → (call >>= continue) s ≡ (ok b, t)
    → (a : A) × (s' : S) × (call s ≡ (ok a, s')) × (continue a s' ≡ (ok b, t))
bind_inv call continue s t b e = bind_inv_from continue t b (call s) e

-- What follows a call, by what the call returned.
abbrev pub continued : {S A B : Type 0} → (A → Program S B) → Result A × S → Result B × S
continued continue r = elim r.0 [
  | ok value ↦ continue value r.1
  | throws error ↦ (throws error, r.1)
]

pub bind_lem :
    {S A B : Type 0} (call : Program S A) (continue : A → Program S B) (s : S) (r : Result A × S)
    → call s ≡ r
    → (call >>= continue) s ≡ continued continue r
bind_lem call continue s r e = ap (continued continue) e

-- What a handler makes of what the body did.
abbrev pub caught : {S A : Type 0} → Program S A → Result A × S → Result A × S
caught handler r = elim r.0 [
  | ok value ↦ (ok value, r.1)
  | throws transport ↦ handler r.1
  | throws error ↦ (throws error, r.1)
]

pub continued_assoc :
    {S A B C : Type 0} (f : A → Program S B) (g : B → Program S C) (r : Result A × S)
    → continued (λ a. f a >>= g) r ≡ continued g (continued f r)
continued_assoc f g (ok a, s) = refl
continued_assoc f g (throws error, s) = refl
