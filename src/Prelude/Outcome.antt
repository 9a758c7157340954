-- ===== src/Prelude/Outcome.antt =====
-- What a C++ call can end in: a value, an exception, a failed CHECK or LOG(FATAL), which aborts the
-- process, or undefined behaviour.
use mathlib.Core.Bool.{Bool, true, false}
use mathlib.Core.Option.{Option, none, some}
use mathlib.Core.Path.{◌≡◌, refl}
use native.Mathlib.Omega.{arith}

pub data Error : Type 0 where
  -- std::invalid_argument, thrown by stoi.
  invalid_argument : Error
  -- std::out_of_range, thrown by `at`.
  out_of_range : Error
  -- A CHECK that fails, or LOG(FATAL).
  fatal : Error
  -- std::runtime_error and what derives from it, thrown by the network classes.
  transport : Error
  -- An access outside an array, or through an invalid iterator.
  undefined : Error
  -- exit(0).
  exited : Error
  -- A call that waits for what never comes.
  blocked : Error

pub data Result {ℓ} (A : Type ℓ) : Type ℓ where
  ok : A → Result A
  throws : Error → Result A

infixl 5 ◌>>=◌ ◌>>◌
abbrev pub ◌>>=◌ {ℓ κ} : {T : Type ℓ} {U : Type κ} → Result T → (T → Result U) → Result U
call >>= continue = elim call [ throws error ↦ throws error | ok value ↦ continue value ]

abbrev pub ◌>>◌ {κ} : {U : Type κ} → Result (Unit {0}) → Result U → Result U
call >> then_call = call >>= λ _. then_call

-- CHECK(test), or a test whose failure throws.
abbrev pub check : Bool → Error → Result (Unit {0})
check false error = throws error
check true error = ok tt

-- `at` of a standard map.
abbrev pub or_throw {ℓ} : {T : Type ℓ} → Option T → Error → Result T
or_throw found error = elim found [ some value ↦ ok value | none ↦ throws error ]

throws_ne_ok {ℓ} : {A : Type ℓ} {error : Error} {a : A} → throws error ≡ ok a → ⊥
throws_ne_ok e = ground arith

-- What a chain that returned did first.
pub ok_inv {ℓ κ} :
    {T : Type ℓ} {U : Type κ} (call : Result T) (continue : T → Result U) (u : U)
    → (call >>= continue) ≡ ok u
    → (t : T) × (call ≡ ok t) × (continue t ≡ ok u)
ok_inv (ok t) continue u e = (t, refl, e)
ok_inv (throws error) continue u e = absurd (throws_ne_ok e)
