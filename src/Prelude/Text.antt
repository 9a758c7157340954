-- ===== src/Prelude/Text.antt =====
-- Equality of hostnames, which are compared whole.
use Prim.Native.String.{String}
use mathlib.Core.Path.{◌≡◌, refl}
use mathlib.Core.Bool.{Bool, true, false}
use text.Mathlib.Text.{◌==◌}
use text.Mathlib.TextEquality.{eq_iff}
use native.Mathlib.Omega.{arith}

String-by_test : (s t : String) (b : Bool) → (s == t) ≡ b → Dec (s ≡ t)
String-by_test s t true e = yes ((eq_iff s t).0 e)
String-by_test s t false e = no (λ p. ground (arith, eq_iff s t))

unfoldable pub String_discrete : Discrete String
unfolding String-by_test
String_discrete s t = String-by_test s t (s == t) refl
