-- ===== src/Prelude/Decimal.antt =====
-- Texts that are written piece by piece, and numbers in them: std::ostream and std::stoi.
use Prim.Native.Nat.{ℕ, zero, suc, ◌+◌, ◌-◌, ◌*◌, ◌/◌, ◌%◌, ◌^◌, ◌<◌, ◌≤◌}
use Prim.Native.Char.{Char, char, code}
use Prim.Native.String.{String}
use mathlib.Core.Bool.{Bool, true, false, ◌&&◌, ◌||◌}
use mathlib.Core.List.{List, [], ◌∷◌}
use mathlib.Core.Path.{◌≡◌, refl, sym, ap, ◌∙◌}
use mathlib.Core.Logic.{inl, inr, ◌≢◌}
use native.Mathlib.Omega.{arith}
use cs7610_f.Prelude.Tests.{ltb, leb, ◌==◌, if◌then◌else◌, Bool-cases}
use cs7610_f.Prelude.Outcome.{Result, ok, throws, invalid_argument, out_of_range}

-- A text before another.
unfoldable pub glue : String → String → String
glue String.[] rest = rest
glue (String.◌∷◌ c s) rest = String.◌∷◌ c (glue s rest)

-- What `<<` makes of several pieces.
unfoldable pub concat : List String → String
unfolding glue
concat [] = String.[]
concat (piece ∷ pieces) = glue piece (concat pieces)

unfoldable pub digit : ℕ → Char
digit zero = char 48 tt
digit (suc zero) = char 49 tt
digit (suc (suc zero)) = char 50 tt
digit (suc (suc (suc zero))) = char 51 tt
digit (suc (suc (suc (suc zero)))) = char 52 tt
digit (suc (suc (suc (suc (suc zero))))) = char 53 tt
digit (suc (suc (suc (suc (suc (suc zero)))))) = char 54 tt
digit (suc (suc (suc (suc (suc (suc (suc zero))))))) = char 55 tt
digit (suc (suc (suc (suc (suc (suc (suc (suc zero)))))))) = char 56 tt
digit (suc (suc (suc (suc (suc (suc (suc (suc (suc d))))))))) = char 57 tt

-- The digits of a number before a text; a number below the fuel has all its digits.
unfoldable pub digits : ℕ → ℕ → String → String
unfolding digit
digits zero n rest = rest
digits (suc fuel) n rest =
    let here = String.◌∷◌ (digit (n % 10)) rest in
    let all = digits fuel (n / 10) here in if ltb n 10 then here else all

unfoldable pub to_string : ℕ → String
unfolding digits
to_string n = digits (suc n) n String.[]

abbrev pub is_digit : ℕ → Bool
is_digit c = leb b'0' c && leb c b'9'

-- The digits at the start of a text, after the number that they continue.
unfoldable pub stoi_from : ℕ → String → ℕ
stoi_from n String.[] = n
stoi_from n (String.◌∷◌ c s) =
    let later = stoi_from (n * 10 + (code c - b'0')) s in if is_digit (code c) then later else n

-- isspace
abbrev pub is_space : ℕ → Bool
is_space c = (leb 9 c && leb c 13) || (c == 32)

unfoldable pub skip_spaces : String → String
skip_spaces String.[] = String.[]
skip_spaces (String.◌∷◌ c s) =
    let later = skip_spaces s in if is_space (code c) then later else String.◌∷◌ c s

-- The int of a sign and a number, as its 32 bits.
abbrev pub to_int : Bool → ℕ → Result ℕ
to_int true n = if leb n (2 ^ 31) then ok ((2 ^ 32 - n) % 2 ^ 32) else throws out_of_range
to_int false n = if ltb n (2 ^ 31) then ok n else throws out_of_range

unfoldable pub unsigned : Bool → String → Result ℕ
unfolding stoi_from
unsigned negative String.[] = throws invalid_argument
unsigned negative (String.◌∷◌ c s) =
    if is_digit (code c)
    then to_int negative (stoi_from (code c - b'0') s)
    else throws invalid_argument

-- What comes behind the space: a sign or none, and the digits.
unfoldable pub signed : String → Result ℕ
unfolding unsigned
signed String.[] = throws invalid_argument
signed (String.◌∷◌ c s) =
    if code c == b'-'
    then unsigned true s
    else if code c == b'+'
    then unsigned false s
    else unsigned false (String.◌∷◌ c s)

-- std::stoi in base 10; what stands behind the digits is left.
unfoldable pub stoi : String → Result ℕ
unfolding skip_spaces signed
stoi s = signed (skip_spaces s)

code-digit : (d : ℕ) → d < 10 → code (digit d) ≡ 48 + d
unfolding digit
code-digit zero l = refl
code-digit (suc zero) l = refl
code-digit (suc (suc zero)) l = refl
code-digit (suc (suc (suc zero))) l = refl
code-digit (suc (suc (suc (suc zero)))) l = refl
code-digit (suc (suc (suc (suc (suc zero))))) l = refl
code-digit (suc (suc (suc (suc (suc (suc zero)))))) l = refl
code-digit (suc (suc (suc (suc (suc (suc (suc zero))))))) l = refl
code-digit (suc (suc (suc (suc (suc (suc (suc (suc zero)))))))) l = refl
code-digit (suc (suc (suc (suc (suc (suc (suc (suc (suc d))))))))) l = omega (arith, l)

stoi_from-digit :
    (n d : ℕ) (rest : String)
    → d < 10
    → stoi_from n (String.◌∷◌ (digit d) rest) ≡ stoi_from (n * 10 + d) rest
unfolding stoi_from
stoi_from-digit n d rest l =
    let e : code (digit d) ≡ 48 + d = code-digit d l in
    let value : code (digit d) - 48 ≡ d = omega (arith, e) in ground (arith, e, value)

stoi_from-digits :
    (fuel n : ℕ) (rest : String) → n < fuel → stoi_from 0 (digits fuel n rest) ≡ stoi_from n rest
unfolding digits
stoi_from-digits zero n rest l = absurd (omega (arith, l))
stoi_from-digits (suc fuel) n rest l =
    let small : n % 10 < 10 = omega arith in
    let parts : n / 10 * 10 + n % 10 ≡ n = omega arith in
    let here : stoi_from (n / 10) (String.◌∷◌ (digit (n % 10)) rest) ≡ stoi_from n rest =
      stoi_from-digit (n / 10) (n % 10) rest small ∙ ap (λ k. stoi_from k rest) parts in
    elim (Bool-cases (ltb n 10)) [
      | inl e ↦
          let below : n < 10 = ground arith in
          let alone : 0 * 10 + n % 10 ≡ n = omega (arith, below) in
          rw e (stoi_from-digit 0 (n % 10) rest small ∙ ap (λ k. stoi_from k rest) alone)
      | inr e ↦
          let above : 10 ≤ n = ground arith in
          rw e (
            stoi_from-digits fuel (n / 10) (String.◌∷◌ (digit (n % 10)) rest)
              (omega (arith, l, above))
            ∙ here)
    ]

-- A text that starts with a digit.
abbrev pub starts_digit : String → Bool
starts_digit String.[] = false
starts_digit (String.◌∷◌ c s) = is_digit (code c)

digit-is_digit : (d : ℕ) → d < 10 → is_digit (code (digit d)) ≡ true
digit-is_digit d l = let e : code (digit d) ≡ 48 + d = code-digit d l in ground (arith, e)

digits-starts_digit :
    (fuel n : ℕ) (c : Char) (rest : String)
    → is_digit (code c) ≡ true
    → starts_digit (digits fuel n (String.◌∷◌ c rest)) ≡ true
unfolding digits
digits-starts_digit zero n c rest e = e
digits-starts_digit (suc fuel) n c rest e =
    let small : n % 10 < 10 = omega arith in
    let first : is_digit (code (digit (n % 10))) ≡ true = digit-is_digit (n % 10) small in
    elim (Bool-cases (ltb n 10)) [
      | inl f ↦ rw f first
      | inr f ↦ rw f (digits-starts_digit fuel (n / 10) (digit (n % 10)) (String.◌∷◌ c rest) first)
    ]

stoi_of_digit : (s : String) → starts_digit s ≡ true → stoi s ≡ to_int false (stoi_from 0 s)
unfolding stoi skip_spaces signed unsigned stoi_from
stoi_of_digit String.[] e = ground arith
stoi_of_digit (String.◌∷◌ c s) e = ground arith

abbrev pub is_letter : ℕ → Bool
is_letter c = (leb b'A' c && leb c b'Z') || (leb b'a' c && leb c b'z')

-- A text that starts with a letter is not read as a number.
pub stoi_of_letter :
    (c : Char) (s : String)
    → is_letter (code c) ≡ true
    → stoi (String.◌∷◌ c s) ≡ throws invalid_argument
unfolding stoi skip_spaces signed unsigned
stoi_of_letter c s e = ground arith

glue-digits :
    (fuel n : ℕ) (rest more : String)
    → glue (digits fuel n rest) more ≡ digits fuel n (glue rest more)
unfolding glue digits
glue-digits zero n rest more = refl
glue-digits (suc fuel) n rest more = elim (Bool-cases (ltb n 10)) [
  | inl e ↦ rw (e, glue) refl
  | inr e ↦ rw (e, glue) (glue-digits fuel (n / 10) (String.◌∷◌ (digit (n % 10)) rest) more)
]

digits_first : (n : ℕ) (rest : String) → starts_digit (digits (suc n) n rest) ≡ true
unfolding digits
digits_first n rest =
    let small : n % 10 < 10 = omega arith in
    let first : is_digit (code (digit (n % 10))) ≡ true = digit-is_digit (n % 10) small in
    elim (Bool-cases (ltb n 10)) [
      | inl f ↦ rw f first
      | inr f ↦ rw f (digits-starts_digit n (n / 10) (digit (n % 10)) rest first)
    ]

stoi_from-nothing : (n : ℕ) (rest : String) → starts_digit rest ≡ false → stoi_from n rest ≡ n
unfolding stoi_from
stoi_from-nothing n String.[] e = refl
stoi_from-nothing n (String.◌∷◌ c rest) e = ground arith

-- A number that an int holds is read back from its text, whatever stands behind it, if that does not
-- start with a digit.
pub stoi-glue :
    (n : ℕ) (rest : String)
    → n < 2 ^ 31
    → starts_digit rest ≡ false
    → stoi (glue (to_string n) rest) ≡ ok n
unfolding to_string stoi_from glue
stoi-glue n rest small e =
    ap stoi (glue-digits (suc n) n String.[] rest)
    ∙ stoi_of_digit (digits (suc n) n rest) (digits_first n rest)
    ∙ ap (to_int false) (stoi_from-digits (suc n) n rest (omega arith) ∙ stoi_from-nothing n rest e)
    ∙ ground arith

glue-nil : (s : String) → glue s String.[] ≡ s
unfolding glue
glue-nil String.[] = refl
glue-nil (String.◌∷◌ c s) = ap (String.◌∷◌ c) (glue-nil s)

-- A number that an int holds, written and read.
pub stoi-to_string : (n : ℕ) → n < 2 ^ 31 → stoi (to_string n) ≡ ok n
stoi-to_string n small = ap stoi (sym (glue-nil (to_string n))) ∙ stoi-glue n String.[] small refl

abbrev has_character : String → Bool
has_character String.[] = false
has_character (String.◌∷◌ c s) = true

-- A text of at least a character is not empty.
pub cons-ne-nil : (c : Char) (s : String) → String.◌∷◌ c s ≢ String.[]
cons-ne-nil c s e = let t : true ≡ false = ap has_character e in ground arith
