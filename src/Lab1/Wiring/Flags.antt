-- ===== src/Lab1/Wiring/Flags.antt =====
-- lab1/src/main.cpp: the senders that a flag lists.
use Prim.Native.Char.{Char, code}
use cs7610_f.Prelude.{
  ◌≡◌, ◌≢◌, refl, ap, ◌∙◌, arith, List, [], ◌∷◌, Bool, true, not, ◌&&◌, String, String_discrete,
  contains, glue, All, ◌==◌,
}
use cs7610_f.Lab1.Startup.{prepend, getlines, is_one_of, send_multicast_msg}

unfoldable pub rest_of : List String → String
unfolding glue
rest_of [] = String.[]
rest_of (host ∷ hosts) = glue "," (glue host (rest_of hosts))

-- The hosts with commas between them.
unfoldable pub comma_separated : List String → String
unfolding rest_of
comma_separated [] = String.[]
comma_separated (host ∷ hosts) = glue host (rest_of hosts)

unfoldable pub no_comma : String → Bool
no_comma String.[] = true
no_comma (String.◌∷◌ c s) = not (code c == b',') && no_comma s

word : String → List String → List String
word String.[] pieces = pieces
word (String.◌∷◌ c s) pieces = prepend c (word s pieces)

getlines-glue :
    (host rest : String)
    → no_comma host ≡ true
    → getlines (glue host rest) ≡ word host (getlines rest)
unfolding getlines glue no_comma word
getlines-glue String.[] rest n = refl
getlines-glue (String.◌∷◌ c s) rest n = ground (arith, getlines-glue s rest)

word-last : (c : Char) (s : String) → word (String.◌∷◌ c s) [] ≡ String.◌∷◌ c s ∷ []
unfolding word
word-last c String.[] = refl
word-last c (String.◌∷◌ d s) = ap (prepend c) (word-last d s)

word-piece : (s : String) (pieces : List String) → word s (String.[] ∷ pieces) ≡ s ∷ pieces
unfolding word
word-piece String.[] pieces = refl
word-piece (String.◌∷◌ c s) pieces = ap (prepend c) (word-piece s pieces)

word_alone : (s : String) → s ≢ String.[] → word s [] ≡ s ∷ []
word_alone String.[] n = absurd (n refl)
word_alone (String.◌∷◌ c s) n = word-last c s

abbrev pub IsHostname : String → Type 0
IsHostname host = (no_comma host ≡ true) × (host ≢ "")

getlines-rest_of :
    (host : String) (hosts : List String)
    → IsHostname host
    → All IsHostname hosts
    → getlines (glue host (rest_of hosts)) ≡ host ∷ hosts
unfolding rest_of getlines glue
getlines-rest_of host [] h hs = getlines-glue host String.[] h.0 ∙ word_alone host h.1
getlines-rest_of host (other ∷ hosts) h hs =
    getlines-glue host (rest_of (other ∷ hosts)) h.0
    ∙ ap (word host) (ap (λ pieces. String.[] ∷ pieces) (getlines-rest_of other hosts hs.0 hs.1))
    ∙ word-piece host (other ∷ hosts)

is_one_of-contains :
    (current : String) (hosts : List String)
    → is_one_of current hosts ≡ contains String_discrete current hosts
unfolding is_one_of contains
is_one_of-contains current [] = refl
is_one_of-contains current (host ∷ hosts) = ground (arith, is_one_of-contains current hosts)

getlines-comma_separated :
    (hosts : List String) → All IsHostname hosts → getlines (comma_separated hosts) ≡ hosts
unfolding comma_separated getlines
getlines-comma_separated [] h = refl
getlines-comma_separated (host ∷ hosts) h = getlines-rest_of host hosts h.0 h.1

-- A process sends exactly when its host is one of the hosts that the flag lists with commas between
-- them, where no host is empty or has a comma in its name.
pub send_multicast_msg-comma_separated :
    (current : String) (hosts : List String)
    → All IsHostname hosts
    → send_multicast_msg current (comma_separated hosts) ≡ contains String_discrete current hosts
unfolding send_multicast_msg
send_multicast_msg-comma_separated current hosts h =
    ap (is_one_of current) (getlines-comma_separated hosts h) ∙ is_one_of-contains current hosts
