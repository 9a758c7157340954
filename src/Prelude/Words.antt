-- ===== src/Prelude/Words.antt =====
-- 32-bit words in network byte order, in buffers of bytes: what htonl and ntohl make of the fields
-- of a struct of uint32_t.
use Prim.Native.Nat.{ℕ, ◌+◌, ◌*◌, ◌/◌, ◌%◌, ◌^◌, ◌<◌}
use mathlib.Core.List.{List, [], ◌∷◌}
use mathlib.Core.Path.{◌≡◌}
use native.Mathlib.Omega.{arith}
use cs7610_f.Prelude.Lists.{drop}
use cs7610_f.Prelude.Outcome.{Result, ok, throws, undefined}

abbrev pub IsWord : ℕ → Type 0
IsWord w = w < 2 ^ 32

abbrev pub IsByte : ℕ → Type 0
IsByte b = b < 256

-- The bytes of htonl(w), in memory order, before what follows.
unfoldable pub store_word : ℕ → List ℕ → List ℕ
store_word w rest = (w / 16777216 % 256) ∷ (w / 65536 % 256) ∷ (w / 256 % 256) ∷ (w % 256) ∷ rest

unfoldable pub store_words : List ℕ → List ℕ
unfolding store_word
store_words [] = []
store_words (w ∷ ws) = store_word w (store_words ws)

-- ntohl of the four bytes at the front.
unfoldable pub first_word : List ℕ → Result ℕ
first_word (a ∷ b ∷ c ∷ d ∷ rest) = ok (a * 16777216 + b * 65536 + c * 256 + d)
first_word _ = throws undefined

-- ntohl of the k-th field of a struct at the start of the buffer.
unfoldable pub read_word : List ℕ → ℕ → Result ℕ
unfolding first_word
read_word buffer k = first_word (drop (4 * k) buffer)

pub first_word-store_word :
    (w : ℕ) (rest : List ℕ) → IsWord w → first_word (store_word w rest) ≡ ok w
unfolding first_word store_word
first_word-store_word w rest h = ap_ok _ _ (omega arith)
  where
    ap_ok : (v u : ℕ) → v ≡ u → ok v ≡ ok u
    ap_ok v u e = cc

pub store_word-first_word :
    (a b c d w : ℕ) (rest : List ℕ)
    → IsByte a
    → IsByte b
    → IsByte c
    → IsByte d
    → first_word (a ∷ b ∷ c ∷ d ∷ rest) ≡ ok w
    → store_word w rest ≡ a ∷ b ∷ c ∷ d ∷ rest
unfolding first_word store_word
store_word-first_word a b c d w rest ha hb hc hd e = ground arith
