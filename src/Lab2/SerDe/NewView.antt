-- ===== src/Lab2/SerDe/NewView.antt =====
-- lab2/src/serde.cpp: the view message, whose members are as many as it says.
use cs7610_f.Prelude.{
  ℕ, zero, suc, ◌+◌, ◌*◌, ◌/◌, ◌%◌, ◌-◌, read_word, ◌≤◌, ◌≡◌, refl, ap, List, [], ◌∷◌, ◌++◌, String,
  ok, arith, All, length, take, drop, IsWord, first_word, store_word,
}
use cs7610_f.Lab2.Message.{NewViewMsg}
use cs7610_f.Lab2.SerDe.Defs.{
  store_members, read_members, serialize_new_view_msg, deserialize_new_view_msg, loop_count,
}

-- k members were written at the front of the bytes b.
abbrev Holds : ℕ → List ℕ → List ℕ → Type 0
Holds k ms b =
    (rest init : List ℕ)
    → k ≤ length init
    → (r : List ℕ) × (read_members k (b ++ rest) init ≡ ok r) × (take k r ≡ take k ms)

drop-store_word : (m : ℕ) (b rest : List ℕ) → drop 4 (store_word m b ++ rest) ≡ b ++ rest
unfolding store_word
drop-store_word m b rest = refl

first_word-append :
    (m : ℕ) (b rest : List ℕ) → IsWord m → first_word (store_word m b ++ rest) ≡ ok m
unfolding store_word first_word
first_word-append m b rest w = ground arith

Holds-cons :
    (k m : ℕ) (ms b : List ℕ) → IsWord m → Holds k ms b → Holds (suc k) (m ∷ ms) (store_word m b)
unfolding read_members
Holds-cons k m ms b w h rest [] l = absurd (omega arith)
Holds-cons k m ms b w h rest (i ∷ init) l =
    let (r, read, same) = h rest init (omega arith) in
    (m ∷ r, rw (first_word-append m b rest w, drop-store_word m b rest, read), ap (◌∷◌ m) same)

store_members-Holds :
    (k : ℕ) (ms buffer : List ℕ)
    → All IsWord ms
    → k ≤ length ms
    → 4 * k ≤ length buffer
    → (b : List ℕ) × (store_members k ms buffer ≡ ok b) × Holds k ms b
unfolding store_members
store_members-Holds zero ms buffer w h l =
    (buffer, refl, λ rest init k. (init, unfold read_members in refl, refl))
store_members-Holds (suc k) [] buffer w h l = absurd (omega arith)
store_members-Holds (suc k) (m ∷ ms) [] w h l = absurd (omega arith)
store_members-Holds (suc k) (m ∷ ms) (_ ∷ []) w h l = absurd (omega arith)
store_members-Holds (suc k) (m ∷ ms) (_ ∷ _ ∷ []) w h l = absurd (omega arith)
store_members-Holds (suc k) (m ∷ ms) (_ ∷ _ ∷ _ ∷ []) w h l = absurd (omega arith)
store_members-Holds (suc k) (m ∷ ms) (_ ∷ _ ∷ _ ∷ _ ∷ buffer) w h l =
    let (b, stored, holds) = store_members-Holds k ms buffer w.1 (omega arith) (omega arith) in
    (store_word m b, rw stored, Holds-cons k m ms b w.0 holds)

-- The fields are words, the count is that of an array of ten, and the array has ten words.
pub record FitsNewViewMsg (msg : NewViewMsg) : Type 0 where
  pub msg_type : IsWord msg.msg_type
  pub new_view_id : IsWord msg.new_view_id
  pub number_of_members : msg.number_of_members ≤ 10
  pub members : All IsWord msg.members
  pub size : length msg.members ≡ 10

-- The members that the message counts.
abbrev pub counted : NewViewMsg → List ℕ
counted msg = take (loop_count msg.number_of_members) msg.members

-- The bytes of the message, where b are those of its members.
packed : NewViewMsg → List ℕ → List ℕ
packed msg b =
    store_word msg.msg_type (store_word msg.new_view_id (store_word msg.number_of_members b))

abbrev received : NewViewMsg → List ℕ → NewViewMsg
received msg r = record msg { members = r }

received-eq :
    (msg : NewViewMsg) (b rest init r : List ℕ) (sender : String)
    → FitsNewViewMsg msg
    → read_members (loop_count msg.number_of_members) (b ++ rest) init ≡ ok r
    → deserialize_new_view_msg
        (record { buffer = packed msg b ++ rest; n = 52; sender = sender })
        init
      ≡ ok (received msg r)
unfolding deserialize_new_view_msg packed store_word read_word
received-eq msg b rest init r sender fits read =
    let t : IsWord msg.msg_type = fits.msg_type in
    let v : IsWord msg.new_view_id = fits.new_view_id in
    let n : IsWord msg.number_of_members = omega (arith, fits.number_of_members) in
    rw (word msg.msg_type t, word msg.new_view_id v, word msg.number_of_members n) (rw read)
  where
    word :
        (w : ℕ)
        → IsWord w
        → w / 16777216 % 256 * 16777216 + w / 65536 % 256 * 65536 + w / 256 % 256 * 256 + w % 256
          ≡ w
    word w h = omega arith

length-drop : (n : ℕ) (xs : List ℕ) → length (drop n xs) ≡ length xs - n
length-drop zero xs = omega arith
length-drop (suc n) [] = omega arith
length-drop (suc n) (x ∷ xs) = omega (arith, length-drop n xs)

-- A view message of at most ten members that is serialized into a buffer of 52 bytes and received
-- into a struct, whatever both held before, arrives with its view id, its count and the members that
-- it counts.
pub deserialize_new_view_msg-serialize_new_view_msg :
    (msg : NewViewMsg) (before rest init : List ℕ) (sender : String)
    → FitsNewViewMsg msg
    → length before ≡ 52
    → length init ≡ 10
    → (bytes : List ℕ) × (serialize_new_view_msg msg before ≡ ok bytes)
      × (got : NewViewMsg) × (deserialize_new_view_msg
            (record { buffer = bytes ++ rest; n = 52; sender = sender })
            init
          ≡ ok got)
      × (got.new_view_id ≡ msg.new_view_id)
      × (counted got ≡ counted msg)
unfolding serialize_new_view_msg packed
deserialize_new_view_msg-serialize_new_view_msg msg before rest init sender fits l k =
    let count : loop_count msg.number_of_members ≡ msg.number_of_members =
      ground (arith, fits.number_of_members) in
    let (b, stored, holds) =
      store_members-Holds (loop_count msg.number_of_members) msg.members (drop 12 before)
        fits.members (omega (arith, count, fits.size, fits.number_of_members))
        (omega (arith, count, length-drop 12 before, fits.number_of_members)) in
    let (r, read, same) = holds rest init (omega (arith, count, fits.number_of_members)) in
    (
      packed msg b,
      rw stored,
      received msg r,
      received-eq msg b rest init r sender fits read,
      refl,
      same,
    )
