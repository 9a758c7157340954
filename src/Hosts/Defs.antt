-- ===== src/Hosts/Defs.antt =====
-- The loops of readHostFile, getPeerContainerHostnames and getProcessIdentifier, which lab0/utils.cpp,
-- lab1/src/common/utils.cpp and lab2/src/utils.cpp repeat, and parseHostnameFromSender.
use Prim.Native.Char.{code}
use cs7610_f.Prelude.{
  ℕ, ◌+◌, List, [], ◌∷◌, String, String_discrete, Option, none, some, ite, ◌==◌, if◌then◌else◌,
  contains, insert,
}

-- Every line once, where it stands first; `seen` is uniqueHostnames.
unfoldable pub unique_lines : List String → List String → List String
unique_lines seen [] = []
unique_lines seen (line ∷ lines) =
    let first = line ∷ unique_lines (insert String_discrete line seen) lines in
    let again = unique_lines seen lines in
    if contains String_discrete line seen then again else first

-- All hosts but the current one.
unfoldable pub other_hosts : List String → String → List String
other_hosts [] current = []
other_hosts (host ∷ hosts) current =
    ite (String_discrete host current) (other_hosts hosts current)
      (host ∷ other_hosts hosts current)

-- The position of the first occurrence, from i on.
unfoldable pub position_from : ℕ → List String → String → Option ℕ
position_from i [] hostname = none
position_from i (host ∷ hosts) hostname =
    ite (String_discrete host hostname) (some i) (position_from (i + 1) hosts hostname)

-- The part of a sender's name before the first dot.
unfoldable pub parse_hostname_from_sender : String → String
parse_hostname_from_sender String.[] = String.[]
parse_hostname_from_sender (String.◌∷◌ c s) =
    if code c == b'.' then String.[] else String.◌∷◌ c (parse_hostname_from_sender s)
