-- ===== src/Lab1/Startup.antt =====
-- lab1/src/common/utils.cpp and lab1/src/main.cpp: the hosts, the senders, and the loop that multicasts.
-- A file is the list of its lines.
use Prim.Native.Char.{Char, code}
use cs7610_f.Prelude.{
  ℕ, zero, suc, ◌+◌, List, [], ◌∷◌, Bool, true, false, not, ◌&&◌, ◌||◌, String, String_discrete,
  Result, ok, fatal, check, or_throw, ◌>>=◌, ◌>>◌, leb, ltb, length, ite, ◌==◌, if◌then◌else◌,
  assign, ℕ_discrete, ◌^◌, throws, undefined,
}
use cs7610_f.Hosts.{unique_lines, other_hosts, position_from}

unfoldable pub read_host_file : List String → Result (List String)
unfolding unique_lines
read_host_file lines = do
  let hostnames = unique_lines [] lines
  check (leb 3 (length hostnames)) fatal
  ok hostnames

unfoldable pub get_peer_container_hostnames : List String → String → List String
unfolding other_hosts
get_peer_container_hostnames all_hostnames current_hostname =
    other_hosts all_hostnames current_hostname

unfoldable pub get_process_identifier : List String → String → Result ℕ
unfolding position_from
get_process_identifier all_hostnames hostname = do
  i ← or_throw (position_from 0 all_hostnames hostname) fatal
  ok (i + 1)

-- The loop that fills recipientIdMap, over the hostnames that are left.
unfoldable pub fill_mapping :
    List String → List String → List (ℕ × String) → Result (List (ℕ × String))
unfolding get_process_identifier assign
fill_mapping hostnames [] mapping = ok mapping
fill_mapping hostnames (hostname ∷ later) mapping = do
  recipient_id ← get_process_identifier hostnames hostname
  fill_mapping hostnames later (assign ℕ_discrete recipient_id hostname mapping)

unfoldable pub make_recipient_id_map : List String → Result (List (ℕ × String))
unfolding fill_mapping
make_recipient_id_map hostnames = fill_mapping hostnames hostnames []

-- A character before the first of the pieces.
abbrev pub prepend : Char → List String → List String
prepend c [] = String.◌∷◌ c String.[] ∷ []
prepend c (piece ∷ pieces) = String.◌∷◌ c piece ∷ pieces

-- What getline reads from a text, one piece after the other, with ',' between them.
unfoldable pub getlines : String → List String
getlines String.[] = []
getlines (String.◌∷◌ c s) =
    let pieces = getlines s in if code c == b',' then String.[] ∷ pieces else prepend c pieces

-- The loop over the senders.
unfoldable pub is_one_of : String → List String → Bool
is_one_of current [] = false
is_one_of current (sender ∷ senders) =
    ite (String_discrete sender current) true (is_one_of current senders)

-- Whether the current host is among the senders of the flag.
unfoldable pub send_multicast_msg : String → String → Bool
unfolding getlines is_one_of
send_multicast_msg current_hostname flag = is_one_of current_hostname (getlines flag)

-- What `main` does with the services.
pub data Action : Type 0 where
  message : ℕ → Action
  snapshot : Action

-- The loop of `main` over the messages that are left, from message i on; `count` is
-- initiateSnapshotCount. The counter is an int, and i + 10 may leave its range.
unfoldable pub send_messages : ℕ → ℕ → ℕ → Bool → Result (List Action)
send_messages count zero i snapshot_taken = ok []
send_messages count (suc left) i snapshot_taken =
    let trigger = not snapshot_taken && not (count == 0) && ltb count i in
    let later = send_messages count left (i + 1) (trigger || snapshot_taken) in
    if ltb (i + 10) (2 ^ 31)
    then (later >>= λ actions.
        ok (message (i + 10) ∷ (if trigger then snapshot ∷ actions else actions)))
    else throws undefined

-- What `main` does: nothing where the current host is no sender.
unfoldable pub run_main : Bool → ℕ → ℕ → Result (List Action)
unfolding send_messages
run_main sends msg_count count = if sends then send_messages count msg_count 1 false else ok []
