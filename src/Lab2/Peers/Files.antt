-- ===== src/Lab2/Peers/Files.antt =====
-- lab2/src/utils.cpp: the hosts that are read from a host file.
use cs7610_f.Prelude.{
  ℕ, ◌≤◌, ◌≡◌, sym, ap, ◌∙◌, subst, List, [], String, String_discrete, ok, arith, contains,
  Distinct, length, leb, check, fatal, ◌>>◌,
}
use cs7610_f.Hosts.{unique_lines, unique_lines-Distinct, contains-unique_lines}
use cs7610_f.Lab2.Peers.Defs.{read_host_file}

passes :
    (n : ℕ) (lines hosts : List String)
    → (check (leb 5 n) fatal >> (check (leb n 10) fatal >> ok lines)) ≡ ok hosts
    → (5 ≤ n) × (n ≤ 10) × (lines ≡ hosts)
passes n lines hosts e = ground arith

-- The hosts that readHostFile returns are the lines of the file, each of them once, and five to ten.
pub read_host_file_lem :
    (lines hosts : List String) (host : String)
    → read_host_file lines ≡ ok hosts
    → Distinct String_discrete hosts
      × (5 ≤ length hosts)
      × (length hosts ≤ 10)
      × (contains String_discrete host hosts ≡ contains String_discrete host lines)
unfolding read_host_file contains
read_host_file_lem lines hosts host e =
    let (low, high, same) =
      passes (length (unique_lines [] lines)) (unique_lines [] lines) hosts e in
    (
      subst (Distinct String_discrete) same (unique_lines-Distinct [] lines),
      subst (λ hosts. 5 ≤ length hosts) same low,
      subst (λ hosts. length hosts ≤ 10) same high,
      ap (contains String_discrete host) (sym same) ∙ contains-unique_lines [] lines host,
    )
