-- ===== src/Hosts.antt =====
-- Host files, and the names in them: what the utils of the three labs share.
mod Defs
mod Ids
unfoldable pub use Defs.{unique_lines, other_hosts, position_from, parse_hostname_from_sender}
pub use Ids.{
  unique_lines-Distinct, contains-unique_lines, get_elem?-position_from, position_from-contains,
}
