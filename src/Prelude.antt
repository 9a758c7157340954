-- ===== src/Prelude.antt =====
-- The names that the models of all three labs share: the libraries', passed on, and those of the
-- children.
mod Tests
mod Lists
mod Outcome
mod Keyed
mod OrderedSet
mod Text
mod Sort
mod Members
mod Words
mod Decimal
unfoldable pub use Decimal.{glue, concat, to_string, stoi}
pub use Decimal.{is_digit}
pub use Decimal.{stoi-to_string, stoi-glue, stoi_of_letter, is_letter, starts_digit, cons-ne-nil}
pub use Tests.*
pub use Lists.*
pub use Outcome.*
unfoldable pub use Keyed.{contains, erase, insert, from_list, assign, remove, insert_absent}
pub use Keyed.{
  lookup-assign, lookup-remove, contains-insert, contains-erase, contains-erase_ne, All-erase,
  All-insert, Distinct, erase-Distinct, insert-Distinct, from_list-Distinct, contains-from_list,
  length-assign-le,
}
unfoldable pub use OrderedSet.{set_insert, set_erase, set_insert_all}
pub use OrderedSet.{
  Ascending, All-set_insert, All-set_insert_all, set_insert-Ascending, set_erase-Ascending,
  set_insert_all-Ascending, contains-set_insert, contains-set_insert_all, contains-set_erase,
  above-contains, Ascending-unique,
}
unfoldable pub use Sort.{sort, sort_insert}
pub use Sort.{
  IsStrictWeakOrder, IsSorted, All-sort, sort-perm, sort-IsSorted, IsSorted-append_left,
  IsSorted-append_across, IsSorted-append,
}
unfoldable pub use Words.{store_word, store_words, first_word, read_word}
pub use Words.{IsWord, IsByte, first_word-store_word, store_word-first_word}
pub use Members.{Bool-eq_prop, All-mem, All_of_mem, Distinguishes, IsSorted-unique}
unfoldable pub use Text.{String_discrete}
pub use Prim.Native.Nat.{ℕ, zero, suc, ◌+◌, ◌-◌, ◌*◌, ◌/◌, ◌%◌, ◌^◌, ◌≤◌, ◌<◌, max}
pub use Prim.Native.String.{String}
pub use mathlib.Core.Path.{◌≡◌, refl, sym, ap, subst, ◌∙◌}
pub use mathlib.Core.Logic.{◌≢◌, ◌↔◌, ◌⊎◌, inl, inr, ite}
pub use mathlib.Core.Bool.{Bool, true, false, not, ◌&&◌, ◌||◌}
pub use mathlib.Core.Option.{Option, none, some}
unfoldable pub use mathlib.Core.List.{lookup}
pub use mathlib.Core.List.{List, [], ◌∷◌, ◌++◌, map, Perm}
pub use native.Mathlib.Omega.{arith}
unfoldable pub use native.Mathlib.Decide.{dec_lt, dec_le, ℕ_discrete}
