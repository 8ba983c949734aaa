-- ===== src/Panel/Sort.antt =====
-- src/panel.c: `sort_compare_fn`, the order of a panel's entries. qsort reads the sign of the result
-- only, so a result is its sign.
pub mod Listing
pub mod Orders
pub mod Tests
use gnu_gnuit.Prelude.{
  ℕ, zero, suc, ◌+◌, ◌-◌, ◌%◌, ◌^◌, Bool, true, false, Option, none, some, List, [], ◌∷◌, ◌==◌, ltb,
  if◌then◌else◌,
}

pub data Sign : Type 0 where
  less same more : Sign

-- CurrentSortMethod
pub data SortMethod : Type 0 where
  sort_by_name sort_by_extension sort_by_size sort_by_date sort_by_mode sort_by_owner_id
        sort_by_group_id sort_by_owner_name sort_by_group_name :
      SortMethod

-- The fields of `dir_entry_t` that the order looks at; `is_dir` is `type == DIR_ENTRY`.
pub record SortEntry : Type 0 where
  pub name : List ℕ
  pub is_dir : Bool
  pub size : ℕ
  pub mtime : ℕ
  pub mode : ℕ
  pub uid : ℕ
  pub gid : ℕ
  pub owner : List ℕ
  pub group : List ℕ

unfoldable pub strcmp : List ℕ → List ℕ → Sign
strcmp [] [] = same
strcmp [] (d ∷ b) = less
strcmp (c ∷ a) [] = more
strcmp (c ∷ a) (d ∷ b) =
    let rest = strcmp a b in if ltb c d then less else if ltb d c then more else rest

-- `first - second` returned as an int of 32 bits, of values below 2 ^ 64.
unfoldable pub int_difference : ℕ → ℕ → Sign
int_difference first second =
    let bits = (first + (2 ^ 64 - second)) % 2 ^ 32 in
    if bits == 0 then same else if ltb bits (2 ^ 31) then more else less

-- `strrchr(name, '.') + 1`; `none` for NULL.
unfoldable pub extension : List ℕ → Option (List ℕ)
extension [] = none
extension (c ∷ name) = elim (extension name) [
  | some rest ↦ some rest
  | none ↦ if c == b'.' then some name else none
]

-- The case SORT_BY_EXTENSION; `by_name` is the comparison behind the switch.
unfoldable pub by_extension : Sign → Option (List ℕ) → Option (List ℕ) → Sign
unfolding strcmp
by_extension by_name none none = by_name
by_extension by_name (some pfirst) none = less
by_extension by_name none (some psecond) = more
by_extension by_name (some pfirst) (some psecond) = nonzero (strcmp pfirst psecond)
  where
    nonzero : Sign → Sign
    nonzero less = less
    nonzero same = by_name
    nonzero more = more

unfoldable pub by_method : SortMethod → SortEntry → SortEntry → Sign
unfolding by_extension strcmp extension int_difference
by_method sort_by_name first second = strcmp first.name second.name
by_method sort_by_extension first second =
    by_extension (strcmp first.name second.name) (extension first.name) (extension second.name)
by_method sort_by_size first second =
    if first.size == second.size
    then strcmp first.name second.name
    else if ltb second.size first.size
    then more
    else less
by_method sort_by_date first second =
    if first.mtime == second.mtime
    then strcmp first.name second.name
    else int_difference first.mtime second.mtime
by_method sort_by_mode first second =
    if first.mode == second.mode
    then strcmp first.name second.name
    else int_difference first.mode second.mode
by_method sort_by_owner_id first second =
    if first.uid == second.uid
    then strcmp first.name second.name
    else int_difference first.uid second.uid
by_method sort_by_group_id first second =
    if first.gid == second.gid
    then strcmp first.name second.name
    else int_difference first.gid second.gid
by_method sort_by_owner_name first second =
    if first.uid == second.uid
    then strcmp first.name second.name
    else strcmp first.owner second.owner
by_method sort_by_group_name first second =
    if first.gid == second.gid
    then strcmp first.name second.name
    else strcmp first.group second.group

unfoldable pub sort_compare_fn : SortMethod → SortEntry → SortEntry → Sign
unfolding by_method
sort_compare_fn method first second =
    if first.is_dir
    then (if second.is_dir then by_method method first second else less)
    else (if second.is_dir then more else by_method method first second)
