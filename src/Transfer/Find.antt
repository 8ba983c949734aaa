-- ===== src/Transfer/Find.antt =====
-- src/panel.c: panel_find_index, which looks for an entry's name. `tolower` is the C library's, by which strcasecmp compares.
use gnu_gnuit.Prelude.{
  ℕ, ◌+◌, Bool, true, false, Option, none, some, List, [], ◌∷◌, map, ◌==◌, length, take, min, max,
  if◌then◌else◌,
}

-- strcmp, where it says that the strings are equal.
unfoldable pub strcmp_equal : List ℕ → List ℕ → Bool
strcmp_equal [] [] = true
strcmp_equal [] (d ∷ b) = false
strcmp_equal (c ∷ a) [] = false
strcmp_equal (c ∷ a) (d ∷ b) = let rest = strcmp_equal a b in if c == d then rest else false

-- The loops over the entries, from number `entry` on.
unfoldable pub find_entry : (List ℕ → Bool) → ℕ → List (List ℕ) → Option ℕ
find_entry test entry [] = none
find_entry test entry (name ∷ names) =
    let rest = find_entry test (entry + 1) names in if test name then some entry else rest

-- strncmp of the string and a name, over the characters that both have.
unfoldable pub partial_match : List ℕ → List ℕ → Bool
unfolding strcmp_equal
partial_match temp name =
    let n = min (length temp) (length name) in strcmp_equal (take n temp) (take n name)

-- `otherwise` where the loop found none.
unfoldable pub or_find : Option ℕ → Option ℕ → Option ℕ
or_find (some entry) otherwise = some entry
or_find none otherwise = otherwise

unfoldable pub or_zero : Option ℕ → ℕ
or_zero (some entry) = entry
or_zero none = 0

-- `this->maxname`, as panel_read_directory leaves it.
unfoldable pub maxname : List (List ℕ) → ℕ
maxname [] = 0
maxname (name ∷ names) = max (length name) (maxname names)

module _ (tolower : ℕ → ℕ) where
  unfoldable pub panel_find_index : List (List ℕ) → List ℕ → ℕ
  unfolding maxname find_entry strcmp_equal partial_match or_find or_zero
  panel_find_index names str =
      let temp = take (min (length str) (maxname names)) str in
      let lower = map tolower temp in
      or_zero (
        or_find (find_entry (strcmp_equal temp) 0 names) (
          or_find (find_entry (λ name. strcmp_equal lower (map tolower name)) 0 names) (
            or_find (find_entry (partial_match temp) 0 names)
              (find_entry (λ name. partial_match lower (map tolower name)) 0 names))))
