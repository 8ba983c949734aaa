-- ===== src/Panel/Isearch/Tests.antt =====
-- The theorems on the incremental search, applied to a panel of three files.
use gnu_gnuit.Prelude.{
  ℕ, ◌≡◌, refl, Bool, true, false, Option, some, List, [], ◌∷◌, ◌==◌, arith, inl,
}
use gnu_gnuit.Prelude.Int.{pos}
use gnu_gnuit.Panel.{Panel, DirEntry, EntryType}
use gnu_gnuit.Panel.Valid.{IsValid}
use gnu_gnuit.Panel.Isearch.{
  IsearchEntry, Isearch, Action, increase, decrease, backward, forward, act_isearch,
}
use gnu_gnuit.Panel.Isearch.Landing.{Nearest, Lands, act_isearch-Nearest}
use gnu_gnuit.Panel.Isearch.Undo.{IsReady, Restores, act_isearch-undo}

abbrev file : ℕ → DirEntry
file c = record { name = c ∷ []; type = EntryType.file_entry; selected = false }

abbrev files : Panel
files = record {
  path = b'/' ∷ [];
  entry_list = file b'a' ∷ file b'b' ∷ file b'c' ∷ [];
  entries = 3;
  current_entry = 1;
  first_on_screen = 0;
  plines = 5;
  scroll_step = 2;
  selected_entries = 0;
  last_index = pos 0;
  multiple_files = 0;
}

files-IsValid : IsValid files
files-IsValid = record {
  counted = refl;
  inside = omega arith;
  rows = omega arith;
  above = omega arith;
  below = omega arith;
  filled = inl refl;
  step_low = omega arith;
  step_high = omega arith;
  selection = refl;
}

-- Whether the name begins with the string's first character.
abbrev begins : List ℕ → List ℕ → Bool
begins [] name = true
begins (c ∷ string) [] = false
begins (c ∷ string) (d ∷ name) = c == d

abbrev start : IsearchEntry
start = record { entry = 1; length = 0 }

abbrev searching : Isearch
searching = record {
  panel = files;
  isearch_stack = record { cells = λ i. start; allocated = 1; point = 1 };
  isearch_length = 0;
  wrapped_isearch = false;
}

searching-IsReady : IsReady searching
searching-IsReady = record {
  valid = files-IsValid;
  whole = refl;
  top = start;
  rest = [];
  stacked = refl;
  matched = refl;
  direct = refl;
}

act_isearch-Nearest_example :
    (found : Option ℕ) × Nearest begins (b'c' ∷ []) forward files found
    × (outcome : Isearch × Action) × (act_isearch
          (λ i. start)
          begins
          forward
          increase
          (b'c' ∷ [])
          searching
        ≡ some outcome)
    × Lands begins (b'c' ∷ []) found files outcome
act_isearch-Nearest_example =
    act_isearch-Nearest begins (b'c' ∷ []) (λ i. start) forward searching searching-IsReady

act_isearch-undo_example :
    (that : Isearch) × (action : Action) × (back : Isearch) × (act_isearch
        (λ i. start)
        begins
        forward
        increase
        (b'c' ∷ [])
        searching
      ≡ some (that, action))
    × (act_isearch (λ i. start) begins backward decrease (b'c' ∷ []) that ≡ some (back, decrease))
    × Restores searching back
act_isearch-undo_example =
    act_isearch-undo (λ i. start) begins forward backward (b'c' ∷ []) searching searching-IsReady
