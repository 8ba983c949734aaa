-- ===== src/Panel/Tests.antt =====
-- The theorems on panels of src/panel.c, applied to a panel of five entries on five lines.
use gnu_gnuit.Prelude.{ℕ, ◌+◌, ◌-◌, ◌<◌, ◌≡◌, refl, Bool, true, false, [], ◌∷◌, min, arith, inr}
use gnu_gnuit.Prelude.Int.{pos}
use gnu_gnuit.Panel.{Panel, DirEntry, EntryType, is_file}
use gnu_gnuit.Panel.Valid.{IsValid, count_selected}
use gnu_gnuit.Panel.Cursor.{act_down}
use gnu_gnuit.Panel.Selection.{panel_init_iterator, act_toggle}
use gnu_gnuit.Panel.Iteration.{collect, selected_places, panel_get_next_lem}
use gnu_gnuit.Panel.Moves.{act_down_lem}
use gnu_gnuit.Panel.Counts.{count_directories, act_toggle-undercounts}

abbrev directory : DirEntry
directory = record { name = b'd' ∷ []; type = EntryType.dir_entry; selected = true }

abbrev file : ℕ → Bool → DirEntry
file c selected = record { name = c ∷ []; type = EntryType.file_entry; selected = selected }

abbrev sample : Panel
sample = record {
  path = b'/' ∷ [];
  entry_list =
      directory ∷ file b'a' false ∷ file b'b' true ∷ file b'c' false ∷ file b'e' false ∷ [];
  entries = 5;
  current_entry = 2;
  first_on_screen = 1;
  plines = 5;
  scroll_step = 2;
  selected_entries = 2;
  last_index = pos 0;
  multiple_files = 0;
}

sample-IsValid : IsValid sample
sample-IsValid = record {
  counted = refl;
  inside = omega arith;
  rows = omega arith;
  above = omega arith;
  below = omega arith;
  filled = inr (omega arith);
  step_low = omega arith;
  step_high = omega arith;
  selection = refl;
}

act_down_example :
    IsValid (act_down 7 sample) × ((act_down 7 sample).current_entry ≡ min (2 + 7) (5 - 1))
act_down_example = act_down_lem 7 sample sample-IsValid

act_toggle-undercounts_example :
    let sample' = act_toggle sample in
    (sample'.selected_entries < count_selected sample'.entry_list)
    × (sample'.selected_entries + count_directories sample.entry_list
        ≡ count_selected sample'.entry_list)
    × ¬ (IsValid sample')
unfolding is_file
act_toggle-undercounts_example = act_toggle-undercounts sample sample-IsValid (omega arith)

panel_get_next_example :
    collect (5 + 1) (panel_init_iterator sample) ≡ selected_places sample.entry_list 0
panel_get_next_example = panel_get_next_lem sample sample-IsValid (omega arith)
