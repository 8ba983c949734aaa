-- ===== src/Panel/Counts.antt =====
-- The selection of a panel: `selected_entries` counts the selected entries.
use gnu_gnuit.Prelude.{
  ℕ, zero, suc, ◌+◌, ◌-◌, ◌≤◌, ◌<◌, ◌≡◌, refl, ap, Bool, true, false, not, List, [], ◌∷◌, length,
  if◌then◌else◌, ◌&&◌, arith,
}
use gnu_gnuit.Panel.{Panel, DirEntry, is_file}
use gnu_gnuit.Panel.Valid.{IsValid, count_selected}
use gnu_gnuit.Panel.Moves.{act_down_lem}
use gnu_gnuit.Panel.Selection.{
  selected_at, toggle_at, toggle_current, act_select, select_files, panel_select_all, unselect,
  panel_unselect_all, toggle_files, act_toggle, match_files, act_pattern,
}

count-toggle_at :
    (list : List DirEntry) (index : ℕ)
    → index < length list
    → count_selected (toggle_at list index)
        + (if selected_at (toggle_at list index) index then 0 else 1)
      ≡ count_selected list + (if selected_at (toggle_at list index) index then 1 else 0)
unfolding toggle_at selected_at
count-toggle_at [] index h = absurd (omega arith)
count-toggle_at (e ∷ list) zero h = ground arith
count-toggle_at (e ∷ list) (suc index) h = omega (arith, count-toggle_at list index (omega arith))

length-toggle_at : (list : List DirEntry) (index : ℕ) → length (toggle_at list index) ≡ length list
unfolding toggle_at
length-toggle_at [] index = refl
length-toggle_at (e ∷ list) zero = refl
length-toggle_at (e ∷ list) (suc index) = ap suc (length-toggle_at list index)

toggle_current-IsValid : (this : Panel) → IsValid this → IsValid (toggle_current this)
unfolding toggle_current
toggle_current-IsValid this v = ground (
  arith,
  length-toggle_at this.entry_list this.current_entry,
  count-toggle_at this.entry_list this.current_entry,
)

-- act_SELECT keeps a valid panel valid, with any repeat count: the count of selected entries goes
-- with the entry that it toggles, and the cursor stays in the list and on the screen.
pub act_select-IsValid : (n : ℕ) (this : Panel) → IsValid this → IsValid (act_select n this)
unfolding act_select
act_select-IsValid n this v = (act_down_lem n _ (toggle_current-IsValid this v)).0

-- The loop of `panel_select_all` adds to the count what it adds to the selection.
select_files_lem :
    (list : List DirEntry) (count : ℕ)
    → ((select_files list count).1 + count_selected list
        ≡ count + count_selected (select_files list count).0)
      × (length (select_files list count).0 ≡ length list)
unfolding select_files
select_files_lem [] count = (omega arith, refl)
select_files_lem (e ∷ list) count =
    ground (arith, select_files_lem list count, select_files_lem list (count + 1))

count-unselect : (list : List DirEntry) → count_selected (unselect list) ≡ 0
unfolding unselect
count-unselect [] = refl
count-unselect (e ∷ list) = omega (arith, count-unselect list)

length-unselect : (list : List DirEntry) → length (unselect list) ≡ length list
unfolding unselect
length-unselect [] = refl
length-unselect (e ∷ list) = ap suc (length-unselect list)

-- Selecting all files keeps a valid panel valid: its count of selected entries is right after it.
pub panel_select_all-IsValid : (this : Panel) → IsValid this → IsValid (panel_select_all this)
unfolding panel_select_all
panel_select_all-IsValid this v =
    ground (arith, select_files_lem this.entry_list this.selected_entries)

pub panel_unselect_all-IsValid : (this : Panel) → IsValid this → IsValid (panel_unselect_all this)
unfolding panel_unselect_all
panel_unselect_all-IsValid this v =
    ground (arith, count-unselect this.entry_list, length-unselect this.entry_list)

-- The directories among the selected entries.
abbrev pub count_directories : List DirEntry → ℕ
count_directories [] = 0
count_directories (e ∷ rest) =
    (if e.selected && not (is_file e) then 1 else 0) + count_directories rest

-- The loop of act_TOGGLE counts the files that it selects, and passes over the directories.
toggle_files_lem :
    (list : List DirEntry) (count : ℕ)
    → ((toggle_files list count).1 + count_directories list
        ≡ count + count_selected (toggle_files list count).0)
      × (count_directories (toggle_files list count).0 ≡ count_directories list)
      × (length (toggle_files list count).0 ≡ length list)
unfolding toggle_files is_file
toggle_files_lem [] count = (omega arith, refl, refl)
toggle_files_lem (e ∷ list) count =
    ground (arith, toggle_files_lem list count, toggle_files_lem list (count + 1))

-- After act_TOGGLE the count misses the directories that were selected before, and no others.
pub act_toggle_lem :
    (this : Panel)
    → (act_toggle this).selected_entries + count_directories this.entry_list
      ≡ count_selected (act_toggle this).entry_list
unfolding act_toggle
act_toggle_lem this = omega (arith, toggle_files_lem this.entry_list 0)

pub act_toggle-IsValid :
    (this : Panel)
    → IsValid this
    → count_directories this.entry_list ≡ 0
    → IsValid (act_toggle this)
unfolding act_toggle
act_toggle-IsValid this v none_dir = ground (arith, toggle_files_lem this.entry_list 0)

-- From a valid panel with a directory selected, act_TOGGLE leaves a count of selected entries that is
-- too small, by as many as the directories that were selected, and so a panel that is not valid.
pub act_toggle-undercounts :
    (this : Panel)
    → IsValid this
    → 0 < count_directories this.entry_list
    → let this' = act_toggle this in
      (this'.selected_entries < count_selected this'.entry_list)
      × (this'.selected_entries + count_directories this.entry_list
          ≡ count_selected this'.entry_list)
      × ¬ (IsValid this')
act_toggle-undercounts this v some_dir = (
  omega (arith, act_toggle_lem this, some_dir),
  act_toggle_lem this,
  λ v'. absurd (omega (arith, act_toggle_lem this, v'.selection, some_dir)),
)

-- The loops over one pattern move the count with the selection, whatever the pattern matches.
match_files_lem :
    (matches : List ℕ → Bool) (wanted : Bool) (list : List DirEntry) (count : ℕ)
    → count_selected list ≤ count
    → ((match_files matches wanted list count).1 + count_selected list
        ≡ count + count_selected (match_files matches wanted list count).0)
      × (length (match_files matches wanted list count).0 ≡ length list)
unfolding match_files
match_files_lem matches wanted [] count h = (omega arith, refl)
match_files_lem matches true (e ∷ list) count h =
    ground (
      arith,
      match_files_lem matches true list count,
      match_files_lem matches true list (count + 1),
    )
match_files_lem matches false (e ∷ list) count h = ground (
  arith,
  match_files_lem matches false list count,
  match_files_lem matches false list (count - 1),
)

-- Selecting or unselecting what a pattern matches keeps a valid panel valid, whatever it matches.
pub pattern_select-IsValid :
    (matches : List ℕ → Bool) (wanted : Bool) (this : Panel)
    → IsValid this
    → IsValid (act_pattern matches wanted this)
unfolding act_pattern
pattern_select-IsValid matches wanted this v =
    ground (arith, match_files_lem matches wanted this.entry_list this.selected_entries)
