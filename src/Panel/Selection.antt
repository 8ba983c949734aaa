-- ===== src/Panel/Selection.antt =====
-- src/panel.c: the selection of a panel, and the iterator over the files that an action works on.
use gnu_gnuit.Prelude.{
  ℕ, zero, suc, ◌+◌, ◌-◌, Bool, true, false, Option, none, some, List, [], ◌∷◌, drop, ltb, ◌==◌,
  ◌&&◌, ◌||◌, not, if◌then◌else◌,
}
use gnu_gnuit.Prelude.Int.{ℤ, pos, negsuc}
use gnu_gnuit.Panel.{Panel, DirEntry, is_file, rootdir}
use gnu_gnuit.Panel.Cursor.{act_down}

-- `dir_entry[index].selected`; nothing is selected outside the list.
unfoldable pub selected_at : List DirEntry → ℕ → Bool
selected_at [] index = false
selected_at (e ∷ rest) zero = e.selected
selected_at (e ∷ rest) (suc index) = selected_at rest index

-- `dir_entry[index].selected = !dir_entry[index].selected`
unfoldable pub toggle_at : List DirEntry → ℕ → List DirEntry
toggle_at [] index = []
toggle_at (e ∷ rest) zero = record e { selected = not e.selected } ∷ rest
toggle_at (e ∷ rest) (suc index) = e ∷ toggle_at rest index

-- The test and the update of act_SELECT, before it goes down.
unfoldable pub toggle_current : Panel → Panel
toggle_current this =
    if rootdir this || not (this.current_entry == 0)
    then (let toggled = toggle_at this.entry_list this.current_entry in
        record this {
          entry_list = toggled;
          selected_entries =
              if selected_at toggled this.current_entry
              then this.selected_entries + 1
              else this.selected_entries - 1;
        })
    else this

unfoldable pub act_select : ℕ → Panel → Panel
act_select repeat_count this = act_down repeat_count (toggle_current this)

-- The loop of `panel_select_all`, with the count of selected entries.
unfoldable pub select_files : List DirEntry → ℕ → List DirEntry × ℕ
select_files [] count = ([], count)
select_files (e ∷ rest) count =
    let fresh = not e.selected && is_file e in
    let (rest', count') = select_files rest (if fresh then count + 1 else count) in
    ((if fresh then record e { selected = true } else e) ∷ rest', count')

unfoldable pub panel_select_all : Panel → Panel
unfolding select_files
panel_select_all this =
    let (entry_list', count) = select_files this.entry_list this.selected_entries in
    record this { entry_list = entry_list'; selected_entries = count }

unfoldable pub unselect : List DirEntry → List DirEntry
unselect [] = []
unselect (e ∷ rest) = record e { selected = false } ∷ unselect rest

unfoldable pub panel_unselect_all : Panel → Panel
panel_unselect_all this = record this {
  entry_list = unselect this.entry_list;
  selected_entries = 0;
}

-- The loop of act_TOGGLE.
unfoldable pub toggle_files : List DirEntry → ℕ → List DirEntry × ℕ
toggle_files [] count = ([], count)
toggle_files (e ∷ rest) count =
    let flipped = record e { selected = not e.selected } in
    let count' = if is_file e then count + (if flipped.selected then 1 else 0) else count in
    let (rest', total) = toggle_files rest count' in
    ((if is_file e then flipped else e) ∷ rest', total)

unfoldable pub act_toggle : Panel → Panel
unfolding toggle_files
act_toggle this =
    let (entry_list', count) = toggle_files this.entry_list 0 in
    record this { entry_list = entry_list'; selected_entries = count }

-- The loops of act_PATTERN_SELECT (`wanted`) and act_PATTERN_UNSELECT, for one pattern. `matches`
-- is fnmatch on the name, with the flags of the setting.
unfoldable pub match_files : (List ℕ → Bool) → Bool → List DirEntry → ℕ → List DirEntry × ℕ
match_files matches wanted [] count = ([], count)
match_files matches wanted (e ∷ rest) count =
    let hit = is_file e && matches e.name in
    let changes = hit && (if wanted then not e.selected else e.selected) in
    let count' = if changes then (if wanted then count + 1 else count - 1) else count in
    let (rest', total) = match_files matches wanted rest count' in
    ((if changes then record e { selected = wanted } else e) ∷ rest', total)

unfoldable pub act_pattern : (List ℕ → Bool) → Bool → Panel → Panel
unfolding match_files
act_pattern matches wanted this =
    let (entry_list', count) = match_files matches wanted this.entry_list this.selected_entries in
    record this { entry_list = entry_list'; selected_entries = count }

-- `panel_init_iterator`
unfoldable pub panel_init_iterator : Panel → Panel
panel_init_iterator this = record this {
  last_index = negsuc 0;
  multiple_files = this.selected_entries;
}

-- `for (i = index; i < entries; i++) if (dir_entry[i].selected) return i`
unfoldable pub next_selected : List DirEntry → ℕ → Option ℕ
next_selected [] index = none
next_selected (e ∷ rest) index = if e.selected then some index else next_selected rest (index + 1)

-- `last_index + 1`, for a `last_index` of at least -1.
unfoldable pub after_last : ℤ → ℕ
after_last (pos index) = suc index
after_last (negsuc n) = 0

-- `none` is the result -1.
unfoldable pub panel_get_next : Panel → Panel × Option ℕ
unfolding after_last next_selected rootdir
panel_get_next this =
    if ltb 0 this.multiple_files
    then (let start = after_last this.last_index in
        elim (next_selected (drop start this.entry_list) start) [
          | some index ↦ (record this { last_index = pos index }, some index)
          | none ↦ (this, none)
        ])
    else elim this.last_index [
      | pos zero ↦ (this, none)
      | _ ↦
          let used = record this { last_index = pos 0 } in
          if rootdir this || not (this.current_entry == 0)
          then (used, some this.current_entry)
          else (used, none)
    ]
