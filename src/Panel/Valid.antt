-- ===== src/Panel/Valid.antt =====
-- The invariant of a panel.
use gnu_gnuit.Prelude.{ℕ, ◌+◌, ◌≤◌, ◌<◌, ◌≡◌, ◌⊎◌, length, List, [], ◌∷◌, if◌then◌else◌}
use gnu_gnuit.Panel.{Panel, DirEntry}

abbrev pub count_selected : List DirEntry → ℕ
count_selected [] = 0
count_selected (e ∷ rest) = (if e.selected then 1 else 0) + count_selected rest

pub record IsValid (this : Panel) : Type 0 where
  pub counted : this.entries ≡ length this.entry_list
  pub inside : this.current_entry < this.entries
  pub rows : 3 ≤ this.plines
  pub above : this.first_on_screen ≤ this.current_entry
  pub below : this.current_entry + 2 < this.first_on_screen + this.plines
  pub filled : (this.first_on_screen ≡ 0) ⊎ (this.first_on_screen + this.plines ≤ this.entries + 2)
  pub step_low : 0 < this.scroll_step
  pub step_high : this.scroll_step + 1 < this.plines
  pub selection : this.selected_entries ≡ count_selected this.entry_list
