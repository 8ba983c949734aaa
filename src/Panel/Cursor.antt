-- ===== src/Panel/Cursor.antt =====
-- src/panel.c: the cursor of a panel. `none` is a failed assertion.
use gnu_gnuit.Prelude.{
  ℕ, zero, suc, ◌+◌, ◌-◌, ◌/◌, true, false, Option, none, some, min, ltb, leb, ◌==◌, ◌&&◌, ◌||◌,
  not, if◌then◌else◌,
}
use gnu_gnuit.Panel.{Panel}

unfoldable pub panel_get_centered_fos : Panel → ℕ
panel_get_centered_fos this =
    let lines = this.plines - 2 in
    if leb (this.entries + lines / 2) (this.current_entry + lines)
    then this.entries - lines
    else this.current_entry - lines / 2

unfoldable pub panel_get_fos : Panel → ℕ
unfolding panel_get_centered_fos
panel_get_fos this =
    if leb this.first_on_screen this.current_entry
      && ltb (this.current_entry + 2) (this.first_on_screen + this.plines)
      && leb (this.first_on_screen + this.plines) (this.entries + 2)
    then this.first_on_screen
    else panel_get_centered_fos this

unfoldable pub panel_set_current_entry : Panel → ℕ → Option Panel
unfolding panel_get_fos
panel_set_current_entry this entry =
    if ltb entry this.entries
    then (let moved = record this { current_entry = entry } in
        some (record moved { first_on_screen = panel_get_fos moved }))
    else none

unfoldable pub panel_center_current_entry : Panel → Panel
unfolding panel_get_centered_fos
panel_center_current_entry this = record this { first_on_screen = panel_get_centered_fos this }

-- The part of `panel_resize` that concerns the list; `startup` is StartupScrollStep, where a
-- negative setting counts as 0.
unfoldable pub panel_resize : ℕ → ℕ → Panel → Panel
unfolding panel_center_current_entry
panel_resize startup lines this = panel_center_current_entry (record this {
  plines = lines;
  scroll_step = if startup == 0 || leb lines (startup + 1) then lines / 2 else startup;
})

-- act_UP: the body of its loop, and the loop over `repeat_count`.
unfoldable pub up_step : Panel → Panel
up_step this =
    let moved = record this { current_entry = this.current_entry - 1 } in
    if this.current_entry == this.first_on_screen
    then record moved { first_on_screen = this.first_on_screen - this.scroll_step }
    else moved

unfoldable pub act_up : ℕ → Panel → Panel
act_up zero this = this
act_up (suc repeat_count) this = elim (this.current_entry == 0) [
  | true ↦ this
  | false ↦ act_up repeat_count (up_step this)
]

-- act_DOWN likewise.
unfoldable pub down_step : Panel → Panel
down_step this =
    let moved = record this { current_entry = this.current_entry + 1 } in
    if leb (this.plines + this.first_on_screen) (moved.current_entry + 2)
    then record moved {
      first_on_screen =
          min (this.first_on_screen + this.scroll_step) (this.entries + 2 - this.plines);
    }
    else moved

unfoldable pub act_down : ℕ → Panel → Panel
act_down zero this = this
act_down (suc repeat_count) this = elim (ltb (this.current_entry + 1) this.entries) [
  | true ↦ act_down repeat_count (down_step this)
  | false ↦ this
]

unfoldable pub act_pgup : Panel → Option Panel
unfolding panel_set_current_entry
act_pgup this =
    if this.current_entry == 0
    then some this
    else if ltb (this.current_entry + 2) this.plines
    then panel_set_current_entry this 0
    else panel_set_current_entry this (this.current_entry + 2 - this.plines)

unfoldable pub act_pgdown : Panel → Option Panel
unfolding panel_set_current_entry
act_pgdown this =
    if this.current_entry + 1 == this.entries
    then some this
    else if ltb (this.entries + 1) (this.plines + this.first_on_screen)
    then panel_set_current_entry this (this.entries - 1)
    else if ltb (this.entries + 1) (this.plines + this.current_entry)
    then panel_set_current_entry this (this.entries - 1)
    else panel_set_current_entry this (this.current_entry + this.plines - 2)

unfoldable pub act_home : Panel → Option Panel
unfolding panel_set_current_entry
act_home this = if not (this.current_entry == 0) then panel_set_current_entry this 0 else some this

unfoldable pub act_end : Panel → Option Panel
unfolding panel_set_current_entry
act_end this =
    if not (this.current_entry + 1 == this.entries)
    then panel_set_current_entry this (this.entries - 1)
    else some this
