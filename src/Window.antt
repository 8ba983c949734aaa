-- ===== src/Window.antt =====
-- src/window.c: a rectangle of the screen with a cursor, and what of a string it lets through to
-- the terminal.
pub mod Clipping
pub mod Tests
use gnu_gnuit.Prelude.{Bool, true, false, Option, none, some, if◌then◌else◌}
use gnu_gnuit.Prelude.Int.{ℤ, pos, ◌+ℤ◌, ◌-ℤ◌, ltb_ℤ}

pub record Window : Type 0 where
  pub x : ℤ
  pub y : ℤ
  pub wlines : ℤ
  pub wcolumns : ℤ
  pub cursor_x : ℤ
  pub cursor_y : ℤ

unfoldable pub window_resize : Window → ℤ → ℤ → ℤ → ℤ → Window
window_resize w x y lines columns = record w { x = x; y = y; wlines = lines; wcolumns = columns }

-- `fresh` is the block that xmalloc returns. The arguments go to `window_resize` as they are
-- written: its first two are the position.
unfoldable pub window_init : Window → ℤ → ℤ → ℤ → ℤ → Window
window_init fresh lines cols y x = window_resize fresh lines cols x y

-- How many characters of a string of `length` reach tty_puts; `none` where it is not called.
unfoldable pub window_puts : Window → ℤ → Window × Option ℤ
window_puts w length =
    let w' = record w { cursor_x = w.cursor_x +ℤ length } in
    if ltb_ℤ w.cursor_x w.wcolumns
    then if ltb_ℤ w.cursor_y w.wlines
      then if ltb_ℤ w.wcolumns (w.cursor_x +ℤ length)
        then (w', some (w.wcolumns -ℤ w.cursor_x))
        else (w', some length)
      else (w', none)
    else (w', none)

-- The flag says whether the character reaches tty_putc.
unfoldable pub window_putc : Window → Window × Bool
window_putc w =
    let w' = record w { cursor_x = w.cursor_x +ℤ pos 1 } in
    if ltb_ℤ w.wcolumns w'.cursor_x
    then (w', false)
    else if ltb_ℤ w.cursor_y w.wlines
    then (w', true)
    else (w', false)

-- The second part is the screen position handed to tty_goto, line first.
unfoldable pub window_goto : Window → ℤ → ℤ → Window × ℤ × ℤ
window_goto w y x = (record w { cursor_x = x; cursor_y = y }, y +ℤ w.y, x +ℤ w.x)

unfoldable pub window_x : Window → ℤ
window_x w = w.x

unfoldable pub window_y : Window → ℤ
window_y w = w.y

unfoldable pub window_lines : Window → ℤ
window_lines w = w.wlines

unfoldable pub window_columns : Window → ℤ
window_columns w = w.wcolumns
