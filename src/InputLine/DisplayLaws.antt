-- ===== src/InputLine/DisplayLaws.antt =====
-- The cursor of src/inputline.c stands in the window, on the character at the point.
use gnu_gnuit.Prelude.{ℕ, ◌-◌, ◌<◌, ◌≤◌, ◌≡◌}
use gnu_gnuit.InputLine.{InputLine}
use gnu_gnuit.InputLine.Display.{Visible, visible, scrolled}

-- What is drawn has room for a character at least, and the point lies in its dynamic part.
record Fits (ilcolumns : ℕ) (v : Visible) : Type 0 where
  wide : v.static_length < ilcolumns
  low : v.static_length ≤ v.point
  high : v.point ≤ v.length
  short : v.length < 4294967296

-- What is drawn of the line has its point, and as much behind it.
record Sees (il : InputLine) (v : Visible) : Type 0 where
  fits : Fits il.ilcolumns v
  behind : v.length - v.point ≡ il.length - il.point
  at : v.cells v.point ≡ il.buffer il.point

-- The column of the cursor, for characters of one column each.
abbrev pub cursor_column : InputLine → ℕ
cursor_column il = (visible il).point - scrolled il.ilcolumns (visible il)
