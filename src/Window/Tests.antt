-- ===== src/Window/Tests.antt =====
-- The theorem on windows, applied to a string that is too long for its window.
use gnu_gnuit.Prelude.Int.{pos}
use gnu_gnuit.Window.{Window}

abbrev narrow : Window
narrow = record {
  x = pos 1;
  y = pos 2;
  wlines = pos 3;
  wcolumns = pos 10;
  cursor_x = pos 4;
  cursor_y = pos 1;
}
