-- ===== src/Gitview/Tests.antt =====
-- The theorems on the file viewer, applied to a file of 640 bytes on a screen of 24 lines.
use gnu_gnuit.Prelude.{ℕ, ◌/◌, ◌≡◌, refl, min, [], arith}
use gnu_gnuit.Gitview.{View, next_line, scroll_up, action, g_lines, press}
use gnu_gnuit.Gitview.Inside.{IsInside, pressed, Viewed, start, after, Viewed-IsInside}
use gnu_gnuit.Gitview.Seek.{to_hex, type_all, seek-to_hex}

abbrev on_screen : ℕ → ℕ → View
on_screen size line = record { tty_lines = 24; size = size; current_line = line; offset = [] }

on_screen-IsInside : IsInside (on_screen 640 3)
unfolding g_lines
on_screen-IsInside = record {
  tall = omega arith;
  long = omega arith;
  line = omega arith;
  small = omega arith;
}

-- A page on and three lines more.
abbrev paged : View
paged = press (next_line 3) (press scroll_up (on_screen 640 3))

paged_moves : Viewed (on_screen 640 3) paged
paged_moves = after (after start (pressed _ scroll_up tt)) (pressed _ (next_line 3) tt)

Viewed-IsInside_example : IsInside paged
Viewed-IsInside_example = Viewed-IsInside paged_moves on_screen-IsInside

seek-to_hex_example :
    press action (type_all (to_hex 3 100) (on_screen 640 3))
    ≡ record (on_screen 640 3) { current_line = min 100 640 / 16; offset = [] }
seek-to_hex_example =
    seek-to_hex 3 100 (on_screen 640 3) (omega arith) (omega arith) (omega arith) refl (omega arith)
