-- ===== src/Window/Clipping.antt =====
-- src/window.c: what reaches the terminal stays within the window.
use gnu_gnuit.Prelude.{◌≡◌, true, Option, none, some}
use gnu_gnuit.Prelude.Int.{ℤ, pos, ◌+ℤ◌, ltb_ℤ, ◌≤ℤ◌}
use gnu_gnuit.Window.{Window}

-- `k` characters written at the cursor lie inside the window, and they are not more than asked for.
abbrev pub InWindow : Window → ℤ → Option ℤ → Type 0
InWindow w length none = Unit
InWindow w length (some k) =
    (pos 0 ≤ℤ w.cursor_x)
    × (pos 0 ≤ℤ w.cursor_y)
    × (ltb_ℤ w.cursor_y w.wlines ≡ true)
    × ((w.cursor_x +ℤ k) ≤ℤ w.wcolumns)
    × (k ≤ℤ length)
    × (pos 0 ≤ℤ length → pos 0 ≤ℤ k)
