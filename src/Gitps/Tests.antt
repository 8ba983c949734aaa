-- ===== src/Gitps/Tests.antt =====
-- The theorems on the process list, applied to thirty processes on a screen of 24 lines, and to the
-- output of ps with the fields `S PID CMD`.
use gnu_gnuit.Prelude.{
  ℕ, ◌+◌, ◌-◌, ◌*◌, ◌≡◌, ◌&&◌, refl, Bool, true, some, List, [], ◌∷◌, ◌==◌, arith,
}
use gnu_gnuit.Prelude.Int.{pos}
use gnu_gnuit.Gitps.{Ps, next_line, press, resize, screen_refresh}
use gnu_gnuit.Gitps.Pid.{equal_ℤ, begins_pid, found, get_pid_index, kill_process}
use gnu_gnuit.Gitps.OnScreen.{Moved, start, after, pressed, resized, Moved-IsOnScreen}
use gnu_gnuit.Gitps.Rows.{IsOnScreen, resize-IsOnScreen}
use gnu_gnuit.Gitps.Columns.{header_of, kill_process-header}
use gnu_gnuit.Gitps.Fields.{Field, AllBlack, fields_then}

abbrev began : Ps
began = record {
  tty_lines = 24;
  tty_columns = 80;
  processes = 30;
  current_process = 0;
  first_on_screen = 0;
  scroll_step = 0;
  horizontal_offset = 0;
  signal_type = 1;
}

abbrev begun : Ps
begun = resize 0 24 80 began

begun-IsOnScreen : IsOnScreen begun
begun-IsOnScreen = resize-IsOnScreen began 0 24 80 (omega arith) (omega arith)

abbrev sigdesc : List ℕ
sigdesc = 14 ∷ 6 ∷ 1 ∷ 15 ∷ []

-- 21 lines down the window scrolls; the screen then shrinks.
abbrev moved : Ps
moved = screen_refresh 0 20 80 (press sigdesc (next_line 21) begun)

moves : Moved sigdesc begun moved
moves = after (after start (pressed begun (next_line 21))) (resized _ 0 20 80 (omega arith))

Moved-IsOnScreen_example : IsOnScreen moved
Moved-IsOnScreen_example = Moved-IsOnScreen moves begun-IsOnScreen

scrolled_down : (press sigdesc (next_line 21) begun).first_on_screen ≡ 9
unfolding press resize
scrolled_down = refl

abbrev blank : ℕ → Bool
blank c = c == 32

-- A field of one letter, S.
abbrev letter : Field blank
letter = record {
  spaces = [];
  first = 83;
  others = [];
  space = 32;
  blank = tt;
  black = (refl, tt);
  behind = refl;
}

-- The number 42, whose digits are the characters 52 and 50.
abbrev number : Field blank
number = record {
  spaces = 32 ∷ [];
  first = 52;
  others = 50 ∷ [];
  space = 32;
  blank = (refl, tt);
  black = (refl, (refl, tt));
  behind = refl;
}

abbrev decimal : ℕ → List ℕ → ℕ
decimal value [] = value
decimal value (c ∷ text) = decimal (value * 10 + (c - 48)) text

abbrev pid_black : AllBlack blank (80 ∷ 73 ∷ 68 ∷ [])
pid_black = (refl, (refl, (refl, tt)))

kill_process-header_example :
    (get_pid_index blank (header_of blank pid_black (letter ∷ []) (32 ∷ []) (32 ∷ []))
      ≡ some (found 1))
    × (kill_process blank
          (decimal 0)
          (λ pid sent. equal_ℤ pid (pos 42) && sent == 15)
          15
          1
          (fields_then blank (letter ∷ []) (fields_then blank (number ∷ []) (67 ∷ [])))
        ≡ found true)
unfolding begins_pid
kill_process-header_example =
    kill_process-header blank pid_black (decimal 0) (λ pid sent. equal_ℤ pid (pos 42) && sent == 15)
      15 (letter ∷ []) (letter ∷ []) (32 ∷ []) (32 ∷ []) number (67 ∷ []) (refl, tt) (refl, tt) refl
      (omega arith) (omega arith) (omega arith)
