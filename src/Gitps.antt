-- ===== src/Gitps.antt =====
-- src/gitps.c: the list of processes, as the main loop's keys, a new list and a new screen size move in
-- it, the signal that is chosen, and the column that the process number is read from (Gitps/Pid). What
-- is drawn, but for one line, is left out. The screen has three lines at least and the list has a process
-- at least; a difference of the source that can be negative is written as a comparison of sums.
pub mod Pid
pub mod Columns
pub mod Fields
pub mod Line
pub mod OnScreen
pub mod Rows
pub mod Signals
pub mod Tests
use gnu_gnuit.Prelude.{
  ℕ, zero, suc, ◌+◌, ◌-◌, ◌/◌, ◌%◌, Bool, List, [], ◌∷◌, ◌++◌, ◌==◌, ◌||◌, ◌&&◌, leb, ltb, length,
  take, drop, replicate, min, if◌then◌else◌,
}

pub record Ps : Type 0 where
  pub tty_lines : ℕ
  pub tty_columns : ℕ
  pub processes : ℕ
  pub current_process : ℕ
  pub first_on_screen : ℕ
  pub scroll_step : ℕ
  pub horizontal_offset : ℕ
  pub signal_type : ℕ

-- A built-in command, with its repeat count where the loop uses it; `signal` stands for the commands
-- BUILTIN_SIGALRM and so on.
pub data Key : Type 0 where
  previous_line next_line : ℕ → Key
  scroll_down scroll_up beginning_of_list end_of_list : Key
  horizontal_scroll_left horizontal_scroll_right next_signal : Key
  signal : ℕ → Key

unfoldable pub previous_process : Ps → Ps
previous_process s =
    if s.current_process == s.first_on_screen
    then record s {
      current_process = s.current_process - 1;
      first_on_screen = s.first_on_screen - s.scroll_step;
    }
    else record s { current_process = s.current_process - 1 }

unfoldable pub previous_processes : ℕ → Ps → Ps
unfolding previous_process
previous_processes zero s = s
previous_processes (suc n) s =
    let rest = previous_processes n (previous_process s) in
    if s.current_process == 0 then s else rest

unfoldable pub next_process : Ps → Ps
next_process s =
    if leb (s.first_on_screen + s.tty_lines) (s.current_process + 1 + 3)
    then record s {
      current_process = s.current_process + 1;
      first_on_screen = min (s.first_on_screen + s.scroll_step) (s.processes + 3 - s.tty_lines);
    }
    else record s { current_process = s.current_process + 1 }

unfoldable pub next_processes : ℕ → Ps → Ps
unfolding next_process
next_processes zero s = s
next_processes (suc n) s =
    let rest = next_processes n (next_process s) in
    if ltb (s.current_process + 1) s.processes then rest else s

unfoldable pub page_back : Ps → Ps
page_back s =
    if s.current_process == 0
    then s
    else if ltb (s.current_process + 3) s.tty_lines
    then record s { current_process = 0; first_on_screen = 0 }
    else record s {
      current_process = s.current_process + 3 - s.tty_lines;
      first_on_screen = s.first_on_screen + 3 - s.tty_lines;
    }

unfoldable pub page_on : Ps → Ps
page_on s =
    if s.current_process + 1 == s.processes
    then s
    else if ltb (s.processes + 2) (s.first_on_screen + s.tty_lines)
    then record s { current_process = s.processes - 1 }
    else if ltb (s.processes + 2) (s.current_process + s.tty_lines)
    then record s {
      current_process = s.processes - 1;
      first_on_screen = s.processes + 3 - s.tty_lines;
    }
    else record s {
      current_process = s.current_process + s.tty_lines - 3;
      first_on_screen = min (s.first_on_screen + s.tty_lines - 3) (s.processes + 3 - s.tty_lines);
    }

unfoldable pub to_beginning : Ps → Ps
to_beginning s =
    if s.current_process == 0 then s else record s { current_process = 0; first_on_screen = 0 }

unfoldable pub to_end : Ps → Ps
to_end s = if s.current_process + 1 == s.processes then s else record s {
  current_process = s.processes - 1;
  first_on_screen = s.processes + 3 - s.tty_lines;
}

-- The number of the table's first entry for a signal, from `i` on.
unfoldable pub signal_index : ℕ → ℕ → List ℕ → ℕ → ℕ
signal_index index i [] otherwise = otherwise
signal_index index i (number ∷ sigdesc) otherwise =
    let rest = signal_index index (i + 1) sigdesc otherwise in if number == index then i else rest

-- `sigdesc` has the numbers that <signal.h> gives to the signals of the table of that name.
module _ (sigdesc : List ℕ) where
  unfoldable pub set_signal : ℕ → Ps → Ps
  unfolding signal_index
  set_signal index s = record s { signal_type = signal_index index 0 sigdesc s.signal_type }

  unfoldable pub press : Key → Ps → Ps
  unfolding previous_processes next_processes page_back page_on to_beginning to_end set_signal
  press (previous_line n) s = previous_processes n s
  press (next_line n) s = next_processes n s
  press scroll_down s = page_back s
  press scroll_up s = page_on s
  press horizontal_scroll_left s = record s { horizontal_offset = s.horizontal_offset - 1 }
  press horizontal_scroll_right s = record s { horizontal_offset = s.horizontal_offset + 1 }
  press beginning_of_list s = to_beginning s
  press end_of_list s = to_end s
  press next_signal s = record s { signal_type = (s.signal_type + 1) % length sigdesc }
  press (signal index) s = set_signal index s

-- The function `resize`, for a screen that now has `lines` lines and `columns` columns, where it does not
-- return at once. `startup` is StartupScrollStep, 0 where that is negative.
unfoldable pub resize : ℕ → ℕ → ℕ → Ps → Ps
resize startup lines columns s =
    let current = min s.current_process (s.processes - 1) in
    record s {
      tty_lines = lines;
      tty_columns = columns;
      current_process = current;
      first_on_screen = current + 1 + 3 - lines;
      scroll_step =
          if leb 5 lines
          then if startup == 0 || leb lines (startup + 1 + 3) then (lines - 3) / 2 else startup
          else s.scroll_step;
    }

-- The function `screen_refresh`: it resizes where the screen's size changed.
unfoldable pub screen_refresh : ℕ → ℕ → ℕ → Ps → Ps
unfolding resize
screen_refresh startup lines columns s =
    let clamped = record s { current_process = min s.current_process (s.processes - 1) } in
    if lines == s.tty_lines && columns == s.tty_columns
    then clamped
    else resize startup lines columns clamped

-- The label `restart`, after ps listed `n` processes: build_ps_list and screen_refresh.
unfoldable pub restart : ℕ → ℕ → ℕ → ℕ → Ps → Ps
unfolding screen_refresh
restart startup lines columns n s =
    screen_refresh startup lines columns (record s { processes = n })

-- The characters that update_process writes in the `columns` columns of a process's line.
unfoldable pub process_line : ℕ → ℕ → Bool → List ℕ → List ℕ
process_line columns scrolled current text =
    let width = columns - 2 in
    let offset = if leb (length text) width then 0 else min scrolled (length text - width) in
    let shown = take width (drop offset text) in
    if ltb 2 columns
    then (if current then b'>' else b' ') ∷ b' ' ∷ shown ++ replicate (width - length shown) b' '
    else replicate columns b' '
