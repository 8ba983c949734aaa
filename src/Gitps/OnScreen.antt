-- ===== src/Gitps/OnScreen.antt =====
-- Whether the current process of src/gitps.c is on the screen.
use gnu_gnuit.Prelude.{
  ◌&&◌, ℕ, zero, suc, ◌+◌, ◌-◌, ◌≤◌, ◌<◌, ◌≡◌, ◌⊎◌, refl, Bool-cases, inl, inr, true, List, ◌==◌,
  ltb, min, arith,
}
use gnu_gnuit.Gitps.{
  Ps, Key, previous_line, next_line, scroll_down, scroll_up, beginning_of_list, end_of_list,
  horizontal_scroll_left, horizontal_scroll_right, next_signal, signal, previous_process,
  previous_processes, next_process, next_processes, set_signal, press, screen_refresh, restart,
}
use gnu_gnuit.Gitps.Rows.{
  IsOnScreen, previous_process-IsOnScreen, next_process-IsOnScreen, page_back-IsOnScreen,
  page_on-IsOnScreen, to_beginning-IsOnScreen, to_end-IsOnScreen, resize-IsOnScreen,
}

previous_processes-IsOnScreen :
    (n : ℕ) (s : Ps) → IsOnScreen s → IsOnScreen (previous_processes n s)
unfolding previous_processes
previous_processes-IsOnScreen zero s i = i
previous_processes-IsOnScreen (suc n) s i = elim (Bool-cases (s.current_process == 0)) [
  | inl top ↦ simp top i
  | inr lower ↦
      simp lower (
        previous_processes-IsOnScreen n (previous_process s)
          (previous_process-IsOnScreen s i lower))
]

next_processes-IsOnScreen : (n : ℕ) (s : Ps) → IsOnScreen s → IsOnScreen (next_processes n s)
unfolding next_processes
next_processes-IsOnScreen zero s i = i
next_processes-IsOnScreen (suc n) s i =
    elim (Bool-cases (ltb (s.current_process + 1) s.processes)) [
      | inl more ↦
          simp more
            (next_processes-IsOnScreen n (next_process s) (next_process-IsOnScreen s i more))
      | inr end ↦ simp end i
    ]

-- The fields that the list on the screen depends on stay.
same_place :
    {s : Ps} (offset signal_type : ℕ)
    → IsOnScreen s
    → IsOnScreen (record s { horizontal_offset = offset; signal_type = signal_type })
same_place offset signal_type i = record {
  tall = i.tall;
  some = i.some;
  first = i.first;
  last = i.last;
  filled = i.filled;
  step = i.step;
  short = i.short;
}

press-IsOnScreen :
    (sigdesc : List ℕ) (key : Key) (s : Ps) → IsOnScreen s → IsOnScreen (press sigdesc key s)
unfolding press set_signal
press-IsOnScreen sigdesc (previous_line n) s i = previous_processes-IsOnScreen n s i
press-IsOnScreen sigdesc (next_line n) s i = next_processes-IsOnScreen n s i
press-IsOnScreen sigdesc scroll_down s i = page_back-IsOnScreen s i
press-IsOnScreen sigdesc scroll_up s i = page_on-IsOnScreen s i
press-IsOnScreen sigdesc horizontal_scroll_left s i = same_place _ s.signal_type i
press-IsOnScreen sigdesc horizontal_scroll_right s i = same_place _ s.signal_type i
press-IsOnScreen sigdesc beginning_of_list s i = to_beginning-IsOnScreen s i
press-IsOnScreen sigdesc end_of_list s i = to_end-IsOnScreen s i
press-IsOnScreen sigdesc next_signal s i = same_place s.horizontal_offset _ i
press-IsOnScreen sigdesc (signal index) s i = same_place s.horizontal_offset _ i

-- What happens to the list: a key; another size of the screen; a list of another length that still
-- reaches the current process and fills the rows that were filled.
pub data Move (sigdesc : List ℕ) : Ps → Ps → Type 0 where
  pressed : (s : Ps) (key : Key) → Move sigdesc s (press sigdesc key s)
  resized :
      (s : Ps) (startup lines columns : ℕ)
      → 5 ≤ lines
      → Move sigdesc s (screen_refresh startup lines columns s)
  listed :
      (s : Ps) (startup lines columns n : ℕ)
      → 5 ≤ lines
      → s.current_process < n
      → (s.first_on_screen ≡ 0) ⊎ (s.first_on_screen + s.tty_lines ≤ n + 3)
      → Move sigdesc s (restart startup lines columns n s)

pub data Moved (sigdesc : List ℕ) (s : Ps) : Ps → Type 0 where
  start : Moved sigdesc s s
  after : {t u : Ps} → Moved sigdesc s t → Move sigdesc t u → Moved sigdesc s u

min_inside :
    (s : Ps)
    → s.current_process < s.processes
    → min s.current_process (s.processes - 1) ≡ s.current_process
min_inside s h = omega (arith, h)

screen_refresh-IsOnScreen :
    (s : Ps) (startup lines columns : ℕ)
    → IsOnScreen s
    → 5 ≤ lines
    → IsOnScreen (screen_refresh startup lines columns s)
unfolding screen_refresh
screen_refresh-IsOnScreen s startup lines columns i tall =
    elim (Bool-cases (lines == s.tty_lines && columns == s.tty_columns)) [
      | inl same ↦ simp (same, min_inside s i.some) i
      | inr changed ↦ simp changed (
          resize-IsOnScreen (record s { current_process = min s.current_process (s.processes - 1) })
            startup lines columns (omega (arith, i.some)) tall)
    ]

Move-IsOnScreen : {sigdesc : List ℕ} {s t : Ps} → Move sigdesc s t → IsOnScreen s → IsOnScreen t
unfolding restart
Move-IsOnScreen (pressed s key) i = press-IsOnScreen _ key s i
Move-IsOnScreen (resized s startup lines columns tall) i =
    screen_refresh-IsOnScreen s startup lines columns i tall
Move-IsOnScreen (listed s startup lines columns n tall inside filled) i =
    screen_refresh-IsOnScreen (record s { processes = n }) startup lines columns
      (record {
        tall = i.tall;
        some = inside;
        first = i.first;
        last = i.last;
        filled = filled;
        step = i.step;
        short = i.short;
      })
      tall

-- From a list and a screen where this holds: the current process stays one of the list and on the
-- screen, no row is left empty while processes above the first row could fill it, and a step stays
-- shorter than the window, through any sequence of keys, of sizes of the screen of five lines at
-- least, and of new lists that still reach the current process and the rows that were filled.
pub Moved-IsOnScreen :
    {sigdesc : List ℕ} {s t : Ps} → Moved sigdesc s t → IsOnScreen s → IsOnScreen t
Moved-IsOnScreen start i = i
Moved-IsOnScreen (after r m) i = Move-IsOnScreen m (Moved-IsOnScreen r i)

-- Where a new list is shorter than the first row shown, and the screen's size stays, the current process
-- is the new list's last and stands above the window.
pub restart-hides :
    (s : Ps) (startup n : ℕ)
    → IsOnScreen s
    → n ≤ s.first_on_screen
    → ((restart startup s.tty_lines s.tty_columns n s).current_process ≡ n - 1)
      × ((restart startup s.tty_lines s.tty_columns n s).first_on_screen ≡ s.first_on_screen)
unfolding restart screen_refresh
restart-hides s startup n i short =
    let same : (s.tty_lines == s.tty_lines && s.tty_columns == s.tty_columns) ≡ true =
      ground arith in
    (simp same (omega (arith, short, i.first)), simp same refl)
