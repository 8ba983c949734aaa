-- ===== src/Gitps/Rows.antt =====
-- A process list of src/gitps.c whose current process is on the screen, and the single moves that keep it so.
use gnu_gnuit.Prelude.{
  ℕ, ◌+◌, ◌-◌, ◌≤◌, ◌<◌, ◌≡◌, ◌⊎◌, refl, Bool-cases, inl, inr, true, false, ◌==◌, leb, ltb, arith,
}
use gnu_gnuit.Gitps.{
  Ps, previous_process, next_process, page_back, page_on, to_beginning, to_end, resize,
}

-- The screen shows processes, the current process is one of the list and in the window, no row of the
-- window is lost behind the list's end, and a step is shorter than the window.
pub record IsOnScreen (s : Ps) : Type 0 where
  pub tall : 5 ≤ s.tty_lines
  pub some : s.current_process < s.processes
  pub first : s.first_on_screen ≤ s.current_process
  pub last : s.current_process + 3 < s.first_on_screen + s.tty_lines
  pub filled : (s.first_on_screen ≡ 0) ⊎ (s.first_on_screen + s.tty_lines ≤ s.processes + 3)
  pub step : 0 < s.scroll_step
  pub short : s.scroll_step + 3 < s.tty_lines

module _ (s : Ps) (i : IsOnScreen s) where
  pub previous_process-IsOnScreen :
      (s.current_process == 0) ≡ false → IsOnScreen (previous_process s)
  unfolding previous_process
  previous_process-IsOnScreen h = elim (Bool-cases (s.current_process == s.first_on_screen)) [
    | inl top ↦ simp top (record {
      tall = i.tall;
      some = omega (arith, i.some);
      first = ground (arith, h, top, i.step);
      last = ground (arith, h, top, i.last, i.short, i.step);
      filled = ground (arith, i.filled);
      step = i.step;
      short = i.short;
    })
    | inr lower ↦ simp lower (record {
      tall = i.tall;
      some = omega (arith, i.some);
      first = ground (arith, h, lower, i.first);
      last = omega (arith, i.last);
      filled = i.filled;
      step = i.step;
      short = i.short;
    })
  ]

  pub next_process-IsOnScreen :
      ltb (s.current_process + 1) s.processes ≡ true → IsOnScreen (next_process s)
  unfolding next_process
  next_process-IsOnScreen h =
      elim (Bool-cases (leb (s.first_on_screen + s.tty_lines) (s.current_process + 1 + 3))) [
        | inl below ↦ simp below (record {
          tall = i.tall;
          some = ground (arith, h);
          first = ground (arith, h, below, i.last, i.short, i.first, i.tall);
          last = ground (arith, h, below, i.last, i.step, i.tall);
          filled = ground (arith, h, below, i.tall);
          step = i.step;
          short = i.short;
        })
        | inr inside ↦ simp inside (record {
          tall = i.tall;
          some = ground (arith, h);
          first = omega (arith, i.first);
          last = ground (arith, inside);
          filled = i.filled;
          step = i.step;
          short = i.short;
        })
      ]

  pub page_back-IsOnScreen : IsOnScreen (page_back s)
  unfolding page_back
  page_back-IsOnScreen = elim (Bool-cases (s.current_process == 0)) [
    | inl top ↦ simp top i
    | inr lower ↦ elim (Bool-cases (ltb (s.current_process + 3) s.tty_lines)) [
      | inl near ↦
          simp (lower, near)
            (record {
              tall = i.tall;
              some = omega (arith, i.some);
              first = omega arith;
              last = omega (arith, i.tall);
              filled = inl refl;
              step = i.step;
              short = i.short;
            })
      | inr far ↦
          simp (lower, far)
            (record {
              tall = i.tall;
              some = omega (arith, i.some, i.tall);
              first = omega (arith, i.first);
              last = ground (arith, far, i.last, i.tall);
              filled = ground (arith, i.filled);
              step = i.step;
              short = i.short;
            })
    ]
  ]

  at_end :
      (first : ℕ)
      → first < s.processes
      → s.processes + 2 < first + s.tty_lines
      → ((first ≡ 0) ⊎ (first + s.tty_lines ≤ s.processes + 3))
      → IsOnScreen (record s { current_process = s.processes - 1; first_on_screen = first })
  at_end first inside near filled = record {
    tall = i.tall;
    some = omega (arith, i.some);
    first = omega (arith, inside);
    last = omega (arith, near, i.some, i.tall);
    filled = filled;
    step = i.step;
    short = i.short;
  }

  pub page_on-IsOnScreen : IsOnScreen (page_on s)
  unfolding page_on
  page_on-IsOnScreen = elim (Bool-cases (s.current_process + 1 == s.processes)) [
    | inl end ↦ simp end i
    | inr more ↦ elim (Bool-cases (ltb (s.processes + 2) (s.first_on_screen + s.tty_lines))) [
      | inl shown ↦
          simp (more, shown)
            (at_end s.first_on_screen (omega (arith, i.first, i.some)) (ground (arith, shown))
              i.filled)
      | inr behind ↦ elim (Bool-cases (ltb (s.processes + 2) (s.current_process + s.tty_lines))) [
        | inl near ↦
            simp (more, behind, near)
              (at_end (s.processes + 3 - s.tty_lines) (omega (arith, i.tall, i.some))
                (ground (arith, behind, near, i.tall)) (ground (arith, behind, near)))
        | inr far ↦
            simp (more, behind, far)
              (record {
                tall = i.tall;
                some = ground (arith, far, i.tall);
                first = ground (arith, i.first, i.tall);
                last = ground (arith, far, i.last, i.tall, i.first);
                filled = ground (arith, far, i.tall);
                step = i.step;
                short = i.short;
              })
      ]
    ]
  ]

  pub to_beginning-IsOnScreen : IsOnScreen (to_beginning s)
  unfolding to_beginning
  to_beginning-IsOnScreen = elim (Bool-cases (s.current_process == 0)) [
    | inl top ↦ simp top i
    | inr lower ↦ simp lower (record {
      tall = i.tall;
      some = omega (arith, i.some);
      first = omega arith;
      last = omega (arith, i.tall);
      filled = inl refl;
      step = i.step;
      short = i.short;
    })
  ]

  pub to_end-IsOnScreen : IsOnScreen (to_end s)
  unfolding to_end
  to_end-IsOnScreen = elim (Bool-cases (s.current_process + 1 == s.processes)) [
    | inl end ↦ simp end i
    | inr more ↦ simp more (
        at_end (s.processes + 3 - s.tty_lines) (omega (arith, i.tall, i.some))
          (omega (arith, i.tall, i.some)) (ground (arith)))
  ]

-- After `resize` the current process is on the screen, wherever it was.
pub resize-IsOnScreen :
    (s : Ps) (startup lines columns : ℕ)
    → 0 < s.processes
    → 5 ≤ lines
    → IsOnScreen (resize startup lines columns s)
unfolding resize
resize-IsOnScreen s startup lines columns some tall = record {
  tall = tall;
  some = omega (arith, some);
  first = omega (arith, tall);
  last = omega (arith, tall);
  filled = ground (arith, tall, some);
  step = ground (arith, tall);
  short = ground (arith, tall);
}
