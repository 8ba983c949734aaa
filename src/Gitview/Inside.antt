-- ===== src/Gitview/Inside.antt =====
-- Whether the line at the top of the screen of src/gitview.c stays in the file.
use gnu_gnuit.Prelude.{
  ℕ, zero, suc, ◌+◌, ◌-◌, ◌/◌, ◌^◌, ◌≤◌, ◌<◌, ◌≡◌, ◌∙◌, ◌⊎◌, Bool-cases, inl, inr, false, List, [],
  ◌∷◌, ◌++◌, ◌==◌, ◌&&◌, ◌||◌, leb, ltb, length, take, min, arith,
}
use gnu_gnuit.Prelude.Word.{add_size}
use gnu_gnuit.Gitview.{
  View, Key, previous_line, next_line, backspace, scroll_down, scroll_up, beginning_of_file,
  end_of_file, refresh, action, exit, char, view_lines, g_lines, last_line, previous_lines,
  next_lines, page_back, page_on, to_end, screen_refresh, is_hex, hex_from, type_digit, seek, press,
}

-- The current line is in the file, or just behind it, and the file is at least as long as the screen.
pub record IsInside (v : View) : Type 0 where
  pub tall : 9 ≤ v.tty_lines
  pub long : v.tty_lines ≤ g_lines v + 9
  pub line : v.current_line ≤ g_lines v
  pub small : v.size < 2 ^ 63

g_lines_small : (v : View) → v.size < 2 ^ 63 → g_lines v ≤ 2 ^ 60
unfolding g_lines
g_lines_small v h = ground (arith, h)

-- Another line of the same file, and another offset typed.
at_line :
    {v : View} (n : ℕ) (text : List ℕ)
    → IsInside v
    → n ≤ g_lines v
    → IsInside (record v { current_line = n; offset = text })
unfolding g_lines
at_line n text i h = record { tall = i.tall; long = i.long; line = h; small = i.small }

line_of_size : (v : View) (n : ℕ) → min n v.size / 16 ≤ g_lines v
unfolding g_lines
line_of_size v n = ground arith

module _ (v : View) (i : IsInside v) where
  view_lines_lem : view_lines v ≡ v.tty_lines - 9
  unfolding view_lines
  view_lines_lem = omega (arith, i.tall, i.long, g_lines_small v i.small)

  last_line_lem : last_line v ≡ g_lines v + 9 - v.tty_lines
  unfolding last_line
  last_line_lem = omega (arith, view_lines_lem, i.tall, i.long, g_lines_small v i.small)

  page_on-IsInside : IsInside (page_on v)
  unfolding page_on
  page_on-IsInside = elim (Bool-cases (leb (last_line v) v.current_line)) [
    | inl last ↦ simp last i
    | inr more ↦ simp more (
        at_line _ v.offset i
          (omega (arith, view_lines_lem, i.tall, i.long, i.line, g_lines_small v i.small)))
  ]

  to_end-IsInside : IsInside (to_end v)
  unfolding to_end
  to_end-IsInside = elim (Bool-cases (ltb v.current_line (last_line v))) [
    | inl more ↦ simp more (at_line _ v.offset i (omega (arith, last_line_lem, i.tall)))
    | inr last ↦ simp last i
  ]

  -- A page back from the first page wraps around.
  page_back-IsInside :
      (v.current_line ≡ 0) ⊎ (v.tty_lines ≤ v.current_line + 9) → IsInside (page_back v)
  unfolding page_back
  page_back-IsInside safe = elim (Bool-cases (v.current_line == 0)) [
    | inl top ↦ simp top i
    | inr lower ↦ simp lower (
        at_line _ v.offset i
          (ground (arith, safe, lower, view_lines_lem, i.tall, i.line, g_lines_small v i.small)))
  ]

  seek-IsInside : IsInside (seek v)
  unfolding seek
  seek-IsInside = elim (Bool-cases (length v.offset == 0 || ltb v.tty_lines 9)) [
    | inl idle ↦ simp idle i
    | inr typed ↦ simp typed (at_line _ [] i (line_of_size v (hex_from 0 v.offset)))
  ]

  screen_refresh-IsInside : IsInside (screen_refresh v)
  unfolding screen_refresh
  screen_refresh-IsInside = elim (Bool-cases (leb 9 v.tty_lines)) [
    | inr short ↦ simp short (at_line 0 v.offset i (omega arith))
    | inl tall ↦ elim (Bool-cases (view_lines v == 0)) [
      | inl none ↦ simp (tall, none) (at_line 0 v.offset i (omega arith))
      | inr some ↦ simp (tall, some) (at_line _ v.offset i (omega (arith, i.line)))
    ]
  ]

previous_lines-IsInside : (n : ℕ) (v : View) → IsInside v → IsInside (previous_lines n v)
unfolding previous_lines
previous_lines-IsInside zero v i = i
previous_lines-IsInside (suc n) v i = elim (Bool-cases (v.current_line == 0)) [
  | inl top ↦ simp top i
  | inr lower ↦ simp lower (
      previous_lines-IsInside n (record v { current_line = v.current_line - 1 })
        (at_line (v.current_line - 1) v.offset i (omega (arith, i.line))))
]

next_lines-IsInside : (n : ℕ) (v : View) → IsInside v → IsInside (next_lines n v)
unfolding next_lines
next_lines-IsInside zero v i = i
next_lines-IsInside (suc n) v i = elim (Bool-cases (leb (last_line v) v.current_line)) [
  | inl last ↦ simp last i
  | inr more ↦ simp more (
      next_lines-IsInside n (record v { current_line = add_size v.current_line 1 })
        (at_line (add_size v.current_line 1) v.offset i
          (ground (arith, more, last_line_lem v i, i.tall, i.line, g_lines_small v i.small))))
]

type_digit-IsInside : (c : ℕ) (v : View) → IsInside v → IsInside (type_digit c v)
unfolding type_digit
type_digit-IsInside c v i = elim (Bool-cases (ltb (length v.offset) 16 && leb 9 v.tty_lines)) [
  | inl room ↦ simp room (at_line v.current_line (v.offset ++ c ∷ []) i i.line)
  | inr full ↦ simp full i
]

-- The keys that go back a page, where that does not wrap around; every other key.
abbrev pub Safe : Key → View → Type 0
Safe scroll_down v = (v.current_line ≡ 0) ⊎ (v.tty_lines ≤ v.current_line + 9)
Safe backspace v = (v.current_line ≡ 0) ⊎ (v.tty_lines ≤ v.current_line + 9)
Safe key v = Unit

press-IsInside : (key : Key) (v : View) → IsInside v → Safe key v → IsInside (press key v)
unfolding press
press-IsInside (previous_line n) v i safe = previous_lines-IsInside n v i
press-IsInside (next_line n) v i safe = next_lines-IsInside n v i
press-IsInside backspace v i safe = elim (Bool-cases (length v.offset == 0)) [
  | inl none ↦ simp none (page_back-IsInside v i safe)
  | inr some ↦ simp some (at_line v.current_line (take (length v.offset - 1) v.offset) i i.line)
]
press-IsInside scroll_down v i safe = page_back-IsInside v i safe
press-IsInside scroll_up v i safe = page_on-IsInside v i
press-IsInside beginning_of_file v i safe = at_line 0 v.offset i (omega arith)
press-IsInside end_of_file v i safe = to_end-IsInside v i
press-IsInside refresh v i safe = screen_refresh-IsInside v i
press-IsInside action v i safe = seek-IsInside v i
press-IsInside exit v i safe = i
press-IsInside (char c) v i safe = elim (Bool-cases (is_hex c)) [
  | inl hex ↦ simp hex (type_digit-IsInside c v i)
  | inr no_hex ↦ elim (Bool-cases (c == b' ')) [
    | inl space ↦ simp (no_hex, space) (page_on-IsInside v i)
    | inr unbound ↦ simp (no_hex, unbound) i
  ]
]

-- What happens to the viewer: a key, a file that grows, and a screen that is resized and drawn again.
pub data Move : View → View → Type 0 where
  pressed : (v : View) (key : Key) → Safe key v → Move v (press key v)
  grown : (v : View) (n : ℕ) → v.size + n < 2 ^ 63 → Move v (record v { size = v.size + n })
  resized :
      (v : View) (n : ℕ)
      → 9 ≤ n
      → n ≤ g_lines v + 9
      → Move v (screen_refresh (record v { tty_lines = n }))

pub data Viewed (v : View) : View → Type 0 where
  start : Viewed v v
  after : {w x : View} → Viewed v w → Move w x → Viewed v x

g_lines_mono : (v : View) (n : ℕ) → g_lines v ≤ g_lines (record v { size = v.size + n })
unfolding g_lines
g_lines_mono v n = ground arith

Move-IsInside : {v w : View} → Move v w → IsInside v → IsInside w
unfolding g_lines
Move-IsInside (pressed v key safe) i = press-IsInside key v i safe
Move-IsInside (grown v n h) i =
    let more = g_lines_mono v n in
    record {
      tall = i.tall;
      long = omega (arith, more, i.long);
      line = omega (arith, more, i.line);
      small = h;
    }
Move-IsInside (resized v n tall long) i =
    screen_refresh-IsInside (record v { tty_lines = n })
      (record { tall = tall; long = long; line = i.line; small = i.small })

-- The line at the top of the screen stays in the file, or just behind its end, through any sequence
-- of keys, growths of the file below 2^63 bytes and changes of the screen's size, from a file and a
-- screen where it is there and the file is at least as long as the screen: as long as the screen has
-- 9 lines at least, a new size does not show more lines than the file has, and no key goes back a
-- page from a line of the first page other than the first line.
pub Viewed-IsInside : {v w : View} → Viewed v w → IsInside v → IsInside w
Viewed-IsInside start i = i
Viewed-IsInside (after r m) i = Move-IsInside m (Viewed-IsInside r i)

-- A page back from a line of the first page other than the first line gives a line beyond the end of any
-- file, 2 ^ 64 less what the page has more than the line.
pub page_back-wraps :
    (v : View)
    → IsInside v
    → 0 < v.current_line
    → v.current_line + 9 < v.tty_lines
    → ((press scroll_down v).current_line + v.tty_lines ≡ 2 ^ 64 + v.current_line + 9)
      × (g_lines v < (press scroll_down v).current_line)
unfolding press page_back
page_back-wraps v i lower first =
    let not_top : (v.current_line == 0) ≡ false = ground (arith, lower) in
    simp not_top (
      omega (arith, view_lines_lem v i, i.tall, i.long, lower, first, g_lines_small v i.small),
      omega (arith, view_lines_lem v i, i.tall, i.long, lower, first, g_lines_small v i.small),
    )

-- In a file shorter than the screen the end does not stop `BUILTIN_next_line`, however often it is
-- pressed.
pub next_lines-outside :
    (n : ℕ) (v : View)
    → v.tty_lines < 2 ^ 31
    → g_lines v + 9 < v.tty_lines
    → v.current_line + n < 2 ^ 63
    → (press (next_line n) v).current_line ≡ v.current_line + n
unfolding press next_lines last_line view_lines g_lines
next_lines-outside zero v screen short h = omega arith
next_lines-outside (suc n) v screen short h =
    let on : leb (last_line v) v.current_line ≡ false = ground (arith, screen, short, h) in
    let v' : View = record v { current_line = add_size v.current_line 1 } in
    simp on (next_lines-outside n v' screen short (omega (arith, h)) ∙ omega (arith, h))
