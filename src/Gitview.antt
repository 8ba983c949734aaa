-- ===== src/Gitview.antt =====
-- src/gitview.c: the keys of the file viewer, as the main loop handles them on the line at the top of
-- the screen and on the offset that is being typed. What is drawn is left out. `size` is what
-- `file_length` gives, which the loop asks for at every key.
pub mod Inside
pub mod Seek
pub mod Tests
use gnu_gnuit.Prelude.{
  ℕ, zero, suc, ◌+◌, ◌*◌, ◌-◌, ◌/◌, ◌%◌, Bool, List, [], ◌∷◌, ◌++◌, ◌==◌, ◌&&◌, ◌||◌, leb, ltb,
  length, take, min, if◌then◌else◌,
}
use gnu_gnuit.Prelude.Word.{add_size, sub_size}

-- `g_offset` holds the `count` characters typed.
pub record View : Type 0 where
  pub tty_lines : ℕ
  pub size : ℕ
  pub current_line : ℕ
  pub offset : List ℕ

-- A built-in command, with its repeat count where the loop uses it, or a character.
pub data Key : Type 0 where
  previous_line next_line : ℕ → Key
  backspace scroll_down scroll_up beginning_of_file end_of_file : Key
  refresh action exit : Key
  char : ℕ → Key

-- VIEW_LINES, an int that the comparisons turn into an unsigned long long.
unfoldable pub view_lines : View → ℕ
view_lines v = sub_size v.tty_lines 9

-- `g_size / 16 + (g_size % 16 ? 1 : 0)`
unfoldable pub g_lines : View → ℕ
g_lines v = v.size / 16 + (if v.size % 16 == 0 then 0 else 1)

-- `g_lines - VIEW_LINES`, of unsigned numbers.
unfoldable pub last_line : View → ℕ
unfolding g_lines view_lines
last_line v = sub_size (g_lines v) (view_lines v)

unfoldable pub previous_lines : ℕ → View → View
previous_lines zero v = v
previous_lines (suc n) v =
    let rest = previous_lines n (record v { current_line = v.current_line - 1 }) in
    if v.current_line == 0 then v else rest

unfoldable pub next_lines : ℕ → View → View
unfolding last_line
next_lines zero v = v
next_lines (suc n) v =
    let rest = next_lines n (record v { current_line = add_size v.current_line 1 }) in
    if leb (last_line v) v.current_line then v else rest

-- `max(0, g_current_line - VIEW_LINES)` is the unsigned difference itself.
unfoldable pub page_back : View → View
unfolding view_lines
page_back v =
    if v.current_line == 0
    then v
    else record v { current_line = sub_size v.current_line (view_lines v) }

unfoldable pub page_on : View → View
unfolding last_line g_lines view_lines
page_on v = if leb (last_line v) v.current_line then v else record v {
  current_line = min (sub_size (g_lines v) 1) (add_size v.current_line (view_lines v));
}

unfoldable pub to_end : View → View
unfolding last_line
to_end v = if ltb v.current_line (last_line v) then record v { current_line = last_line v } else v

-- The function `screen_refresh`, of the current line.
unfoldable pub screen_refresh : View → View
unfolding g_lines view_lines
screen_refresh v =
    if leb 9 v.tty_lines
    then if view_lines v == 0
      then record v { current_line = 0 }
      else record v { current_line = min v.current_line (g_lines v / view_lines v * view_lines v) }
    else record v { current_line = 0 }

unfoldable pub is_hex : ℕ → Bool
is_hex c = (leb b'0' c && leb c b'9') || (leb b'A' c && leb c b'F') || (leb b'a' c && leb c b'f')

unfoldable pub hex_digit : ℕ → ℕ
hex_digit c = if leb b'a' c then c - b'a' + 10 else if leb b'A' c then c - b'A' + 10 else c - b'0'

-- sscanf with "%llx", of hexadecimal digits.
unfoldable pub hex_from : ℕ → List ℕ → ℕ
unfolding hex_digit
hex_from value [] = value
hex_from value (c ∷ text) = hex_from (value * 16 + hex_digit c) text

unfoldable pub type_digit : ℕ → View → View
type_digit c v =
    if ltb (length v.offset) 16 && leb 9 v.tty_lines
    then record v { offset = v.offset ++ c ∷ [] }
    else v

unfoldable pub seek : View → View
unfolding hex_from
seek v =
    if length v.offset == 0 || ltb v.tty_lines 9
    then v
    else record v { current_line = min (hex_from 0 v.offset) v.size / 16; offset = [] }

unfoldable pub press : Key → View → View
unfolding previous_lines next_lines page_back page_on to_end screen_refresh is_hex type_digit seek
press (previous_line n) v = previous_lines n v
press (next_line n) v = next_lines n v
press backspace v =
    if length v.offset == 0
    then page_back v
    else record v { offset = take (length v.offset - 1) v.offset }
press scroll_down v = page_back v
press scroll_up v = page_on v
press beginning_of_file v = record v { current_line = 0 }
press end_of_file v = to_end v
press refresh v = screen_refresh v
press action v = seek v
press exit v = v
press (char c) v = if is_hex c then type_digit c v else if c == b' ' then page_on v else v
