-- ===== src/InputLine.antt =====
-- src/inputline.c: the input line. The record is `input_line_t`; `buffer` and `size` are the block
-- that `il->buffer` points to. One field is not in the source: `overrun` records that a move, a
-- copy or a store has touched a cell outside the block, which C leaves undefined; the model goes
-- on with what a flat memory holds there.
pub mod Move
pub mod Edit
pub mod Kill
pub mod Words
pub mod Dispatch
pub mod Line
pub mod Valid
pub mod HistoryKeys
pub mod HistoryLaws
pub mod Insertion
pub mod Region
pub mod RegionCommand
pub mod KillLaws
pub mod KillWords
pub mod Spans
pub mod WordText
pub mod TextLaws
pub mod CaseLaws
pub mod Session
pub mod StaticText
pub mod Marks
pub mod Spaces
pub mod SpacesEnd
pub mod Deletion
pub mod Moves
pub mod Loops
pub mod WordMoves
pub mod Display
pub mod DisplayLaws
pub mod Tests
use gnu_gnuit.Prelude.{
  ℕ, ◌+◌, ◌-◌, ◌%◌, Bool, true, false, List, Option, ltb, leb, ◌||◌, ◌&&◌, if◌then◌else◌, ◌==◌,
}
use gnu_gnuit.Prelude.Int.{ℤ}
use gnu_gnuit.Wide.{Locale, Cells, realloc, store, wmemmove, wmemcpy, wcslen}
use gnu_gnuit.Window.{Window}

-- The basic operations, IL_NO_OPERATION and so on.
pub data Operation : Type 0 where
  no_operation backward_char forward_char backward_word forward_word : Operation
  beginning_of_line end_of_line insert_char delete_char backward_delete_char : Operation
  kill_word backward_kill_word reset_line kill_line kill_to_beginning_of_line : Operation
  kill_to_end_of_line just_one_space delete_horizontal_space downcase_word : Operation
  upcase_word capitalize_word set_static_text insert_text set_mark kill_region : Operation
  kill_ring_save yank exchange_point_and_mark : Operation

pub record InputLine : Type 0 where
  pub window : Window
  pub echo : ℕ
  pub error : ℕ
  pub last_operation : Operation
  pub wcadjust : ℤ
  pub point : ℕ
  pub mark : ℕ
  pub ilcolumns : ℕ
  pub illine : ℕ
  pub length : ℕ
  pub static_length : ℕ
  pub dynamic_length : ℕ
  pub size : ℕ
  pub buffer : Cells
  pub kill_ring : Option (List ℕ)
  pub history_file : List ℕ
  pub overrun : Bool

-- `char c` takes the low byte of the wide character. Bytes from 128 on are in no range, so it does
-- not matter that `char` may be signed.
unfoldable pub il_separator : ℕ → Bool
il_separator wide =
    let c = wide % 256 in
    if (leb b'a' c && leb c b'z')
      || (leb b'A' c && leb c b'Z')
      || (leb b'0' c && leb c b'9')
      || c == b'$'
      || c == b'%'
    then false
    else true

-- IL_RESIZE
unfoldable pub il_resize_buffer : Locale → ℕ → InputLine → InputLine
unfolding realloc
il_resize_buffer loc n il = record il { size = n; buffer = realloc loc.fresh il.size n il.buffer }

-- A wmemmove within the buffer.
unfoldable pub move_cells : ℕ → ℕ → ℕ → InputLine → InputLine
unfolding wmemmove
move_cells dst src n il = record il {
  buffer = wmemmove dst src n il.buffer;
  overrun = il.overrun || ltb il.size (dst + n) || ltb il.size (src + n);
}

-- `il->buffer[at] = c`
unfoldable pub store_cell : ℕ → ℕ → InputLine → InputLine
unfolding store
store_cell at c il = record il {
  buffer = store at c il.buffer;
  overrun = il.overrun || leb il.size at;
}

-- wcscpy of the string at `src` down to `dst`, its NUL included.
unfoldable pub copy_down : ℕ → ℕ → InputLine → InputLine
unfolding move_cells
copy_down dst src il = move_cells dst src (wcslen (il.size - src) src il.buffer + 1) il
