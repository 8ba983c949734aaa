-- ===== src/InputLine/Edit.antt =====
-- src/inputline.c: the functions that put text in and take single characters out.
use gnu_gnuit.Prelude.{
  ℕ, zero, suc, ◌+◌, ◌-◌, ◌%◌, Bool, true, false, List, Option, none, some, ltb, leb, ◌==◌, ◌&&◌,
  ◌||◌, length, if◌then◌else◌,
}
use gnu_gnuit.Prelude.Word.{add_size, sub_size}
use gnu_gnuit.Prelude.Int.{pos, ◌-ℤ◌}
use gnu_gnuit.Wide.{Locale, wmemcpy, c_str}
use gnu_gnuit.Wide.Slice.{slice}
use gnu_gnuit.Misc.Text.{toprintable}
use gnu_gnuit.InputLine.{
  InputLine, insert_char, delete_char, backward_delete_char, reset_line, just_one_space,
  delete_horizontal_space, set_static_text, insert_text, il_resize_buffer, move_cells, store_cell,
}

-- The part below the test of `iswprint`.
unfoldable pub insert_cell : ℕ → InputLine → InputLine
unfolding move_cells store_cell
insert_cell c il =
    let moved = move_cells (il.point + 1) il.point (add_size (sub_size il.length il.point) 1) il in
    let stored = store_cell il.point c moved in
    record stored {
      point = add_size il.point 1;
      length = add_size il.length 1;
      dynamic_length = add_size il.dynamic_length 1;
      last_operation = insert_char;
    }

-- The bodies of the two deletions, up to the test that shrinks the buffer. `length--` runs only
-- where there is a character; `dynamic_length--` may wrap.
unfoldable pub delete_cell : InputLine → InputLine
unfolding move_cells
delete_cell il =
    let count = add_size (sub_size il.length il.point) 1 in
    let moved = move_cells il.point (il.point + 1) count il in
    record moved { length = il.length - 1; dynamic_length = sub_size il.dynamic_length 1 }

unfoldable pub backward_delete_cell : InputLine → InputLine
unfolding move_cells
backward_delete_cell il =
    let count = add_size (sub_size il.length il.point) 1 in
    let moved = move_cells (il.point - 1) il.point count il in
    record moved {
      point = il.point - 1;
      length = sub_size il.length 1;
      dynamic_length = sub_size il.dynamic_length 1;
    }

module _ (loc : Locale) where
  -- `if (length + 1 >= size) IL_RESIZE(length + 1 + 32);`
  unfoldable pub make_room : InputLine → InputLine
  unfolding il_resize_buffer
  make_room il =
      if leb il.size (add_size il.length 1)
      then il_resize_buffer loc (add_size il.length 33) il
      else il

  unfoldable pub il_insert_char : ℕ → InputLine → InputLine
  unfolding make_room insert_cell
  il_insert_char c il = if loc.iswprint c then insert_cell c (make_room il) else il

  -- `if (length % 16 == 0) IL_RESIZE(length + 1);`
  unfoldable pub shrink : InputLine → InputLine
  unfolding il_resize_buffer
  shrink il = if il.length % 16 == 0 then il_resize_buffer loc (add_size il.length 1) il else il

  unfoldable pub il_delete_char : InputLine → InputLine
  unfolding delete_cell shrink
  il_delete_char il =
      if ltb il.point il.length
      then (let cut = shrink (delete_cell il) in record cut { last_operation = delete_char })
      else il

  unfoldable pub il_backward_delete_char : InputLine → InputLine
  unfolding backward_delete_cell shrink
  il_backward_delete_char il =
      if ltb il.static_length il.point
      then (let cut = shrink (backward_delete_cell il) in
          record cut { last_operation = backward_delete_char })
      else il

  unfoldable pub il_reset_line : InputLine → InputLine
  unfolding il_resize_buffer store_cell
  il_reset_line il =
      let cleared = record il {
        point = 0;
        mark = 0;
        length = 0;
        static_length = 0;
        dynamic_length = 0;
      } in
      let ended = store_cell 0 0 (il_resize_buffer loc 1 cleared) in
      record ended { last_operation = reset_line }

  -- `if (length + len + 1 > size) IL_RESIZE(size + len + 1 + 32);`
  unfoldable pub text_room : ℕ → InputLine → InputLine
  unfolding il_resize_buffer
  text_room len il =
      if ltb il.size (add_size (add_size il.length len) 1)
      then il_resize_buffer loc (add_size il.size (add_size len 33)) il
      else il

  -- The rest of `il_insert_text`.
  unfoldable pub place_text : List ℕ → InputLine → InputLine
  unfolding move_cells wmemcpy toprintable
  place_text text il =
      let len = length text in
      let count = add_size (sub_size il.length il.point) 1 in
      let moved = move_cells (il.point + len) il.point count il in
      record moved {
        buffer = toprintable loc il.point len (wmemcpy il.point text moved.buffer);
        overrun = moved.overrun || ltb moved.size (il.point + len);
        point = add_size il.point len;
        length = add_size il.length len;
        dynamic_length = add_size il.dynamic_length len;
        last_operation = insert_text;
      }

  -- The text argument is a wide string, read up to its NUL.
  unfoldable pub il_insert_text : Option (List ℕ) → InputLine → InputLine
  unfolding text_room place_text
  il_insert_text none il = il
  il_insert_text (some string) il =
      let text = c_str string in place_text text (text_room (length text) il)

  -- `if (len + dynamic_length + 1 > size) IL_RESIZE(len + dynamic_length + 1);`
  unfoldable pub static_room : ℕ → InputLine → InputLine
  unfolding il_resize_buffer
  static_room len il =
      let need = add_size (add_size len il.dynamic_length) 1 in
      if ltb il.size need then il_resize_buffer loc need il else il

  -- The rest of `il_set_static_text`. `il->point += len - il->static_length` goes down by wrapping
  -- where the new text is the shorter one.
  unfoldable pub place_static : List ℕ → InputLine → InputLine
  unfolding move_cells wmemcpy toprintable
  place_static text il =
      let len = length text in
      let moved = move_cells len il.static_length (add_size il.dynamic_length 1) il in
      record moved {
        buffer = toprintable loc 0 len (wmemcpy 0 text moved.buffer);
        overrun = moved.overrun || ltb moved.size len;
        point = add_size il.point (sub_size len il.static_length);
        mark = add_size il.mark (sub_size len il.static_length);
        wcadjust = pos len -ℤ loc.wcswidth text;
        static_length = len;
        length = add_size len il.dynamic_length;
        last_operation = set_static_text;
      }

  unfoldable pub il_set_static_text : List ℕ → InputLine → InputLine
  unfolding static_room place_static
  il_set_static_text string il =
      let text = c_str string in place_static text (static_room (length text) il)

  -- `while (buffer[point] == L' ') il_delete_char();`: `none` where the fuel runs out.
  unfoldable pub delete_spaces : ℕ → InputLine → Option InputLine
  delete_spaces zero il = none
  delete_spaces (suc fuel) il = elim (il.buffer il.point == b' ') [
    | true ↦ delete_spaces fuel (il_delete_char il)
    | false ↦ some il
  ]

  -- `while (dynamic_length && buffer[point - 1] == ' ') il_backward_delete_char();`
  unfoldable pub backward_delete_spaces : ℕ → InputLine → Option InputLine
  backward_delete_spaces zero il = none
  backward_delete_spaces (suc fuel) il =
      elim (ltb 0 il.dynamic_length && il.buffer (sub_size il.point 1) == b' ') [
        | true ↦ backward_delete_spaces fuel (il_backward_delete_char il)
        | false ↦ some il
      ]

  -- What follows the first loop.
  abbrev pub horizontal_rest : ℕ → Option InputLine → Option InputLine
  horizontal_rest fuel none = none
  horizontal_rest fuel (some cut) = elim (backward_delete_spaces fuel cut) [
    | none ↦ none
    | some done ↦ some (record done { last_operation = delete_horizontal_space })
  ]

  -- `none` where one of the loops does not end within the fuel.
  unfoldable pub il_delete_horizontal_space : ℕ → InputLine → Option InputLine
  il_delete_horizontal_space fuel il =
      if il.buffer il.point == b' ' then horizontal_rest fuel (delete_spaces fuel il) else some il

  unfoldable pub il_just_one_space : ℕ → InputLine → Option InputLine
  il_just_one_space fuel il =
      if il.buffer il.point == b' '
      then elim (il_delete_horizontal_space fuel il) [
        | none ↦ none
        | some cut ↦
            let spaced = il_insert_char b' ' cut in
            some (record spaced { last_operation = just_one_space })
      ]
      else some il

unfoldable pub il_is_empty : InputLine → Bool
il_is_empty il = il.dynamic_length == 0

-- What is copied to `*dest`, without its NUL, and the value returned.
unfoldable pub il_get_contents : InputLine → List ℕ × ℕ
il_get_contents il = (slice il.buffer il.static_length il.dynamic_length, il.dynamic_length)
