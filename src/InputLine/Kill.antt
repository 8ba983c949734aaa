-- ===== src/InputLine/Kill.antt =====
-- src/inputline.c: the region, the kill ring and the commands that kill.
use gnu_gnuit.Prelude.{
  ℕ, ◌-◌, Bool, true, false, Option, none, some, List, min, ltb, leb, ◌==◌, ◌||◌, if◌then◌else◌,
}
use gnu_gnuit.Prelude.Word.{add_size, sub_size}
use gnu_gnuit.Wide.{Locale}
use gnu_gnuit.Wide.Slice.{slice}
use gnu_gnuit.InputLine.{
  InputLine, kill_region, kill_ring_save, yank, kill_word, backward_kill_word, kill_line,
  kill_to_beginning_of_line, kill_to_end_of_line, il_resize_buffer, copy_down,
}
use gnu_gnuit.InputLine.Move.{
  il_set_mark, il_forward_word, il_backward_word, il_beginning_of_line, il_end_of_line,
}
use gnu_gnuit.InputLine.Edit.{il_insert_text}

-- `if (flags & IL_STORE)`
unfoldable pub store_region : Bool → ℕ → ℕ → InputLine → InputLine
store_region false region_start region_end il = il
store_region true region_start region_end il = record il {
  kill_ring = some (slice il.buffer region_start (region_end - region_start));
  overrun = il.overrun || ltb il.size region_end;
}

-- The mark after `il_kill_word` and `il_backward_kill_word`: `high` is the end of what was killed.
unfoldable pub keep_mark : ℕ → ℕ → ℕ → ℕ
keep_mark old_mark high point =
    if leb old_mark point
    then old_mark
    else if leb high old_mark
    then sub_size old_mark (sub_size high point)
    else point

module _ (loc : Locale) where
  -- `if (flags & IL_KILL)`
  unfoldable pub cut_region : Bool → ℕ → ℕ → InputLine → InputLine
  unfolding copy_down il_resize_buffer
  cut_region false region_start region_end il = il
  cut_region true region_start region_end il =
      let region_size = region_end - region_start in
      let cut = record il {
        dynamic_length = sub_size il.dynamic_length region_size;
        length = sub_size il.length region_size;
        point = region_start;
        mark = region_start;
      } in
      il_resize_buffer loc (add_size cut.length 1) (copy_down region_start region_end cut)

  -- The flags are IL_STORE and IL_KILL.
  unfoldable pub il_region_command : Bool → Bool → InputLine → InputLine
  unfolding store_region cut_region
  il_region_command store kill il =
      if il.mark == il.point
      then il
      else if ltb il.point il.mark
      then cut_region kill il.point il.mark (store_region store il.point il.mark il)
      else cut_region kill il.mark il.point (store_region store il.mark il.point il)

  unfoldable pub il_kill_region : InputLine → InputLine
  unfolding il_region_command
  il_kill_region il =
      let killed = il_region_command true true il in record killed { last_operation = kill_region }

  unfoldable pub il_kill_ring_save : InputLine → InputLine
  unfolding il_region_command
  il_kill_ring_save il =
      let saved = il_region_command true false il in
      record saved { last_operation = kill_ring_save }

  -- `if (il->kill_ring)`
  unfoldable pub yank_from : Option (List ℕ) → InputLine → InputLine
  yank_from none il = il
  yank_from (some text) il =
      let inserted = il_insert_text loc (some text) il in record inserted { last_operation = yank }

  unfoldable pub il_yank : InputLine → InputLine
  unfolding yank_from
  il_yank il = yank_from il.kill_ring il

  unfoldable pub il_kill_word : InputLine → InputLine
  unfolding il_set_mark il_forward_word il_region_command keep_mark
  il_kill_word il =
      let moved = il_forward_word (il_set_mark il) in
      let killed = il_region_command true true moved in
      record killed {
        mark = keep_mark il.mark moved.point killed.point;
        last_operation = kill_word;
      }

  unfoldable pub il_backward_kill_word : InputLine → InputLine
  unfolding il_set_mark il_backward_word il_region_command keep_mark
  il_backward_kill_word il =
      let killed = il_region_command true true (il_backward_word (il_set_mark il)) in
      record killed {
        mark = keep_mark il.mark il.point killed.point;
        last_operation = backward_kill_word;
      }

  -- `store` is the flag IL_STORE of the argument.
  unfoldable pub il_kill_line : Bool → InputLine → InputLine
  unfolding il_beginning_of_line il_set_mark il_end_of_line il_region_command
  il_kill_line store il =
      let killed =
        il_region_command store true (il_end_of_line (il_set_mark (il_beginning_of_line il))) in
      record killed { mark = killed.point; last_operation = kill_line }

  unfoldable pub il_kill_to_beginning_of_line : InputLine → InputLine
  unfolding il_beginning_of_line il_set_mark il_region_command
  il_kill_to_beginning_of_line il =
      let old_mark = if leb il.mark il.point then il.static_length else il.mark - il.point in
      let killed = il_region_command true true (il_beginning_of_line (il_set_mark il)) in
      record killed {
        mark = min old_mark killed.length;
        last_operation = kill_to_beginning_of_line;
      }

  unfoldable pub il_kill_to_end_of_line : InputLine → InputLine
  unfolding il_end_of_line il_set_mark il_region_command
  il_kill_to_end_of_line il =
      let killed = il_region_command true true (il_end_of_line (il_set_mark il)) in
      record killed { mark = min il.mark killed.length; last_operation = kill_to_end_of_line }
