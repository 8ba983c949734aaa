-- ===== src/InputLine/Display.antt =====
-- src/inputline.c: what of the line `il_update` and `il_update_point` show in the window, in
-- GIT_SCREEN_MODE, and where they leave the cursor. Colors are left out.
use gnu_gnuit.Prelude.{ℕ, ◌+◌, ◌-◌, ◌/◌, ◌%◌, ◌^◌, min, max, ltb, leb, ◌==◌, if◌then◌else◌}
use gnu_gnuit.Prelude.Int.{ℤ, pos, ◌-ℤ◌}
use gnu_gnuit.Prelude.Word.{add_size, sub_size}
use gnu_gnuit.Wide.{Cells}
use gnu_gnuit.InputLine.{InputLine}

-- The fields that `il_hide_static` changes; `cells` is the memory from `buffer` on. The record is
-- read only between it and `il_restore_static`, which puts the fields back.
pub record Visible : Type 0 where
  pub cells : Cells
  pub static_length : ℕ
  pub length : ℕ
  pub point : ℕ

unfoldable pub il_hide_static : InputLine → Visible
il_hide_static il = record {
  cells = λ i. il.buffer (i + il.static_length);
  static_length = 0;
  length = sub_size il.length il.static_length;
  point = sub_size il.point il.static_length;
}

-- `if (il_too_small) normal_static_length = il_hide_static();`
unfoldable pub visible : InputLine → Visible
unfolding il_hide_static
visible il = if ltb il.ilcolumns (add_size il.static_length 3) then il_hide_static il else record {
  cells = il.buffer;
  static_length = il.static_length;
  length = il.length;
  point = il.point;
}

unfoldable pub il_compute_scroll : ℕ → Visible → ℕ
il_compute_scroll ilcolumns v =
    if ltb ilcolumns v.static_length then 1 else max ((ilcolumns - v.static_length) / 4) 1

-- `len`, how far the line is scrolled.
unfoldable pub scrolled : ℕ → Visible → ℕ
unfolding il_compute_scroll
scrolled ilcolumns v =
    let scroll = il_compute_scroll ilcolumns v in
    if leb ilcolumns v.point
    then v.point - ilcolumns + 1 + (scroll - 1) - (v.point - ilcolumns) % scroll
    else 0

-- The column that `il_update_point` gives to window_goto.
unfoldable pub il_update_point : InputLine → ℤ
unfolding visible scrolled
il_update_point il = let v = visible il in pos (v.point - scrolled il.ilcolumns v) -ℤ il.wcadjust

-- `unsigned len` of `il_update`.
unfoldable pub update_len : ℕ → Visible → ℕ
unfolding scrolled
update_len ilcolumns v = scrolled ilcolumns v % 2 ^ 32

-- How many characters `temp` takes from the line.
unfoldable pub update_count : ℕ → Visible → ℕ
unfolding update_len
update_count ilcolumns v =
    min (sub_size (sub_size v.length v.static_length) (update_len ilcolumns v))
      (sub_size ilcolumns v.static_length)

-- The row of `ilcolumns` cells that `il_update` writes: the static part, then `temp`.
unfoldable pub il_update : InputLine → ℕ → ℕ
unfolding visible update_len update_count
il_update il column =
    let v = visible il in
    let k = column - v.static_length in
    if ltb column v.static_length
    then v.cells column
    else if ltb k (update_count il.ilcolumns v)
    then (if il.echo == 0 then b'*' else v.cells (v.static_length + update_len il.ilcolumns v + k))
    else b' '
