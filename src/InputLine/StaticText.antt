-- ===== src/InputLine/StaticText.antt =====
-- The prompt: `il_reset_line`, `il_set_static_text`; and what `il_get_contents` hands out.
use gnu_gnuit.Prelude.{
  ℕ, ◌+◌, ◌-◌, ◌≤◌, ◌<◌, ◌≡◌, refl, ap, ◌∙◌, ltb, List, [], ◌++◌, reverse, map, length, arith,
  Bool-cases, inl, inr,
}
use gnu_gnuit.Prelude.Word.{add_size}
use gnu_gnuit.Wide.{Locale, c_str}
use gnu_gnuit.Wide.Slice.{slice, slice_move, rslice_move, slice_join}
use gnu_gnuit.InputLine.{InputLine}
use gnu_gnuit.InputLine.Edit.{
  il_reset_line, static_room, place_static, il_set_static_text, il_get_contents,
}
use gnu_gnuit.InputLine.Line.{Line, Line-ext, shown}
use gnu_gnuit.InputLine.Valid.{IsValid, MarkFits, Refines, view, max_size}
use gnu_gnuit.InputLine.Insertion.{il_resize_buffer-IsValid, view-il_resize_buffer}
use gnu_gnuit.InputLine.TextLaws.{slice-wmemcpy, Solid, c_str-Solid}

-- `il_reset_line` makes any input line a valid one that shows nothing, with the kill ring kept.
pub il_reset_line_lem :
    (loc : Locale) (il : InputLine)
    → Refines il
        (il_reset_line loc il)
        (record { prompt = []; left = []; right = []; ring = il.kill_ring })
unfolding il_reset_line
il_reset_line_lem loc il = record {
  valid = record {
    lengths = omega arith;
    low = omega arith;
    high = omega arith;
    room = omega arith;
    small = omega arith;
    ended = ground arith;
    solid = λ i h. absurd (omega arith);
  };
  shows = refl;
  sound = ground arith;
}

abbrev pub with_prompt : List ℕ → Line → Line
with_prompt text l = record l { prompt = text }

module _ (loc : Locale) (text : List ℕ) (solid : Solid text) (il : InputLine) (v : IsValid il)
    (fits : length text + il.dynamic_length < il.size) where
  place_static-IsValid : IsValid (place_static loc text il)
  unfolding place_static
  place_static-IsValid = record {
    lengths = omega arith;
    low = omega arith;
    high = omega arith;
    room = omega arith;
    small = omega arith;
    ended = ground arith;
    solid = λ i h. ground (arith, v.solid (i - length text + il.static_length), solid i);
  }

  view-place_static : view (place_static loc text il) ≡ with_prompt (map (shown loc) text) (view il)
  unfolding place_static
  view-place_static =
      Line-ext _ _ (slice-wmemcpy loc text _ 0)
        (rslice_move new il.buffer _ _ _ _ (omega arith) (λ i h. ground arith))
        (slice_move new il.buffer _ _ _ _ (omega arith) (λ i h. ground arith)) refl
    where
      new : ℕ → ℕ
      new = (place_static loc text il).buffer

  overrun-place_static : (place_static loc text il).overrun ≡ il.overrun
  unfolding place_static
  overrun-place_static = ground arith

  place_static-MarkFits : MarkFits il → MarkFits (place_static loc text il)
  unfolding place_static
  place_static-MarkFits m = omega arith

module _ (loc : Locale) (len : ℕ) (il : InputLine) (v : IsValid il)
    (fits : len + il.dynamic_length + 1 ≤ max_size) where
  static_room_lem : Refines il (static_room loc len il) (view il)
  unfolding static_room
  static_room_lem = elim (Bool-cases (ltb il.size (add_size (add_size len il.dynamic_length) 1))) [
    | inl full ↦ rw full (record {
      valid = il_resize_buffer-IsValid loc _ il v (ground arith) (omega arith);
      shows = view-il_resize_buffer loc _ il v (ground arith);
      sound = refl;
    })
    | inr wide ↦ rw wide (record { valid = v; shows = refl; sound = refl })
  ]

  static_room-wide : len + (static_room loc len il).dynamic_length < (static_room loc len il).size
  unfolding static_room
  static_room-wide = ground arith

  static_room-MarkFits : MarkFits il → MarkFits (static_room loc len il)
  unfolding static_room
  static_room-MarkFits m = ground arith

module _ (loc : Locale) (il : InputLine) (v : IsValid il) (string : List ℕ)
    (fits : length (c_str string) + il.dynamic_length + 1 ≤ max_size) where
  -- On a valid line with memory for it, the prompt becomes the string up to its NUL, its unprintable
  -- characters shown as question marks; the text on both sides of the point stays, whether the
  -- prompt grows or shrinks; the line stays valid, and no cell outside the buffer is touched.
  pub il_set_static_text_lem :
      Refines il
        (il_set_static_text loc string il)
        (with_prompt (map (shown loc) (c_str string)) (view il))
  unfolding il_set_static_text
  il_set_static_text_lem =
      let room = static_room_lem loc (length (c_str string)) il v fits in
      let wide = static_room-wide loc (length (c_str string)) il v fits in
      record {
        valid = place_static-IsValid loc (c_str string) (c_str-Solid string) _ room.valid wide;
        shows =
            view-place_static loc (c_str string) (c_str-Solid string) _ room.valid wide
            ∙ ap (with_prompt (map (shown loc) (c_str string))) room.shows;
        sound =
            overrun-place_static loc (c_str string) (c_str-Solid string) _ room.valid wide
            ∙ room.sound;
      }

  -- A mark in the dynamic part stays there.
  pub il_set_static_text-MarkFits : MarkFits il → MarkFits (il_set_static_text loc string il)
  unfolding il_set_static_text
  il_set_static_text-MarkFits m =
      place_static-MarkFits loc (c_str string) (c_str-Solid string) _
        (static_room_lem loc (length (c_str string)) il v fits).valid
        (static_room-wide loc (length (c_str string)) il v fits)
        (static_room-MarkFits loc (length (c_str string)) il v fits m)

-- On a valid line `il_get_contents` copies the text on both sides of the point, without the prompt.
pub il_get_contents_lem :
    (il : InputLine)
    → IsValid il
    → (il_get_contents il).0 ≡ reverse (view il).left ++ (view il).right
unfolding il_get_contents
il_get_contents_lem il v =
    ap (slice il.buffer il.static_length) (omega arith)
    ∙ slice_join il.buffer il.static_length il.point il.length v.low v.high
