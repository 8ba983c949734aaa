-- ===== src/InputLine/KillWords.antt =====
-- The commands that kill words, on the line.
use gnu_gnuit.Prelude.{◌≡◌, refl, ap, ◌∙◌, true, arith}
use gnu_gnuit.Wide.{Locale}
use gnu_gnuit.InputLine.{InputLine}
use gnu_gnuit.InputLine.Move.{il_set_mark, il_forward_word, il_backward_word}
use gnu_gnuit.InputLine.Kill.{il_region_command, il_kill_word, il_backward_kill_word}
use gnu_gnuit.InputLine.Line.{
  Line-ext, ring_with, line_kill_word, line_backward_kill_word, line_forward_word,
  line_backward_word,
}
use gnu_gnuit.InputLine.Valid.{IsValid, Refines, Kept, view, rebuild_mark}
use gnu_gnuit.InputLine.Region.{killed}
use gnu_gnuit.InputLine.RegionCommand.{region_before, region_behind}
use gnu_gnuit.InputLine.WordText
use gnu_gnuit.InputLine.WordMoves.{
  il_forward_word_lem, il_backward_word_lem, il_forward_word-Kept, il_backward_word-Kept,
}

module _ (il : InputLine) (v : IsValid il) where
  marked : InputLine
  marked = il_set_mark il

  marked-IsValid : IsValid marked
  unfolding marked il_set_mark
  marked-IsValid = record {
    lengths = v.lengths;
    low = v.low;
    high = v.high;
    room = v.room;
    small = v.small;
    ended = v.ended;
    solid = v.solid;
  }

  -- The point of `il_forward_word`, with the mark left behind.
  abbrev ahead : InputLine
  ahead = il_forward_word marked

  ahead_lem : Refines marked ahead (line_forward_word (view il))
  unfolding marked il_set_mark
  ahead_lem = il_forward_word_lem marked marked-IsValid

  ahead-Kept : Kept marked ahead
  ahead-Kept = il_forward_word-Kept marked marked-IsValid

  killed-ahead : killed true ahead ahead.mark ahead.point ≡ line_kill_word (view il)
  unfolding line_kill_word marked il_set_mark
  killed-ahead =
      let kept = ahead-Kept in
      rw (kept.buffer_kept, kept.static_kept, kept.length_kept, kept.ring_kept, kept.mark_kept)
        (Line-ext _ _ refl refl (WordText.right-ahead marked marked-IsValid)
          (ap (λ text. ring_with text il.kill_ring) (WordText.word_ahead marked marked-IsValid)))

  module _ (loc : Locale) where
    kill_ahead :
        Refines ahead
          (il_region_command loc true true ahead)
          (killed true ahead ahead.mark ahead.point)
    unfolding marked il_set_mark
    kill_ahead =
        region_before loc true ahead ahead_lem.valid
          (omega (arith, ahead-Kept.mark_kept, ahead-Kept.static_kept, v.low))
          (omega (arith, ahead-Kept.mark_kept, WordText.point-ahead marked marked-IsValid))

    -- On a valid line the word behind the point, with what separates it from the point, goes to the
    -- kill ring; the line stays valid, and no cell outside the buffer is touched.
    pub il_kill_word_lem : Refines il (il_kill_word loc il) (line_kill_word (view il))
    unfolding il_kill_word line_kill_word marked il_set_mark
    il_kill_word_lem = record {
      valid = rebuild_mark kill_ahead.valid;
      shows = kill_ahead.shows ∙ killed-ahead;
      sound = kill_ahead.sound ∙ ahead_lem.sound;
    }

  -- The point of `il_backward_word`, with the mark left where the point was.
  abbrev behind : InputLine
  behind = il_backward_word marked

  behind_lem : Refines marked behind (line_backward_word (view il))
  unfolding marked il_set_mark
  behind_lem = il_backward_word_lem marked marked-IsValid

  behind-Kept : Kept marked behind
  behind-Kept = il_backward_word-Kept marked marked-IsValid

  killed-behind : killed true behind behind.point behind.mark ≡ line_backward_kill_word (view il)
  unfolding line_backward_kill_word marked il_set_mark
  killed-behind =
      let kept = behind-Kept in
      rw (kept.buffer_kept, kept.static_kept, kept.length_kept, kept.ring_kept, kept.mark_kept)
        (Line-ext _ _ refl (WordText.left-behind marked marked-IsValid) refl
          (ap (λ text. ring_with text il.kill_ring) (WordText.word_behind marked marked-IsValid)))

  module _ (loc : Locale) where
    kill_behind :
        Refines behind
          (il_region_command loc true true behind)
          (killed true behind behind.point behind.mark)
    unfolding marked il_set_mark
    kill_behind =
        region_behind loc true behind behind_lem.valid
          (omega (arith, behind-Kept.mark_kept, WordText.point-behind marked marked-IsValid))
          (omega (arith, behind-Kept.mark_kept, behind-Kept.length_kept, v.high))

    -- On a valid line the word in front of the point, with what separates it from the point, goes to
    -- the kill ring; the line stays valid, and no cell outside the buffer is touched.
    pub il_backward_kill_word_lem :
        Refines il (il_backward_kill_word loc il) (line_backward_kill_word (view il))
    unfolding il_backward_kill_word marked il_set_mark
    il_backward_kill_word_lem = record {
      valid = rebuild_mark kill_behind.valid;
      shows = kill_behind.shows ∙ killed-behind;
      sound = kill_behind.sound ∙ behind_lem.sound;
    }
