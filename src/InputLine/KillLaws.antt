-- ===== src/InputLine/KillLaws.antt =====
-- The commands that kill, on the line.
use gnu_gnuit.Prelude.{◌-◌, refl, sym, ap, ◌∙◌, Bool, true, if◌then◌else◌, arith}
use gnu_gnuit.Wide.{Locale}
use gnu_gnuit.Wide.Slice.{slice_join, slice_empty, rslice_empty, reverse-rslice}
use gnu_gnuit.InputLine.{InputLine}
use gnu_gnuit.InputLine.Move.{il_set_mark, il_beginning_of_line, il_end_of_line}
use gnu_gnuit.InputLine.Kill.{
  il_region_command, il_kill_line, il_kill_to_beginning_of_line, il_kill_to_end_of_line,
}
use gnu_gnuit.InputLine.Line.{
  Line-ext, ring_with, line_kill_line, line_kill_to_beginning, line_kill_to_end,
}
use gnu_gnuit.InputLine.Valid.{IsValid, Refines, view, rebuild_mark}
use gnu_gnuit.InputLine.Region.{killed}
use gnu_gnuit.InputLine.RegionCommand.{region_before, region_behind}

module _ (loc : Locale) (il : InputLine) (v : IsValid il) where
  -- `il_kill_line` on a valid line takes all text behind the prompt away, to the kill ring if the
  -- flag says so; the line stays valid, and no cell outside the buffer is touched.
  pub il_kill_line_lem :
      (keep : Bool) → Refines il (il_kill_line loc keep il) (line_kill_line keep (view il))
  unfolding il_kill_line line_kill_line
  il_kill_line_lem keep = record {
    valid = rebuild_mark done.valid;
    shows =
        done.shows
        ∙ Line-ext _ _ refl (rslice_empty il.buffer il.static_length _ (omega arith))
            (slice_empty il.buffer il.length _ (omega arith))
            (ap (λ text. if keep then ring_with text il.kill_ring else il.kill_ring)
              (slice_join il.buffer _ il.point _ v.low v.high));
    sound = done.sound;
  }
    where
      ready : InputLine
      ready = il_end_of_line (il_set_mark (il_beginning_of_line il))

      ok : IsValid ready
      ok = record {
        lengths = v.lengths;
        low = omega arith;
        high = omega arith;
        room = v.room;
        small = v.small;
        ended = v.ended;
        solid = v.solid;
      }

      done :
          Refines ready
            (il_region_command loc keep true ready)
            (killed keep ready il.static_length il.length)
      done = region_before loc keep ready ok (omega arith) (omega arith)

  -- What stands between the prompt and the point goes to the kill ring.
  pub il_kill_to_beginning_of_line_lem :
      Refines il (il_kill_to_beginning_of_line loc il) (line_kill_to_beginning (view il))
  unfolding il_kill_to_beginning_of_line line_kill_to_beginning
  il_kill_to_beginning_of_line_lem = record {
    valid = rebuild_mark done.valid;
    shows =
        done.shows
        ∙ Line-ext _ _ refl (rslice_empty il.buffer il.static_length _ (omega arith)) refl (
            ap (λ text. ring_with text il.kill_ring)
              (sym (reverse-rslice il.buffer il.static_length (il.point - il.static_length))));
    sound = done.sound;
  }
    where
      ready : InputLine
      ready = il_beginning_of_line (il_set_mark il)

      ok : IsValid ready
      ok = record {
        lengths = v.lengths;
        low = omega arith;
        high = omega arith;
        room = v.room;
        small = v.small;
        ended = v.ended;
        solid = v.solid;
      }

      done :
          Refines ready
            (il_region_command loc true true ready)
            (killed true ready il.static_length il.point)
      done = region_behind loc true ready ok (omega arith) (omega arith)

  -- What stands behind the point goes to the kill ring.
  pub il_kill_to_end_of_line_lem :
      Refines il (il_kill_to_end_of_line loc il) (line_kill_to_end (view il))
  unfolding il_kill_to_end_of_line line_kill_to_end
  il_kill_to_end_of_line_lem = record {
    valid = rebuild_mark done.valid;
    shows =
        done.shows ∙ Line-ext _ _ refl refl (slice_empty il.buffer il.length _ (omega arith)) refl;
    sound = done.sound;
  }
    where
      ready : InputLine
      ready = il_end_of_line (il_set_mark il)

      ok : IsValid ready
      ok = record {
        lengths = v.lengths;
        low = omega arith;
        high = omega arith;
        room = v.room;
        small = v.small;
        ended = v.ended;
        solid = v.solid;
      }

      done :
          Refines ready
            (il_region_command loc true true ready)
            (killed true ready il.point il.length)
      done = region_before loc true ready ok (omega arith) (omega arith)
