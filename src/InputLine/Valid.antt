-- ===== src/InputLine/Valid.antt =====
-- The shape that every editing function of src/inputline.c relies on, and the editor's line that an
-- input line in that shape stands for.
use gnu_gnuit.Prelude.{ℕ, ◌+◌, ◌-◌, ◌^◌, ◌≤◌, ◌<◌, ◌≡◌, ◌≢◌, arith}
use gnu_gnuit.Wide.Slice.{slice, rslice}
use gnu_gnuit.InputLine.{InputLine, Operation}
use gnu_gnuit.InputLine.Line.{Line}

-- A block of wide characters has fewer than 2^62 cells, so that its bytes can be counted.
abbrev pub max_size : ℕ
max_size = 2 ^ 62

pub record IsValid (il : InputLine) : Type 0 where
  pub lengths : il.length ≡ il.static_length + il.dynamic_length
  pub low : il.static_length ≤ il.point
  pub high : il.point ≤ il.length
  pub room : il.length < il.size
  pub small : il.size ≤ max_size
  pub ended : il.buffer il.length ≡ 0
  pub solid : (i : ℕ) → i < il.length → il.buffer i ≢ 0

-- The mark lies in the dynamic part, as the region commands take for granted.
pub record MarkFits (il : InputLine) : Type 0 where
  pub mark_low : il.static_length ≤ il.mark
  pub mark_high : il.mark ≤ il.length

-- The line that an input line shows.
abbrev pub view : InputLine → Line
view il = record {
  prompt = slice il.buffer 0 il.static_length;
  left = rslice il.buffer il.static_length (il.point - il.static_length);
  right = slice il.buffer il.point (il.length - il.point);
  ring = il.kill_ring;
}

-- A function took the input line `il` to a valid one that shows the line `l`, with no access
-- outside the buffer.
pub record Refines (il il' : InputLine) (l : Line) : Type 0 where
  pub valid : IsValid il'
  pub shows : view il' ≡ l
  pub sound : il'.overrun ≡ il.overrun

-- The shape does not depend on the other fields.
pub rebuild :
    {il : InputLine} {op : Operation} → IsValid il → IsValid (record il { last_operation = op })
rebuild v = record {
  lengths = v.lengths;
  low = v.low;
  high = v.high;
  room = v.room;
  small = v.small;
  ended = v.ended;
  solid = v.solid;
}

-- What a move of the point leaves alone.
pub record Kept (il il' : InputLine) : Type 0 where
  pub static_kept : il'.static_length ≡ il.static_length
  pub dynamic_kept : il'.dynamic_length ≡ il.dynamic_length
  pub length_kept : il'.length ≡ il.length
  pub size_kept : il'.size ≡ il.size
  pub mark_kept : il'.mark ≡ il.mark
  pub buffer_kept : il'.buffer ≡ il.buffer
  pub ring_kept : il'.kill_ring ≡ il.kill_ring

pub Kept-refl : (il : InputLine) → Kept il il
Kept-refl il = ground arith

pub Kept-trans : {a b c : InputLine} → Kept a b → Kept b c → Kept a c
Kept-trans p q = ground arith

pub rebuild_mark :
    {il : InputLine} {m : ℕ} {op : Operation}
    → IsValid il
    → IsValid (record il { mark = m; last_operation = op })
rebuild_mark v = record {
  lengths = v.lengths;
  low = v.low;
  high = v.high;
  room = v.room;
  small = v.small;
  ended = v.ended;
  solid = v.solid;
}
