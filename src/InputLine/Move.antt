-- ===== src/InputLine/Move.antt =====
-- src/inputline.c: the functions that move the point or the mark.
use gnu_gnuit.Prelude.{ℕ, zero, suc, ◌+◌, ◌-◌, Bool, true, false, not, ltb, ◌&&◌, if◌then◌else◌}
use gnu_gnuit.Prelude.Word.{sub_size, through_int}
use gnu_gnuit.InputLine.{
  InputLine, backward_char, forward_char, backward_word, forward_word, beginning_of_line,
  end_of_line, il_separator,
}

unfoldable pub il_set_mark : InputLine → InputLine
il_set_mark il = record il { mark = il.point }

-- The position of the point in the dynamic part.
unfoldable pub il_point : InputLine → ℕ
il_point il = sub_size il.point il.static_length

-- The point is kept in an `int` meanwhile.
unfoldable pub il_exchange_point_and_mark : InputLine → InputLine
il_exchange_point_and_mark il = record il { point = il.mark; mark = through_int il.point }

-- `point--` and `point++` run only where they cannot wrap.
unfoldable pub il_backward_char : InputLine → InputLine
il_backward_char il =
    if ltb il.static_length il.point
    then record il { point = il.point - 1; last_operation = backward_char }
    else il

unfoldable pub il_forward_char : InputLine → InputLine
il_forward_char il =
    if ltb il.point il.length
    then record il { point = il.point + 1; last_operation = forward_char }
    else il

-- `while (point > static_length && test(buffer[point - 1])) il_backward_char();`
-- Each round takes the point down by one, so `il.point` rounds are enough.
unfoldable pub backward_while : (ℕ → Bool) → ℕ → InputLine → InputLine
backward_while test zero il = il
backward_while test (suc fuel) il =
    elim (ltb il.static_length il.point && test (il.buffer (il.point - 1))) [
      | true ↦ backward_while test fuel (il_backward_char il)
      | false ↦ il
    ]

-- `while (point < length && test(buffer[point])) il_forward_char();`, with `length - point` rounds.
unfoldable pub forward_while : (ℕ → Bool) → ℕ → InputLine → InputLine
forward_while test zero il = il
forward_while test (suc fuel) il = elim (ltb il.point il.length && test (il.buffer il.point)) [
  | true ↦ forward_while test fuel (il_forward_char il)
  | false ↦ il
]

unfoldable pub backward_loops : InputLine → InputLine
backward_loops il =
    let skipped = backward_while il_separator il.point il in
    backward_while (λ c. not (il_separator c)) skipped.point skipped

unfoldable pub il_backward_word : InputLine → InputLine
unfolding backward_loops
il_backward_word il =
    if ltb il.static_length il.point
    then (let moved = backward_loops il in record moved { last_operation = backward_word })
    else il

unfoldable pub forward_loops : InputLine → InputLine
forward_loops il =
    let skipped = forward_while il_separator (il.length - il.point) il in
    forward_while (λ c. not (il_separator c)) (skipped.length - skipped.point) skipped

unfoldable pub il_forward_word : InputLine → InputLine
unfolding forward_loops
il_forward_word il =
    if ltb il.point il.length
    then (let moved = forward_loops il in record moved { last_operation = forward_word })
    else il

unfoldable pub il_beginning_of_line : InputLine → InputLine
il_beginning_of_line il = record il { point = il.static_length; last_operation = beginning_of_line }

unfoldable pub il_end_of_line : InputLine → InputLine
il_end_of_line il = record il { point = il.length; last_operation = end_of_line }

-- The old flag is what the function returns.
unfoldable pub il_echo : ℕ → InputLine → InputLine × ℕ
il_echo echo il = (record il { echo = echo }, il.echo)

unfoldable pub il_set_error_flag : ℕ → InputLine → InputLine
il_set_error_flag flag il = record il { error = flag }
