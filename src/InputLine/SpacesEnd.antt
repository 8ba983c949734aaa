-- ===== src/InputLine/SpacesEnd.antt =====
-- `il_delete_horizontal_space` where the prompt does not end in a space: it returns.
use gnu_gnuit.Prelude.{
  ℕ, zero, suc, ◌+◌, ◌-◌, ◌<◌, ◌≡◌, ◌≢◌, refl, sym, ap, ◌∙◌, true, false, ltb, ◌==◌, ◌&&◌, Option,
  some, [], arith, Bool-cases, inl, inr,
}
use gnu_gnuit.Prelude.Word.{sub_size}
use gnu_gnuit.Wide.{Locale}
use gnu_gnuit.InputLine.{InputLine, delete_horizontal_space}
use gnu_gnuit.InputLine.Edit.{
  il_backward_delete_char, backward_delete_spaces, horizontal_rest, il_delete_horizontal_space,
}
use gnu_gnuit.InputLine.Line.{Line, Line-ext, span, line_backward_delete}
use gnu_gnuit.InputLine.Valid.{IsValid, view, rebuild}
use gnu_gnuit.InputLine.Moves.{left_uncons, left_nil}
use gnu_gnuit.InputLine.Loops.{span_stop, span_nil}
use gnu_gnuit.InputLine.Deletion.{il_backward_delete_char_lem}
use gnu_gnuit.InputLine.Spaces.{
  is_space, line_skip_spaces, Skipped, delete_spaces_total, delete_spaces_lem,
}

-- The line without the spaces in front of the point.
unfoldable pub line_trim : Line → Line
line_trim l = record l { left = (span is_space l.left).1 }

-- The prompt is there and its last character is no space.
pub record PromptEnds (il : InputLine) : Type 0 where
  pub some_prompt : 0 < il.static_length
  pub no_space : il.buffer (il.static_length - 1) ≢ b' '

module _ (loc : Locale) (il : InputLine) (v : IsValid il) (p : PromptEnds il) where
  goes_on-inside :
      (ltb 0 il.dynamic_length && il.buffer (sub_size il.point 1) == b' ') ≡ true
      → (il.static_length < il.point) × (il.buffer (il.point - 1) ≡ b' ')
  goes_on-inside go =
      let same : sub_size il.point 1 ≡ il.point - 1 =
        omega (arith, p.some_prompt, v.low, v.high, v.room, v.small) in
      let space : il.buffer (il.point - 1) ≡ b' ' = ground (arith, same) in
      elim (Bool-cases (ltb il.static_length il.point)) [
        | inl inside ↦ (ground arith, space)
        | inr outside ↦ absurd (
            p.no_space
              (ap il.buffer {x = il.static_length - 1} {y = il.point - 1} (ground arith) ∙ space))
      ]

  trim_stop :
      (ltb 0 il.dynamic_length && il.buffer (sub_size il.point 1) == b' ') ≡ false
      → line_trim (view il) ≡ view il
  unfolding line_trim
  trim_stop stop = Line-ext _ _ refl (ap (λ t. t.1) stops) refl refl
    where
      same : sub_size il.point 1 ≡ il.point - 1
      same = omega (arith, p.some_prompt, v.low, v.high, v.room, v.small)

      stops : span is_space (view il).left ≡ ([], (view il).left)
      stops = elim (Bool-cases (ltb il.static_length il.point)) [
        | inl inside ↦
            span_stop is_space _ _ _ (left_uncons il v (ground arith)) (ground (arith, same))
        | inr outside ↦ span_nil is_space _ (left_nil il v (ground arith))
      ]

  module _ (inside : il.static_length < il.point) where
    trim_step :
        il.buffer (il.point - 1) ≡ b' '
        → line_trim (line_backward_delete (view il)) ≡ line_trim (view il)
    unfolding line_trim line_backward_delete span
    trim_step e = rw (left_uncons il v inside, e)

    backward_fields :
        let il' = il_backward_delete_char loc il in
        (il'.point + 1 ≡ il.point) × (il'.static_length ≡ il.static_length)
    unfolding il_backward_delete_char
    backward_fields = ground arith

    backward_low :
        (i : ℕ) → i < il.static_length → (il_backward_delete_char loc il).buffer i ≡ il.buffer i
    unfolding il_backward_delete_char
    backward_low i h = ground arith

    backward-PromptEnds : PromptEnds (il_backward_delete_char loc il)
    backward-PromptEnds =
        let (_, static') = backward_fields in
        record {
          some_prompt = omega (arith, static', p.some_prompt);
          no_space =
              rw static' (
                rw (backward_low (il.static_length - 1) (omega (arith, p.some_prompt))) p.no_space);
        }

-- A loop returned, with a valid line that shows `l`.
pub record Ends (result : Option InputLine) (l : Line) : Type 0 where
  pub after : InputLine
  pub returned : result ≡ some after
  pub valid : IsValid after
  pub shows : view after ≡ l

module _ (loc : Locale) where
  backward_delete_spaces_lem :
      (fuel : ℕ) (il : InputLine)
      → IsValid il
      → PromptEnds il
      → il.point < fuel
      → Ends (backward_delete_spaces loc fuel il) (line_trim (view il))
  unfolding backward_delete_spaces
  backward_delete_spaces_lem zero il v p h = absurd (omega arith)
  backward_delete_spaces_lem (suc fuel) il v p h =
      elim (Bool-cases (ltb 0 il.dynamic_length && il.buffer (sub_size il.point 1) == b' ')) [
        | inl go ↦
            let (inside, space) = goes_on-inside loc il v p go in
            let one = il_backward_delete_char_lem loc il v in
            let rest =
              backward_delete_spaces_lem fuel (il_backward_delete_char loc il) one.valid
                (backward-PromptEnds loc il v p inside)
                (omega (arith, backward_fields loc il v p inside)) in
            rw (go, backward_delete_spaces)
              (record {
                after = rest.after;
                returned = rest.returned;
                valid = rest.valid;
                shows = rest.shows ∙ ap line_trim one.shows ∙ trim_step loc il v p inside space;
              })
        | inr stop ↦
            rw (stop, backward_delete_spaces)
              (record {
                after = il;
                returned = refl;
                valid = v;
                shows = sym (trim_stop loc il v p stop);
              })
      ]

  rest-Ends :
      (fuel : ℕ) (il cut : InputLine)
      → IsValid il
      → PromptEnds il
      → Skipped il cut
      → il.point < fuel
      → Ends (horizontal_rest loc fuel (some cut)) (line_trim (line_skip_spaces (view il)))
  rest-Ends fuel il cut v p s h =
      let prompt : PromptEnds cut = record {
        some_prompt = omega (arith, s.same_static, p.some_prompt);
        no_space = rw s.same_static (
            rw (s.low_kept (il.static_length - 1) (omega (arith, p.some_prompt, v.low)))
              p.no_space);
      } in
      let done = backward_delete_spaces_lem fuel cut s.valid prompt (omega (arith, s.same_point)) in
      record {
        after = record (done.after) { last_operation = delete_horizontal_space };
        returned = rw (done.returned, horizontal_rest);
        valid = rebuild done.valid;
        shows = done.shows ∙ ap line_trim s.shows;
      }

  -- In front of a space, on a valid line whose prompt is not empty and does not end in a space,
  -- `il_delete_horizontal_space` returns, given more rounds than the line has characters, with the
  -- spaces on both sides of the point gone and the line valid.
  pub il_delete_horizontal_space-Ends :
      (fuel : ℕ) (il : InputLine)
      → IsValid il
      → PromptEnds il
      → il.buffer il.point ≡ b' '
      → il.length < fuel
      → Ends (il_delete_horizontal_space loc fuel il) (line_trim (line_skip_spaces (view il)))
  unfolding il_delete_horizontal_space
  il_delete_horizontal_space-Ends fuel il v p space h =
      let starts : (il.buffer il.point == b' ') ≡ true = ground arith in
      let (cut, e) = delete_spaces_total loc fuel il v (omega arith) in
      rw (starts, e)
        (rest-Ends fuel il cut v p (delete_spaces_lem loc fuel il v e) (omega (arith, v.high)))
