-- ===== src/InputLine/Spaces.antt =====
-- `il_delete_horizontal_space`: where its loops end, and where they do not.
use gnu_gnuit.Prelude.{
  ℕ, zero, suc, ◌+◌, ◌-◌, ◌<◌, ◌≡◌, ◌≢◌, refl, sym, ap, ◌∙◌, subst, Bool, true, false, ltb, ◌==◌,
  ◌&&◌, Option, none, some, [], arith, Bool-cases, ltb→lt, ltb→le, inl, inr,
}
use mathlib.Core.Option.{some-injective}
use gnu_gnuit.Prelude.Word.{sub_size}
use gnu_gnuit.Wide.{Locale}
use gnu_gnuit.InputLine.{InputLine}
use gnu_gnuit.InputLine.Edit.{
  il_delete_char, il_backward_delete_char, delete_spaces, backward_delete_spaces, horizontal_rest,
  il_delete_horizontal_space,
}
use gnu_gnuit.InputLine.Line.{Line, Line-ext, span, line_delete}
use gnu_gnuit.InputLine.Valid.{IsValid, view}
use gnu_gnuit.InputLine.Moves.{right_uncons, right_nil}
use gnu_gnuit.InputLine.Loops.{span_stop, span_nil}
use gnu_gnuit.InputLine.Deletion.{il_delete_char-IsValid, view-il_delete_char}

abbrev pub is_space : ℕ → Bool
is_space c = c == b' '

-- The line without the spaces behind the point.
unfoldable pub line_skip_spaces : Line → Line
line_skip_spaces l = record l { right = (span is_space l.right).1 }

module _ (loc : Locale) (il : InputLine) (v : IsValid il) where
  -- A deletion leaves the cells in front of the point, the point and the prompt.
  delete_char_low : (i : ℕ) → i < il.point → (il_delete_char loc il).buffer i ≡ il.buffer i
  unfolding il_delete_char
  delete_char_low i h = ground arith

  delete_char_fields :
      let il' = il_delete_char loc il in
      (il'.point ≡ il.point) × (il'.static_length ≡ il.static_length)
  unfolding il_delete_char
  delete_char_fields = ground arith

  delete_char_shorter : il.buffer il.point ≡ b' ' → (il_delete_char loc il).length + 1 ≡ il.length
  unfolding il_delete_char
  delete_char_shorter e = ground arith

  space_inside : il.buffer il.point ≡ b' ' → il.point < il.length
  space_inside e = ground arith

  skip_step :
      il.buffer il.point ≡ b' '
      → line_skip_spaces (line_delete (view il)) ≡ line_skip_spaces (view il)
  unfolding line_skip_spaces line_delete span
  skip_step e = rw (right_uncons il v (space_inside e), e)

  skip_stop : (il.buffer il.point == b' ') ≡ false → line_skip_spaces (view il) ≡ view il
  unfolding line_skip_spaces
  skip_stop e = Line-ext _ _ refl refl (ap (λ t. t.1) stops) refl
    where
      stops : span is_space (view il).right ≡ ([], (view il).right)
      stops = elim (Bool-cases (ltb il.point il.length)) [
        | inl inside ↦ span_stop is_space _ _ _ (right_uncons il v (ground arith)) e
        | inr outside ↦ span_nil is_space _ (right_nil il v (ground arith))
      ]

-- What the first loop leaves when it ends.
pub record Skipped (il cut : InputLine) : Type 0 where
  pub valid : IsValid cut
  pub shows : view cut ≡ line_skip_spaces (view il)
  pub same_point : cut.point ≡ il.point
  pub same_static : cut.static_length ≡ il.static_length
  pub low_kept : (i : ℕ) → i < il.point → cut.buffer i ≡ il.buffer i

module _ (loc : Locale) where
  Skipped-step :
      (il cut : InputLine)
      → IsValid il
      → il.buffer il.point ≡ b' '
      → Skipped (il_delete_char loc il) cut
      → Skipped il cut
  Skipped-step il cut v e s =
      let (point', static') = delete_char_fields loc il v in
      record {
        valid = s.valid;
        shows = s.shows ∙ ap line_skip_spaces (view-il_delete_char loc il v) ∙ skip_step loc il v e;
        same_point = s.same_point ∙ point';
        same_static = s.same_static ∙ static';
        low_kept = λ i h. s.low_kept i (omega arith) ∙ delete_char_low loc il v i h;
      }

  -- The first loop ends, given a round for each character behind the point and one more.
  pub delete_spaces_total :
      (fuel : ℕ) (il : InputLine)
      → IsValid il
      → il.length < il.point + fuel
      → (cut : InputLine) × (delete_spaces loc fuel il ≡ some cut)
  unfolding delete_spaces
  delete_spaces_total zero il v h = absurd (omega arith)
  delete_spaces_total (suc fuel) il v h = elim (Bool-cases (il.buffer il.point == b' ')) [
    | inl space ↦
        let e : il.buffer il.point ≡ b' ' = ground arith in
        rw (space, delete_spaces)
          (delete_spaces_total fuel (il_delete_char loc il) (il_delete_char-IsValid loc il v)
            (omega (arith, delete_char_shorter loc il v e, delete_char_fields loc il v)))
    | inr other ↦ (il, rw (other, delete_spaces))
  ]

  -- Whatever the fuel, where it ends the spaces are gone.
  pub delete_spaces_lem :
      (fuel : ℕ) (il : InputLine) {cut : InputLine}
      → IsValid il
      → delete_spaces loc fuel il ≡ some cut
      → Skipped il cut
  unfolding delete_spaces
  delete_spaces_lem zero il v e = cc
  delete_spaces_lem (suc fuel) il {cut} v e = elim (Bool-cases (il.buffer il.point == b' ')) [
    | inl space ↦ Skipped-step il cut v (ground arith) (
        delete_spaces_lem fuel (il_delete_char loc il) (il_delete_char-IsValid loc il v)
          (rw (space, delete_spaces) at e))
    | inr other ↦
        subst (Skipped il) (some-injective il cut (rw (other, delete_spaces) at e)) (record {
          valid = v;
          shows = sym (skip_stop loc il v other);
          same_point = refl;
          same_static = refl;
          low_kept = λ i h. refl;
        })
  ]

  nothing_to_delete :
      (il : InputLine) → il.point ≡ il.static_length → il_backward_delete_char loc il ≡ il
  unfolding il_backward_delete_char
  nothing_to_delete il e =
      let stays : ltb il.static_length il.point ≡ false = ground arith in rw stays

  -- The second loop does not end where the point has come down to the prompt, text is left behind
  -- it and the prompt ends in a space: the deletion then does nothing.
  stuck_at_prompt :
      (fuel : ℕ) (il : InputLine)
      → il.point ≡ il.static_length
      → 0 < il.dynamic_length
      → il.buffer (sub_size il.point 1) ≡ b' '
      → backward_delete_spaces loc fuel il ≡ none
  unfolding backward_delete_spaces
  stuck_at_prompt zero il at some_text space = refl
  stuck_at_prompt (suc fuel) il at some_text space =
      let goes_on : (ltb 0 il.dynamic_length && il.buffer (sub_size il.point 1) == b' ') ≡ true =
        ground arith in
      rw (goes_on, nothing_to_delete il at, backward_delete_spaces)
        (stuck_at_prompt fuel il at some_text space)

  text_left :
      (il cut : InputLine)
      → Skipped il cut
      → (line_skip_spaces (view il)).right ≢ []
      → 0 < cut.dynamic_length
  text_left il cut s more = elim (Bool-cases (ltb cut.point cut.length)) [
    | inl inside ↦ omega (arith, ltb→lt cut.point cut.length inside, s.valid.lengths, s.valid.low)
    | inr outside ↦ absurd (
        more (
          ap (λ (l : Line). l.right) (sym s.shows)
          ∙ right_nil cut s.valid (ltb→le cut.point cut.length outside)))
  ]

  -- On a valid line with the point at the end of a prompt that ends in a space, in front of spaces
  -- and then more text, `il_delete_horizontal_space` returns after no number of rounds.
  pub il_delete_horizontal_space-hangs :
      (fuel : ℕ) (il : InputLine)
      → IsValid il
      → 0 < il.static_length
      → il.point ≡ il.static_length
      → il.buffer (il.static_length - 1) ≡ b' '
      → il.buffer il.point ≡ b' '
      → (line_skip_spaces (view il)).right ≢ []
      → il_delete_horizontal_space loc fuel il ≡ none
  unfolding il_delete_horizontal_space
  il_delete_horizontal_space-hangs fuel il v prompt at prompt_space space more =
      let starts : (il.buffer il.point == b' ') ≡ true = ground arith in
      rw starts (by_result (delete_spaces loc fuel il) refl)
    where
      second : (cut : InputLine) → Skipped il cut → backward_delete_spaces loc fuel cut ≡ none
      second cut s =
          stuck_at_prompt fuel cut (omega (arith, s.same_point, s.same_static))
            (text_left il cut s more)
            (ap cut.buffer {x = sub_size cut.point 1} {y = il.static_length - 1}
                (omega (arith, s.same_point, v.high, v.room, v.small))
              ∙ s.low_kept (il.static_length - 1) (omega arith)
              ∙ prompt_space)

      by_result :
          (r : Option InputLine) → delete_spaces loc fuel il ≡ r → horizontal_rest loc fuel r ≡ none
      by_result none e = refl
      by_result (some cut) e = rw (second cut (delete_spaces_lem fuel il v e), horizontal_rest)
