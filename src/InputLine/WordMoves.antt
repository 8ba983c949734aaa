-- ===== src/InputLine/WordMoves.antt =====
-- The moves of the point by words, on the line.
use gnu_gnuit.Prelude.{
  ◌-◌, ◌≡◌, refl, sym, ap, ◌∙◌, not, ltb, [], append_assoc, arith, Bool-cases, inl, inr,
}
use mathlib.Core.List.{reverse-append}
use gnu_gnuit.InputLine.{InputLine, il_separator}
use gnu_gnuit.InputLine.Line.{
  Line, span, word, line_backward_over, line_forward_over, line_backward_word, line_forward_word,
}
use gnu_gnuit.InputLine.Valid.{IsValid, Refines, Kept, Kept-trans, view, rebuild}
use gnu_gnuit.InputLine.Move.{il_backward_word, il_forward_word, backward_loops, forward_loops}
use gnu_gnuit.InputLine.Moves.{left_nil, right_nil}
use gnu_gnuit.InputLine.Loops.{
  backward_while_lem, forward_while_lem, backward_while-Kept, forward_while-Kept,
}

-- Two loops over a stretch of separators and one of others make a word.
over-over-backward :
    (l : Line)
    → line_backward_over (λ c. not (il_separator c)) (line_backward_over il_separator l)
      ≡ line_backward_word l
unfolding line_backward_over line_backward_word word
over-over-backward l = rw (reverse-append, append_assoc)

over-over-forward :
    (l : Line)
    → line_forward_over (λ c. not (il_separator c)) (line_forward_over il_separator l)
      ≡ line_forward_word l
unfolding line_forward_over line_forward_word word
over-over-forward l = rw (reverse-append, append_assoc)

line_backward_word_nil : (l : Line) → l.left ≡ [] → line_backward_word l ≡ l
unfolding line_backward_word word span
line_backward_word_nil l e = rw e

line_forward_word_nil : (l : Line) → l.right ≡ [] → line_forward_word l ≡ l
unfolding line_forward_word word span
line_forward_word_nil l e = rw e

module _ (il : InputLine) (v : IsValid il) where
  pub backward_loops_lem : Refines il (backward_loops il) (line_backward_word (view il))
  unfolding backward_loops
  backward_loops_lem =
      let one = backward_while_lem il_separator il.point il v (omega arith) in
      let two = backward_while_lem (λ c. not (il_separator c)) _ _ one.valid (omega arith) in
      record {
        valid = two.valid;
        shows =
            two.shows
            ∙ ap (line_backward_over (λ c. not (il_separator c))) one.shows
            ∙ over-over-backward (view il);
        sound = two.sound ∙ one.sound;
      }

  pub forward_loops_lem : Refines il (forward_loops il) (line_forward_word (view il))
  unfolding forward_loops
  forward_loops_lem =
      let one = forward_while_lem il_separator (il.length - il.point) il v (omega arith) in
      let two = forward_while_lem (λ c. not (il_separator c)) _ _ one.valid (omega arith) in
      record {
        valid = two.valid;
        shows =
            two.shows
            ∙ ap (line_forward_over (λ c. not (il_separator c))) one.shows
            ∙ over-over-forward (view il);
        sound = two.sound ∙ one.sound;
      }

  pub backward_loops-Kept : Kept il (backward_loops il)
  unfolding backward_loops
  backward_loops-Kept = Kept-trans (backward_while-Kept _ il.point il) (backward_while-Kept _ _ _)

  pub forward_loops-Kept : Kept il (forward_loops il)
  unfolding forward_loops
  forward_loops-Kept =
      Kept-trans (forward_while-Kept _ (il.length - il.point) il) (forward_while-Kept _ _ _)

  -- On a valid line `il_backward_word` takes the point to the left over separators and then over a
  -- word, at most to the end of the prompt, and changes nothing else of what is shown.
  pub il_backward_word_lem : Refines il (il_backward_word il) (line_backward_word (view il))
  unfolding il_backward_word
  il_backward_word_lem = elim (Bool-cases (ltb il.static_length il.point)) [
    | inl inside ↦ rw inside (record {
      valid = rebuild backward_loops_lem.valid;
      shows = backward_loops_lem.shows;
      sound = backward_loops_lem.sound;
    })
    | inr outside ↦ rw outside (record {
      valid = v;
      shows = sym (line_backward_word_nil _ (left_nil il v (ground arith)));
      sound = refl;
    })
  ]

  -- To the right over separators and then over a word, or to the end of the line.
  pub il_forward_word_lem : Refines il (il_forward_word il) (line_forward_word (view il))
  unfolding il_forward_word
  il_forward_word_lem = elim (Bool-cases (ltb il.point il.length)) [
    | inl inside ↦ rw inside (record {
      valid = rebuild forward_loops_lem.valid;
      shows = forward_loops_lem.shows;
      sound = forward_loops_lem.sound;
    })
    | inr outside ↦ rw outside (record {
      valid = v;
      shows = sym (line_forward_word_nil _ (right_nil il v (ground arith)));
      sound = refl;
    })
  ]

  pub il_backward_word-Kept : Kept il (il_backward_word il)
  unfolding il_backward_word
  il_backward_word-Kept = ground (arith, backward_loops-Kept)

  pub il_forward_word-Kept : Kept il (il_forward_word il)
  unfolding il_forward_word
  il_forward_word-Kept = ground (arith, forward_loops-Kept)
