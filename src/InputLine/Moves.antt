-- ===== src/InputLine/Moves.antt =====
-- The moves of the point, on the line.
use gnu_gnuit.Prelude.{
  ℕ, ◌+◌, ◌-◌, ◌≤◌, ◌<◌, ◌≡◌, refl, ap, ltb, [], ◌∷◌, arith, Bool-cases, inl, inr,
}
use gnu_gnuit.Wide.Slice.{
  slice_join, rslice_join, slice, rslice, slice_move, rslice_move, slice_cons, rslice_cons,
  slice_uncons, rslice_uncons, slice_empty, rslice_empty,
}
use gnu_gnuit.InputLine.{InputLine}
use gnu_gnuit.InputLine.Line.{
  Line, Line-ext, line_backward_char, line_forward_char, line_beginning, line_end,
}
use gnu_gnuit.InputLine.Valid.{IsValid, Refines, view, rebuild}
use gnu_gnuit.InputLine.Move.{
  il_backward_char, il_forward_char, il_beginning_of_line, il_end_of_line,
}

-- The same line with the point elsewhere.
abbrev moved : InputLine → ℕ → InputLine
moved il p = record il { point = p }

abbrev split_at : InputLine → ℕ → Line
split_at il p = record (view il) {
  left = rslice il.buffer il.static_length (p - il.static_length);
  right = slice il.buffer p (il.length - p);
}

pub moved-IsValid :
    (il : InputLine) (p : ℕ)
    → IsValid il
    → il.static_length ≤ p
    → p ≤ il.length
    → IsValid (moved il p)
moved-IsValid il p v low high = record {
  lengths = v.lengths;
  low = low;
  high = high;
  room = v.room;
  small = v.small;
  ended = v.ended;
  solid = v.solid;
}

module _ (il : InputLine) (v : IsValid il) where
  -- The nearest characters.
  pub left_uncons :
      il.static_length < il.point
      → (view il).left
        ≡ il.buffer (il.point - 1)
          ∷ rslice il.buffer il.static_length (il.point - il.static_length - 1)
  left_uncons inside =
      rslice_cons il.buffer il.buffer _ il.static_length _ _ _ (omega arith)
        (ap il.buffer (omega arith)) (λ i h. refl)

  pub right_uncons :
      il.point < il.length
      → (view il).right
        ≡ il.buffer il.point ∷ slice il.buffer (il.point + 1) (il.length - il.point - 1)
  right_uncons inside = slice_uncons il.buffer il.point _ (omega arith)

  pub left_nil : il.point ≤ il.static_length → (view il).left ≡ []
  left_nil outside = rslice_empty il.buffer il.static_length _ (omega arith)

  pub right_nil : il.length ≤ il.point → (view il).right ≡ []
  right_nil outside = slice_empty il.buffer il.point _ (omega arith)

  view-backward :
      il.static_length < il.point → split_at il (il.point - 1) ≡ line_backward_char (view il)
  unfolding line_backward_char
  view-backward inside =
      rw (rslice_uncons il.buffer il.static_length (il.point - il.static_length) (omega arith)) (
        Line-ext _ _ refl (rslice_move il.buffer il.buffer _ _ _ _ (omega arith) (λ i h. refl))
          (slice_cons il.buffer il.buffer _ _ _ _ _ (omega arith) (ground arith)
            (λ i h. ground arith))
          refl)

  view-forward : il.point < il.length → split_at il (il.point + 1) ≡ line_forward_char (view il)
  unfolding line_forward_char
  view-forward inside = rw (slice_uncons il.buffer il.point (il.length - il.point) (omega arith)) (
      Line-ext _ _ refl
        (rslice_cons il.buffer il.buffer _ _ _ _ _ (omega arith) (ground arith) (λ i h. refl))
        (slice_move il.buffer il.buffer _ _ _ _ (omega arith) (λ i h. refl)) refl)

  backward_stop : il.point ≤ il.static_length → view il ≡ line_backward_char (view il)
  unfolding line_backward_char
  backward_stop outside =
      rw (rslice_empty il.buffer il.static_length (il.point - il.static_length) (omega arith))

  forward_stop : il.length ≤ il.point → view il ≡ line_forward_char (view il)
  unfolding line_forward_char
  forward_stop outside = rw (slice_empty il.buffer il.point (il.length - il.point) (omega arith))

  -- One step to the left on a valid line, none at the end of the prompt.
  pub il_backward_char_lem : Refines il (il_backward_char il) (line_backward_char (view il))
  unfolding il_backward_char
  il_backward_char_lem = elim (Bool-cases (ltb il.static_length il.point)) [
    | inl inside ↦ rw inside (record {
      valid = rebuild (moved-IsValid il (il.point - 1) v (ground arith) (omega arith));
      shows = view-backward (ground arith);
      sound = refl;
    })
    | inr outside ↦
        rw outside (record { valid = v; shows = backward_stop (ground arith); sound = refl })
  ]

  pub il_forward_char_lem : Refines il (il_forward_char il) (line_forward_char (view il))
  unfolding il_forward_char
  il_forward_char_lem = elim (Bool-cases (ltb il.point il.length)) [
    | inl inside ↦ rw inside (record {
      valid = rebuild (moved-IsValid il (il.point + 1) v (omega arith) (ground arith));
      shows = view-forward (ground arith);
      sound = refl;
    })
    | inr outside ↦
        rw outside (record { valid = v; shows = forward_stop (ground arith); sound = refl })
  ]

  -- To the end of the prompt.
  pub il_beginning_of_line_lem : Refines il (il_beginning_of_line il) (line_beginning (view il))
  unfolding il_beginning_of_line line_beginning
  il_beginning_of_line_lem = record {
    valid = rebuild (moved-IsValid il il.static_length v (omega arith) (omega arith));
    shows =
        Line-ext _ _ refl (rslice_empty il.buffer il.static_length _ (omega arith))
          (slice_join il.buffer _ il.point _ v.low v.high) refl;
    sound = refl;
  }

  -- To the end of the line.
  pub il_end_of_line_lem : Refines il (il_end_of_line il) (line_end (view il))
  unfolding il_end_of_line line_end
  il_end_of_line_lem = record {
    valid = rebuild (moved-IsValid il il.length v (omega arith) (omega arith));
    shows =
        Line-ext _ _ refl (rslice_join il.buffer _ il.point _ v.low v.high)
          (slice_empty il.buffer il.length _ (omega arith)) refl;
    sound = refl;
  }
