-- ===== src/InputLine/WordText.antt =====
-- The text between the point and where the moves by words take it.
use gnu_gnuit.Prelude.{ℕ, ◌+◌, ◌-◌, ◌≤◌, ◌≡◌, sym, ap, ap₂, ◌∙◌, ◌++◌, reverse, length, arith}
use mathlib.Core.List.{append_cancel_right}
use gnu_gnuit.Wide.Slice.{
  slice, rslice, reverse-rslice, slice-add, rslice-add, length-slice, length-rslice,
}
use gnu_gnuit.InputLine.{InputLine}
use gnu_gnuit.InputLine.Move.{il_forward_word, il_backward_word}
use gnu_gnuit.InputLine.Line.{Line, word, line_forward_word, line_backward_word}
use gnu_gnuit.InputLine.Valid.{IsValid, Refines, Kept, view}
use gnu_gnuit.InputLine.Spans.{word-append, word-length}
use gnu_gnuit.InputLine.WordMoves.{
  il_forward_word_lem, il_backward_word_lem, il_forward_word-Kept, il_backward_word-Kept,
}

module _ (il : InputLine) (v : IsValid il) where
  abbrev ahead : InputLine
  ahead = il_forward_word il

  ahead_lem : Refines il ahead (line_forward_word (view il))
  ahead_lem = il_forward_word_lem il v

  ahead-Kept : Kept il ahead
  ahead-Kept = il_forward_word-Kept il v

  pub right-ahead : slice il.buffer ahead.point (il.length - ahead.point) ≡ (word (view il).right).1
  unfolding line_forward_word
  right-ahead =
      ap₂ (λ (f : ℕ → ℕ) (n : ℕ). slice f ahead.point (n - ahead.point))
        (sym ahead-Kept.buffer_kept) (sym ahead-Kept.length_kept)
      ∙ ap (λ (l : Line). l.right) ahead_lem.shows

  pub point-ahead : (il.point ≤ ahead.point) × (ahead.point ≤ il.length)
  point-ahead = omega (
    arith,
    ap length right-ahead,
    length-slice il.buffer ahead.point (il.length - ahead.point),
    length-slice il.buffer il.point (il.length - il.point),
    word-length (view il).right,
    ahead_lem.valid.high,
    ahead-Kept.length_kept,
    v.high,
  )

  -- What lies between the two points is the word.
  pub word_ahead : slice il.buffer il.point (ahead.point - il.point) ≡ (word (view il).right).0
  word_ahead = append_cancel_right _ _ (word (view il).right).1 (
      ap (slice il.buffer il.point (ahead.point - il.point) ++◌) (sym right-ahead)
      ∙ ap
          (λ a.
            slice il.buffer il.point (ahead.point - il.point)
            ++ slice il.buffer a (il.length - ahead.point))
          {x = ahead.point} {y = il.point + (ahead.point - il.point)} (omega (arith, point-ahead))
      ∙ sym (
          slice-add il.buffer il.point (ahead.point - il.point) (il.length - ahead.point)
            (il.length - il.point) (omega (arith, point-ahead)))
      ∙ sym (word-append (view il).right))

  abbrev behind : InputLine
  behind = il_backward_word il

  behind_lem : Refines il behind (line_backward_word (view il))
  behind_lem = il_backward_word_lem il v

  behind-Kept : Kept il behind
  behind-Kept = il_backward_word-Kept il v

  pub left-behind :
      rslice il.buffer il.static_length (behind.point - il.static_length) ≡ (word (view il).left).1
  unfolding line_backward_word
  left-behind =
      ap₂ (λ (f : ℕ → ℕ) (s : ℕ). rslice f s (behind.point - s)) (sym behind-Kept.buffer_kept)
        (sym behind-Kept.static_kept)
      ∙ ap (λ (l : Line). l.left) behind_lem.shows

  pub point-behind : (il.static_length ≤ behind.point) × (behind.point ≤ il.point)
  point-behind = omega (
    arith,
    ap length left-behind,
    length-rslice il.buffer il.static_length (behind.point - il.static_length),
    length-rslice il.buffer il.static_length (il.point - il.static_length),
    word-length (view il).left,
    behind_lem.valid.low,
    behind-Kept.static_kept,
    v.low,
  )

  pub word_behind :
      slice il.buffer behind.point (il.point - behind.point) ≡ reverse (word (view il).left).0
  word_behind =
      sym (reverse-rslice il.buffer behind.point (il.point - behind.point))
      ∙ ap reverse (
          append_cancel_right _ _ (word (view il).left).1 (
            ap (rslice il.buffer behind.point (il.point - behind.point) ++◌) (sym left-behind)
            ∙ ap
                (λ a.
                  rslice il.buffer a (il.point - behind.point)
                  ++ rslice il.buffer il.static_length (behind.point - il.static_length))
                {x = behind.point} {y = il.static_length + (behind.point - il.static_length)}
                (omega (arith, point-behind))
            ∙ sym (
                rslice-add il.buffer il.static_length (behind.point - il.static_length)
                  (il.point - behind.point) (il.point - il.static_length)
                  (omega (arith, point-behind)))
            ∙ sym (word-append (view il).left)))
