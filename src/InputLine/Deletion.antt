-- ===== src/InputLine/Deletion.antt =====
-- The deletions of single characters, on the line.
use gnu_gnuit.Prelude.{
  ℕ, ◌+◌, ◌%◌, ◌<◌, ◌≡◌, refl, sym, ap, ◌∙◌, ◌||◌, ltb, ◌==◌, if◌then◌else◌, [], arith, Bool-cases,
  inl, inr,
}
use mathlib.Core.List.{tail}
use gnu_gnuit.Wide.{Locale}
use gnu_gnuit.Wide.Slice.{slice_move, rslice_move}
use gnu_gnuit.InputLine.{InputLine}
use gnu_gnuit.InputLine.Edit.{
  shrink, delete_cell, backward_delete_cell, il_delete_char, il_backward_delete_char,
}
use gnu_gnuit.InputLine.Line.{Line-ext, line_delete, line_backward_delete}
use gnu_gnuit.InputLine.Valid.{IsValid, Refines, view, rebuild}
use gnu_gnuit.InputLine.Insertion.{il_resize_buffer-IsValid, view-il_resize_buffer}
use gnu_gnuit.InputLine.Moves.{left_uncons, right_uncons, left_nil, right_nil}

-- The resize that ends a deletion.
module _ (loc : Locale) (il : InputLine) (v : IsValid il) where
  shrink-Refines : Refines il (shrink loc il) (view il)
  unfolding shrink
  shrink-Refines = elim (Bool-cases (il.length % 16 == 0)) [
    | inl sixteenth ↦ rw sixteenth (record {
      valid = il_resize_buffer-IsValid loc _ il v (omega arith) (omega arith);
      shows = view-il_resize_buffer loc _ il v (omega arith);
      sound = refl;
    })
    | inr other ↦ rw other (record { valid = v; shows = refl; sound = refl })
  ]

module _ (il : InputLine) (v : IsValid il) where
  delete_cell-IsValid : il.point < il.length → IsValid (delete_cell il)
  unfolding delete_cell
  delete_cell-IsValid inside = record {
    lengths = omega arith;
    low = omega arith;
    high = omega arith;
    room = omega arith;
    small = omega arith;
    ended = ground arith;
    solid = λ i h. ground (arith, v.solid i, v.solid (i + 1));
  }

  view-delete_cell : il.point < il.length → view (delete_cell il) ≡ line_delete (view il)
  unfolding delete_cell line_delete
  view-delete_cell inside =
      Line-ext _ _ (slice_move new il.buffer _ _ _ _ refl (λ i h. ground arith))
        (rslice_move new il.buffer _ _ _ _ refl (λ i h. ground arith))
        (slice_move new il.buffer _ _ _ _ (omega arith) (λ i h. ground arith)
          ∙ sym (ap tail (right_uncons il v inside)))
        refl
    where
      new : ℕ → ℕ
      new = (delete_cell il).buffer

  overrun-delete_cell :
      il.point < il.length → (delete_cell il).overrun ≡ (il.overrun || ltb il.size (il.length + 2))
  unfolding delete_cell
  overrun-delete_cell inside = ground arith

  backward_delete_cell-IsValid : il.static_length < il.point → IsValid (backward_delete_cell il)
  unfolding backward_delete_cell
  backward_delete_cell-IsValid inside = record {
    lengths = omega arith;
    low = omega arith;
    high = omega arith;
    room = omega arith;
    small = omega arith;
    ended = ground arith;
    solid = λ i h. ground (arith, v.solid i, v.solid (i + 1));
  }

  view-backward_delete_cell :
      il.static_length < il.point → view (backward_delete_cell il) ≡ line_backward_delete (view il)
  unfolding backward_delete_cell line_backward_delete
  view-backward_delete_cell inside =
      Line-ext _ _ (slice_move new il.buffer _ _ _ _ refl (λ i h. ground arith))
        (rslice_move new il.buffer _ _ _ _ (omega arith) (λ i h. ground arith)
          ∙ sym (ap tail (left_uncons il v inside)))
        (slice_move new il.buffer _ _ _ _ (omega arith) (λ i h. ground arith)) refl
    where
      new : ℕ → ℕ
      new = (backward_delete_cell il).buffer

  overrun-backward_delete_cell :
      il.static_length < il.point → (backward_delete_cell il).overrun ≡ il.overrun
  unfolding backward_delete_cell
  overrun-backward_delete_cell inside = ground arith

-- A deletion at the point changes the line as it should.
module _ (loc : Locale) (il : InputLine) (v : IsValid il) where
  pub il_delete_char-IsValid : IsValid (il_delete_char loc il)
  unfolding il_delete_char
  il_delete_char-IsValid = elim (Bool-cases (ltb il.point il.length)) [
    | inl inside ↦
        rw inside (rebuild (shrink-Refines loc _ (delete_cell-IsValid il v (ground arith))).valid)
    | inr outside ↦ rw outside v
  ]

  -- On a valid line `il_delete_char` makes the line show what is left without the character behind
  -- the point, and the same as before where there is none.
  pub view-il_delete_char : view (il_delete_char loc il) ≡ line_delete (view il)
  unfolding il_delete_char
  view-il_delete_char = elim (Bool-cases (ltb il.point il.length)) [
    | inl inside ↦ rw inside (
        (shrink-Refines loc _ (delete_cell-IsValid il v (ground arith))).shows
        ∙ view-delete_cell il v (ground arith))
    | inr outside ↦ rw outside (sym (delete_nil (right_nil il v (ground arith))))
  ]
    where
      delete_nil : (view il).right ≡ [] → line_delete (view il) ≡ view il
      delete_nil e = unfold line_delete in Line-ext _ _ refl refl (ap tail e ∙ sym e) refl

  -- On a valid line, where there is a character to delete, the move of `il_delete_char` leaves the
  -- buffer exactly when the buffer has less than two cells behind the text; otherwise it does not.
  pub overrun-il_delete_char :
      (il_delete_char loc il).overrun
      ≡ (if ltb il.point il.length then il.overrun || ltb il.size (il.length + 2) else il.overrun)
  unfolding il_delete_char
  overrun-il_delete_char = elim (Bool-cases (ltb il.point il.length)) [
    | inl inside ↦ rw inside (
        (shrink-Refines loc _ (delete_cell-IsValid il v (ground arith))).sound
        ∙ overrun-delete_cell il v (ground arith))
    | inr outside ↦ rw outside refl
  ]

  -- On a valid line `il_backward_delete_char` deletes the character to the left of the point, none
  -- at the end of the prompt; the line stays valid, and no cell outside the buffer is touched.
  pub il_backward_delete_char_lem :
      Refines il (il_backward_delete_char loc il) (line_backward_delete (view il))
  unfolding il_backward_delete_char
  il_backward_delete_char_lem = elim (Bool-cases (ltb il.static_length il.point)) [
    | inl inside ↦
        let ok = backward_delete_cell-IsValid il v (ground arith) in
        let shrunk = shrink-Refines loc _ ok in
        rw inside (record {
          valid = rebuild shrunk.valid;
          shows = shrunk.shows ∙ view-backward_delete_cell il v (ground arith);
          sound = shrunk.sound ∙ overrun-backward_delete_cell il v (ground arith);
        })
    | inr outside ↦ rw outside (record {
      valid = v;
      shows = sym (delete_nil (left_nil il v (ground arith)));
      sound = refl;
    })
  ]
    where
      delete_nil : (view il).left ≡ [] → line_backward_delete (view il) ≡ view il
      delete_nil e = unfold line_backward_delete in Line-ext _ _ refl (ap tail e ∙ sym e) refl refl
