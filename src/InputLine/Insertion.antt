-- ===== src/InputLine/Insertion.antt =====
-- `il_insert_char`: what it keeps and what it does to the line.
use gnu_gnuit.Prelude.{
  ℕ, ◌+◌, ◌-◌, ◌≤◌, ◌<◌, ◌≡◌, ◌≢◌, refl, sym, ap, ◌∙◌, true, ◌∷◌, arith, Bool-cases, leb, inl, inr,
}
use gnu_gnuit.Prelude.Word.{add_size}
use gnu_gnuit.Wide.{Locale, LocaleLaws, realloc}
use gnu_gnuit.Wide.Slice.{slice_move, rslice_move, rslice_cons}
use gnu_gnuit.InputLine.{InputLine, il_resize_buffer}
use gnu_gnuit.InputLine.Edit.{make_room, insert_cell, il_insert_char}
use gnu_gnuit.InputLine.Valid.{IsValid, Refines, view, max_size}
use gnu_gnuit.InputLine.Line.{Line, Line-ext, line_insert}

module _ (loc : Locale) (n : ℕ) (il : InputLine) (v : IsValid il) (low : il.length < n) where
  realloc_kept : (i : ℕ) → i ≤ il.length → realloc loc.fresh il.size n il.buffer i ≡ il.buffer i
  unfolding realloc
  realloc_kept i h = let k : il.length < il.size = v.room in ground arith

  pub il_resize_buffer-IsValid : n ≤ max_size → IsValid (il_resize_buffer loc n il)
  unfolding il_resize_buffer
  il_resize_buffer-IsValid small = record {
    lengths = v.lengths;
    low = v.low;
    high = v.high;
    room = low;
    small = small;
    ended = realloc_kept il.length (omega arith) ∙ v.ended;
    solid = λ i h e. v.solid i h (sym (realloc_kept i (omega arith)) ∙ e);
  }

  pub view-il_resize_buffer : view (il_resize_buffer loc n il) ≡ view il
  unfolding il_resize_buffer
  view-il_resize_buffer =
      Line-ext _ _
        (slice_move new old 0 0 il.static_length il.static_length refl
          (λ i h. kept (0 + i) (omega arith)))
        (rslice_move new old _ _ _ _ refl (λ i h. kept (il.static_length + i) (omega arith)))
        (slice_move new old _ _ _ _ refl (λ i h. kept (il.point + i) (omega arith))) refl
    where
      new : ℕ → ℕ
      new = realloc loc.fresh il.size n il.buffer

      old : ℕ → ℕ
      old = il.buffer

      kept : (i : ℕ) → i ≤ il.length → new i ≡ old i
      kept = realloc_kept

abbrev line_insert_solid : ℕ → Line → Line
line_insert_solid c l = record l { left = c ∷ l.left }

module _ (c : ℕ) (solid : c ≢ 0) (il : InputLine) (v : IsValid il)
    (fits : il.length + 1 < il.size) where
  insert_cell-IsValid : IsValid (insert_cell c il)
  unfolding insert_cell
  insert_cell-IsValid = record {
    lengths = ground arith;
    low = ground arith;
    high = ground arith;
    room = ground arith;
    small = ground arith;
    ended = ground arith;
    solid = λ i h. ground (arith, v.solid i, v.solid (i - 1));
  }

  view-insert_cell : view (insert_cell c il) ≡ line_insert_solid c (view il)
  unfolding insert_cell
  view-insert_cell =
      Line-ext _ _ (slice_move new il.buffer _ _ _ _ refl (λ i h. ground arith))
        (rslice_cons new il.buffer _ _ _ _ c (omega arith) (ground arith) (λ i h. ground arith))
        (slice_move new il.buffer _ _ _ _ (omega arith) (λ i h. ground arith)) refl
    where
      new : ℕ → ℕ
      new = (insert_cell c il).buffer

  overrun-insert_cell : (insert_cell c il).overrun ≡ il.overrun
  unfolding insert_cell
  overrun-insert_cell = ground arith

-- IL_RESIZE keeps the flag.
module _ (loc : Locale) (il : InputLine) (v : IsValid il) (fits : il.length + 33 ≤ max_size) where
  make_room-IsValid : IsValid (make_room loc il)
  unfolding make_room
  make_room-IsValid = elim (Bool-cases (leb il.size (add_size il.length 1))) [
    | inl full ↦ rw full (il_resize_buffer-IsValid loc _ il v (omega arith) (omega arith))
    | inr wide ↦ rw wide v
  ]

  view-make_room : view (make_room loc il) ≡ view il
  unfolding make_room
  view-make_room = elim (Bool-cases (leb il.size (add_size il.length 1))) [
    | inl full ↦ rw full (view-il_resize_buffer loc _ il v (omega arith))
    | inr wide ↦ rw wide refl
  ]

  make_room-wide : (make_room loc il).length + 1 < (make_room loc il).size
  unfolding make_room
  make_room-wide = ground arith

  overrun-make_room : (make_room loc il).overrun ≡ il.overrun
  unfolding make_room
  overrun-make_room = ground arith

module _ (loc : Locale) (laws : LocaleLaws loc) (c : ℕ) (il : InputLine) (v : IsValid il)
    (fits : il.length + 33 ≤ max_size) where
  solid_of_printable : loc.iswprint c ≡ true → c ≢ 0
  solid_of_printable p e = cc (laws.nul_unprintable, ap loc.iswprint e)

  -- `il_insert_char` on a valid line with memory to grow in: an unprintable character changes
  -- nothing, a printable one comes in at the left of the point; the line stays valid, and no cell
  -- outside the buffer is touched.
  pub il_insert_char_lem : Refines il (il_insert_char loc c il) (line_insert loc c (view il))
  unfolding il_insert_char line_insert
  il_insert_char_lem = elim (Bool-cases (loc.iswprint c)) [
    | inl printable ↦ rw printable (
        let solid = solid_of_printable printable in
        record {
          valid = insert_cell-IsValid c solid room ok wide;
          shows =
              view-insert_cell c solid room ok wide
              ∙ ap (line_insert_solid c) (view-make_room loc il v fits);
          sound = overrun-insert_cell c solid room ok wide ∙ overrun-make_room loc il v fits;
        })
    | inr other ↦ rw other (record { valid = v; shows = refl; sound = refl })
  ]
    where
      room : InputLine
      room = make_room loc il

      ok : IsValid room
      ok = make_room-IsValid loc il v fits

      wide : room.length + 1 < room.size
      wide = make_room-wide loc il v fits
