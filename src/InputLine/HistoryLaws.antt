-- ===== src/InputLine/HistoryLaws.antt =====
-- What `il_history` of src/inputline.c brings into the input line.
use gnu_gnuit.Prelude.{
  ℕ, suc, ◌+◌, ◌-◌, ◌≤◌, ◌<◌, ◌≡◌, ◌≢◌, refl, sym, ap, ap₂, subst, ◌∙◌, true, false, Bool-cases,
  inl, inr, some, List, [], ◌∷◌, ltb, length, get_or, leb, ◌==◌, ◌&&◌, reverse, if◌then◌else◌,
  arith,
}
use gnu_gnuit.Wide.{Locale, store, wmemcpy, realloc}
use gnu_gnuit.Wide.Slice.{slice, rslice, slice_move, slice_empty, reverse-slice}
use gnu_gnuit.InputLine.{InputLine, il_resize_buffer}
use gnu_gnuit.InputLine.Line.{Line-ext}
use gnu_gnuit.InputLine.Valid.{IsValid, Refines, view, max_size}
use gnu_gnuit.InputLine.TextLaws.{Solid}
use gnu_gnuit.InputLine.HistoryKeys.{
  HistoryLibrary, Browsing, il_previous, history_room, put_line, start_browsing, show_previous,
  il_history,
}

slice-get_or :
    (f : ℕ → ℕ) (a : ℕ) (text : List ℕ)
    → ((i : ℕ) → i < length text → f (a + i) ≡ get_or text i 0)
    → slice f a (length text) ≡ text
slice-get_or f a [] h = refl
slice-get_or f a (c ∷ text) h =
    ap₂ (◌∷◌) (ap f {x = a} {y = a + 0} (omega arith) ∙ h 0 (omega arith)) (
      slice-get_or f (a + 1) text
        (λ i p. ap f {x = a + 1 + i} {y = a + suc i} (omega arith) ∙ h (suc i) (omega arith)))

start_browsing_lem :
    {H : Type 0} (loc : Locale) (library : HistoryLibrary H) (st : Browsing H)
    → let st' = start_browsing loc library st in
      (st'.il ≡ st.il)
      × (st'.history ≡ st.history)
      × (st'.browsing ≡ true)
      × (st'.last_history_position
          ≡ (if st.browsing then st.last_history_position else library.where_history st.history))
unfolding start_browsing
start_browsing_lem loc library st = elim (Bool-cases st.browsing) [
  | inl already ↦ simp already (refl, refl, refl, refl)
  | inr first ↦ simp first (refl, refl, refl, refl)
]

module _ (loc : Locale) (line : List ℕ) (solid : Solid line) (il : InputLine) (v : IsValid il)
    (fits : il.static_length + length line < max_size) where
  new : InputLine
  new = put_line loc line il

  wide : new.length ≡ il.static_length + length line
  unfolding new put_line history_room il_resize_buffer
  wide = ground arith

  point_at : new.point ≡ il.static_length + length line
  unfolding new put_line history_room il_resize_buffer
  point_at = ground arith

  room : (new.length < new.size) × (new.size ≤ max_size)
  unfolding new put_line history_room il_resize_buffer
  room = (ground (arith, fits), ground (arith, fits, v.small))

  before : (i : ℕ) → i < il.static_length → new.buffer i ≡ il.buffer i
  unfolding new put_line history_room il_resize_buffer store wmemcpy realloc
  before i h = ground (arith, h, v.lengths, v.room)

  placed : (i : ℕ) → i < length line → new.buffer (il.static_length + i) ≡ get_or line i 0
  unfolding new put_line history_room il_resize_buffer store wmemcpy
  placed i h =
      let inside : (il.static_length + i == il.static_length + length line) ≡ false =
        ground (arith, h) in
      let text : (leb il.static_length (il.static_length + i)
            && ltb (il.static_length + i) (il.static_length + length line))
          ≡ true =
        ground (arith, h) in
      rw (inside, text)
        (ap (λ k. get_or line k 0) {x = il.static_length + i - il.static_length} {y = i}
          (omega arith))

  ended : new.buffer (il.static_length + length line) ≡ 0
  unfolding new put_line history_room il_resize_buffer store
  ended = ground arith

  solid_at : (i : ℕ) → i < new.length → new.buffer i ≢ 0
  solid_at i h e = elim (Bool-cases (ltb i il.static_length)) [
    | inl prompt ↦
        let low : i < il.static_length = ground (arith, prompt) in
        v.solid i (omega (arith, low, v.lengths)) (sym (before i low) ∙ e)
    | inr text ↦
        let high : il.static_length ≤ i = ground (arith, text) in
        let less : i - il.static_length < length line = omega (arith, h, high, wide) in
        solid (i - il.static_length) less (
          sym (placed (i - il.static_length) less)
          ∙ ap new.buffer {x = il.static_length + (i - il.static_length)} {y = i}
              (omega (arith, high))
          ∙ e)
  ]

  static_at : new.static_length ≡ il.static_length
  unfolding new put_line history_room il_resize_buffer
  static_at = ground arith

  dynamic_at : new.dynamic_length ≡ length line
  unfolding new put_line history_room il_resize_buffer
  dynamic_at = ground arith

  ring_at : new.kill_ring ≡ il.kill_ring
  unfolding new put_line history_room il_resize_buffer
  ring_at = ground arith

  overrun_at : new.overrun ≡ il.overrun
  unfolding new put_line history_room il_resize_buffer
  overrun_at = ground (arith, fits)

  put_line-IsValid : IsValid new
  put_line-IsValid = record {
    lengths = omega (arith, wide, static_at, dynamic_at);
    low = omega (arith, static_at, point_at);
    high = omega (arith, wide, point_at);
    room = room.0;
    small = room.1;
    ended = ap new.buffer wide ∙ ended;
    solid = solid_at;
  }

  put_line-Refines : Refines il new (record (view il) { left = reverse line; right = [] })
  put_line-Refines = record {
    valid = put_line-IsValid;
    shows =
        Line-ext _ _
          (slice_move new.buffer il.buffer 0 0 new.static_length il.static_length static_at
            (λ i h. before (0 + i) (omega (arith, h, static_at))))
          (ap₂ (rslice new.buffer) static_at (omega (arith, point_at, static_at))
            ∙ sym (reverse-slice new.buffer il.static_length (length line))
            ∙ ap reverse (slice-get_or new.buffer il.static_length line placed))
          (slice_empty new.buffer new.point (new.length - new.point)
            (omega (arith, wide, point_at)))
          ring_at;
    sound = overrun_at;
  }

  -- The up key on a valid input line, where the history has a line before, without NUL and short enough
  -- for the buffer: the input line is valid and shows the prompt as it was and the history's line, with
  -- the point at its end and no cell outside the buffer touched; the library has moved to that line,
  -- and the position to go back to is the one from before the first such key.
  pub il_history_lem :
      {H : Type 0} (library : HistoryLibrary H) (h : H) (st : Browsing H)
      → st.il ≡ il
      → library.previous_history st.history ≡ (some line, h)
      → let st' = il_history loc library il_previous st in
        Refines il st'.il (record (view il) { left = reverse line; right = [] })
        × (st'.history ≡ h)
        × (st'.browsing ≡ true)
        × (st'.last_history_position
            ≡ (if st.browsing then st.last_history_position else library.where_history st.history))
  unfolding il_history start_browsing show_previous new
  il_history_lem library h st e found =
      let started = start_browsing loc library st in
      let (same, kept, begun, position) = start_browsing_lem loc library st in
      let found' = ap library.previous_history kept ∙ found in
      subst
        (λ st'.
          Refines il st'.il (record (view il) { left = reverse line; right = [] })
          × (st'.history ≡ h)
          × (st'.browsing ≡ true)
          × (st'.last_history_position ≡ (
              if st.browsing then st.last_history_position else library.where_history st.history)))
        (sym (ap (λ r. show_previous loc library r started) found'))
        (
          subst
              (λ il'.
                Refines il (put_line loc line il')
                  (record (view il) { left = reverse line; right = [] }))
              (sym (same ∙ e)) put_line-Refines,
          refl,
          begun,
          position,
        )
