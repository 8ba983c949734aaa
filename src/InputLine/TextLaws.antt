-- ===== src/InputLine/TextLaws.antt =====
-- `il_insert_text`, `il_yank` and `il_set_static_text`, on the line.
use gnu_gnuit.Prelude.{
  ℕ, zero, suc, ◌+◌, ◌-◌, ◌≤◌, ◌<◌, ◌≡◌, ◌≢◌, refl, sym, ap, ◌∙◌, ltb, some, List, [], ◌∷◌, ◌++◌,
  reverse, map, length, get_or, length-map, ap₂, arith, Bool-cases, inl, inr,
}
use gnu_gnuit.Prelude.Word.{add_size}
use gnu_gnuit.Wide.{Locale, c_str, wmemcpy}
use gnu_gnuit.Wide.Slice.{slice, rslice, slice_move, rslice_move, reverse-slice, rslice-add}
use gnu_gnuit.Misc.Text.{toprintable}
use gnu_gnuit.InputLine.{InputLine}
use gnu_gnuit.InputLine.Edit.{text_room, place_text, il_insert_text}
use gnu_gnuit.InputLine.Line.{Line, Line-ext, shown, line_insert_text}
use gnu_gnuit.InputLine.Valid.{IsValid, Refines, view, max_size}
use gnu_gnuit.InputLine.Insertion.{il_resize_buffer-IsValid, view-il_resize_buffer}

get_or-map :
    (g : ℕ → ℕ) (text : List ℕ) (i : ℕ)
    → i < length text
    → get_or (map g text) i 0 ≡ g (get_or text i 0)
get_or-map g [] i h = absurd (omega arith)
get_or-map g (c ∷ text) zero h = refl
get_or-map g (c ∷ text) (suc i) h = get_or-map g text i (omega arith)

slice_of_list :
    (f : ℕ → ℕ) (at : ℕ) (xs : List ℕ)
    → ((i : ℕ) → i < length xs → f (at + i) ≡ get_or xs i 0)
    → slice f at (length xs) ≡ xs
slice_of_list f at [] h = refl
slice_of_list f at (x ∷ xs) h =
    ap₂ ◌∷◌ (ap f {x = at} {y = at + 0} (omega arith) ∙ h 0 (omega arith)) (
      slice_of_list f (at + 1) xs
        (λ i p. ap f {x = at + 1 + i} {y = at + suc i} (omega arith) ∙ h (suc i) (omega arith)))

-- What a copied text looks like in the block.
pub slice-wmemcpy :
    (loc : Locale) (text : List ℕ) (cells : ℕ → ℕ) (at : ℕ)
    → slice (toprintable loc at (length text) (wmemcpy at text cells)) at (length text)
      ≡ map (shown loc) text
unfolding toprintable wmemcpy shown
slice-wmemcpy loc text cells at =
    ap (slice new at) (sym (length-map text (shown loc)))
    ∙ slice_of_list new at (map (shown loc) text)
        (λ i h. cell i (omega (arith, length-map text (shown loc))))
  where
    new : ℕ → ℕ
    new = toprintable loc at (length text) (wmemcpy at text cells)

    cell : (i : ℕ) → i < length text → new (at + i) ≡ get_or (map (shown loc) text) i 0
    cell i h =
        let same : at + i - at ≡ i = omega arith in
        ground (arith, get_or-map (shown loc) text i h, same)

-- No character of the text is NUL.
abbrev pub Solid : List ℕ → Type 0
Solid text = (i : ℕ) → i < length text → get_or text i 0 ≢ 0

pub c_str-Solid : (string : List ℕ) → Solid (c_str string)
unfolding c_str
c_str-Solid [] i h = absurd (omega arith)
c_str-Solid (c ∷ string) zero h = ground arith
c_str-Solid (c ∷ string) (suc i) h = ground (arith, c_str-Solid string i)

abbrev with_left : List ℕ → Line → Line
with_left text l = record l { left = text ++ l.left }

module _ (loc : Locale) (text : List ℕ) (solid : Solid text) (il : InputLine) (v : IsValid il)
    (fits : il.length + length text < il.size) where
  place_text-IsValid : IsValid (place_text loc text il)
  unfolding place_text
  place_text-IsValid = record {
    lengths = omega arith;
    low = omega arith;
    high = omega arith;
    room = omega arith;
    small = omega arith;
    ended = ground arith;
    solid = λ i h. ground (arith, v.solid i, v.solid (i - length text), solid (i - il.point));
  }

  view-place_text :
      view (place_text loc text il) ≡ with_left (reverse (map (shown loc) text)) (view il)
  unfolding place_text
  view-place_text =
      Line-ext _ _ (slice_move new il.buffer _ _ _ _ refl (λ i h. ground arith)) grown
        (slice_move new il.buffer _ _ _ _ (omega arith) (λ i h. ground arith)) refl
    where
      new : ℕ → ℕ
      new = (place_text loc text il).buffer

      placed :
          rslice new (il.static_length + (il.point - il.static_length)) (length text)
          ≡ reverse (map (shown loc) text)
      placed =
          ap (λ a. rslice new a (length text)) (omega arith)
          ∙ sym (reverse-slice new il.point (length text))
          ∙ ap reverse (slice-wmemcpy loc text _ il.point)

      before : rslice new il.static_length (il.point - il.static_length) ≡ (view il).left
      before = rslice_move new il.buffer _ _ _ _ refl (λ i h. ground arith)

      grown :
          (view (place_text loc text il)).left ≡ reverse (map (shown loc) text) ++ (view il).left
      grown =
          rslice-add new il.static_length (il.point - il.static_length) (length text) _
            (omega arith)
          ∙ ap₂ ◌++◌ placed before

  overrun-place_text : (place_text loc text il).overrun ≡ il.overrun
  unfolding place_text
  overrun-place_text = ground arith

module _ (loc : Locale) (len : ℕ) (il : InputLine) (v : IsValid il)
    (fits : il.size + len + 33 ≤ max_size) where
  text_room_lem : Refines il (text_room loc len il) (view il)
  unfolding text_room
  text_room_lem = elim (Bool-cases (ltb il.size (add_size (add_size il.length len) 1))) [
    | inl full ↦ rw full (record {
      valid = il_resize_buffer-IsValid loc _ il v (omega arith) (omega arith);
      shows = view-il_resize_buffer loc _ il v (omega arith);
      sound = refl;
    })
    | inr wide ↦ rw wide (record { valid = v; shows = refl; sound = refl })
  ]

  text_room-wide : (text_room loc len il).length + len < (text_room loc len il).size
  unfolding text_room
  text_room-wide = ground arith

module _ (loc : Locale) (il : InputLine) (v : IsValid il) (string : List ℕ)
    (fits : il.size + length (c_str string) + 33 ≤ max_size) where
  -- On a valid line with memory to grow in, the string up to its NUL comes in at the left of the
  -- point, its unprintable characters shown as question marks; the line stays valid, and no cell
  -- outside the buffer is touched.
  pub il_insert_text_lem :
      Refines il (il_insert_text loc (some string) il) (line_insert_text loc string (view il))
  unfolding il_insert_text line_insert_text
  il_insert_text_lem =
      let room = text_room_lem loc (length (c_str string)) il v fits in
      let wide = text_room-wide loc (length (c_str string)) il v fits in
      record {
        valid = place_text-IsValid loc (c_str string) (c_str-Solid string) _ room.valid wide;
        shows =
            view-place_text loc (c_str string) (c_str-Solid string) _ room.valid wide
            ∙ ap (with_left (reverse (map (shown loc) (c_str string)))) room.shows;
        sound =
            overrun-place_text loc (c_str string) (c_str-Solid string) _ room.valid wide
            ∙ room.sound;
      }
