-- ===== src/InputLine/Region.antt =====
-- `il_region_command`: what it stores and what it cuts out.
use gnu_gnuit.Prelude.{
  ℕ, ◌+◌, ◌-◌, ◌≤◌, ◌<◌, ◌≡◌, refl, ap, ◌∙◌, Bool, true, false, some, if◌then◌else◌, arith,
}
use gnu_gnuit.Prelude.Word.{add_size, sub_size}
use gnu_gnuit.Wide.{Locale, wcslen}
use gnu_gnuit.Wide.Slice.{slice, rslice, slice_move, rslice_move, slice_uncons, slice_empty}
use gnu_gnuit.Wide.Strings.{wcslen_lem}
use gnu_gnuit.InputLine.{InputLine, copy_down, move_cells, il_resize_buffer}
use gnu_gnuit.InputLine.Kill.{store_region, cut_region}
use gnu_gnuit.InputLine.Line.{Line, Line-ext, ring_with}
use gnu_gnuit.InputLine.Valid.{IsValid, Refines, view, max_size}
use gnu_gnuit.InputLine.Insertion.{il_resize_buffer-IsValid, view-il_resize_buffer}

-- The line without the cells from `low` to `high`, the point where they were.
abbrev pub without : InputLine → ℕ → ℕ → Line
without il low high = record {
  prompt = slice il.buffer 0 il.static_length;
  left = rslice il.buffer il.static_length (low - il.static_length);
  right = slice il.buffer high (il.length - high);
  ring = il.kill_ring;
}

overrun-resize :
    (loc : Locale) (n : ℕ) (il : InputLine) → (il_resize_buffer loc n il).overrun ≡ il.overrun
unfolding il_resize_buffer
overrun-resize loc n il = refl

module _ (il : InputLine) (v : IsValid il) (low high : ℕ) (inside : il.static_length ≤ low)
    (order : low < high) (within : high ≤ il.length) where
  tail_length : wcslen (il.size - high) high il.buffer ≡ il.length - high
  tail_length =
      wcslen_lem (il.size - high) high il.buffer (il.length - high) (omega arith)
        (ap il.buffer {x = high + (il.length - high)} {y = il.length} (omega arith) ∙ v.ended)
        (λ i h. v.solid (high + i) (omega arith))

  -- The buffer with the region cut out, before it is shrunk.
  cut : InputLine
  cut = record (move_cells low high (il.length - high + 1) il) {
    dynamic_length = il.dynamic_length - (high - low);
    length = il.length - (high - low);
    point = low;
    mark = low;
  }

  cut-IsValid : IsValid cut
  unfolding cut move_cells
  cut-IsValid = record {
    lengths = omega arith;
    low = omega arith;
    high = omega arith;
    room = omega arith;
    small = omega arith;
    ended = ground arith;
    solid = λ i h. ground (arith, v.solid i, v.solid (i - low + high));
  }

  view-cut : view cut ≡ without il low high
  unfolding cut move_cells
  view-cut =
      Line-ext _ _ (slice_move new il.buffer _ _ _ _ refl (λ i h. ground arith))
        (rslice_move new il.buffer _ _ _ _ refl (λ i h. ground arith))
        (slice_move new il.buffer _ _ _ _ (omega arith) (λ i h. ground arith)) refl
    where
      new : ℕ → ℕ
      new = cut.buffer

  overrun-cut : cut.overrun ≡ il.overrun
  unfolding cut move_cells
  overrun-cut = ground arith

  length-cut : cut.length + 1 ≤ max_size
  unfolding cut
  length-cut = omega arith

  cut_region_eq :
      (loc : Locale) → cut_region loc true low high il ≡ il_resize_buffer loc (cut.length + 1) cut
  unfolding cut_region cut copy_down
  cut_region_eq loc =
      let length' : sub_size il.length (high - low) ≡ il.length - (high - low) = omega arith in
      let dynamic' : sub_size il.dynamic_length (high - low) ≡ il.dynamic_length - (high - low) =
        omega arith in
      let size' : add_size (il.length - (high - low)) 1 ≡ il.length - (high - low) + 1 =
        omega arith in
      rw (length', dynamic', size', tail_length)

  -- What is killed goes, the rest closes up, and point and mark stand where it was.
  pub cut_region_lem :
      (loc : Locale) → Refines il (cut_region loc true low high il) (without il low high)
  cut_region_lem loc = rw (cut_region_eq loc) (record {
    valid =
        il_resize_buffer-IsValid loc _ cut cut-IsValid (omega arith) (omega (arith, length-cut));
    shows = view-il_resize_buffer loc _ cut cut-IsValid (omega arith) ∙ view-cut;
    sound = overrun-resize loc _ cut ∙ overrun-cut;
  })

  pub cut_region_fields :
      (loc : Locale)
      → let il' = cut_region loc true low high il in
        (il'.point ≡ low)
        × (il'.mark ≡ low)
        × (il'.length + (high - low) ≡ il.length)
        × (il'.static_length ≡ il.static_length)
  unfolding cut il_resize_buffer move_cells
  cut_region_fields loc = rw (cut_region_eq loc) (refl, refl, omega arith, refl)

-- The line after the region from `low` to `high` has been killed, and stored if the flag says so.
abbrev pub killed : Bool → InputLine → ℕ → ℕ → Line
killed keep il low high = record (without il low high) {
  ring = if keep then ring_with (slice il.buffer low (high - low)) il.kill_ring else il.kill_ring;
}

module _ (loc : Locale) (il : InputLine) (v : IsValid il) (low high : ℕ)
    (inside : il.static_length ≤ low) (within : high ≤ il.length) where
  store_region-IsValid : (keep : Bool) → IsValid (store_region keep low high il)
  unfolding store_region
  store_region-IsValid false = v
  store_region-IsValid true = record {
    lengths = v.lengths;
    low = v.low;
    high = v.high;
    room = v.room;
    small = v.small;
    ended = v.ended;
    solid = v.solid;
  }

  module _ (order : low < high) where
    ring_of_region :
        some (slice il.buffer low (high - low))
        ≡ ring_with (slice il.buffer low (high - low)) il.kill_ring
    unfolding ring_with
    ring_of_region = rw (slice_uncons il.buffer low (high - low) (omega arith))

    -- Storing and cutting a region that is not empty.
    pub store_cut :
        (keep : Bool)
        → Refines il
            (cut_region loc true low high (store_region keep low high il))
            (killed keep il low high)
    unfolding store_region
    store_cut false = cut_region_lem il v low high inside order within loc
    store_cut true =
        let done =
          cut_region_lem (store_region true low high il) (store_region-IsValid true) low high inside
            order within loc in
        record {
          valid = done.valid;
          shows = done.shows ∙ Line-ext _ _ refl refl refl ring_of_region;
          sound = done.sound ∙ ground arith;
        }

    pub store_cut-point :
        (keep : Bool)
        → let il' = cut_region loc true low high (store_region keep low high il) in
          (il'.point ≡ low)
          × (il'.mark ≡ low)
          × (il'.length + (high - low) ≡ il.length)
          × (il'.static_length ≡ il.static_length)
    unfolding store_region
    store_cut-point false = cut_region_fields il v low high inside order within loc
    store_cut-point true =
        cut_region_fields (store_region true low high il) (store_region-IsValid true) low high
          inside order within loc

  -- An empty region leaves the line and the kill ring.
  pub killed_nothing :
      (keep : Bool) → il.point ≡ low → low ≡ high → view il ≡ killed keep il low high
  unfolding ring_with
  killed_nothing keep at none_left =
      Line-ext _ _ refl (ap (λ p. rslice il.buffer il.static_length (p - il.static_length)) at)
        (ap (λ p. slice il.buffer p (il.length - p)) (at ∙ none_left)) (same_ring keep)
    where
      same_ring : (k : Bool) → il.kill_ring ≡ (killed k il low high).ring
      same_ring false = refl
      same_ring true = rw (slice_empty il.buffer low (high - low) (omega arith))
