-- ===== src/InputLine/Marks.antt =====
-- The mark: the region commands where it lies in the dynamic part, and the functions that leave it
-- elsewhere.
use gnu_gnuit.Prelude.{
  ℕ, ◌+◌, ◌-◌, ◌≤◌, ◌<◌, ◌≡◌, true, false, min, max, leb, ltb, ◌==◌, arith, Bool-cases, inl, inr,
}
use gnu_gnuit.Wide.{Locale}
use gnu_gnuit.InputLine.{InputLine}
use gnu_gnuit.InputLine.Move.{il_set_mark, il_beginning_of_line}
use gnu_gnuit.InputLine.Edit.{il_delete_char}
use gnu_gnuit.InputLine.Kill.{
  il_region_command, il_kill_region, il_kill_to_beginning_of_line, keep_mark,
}
use gnu_gnuit.InputLine.Valid.{IsValid, MarkFits, Refines, rebuild, max_size}
use gnu_gnuit.InputLine.Region.{killed}
use gnu_gnuit.InputLine.RegionCommand.{
  region_before, region_behind, region_fields_before, region_fields_behind,
}

module _ (loc : Locale) (il : InputLine) (v : IsValid il) (m : MarkFits il) where
  -- On a valid line with the mark in the text behind the prompt, `il_kill_region` cuts what stands
  -- between mark and point to the kill ring; the line stays valid, and no cell outside the buffer is
  -- touched.
  pub il_kill_region_lem :
      Refines il
        (il_kill_region loc il)
        (killed true il (min il.mark il.point) (max il.mark il.point))
  unfolding il_kill_region
  il_kill_region_lem = elim (Bool-cases (leb il.mark il.point)) [
    | inl before ↦
        let low : min il.mark il.point ≡ il.mark = ground arith in
        let high : max il.mark il.point ≡ il.point = ground arith in
        let done = region_before loc true il v m.mark_low (ground arith) in
        rw (low, high)
          (record { valid = rebuild done.valid; shows = done.shows; sound = done.sound })
    | inr behind ↦
        let low : min il.mark il.point ≡ il.point = ground arith in
        let high : max il.mark il.point ≡ il.mark = ground arith in
        let done = region_behind loc true il v (ground arith) m.mark_high in
        rw (low, high)
          (record { valid = rebuild done.valid; shows = done.shows; sound = done.sound })
  ]

  -- Point and mark then stand where the region was, and the line is shorter by its length.
  pub il_kill_region_fields :
      let il' = il_kill_region loc il in
      (il'.point ≡ min il.mark il.point)
      × (il'.mark ≡ min il.mark il.point)
      × (il'.length + max il.mark il.point ≡ il.length + min il.mark il.point)
      × (il'.static_length ≡ il.static_length)
  unfolding il_kill_region
  il_kill_region_fields = elim (Bool-cases (leb il.mark il.point)) [
    | inl before ↦
        let h : il.mark ≤ il.point = ground arith in
        omega (arith, region_fields_before loc true il v m.mark_low h)
    | inr behind ↦
        let h : il.point ≤ il.mark = ground arith in
        omega (arith, region_fields_behind loc true il v h m.mark_high)
  ]

  pub il_kill_region-MarkFits : MarkFits (il_kill_region loc il)
  il_kill_region-MarkFits = omega (arith, il_kill_region_fields)

-- The mark that the commands on words leave: it stays with its text, and comes to the point where
-- its text is killed.
pub keep_mark_lem :
    (mark low high : ℕ)
    → low ≤ high
    → mark ≤ max_size
    → high ≤ max_size
    → (mark ≤ low → keep_mark mark high low ≡ mark)
      × (low ≤ mark → mark ≤ high → keep_mark mark high low ≡ low)
      × (high ≤ mark → keep_mark mark high low + (high - low) ≡ mark)
unfolding keep_mark
keep_mark_lem mark low high h a b = (λ p. ground arith, λ p q. ground arith, λ p. ground arith)

module _ (loc : Locale) (il : InputLine) (v : IsValid il) where
  -- On a valid line with the mark at its end and a character behind the point, `il_delete_char`
  -- leaves the mark behind the end of the line.
  pub il_delete_char-mark :
      il.mark ≡ il.length
      → il.point < il.length
      → (il_delete_char loc il).length < (il_delete_char loc il).mark
  unfolding il_delete_char
  il_delete_char-mark at inside = ground arith

  cut_too_much :
      il.length < il.mark
      → il.mark ≤ max_size
      → il.point + il.dynamic_length < il.mark
      → max_size < (il_kill_region loc il).dynamic_length
  unfolding il_kill_region il_region_command
  cut_too_much past small much =
      let other : (il.mark == il.point) ≡ false = ground arith in
      let behind : ltb il.point il.mark ≡ true = ground arith in rw (other, behind) (omega arith)

  -- On a valid line, a mark behind the end and further from the point than there is text behind the
  -- prompt makes `il_kill_region` leave a line that is not valid.
  pub il_kill_region-breaks :
      il.length < il.mark
      → il.mark ≤ max_size
      → il.point + il.dynamic_length < il.mark
      → ¬ (IsValid (il_kill_region loc il))
  il_kill_region-breaks past small much v' =
      absurd (omega (arith, cut_too_much past small much, v'.lengths, v'.room, v'.small))

  -- On a valid line with the mark behind the point by less than the prompt's length,
  -- `il_kill_to_beginning_of_line` leaves the mark in the prompt.
  pub il_kill_to_beginning_of_line-mark :
      il.point < il.mark
      → il.mark ≤ il.length
      → il.mark < il.point + il.static_length
      → (il_kill_to_beginning_of_line loc il).mark
        < (il_kill_to_beginning_of_line loc il).static_length
  unfolding il_kill_to_beginning_of_line il_beginning_of_line il_set_mark
  il_kill_to_beginning_of_line-mark behind fits near =
      let later : leb il.mark il.point ≡ false = ground arith in
      let fields =
        region_fields_behind loc true ready ok (omega (arith, v.low)) (omega (arith, v.high)) in
      rw later (omega (arith, fields, near, behind, fits))
    where
      ready : InputLine
      ready = il_beginning_of_line (il_set_mark il)

      ok : IsValid ready
      ok = record {
        lengths = v.lengths;
        low = omega arith;
        high = omega arith;
        room = v.room;
        small = v.small;
        ended = v.ended;
        solid = v.solid;
      }
