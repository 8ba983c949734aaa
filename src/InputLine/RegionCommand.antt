-- ===== src/InputLine/RegionCommand.antt =====
-- `il_region_command` with IL_KILL, on the line.
use gnu_gnuit.Prelude.{
  ◌+◌, ◌-◌, ◌≤◌, ◌≡◌, refl, Bool, true, false, ltb, ◌==◌, arith, Bool-cases, inl, inr,
}
use gnu_gnuit.Wide.{Locale}
use gnu_gnuit.InputLine.{InputLine}
use gnu_gnuit.InputLine.Kill.{il_region_command}
use gnu_gnuit.InputLine.Valid.{IsValid, Refines}
use gnu_gnuit.InputLine.Region.{killed, store_cut, store_cut-point, killed_nothing}

module _ (loc : Locale) (keep : Bool) (il : InputLine) (v : IsValid il) where
  -- The mark in front of the point.
  pub region_before :
      il.static_length ≤ il.mark
      → il.mark ≤ il.point
      → Refines il (il_region_command loc keep true il) (killed keep il il.mark il.point)
  unfolding il_region_command
  region_before inside order = elim (Bool-cases (il.mark == il.point)) [
    | inl empty ↦ rw empty (record {
      valid = v;
      shows =
          killed_nothing loc il v il.mark il.point inside v.high keep (ground arith) (ground arith);
      sound = refl;
    })
    | inr some_text ↦
        let forward : ltb il.point il.mark ≡ false = ground arith in
        rw (some_text, forward)
          (store_cut loc il v il.mark il.point inside v.high (ground arith) keep)
  ]

  -- The mark behind the point.
  pub region_behind :
      il.point ≤ il.mark
      → il.mark ≤ il.length
      → Refines il (il_region_command loc keep true il) (killed keep il il.point il.mark)
  unfolding il_region_command
  region_behind order within = elim (Bool-cases (il.mark == il.point)) [
    | inl empty ↦ rw empty (record {
      valid = v;
      shows = killed_nothing loc il v il.point il.mark v.low within keep refl (ground arith);
      sound = refl;
    })
    | inr some_text ↦
        let backward : ltb il.point il.mark ≡ true = ground arith in
        rw (some_text, backward)
          (store_cut loc il v il.point il.mark v.low within (ground arith) keep)
  ]

  -- Where point and mark end up, and how long the line is then.
  pub region_fields_before :
      il.static_length ≤ il.mark
      → il.mark ≤ il.point
      → let il' = il_region_command loc keep true il in
        (il'.point ≡ il.mark)
        × (il'.mark ≡ il.mark)
        × (il'.length + (il.point - il.mark) ≡ il.length)
        × (il'.static_length ≡ il.static_length)
  unfolding il_region_command
  region_fields_before inside order = elim (Bool-cases (il.mark == il.point)) [
    | inl empty ↦ rw empty (ground arith, ground arith, ground arith, refl)
    | inr some_text ↦
        let forward : ltb il.point il.mark ≡ false = ground arith in
        rw (some_text, forward)
          (store_cut-point loc il v il.mark il.point inside v.high (ground arith) keep)
  ]

  pub region_fields_behind :
      il.point ≤ il.mark
      → il.mark ≤ il.length
      → let il' = il_region_command loc keep true il in
        (il'.point ≡ il.point)
        × (il'.mark ≡ il.point)
        × (il'.length + (il.mark - il.point) ≡ il.length)
        × (il'.static_length ≡ il.static_length)
  unfolding il_region_command
  region_fields_behind order within = elim (Bool-cases (il.mark == il.point)) [
    | inl empty ↦ rw empty (refl, ground arith, ground arith, refl)
    | inr some_text ↦
        let backward : ltb il.point il.mark ≡ true = ground arith in
        rw (some_text, backward)
          (store_cut-point loc il v il.point il.mark v.low within (ground arith) keep)
  ]
