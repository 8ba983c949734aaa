-- ===== src/Panel/Moves.antt =====
-- The moves of the cursor keep it in the list and on the screen, and take it where they say.
use gnu_gnuit.Prelude.{
  ℕ, zero, suc, ◌+◌, ◌-◌, ◌≤◌, ◌<◌, ◌≡◌, refl, some, min, ltb, ◌==◌, arith, Bool-cases, inl, inr,
}
use gnu_gnuit.Panel.{Panel}
use gnu_gnuit.Panel.Valid.{IsValid}
use gnu_gnuit.Panel.Cursor.{
  panel_get_fos, panel_set_current_entry, panel_resize, up_step, act_up, down_step, act_down,
  act_pgup, act_pgdown, act_home, act_end,
}

up_step-IsValid : (this : Panel) → IsValid this → 0 < this.current_entry → IsValid (up_step this)
unfolding up_step
up_step-IsValid this v h = ground arith

down_step-IsValid :
    (this : Panel) → IsValid this → this.current_entry + 1 < this.entries → IsValid (down_step this)
unfolding down_step
down_step-IsValid this v h = ground arith

-- `panel_set_current_entry` on an entry of a valid panel's list succeeds, keeps the panel valid, and
-- makes the entry the current one.
pub panel_set_current_entry_lem :
    (this : Panel) (entry : ℕ)
    → IsValid this
    → entry < this.entries
    → (that : Panel) × (panel_set_current_entry this entry ≡ some that)
      × IsValid that
      × (that.current_entry ≡ entry)
unfolding panel_set_current_entry
panel_set_current_entry_lem this entry v h =
    let moved : Panel = record this { current_entry = entry } in
    (record moved { first_on_screen = panel_get_fos moved }, ground arith, ground arith, refl)

up_step-current :
    (this : Panel)
    → ((up_step this).current_entry ≡ this.current_entry - 1)
      × ((up_step this).entries ≡ this.entries)
unfolding up_step
up_step-current this = ground arith

down_step-current :
    (this : Panel)
    → ((down_step this).current_entry ≡ this.current_entry + 1)
      × ((down_step this).entries ≡ this.entries)
unfolding down_step
down_step-current this = ground arith

-- act_UP keeps a valid panel valid, and goes up by the repeat count, at most to the first entry.
pub act_up_lem :
    (n : ℕ) (this : Panel)
    → IsValid this
    → IsValid (act_up n this) × ((act_up n this).current_entry ≡ this.current_entry - n)
unfolding act_up
act_up_lem zero this v = (v, omega arith)
act_up_lem (suc n) this v = elim (Bool-cases (this.current_entry == 0)) [
  | inl top ↦ rw (top, act_up) (v, ground arith)
  | inr lower ↦
      let (valid, at) = act_up_lem n (up_step this) (up_step-IsValid this v (ground arith)) in
      rw (lower, act_up) (valid, omega (arith, at, up_step-current this))
]

-- act_DOWN keeps a valid panel valid, and goes down by the repeat count, at most to the last entry.
pub act_down_lem :
    (n : ℕ) (this : Panel)
    → IsValid this
    → IsValid (act_down n this)
      × ((act_down n this).current_entry ≡ min (this.current_entry + n) (this.entries - 1))
unfolding act_down
act_down_lem zero this v = (v, omega (arith, v.inside))
act_down_lem (suc n) this v = elim (Bool-cases (ltb (this.current_entry + 1) this.entries)) [
  | inl more ↦
      let h : this.current_entry + 1 < this.entries = ground arith in
      let (valid, at) = act_down_lem n (down_step this) (down_step-IsValid this v h) in
      rw (more, act_down) (valid, omega (arith, at, down_step-current this, h))
  | inr last ↦ rw (last, act_down) (v, ground arith)
]

-- The moves that have no repeat count.
module _ (this : Panel) (v : IsValid this) where
  -- act_PGUP on a valid panel succeeds, keeps it valid, and goes up by the lines of the panel less
  -- two, at most to the first entry.
  pub act_pgup_lem :
      (that : Panel) × (act_pgup this ≡ some that)
      × IsValid that
      × (that.current_entry ≡ this.current_entry - (this.plines - 2))
  unfolding act_pgup
  act_pgup_lem = elim (Bool-cases (this.current_entry == 0)) [
    | inl top ↦ rw top (this, refl, v, ground arith)
    | inr lower ↦ elim (Bool-cases (ltb (this.current_entry + 2) this.plines)) [
      | inl first_page ↦
          let (that, e, ok, at) = panel_set_current_entry_lem this 0 v (omega (arith, v.inside)) in
          rw (lower, first_page) (that, e, ok, ground arith)
      | inr later ↦
          let (that, e, ok, at) =
            panel_set_current_entry_lem this (this.current_entry + 2 - this.plines) v
              (omega (arith, v.inside, v.rows)) in
          rw (lower, later) (that, e, ok, ground arith)
    ]
  ]

  -- act_PGDOWN on a valid panel succeeds, keeps it valid, and goes down by the lines of the panel
  -- less two, at most to the last entry.
  pub act_pgdown_lem :
      (that : Panel) × (act_pgdown this ≡ some that)
      × IsValid that
      × (that.current_entry ≡ min (this.current_entry + (this.plines - 2)) (this.entries - 1))
  unfolding act_pgdown
  act_pgdown_lem = elim (Bool-cases (this.current_entry + 1 == this.entries)) [
    | inl bottom ↦ rw bottom (this, refl, v, ground arith)
    | inr higher ↦ elim (Bool-cases (ltb (this.entries + 1) (this.plines + this.first_on_screen))) [
      | inl last_page ↦
          let (that, e, ok, at) =
            panel_set_current_entry_lem this (this.entries - 1) v (omega (arith, v.inside)) in
          rw (higher, last_page) (that, e, ok, ground arith)
      | inr earlier ↦
          elim (Bool-cases (ltb (this.entries + 1) (this.plines + this.current_entry))) [
            | inl near ↦
                let (that, e, ok, at) =
                  panel_set_current_entry_lem this (this.entries - 1) v (omega (arith, v.inside)) in
                rw (higher, earlier, near) (that, e, ok, ground arith)
            | inr far ↦
                let h : this.current_entry + this.plines - 2 < this.entries = ground arith in
                let (that, e, ok, at) =
                  panel_set_current_entry_lem this (this.current_entry + this.plines - 2) v h in
                rw (higher, earlier, far) (that, e, ok, ground arith)
          ]
    ]
  ]

  -- To the first entry.
  pub act_home_lem :
      (that : Panel) × (act_home this ≡ some that) × IsValid that × (that.current_entry ≡ 0)
  unfolding act_home
  act_home_lem = elim (Bool-cases (this.current_entry == 0)) [
    | inl top ↦ rw top (this, refl, v, ground arith)
    | inr lower ↦ rw lower (panel_set_current_entry_lem this 0 v (omega (arith, v.inside)))
  ]

  -- To the last entry.
  pub act_end_lem :
      (that : Panel) × (act_end this ≡ some that)
      × IsValid that
      × (that.current_entry + 1 ≡ this.entries)
  unfolding act_end
  act_end_lem = elim (Bool-cases (this.current_entry + 1 == this.entries)) [
    | inl bottom ↦ rw bottom (this, refl, v, ground arith)
    | inr higher ↦
        let (that, e, ok, at) =
          panel_set_current_entry_lem this (this.entries - 1) v (omega (arith, v.inside)) in
        rw higher (that, e, ok, omega (arith, at, v.inside))
  ]

  -- A new size of at least three lines.
  pub panel_resize-IsValid :
      (startup lines : ℕ) → 3 ≤ lines → IsValid (panel_resize startup lines this)
  unfolding panel_resize
  panel_resize-IsValid startup lines h = ground arith
