-- ===== src/Panel/Isearch/Landing.antt =====
-- Where IL_ISEARCH_ACTION_INCREASE leaves the cursor.
use gnu_gnuit.Prelude.{ℕ, ◌+◌, ◌-◌, ◌≡◌, refl, Bool, false, Option, none, some, List, length, arith}
use gnu_gnuit.Panel.{Panel}
use gnu_gnuit.Panel.Valid.{IsValid}
use gnu_gnuit.Panel.Moves.{act_up_lem, act_down_lem}
use gnu_gnuit.Panel.Isearch.{
  IsearchEntry, Isearch, Action, Direction, failed, increase, backward, forward, stack_push, search,
  go_to, isearch_found, act_isearch,
}
use gnu_gnuit.Panel.Isearch.Nearest.{
  Last, First, panel_isearch_backward_lem, panel_isearch_forward_lem,
}
use gnu_gnuit.Panel.Isearch.Undo.{IsReady}

module _ (matches : List ℕ → List ℕ → Bool) (string : List ℕ) where
  -- The entry is the nearest that matches, the current one included.
  abbrev pub Nearest : Direction → Panel → Option ℕ → Type 0
  Nearest backward panel found =
      Last (matches string) panel.entry_list (panel.current_entry + 1) found
  Nearest forward panel found = First (matches string) panel.entry_list panel.current_entry found

  -- What the step reports and where it leaves the panel.
  abbrev pub Lands : Option ℕ → Panel → Isearch × Action → Type 0
  Lands none panel (that, action) = (action ≡ failed) × (that.panel ≡ panel)
  Lands (some entry) panel (that, action) =
      (action ≡ increase)
      × IsValid that.panel
      × (that.panel.current_entry ≡ entry)
      × (that.isearch_length ≡ length string)

  go_to-Nearest :
      (direction : Direction) (panel : Panel) (entry : ℕ)
      → IsValid panel
      → Nearest direction panel (some entry)
      → IsValid (go_to direction entry panel)
        × ((go_to direction entry panel).current_entry ≡ entry)
  unfolding go_to
  go_to-Nearest backward panel entry v near =
      let (valid, at) = act_up_lem (panel.current_entry - entry) panel v in
      (valid, omega (arith, at, near.0))
  go_to-Nearest forward panel entry v near =
      let (valid, at) = act_down_lem (entry - panel.current_entry) panel v in
      (valid, ground (arith, near.0, near.1, v.counted))

  search-Nearest :
      (direction : Direction) (this : Isearch)
      → Nearest direction this.panel (search matches direction false string this)
  unfolding search
  search-Nearest backward this =
      panel_isearch_backward_lem (matches string) this.panel.entry_list
        (this.panel.current_entry + 1)
  search-Nearest forward this =
      panel_isearch_forward_lem (matches string) this.panel.entry_list this.panel.current_entry

  module _ (fresh : ℕ → IsearchEntry) (direction : Direction) (this : Isearch)
      (r : IsReady this) where
    abbrev pushed : Isearch
    pushed = stack_push fresh this.panel.current_entry (length string) this

    found_lem :
        (found : Option ℕ)
        → Nearest direction this.panel found
        → (outcome : Isearch × Action) × (isearch_found direction increase
              (length string)
              found
              pushed
            ≡ some outcome)
          × Lands found this.panel outcome
    unfolding isearch_found stack_push
    found_lem none near = (_, refl, (refl, refl))
    found_lem (some entry) near =
        let (valid, at) = go_to-Nearest direction this.panel entry r.valid near in
        rw r.direct (_, refl, (refl, valid, at, refl))

    -- From a state in which the search can go on, with a character added to the string: the step
    -- returns. Where an entry at the current one or on from it in the direction matches, the nearest
    -- such entry becomes the current one, of a valid panel, and the match has the string's length;
    -- where none does, the step reports failure and leaves the panel.
    pub act_isearch-Nearest :
        (found : Option ℕ) × Nearest direction this.panel found
        × (outcome : Isearch × Action) × (act_isearch fresh matches direction increase string this
            ≡ some outcome)
        × Lands found this.panel outcome
    unfolding act_isearch stack_push
    act_isearch-Nearest =
        let found = search matches direction false string pushed in
        let near = search-Nearest direction pushed in
        let (outcome, e, lands) = found_lem found near in (found, near, outcome, e, lands)
