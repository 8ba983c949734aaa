-- ===== src/Panel/Isearch.antt =====
-- src/panel.c: the incremental search of a panel, `act_ISEARCH_BEGIN`, `act_ISEARCH_BACKWARD` and
-- `act_ISEARCH_FORWARD` of `panel_action`. `matches` is xwcsncasecmp of the string with an entry's
-- name over the string's length. `none` is a failed assertion, or a read of an `isearch_t` that an
-- empty stack did not fill.
pub mod Landing
pub mod Nearest
pub mod Tests
pub mod Undo
use gnu_gnuit.Prelude.{
  ℕ, zero, suc, ◌+◌, ◌-◌, Bool, true, false, Option, none, some, List, [], ◌∷◌, drop, ltb, ◌==◌,
  length, if◌then◌else◌,
}
use gnu_gnuit.Stack.{Stack, xstack_init, xstack_push, xstack_pop, xstack_preview}
use gnu_gnuit.Panel.{Panel, DirEntry}
use gnu_gnuit.Panel.Cursor.{act_up, act_down, panel_set_current_entry}

pub record IsearchEntry : Type 0 where
  pub entry : ℕ
  pub length : ℕ

-- The fields of `panel_t` that the search uses beside those of `Panel`.
pub record Isearch : Type 0 where
  pub panel : Panel
  pub isearch_stack : Stack IsearchEntry
  pub isearch_length : ℕ
  pub wrapped_isearch : Bool

-- IL_ISEARCH_ACTION_NONE and so on.
pub data Action : Type 0 where
  failed unchanged decrease retry increase : Action

pub data Direction : Type 0 where
  backward forward : Direction

-- `dir_entry[i].wname`
unfoldable pub name_at : List DirEntry → ℕ → List ℕ
name_at [] i = []
name_at (e ∷ rest) zero = e.name
name_at (e ∷ rest) (suc i) = name_at rest i

-- From the entry before `n` down to the first; `none` is -1.
unfoldable pub panel_isearch_backward : (List ℕ → Bool) → List DirEntry → ℕ → Option ℕ
unfolding name_at
panel_isearch_backward matches list zero = none
panel_isearch_backward matches list (suc i) =
    let rest = panel_isearch_backward matches list i in
    if matches (name_at list i) then some i else rest

-- The loop over the entries from `entry` on, which `list` holds.
unfoldable pub forward_from : (List ℕ → Bool) → List DirEntry → ℕ → Option ℕ
forward_from matches [] entry = none
forward_from matches (e ∷ rest) entry =
    let later = forward_from matches rest (entry + 1) in
    if matches e.name then some entry else later

unfoldable pub panel_isearch_forward : (List ℕ → Bool) → List DirEntry → ℕ → Option ℕ
unfolding forward_from
panel_isearch_forward matches list start = forward_from matches (drop start list) start

unfoldable pub go_to : Direction → ℕ → Panel → Panel
go_to backward entry panel = act_up (panel.current_entry - entry) panel
go_to forward entry panel = act_down (entry - panel.current_entry) panel

-- The labels `isearch_backward_action_increase` and `isearch_forward_action_increase`.
unfoldable pub isearch_found :
    Direction → Action → ℕ → Option ℕ → Isearch → Option (Isearch × Action)
unfolding go_to panel_set_current_entry
isearch_found direction action len none this = some (this, failed)
isearch_found direction action len (some entry) this =
    if this.wrapped_isearch
    then elim (panel_set_current_entry this.panel entry) [
      | none ↦ none
      | some panel ↦
          some
            (record this { panel = panel; isearch_length = len; wrapped_isearch = false }, action)
    ]
    else some
        (record this { panel = go_to direction entry this.panel; isearch_length = len }, action)

-- The label `isearch_action_decrease`, which both directions use, with what the pop gave.
unfoldable pub isearch_undo :
    ℕ → Option (IsearchEntry × Stack IsearchEntry) → Isearch → Option (Isearch × Action)
unfolding xstack_preview
isearch_undo len none this = none
isearch_undo len (some (prev, stack)) this =
    let popped = record this { isearch_stack = stack } in
    let panel =
      if ltb this.panel.current_entry prev.entry
      then act_down (prev.entry - this.panel.current_entry) this.panel
      else act_up (this.panel.current_entry - prev.entry) this.panel in
    if this.isearch_length == len
    then elim (xstack_preview stack 1) [
      | none ↦ none
      | some before ↦
          some (record popped { panel = panel; isearch_length = before.length }, decrease)
    ]
    else some (popped, decrease)

module _ (fresh : ℕ → IsearchEntry) where
  -- STACK_PUSH
  unfoldable pub stack_push : ℕ → ℕ → Isearch → Isearch
  unfolding xstack_push
  stack_push entry len this = record this {
    isearch_stack = xstack_push fresh this.isearch_stack (record { entry = entry; length = len });
  }

  unfoldable pub isearch_begin : Panel → Isearch
  unfolding stack_push xstack_init
  isearch_begin panel = stack_push panel.current_entry 0 (record {
    panel = panel;
    isearch_stack = xstack_init fresh;
    isearch_length = 0;
    wrapped_isearch = false;
  })

module _ (matches : List ℕ → List ℕ → Bool) where
  -- What the search of one direction finds, from the current entry for IL_ISEARCH_ACTION_INCREASE,
  -- from the one beside it or from the other end for IL_ISEARCH_ACTION_RETRY.
  unfoldable pub search : Direction → Bool → List ℕ → Isearch → Option ℕ
  unfolding panel_isearch_backward panel_isearch_forward
  search backward again string this =
      panel_isearch_backward (matches string) this.panel.entry_list (
        if again
        then (if this.wrapped_isearch then this.panel.entries else this.panel.current_entry)
        else this.panel.current_entry + 1)
  search forward again string this = panel_isearch_forward (matches string) this.panel.entry_list (
      if again
      then (if this.wrapped_isearch then 0 else this.panel.current_entry + 1)
      else this.panel.current_entry)

module _ (fresh : ℕ → IsearchEntry) (matches : List ℕ → List ℕ → Bool) where
  unfoldable pub act_isearch : Direction → Action → List ℕ → Isearch → Option (Isearch × Action)
  unfolding stack_push search isearch_found isearch_undo xstack_pop
  act_isearch direction decrease string this =
      isearch_undo (length string) (xstack_pop fresh this.isearch_stack) this
  act_isearch direction retry string this =
      let pushed =
        if this.wrapped_isearch
        then this
        else stack_push fresh this.panel.current_entry (length string) this in
      isearch_found direction retry (length string) (search matches direction true string pushed)
        pushed
  act_isearch direction increase string this =
      let pushed = stack_push fresh this.panel.current_entry (length string) this in
      isearch_found direction increase (length string)
        (search matches direction false string pushed) pushed
  act_isearch direction action string this = some (this, action)
