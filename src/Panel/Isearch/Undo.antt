-- ===== src/Panel/Isearch/Undo.antt =====
-- IL_ISEARCH_ACTION_DECREASE takes back what IL_ISEARCH_ACTION_INCREASE did with the same string.
use gnu_gnuit.Prelude.{
  ℕ, zero, suc, ◌+◌, ◌-◌, ◌<◌, ◌≡◌, ◌≢◌, refl, sym, ap, subst, ◌∙◌, Bool, false, Option, none, some,
  List, ◌∷◌, ltb, ◌==◌, length, if◌then◌else◌, arith, Bool-cases, inl, inr,
}
use gnu_gnuit.Stack.{Stack, xstack_pop, xstack_preview}
use gnu_gnuit.Stack.Elements.{
  IsWhole, elements, elem_at, Popped, xstack_push_lem, xstack_pop_lem, xstack_preview_lem,
}
use gnu_gnuit.Panel.{Panel}
use gnu_gnuit.Panel.Valid.{IsValid}
use gnu_gnuit.Panel.Cursor.{act_up, act_down, up_step, down_step}
use gnu_gnuit.Panel.Moves.{act_up_lem, act_down_lem}
use gnu_gnuit.Panel.Isearch.{
  IsearchEntry, Isearch, Action, Direction, failed, decrease, increase, backward, forward,
  stack_push, search, go_to, isearch_found, isearch_undo, act_isearch,
}

-- A state of the search from which it can go on: the stack's top says how long the match is.
pub record IsReady (this : Isearch) : Type 0 where
  pub valid : IsValid this.panel
  pub whole : IsWhole this.isearch_stack
  pub top : IsearchEntry
  pub rest : List IsearchEntry
  pub stacked : elements this.isearch_stack ≡ top ∷ rest
  pub matched : this.isearch_length ≡ top.length
  pub direct : this.wrapped_isearch ≡ false

-- The state `that` shows what `this` does, with the same steps to take back.
pub record Restores (this that : Isearch) : Type 0 where
  pub valid : IsValid that.panel
  pub current : that.panel.current_entry ≡ this.panel.current_entry
  pub matched : that.isearch_length ≡ this.isearch_length
  pub stacked : elements that.isearch_stack ≡ elements this.isearch_stack
  pub whole : IsWhole that.isearch_stack

back_to :
    (panel : Panel) (entry : ℕ)
    → IsValid panel
    → entry < panel.entries
    → let panel' =
        (if ltb panel.current_entry entry
          then act_down (entry - panel.current_entry) panel
          else act_up (panel.current_entry - entry) panel) in
      IsValid panel' × (panel'.current_entry ≡ entry)
back_to panel entry v inside = elim (Bool-cases (ltb panel.current_entry entry)) [
  | inl above ↦
      let (valid, at) = act_down_lem (entry - panel.current_entry) panel v in
      rw above (valid, ground arith)
  | inr below ↦
      let (valid, at) = act_up_lem (panel.current_entry - entry) panel v in
      rw below (valid, ground arith)
]

-- What IL_ISEARCH_ACTION_INCREASE pushes.
abbrev pushed_entry : Isearch → ℕ → IsearchEntry
pushed_entry this len = record { entry = this.panel.current_entry; length = len }

cons-injective :
    (x y : IsearchEntry) (xs ys : List IsearchEntry) → x ∷ xs ≡ y ∷ ys → (x ≡ y) × (xs ≡ ys)
cons-injective x y xs ys e = (cc, cc)

module _ (this that : Isearch) (len : ℕ) (r : IsReady this) (v : IsValid that.panel)
    (inside : this.panel.current_entry < that.panel.entries)
    (stays : that.isearch_length ≢ len
      → (that.panel.current_entry ≡ this.panel.current_entry)
        × (that.isearch_length ≡ this.isearch_length)) where
  preview_top :
      (stack : Stack IsearchEntry)
      → elements stack ≡ r.top ∷ r.rest
      → xstack_preview stack 1 ≡ some r.top
  preview_top stack e = xstack_preview_lem stack 0 ∙ ap (λ xs. elem_at xs 0) e

  undo_popped :
      (prev : IsearchEntry) (stack : Stack IsearchEntry)
      → prev.entry ≡ this.panel.current_entry
      → IsWhole stack
      → elements stack ≡ r.top ∷ r.rest
      → (back : Isearch) × (isearch_undo len (some (prev, stack)) that ≡ some (back, decrease))
        × Restores this back
  unfolding isearch_undo
  undo_popped prev stack e whole rest = elim (Bool-cases (that.isearch_length == len)) [
    | inl same ↦
        let (valid, at) = back_to that.panel prev.entry v (ground (arith, e)) in
        rw (same, preview_top stack rest)
          (
            _,
            refl,
            record {
              valid = valid;
              current = at ∙ e;
              matched = sym r.matched;
              stacked = rest ∙ sym r.stacked;
              whole = whole;
            },
          )
    | inr other ↦
        let (current, matched) = stays (λ q. ground arith) in
        rw other (
          _,
          refl,
          record {
            valid = v;
            current = current;
            matched = matched;
            stacked = rest ∙ sym r.stacked;
            whole = whole;
          },
        )
  ]

  undo :
      (popped : Option (IsearchEntry × Stack IsearchEntry))
      → Popped (pushed_entry this len ∷ r.top ∷ r.rest) popped
      → (back : Isearch) × (isearch_undo len popped that ≡ some (back, decrease))
        × Restores this back
  undo none p = absurd (cc p)
  undo (some (prev, stack)) (whole, p) =
      let (same, rest) =
        cons-injective (pushed_entry this len) prev (r.top ∷ r.rest) (elements stack) p in
      undo_popped prev stack (ap (λ (x : IsearchEntry). x.entry) (sym same)) whole (sym rest)

act_up-entries : (n : ℕ) (panel : Panel) → (act_up n panel).entries ≡ panel.entries
unfolding act_up up_step
act_up-entries zero panel = refl
act_up-entries (suc n) panel = elim (Bool-cases (panel.current_entry == 0)) [
  | inl top ↦ rw (top, act_up) refl
  | inr lower ↦ rw (lower, act_up) (act_up-entries n (up_step panel) ∙ ground arith)
]

act_down-entries : (n : ℕ) (panel : Panel) → (act_down n panel).entries ≡ panel.entries
unfolding act_down down_step
act_down-entries zero panel = refl
act_down-entries (suc n) panel = elim (Bool-cases (ltb (panel.current_entry + 1) panel.entries)) [
  | inl more ↦ rw (more, act_down) (act_down-entries n (down_step panel) ∙ ground arith)
  | inr last ↦ rw (last, act_down) refl
]

go_to_lem :
    (direction : Direction) (entry : ℕ) (panel : Panel)
    → IsValid panel
    → IsValid (go_to direction entry panel)
      × ((go_to direction entry panel).entries ≡ panel.entries)
unfolding go_to
go_to_lem backward entry panel v = (
  (act_up_lem (panel.current_entry - entry) panel v).0,
  act_up-entries (panel.current_entry - entry) panel,
)
go_to_lem forward entry panel v = (
  (act_down_lem (entry - panel.current_entry) panel v).0,
  act_down-entries (entry - panel.current_entry) panel,
)

module _ (fresh : ℕ → IsearchEntry) (matches : List ℕ → List ℕ → Bool) (direction other : Direction)
    (string : List ℕ) (this : Isearch) (r : IsReady this) where
  pushed : Isearch
  pushed = stack_push fresh this.panel.current_entry (length string) this

  -- The state after IL_ISEARCH_ACTION_INCREASE, where the search gave `result`.
  after : Option ℕ → Isearch × Action
  after none = (pushed, failed)
  after (some entry) = (
    record pushed { panel = go_to direction entry this.panel; isearch_length = length string },
    increase,
  )

  increase_is :
      (result : Option ℕ)
      → isearch_found direction increase (length string) result pushed ≡ some (after result)
  unfolding isearch_found pushed after stack_push
  increase_is none = refl
  increase_is (some entry) = rw r.direct refl

  -- The pop gives back what the push has put on the stack.
  popped :
      Popped
        (pushed_entry this (length string) ∷ r.top ∷ r.rest)
        (xstack_pop fresh pushed.isearch_stack)
  unfolding pushed stack_push
  popped =
      let (whole, e) =
        xstack_push_lem fresh this.isearch_stack (pushed_entry this (length string)) r.whole in
      subst (λ xs. Popped xs (xstack_pop fresh pushed.isearch_stack))
        (e ∙ ap (pushed_entry this (length string) ∷◌) r.stacked)
        (xstack_pop_lem fresh pushed.isearch_stack whole)

  undo_after :
      (result : Option ℕ)
      → (back : Isearch) × (act_isearch fresh matches other decrease string (after result).0
          ≡ some (back, decrease))
        × Restores this back
  unfolding act_isearch after pushed stack_push
  undo_after none =
      undo this pushed (length string) r r.valid r.valid.inside (λ q. (refl, refl)) _ popped
  undo_after (some entry) =
      let (valid, same) = go_to_lem direction entry this.panel r.valid in
      undo this (after (some entry)).0 (length string) r valid (omega (arith, same, r.valid.inside))
        (λ q. absurd (q refl)) _ popped

  -- From a state in which the search can go on, a character added to the string and taken back, in
  -- either direction each, whether an entry matches or not: both steps return, and afterwards the
  -- panel is valid with the same current entry, and the length of the match and the steps to take
  -- back are the same.
  pub act_isearch-undo :
      (that : Isearch) × (action : Action) × (back : Isearch) × (act_isearch fresh matches direction
          increase string this
        ≡ some (that, action))
      × (act_isearch fresh matches other decrease string that ≡ some (back, decrease))
      × Restores this back
  unfolding act_isearch pushed after
  act_isearch-undo =
      let result = search matches direction false string pushed in
      let (back, e, restores) = undo_after result in
      ((after result).0, (after result).1, back, increase_is result, e, restores)
