-- ===== src/Stack/HistoryLaws.antt =====
-- The histories of src/git.c hold no entry twice in a row, and show the entry just added.
use gnu_gnuit.Prelude.{
  ℕ, ◌≡◌, ◌≢◌, refl, sym, ap, ap₂, ◌∙◌, true, false, some, List, [], ◌∷◌, arith, Bool-cases, inl,
  inr, subst,
}
use gnu_gnuit.Stack.{Stack}
use gnu_gnuit.Stack.Elements.{IsWhole, elements, elem_at, xstack_push_lem, xstack_preview_lem}
use gnu_gnuit.Stack.History.{
  same_text, push_unless_same, il_history_add_entry, il_history_view_entry,
}

-- No entry stands on top of an equal one.
abbrev pub DiffersFrom : List ℕ → List (List ℕ) → Type 0
DiffersFrom text [] = Unit
DiffersFrom text (next ∷ rest) = next ≢ text

abbrev pub NoRepeat : List (List ℕ) → Type 0
NoRepeat [] = Unit
NoRepeat (text ∷ rest) = DiffersFrom text rest × NoRepeat rest

same_text_refl : (a : List ℕ) → same_text a a ≡ true
unfolding same_text
same_text_refl [] = refl
same_text_refl (c ∷ a) = ground (arith, same_text_refl a)

same_text_sound : (a b : List ℕ) → same_text a b ≡ true → a ≡ b
unfolding same_text
same_text_sound [] [] h = refl
same_text_sound [] (d ∷ b) h = absurd (ground arith)
same_text_sound (c ∷ a) [] h = absurd (ground arith)
same_text_sound (c ∷ a) (d ∷ b) h = ap₂ (◌∷◌) (ground arith) (same_text_sound a b (ground arith))

-- The list that an addition leaves.
abbrev pub added : List ℕ → List (List ℕ) → List (List ℕ)
added text [] = text ∷ []
added text (top ∷ rest) = elim (same_text top text) [
  | true ↦ top ∷ rest
  | false ↦ text ∷ top ∷ rest
]

add_on :
    (fresh : ℕ → List ℕ) (history : Stack (List ℕ)) (text : List ℕ)
    → IsWhole history
    → (xs : List (List ℕ)) → elements history ≡ xs
    → IsWhole (push_unless_same fresh history text (elem_at xs 0))
      × (elements (push_unless_same fresh history text (elem_at xs 0)) ≡ added text xs)
unfolding push_unless_same
add_on fresh history text whole [] e =
    let (whole', e') = xstack_push_lem fresh history text whole in (whole', e' ∙ ap (text ∷◌) e)
add_on fresh history text whole (top ∷ rest) e =
    let (whole', e') = xstack_push_lem fresh history text whole in
    elim (Bool-cases (same_text top text)) [
      | inl same ↦ rw (same, added) (whole, e)
      | inr other ↦ rw (other, added) (whole', e' ∙ ap (text ∷◌) e)
    ]

elements-add :
    (fresh : ℕ → List ℕ) (history : Stack (List ℕ)) (text : List ℕ)
    → IsWhole history
    → IsWhole (il_history_add_entry fresh history text)
      × (elements (il_history_add_entry fresh history text) ≡ added text (elements history))
unfolding il_history_add_entry
elements-add fresh history text whole =
    subst
      (λ seen.
        IsWhole (push_unless_same fresh history text seen)
        × (elements (push_unless_same fresh history text seen) ≡ added text (elements history)))
      (sym (xstack_preview_lem history 0)) (add_on fresh history text whole (elements history) refl)

differ : true ≢ false
differ h = ground arith

added-NoRepeat : (text : List ℕ) (xs : List (List ℕ)) → NoRepeat xs → NoRepeat (added text xs)
added-NoRepeat text [] h = (tt, tt)
added-NoRepeat text (top ∷ rest) h = elim (Bool-cases (same_text top text)) [
  | inl same ↦ rw (same, NoRepeat) h
  | inr other ↦
      rw (other, NoRepeat)
        (λ e. differ (sym (same_text_refl text) ∙ ap (λ a. same_text a text) (sym e) ∙ other), h)
]

added-top : (text : List ℕ) (xs : List (List ℕ)) → elem_at (added text xs) 0 ≡ some text
added-top text [] = refl
added-top text (top ∷ rest) = elim (Bool-cases (same_text top text)) [
  | inl same ↦ rw (same, elem_at) (ap some (same_text_sound top text same))
  | inr other ↦ rw (other, elem_at) refl
]

-- An entry added to a history without repetitions leaves one without repetitions, in a block with
-- just the room of the entries, and the latest entry it then shows is the one just added.
pub il_history_add_entry_lem :
    (fresh : ℕ → List ℕ) (history : Stack (List ℕ)) (text : List ℕ)
    → IsWhole history
    → NoRepeat (elements history)
    → let history' = il_history_add_entry fresh history text in
      IsWhole history'
      × NoRepeat (elements history')
      × (il_history_view_entry history' 1 ≡ some text)
unfolding il_history_view_entry
il_history_add_entry_lem fresh history text whole distinct =
    let (whole', e) = elements-add fresh history text whole in
    (
      whole',
      subst NoRepeat (sym e) (added-NoRepeat text (elements history) distinct),
      xstack_preview_lem (il_history_add_entry fresh history text) 0
          ∙ ap (λ xs. elem_at xs 0) e
          ∙ added-top text (elements history),
    )
