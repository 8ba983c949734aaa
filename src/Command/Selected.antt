-- ===== src/Command/Selected.antt =====
-- `%i` and `%I` of `command_expand` in src/git.c write the names of the selected entries.
use gnu_gnuit.Prelude.{
  ℕ, zero, suc, ◌+◌, ◌<◌, ◌≡◌, refl, sym, ap, ap₂, ◌∙◌, Bool, true, false, Bool-cases, inl, inr,
  Option, none, some, List, [], ◌∷◌, ◌++◌, drop, ◌&&◌, ltb, if◌then◌else◌, arith,
}
use gnu_gnuit.Panel.{Panel, DirEntry}
use gnu_gnuit.Panel.Valid.{IsValid, count_selected}
use gnu_gnuit.Panel.Isearch.{name_at}
use gnu_gnuit.Panel.Selection.{panel_init_iterator, panel_get_next}
use gnu_gnuit.Panel.Iteration.{collect, selected_places, panel_get_next_lem}
use gnu_gnuit.Command.Fields.{System, quoted, gathered, gather, selection_text}
use gnu_gnuit.Command.Steps.{Expansion, Step, go, put_panel, gathered_step, selected_step}

-- The quoted name of each selected entry, each with a space behind it.
abbrev pub quoted_names : List DirEntry → List ℕ
quoted_names [] = []
quoted_names (e ∷ rest) =
    if e.selected then quoted e.name ++ b' ' ∷ quoted_names rest else quoted_names rest

abbrev quoted_at : List DirEntry → List ℕ → List ℕ
quoted_at list [] = []
quoted_at list (place ∷ places) = quoted (name_at list place) ++ b' ' ∷ quoted_at list places

panel_get_next-entry_list : (t : Panel) → (panel_get_next t).0.entry_list ≡ t.entry_list
unfolding panel_get_next
panel_get_next-entry_list t = ground arith

gather-quoted_at :
    (fuel : ℕ) (t : Panel) → (gather fuel t).1 ≡ quoted_at t.entry_list (collect fuel t)
unfolding gather gathered
gather-quoted_at zero t = refl
gather-quoted_at (suc fuel) t =
    next (panel_get_next t) (panel_get_next-entry_list t)
      (gather-quoted_at fuel (panel_get_next t).0) refl
  where
    next :
        (r : Panel × Option ℕ)
        → r.0.entry_list ≡ t.entry_list
        → (gather fuel r.0).1 ≡ quoted_at r.0.entry_list (collect fuel r.0)
        → panel_get_next t ≡ r
        → (gather (suc fuel) t).1 ≡ quoted_at t.entry_list (collect (suc fuel) t)
    next (t', none) same rest e = rw (e, gather, collect) refl
    next (t', some entry) same rest e =
        rw (e, gather, collect)
          (ap (λ text. quoted (name_at t.entry_list entry) ++ b' ' ∷ text)
              (rest ∙ ap (λ list. quoted_at list (collect fuel t')) same)
            ∙ ap (λ (r : Panel × Option ℕ). quoted_at t.entry_list (entry ∷ collect fuel r.0))
                (sym e))

-- The entry at the head of what is left of a list.
name_at-head :
    (list : List DirEntry) (n : ℕ) (e : DirEntry) (xs : List DirEntry)
    → drop n list ≡ e ∷ xs
    → name_at list n ≡ e.name
unfolding name_at
name_at-head [] zero e xs h = absurd (ground (arith, h))
name_at-head [] (suc n) e xs h = absurd (ground (arith, h))
name_at-head (d ∷ list) zero e xs h = ap (λ (ys : List DirEntry). name_at ys 0) h
name_at-head (d ∷ list) (suc n) e xs h = name_at-head list n e xs h

drop-next :
    (list : List DirEntry) (n : ℕ) (e : DirEntry) (xs : List DirEntry)
    → drop n list ≡ e ∷ xs
    → drop (n + 1) list ≡ xs
drop-next [] zero e xs h = absurd (ground (arith, h))
drop-next [] (suc n) e xs h = absurd (ground (arith, h))
drop-next (d ∷ list) zero e xs h = ap (drop 1) h
drop-next (d ∷ list) (suc n) e xs h =
    ap (λ k. drop k (d ∷ list)) {x = suc n + 1} {y = suc (n + 1)} (omega arith)
    ∙ drop-next list n e xs h

quoted_at-places :
    (list xs : List DirEntry) (n : ℕ)
    → drop n list ≡ xs
    → quoted_at list (selected_places xs n) ≡ quoted_names xs
quoted_at-places list [] n h = refl
quoted_at-places list (e ∷ xs) n h =
    let rest = quoted_at-places list xs (n + 1) (drop-next list n e xs h) in
    elim (Bool-cases e.selected) [
      | inl chosen ↦
          rw (chosen, selected_places, quoted_names)
            (ap₂ (λ a b. quoted a ++ b' ' ∷ b) (name_at-head list n e xs h) rest)
      | inr passed ↦ rw (passed, selected_places, quoted_names) rest
    ]

-- A text is there where an entry is selected.
record Written (text : List ℕ) : Type 0 where
  head : ℕ
  tail : List ℕ
  is : text ≡ head ∷ tail

quoted_names-Written : (xs : List DirEntry) → 0 < count_selected xs → Written (quoted_names xs)
unfolding quoted
quoted_names-Written [] h = absurd (omega (arith, h))
quoted_names-Written (e ∷ xs) h = elim (Bool-cases e.selected) [
  | inl chosen ↦ record {
    head = b'"';
    tail = (e.name ++ b'"' ∷ []) ++ b' ' ∷ quoted_names xs;
    is = rw (chosen, quoted_names) refl;
  }
  | inr passed ↦
      let rest = quoted_names-Written xs (ground (arith, h)) in
      record { head = rest.head; tail = rest.tail; is = rw (passed, quoted_names) rest.is }
]

selection_text-names :
    (t : Panel)
    → IsValid t
    → 0 < t.selected_entries
    → (selection_text t).1 ≡ quoted_names t.entry_list
unfolding selection_text panel_init_iterator
selection_text-names t v some_entry =
    gather-quoted_at (t.entries + 1) (panel_init_iterator t)
    ∙ ap (quoted_at t.entry_list) (panel_get_next_lem t v some_entry)
    ∙ quoted_at-places t.entry_list t.entry_list 0 refl

module _ {U : Type 0} (sys : System U) where
  gathered_step-Written :
      (text rest : List ℕ) (st : Expansion U)
      → Written text
      → gathered_step sys text rest st ≡ go (some text) rest st
  unfolding gathered_step
  gathered_step-Written [] rest st w = absurd (ground (arith, w.is))
  gathered_step-Written (c ∷ text) rest st w = refl

  -- Outside the text of a question, and on a valid panel with selected entries, `%i` and `%I` write the
  -- quoted name of every selected entry, each once, in their order, and a space behind each; they set
  -- the flag for the result to 1 or 2, and the text goes on behind the letter.
  pub selected_step-names :
      (lower : Bool) (t : Panel) (rest : List ℕ) (st : Expansion U)
      → IsValid t
      → 0 < t.selected_entries
      → st.busy ≡ false
      → selected_step sys lower t rest st
        ≡ go (some (quoted_names t.entry_list)) rest (
            put_panel sys lower
              (selection_text t).0
              (record st { i_flag = if lower then 1 else 2 }))
  unfolding selected_step
  selected_step-names lower t rest st v some_entry top =
      let flagged = record st { i_flag = if lower then 1 else 2 } in
      ap
        (λ b. elim b as (λ x. Step U) [
          | true ↦
              go
                (some (
                  b's' ∷ b'e' ∷ b'l' ∷ b'e' ∷ b'c' ∷ b't' ∷ b'e' ∷ b'd' ∷ b' ' ∷ b'e' ∷ b'n' ∷ b't'
                  ∷ b'r' ∷ b'i' ∷ b'e' ∷ b's' ∷ []))
                rest flagged
          | false ↦
              gathered_step sys (selection_text t).1 rest
                (put_panel sys lower (selection_text t).0 flagged)
        ])
        {x = st.busy && ltb 0 t.selected_entries} {y = false} (ground (arith, top))
      ∙ ap (λ text. gathered_step sys text rest (put_panel sys lower (selection_text t).0 flagged))
          (selection_text-names t v some_entry)
      ∙ gathered_step-Written (quoted_names t.entry_list) rest _
          (quoted_names-Written t.entry_list (omega (arith, some_entry, v.selection)))
