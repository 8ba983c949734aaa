-- ===== src/Panel/Iteration.antt =====
-- The iterator of src/panel.c gives the selected entries, each once and in their order.
use gnu_gnuit.Prelude.{
  ℕ, zero, suc, ◌+◌, ◌-◌, ◌≤◌, ◌<◌, ◌≡◌, refl, sym, ap, ◌∙◌, true, false, Option, none, some, List,
  [], ◌∷◌, drop, length, ltb, if◌then◌else◌, Bool-cases, inl, inr, arith, length-drop,
}
use gnu_gnuit.Prelude.Int.{pos}
use gnu_gnuit.Panel.{Panel, DirEntry}
use gnu_gnuit.Panel.Valid.{IsValid}
use gnu_gnuit.Panel.Selection.{panel_init_iterator, panel_get_next, next_selected, after_last}

-- The calls that a file operation makes, up to the result -1 or `fuel` of them.
abbrev pub collect : ℕ → Panel → List ℕ
collect zero this = []
collect (suc fuel) this = elim ((panel_get_next this).1) [
  | none ↦ []
  | some index ↦ index ∷ collect fuel (panel_get_next this).0
]

-- The places of the selected entries of a list that begins at a place.
abbrev pub selected_places : List DirEntry → ℕ → List ℕ
selected_places [] place = []
selected_places (e ∷ rest) place =
    if e.selected
    then place ∷ selected_places rest (place + 1)
    else selected_places rest (place + 1)

next_none : (xs : List DirEntry) (i : ℕ) → next_selected xs i ≡ none → selected_places xs i ≡ []
unfolding next_selected
next_none [] i h = refl
next_none (e ∷ xs) i h = ground (arith, next_none xs (i + 1))

drop-nil : (n : ℕ) → drop {A = DirEntry} n [] ≡ []
drop-nil zero = refl
drop-nil (suc n) = refl

drop-drop : (m n : ℕ) (xs : List DirEntry) → drop m (drop n xs) ≡ drop (n + m) xs
drop-drop m zero xs = ap (λ k. drop k xs) {x = m} {y = 0 + m} (omega arith)
drop-drop m (suc n) [] = drop-nil m ∙ sym (drop-nil (suc n + m))
drop-drop m (suc n) (x ∷ xs) =
    drop-drop m n xs ∙ ap (λ k. drop k (x ∷ xs)) {x = suc (n + m)} {y = suc n + m} (omega arith)

places_chosen :
    (e : DirEntry) (xs : List DirEntry) (i : ℕ)
    → e.selected ≡ true
    → selected_places (e ∷ xs) i ≡ i ∷ selected_places xs (i + 1)
places_chosen e xs i h = rw (h, selected_places) refl

places_other :
    (e : DirEntry) (xs : List DirEntry) (i : ℕ)
    → e.selected ≡ false
    → selected_places (e ∷ xs) i ≡ selected_places xs (i + 1)
places_other e xs i h = rw (h, selected_places) refl

next_inside :
    (xs : List DirEntry) (i j : ℕ) → next_selected xs i ≡ some j → (i ≤ j) × (j < i + length xs)
unfolding next_selected
next_inside [] i j h = absurd (ground arith)
next_inside (e ∷ xs) i j h = ground (arith, next_inside xs (i + 1) j)

-- The rest of the places come behind the place found.
next_some :
    (xs : List DirEntry) (i j : ℕ)
    → next_selected xs i ≡ some j
    → selected_places xs i ≡ j ∷ selected_places (drop (j + 1 - i) xs) (j + 1)
unfolding next_selected
next_some [] i j h = absurd (ground arith)
next_some (e ∷ xs) i j h = elim (Bool-cases e.selected) [
  | inl chosen ↦
      let same : i ≡ j = ground arith in
      places_chosen e xs i chosen
      ∙ (ap (λ k. k ∷ selected_places xs (k + 1)) same
          ∙ ap (λ k. j ∷ selected_places (drop k (e ∷ xs)) (j + 1)) {x = 1} {y = j + 1 - i}
              (omega arith))
  | inr other ↦
      let h' : next_selected xs (i + 1) ≡ some j = ground arith in
      let low = next_inside xs (i + 1) j h' in
      places_other e xs i other
      ∙ (next_some xs (i + 1) j h'
          ∙ ap (λ k. j ∷ selected_places (drop k (e ∷ xs)) (j + 1)) {x = suc (j + 1 - (i + 1))}
              {y = j + 1 - i} (omega arith))
]

collect_from :
    (fuel : ℕ) (this : Panel)
    → 0 < this.multiple_files
    → length (drop (after_last this.last_index) this.entry_list) < fuel
    → collect fuel this
      ≡ selected_places
          (drop (after_last this.last_index) this.entry_list)
          (after_last this.last_index)
unfolding panel_get_next after_last
collect_from zero this some_file h = absurd (omega arith)
collect_from (suc fuel) this some_file h =
    step (λ j fits. collect_from fuel (record this { last_index = pos j }) some_file fits)
      (next_selected (drop start this.entry_list) start) refl
  where
    start : ℕ
    start = after_last this.last_index

    several : ltb 0 this.multiple_files ≡ true
    several = ground arith

    moved :
        (j : ℕ)
        → next_selected (drop start this.entry_list) start ≡ some j
        → (panel_get_next this).0 ≡ (record this { last_index = pos j })
    moved j e = rw (several, e) refl

    onward :
        (j : ℕ)
        → next_selected (drop start this.entry_list) start ≡ some j
        → length (drop (suc j) this.entry_list) < fuel
    onward j e =
        let inside = next_inside (drop start this.entry_list) start j e in
        let left = length-drop start this.entry_list in
        let left' = length-drop (suc j) this.entry_list in omega arith

    behind :
        (j : ℕ)
        → start ≤ j
        → drop (j + 1 - start) (drop start this.entry_list) ≡ drop (suc j) this.entry_list
    behind j low =
        drop-drop (j + 1 - start) start this.entry_list
        ∙ ap (λ k. drop k this.entry_list) {x = start + (j + 1 - start)} {y = suc j} (omega arith)

    step :
        ((j : ℕ)
          → length (drop (suc j) this.entry_list) < fuel
          → collect fuel (record this { last_index = pos j })
            ≡ selected_places (drop (suc j) this.entry_list) (suc j))
        → (r : Option ℕ) → next_selected (drop start this.entry_list) start ≡ r
        → collect (suc fuel) this ≡ selected_places (drop start this.entry_list) start
    step again none e =
        rw (several, e, collect) (sym (next_none (drop start this.entry_list) start e))
    step again (some j) e =
        let low = (next_inside (drop start this.entry_list) start j e).0 in
        let rest = again j (onward j e) in
        rw (several, e, collect)
          (ap (λ p. j ∷ collect fuel p) (moved j e)
            ∙ ap (j ∷◌) rest
            ∙ ap (λ xs. j ∷ selected_places xs (suc j)) (sym (behind j low))
            ∙ ap (λ k. j ∷ selected_places (drop (j + 1 - start) (drop start this.entry_list)) k)
                {x = suc j} {y = j + 1} (omega arith)
            ∙ sym (next_some (drop start this.entry_list) start j e))

-- After `panel_init_iterator` on a valid panel with selected entries, the calls of `panel_get_next` up
-- to the result -1 give the places of the selected entries, all of them, each once and in their order;
-- as many calls as the panel has entries and one more are enough.
pub panel_get_next_lem :
    (this : Panel)
    → IsValid this
    → 0 < this.selected_entries
    → collect (this.entries + 1) (panel_init_iterator this) ≡ selected_places this.entry_list 0
unfolding panel_init_iterator after_last
panel_get_next_lem this v some_file =
    collect_from (this.entries + 1) (panel_init_iterator this) some_file (omega (arith, v.counted))
