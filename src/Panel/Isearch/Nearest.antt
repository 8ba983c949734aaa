-- ===== src/Panel/Isearch/Nearest.antt =====
-- The two loops of the search find the nearest entry that matches, or none if none does.
use gnu_gnuit.Prelude.{
  ℕ, zero, suc, ◌+◌, ◌-◌, ◌≤◌, ◌<◌, ◌≡◌, refl, sym, ap, ◌∙◌, Bool, true, false, Option, none, some,
  List, [], ◌∷◌, drop, length, length-drop, arith, Bool-cases, inl, inr,
}
use gnu_gnuit.Panel.{DirEntry}
use gnu_gnuit.Panel.Isearch.{name_at, panel_isearch_backward, forward_from, panel_isearch_forward}

module _ (matches : List ℕ → Bool) where
  -- The result `r` of a search for the nearest of the entries in [low, high), from the high end.
  abbrev pub Last : List DirEntry → ℕ → Option ℕ → Type 0
  Last list high none = (i : ℕ) → i < high → matches (name_at list i) ≡ false
  Last list high (some j) =
      (j < high)
      × (matches (name_at list j) ≡ true)
      × ((i : ℕ) → j < i → i < high → matches (name_at list i) ≡ false)

  abbrev pub First : List DirEntry → ℕ → Option ℕ → Type 0
  First list low none = (i : ℕ) → low ≤ i → i < length list → matches (name_at list i) ≡ false
  First list low (some j) =
      (low ≤ j)
      × (j < length list)
      × (matches (name_at list j) ≡ true)
      × ((i : ℕ) → low ≤ i → i < j → matches (name_at list i) ≡ false)

  Last-step :
      (list : List DirEntry) (n : ℕ) (r : Option ℕ)
      → matches (name_at list n) ≡ false
      → Last list n r
      → Last list (suc n) r
  Last-step list n none here h = λ i p. ground (arith, h i)
  Last-step list n (some j) here h = (omega (arith, h.0), h.1, λ i p q. ground (arith, h.2 i))

  -- The backward search from below `high` gives the last entry there that matches.
  pub panel_isearch_backward_lem :
      (list : List DirEntry) (high : ℕ) → Last list high (panel_isearch_backward matches list high)
  unfolding panel_isearch_backward
  panel_isearch_backward_lem list zero = λ i h. absurd (omega arith)
  panel_isearch_backward_lem list (suc n) = elim (Bool-cases (matches (name_at list n))) [
    | inl here ↦ rw here (omega arith, here, λ i p q. absurd (omega arith))
    | inr other ↦ rw other (
        Last-step list n (panel_isearch_backward matches list n) other
          (panel_isearch_backward_lem list n))
  ]

  -- The same over the entries that are left, the first of them at `entry`.
  abbrev FirstFrom : List DirEntry → ℕ → Option ℕ → Type 0
  FirstFrom xs entry none = (i : ℕ) → i < length xs → matches (name_at xs i) ≡ false
  FirstFrom xs entry (some j) =
      (entry ≤ j)
      × (j < entry + length xs)
      × (matches (name_at xs (j - entry)) ≡ true)
      × ((i : ℕ) → i + entry < j → matches (name_at xs i) ≡ false)

  FirstFrom-step :
      (e : DirEntry) (xs : List DirEntry) (entry : ℕ) (r : Option ℕ)
      → matches e.name ≡ false
      → FirstFrom xs (entry + 1) r
      → FirstFrom (e ∷ xs) entry r
  unfolding name_at
  FirstFrom-step e xs entry none here h = tail
    where
      tail : (i : ℕ) → i < length (e ∷ xs) → matches (name_at (e ∷ xs) i) ≡ false
      tail zero p = here
      tail (suc i) p = h i (omega arith)
  FirstFrom-step e xs entry (some j) here h = (
    omega (arith, h.0),
    omega (arith, h.1),
    ap (λ k. matches (name_at (e ∷ xs) k)) {x = j - entry} {y = suc (j - (entry + 1))}
          (omega (arith, h.0))
        ∙ h.2,
    before,
  )
    where
      before : (i : ℕ) → i + entry < j → matches (name_at (e ∷ xs) i) ≡ false
      before zero p = here
      before (suc i) p = h.3 i (omega arith)

  forward_from_lem :
      (xs : List DirEntry) (entry : ℕ) → FirstFrom xs entry (forward_from matches xs entry)
  unfolding forward_from name_at
  forward_from_lem [] entry = λ i p. absurd (omega arith)
  forward_from_lem (e ∷ xs) entry = elim (Bool-cases (matches e.name)) [
    | inl here ↦ rw here (
      omega arith,
      omega arith,
      ap (λ k. matches (name_at (e ∷ xs) k)) {x = entry - entry} {y = 0} (omega arith) ∙ here,
      λ i p. absurd (omega arith),
    )
    | inr other ↦ rw other (
        FirstFrom-step e xs entry (forward_from matches xs (entry + 1)) other
          (forward_from_lem xs (entry + 1)))
  ]

  pub name_at-drop :
      (n : ℕ) (xs : List DirEntry) (i : ℕ) → name_at (drop n xs) i ≡ name_at xs (n + i)
  unfolding name_at
  name_at-drop zero xs i = ap (name_at xs) {x = i} {y = 0 + i} (omega arith)
  name_at-drop (suc n) [] i = refl
  name_at-drop (suc n) (x ∷ xs) i =
      name_at-drop n xs i ∙ ap (name_at (x ∷ xs)) {x = suc (n + i)} {y = suc n + i} (omega arith)

  First-drop :
      (list : List DirEntry) (start : ℕ) (r : Option ℕ)
      → FirstFrom (drop start list) start r
      → First list start r
  First-drop list start none h = λ i p q.
      ap (λ k. matches (name_at list k)) {x = i} {y = start + (i - start)} (omega arith)
      ∙ ap matches (sym (name_at-drop start list (i - start)))
      ∙ h (i - start) (omega (arith, length-drop start list))
  First-drop list start (some j) h = (
    h.0,
    omega (arith, h.0, h.1, length-drop start list),
    ap (λ k. matches (name_at list k)) {x = j} {y = start + (j - start)} (omega (arith, h.0))
        ∙ ap matches (sym (name_at-drop start list (j - start)))
        ∙ h.2,
    λ i p q.
        ap (λ k. matches (name_at list k)) {x = i} {y = start + (i - start)} (omega arith)
        ∙ ap matches (sym (name_at-drop start list (i - start)))
        ∙ h.3 (i - start) (omega arith),
  )

  -- The forward search gives the first entry from `start` on that matches.
  pub panel_isearch_forward_lem :
      (list : List DirEntry) (start : ℕ)
      → First list start (panel_isearch_forward matches list start)
  unfolding panel_isearch_forward
  panel_isearch_forward_lem list start =
      First-drop list start _ (forward_from_lem (drop start list) start)
