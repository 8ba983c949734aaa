-- ===== src/Transfer/FindLaws.antt =====
-- Which entry panel_find_index of src/panel.c finds.
use gnu_gnuit.Prelude.{
  ℕ, zero, suc, ◌+◌, ◌≤◌, ◌<◌, ◌≡◌, ◌≢◌, refl, ap, ap₂, ◌∙◌, Bool-cases, inl, inr, Bool, true,
  false, Option, none, some, List, [], ◌∷◌, ◌++◌, length, take, min, arith,
}
use gnu_gnuit.Transfer.Find.{strcmp_equal, find_entry, or_find, or_zero, maxname, panel_find_index}

strcmp_equal_refl : (a : List ℕ) → strcmp_equal a a ≡ true
unfolding strcmp_equal
strcmp_equal_refl [] = refl
strcmp_equal_refl (c ∷ a) = ground (arith, strcmp_equal_refl a)

strcmp_equal_sound : (a b : List ℕ) → strcmp_equal a b ≡ true → a ≡ b
unfolding strcmp_equal
strcmp_equal_sound [] [] h = refl
strcmp_equal_sound [] (d ∷ b) h = absurd (ground (arith, h))
strcmp_equal_sound (c ∷ a) [] h = absurd (ground (arith, h))
strcmp_equal_sound (c ∷ a) (d ∷ b) h =
    ap₂ (◌∷◌) (ground (arith, h)) (strcmp_equal_sound a b (ground (arith, h)))

strcmp_equal-differ : (a b : List ℕ) → a ≢ b → strcmp_equal a b ≡ false
strcmp_equal-differ a b h = elim (Bool-cases (strcmp_equal a b)) [
  | inl same ↦ absurd (h (strcmp_equal_sound a b same))
  | inr other ↦ other
]

-- The name is that of no entry of the list.
abbrev pub Absent : List ℕ → List (List ℕ) → Type 0
Absent name [] = Unit
Absent name (first ∷ names) = (name ≢ first) × Absent name names

find_entry-exact :
    (name : List ℕ) (entry : ℕ) (earlier later : List (List ℕ))
    → Absent name earlier
    → find_entry (strcmp_equal name) entry (earlier ++ name ∷ later) ≡ some (entry + length earlier)
unfolding find_entry
find_entry-exact name entry [] later h = simp (strcmp_equal_refl name) (ap some (omega arith))
find_entry-exact name entry (first ∷ earlier) later (h, hs) =
    simp (strcmp_equal-differ name first h)
      (find_entry-exact name (entry + 1) earlier later hs ∙ ap some (omega arith))

maxname-holds :
    (name : List ℕ) (earlier later : List (List ℕ))
    → length name ≤ maxname (earlier ++ name ∷ later)
unfolding maxname
maxname-holds name [] later = omega arith
maxname-holds name (first ∷ earlier) later = omega (arith, maxname-holds name earlier later)

take_whole : (n : ℕ) (text : List ℕ) → length text ≤ n → take (min (length text) n) text ≡ text
take_whole n [] h = ap (λ k. take k []) {x = min 0 n} {y = 0} (omega arith)
take_whole zero (c ∷ text) h = absurd (omega (arith, h))
take_whole (suc n) (c ∷ text) h =
    ap (λ k. take k (c ∷ text)) {x = min (suc (length text)) (suc n)}
      {y = suc (min (length text) n)} (omega arith)
    ∙ ap (c ∷◌) (take_whole n text (omega (arith, h)))

-- Where a panel has entries of a name, panel_find_index of that name gives the first of them,
-- however names are lowered, and though other names come before it that match it without regard to
-- case or in part.
pub panel_find_index-exact :
    (tolower : ℕ → ℕ) (name : List ℕ) (earlier later : List (List ℕ))
    → Absent name earlier
    → panel_find_index tolower (earlier ++ name ∷ later) name ≡ length earlier
unfolding panel_find_index or_find or_zero
panel_find_index-exact tolower name earlier later h =
    rw
      (
        take_whole (maxname (earlier ++ name ∷ later)) name (maxname-holds name earlier later),
        find_entry-exact name 0 earlier later h,
      )
      (omega arith)

-- An entry found is below a number.
abbrev Below : ℕ → Option ℕ → Type 0
Below n none = Unit
Below n (some entry) = entry < n

find_entry-Below :
    (test : List ℕ → Bool) (entry n : ℕ) (names : List (List ℕ))
    → entry + length names ≡ n
    → Below n (find_entry test entry names)
unfolding find_entry
find_entry-Below test entry n [] e = tt
find_entry-Below test entry n (name ∷ names) e = elim (Bool-cases (test name)) [
  | inl hit ↦ simp hit (omega (arith, e))
  | inr missed ↦ simp missed (find_entry-Below test (entry + 1) n names (omega (arith, e)))
]

or_find-Below : (n : ℕ) (a b : Option ℕ) → Below n a → Below n b → Below n (or_find a b)
unfolding or_find
or_find-Below n none b h k = k
or_find-Below n (some entry) b h k = h

or_zero-Below : (n : ℕ) (a : Option ℕ) → 0 < n → Below n a → or_zero a < n
unfolding or_zero
or_zero-Below n none h k = h
or_zero-Below n (some entry) h k = k

-- In a panel with an entry at least, panel_find_index gives the number of one, whatever the name.
pub panel_find_index-below :
    (tolower : ℕ → ℕ) (names : List (List ℕ)) (str : List ℕ)
    → 0 < length names
    → panel_find_index tolower names str < length names
unfolding panel_find_index
panel_find_index-below tolower names str h = or_zero-Below (length names) _ h (
    or_find-Below (length names) _ _ (find_entry-Below _ 0 (length names) names (omega arith)) (
      or_find-Below (length names) _ _ (find_entry-Below _ 0 (length names) names (omega arith)) (
        or_find-Below (length names) _ _ (find_entry-Below _ 0 (length names) names (omega arith))
          (find_entry-Below _ 0 (length names) names (omega arith)))))
