-- ===== src/Stack/Elements.antt =====
-- The stack that a block stands for, as a list from the top, and what each operation of src/xstack.c
-- does to it.
use gnu_gnuit.Prelude.{
  ℕ, zero, suc, ◌+◌, ◌-◌, ◌≤◌, ◌<◌, ◌≡◌, refl, sym, Bool-cases, inl, inr, ap, ap₂, ◌∙◌, false,
  Option, none, some, List, [], ◌∷◌, drop, ltb, ◌==◌, ◌||◌, arith,
}
use gnu_gnuit.Stack.{Stack, xstack_push, xstack_pop, xstack_truncate, xstack_preview}

module _ {ℓ} {A : Type ℓ} where
  -- The block has exactly the room of the elements.
  abbrev pub IsWhole : Stack A → Type 0
  IsWhole stack = stack.allocated ≡ stack.point

  abbrev pub below : (ℕ → A) → ℕ → List A
  below cells zero = []
  below cells (suc n) = cells n ∷ below cells n

  abbrev pub elements : Stack A → List A
  elements stack = below stack.cells stack.point

  abbrev pub elem_at : List A → ℕ → Option A
  elem_at [] i = none
  elem_at (x ∷ xs) zero = some x
  elem_at (x ∷ xs) (suc i) = elem_at xs i

  -- What a pop of a stack with the elements `xs` gives.
  abbrev pub Popped : List A → Option (A × Stack A) → Type ℓ
  Popped xs none = xs ≡ []
  Popped xs (some (x, rest)) = IsWhole rest × (xs ≡ x ∷ elements rest)

  pub below_ext :
      (cells cells' : ℕ → A) (n : ℕ)
      → ((i : ℕ) → i < n → cells i ≡ cells' i)
      → below cells n ≡ below cells' n
  below_ext cells cells' zero h = refl
  below_ext cells cells' (suc n) h =
      ap₂ (◌∷◌) (h n (omega arith)) (below_ext cells cells' n (λ i p. h i (omega arith)))

  pub drop-below : (cells : ℕ → A) (k n : ℕ) → drop k (below cells (k + n)) ≡ below cells n
  drop-below cells zero n = ap (below cells) {x = 0 + n} {y = n} (omega arith)
  drop-below cells (suc k) n =
      ap (λ m. drop (suc k) (below cells m)) {x = suc k + n} {y = suc (k + n)} (omega arith)
      ∙ drop-below cells k n

  pub elem_at-below :
      (cells : ℕ → A) (n k : ℕ) → k < n → elem_at (below cells n) k ≡ some (cells (n - suc k))
  elem_at-below cells zero k h = absurd (omega arith)
  elem_at-below cells (suc n) zero h =
      ap (λ i. some (cells i)) {x = n} {y = suc n - 1} (omega arith)
  elem_at-below cells (suc n) (suc k) h =
      elem_at-below cells n k (omega arith)
      ∙ ap (λ i. some (cells i)) {x = n - suc k} {y = suc n - suc (suc k)} (omega arith)

  pub elem_at-none : (cells : ℕ → A) (n k : ℕ) → n ≤ k → elem_at (below cells n) k ≡ none
  elem_at-none cells zero k h = refl
  elem_at-none cells (suc n) zero h = absurd (omega arith)
  elem_at-none cells (suc n) (suc k) h = elem_at-none cells n k (omega arith)

module _ {ℓ} {A : Type ℓ} (fresh : ℕ → A) where
  -- A push puts its element on top of the others, and the block keeps the room of the elements.
  pub xstack_push_lem :
      (stack : Stack A) (element : A)
      → IsWhole stack
      → IsWhole (xstack_push fresh stack element)
        × (elements (xstack_push fresh stack element) ≡ element ∷ elements stack)
  unfolding xstack_push
  xstack_push_lem stack element whole = (
    (omega (arith, whole)),
    ap₂ (◌∷◌) (ground arith) (below_ext _ _ stack.point (λ i p. ground (arith, whole))),
  )

  pop_at :
      (cells : ℕ → A) (allocated point : ℕ)
      → allocated ≡ point
      → let stack : Stack A = record { cells = cells; allocated = allocated; point = point } in
        Popped (elements stack) (xstack_pop fresh stack)
  unfolding xstack_pop
  pop_at cells allocated zero whole = refl
  pop_at cells allocated (suc n) whole =
      let some_left : (suc n == 0) ≡ false = ground arith in
      rw some_left (
        omega arith,
        ap₂ (◌∷◌) (ap cells {x = n} {y = suc n - 1} (omega arith)) (
            ap (below cells) {x = n} {y = suc n - 1} (omega arith)
            ∙ below_ext cells _ (suc n - 1) (λ i p. ground (arith, whole))),
      )

  -- A pop of an empty stack gives NULL; any other takes the top element away, and the block keeps
  -- the room of the elements.
  pub xstack_pop_lem :
      (stack : Stack A) → IsWhole stack → Popped (elements stack) (xstack_pop fresh stack)
  unfolding xstack_pop
  xstack_pop_lem stack whole = pop_at stack.cells stack.allocated stack.point whole

  -- Truncation to `n` elements, of a stack that has them, drops the elements above, and the block
  -- keeps the room of the elements.
  pub xstack_truncate_lem :
      (stack : Stack A) (n : ℕ)
      → IsWhole stack
      → n ≤ stack.point
      → IsWhole (xstack_truncate fresh stack n)
        × (elements (xstack_truncate fresh stack n) ≡ drop (stack.point - n) (elements stack))
  unfolding xstack_truncate
  xstack_truncate_lem stack n whole fits = (
    refl,
    below_ext _ stack.cells n (λ i p. ground (arith, whole))
        ∙ sym (drop-below stack.cells (stack.point - n) n)
        ∙ ap (λ m. drop (stack.point - n) (below stack.cells m)) {x = stack.point - n + n}
            {y = stack.point} (omega arith),
  )

-- The preview at an offset from 1 is the element that stands so far down the stack, and NULL where
-- there is none.
pub xstack_preview_lem {ℓ} :
    {A : Type ℓ} (stack : Stack A) (k : ℕ)
    → xstack_preview stack (suc k) ≡ elem_at (elements stack) k
unfolding xstack_preview
xstack_preview_lem stack k = elim (Bool-cases (stack.point == 0 || ltb stack.point (suc k))) [
  | inl out ↦ rw out (sym (elem_at-none stack.cells stack.point k (ground arith)))
  | inr inside ↦ rw inside (sym (elem_at-below stack.cells stack.point k (ground arith)))
]
