-- ===== src/Stack.antt =====
-- src/xstack.c: a stack in a block that is reallocated at every push and pop. An element's bytes are
-- one value of the type `A`, so `esize` is 1 here; `fresh` is what reallocation adds.
pub mod Elements
pub mod History
pub mod HistoryLaws
pub mod Refinement
pub mod Tests
use gnu_gnuit.Prelude.{
  ℕ, suc, ◌+◌, ◌-◌, Bool, Option, none, some, ltb, ◌==◌, ◌||◌, if◌then◌else◌, min,
}

pub record Stack {ℓ} (A : Type ℓ) : Type ℓ where
  pub cells : ℕ → A
  pub allocated : ℕ
  pub point : ℕ

module _ {ℓ} {A : Type ℓ} (fresh : ℕ → A) where
  unfoldable pub xstack_init : Stack A
  xstack_init = record { cells = fresh; allocated = 0; point = 0 }

  -- `stack->element = xrealloc(stack->element, n * stack->esize)`
  unfoldable pub xrealloc : Stack A → ℕ → Stack A
  xrealloc stack n = record stack {
    cells = λ i. if ltb i (min stack.allocated n) then stack.cells i else fresh i;
    allocated = n;
  }

  unfoldable pub xstack_push : Stack A → A → Stack A
  unfolding xrealloc
  xstack_push stack element =
      let stack' = xrealloc (record stack { point = suc stack.point }) (suc stack.point) in
      record stack' { cells = λ i. if i == stack'.point - 1 then element else stack'.cells i }

  -- `none` is the NULL of an empty stack.
  unfoldable pub xstack_pop : Stack A → Option (A × Stack A)
  unfolding xrealloc
  xstack_pop stack =
      let point = stack.point - 1 in
      if stack.point == 0
      then none
      else some (stack.cells point, xrealloc (record stack { point = point }) point)

  unfoldable pub xstack_truncate : Stack A → ℕ → Stack A
  unfolding xrealloc
  xstack_truncate stack point = xrealloc (record stack { point = point }) point

module _ {ℓ} {A : Type ℓ} where
  -- For an offset that is not negative.
  unfoldable pub xstack_preview : Stack A → ℕ → Option A
  xstack_preview stack offset =
      if stack.point == 0 || ltb stack.point offset
      then none
      else some (stack.cells (stack.point - offset))

  unfoldable pub xstack_point : Stack A → ℕ
  xstack_point stack = stack.point
