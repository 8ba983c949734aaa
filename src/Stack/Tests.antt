-- ===== src/Stack/Tests.antt =====
-- The theorems on stacks and histories, applied to a stack of two.
use gnu_gnuit.Prelude.{ℕ, ◌+◌, suc, ◌-◌, ◌≡◌, refl, ◌∷◌, drop, arith}
use gnu_gnuit.Stack.{Stack, xstack_push, xstack_pop, xstack_truncate, xstack_preview}
use gnu_gnuit.Stack.Elements.{IsWhole, elements, elem_at, Popped}
use gnu_gnuit.Stack.Refinement.{xstack_refines}

abbrev two : Stack ℕ
two = record { cells = λ i. i + 5; allocated = 2; point = 2 }

xstack_refines_example :
    (IsWhole (xstack_push (λ i. 0) two 9)
      × (elements (xstack_push (λ i. 0) two 9) ≡ 9 ∷ elements two))
    × Popped (elements two) (xstack_pop (λ i. 0) two)
    × (IsWhole (xstack_truncate (λ i. 0) two 1)
        × (elements (xstack_truncate (λ i. 0) two 1) ≡ drop (2 - 1) (elements two)))
    × (xstack_preview two (suc 1) ≡ elem_at (elements two) 1)
xstack_refines_example = xstack_refines (λ i. 0) two 9 1 1 refl (omega arith)
