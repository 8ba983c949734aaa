-- ===== src/Stack/Refinement.antt =====
-- The operations of src/xstack.c against a stack that is a list.
use gnu_gnuit.Prelude.{ℕ, suc, ◌-◌, ◌≤◌, ◌≡◌, ◌∷◌, drop}
use gnu_gnuit.Stack.{Stack, xstack_push, xstack_pop, xstack_truncate, xstack_preview}
use gnu_gnuit.Stack.Elements.{
  IsWhole, elements, elem_at, Popped, xstack_push_lem, xstack_pop_lem, xstack_truncate_lem,
  xstack_preview_lem,
}

-- On a stack whose block has exactly the room of its elements: a push puts its element on top of
-- them; a pop gives NULL when there are none and otherwise takes the top one away; truncation to at
-- most as many as there are drops those above; a preview at an offset from 1 is the element that
-- far down, NULL where there is none. Each leaves a block with exactly the room of the elements.
pub xstack_refines {ℓ} :
    {A : Type ℓ} (fresh : ℕ → A) (stack : Stack A) (element : A) (n k : ℕ)
    → IsWhole stack
    → n ≤ stack.point
    → (IsWhole (xstack_push fresh stack element)
        × (elements (xstack_push fresh stack element) ≡ element ∷ elements stack))
      × Popped (elements stack) (xstack_pop fresh stack)
      × (IsWhole (xstack_truncate fresh stack n)
          × (elements (xstack_truncate fresh stack n) ≡ drop (stack.point - n) (elements stack)))
      × (xstack_preview stack (suc k) ≡ elem_at (elements stack) k)
xstack_refines fresh stack element n k whole fits = (
  xstack_push_lem fresh stack element whole,
  xstack_pop_lem fresh stack whole,
  xstack_truncate_lem fresh stack n whole fits,
  xstack_preview_lem stack k,
)
