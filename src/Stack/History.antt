-- ===== src/Stack/History.antt =====
-- src/git.c: the histories of the input line, stacks of strings.
use gnu_gnuit.Prelude.{
  ℕ, Bool, true, false, Option, none, some, List, [], ◌∷◌, ◌==◌, ◌&&◌, if◌then◌else◌,
}
use gnu_gnuit.Stack.{Stack, xstack_push, xstack_preview}

-- `wcscmp(a, b) == 0`
unfoldable pub same_text : List ℕ → List ℕ → Bool
same_text [] [] = true
same_text [] (d ∷ b) = false
same_text (c ∷ a) [] = false
same_text (c ∷ a) (d ∷ b) = (c == d) && same_text a b

-- `history_text` is what the preview gave.
unfoldable pub push_unless_same :
    (ℕ → List ℕ) → Stack (List ℕ) → List ℕ → Option (List ℕ) → Stack (List ℕ)
push_unless_same fresh history text none = xstack_push fresh history text
push_unless_same fresh history text (some history_text) =
    if same_text history_text text then history else xstack_push fresh history text

unfoldable pub il_history_add_entry : (ℕ → List ℕ) → Stack (List ℕ) → List ℕ → Stack (List ℕ)
il_history_add_entry fresh history text =
    push_unless_same fresh history text (xstack_preview history 1)

unfoldable pub il_history_view_entry : Stack (List ℕ) → ℕ → Option (List ℕ)
il_history_view_entry history offset = xstack_preview history offset
