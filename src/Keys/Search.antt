-- ===== src/Keys/Search.antt =====
-- src/tty.c: the incremental search for a key sequence. `current_key` is the list from the node that it
-- points to, [] for NULL.
use gnu_gnuit.Prelude.{ℕ, Bool, true, false, List, [], ◌∷◌, ◌==◌, if◌then◌else◌, ◌&&◌}
use gnu_gnuit.Keys.{TtyKey, KeyList, at_most}

-- What the search returns: a node, the pointer -1, or NULL.
pub data Match {ℓ} (A : Type ℓ) : Type ℓ where
  found : TtyKey A → Match A
  no_match : Match A
  can_match : Match A

-- strcmp(a, b) == 0
unfoldable pub same_seq : List ℕ → List ℕ → Bool
same_seq [] [] = true
same_seq [] (d ∷ b) = false
same_seq (c ∷ a) [] = false
same_seq (c ∷ a) (d ∷ b) = (c == d) && same_seq a b

-- strncmp(a, b, strlen(a)) == 0
unfoldable pub is_start : List ℕ → List ℕ → Bool
is_start [] b = true
is_start (c ∷ a) [] = false
is_start (c ∷ a) (d ∷ b) = (c == d) && is_start a b

module _ {ℓ} {A : Type ℓ} where
  unfoldable pub tty_key_search_restart : KeyList A → List (TtyKey A)
  tty_key_search_restart list = list.key_list_head

  -- The loop and the test behind it: the result, and the new `current_key`.
  unfoldable pub search_loop : List ℕ → List (TtyKey A) → Match A × List (TtyKey A)
  unfolding same_seq is_start at_most
  search_loop key_seq [] = (no_match, [])
  search_loop key_seq (node ∷ nodes) =
      let rest = search_loop key_seq nodes in
      if same_seq key_seq node.key_seq
      then (found node, node ∷ nodes)
      else if at_most key_seq node.key_seq
      then (if is_start key_seq node.key_seq
          then (can_match, node ∷ nodes)
          else (no_match, node ∷ nodes))
      else rest

  unfoldable pub tty_key_search : List ℕ → List (TtyKey A) → Match A × List (TtyKey A)
  unfolding search_loop
  tty_key_search key_seq [] = (can_match, [])
  tty_key_search key_seq (node ∷ nodes) = search_loop key_seq (node ∷ nodes)
