-- ===== src/Keys.antt =====
-- src/tty.c: the list of key sequences, in the order of strcmp, and the incremental search in it.
-- `A` is what a sequence is bound to. A sequence is the text before its NUL.
pub mod Order
pub mod Insertion
pub mod Reading
pub mod ReadingLaws
pub mod Search
pub mod SearchLaws
pub mod Tests
use gnu_gnuit.Prelude.{
  ℕ, zero, suc, Bool, true, false, Option, none, some, List, [], ◌∷◌, ◌==◌, ltb, if◌then◌else◌,
}

-- strcmp(a, b) <= 0
unfoldable pub at_most : List ℕ → List ℕ → Bool
at_most [] b = true
at_most (c ∷ a) [] = false
at_most (c ∷ a) (d ∷ b) =
    let rest = at_most a b in if ltb c d then true else if c == d then rest else false

-- `*key_seq == 0`
unfoldable pub empty_seq : List ℕ → Bool
empty_seq [] = true
empty_seq (c ∷ text) = false

pub record TtyKey {ℓ} (A : Type ℓ) : Type ℓ where
  pub key_seq : List ℕ
  pub aux_data : A

-- The list, and the static pointer `key` of `tty_key_list_insert`, which is the address of the link
-- behind so many nodes; `none` is NULL.
pub record KeyList {ℓ} (A : Type ℓ) : Type ℓ where
  pub key_list_head : List (TtyKey A)
  pub key : Option ℕ

module _ {ℓ} {A : Type ℓ} (new_key : TtyKey A) where
  -- The loop from the head of `nodes`, with the new key put in where it ends; and how many nodes it
  -- went over.
  unfoldable pub insert_before : List (TtyKey A) → List (TtyKey A) × ℕ
  insert_before [] = (new_key ∷ [], 0)
  insert_before (node ∷ nodes) =
      let rest = insert_before nodes in
      if at_most new_key.key_seq node.key_seq
      then (new_key ∷ node ∷ nodes, 0)
      else (node ∷ rest.0, suc rest.1)

  -- The loop from the link behind `n` nodes.
  unfoldable pub insert_behind : ℕ → List (TtyKey A) → List (TtyKey A) × ℕ
  unfolding insert_before
  insert_behind zero nodes = insert_before nodes
  insert_behind (suc n) [] = insert_before []
  insert_behind (suc n) (node ∷ nodes) =
      let rest = insert_behind n nodes in (node ∷ rest.0, suc rest.1)

  -- `strcmp(key_seq, (*key)->key_seq) <= 0`, at the link behind `n` nodes. The pointer is
  -- at a node whenever it is not NULL, since it is set where a node has just come in.
  unfoldable pub at_most_node : ℕ → List (TtyKey A) → Bool
  unfolding at_most
  at_most_node n [] = true
  at_most_node zero (node ∷ nodes) = at_most new_key.key_seq node.key_seq
  at_most_node (suc n) (node ∷ nodes) = at_most_node n nodes

  -- Where the loop begins.
  unfoldable pub start_of : KeyList A → ℕ
  unfolding at_most_node
  start_of list = elim list.key [
    | none ↦ 0
    | some n ↦ if at_most_node n list.key_list_head then 0 else n
  ]

  unfoldable pub tty_key_list_insert : KeyList A → KeyList A
  unfolding insert_behind start_of
  tty_key_list_insert list =
      let inserted = insert_behind (start_of list) list.key_list_head in
      if empty_seq new_key.key_seq
      then list
      else record { key_list_head = inserted.0; key = some inserted.1 }
