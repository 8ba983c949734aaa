-- ===== src/Keys/Insertion.antt =====
-- The insertion of src/tty.c keeps the list of keys in order, wherever its static pointer lets it begin.
use gnu_gnuit.Prelude.{
  ℕ, zero, suc, ◌≡◌, ◌≢◌, subst, refl, sym, ap, ◌∙◌, true, false, Option, none, some, List, [], ◌∷◌,
  ◌++◌, length, arith, Bool-cases, inl, inr,
}
use gnu_gnuit.Keys.{
  at_most, empty_seq, TtyKey, KeyList, insert_before, insert_behind, at_most_node, start_of,
  tty_key_list_insert,
}
use gnu_gnuit.Keys.Order.{at_most_trans, at_most_total}

differ : true ≢ false
differ h = ground arith

module _ {ℓ} {A : Type ℓ} where
  -- Each sequence is at most the next.
  abbrev pub Before : TtyKey A → List (TtyKey A) → Type 0
  Before key [] = Unit
  Before key (node ∷ nodes) = at_most key.key_seq node.key_seq ≡ true

  abbrev pub InOrder : List (TtyKey A) → Type 0
  InOrder [] = Unit
  InOrder (node ∷ nodes) = Before node nodes × InOrder nodes

  insert_before-Before :
      (new node : TtyKey A) (nodes : List (TtyKey A))
      → at_most node.key_seq new.key_seq ≡ true
      → Before node nodes
      → Before node (insert_before new nodes).0
  unfolding insert_before
  insert_before-Before new node [] p q = p
  insert_before-Before new node (next ∷ nodes) p q =
      elim (Bool-cases (at_most new.key_seq next.key_seq)) [
        | inl before ↦ rw (before, Before) p
        | inr behind ↦ rw (behind, Before) q
      ]

  insert_before-InOrder :
      (new : TtyKey A) (nodes : List (TtyKey A))
      → InOrder nodes
      → InOrder (insert_before new nodes).0
  unfolding insert_before
  insert_before-InOrder new [] s = (tt, tt)
  insert_before-InOrder new (node ∷ nodes) s =
      elim (Bool-cases (at_most new.key_seq node.key_seq)) [
        | inl before ↦ rw (before, InOrder) (before, s)
        | inr behind ↦
            rw (behind, InOrder)
              (
                insert_before-Before new node nodes (at_most_total new.key_seq node.key_seq behind)
                    s.0,
                insert_before-InOrder new nodes s.1,
              )
      ]

  -- What is at most the head of an ordered list is at most every node of it.
  ahead :
      (new node : TtyKey A) (n : ℕ) (nodes : List (TtyKey A))
      → InOrder (node ∷ nodes)
      → at_most new.key_seq node.key_seq ≡ true
      → at_most_node new n (node ∷ nodes) ≡ true
  unfolding at_most_node
  ahead new node zero nodes s p = p
  ahead new node (suc n) [] s p = refl
  ahead new node (suc n) (next ∷ nodes) s p =
      ahead new next n nodes s.1 (at_most_trans new.key_seq node.key_seq next.key_seq p s.0)

  behind_head :
      (new node : TtyKey A) (n : ℕ) (nodes : List (TtyKey A))
      → InOrder (node ∷ nodes)
      → at_most_node new n (node ∷ nodes) ≡ false
      → at_most new.key_seq node.key_seq ≡ false
  behind_head new node n nodes s h = elim (Bool-cases (at_most new.key_seq node.key_seq)) [
    | inl before ↦ absurd (differ (sym (ahead new node n nodes s before) ∙ h))
    | inr behind ↦ behind
  ]

  -- From there the loop does what it does from the head.
  insert_behind-skips :
      (new : TtyKey A) (n : ℕ) (nodes : List (TtyKey A))
      → InOrder nodes
      → at_most_node new n nodes ≡ false
      → insert_behind new n nodes ≡ insert_before new nodes
  unfolding insert_behind insert_before at_most_node
  insert_behind-skips new zero nodes s h = refl
  insert_behind-skips new (suc n) [] s h = refl
  insert_behind-skips new (suc n) (node ∷ nodes) s h =
      rw (behind_head new node (suc n) nodes s h)
        (ap (λ r. (node ∷ r.0, suc r.1)) (insert_behind-skips new n nodes s.1 h))

  insert_from_start :
      (new : TtyKey A) (list : KeyList A)
      → InOrder list.key_list_head
      → insert_behind new (start_of new list) list.key_list_head
        ≡ insert_before new list.key_list_head
  unfolding start_of insert_behind
  insert_from_start new list s = from list.key refl
    where
      from :
          (key : Option ℕ)
          → list.key ≡ key
          → insert_behind new (start_of new list) list.key_list_head
            ≡ insert_before new list.key_list_head
      from none e = rw e refl
      from (some n) e = elim (Bool-cases (at_most_node new n list.key_list_head)) [
        | inl before ↦ rw (e, before) refl
        | inr behind ↦ rw (e, behind) (insert_behind-skips new n list.key_list_head s behind)
      ]

  inserted :
      (new : TtyKey A) (list : KeyList A) (c : ℕ) (text : List ℕ)
      → new.key_seq ≡ c ∷ text
      → InOrder list.key_list_head
      → tty_key_list_insert new list ≡ (record {
        key_list_head = (insert_before new list.key_list_head).0;
        key = some (insert_before new list.key_list_head).1;
      })
  unfolding tty_key_list_insert empty_seq
  inserted new list c text e s =
      let some_seq : empty_seq new.key_seq ≡ false = ap empty_seq e in
      rw some_seq (
        ap
          (λ (r : List (TtyKey A) × ℕ).
            let made : KeyList A = record { key_list_head = r.0; key = some r.1 } in made)
          (insert_from_start new list s))

  -- The keys before the place of the new one, and those behind it.
  pub record Split (new : TtyKey A) (old made : List (TtyKey A)) (place : ℕ) : Type ℓ where
    pub before : List (TtyKey A)
    pub behind : List (TtyKey A)
    pub all : old ≡ before ++ behind
    pub inserted_between : made ≡ before ++ new ∷ behind
    pub place_before : length before ≡ place

  insert_before-Split :
      (new : TtyKey A) (nodes : List (TtyKey A))
      → Split new nodes (insert_before new nodes).0 (insert_before new nodes).1
  unfolding insert_before
  insert_before-Split new [] = record {
    before = [];
    behind = [];
    all = refl;
    inserted_between = refl;
    place_before = refl;
  }
  insert_before-Split new (node ∷ nodes) = elim (Bool-cases (at_most new.key_seq node.key_seq)) [
    | inl first ↦ rw first (record {
      before = [];
      behind = node ∷ nodes;
      all = refl;
      inserted_between = refl;
      place_before = refl;
    })
    | inr later ↦
        let s = insert_before-Split new nodes in
        rw later (record {
          before = node ∷ s.before;
          behind = s.behind;
          all = ap (node ∷◌) s.all;
          inserted_between = ap (node ∷◌) s.inserted_between;
          place_before = ap suc s.place_before;
        })
  ]

  -- Into an ordered list, tty_key_list_insert puts a key whose sequence is not empty: the list is
  -- the old one, all of it, with the new key put in at one place, where the static pointer is then;
  -- it stays ordered; and it is the one that a loop from its head gives, whatever the pointer was.
  pub tty_key_list_insert_lem :
      (new : TtyKey A) (list : KeyList A) (c : ℕ) (text : List ℕ)
      → new.key_seq ≡ c ∷ text
      → InOrder list.key_list_head
      → let list' = tty_key_list_insert new list in
        InOrder list'.key_list_head
        × ((place : ℕ) × (list'.key ≡ some place)
            × Split new list.key_list_head list'.key_list_head place)
        × (list'.key_list_head
            ≡ (tty_key_list_insert new (record list { key = none })).key_list_head)
  tty_key_list_insert_lem new list c text e s =
      let here = inserted new list c text e s in
      let from_head = inserted new (record list { key = none }) c text e s in
      (
        subst (λ (l : KeyList A). InOrder l.key_list_head) (sym here)
            (insert_before-InOrder new list.key_list_head s),
        subst
            (λ (l : KeyList A).
              (place : ℕ) × (l.key ≡ some place)
              × Split new list.key_list_head l.key_list_head place)
            (sym here)
            (
              (insert_before new list.key_list_head).1,
              refl,
              insert_before-Split new list.key_list_head,
            ),
        ap (λ (l : KeyList A). l.key_list_head) (here ∙ sym from_head),
      )
