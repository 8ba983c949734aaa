-- ===== src/Keys/SearchLaws.antt =====
-- The search of src/tty.c in an ordered list, against the list as a set of bindings.
use gnu_gnuit.Prelude.{
  ℕ, ◌≡◌, ◌≢◌, refl, sym, subst, Option, none, some, ◌∙◌, Bool, true, false, List, [], ◌∷◌, ◌||◌,
  if◌then◌else◌, Bool-cases, inl, inr, arith,
}
use gnu_gnuit.Keys.{TtyKey, KeyList, at_most}
use gnu_gnuit.Keys.Order.{at_most_trans}
use gnu_gnuit.Keys.Insertion.{InOrder}
use gnu_gnuit.Keys.Search.{
  Match, found, no_match, can_match, same_seq, is_start, search_loop, tty_key_search,
  tty_key_search_restart,
}

same_at_most : (a b : List ℕ) → same_seq a b ≡ true → at_most b a ≡ true
unfolding same_seq at_most
same_at_most [] [] h = refl
same_at_most [] (d ∷ b) h = absurd (ground arith)
same_at_most (c ∷ a) [] h = refl
same_at_most (c ∷ a) (d ∷ b) h = ground (arith, same_at_most a b)

-- What stands between a text and a longer one that begins with it begins with it.
start_between :
    (a b c : List ℕ)
    → at_most a b ≡ true
    → at_most b c ≡ true
    → is_start a c ≡ true
    → is_start a b ≡ true
unfolding at_most is_start
start_between [] b c p q h = refl
start_between (x ∷ a) [] c p q h = absurd (ground arith)
start_between (x ∷ a) (y ∷ b) [] p q h = absurd (ground arith)
start_between (x ∷ a) (y ∷ b) (z ∷ c) p q h = ground (arith, start_between a b c)

pub same_start : (a b : List ℕ) → same_seq a b ≡ true → is_start a b ≡ true
unfolding same_seq is_start
same_start [] b h = refl
same_start (c ∷ a) [] h = absurd (ground arith)
same_start (c ∷ a) (d ∷ b) h = ground (arith, same_start a b)

pub start_at_most : (a b : List ℕ) → is_start a b ≡ true → at_most a b ≡ true
unfolding at_most is_start
start_at_most [] b h = refl
start_at_most (c ∷ a) [] h = absurd (ground arith)
start_at_most (c ∷ a) (d ∷ b) h = ground (arith, start_at_most a b)

at_most_antisym : (a b : List ℕ) → at_most a b ≡ true → at_most b a ≡ true → same_seq a b ≡ true
unfolding at_most same_seq
at_most_antisym [] [] p q = refl
at_most_antisym [] (d ∷ b) p q = absurd (ground arith)
at_most_antisym (c ∷ a) [] p q = absurd (ground arith)
at_most_antisym (c ∷ a) (d ∷ b) p q = ground (arith, at_most_antisym a b)

differ : true ≢ false
differ h = ground arith

module _ {ℓ} {A : Type ℓ} where
  -- The answer that the bindings, as a set, call for: the first with the sequence; without one,
  -- whether some sequence begins with it.
  abbrev pub some_start : List ℕ → List (TtyKey A) → Bool
  some_start key_seq [] = false
  some_start key_seq (node ∷ nodes) = is_start key_seq node.key_seq || some_start key_seq nodes

  abbrev pub first_same : List ℕ → List (TtyKey A) → Option (TtyKey A)
  first_same key_seq [] = none
  first_same key_seq (node ∷ nodes) =
      if same_seq key_seq node.key_seq then some node else first_same key_seq nodes

  abbrev pub answer : Option (TtyKey A) → Bool → Match A
  answer (some node) start = found node
  answer none true = can_match
  answer none false = no_match

  none_later :
      (key_seq : List ℕ) (node : TtyKey A) (nodes : List (TtyKey A))
      → InOrder (node ∷ nodes)
      → at_most key_seq node.key_seq ≡ true
      → same_seq key_seq node.key_seq ≡ false
      → first_same key_seq nodes ≡ none
  none_later key_seq node [] s p q = refl
  none_later key_seq node (next ∷ nodes) s p q =
      let p' = at_most_trans key_seq node.key_seq next.key_seq p s.0 in
      elim (Bool-cases (same_seq key_seq next.key_seq)) [
        | inl same ↦ absurd (
            differ (
              sym (
                at_most_antisym key_seq node.key_seq p (
                  at_most_trans node.key_seq next.key_seq key_seq s.0
                    (same_at_most key_seq next.key_seq same)))
              ∙ q))
        | inr other ↦ rw (other, first_same) (none_later key_seq next nodes s.1 p' other)
      ]

  no_start_later :
      (key_seq : List ℕ) (node : TtyKey A) (nodes : List (TtyKey A))
      → InOrder (node ∷ nodes)
      → at_most key_seq node.key_seq ≡ true
      → is_start key_seq node.key_seq ≡ false
      → some_start key_seq nodes ≡ false
  no_start_later key_seq node [] s p q = refl
  no_start_later key_seq node (next ∷ nodes) s p q =
      let p' = at_most_trans key_seq node.key_seq next.key_seq p s.0 in
      elim (Bool-cases (is_start key_seq next.key_seq)) [
        | inl start ↦
            absurd (differ (sym (start_between key_seq node.key_seq next.key_seq p s.0 start) ∙ q))
        | inr other ↦ rw (other, some_start) (no_start_later key_seq next nodes s.1 p' other)
      ]

  pub search_loop_lem :
      (key_seq : List ℕ) (nodes : List (TtyKey A))
      → InOrder nodes
      → (search_loop key_seq nodes).0 ≡ answer (first_same key_seq nodes) (some_start key_seq nodes)
  unfolding search_loop
  search_loop_lem key_seq [] s = refl
  search_loop_lem key_seq (node ∷ nodes) s = elim (Bool-cases (same_seq key_seq node.key_seq)) [
    | inl same ↦ rw (same, first_same) refl
    | inr other ↦ elim (Bool-cases (at_most key_seq node.key_seq)) [
      | inl before ↦ elim (Bool-cases (is_start key_seq node.key_seq)) [
        | inl start ↦
            rw
              (
                other,
                before,
                start,
                first_same,
                some_start,
                none_later key_seq node nodes s before other,
              )
              refl
        | inr apart ↦
            rw
              (
                other,
                before,
                apart,
                first_same,
                some_start,
                none_later key_seq node nodes s before other,
                no_start_later key_seq node nodes s before apart,
              )
              refl
      ]
      | inr behind ↦ elim (Bool-cases (is_start key_seq node.key_seq)) [
        | inl start ↦ absurd (differ (sym (start_at_most key_seq node.key_seq start) ∙ behind))
        | inr apart ↦
            rw (other, behind, apart, first_same, some_start) (search_loop_lem key_seq nodes s.1)
      ]
    ]
  ]

  -- From the head of an ordered list that is not empty, the search finds the first node with the
  -- sequence; where there is none, it says whether some sequence of the list begins with it.
  pub tty_key_search_lem :
      (key_seq : List ℕ) (list : KeyList A) (node : TtyKey A) (nodes : List (TtyKey A))
      → list.key_list_head ≡ node ∷ nodes
      → InOrder list.key_list_head
      → (tty_key_search key_seq (tty_key_search_restart list)).0
        ≡ answer (first_same key_seq list.key_list_head) (some_start key_seq list.key_list_head)
  unfolding tty_key_search tty_key_search_restart
  tty_key_search_lem key_seq list node nodes e s =
      rw e (search_loop_lem key_seq (node ∷ nodes) (subst InOrder e s))
