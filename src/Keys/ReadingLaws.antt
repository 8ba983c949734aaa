-- ===== src/Keys/ReadingLaws.antt =====
-- `tty_get_key` of src/tty.c goes on with a search where the last one stopped, and finds what a search
-- of the whole list finds.
use gnu_gnuit.Prelude.{
  ℕ, zero, suc, ◌≡◌, refl, sym, ap, ◌∙◌, Bool, false, Bool-cases, inl, inr, Option, none, some,
  List, [], ◌∷◌, ◌++◌, ◌==◌, ◌&&◌, ◌||◌, if◌then◌else◌, arith,
}
use gnu_gnuit.Keys.{TtyKey, KeyList, at_most}
use gnu_gnuit.Keys.Insertion.{InOrder}
use gnu_gnuit.Keys.Search.{
  Match, found, no_match, can_match, same_seq, search_loop, tty_key_search, tty_key_search_restart,
}
use gnu_gnuit.Keys.SearchLaws.{
  some_start, first_same, answer, same_start, start_at_most, search_loop_lem,
}
use gnu_gnuit.Keys.Reading.{
  Terminal, Pressed, typed, invalid, not_nul, after_search, with_next, wait_key, key_loop,
  start_key, tty_get_key, entered, key_interrupt, max_key_length,
}

at_most_longer : (a b c : List ℕ) → at_most a c ≡ false → at_most (a ++ b) c ≡ false
unfolding at_most
at_most_longer [] b c h = absurd (ground (arith, h))
at_most_longer (x ∷ a) b [] h = refl
at_most_longer (x ∷ a) b (y ∷ c) h = ground (arith, at_most_longer a b c, h)

same_later : (a c : List ℕ) → at_most a c ≡ false → same_seq a c ≡ false
same_later a c h = elim (Bool-cases (same_seq a c)) [
  | inr other ↦ other
  | inl same ↦ absurd (ground (arith, start_at_most a c (same_start a c same), h))
]

module _ {ℓ} {A : Type ℓ} where
  -- After an unfinished match there are nodes left, and a longer sequence is found from there as from
  -- the first.
  record Resumes (key_seq : List ℕ) (nodes left : List (TtyKey A)) : Type ℓ where
    head : TtyKey A
    tail : List (TtyKey A)
    is : left ≡ head ∷ tail
    on : (more : List ℕ) → search_loop (key_seq ++ more) left ≡ search_loop (key_seq ++ more) nodes

  search_loop-later :
      (key_seq : List ℕ) (node : TtyKey A) (nodes : List (TtyKey A))
      → at_most key_seq node.key_seq ≡ false
      → search_loop key_seq (node ∷ nodes) ≡ search_loop key_seq nodes
  unfolding search_loop
  search_loop-later key_seq node nodes h = rw (same_later key_seq node.key_seq h, h) refl

  search_loop-Resumes :
      (key_seq : List ℕ) (nodes : List (TtyKey A))
      → (search_loop key_seq nodes).0 ≡ can_match
      → Resumes key_seq nodes (search_loop key_seq nodes).1
  unfolding search_loop
  search_loop-Resumes key_seq [] h = absurd (cc h)
  search_loop-Resumes key_seq (node ∷ nodes) h = elim (Bool-cases (at_most key_seq node.key_seq)) [
    | inr behind ↦
        let rest =
          search_loop-Resumes key_seq nodes
            (ap (λ r. r.0) (sym (search_loop-later key_seq node nodes behind)) ∙ h) in
        record {
          head = rest.head;
          tail = rest.tail;
          is = ap (λ r. r.1) (search_loop-later key_seq node nodes behind) ∙ rest.is;
          on = λ more.
              ap (λ r. search_loop (key_seq ++ more) r.1)
                (search_loop-later key_seq node nodes behind)
              ∙ rest.on more
              ∙ sym (
                  search_loop-later (key_seq ++ more) node nodes
                    (at_most_longer key_seq more node.key_seq behind));
        }
    | inl before ↦
        let stays : (search_loop key_seq (node ∷ nodes)).1 ≡ node ∷ nodes =
          ground (arith, before, h) in
        record {
          head = node;
          tail = nodes;
          is = stays;
          on = λ more. ap (search_loop (key_seq ++ more)) stays;
        }
  ]

module _ {ℓ} {A : Type ℓ} (counted : Bool) where
  -- The loop that looks at all the nodes each time.
  abbrev pub after_answer : List ℕ → Terminal → Pressed A → Match A → Pressed A
  after_answer key_seq tty on match = after_search counted key_seq tty (λ nodes. on) (match, [])

  abbrev pub whole_loop : ℕ → List ℕ → List (TtyKey A) → ℕ → Terminal → Pressed A
  whole_loop zero key_seq nodes c tty = invalid tty
  whole_loop (suc n) key_seq nodes c tty =
      let key_seq' = key_seq ++ not_nul c ∷ [] in
      after_answer key_seq' tty (with_next (whole_loop n key_seq' nodes) (wait_key tty))
        (answer (first_same key_seq' nodes) (some_start key_seq' nodes))

  with_next_ext :
      (on on' : ℕ → Terminal → Pressed A) (key : Option (ℕ × Terminal))
      → ((c : ℕ) (tty : Terminal) → on c tty ≡ on' c tty)
      → with_next on key ≡ with_next on' key
  unfolding with_next
  with_next_ext on on' none h = refl
  with_next_ext on on' (some (c, tty)) h = h c tty

  after_search_lem :
      (key_seq : List ℕ) (tty : Terminal) (on : List (TtyKey A) → Pressed A) (on' : Pressed A)
      (nodes : List (TtyKey A)) (result : Match A × List (TtyKey A))
      → (result.0 ≡ can_match → Resumes key_seq nodes result.1)
      → ((left : List (TtyKey A)) → Resumes key_seq nodes left → on left ≡ on')
      → after_search counted key_seq tty on result ≡ after_answer key_seq tty on' result.0
  unfolding after_search
  after_search_lem key_seq tty on on' nodes (found key, left) r h = refl
  after_search_lem key_seq tty on on' nodes (no_match, left) r h = refl
  after_search_lem key_seq tty on on' nodes (can_match, left) r h = h left (r refl)

  tty_key_search-Resumes :
      (key_seq : List ℕ) (more : List ℕ) (nodes left : List (TtyKey A))
      → Resumes key_seq nodes left
      → tty_key_search (key_seq ++ more) left ≡ search_loop (key_seq ++ more) nodes
  unfolding tty_key_search
  tty_key_search-Resumes key_seq more nodes [] r = absurd (cc r.is)
  tty_key_search-Resumes key_seq more nodes (node ∷ left) r = r.on more

  key_loop_lem :
      (n : ℕ) (key_seq : List ℕ) (nodes left : List (TtyKey A)) (c : ℕ) (tty : Terminal)
      → InOrder nodes
      → Resumes key_seq nodes left
      → key_loop counted n key_seq left c tty ≡ whole_loop n key_seq nodes c tty
  unfolding key_loop
  key_loop_lem zero key_seq nodes left c tty s r = refl
  key_loop_lem (suc n) key_seq nodes left c tty s r =
      let key_seq' = key_seq ++ not_nul c ∷ [] in
      let on =
        λ (left' : List (TtyKey A)). with_next (key_loop counted n key_seq' left') (wait_key tty) in
      let on' = with_next (whole_loop n key_seq' nodes) (wait_key tty) in
      ap (after_search counted key_seq' tty on)
        (tty_key_search-Resumes key_seq (not_nul c ∷ []) nodes left r)
      ∙ after_search_lem key_seq' tty on on' nodes (search_loop key_seq' nodes)
          (search_loop-Resumes key_seq' nodes)
          (λ left' r'.
            with_next_ext (key_loop counted n key_seq' left') (whole_loop n key_seq' nodes)
              (wait_key tty) (λ c' tty'. key_loop_lem n key_seq' nodes left' c' tty' s r'))
      ∙ ap (after_answer key_seq' tty on') (search_loop_lem key_seq' nodes s)

-- What is pressed, read off the list as a set of bindings: the characters are added up to a sequence
-- until it is one of the list or begins none.
module _ {ℓ} {A : Type ℓ} (counted restricted : Bool) (isprint : ℕ → Bool) where
  abbrev pub whole_start : List (TtyKey A) → ℕ → Terminal → Pressed A
  whole_start nodes c tty =
      let c' = if restricted then entered (not_nul c) else not_nul c in
      if restricted && (isprint c' || c' == key_interrupt)
      then typed c' tty
      else whole_loop counted max_key_length [] nodes c' tty

  -- Of an ordered list of keys that is not empty, `tty_get_key` gives what it would give if it looked
  -- the sequence up among all the keys after each character: the first node with the sequence typed, as
  -- soon as there is one, with its repeat count where the caller asks for it; NULL as soon as no key begins with the sequence, or
  -- after 15 characters; and it goes on reading as long as some key begins with it.
  pub tty_get_key_lem :
      (list : KeyList A) (node : TtyKey A) (nodes : List (TtyKey A)) (tty : Terminal)
      → list.key_list_head ≡ node ∷ nodes
      → InOrder list.key_list_head
      → tty_get_key counted restricted isprint list tty
        ≡ with_next (whole_start list.key_list_head) (wait_key tty)
  unfolding tty_get_key start_key tty_key_search_restart
  tty_get_key_lem list node nodes tty e s =
      with_next_ext counted (start_key counted restricted isprint list.key_list_head)
        (whole_start list.key_list_head) (wait_key tty)
        (λ c tty'.
          ap
            (λ loop.
              let c' = if restricted then entered (not_nul c) else not_nul c in
              if restricted && (isprint c' || c' == key_interrupt) then typed c' tty' else loop)
            (key_loop_lem counted max_key_length [] list.key_list_head list.key_list_head
              (if restricted then entered (not_nul c) else not_nul c) tty' s
              (record { head = node; tail = nodes; is = e; on = λ more. refl })))
