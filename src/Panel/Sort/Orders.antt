-- ===== src/Panel/Sort/Orders.antt =====
-- Comparisons that are orders, the order of numbers and of texts, and one order after another.
use gnu_gnuit.Prelude.{
  ℕ, ◌≡◌, refl, sym, ap, ap₂, ◌∙◌, Bool, Option, none, some, List, [], ◌∷◌, ltb, if◌then◌else◌,
  arith,
}
use gnu_gnuit.Panel.Sort.{Sign, less, same, more, strcmp}

abbrev pub flip : Sign → Sign
flip less = more
flip same = same
flip more = less

pub record IsOrder {A : Type 0} (order : A → A → Sign) : Type 0 where
  pub flips : (a b : A) → order b a ≡ flip (order a b)
  pub chain : (a b c : A) → order a b ≡ less → order b c ≡ less → order a c ≡ less
  pub swap : (a b c : A) → order a b ≡ same → order a c ≡ order b c

-- The first order, and where it does not tell, the second.
abbrev pub and_then : Sign → Sign → Sign
and_then less next = less
and_then same next = next
and_then more next = more

abbrev pub by_number : ℕ → ℕ → Sign
by_number m n = if ltb m n then less else if ltb n m then more else same

pub by_number-IsOrder : IsOrder by_number
by_number-IsOrder = record {
  flips = λ a b. ground arith;
  chain = λ a b c p q. ground arith;
  swap = λ a b c p. ground arith;
}

strcmp-flips : (a b : List ℕ) → strcmp b a ≡ flip (strcmp a b)
unfolding strcmp
strcmp-flips [] [] = refl
strcmp-flips [] (d ∷ b) = refl
strcmp-flips (c ∷ a) [] = refl
strcmp-flips (c ∷ a) (d ∷ b) = ground (arith, strcmp-flips a b)

strcmp-chain : (a b c : List ℕ) → strcmp a b ≡ less → strcmp b c ≡ less → strcmp a c ≡ less
unfolding strcmp
strcmp-chain a [] [] p q = absurd (ground (arith, q))
strcmp-chain a (d ∷ b) [] p q = absurd (ground (arith, q))
strcmp-chain [] b (e ∷ c) p q = refl
strcmp-chain (x ∷ a) [] (e ∷ c) p q = absurd (ground (arith, p))
strcmp-chain (x ∷ a) (d ∷ b) (e ∷ c) p q = ground (arith, strcmp-chain a b c)

strcmp-swap : (a b c : List ℕ) → strcmp a b ≡ same → strcmp a c ≡ strcmp b c
unfolding strcmp
strcmp-swap [] [] c p = refl
strcmp-swap [] (d ∷ b) c p = absurd (ground (arith, p))
strcmp-swap (x ∷ a) [] c p = absurd (ground (arith, p))
strcmp-swap (x ∷ a) (d ∷ b) [] p = refl
strcmp-swap (x ∷ a) (d ∷ b) (e ∷ c) p = ground (arith, strcmp-swap a b c)

pub strcmp-IsOrder : IsOrder strcmp
strcmp-IsOrder = record { flips = strcmp-flips; chain = strcmp-chain; swap = strcmp-swap }

-- What has an extension comes first.
abbrev pub by_option : Option (List ℕ) → Option (List ℕ) → Sign
by_option none none = same
by_option (some a) none = less
by_option none (some b) = more
by_option (some a) (some b) = strcmp a b

pub by_option-IsOrder : IsOrder by_option
by_option-IsOrder = record { flips = flips; chain = chain; swap = swap }
  where
    flips : (a b : Option (List ℕ)) → by_option b a ≡ flip (by_option a b)
    flips none none = refl
    flips none (some b) = refl
    flips (some a) none = refl
    flips (some a) (some b) = strcmp-flips a b

    chain :
        (a b c : Option (List ℕ))
        → by_option a b ≡ less
        → by_option b c ≡ less
        → by_option a c ≡ less
    chain none none c p q = absurd (ground (arith, p))
    chain none (some b) c p q = absurd (ground (arith, p))
    chain (some a) b none p q = refl
    chain (some a) none (some c) p q = absurd (ground (arith, q))
    chain (some a) (some b) (some c) p q = strcmp-chain a b c p q

    swap : (a b c : Option (List ℕ)) → by_option a b ≡ same → by_option a c ≡ by_option b c
    swap none none c p = refl
    swap none (some b) c p = absurd (ground (arith, p))
    swap (some a) none c p = absurd (ground (arith, p))
    swap (some a) (some b) none p = refl
    swap (some a) (some b) (some c) p = strcmp-swap a b c p

-- A directory comes before what is none.
abbrev pub by_flag : Bool → Bool → Sign
by_flag a b = if a then (if b then same else less) else if b then more else same

pub by_flag-IsOrder : IsOrder by_flag
by_flag-IsOrder = record {
  flips = λ a b. ground arith;
  chain = λ a b c p q. ground arith;
  swap = λ a b c p. ground arith;
}

-- Every two are the same.
pub same-IsOrder : {A : Type 0} → IsOrder (λ (a b : A). same)
same-IsOrder = record { flips = λ a b. refl; chain = λ a b c p q. p; swap = λ a b c p. refl }

pub key-IsOrder :
    {A B : Type 0} (order : A → A → Sign) (key : B → A)
    → IsOrder order
    → IsOrder (λ (a b : B). order (key a) (key b))
key-IsOrder order key o = record {
  flips = λ a b. o.flips (key a) (key b);
  chain = λ a b c. o.chain (key a) (key b) (key c);
  swap = λ a b c. o.swap (key a) (key b) (key c);
}

flip-and_then : (s t : Sign) → flip (and_then s t) ≡ and_then (flip s) (flip t)
flip-and_then less t = refl
flip-and_then same t = refl
flip-and_then more t = refl

swap_right :
    {A : Type 0} (order : A → A → Sign)
    → IsOrder order
    → (a b c : A) → order b c ≡ same
    → order a c ≡ order a b
swap_right order o a b c e = o.flips c a ∙ ap flip (sym (o.swap b c a e)) ∙ sym (o.flips b a)

module _ {A : Type 0} (first second : A → A → Sign) (o : IsOrder first) (p : IsOrder second) where
  and_then-less : (a c : A) → first a c ≡ less → and_then (first a c) (second a c) ≡ less
  and_then-less a c e = ap (λ s. and_then s (second a c)) e

  and_then-chain :
      (a b c : A) (s t : Sign)
      → first a b ≡ s
      → first b c ≡ t
      → and_then s (second a b) ≡ less
      → and_then t (second b c) ≡ less
      → and_then (first a c) (second a c) ≡ less
  and_then-chain a b c more t e e' h k = absurd (ground (arith, h))
  and_then-chain a b c less more e e' h k = absurd (ground (arith, k))
  and_then-chain a b c same more e e' h k = absurd (ground (arith, k))
  and_then-chain a b c less less e e' h k = and_then-less a c (o.chain a b c e e')
  and_then-chain a b c less same e e' h k = and_then-less a c (swap_right first o a b c e' ∙ e)
  and_then-chain a b c same less e e' h k = and_then-less a c (o.swap a b c e ∙ e')
  and_then-chain a b c same same e e' h k =
      ap (λ s. and_then s (second a c)) (o.swap a b c e ∙ e') ∙ p.chain a b c h k

  and_then-swap :
      (a b c : A) (s : Sign)
      → first a b ≡ s
      → and_then s (second a b) ≡ same
      → and_then (first a c) (second a c) ≡ and_then (first b c) (second b c)
  and_then-swap a b c less e h = absurd (ground (arith, h))
  and_then-swap a b c more e h = absurd (ground (arith, h))
  and_then-swap a b c same e h = ap₂ and_then (o.swap a b c e) (p.swap a b c h)

  pub and_then-IsOrder : IsOrder (λ a b. and_then (first a b) (second a b))
  and_then-IsOrder = record {
    flips = λ a b.
        ap₂ and_then (o.flips a b) (p.flips a b) ∙ sym (flip-and_then (first a b) (second a b));
    chain = λ a b c. and_then-chain a b c (first a b) (first b c) refl refl;
    swap = λ a b c. and_then-swap a b c (first a b) refl;
  }
