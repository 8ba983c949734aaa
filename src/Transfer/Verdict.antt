-- ===== src/Transfer/Verdict.antt =====
-- What src/panel.c says of two files whose reads give all that they are asked for.
use gnu_gnuit.Prelude.{
  ℕ, zero, suc, ◌+◌, ◌-◌, ◌≤◌, ◌<◌, ◌≡◌, ◌≢◌, ◌⊎◌, refl, sym, ap, ap₂, ◌∙◌, subst, Bool-cases, inl,
  inr, true, false, Option, some, List, ◌==◌, ◌&&◌, length, length-take, length-drop, take, drop,
  min, arith,
}
use gnu_gnuit.Transfer.Compare.{
  Turn, Result, offset, same_bytes, File, final_size, Step, compare_bytes, compare_loop, Verdict,
  says_prefix, verdict,
}
use gnu_gnuit.Transfer.CompareLaws.{
  Full, after, Compared, ends, parts, agrees, compare_loop-after, compare_bytes-Compared,
  same_bytes-drop, same_bytes-le,
}

-- What a comparison should say, by where the files begin to differ and by their lengths.
abbrev pub should_say : List ℕ → List ℕ → Verdict
should_say a b = verdict (offset (same_bytes a b) (length a) (length b))

-- The result is that of two files with `n` bytes more at their beginnings.
pub data Judged (n : ℕ) (a b : List ℕ) : Option Result → Type 0 where
  judged :
      (result : Result)
      → verdict result ≡ verdict (offset (n + same_bytes a b) (n + length a) (n + length b))
      → Judged n a b (some result)

verdict-prefix : (n t o : ℕ) → n ≡ min t o → t ≢ o → verdict (offset n t o) ≡ says_prefix
unfolding verdict
verdict-prefix n t o h differ =
    let no : (n == t && t == o) ≡ false = ground (arith, differ) in
    let prefix : (n == min t o) ≡ true = ground (arith, h) in simp (no, prefix) refl

-- Nothing is left of one of the files: how much was read of the other does not matter.
verdict-ends :
    (size n la lb : ℕ)
    → 0 < size
    → (la ≡ 0) ⊎ (lb ≡ 0)
    → verdict (offset n (n + min size la) (n + min size lb)) ≡ verdict (offset n (n + la) (n + lb))
verdict-ends size n la lb room ended = elim (Bool-cases (la == lb)) [
  | inl same ↦
      let t : min size la ≡ la = ground (arith, same, ended) in
      let o : min size lb ≡ lb = ground (arith, same, ended) in
      ap₂ (λ t o. verdict (offset n (n + t) (n + o))) t o
  | inr differ ↦
      verdict-prefix n (n + min size la) (n + min size lb) (omega (arith, ended))
        (λ h. absurd (ground (arith, h, differ, ended, room)))
      ∙ sym (
          verdict-prefix n (n + la) (n + lb) (omega (arith, ended))
            (λ h. absurd (ground (arith, h, differ))))
]

Judged-step :
    (n m : ℕ) (a b : List ℕ) (r : Option Result)
    → m ≤ same_bytes a b
    → Judged (n + m) (drop m a) (drop m b) r
    → Judged n a b r
Judged-step n m a b _ h (judged result e) =
    let inside = same_bytes-le a b in
    let s : n + m + same_bytes (drop m a) (drop m b) ≡ n + same_bytes a b =
      omega (arith, same_bytes-drop m a b h) in
    let t : n + m + length (drop m a) ≡ n + length a = omega (arith, length-drop m a, h, inside) in
    let o : n + m + length (drop m b) ≡ n + length b = omega (arith, length-drop m b, h, inside) in
    judged result (
      e
      ∙ ap (λ s. verdict (offset s (n + m + length (drop m a)) (n + m + length (drop m b)))) s
      ∙ ap₂ (λ t o. verdict (offset (n + same_bytes a b) t o)) t o)

module _ (this other : File) (turns : ℕ → Turn) (size : ℕ) (full : (i : ℕ) → Full size (turns i))
    (room : 0 < size) where
  -- Where nothing is left of one of the files, the loop ends.
  compare_loop-ends :
      (fuel turn n this_size other_size : ℕ) (a b : List ℕ)
      → (length a ≡ 0) ⊎ (length b ≡ 0)
      → compare_loop this other turns size (suc fuel) turn n this_size other_size a b
        ≡ some (offset n (this_size + length (take size a)) (other_size + length (take size b)))
  compare_loop-ends fuel turn n this_size other_size a b ended =
      compare_loop-after this other turns size full fuel turn n this_size other_size a b
      ∙ go (compare_bytes (take size a) (take size b)) (compare_bytes-Compared size room a b)
    where
      go :
          (s : Step)
          → Compared size a b s
          → after this other turns size full fuel turn n this_size other_size a b s
            ≡ some (offset n (this_size + length (take size a)) (other_size + length (take size b)))
      go _ (ends e) = refl
      go _ (parts less) = absurd (omega (arith, less, ended))
      go _ (agrees more m) = absurd (omega (arith, more, ended))

  -- A turn that read as much of both files, and the loop from there on.
  Judged-level :
      (fuel turn n m l1 l2 : ℕ) (a b : List ℕ)
      → m ≡ l1
      → m ≡ l2
      → m ≤ same_bytes a b
      → Judged (n + m) (drop m a) (drop m b) (
          compare_loop this other turns size fuel turn
            (n + m)
            (n + m)
            (n + m)
            (drop m a)
            (drop m b))
      → Judged n a b (
          compare_loop this other turns size fuel turn
            (n + m)
            (n + l1)
            (n + l2)
            (drop l1 a)
            (drop l2 b))
  Judged-level fuel turn n m l1 l2 a b first second h j =
      subst
        (λ l. Judged n a b (
          compare_loop this other turns size fuel turn (n + m) (n + l) (n + l2) (drop l a)
            (drop l2 b)))
        first
        (subst
          (λ l. Judged n a b (
            compare_loop this other turns size fuel turn (n + m) (n + m) (n + l) (drop m a)
              (drop l b)))
          second (Judged-step n m a b _ h j))

  -- A turn that read more of one file, to the other's end.
  Judged-uneven :
      (fuel turn n : ℕ) (a b : List ℕ)
      → 0 < fuel
      → min size (min (length a) (length b)) ≤ same_bytes a b
      → (min size (length a) == min size (length b)) ≡ false
      → Judged n a b (
          compare_loop this other turns size fuel turn
            (n + min size (min (length a) (length b)))
            (n + length (take size a))
            (n + length (take size b))
            (drop (length (take size a)) a)
            (drop (length (take size b)) b))
  Judged-uneven zero turn n a b some_fuel same uneven = absurd (omega (arith, some_fuel))
  Judged-uneven (suc fuel) turn n a b some_fuel same uneven =
      subst (Judged n a b)
        (sym (
          compare_loop-ends fuel turn _ _ _ (drop l1 a) (drop l2 b)
            (ground (arith, da, db, la, lb, uneven))))
        (judged _ (
          verdict-prefix _ _ _ (ground (arith, la, lb, ra, rb, da, db, uneven))
            (λ h. absurd (ground (arith, h, la, lb, ra, rb, da, db, uneven)))
          ∙ sym (
              verdict-prefix _ _ _ (ground (arith, same, same_bytes-le a b, uneven))
                (λ h. absurd (ground (arith, h, uneven))))))
    where
      l1 : ℕ
      l1 = length (take size a)

      l2 : ℕ
      l2 = length (take size b)

      la : l1 ≡ min size (length a)
      la = length-take size a

      lb : l2 ≡ min size (length b)
      lb = length-take size b

      da : length (drop l1 a) ≡ length a - l1
      da = length-drop l1 a

      db : length (drop l2 b) ≡ length b - l2
      db = length-drop l2 b

      ra : length (take size (drop l1 a)) ≡ min size (length (drop l1 a))
      ra = length-take size (drop l1 a)

      rb : length (take size (drop l2 b)) ≡ min size (length (drop l2 b))
      rb = length-take size (drop l2 b)

  -- A turn, and the loop from there on.
  Judged-after :
      (fuel turn n : ℕ) (a b : List ℕ) (s : Step)
      → Compared size a b s
      → length a < suc fuel
      → final_size this ≡ n + length a
      → final_size other ≡ n + length b
      → ((m : ℕ)
          → 0 < m
          → m ≤ length a
          → m ≤ length b
          → Judged (n + m) (drop m a) (drop m b) (
              compare_loop this other turns size fuel
                (turn + 1)
                (n + m)
                (n + m)
                (n + m)
                (drop m a)
                (drop m b)))
      → Judged n a b (after this other turns size full fuel turn n n n a b s)
  Judged-after fuel turn n a b _ (ends e) enough t o next = judged _ (
      ap₂ (λ t o. verdict (offset n (n + t) (n + o))) (length-take size a) (length-take size b)
      ∙ verdict-ends size n (length a) (length b) room e
      ∙ let same : n ≡ n + same_bytes a b = omega (arith, e, same_bytes-le a b) in
        ap (λ s. verdict (offset s (n + length a) (n + length b))) same)
  Judged-after fuel turn n a b _ (parts less) enough t o next =
      judged _ (ap₂ (λ t o. verdict (offset (n + same_bytes a b) t o)) t o)
  Judged-after fuel turn n a b _ (agrees more same) enough t o next =
      elim (Bool-cases (min size (length a) == min size (length b))) [
        | inl level ↦
            Judged-level fuel (turn + 1) n (min size (min (length a) (length b)))
              (length (take size a)) (length (take size b)) a b
              (ground (arith, level, length-take size a))
              (ground (arith, level, length-take size b)) same
              (next (min size (min (length a) (length b))) (omega (arith, more, room)) (omega arith)
                (omega arith))
        | inr uneven ↦ Judged-uneven fuel (turn + 1) n a b (omega (arith, enough, more)) same uneven
      ]

  -- The loop over files that are level.
  pub compare_loop-Judged :
      (fuel turn n : ℕ) (a b : List ℕ)
      → length a < fuel
      → final_size this ≡ n + length a
      → final_size other ≡ n + length b
      → Judged n a b (compare_loop this other turns size fuel turn n n n a b)
  compare_loop-Judged zero turn n a b enough t o = absurd (omega (arith, enough))
  compare_loop-Judged (suc fuel) turn n a b enough t o =
      subst (Judged n a b) (sym (compare_loop-after this other turns size full fuel turn n n n a b))
        (Judged-after fuel turn n a b (compare_bytes (take size a) (take size b))
          (compare_bytes-Compared size room a b) enough t o
          (λ m some_read la lb.
            compare_loop-Judged fuel (turn + 1) (n + m) (drop m a) (drop m b)
              (omega (arith, length-drop m a, enough, some_read, la))
              (omega (arith, length-drop m a, la, t)) (omega (arith, length-drop m b, lb, o))))
