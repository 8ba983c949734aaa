-- ===== src/Transfer/CompareLaws.antt =====
-- What src/panel.c says of two files that it compares.
use gnu_gnuit.Prelude.{
  ℕ, zero, suc, ◌+◌, ◌≤◌, ◌<◌, ◌≡◌, ◌⊎◌, refl, subst, Bool-cases, inl, inr, false, Option, some,
  List, [], ◌∷◌, ◌==◌, ltb, length, length-take, take, drop, min, arith,
}
use gnu_gnuit.Transfer.Compare.{
  Turn, Result, offset, same_bytes, File, final_size, Step, at_end, differs, goes_on, compare_bytes,
  reads, read_both, compare_loop,
}

same_bytes-take : (k : ℕ) (a b : List ℕ) → same_bytes (take k a) (take k b) ≡ min k (same_bytes a b)
unfolding same_bytes
same_bytes-take zero a b = omega arith
same_bytes-take (suc k) [] b = omega arith
same_bytes-take (suc k) (x ∷ a) [] = omega arith
same_bytes-take (suc k) (x ∷ a) (y ∷ b) = ground (arith, same_bytes-take k a b)

pub same_bytes-drop :
    (k : ℕ) (a b : List ℕ)
    → k ≤ same_bytes a b
    → same_bytes a b ≡ k + same_bytes (drop k a) (drop k b)
unfolding same_bytes
same_bytes-drop zero a b h = omega arith
same_bytes-drop (suc k) [] b h = absurd (omega (arith, h))
same_bytes-drop (suc k) (x ∷ a) [] h = absurd (omega (arith, h))
same_bytes-drop (suc k) (x ∷ a) (y ∷ b) h = elim (Bool-cases (x == y)) [
  | inr other ↦ let h' = simp other at h in absurd (omega (arith, h'))
  | inl same ↦
      let h' = simp same at h in
      simp same (omega (arith, same_bytes-drop k a b (omega (arith, h'))))
]

pub same_bytes-le : (a b : List ℕ) → same_bytes a b ≤ min (length a) (length b)
unfolding same_bytes
same_bytes-le [] b = omega arith
same_bytes-le (x ∷ a) [] = omega arith
same_bytes-le (x ∷ a) (y ∷ b) = ground (arith, same_bytes-le a b)

-- A turn in which nobody cancels and both reads give all that they are asked for.
pub record Full (size : ℕ) (turn : Turn) : Type 0 where
  pub most1 : ℕ
  pub most2 : ℕ
  pub goes : turn.canceled ≡ false
  pub given1 : turn.read1 ≡ some most1
  pub given2 : turn.read2 ≡ some most2
  pub much1 : size ≤ most1
  pub much2 : size ≤ most2

read_both-Full :
    (size : ℕ) (turn : Turn) (a b : List ℕ)
    → Full size turn
    → read_both size turn a b ≡ reads (take size a) (take size b)
unfolding read_both
read_both-Full size turn a b f =
    let first : min f.most1 size ≡ size = omega (arith, f.much1) in
    let second : min f.most2 size ≡ size = omega (arith, f.much2) in
    rw (read_both, f.goes, f.given1, f.given2, first, second) refl

-- A turn of the loop on full reads.
module _ (this other : File) (turns : ℕ → Turn) (size : ℕ)
    (full : (i : ℕ) → Full size (turns i)) where
  abbrev pub after : ℕ → ℕ → ℕ → ℕ → ℕ → List ℕ → List ℕ → Step → Option Result
  after fuel turn n this_size other_size a b at_end =
      some (offset n (this_size + length (take size a)) (other_size + length (take size b)))
  after fuel turn n this_size other_size a b (differs i) =
      some (offset (n + i) (final_size this) (final_size other))
  after fuel turn n this_size other_size a b (goes_on bytes_read) =
      compare_loop this other turns size fuel (turn + 1) (n + bytes_read)
        (this_size + length (take size a)) (other_size + length (take size b))
        (drop (length (take size a)) a) (drop (length (take size b)) b)

  pub compare_loop-after :
      (fuel turn n this_size other_size : ℕ) (a b : List ℕ)
      → compare_loop this other turns size (suc fuel) turn n this_size other_size a b
        ≡ after fuel turn n this_size other_size a b (compare_bytes (take size a) (take size b))
  unfolding compare_loop
  compare_loop-after fuel turn n this_size other_size a b =
      rw (compare_loop, read_both-Full size (turns turn) a b (full turn))
        (step (compare_bytes (take size a) (take size b)))
    where
      step :
          (s : Step)
          → elim s as (λ s. Option Result) [
            | at_end ↦
                some
                  (offset n (this_size + length (take size a)) (other_size + length (take size b)))
            | differs i ↦ some (offset (n + i) (final_size this) (final_size other))
            | goes_on bytes_read ↦
                compare_loop this other turns size fuel
                  (turn + 1)
                  (n + bytes_read)
                  (this_size + length (take size a))
                  (other_size + length (take size b))
                  (drop (length (take size a)) a)
                  (drop (length (take size b)) b)
          ]
            ≡ after fuel turn n this_size other_size a b s
      step at_end = refl
      step (differs i) = refl
      step (goes_on bytes_read) = refl

-- How the bytes of a turn compare, by the common beginning of what is left.
pub data Compared (size : ℕ) (a b : List ℕ) : Step → Type 0 where
  ends : (length a ≡ 0) ⊎ (length b ≡ 0) → Compared size a b at_end
  parts : same_bytes a b < min (length a) (length b) → Compared size a b (differs (same_bytes a b))
  agrees :
      0 < min (length a) (length b)
      → min size (min (length a) (length b)) ≤ same_bytes a b
      → Compared size a b (goes_on (min size (min (length a) (length b))))

pub compare_bytes-Compared :
    (size : ℕ)
    → 0 < size
    → (a b : List ℕ) → Compared size a b (compare_bytes (take size a) (take size b))
unfolding compare_bytes
compare_bytes-Compared size room a b =
    elim (Bool-cases (min (length (take size a)) (length (take size b)) == 0)) [
      | inl none_left ↦ simp none_left (ends (ground (arith, none_left, room, la, lb)))
      | inr some_left ↦
          elim (Bool-cases (
            ltb (same_bytes (take size a) (take size b))
              (min (length (take size a)) (length (take size b))))) [
                | inl less ↦
                    simp (some_left, less)
                      (subst (λ i. Compared size a b (differs i))
                        (ground (arith, less, both, la, lb))
                        (parts (ground (arith, less, both, la, lb))))
                | inr all ↦
                    simp (some_left, all)
                      (subst (λ i. Compared size a b (goes_on i)) (ground (arith, la, lb))
                        (agrees (ground (arith, some_left, la, lb))
                          (ground (arith, all, both, la, lb))))
              ]
    ]
  where
    la : length (take size a) ≡ min size (length a)
    la = length-take size a

    lb : length (take size b) ≡ min size (length b)
    lb = length-take size b

    both : same_bytes (take size a) (take size b) ≡ min size (same_bytes a b)
    both = same_bytes-take size a b
