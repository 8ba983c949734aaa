-- ===== src/Wide/Slice.antt =====
-- Stretches of a block as lists, in reading order and reversed.
use gnu_gnuit.Prelude.{
  ◌-◌, ℕ, zero, suc, ◌+◌, ◌<◌, ◌≤◌, ◌≡◌, refl, ap, ap₂, List, [], ◌∷◌, ◌++◌, arith, length, reverse,
  sym, ◌∙◌,
}
use mathlib.Core.List.{reverse-cons, reverse-reverse}

-- `n` cells from `at` on
abbrev pub slice : (ℕ → ℕ) → ℕ → ℕ → List ℕ
slice cells at zero = []
slice cells at (suc n) = cells at ∷ slice cells (at + 1) n

-- the same, last cell first
abbrev pub rslice : (ℕ → ℕ) → ℕ → ℕ → List ℕ
rslice cells at zero = []
rslice cells at (suc n) = cells (at + n) ∷ rslice cells at n

pub slice_ext :
    (f g : ℕ → ℕ) (a b n : ℕ)
    → ((i : ℕ) → i < n → f (a + i) ≡ g (b + i))
    → slice f a n ≡ slice g b n
slice_ext f g a b zero h = refl
slice_ext f g a b (suc n) h = ap₂ ◌∷◌ head (slice_ext f g (a + 1) (b + 1) n tail)
  where
    head : f a ≡ g b
    head = cc (
      h 0 (omega arith),
      ap f {x = a} {y = a + 0} (omega arith),
      ap g {x = b} {y = b + 0} (omega arith),
    )

    tail : (i : ℕ) → i < n → f (a + 1 + i) ≡ g (b + 1 + i)
    tail i p = cc (
      h (suc i) (omega arith),
      ap f {x = a + 1 + i} {y = a + suc i} (omega arith),
      ap g {x = b + 1 + i} {y = b + suc i} (omega arith),
    )

pub rslice_ext :
    (f g : ℕ → ℕ) (a b n : ℕ)
    → ((i : ℕ) → i < n → f (a + i) ≡ g (b + i))
    → rslice f a n ≡ rslice g b n
rslice_ext f g a b zero h = refl
rslice_ext f g a b (suc n) h =
    ap₂ ◌∷◌ (h n (omega arith)) (rslice_ext f g a b n (λ i p. h i (omega arith)))

pub length-slice : (f : ℕ → ℕ) (a n : ℕ) → length (slice f a n) ≡ n
length-slice f a zero = refl
length-slice f a (suc n) = ap suc (length-slice f (a + 1) n)

pub slice-add :
    (f : ℕ → ℕ) (a m n k : ℕ) → k ≡ m + n → slice f a k ≡ slice f a m ++ slice f (a + m) n
slice-add f a zero n k e =
    ap (λ x. slice f x k) {x = a} {y = a + 0} (omega arith)
    ∙ ap (slice f (a + 0)) {x = k} {y = n} (omega arith)
slice-add f a (suc m) n zero e = absurd (omega arith)
slice-add f a (suc m) n (suc k) e = ap (f a ∷◌) (
    slice-add f (a + 1) m n k (omega arith)
    ∙ ap (λ x. slice f (a + 1) m ++ slice f x n) {x = a + 1 + m} {y = a + suc m} (omega arith))

pub rslice-add :
    (f : ℕ → ℕ) (a m n k : ℕ) → k ≡ m + n → rslice f a k ≡ rslice f (a + m) n ++ rslice f a m
rslice-add f a m zero k e = ap (rslice f a) {x = k} {y = m} (omega arith)
rslice-add f a m (suc n) zero e = absurd (omega arith)
rslice-add f a m (suc n) (suc k) e =
    ap₂ ◌∷◌ (ap f {x = a + k} {y = a + m + n} (omega arith)) (rslice-add f a m n k (omega arith))

pub slice-snoc : (f : ℕ → ℕ) (a n : ℕ) → slice f a (suc n) ≡ slice f a n ++ f (a + n) ∷ []
slice-snoc f a n = slice-add f a n 1 (suc n) (omega arith)

pub reverse-rslice : (f : ℕ → ℕ) (a n : ℕ) → reverse (rslice f a n) ≡ slice f a n
reverse-rslice f a zero = refl
reverse-rslice f a (suc n) = rw (reverse-cons, reverse-rslice f a n) (sym (slice-snoc f a n))

pub length-rslice : (f : ℕ → ℕ) (a n : ℕ) → length (rslice f a n) ≡ n
length-rslice f a zero = refl
length-rslice f a (suc n) = ap suc (length-rslice f a n)

-- Equal stretches of two blocks, with their lengths and places to be shown equal.
pub slice_move :
    (f g : ℕ → ℕ) (a b m n : ℕ)
    → m ≡ n
    → ((i : ℕ) → i < n → f (a + i) ≡ g (b + i))
    → slice f a m ≡ slice g b n
slice_move f g a b m n e h = ap (slice f a) e ∙ slice_ext f g a b n h

pub rslice_move :
    (f g : ℕ → ℕ) (a b m n : ℕ)
    → m ≡ n
    → ((i : ℕ) → i < n → f (a + i) ≡ g (b + i))
    → rslice f a m ≡ rslice g b n
rslice_move f g a b m n e h = ap (rslice f a) e ∙ rslice_ext f g a b n h

pub slice_cons :
    (f g : ℕ → ℕ) (a b m n : ℕ) (c : ℕ)
    → m ≡ suc n
    → f a ≡ c
    → ((i : ℕ) → i < n → f (a + 1 + i) ≡ g (b + i))
    → slice f a m ≡ c ∷ slice g b n
slice_cons f g a b m n c e head h = ap (slice f a) e ∙ ap₂ ◌∷◌ head (slice_ext f g (a + 1) b n h)

pub rslice_cons :
    (f g : ℕ → ℕ) (a b m n : ℕ) (c : ℕ)
    → m ≡ suc n
    → f (a + n) ≡ c
    → ((i : ℕ) → i < n → f (a + i) ≡ g (b + i))
    → rslice f a m ≡ c ∷ rslice g b n
rslice_cons f g a b m n c e last h = ap (rslice f a) e ∙ ap₂ ◌∷◌ last (rslice_ext f g a b n h)

-- A stretch that is not empty, split at its first cell, or at its last.
pub slice_uncons : (f : ℕ → ℕ) (a n : ℕ) → 0 < n → slice f a n ≡ f a ∷ slice f (a + 1) (n - 1)
slice_uncons f a n h = slice_cons f f a (a + 1) n (n - 1) (f a) (omega arith) refl (λ i p. refl)

pub rslice_uncons :
    (f : ℕ → ℕ) (a n : ℕ) → 0 < n → rslice f a n ≡ f (a + (n - 1)) ∷ rslice f a (n - 1)
rslice_uncons f a n h =
    rslice_cons f f a a n (n - 1) (f (a + (n - 1))) (omega arith) refl (λ i p. refl)

pub slice_empty : (f : ℕ → ℕ) (a n : ℕ) → n ≡ 0 → slice f a n ≡ []
slice_empty f a n e = ap (slice f a) e

pub rslice_empty : (f : ℕ → ℕ) (a n : ℕ) → n ≡ 0 → rslice f a n ≡ []
rslice_empty f a n e = ap (rslice f a) e

pub reverse-slice : (f : ℕ → ℕ) (a n : ℕ) → reverse (slice f a n) ≡ rslice f a n
reverse-slice f a n = ap reverse (sym (reverse-rslice f a n)) ∙ reverse-reverse _

-- A stretch cut at a cell inside it.
pub slice_join :
    (f : ℕ → ℕ) (a p l : ℕ)
    → a ≤ p
    → p ≤ l
    → slice f a (l - a) ≡ reverse (rslice f a (p - a)) ++ slice f p (l - p)
slice_join f a p l h k = rw (reverse-rslice f a (p - a)) (
    slice-add f a (p - a) (l - p) (l - a) (omega arith)
    ∙ ap (λ x. slice f a (p - a) ++ slice f x (l - p)) {x = a + (p - a)} {y = p} (omega arith))

pub rslice_join :
    (f : ℕ → ℕ) (a p l : ℕ)
    → a ≤ p
    → p ≤ l
    → rslice f a (l - a) ≡ reverse (slice f p (l - p)) ++ rslice f a (p - a)
rslice_join f a p l h k = rw (reverse-slice f p (l - p)) (
    rslice-add f a (p - a) (l - p) (l - a) (omega arith)
    ∙ ap (λ x. rslice f x (l - p) ++ rslice f a (p - a)) {x = a + (p - a)} {y = p} (omega arith))
