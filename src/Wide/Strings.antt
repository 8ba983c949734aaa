-- ===== src/Wide/Strings.antt =====
-- Facts on the strings that a block holds.
use gnu_gnuit.Prelude.{ℕ, zero, suc, ◌+◌, ◌<◌, ◌≡◌, ◌≢◌, ap, ◌∙◌, ◌==◌, arith, Bool-cases, inl, inr}
use gnu_gnuit.Wide.{wcslen}

-- The length of a string whose NUL lies within the block.
pub wcslen_lem :
    (fuel at : ℕ) (cells : ℕ → ℕ) (n : ℕ)
    → n < fuel
    → cells (at + n) ≡ 0
    → ((i : ℕ) → i < n → cells (at + i) ≢ 0)
    → wcslen fuel at cells ≡ n
unfolding wcslen
wcslen_lem zero at cells n h e s = absurd (omega arith)
wcslen_lem (suc fuel) at cells zero h e s =
    let e' : cells at ≡ 0 = ap cells {x = at} {y = at + 0} (omega arith) ∙ e in rw (e', wcslen)
wcslen_lem (suc fuel) at cells (suc n) h e s = elim (Bool-cases (cells at == 0)) [
  | inl nul ↦
      absurd (s 0 (omega arith) (ap cells {x = at + 0} {y = at} (omega arith) ∙ ground arith))
  | inr more ↦
      rw (more, wcslen)
        (ap suc (
          wcslen_lem fuel (at + 1) cells n (omega arith)
            (ap cells {x = at + 1 + n} {y = at + suc n} (omega arith) ∙ e)
            (λ i p q.
              s (suc i) (omega arith)
                (ap cells {x = at + suc i} {y = at + 1 + i} (omega arith) ∙ q))))
]
