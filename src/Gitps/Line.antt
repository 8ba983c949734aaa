-- ===== src/Gitps/Line.antt =====
-- The line that src/gitps.c writes for a process.
use gnu_gnuit.Prelude.{
  ℕ, suc, ◌-◌, ◌≤◌, ◌≡◌, ap, ◌∙◌, Bool-cases, inl, inr, Bool, List, ◌++◌, leb, ltb, length,
  length-append, length-take, length-replicate, take, drop, replicate, min, if◌then◌else◌, arith,
}
use gnu_gnuit.Gitps.{process_line}

length-padded :
    (width : ℕ) (shown : List ℕ)
    → length shown ≤ width
    → length (shown ++ replicate (width - length shown) b' ') ≡ width
length-padded width shown h =
    length-append shown (replicate (width - length shown) b' ')
    ∙ omega (arith, h, length-replicate {A = ℕ} (width - length shown) b' ')

length-take-le : (n : ℕ) (text : List ℕ) → length (take n text) ≤ n
length-take-le n text = omega (arith, length-take n text)

-- The characters written for a process are as many as the screen has columns, whatever the offset, the
-- text and the number of columns.
pub length-process_line :
    (columns scrolled : ℕ) (current : Bool) (text : List ℕ)
    → length (process_line columns scrolled current text) ≡ columns
unfolding process_line
length-process_line columns scrolled current text = elim (Bool-cases (ltb 2 columns)) [
  | inr narrow ↦ simp narrow (length-replicate {A = ℕ} columns b' ')
  | inl wide ↦ simp wide (
      ap (λ n. suc (suc n))
        (length-padded (columns - 2) _ (
          length-take-le (columns - 2) (
            drop
              (if leb (length text) (columns - 2)
                then 0
                else min scrolled (length text - (columns - 2)))
              text)))
      ∙ ground (arith, wide))
]
