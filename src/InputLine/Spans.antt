-- ===== src/InputLine/Spans.antt =====
-- Facts on the words of a text.
use gnu_gnuit.Prelude.{
  ℕ, ◌≤◌, ◌≡◌, refl, ap, Bool, not, List, [], ◌∷◌, ◌++◌, append_assoc, length, length-append, arith,
  Bool-cases, inl, inr,
}
use gnu_gnuit.InputLine.{il_separator}
use gnu_gnuit.InputLine.Line.{span, word}

-- The two parts of a split make up the text.
pub span-append :
    (test : ℕ → Bool) (text : List ℕ) → (span test text).0 ++ (span test text).1 ≡ text
unfolding span
span-append test [] = refl
span-append test (c ∷ text) = elim (Bool-cases (test c)) [
  | inl passes ↦ rw passes (ap (c ∷◌) (span-append test text))
  | inr stops ↦ rw stops refl
]

pub word-append : (text : List ℕ) → (word text).0 ++ (word text).1 ≡ text
unfolding word
word-append text =
    rw (append_assoc, span-append (λ c. not (il_separator c)) (span il_separator text).1)
      (span-append il_separator text)

pub word-length : (text : List ℕ) → length (word text).1 ≤ length text
word-length text =
    omega (arith, ap length (word-append text), length-append {0} (word text).0 (word text).1)
