-- ===== src/Command/Braces.antt =====
-- The arguments in braces of a `%` sequence in src/git.c are shorter than the text they stand in; and the
-- ends of `command_expand`.
use gnu_gnuit.Prelude.{
  ℕ, suc, ◌≤◌, ◌<◌, Bool-cases, inl, inr, Option, none, some, List, [], ◌∷◌, ◌==◌, length, arith,
}
use gnu_gnuit.Command.Steps.{
  Outcome, bad_command, strings_dont_match, faulted, unfinished, expanded, split_at, braced,
}

-- An end without a command.
abbrev pub IsError : Outcome → Type 0
IsError bad_command = Unit
IsError strings_dont_match = Unit
IsError faulted = Unit
IsError unfinished = ⊥
IsError (expanded flag text) = ⊥

abbrev pub IsEnd : Outcome → Type 0
IsEnd bad_command = Unit
IsEnd strings_dont_match = Unit
IsEnd faulted = Unit
IsEnd unfinished = ⊥
IsEnd (expanded flag text) = Unit

abbrev pub Shorter : ℕ → Option (List ℕ × List ℕ) → Type 0
Shorter n none = Unit
Shorter n (some found) = (length found.0 < n) × (length found.1 < n)

pub split_at-Shorter : (d : ℕ) (text : List ℕ) → Shorter (length text) (split_at d text)
unfolding split_at
split_at-Shorter d [] = tt
split_at-Shorter d (c ∷ text) = elim (Bool-cases (c == d)) [
  | inl here ↦ rw (here, Shorter) (omega arith, omega arith)
  | inr other ↦ rw (other, Shorter) (behind (split_at d text) (split_at-Shorter d text))
]
  where
    behind :
        (found : Option (List ℕ × List ℕ))
        → Shorter (length text) found
        → Shorter
            (suc (length text))
            (elim found [ none ↦ none | some found ↦ some (c ∷ found.0, found.1) ])
    behind none h = tt
    behind (some found) h = (omega (arith, h.0), omega (arith, h.1))

pub Shorter-le :
    (m n : ℕ) (found : Option (List ℕ × List ℕ)) → Shorter m found → m ≤ n → Shorter n found
Shorter-le m n none h le = tt
Shorter-le m n (some found) h le = (omega (arith, h.0, le), omega (arith, h.1, le))

pub braced-Shorter : (d : ℕ) (text : List ℕ) → Shorter (length text) (braced d text)
unfolding braced
braced-Shorter d [] = tt
braced-Shorter d (c ∷ text) = elim (Bool-cases (c == b'{')) [
  | inl opened ↦
      rw (opened, Shorter)
        (Shorter-le (length text) (suc (length text)) (split_at d text) (split_at-Shorter d text)
          (omega arith))
  | inr other ↦ rw (other, Shorter) tt
]
