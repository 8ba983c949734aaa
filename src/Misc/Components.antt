-- ===== src/Misc/Components.antt =====
-- A path as a list of names, and what "." and ".." mean in it.
use gnu_gnuit.Prelude.{
  ℕ, ◌≡◌, refl, ap, ◌∙◌, Bool, false, List, [], ◌∷◌, ◌++◌, reverse, append_assoc, ◌==◌, ◌&&◌, ◌||◌,
  if◌then◌else◌, arith, Bool-cases, inl, inr,
}
use mathlib.Core.List.{reverse-cons, reverse-append, reverse-reverse}
use gnu_gnuit.Misc.Path.{skip_here, back_to_slash}

abbrev pub on_head : ℕ → List (List ℕ) → List (List ℕ)
on_head c [] = (c ∷ []) ∷ []
on_head c (name ∷ names) = (c ∷ name) ∷ names

-- The names between the slashes of a text.
abbrev pub components : List ℕ → List (List ℕ)
components [] = [] ∷ []
components (c ∷ text) = if c == b'/' then [] ∷ components text else on_head c (components text)

-- The directories on the way, the last one first: a name enters a directory, ".." leaves it, in the
-- root for the root.
abbrev pub parent : List (List ℕ) → List (List ℕ)
parent [] = []
parent (name ∷ names) = names

abbrev pub enter : List (List ℕ) → List ℕ → List (List ℕ)
enter names [] = names
enter names (c ∷ []) = if c == b'.' then names else (c ∷ []) ∷ names
enter names (c ∷ d ∷ []) = if c == b'.' && d == b'.' then parent names else (c ∷ d ∷ []) ∷ names
enter names (c ∷ d ∷ e ∷ text) = (c ∷ d ∷ e ∷ text) ∷ names

abbrev pub resolve : List (List ℕ) → List (List ℕ) → List (List ℕ)
resolve names [] = names
resolve names (name ∷ rest) = resolve (enter names name) rest

-- The path of a list of directories, the last one first.
abbrev pub joined : List (List ℕ) → List ℕ
joined [] = []
joined (name ∷ names) = joined names ++ b'/' ∷ name

abbrev pub path_of : List (List ℕ) → List ℕ
path_of [] = b'/' ∷ []
path_of (name ∷ names) = joined (name ∷ names)

-- What is written of the directories, last character first.
abbrev pub written_of : List (List ℕ) → List ℕ
written_of [] = b'/' ∷ []
written_of (name ∷ names) = b'/' ∷ (reverse name ++ written_of names)

abbrev pub has_slash : List ℕ → Bool
has_slash [] = false
has_slash (c ∷ text) = c == b'/' || has_slash text

abbrev pub NoSlash : List (List ℕ) → Type 0
NoSlash [] = Unit
NoSlash (name ∷ names) = (has_slash name ≡ false) × NoSlash names

pub skip_here_lem :
    (names : List (List ℕ)) (text : List ℕ)
    → resolve names (components (skip_here text)) ≡ resolve names (components text)
unfolding skip_here
skip_here_lem names [] = refl
skip_here_lem names (c ∷ []) = ground arith
skip_here_lem names (c ∷ d ∷ text) =
    let rest = skip_here_lem names (d ∷ text) in
    elim (Bool-cases (c == b'/')) [
      | inl slash ↦ rw (slash, components) rest
      | inr other ↦ elim (Bool-cases (c == b'.')) [
        | inr name ↦
            ap (λ t. resolve names (components t)) {x = skip_here (c ∷ d ∷ text)} {y = c ∷ d ∷ text}
              (ground arith)
        | inl dot ↦ elim (Bool-cases (d == b'/')) [
          | inl here ↦ ground (arith, rest)
          | inr longer ↦
              ap (λ t. resolve names (components t)) {x = skip_here (c ∷ d ∷ text)}
                {y = c ∷ d ∷ text} (ground arith)
        ]
      ]
    ]

pub back_to_slash_lem :
    (name : List ℕ) (names : List (List ℕ))
    → has_slash name ≡ false
    → back_to_slash (name ++ written_of names) ≡ written_of names
unfolding back_to_slash
back_to_slash_lem [] [] h = refl
back_to_slash_lem [] (n ∷ names) h = refl
back_to_slash_lem (c ∷ name) names h =
    let other : (c == b'/') ≡ false = ground arith in
    rw other (back_to_slash_lem name names (ground arith))

pub has_slash-append : (a b : List ℕ) → has_slash (a ++ b) ≡ (has_slash a || has_slash b)
has_slash-append [] b = refl
has_slash-append (c ∷ a) b = ground (arith, has_slash-append a b)

pub reverse-written_of :
    (names : List (List ℕ)) → reverse (written_of names) ≡ joined names ++ b'/' ∷ []
reverse-written_of [] = refl
reverse-written_of (name ∷ names) =
    reverse-append (b'/' ∷ reverse name) (written_of names)
    ∙ ap (◌++ reverse (b'/' ∷ reverse name)) (reverse-written_of names)
    ∙ ap (λ t. (joined names ++ b'/' ∷ []) ++ t)
        (reverse-cons b'/' (reverse name) ∙ ap (◌++ b'/' ∷ []) (reverse-reverse name))
    ∙ simp append_assoc
