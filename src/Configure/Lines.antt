-- ===== src/Configure/Lines.antt =====
-- The lines of a configuration file as a text: split at the newlines, comments cut off.
use gnu_gnuit.Prelude.{
  ℕ, zero, suc, ◌+◌, ◌<◌, ◌≡◌, refl, ap, ◌∙◌, append-nil, Bool, true, false, Option, none, some,
  List, [], ◌∷◌, ◌++◌, length, ◌==◌, if◌then◌else◌, arith, Bool-cases, inl, inr,
}
use gnu_gnuit.Configure.{
  Ctype, max_line, fgets, skip_line, has_char, before, strip_newline, line_of, all_space,
}

abbrev pub on_first : ℕ → List (List ℕ) → List (List ℕ)
on_first c [] = (c ∷ []) ∷ []
on_first c (l ∷ ls) = (c ∷ l) ∷ ls

abbrev pub split_lines : List ℕ → List (List ℕ)
split_lines [] = []
split_lines (c ∷ text) = if c == b'\n' then [] ∷ split_lines text else on_first c (split_lines text)

-- A line without its comment; none where nothing but white space stands before the comment.
abbrev pub clean : Ctype → List ℕ → Option (List ℕ)
clean ct line =
    if has_char b'#' line
    then (if all_space ct (before b'#' line) then none else some (before b'#' line))
    else some line

abbrev pub cons_some : Option (List ℕ) → List (List ℕ) → List (List ℕ)
cons_some none ls = ls
cons_some (some l) ls = l ∷ ls

abbrev pub clean_all : Ctype → List (List ℕ) → List (List ℕ)
clean_all ct [] = []
clean_all ct (l ∷ ls) = cons_some (clean ct l) (clean_all ct ls)

abbrev pub file_lines : Ctype → List ℕ → List (List ℕ)
file_lines ct text = clean_all ct (split_lines text)

-- No line comes up to the size of the buffer.
abbrev pub AllShort : List (List ℕ) → Type 0
AllShort [] = Unit
AllShort (l ∷ ls) = (length l + 2 < max_line) × AllShort ls

-- The text up to its first newline, and behind it.
abbrev pub ends_line : List ℕ → Bool
ends_line [] = false
ends_line (c ∷ text) = if c == b'\n' then true else ends_line text

abbrev pub first_line : List ℕ → List ℕ
first_line text = before b'\n' text

abbrev pub newline_of : List ℕ → List ℕ
newline_of text = if ends_line text then b'\n' ∷ [] else []

pub split_lines-first :
    (c : ℕ) (text : List ℕ)
    → split_lines (c ∷ text) ≡ first_line (c ∷ text) ∷ split_lines (skip_line (c ∷ text))
unfolding before skip_line
split_lines-first c [] = elim (Bool-cases (c == b'\n')) [
  | inl end ↦ rw (end, split_lines) refl
  | inr other ↦ rw (other, split_lines) refl
]
split_lines-first c (d ∷ text) =
    let rest = split_lines-first d text in
    elim (Bool-cases (c == b'\n')) [
      | inl end ↦ rw (end, split_lines) refl
      | inr other ↦ rw (other, split_lines) (ap (on_first c) rest)
    ]

-- fgets reads a short line whole, with its newline.
pub fgets-first :
    (n : ℕ) (text : List ℕ)
    → length (first_line text) + 1 < n
    → fgets n text ≡ (first_line text ++ newline_of text, skip_line text)
unfolding fgets before skip_line
fgets-first zero text h = absurd (omega arith)
fgets-first (suc n) [] h = refl
fgets-first (suc n) (c ∷ text) h = elim (Bool-cases (c == b'\n')) [
  | inl end ↦ rw (end, ends_line) (ap (λ d. (d ∷ [], text)) (ground arith))
  | inr other ↦
      let short : length (first_line text) + 1 < n = ground arith in
      rw (other, ends_line)
        (ap (λ (r : List ℕ × List ℕ). (c ∷ r.0, r.1)) (fgets-first n text short))
]

has_char-newline : (text : List ℕ) → has_char b'#' (text ++ b'\n' ∷ []) ≡ has_char b'#' text
unfolding has_char
has_char-newline [] = refl
has_char-newline (c ∷ text) = rw (has_char-newline text) refl

before-newline :
    (text : List ℕ)
    → has_char b'#' text ≡ true
    → before b'#' (text ++ b'\n' ∷ []) ≡ before b'#' text
unfolding has_char before
before-newline [] h = absurd (ground arith)
before-newline (c ∷ text) h = elim (Bool-cases (c == b'#')) [
  | inl here ↦ rw here refl
  | inr other ↦ rw other (ap (c ∷◌) (before-newline text (ground arith)))
]

strip-newline : (text : List ℕ) → strip_newline (text ++ b'\n' ∷ []) ≡ text
unfolding strip_newline
strip-newline [] = refl
strip-newline (c ∷ []) = refl
strip-newline (c ∷ d ∷ text) = ap (c ∷◌) (strip-newline (d ∷ text))

first_line-newline : (text : List ℕ) → has_char b'\n' (first_line text) ≡ false
unfolding has_char before
first_line-newline [] = refl
first_line-newline (c ∷ text) = ground (arith, first_line-newline text)

strip_none : (text : List ℕ) → has_char b'\n' text ≡ false → strip_newline text ≡ text
unfolding has_char strip_newline
strip_none [] h = refl
strip_none (c ∷ []) h = ground arith
strip_none (c ∷ d ∷ text) h = ap (c ∷◌) (strip_none (d ∷ text) (ground arith))

clean_whole :
    (ct : Ctype) (text : List ℕ) → has_char b'\n' text ≡ false → line_of ct text ≡ clean ct text
unfolding line_of
clean_whole ct text h = rw (strip_none text h) refl

clean-newline : (ct : Ctype) (text : List ℕ) → line_of ct (text ++ b'\n' ∷ []) ≡ clean ct text
unfolding line_of
clean-newline ct text = elim (Bool-cases (has_char b'#' text)) [
  | inl comment ↦ rw (has_char-newline text, comment, before-newline text comment) refl
  | inr whole ↦ rw (has_char-newline text, whole, strip-newline text) refl
]

-- What `configuration_getline` makes of a line that fgets has read whole.
pub line_of-first :
    (ct : Ctype) (text : List ℕ)
    → line_of ct (first_line text ++ newline_of text) ≡ clean ct (first_line text)
line_of-first ct text = elim (Bool-cases (ends_line text)) [
  | inl end ↦ rw (end, newline_of) (clean-newline ct (first_line text))
  | inr last ↦
      rw (last, newline_of)
        (ap (line_of ct) (append-nil (first_line text))
          ∙ clean_whole ct (first_line text) (first_line-newline text))
]
