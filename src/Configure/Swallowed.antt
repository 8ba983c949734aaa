-- ===== src/Configure/Swallowed.antt =====
-- A line that fills the buffer of src/configure.c together with its newline.
use gnu_gnuit.Prelude.{
  ℕ, zero, suc, ◌+◌, ◌-◌, ◌≤◌, ◌≡◌, refl, ap, ◌∙◌, true, false, List, [], ◌∷◌, ◌++◌, length,
  length-append, ◌==◌, arith,
}
use gnu_gnuit.Configure.{Configuration, max_line, fgets, skip_line, has_char, keep_line, read_line}

fgets_whole :
    (n : ℕ) (line text : List ℕ)
    → has_char b'\n' line ≡ false
    → length line + 1 ≤ n
    → fgets n (line ++ b'\n' ∷ text) ≡ (line ++ b'\n' ∷ [], text)
unfolding fgets has_char
fgets_whole zero line text whole h = absurd (omega arith)
fgets_whole (suc n) [] text whole h = refl
fgets_whole (suc n) (c ∷ line) text whole h =
    let other : (c == b'\n') ≡ false = ground arith in
    rw other (
      ap (λ (r : List ℕ × List ℕ). (c ∷ r.0, r.1))
        (fgets_whole n line text (ground arith) (omega arith)))

skip_line_whole :
    (line text : List ℕ) → has_char b'\n' line ≡ false → skip_line (line ++ b'\n' ∷ text) ≡ text
unfolding skip_line has_char
skip_line_whole [] text h = refl
skip_line_whole (c ∷ line) text h =
    let other : (c == b'\n') ≡ false = ground arith in
    rw other (skip_line_whole line text (ground arith))

keep_full :
    (conf : Configuration) (text rest : List ℕ)
    → (length text == max_line - 1) ≡ true
    → ((keep_line conf (text, rest)).1 ≡ text)
      × ((keep_line conf (text, rest)).0.unread ≡ skip_line rest)
unfolding keep_line
keep_full conf text rest h = rw h (refl, refl)

eq_test : (a b : ℕ) → a ≡ b → (a == b) ≡ true
eq_test a b h = ground arith

-- Where a line fits in the buffer exactly, its newline included, the line behind it is lost: reading
-- leaves what stands behind that one.
pub read_line-swallows :
    (conf : Configuration) (line next text : List ℕ)
    → has_char b'\n' line ≡ false
    → has_char b'\n' next ≡ false
    → length line + 2 ≡ max_line
    → conf.unread ≡ line ++ b'\n' ∷ (next ++ b'\n' ∷ text)
    → ((read_line conf).1 ≡ line ++ b'\n' ∷ []) × ((read_line conf).0.unread ≡ text)
unfolding read_line
read_line-swallows conf line next text whole whole' fits e =
    let read = fgets_whole (max_line - 1) line (next ++ b'\n' ∷ text) whole (omega arith) in
    let kept = ap (keep_line conf) (ap (fgets (max_line - 1)) e ∙ read) in
    let full =
      eq_test (length (line ++ b'\n' ∷ [])) (max_line - 1)
        (omega (arith, length-append line (b'\n' ∷ []), fits)) in
    let (same, left) = keep_full conf (line ++ b'\n' ∷ []) (next ++ b'\n' ∷ text) full in
    (
      ap (λ (r : Configuration × List ℕ). r.1) kept ∙ same,
      ap (λ (r : Configuration × List ℕ). r.0.unread) kept
          ∙ left
          ∙ skip_line_whole next text whole',
    )
