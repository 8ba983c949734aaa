-- ===== src/InputLine/Line.antt =====
-- A line under edit, as its user sees it: the prompt, the text on both sides of the point (nearest
-- character first) and the kill ring; with the commands of src/inputline.c said on such lines.
use gnu_gnuit.Prelude.{
  ℕ, ◌≡◌, Bool, not, Option, none, some, List, [], ◌∷◌, ◌++◌, reverse, map, if◌then◌else◌,
}
use mathlib.Core.List.{tail}
use gnu_gnuit.Wide.{Locale, c_str}
use gnu_gnuit.InputLine.{il_separator}

pub record Line : Type 0 where
  pub prompt : List ℕ
  pub left : List ℕ
  pub right : List ℕ
  pub ring : Option (List ℕ)

pub Line-ext :
    (a b : Line)
    → a.prompt ≡ b.prompt
    → a.left ≡ b.left
    → a.right ≡ b.right
    → a.ring ≡ b.ring
    → a ≡ b
Line-ext a b p q r s = λ i. record { prompt = p i; left = q i; right = r i; ring = s i }

-- The longest stretch at the head of a list that passes a test, and the rest.
unfoldable pub span : (ℕ → Bool) → List ℕ → List ℕ × List ℕ
span test [] = ([], [])
span test (c ∷ text) =
    let more = span test text in if test c then (c ∷ more.0, more.1) else ([], c ∷ text)

-- A word with the separators in front of it, and the rest.
unfoldable pub word : List ℕ → List ℕ × List ℕ
word text =
    let gap = span il_separator text in
    let body = span (λ c. not (il_separator c)) gap.1 in (gap.0 ++ body.0, body.1)

unfoldable pub line_backward_char : Line → Line
line_backward_char l = elim l.left [
  | [] ↦ l
  | c ∷ rest ↦ record l { left = rest; right = c ∷ l.right }
]

unfoldable pub line_forward_char : Line → Line
line_forward_char l = elim l.right [
  | [] ↦ l
  | c ∷ rest ↦ record l { left = c ∷ l.left; right = rest }
]

-- The point moves over the characters that pass the test.
unfoldable pub line_backward_over : (ℕ → Bool) → Line → Line
line_backward_over test l = record l {
  left = (span test l.left).1;
  right = reverse (span test l.left).0 ++ l.right;
}

unfoldable pub line_forward_over : (ℕ → Bool) → Line → Line
line_forward_over test l = record l {
  left = reverse (span test l.right).0 ++ l.left;
  right = (span test l.right).1;
}

unfoldable pub line_backward_word : Line → Line
line_backward_word l = record l {
  left = (word l.left).1;
  right = reverse (word l.left).0 ++ l.right;
}

unfoldable pub line_forward_word : Line → Line
line_forward_word l = record l {
  left = reverse (word l.right).0 ++ l.left;
  right = (word l.right).1;
}

-- The next word with each character changed, and the point behind it.
unfoldable pub line_change : (ℕ → ℕ) → Line → Line
line_change change l = record l {
  left = reverse (map change (word l.right).0) ++ l.left;
  right = (word l.right).1;
}

unfoldable pub line_beginning : Line → Line
line_beginning l = record l { left = []; right = reverse l.left ++ l.right }

unfoldable pub line_end : Line → Line
line_end l = record l { left = reverse l.right ++ l.left; right = [] }

unfoldable pub line_insert : Locale → ℕ → Line → Line
line_insert loc c l = if loc.iswprint c then record l { left = c ∷ l.left } else l

unfoldable pub line_delete : Line → Line
line_delete l = record l { right = tail l.right }

unfoldable pub line_backward_delete : Line → Line
line_backward_delete l = record l { left = tail l.left }

-- What is shown of an inserted character.
unfoldable pub shown : Locale → ℕ → ℕ
shown loc c = if loc.iswprint c then c else b'?'

unfoldable pub line_insert_text : Locale → List ℕ → Line → Line
line_insert_text loc text l = record l { left = reverse (map (shown loc) (c_str text)) ++ l.left }

unfoldable pub line_yank_from : Locale → Option (List ℕ) → Line → Line
line_yank_from loc none l = l
line_yank_from loc (some text) l = line_insert_text loc text l

unfoldable pub line_yank : Locale → Line → Line
unfolding line_yank_from
line_yank loc l = line_yank_from loc l.ring l

-- Killed text goes to the kill ring, unless there is none.
unfoldable pub ring_with : List ℕ → Option (List ℕ) → Option (List ℕ)
ring_with [] ring = ring
ring_with (c ∷ text) ring = some (c ∷ text)

unfoldable pub line_kill_word : Line → Line
line_kill_word l = record l { right = (word l.right).1; ring = ring_with (word l.right).0 l.ring }

unfoldable pub line_backward_kill_word : Line → Line
line_backward_kill_word l = record l {
  left = (word l.left).1;
  ring = ring_with (reverse (word l.left).0) l.ring;
}

unfoldable pub line_kill_line : Bool → Line → Line
line_kill_line store l = record l {
  left = [];
  right = [];
  ring = if store then ring_with (reverse l.left ++ l.right) l.ring else l.ring;
}

unfoldable pub line_kill_to_beginning : Line → Line
line_kill_to_beginning l = record l { left = []; ring = ring_with (reverse l.left) l.ring }

unfoldable pub line_kill_to_end : Line → Line
line_kill_to_end l = record l { right = []; ring = ring_with l.right l.ring }
