-- ===== src/InputLine/Session.antt =====
-- Sessions at the input line: the commands of `il_dispatch_commands`, one after another, against the
-- same commands on lines.
use gnu_gnuit.Prelude.{
  ℕ, ◌+◌, ◌≤◌, ◌≡◌, refl, sym, subst, ap, ◌∙◌, Bool, true, false, Option, none, some, List, [], ◌∷◌,
  length, if◌then◌else◌, arith,
}
use mathlib.Core.Option.{some-injective}
use gnu_gnuit.Wide.{Locale, LocaleLaws, c_str}
use gnu_gnuit.InputLine.{InputLine}
use gnu_gnuit.InputLine.Kill.{yank_from, il_yank}
use gnu_gnuit.InputLine.Move.{il_set_mark}
use gnu_gnuit.InputLine.Edit.{il_insert_char, il_delete_char}
use gnu_gnuit.InputLine.Dispatch.{
  Key, backward_char, forward_char, backward_word, forward_word, beginning_of_line, end_of_line,
  delete_char, backward_delete_char, kill_word, backward_kill_word, kill_line,
  kill_to_beginning_of_line, kill_to_end_of_line, downcase_word, upcase_word, set_mark, yank, other,
  il_dispatch_commands,
}
use gnu_gnuit.InputLine.Line.{
  Line, line_backward_char, line_forward_char, line_backward_word, line_forward_word,
  line_beginning, line_end, line_delete, line_backward_delete, line_kill_word,
  line_backward_kill_word, line_kill_line, line_kill_to_beginning, line_kill_to_end, line_change,
  line_yank_from, line_yank, line_insert,
}
use gnu_gnuit.InputLine.Valid.{IsValid, Refines, view, rebuild, rebuild_mark, max_size}
use gnu_gnuit.InputLine.Moves.{
  il_backward_char_lem, il_forward_char_lem, il_beginning_of_line_lem, il_end_of_line_lem,
}
use gnu_gnuit.InputLine.WordMoves.{il_backward_word_lem, il_forward_word_lem}
use gnu_gnuit.InputLine.Insertion.{il_insert_char_lem}
use gnu_gnuit.InputLine.Deletion.{
  il_delete_char-IsValid, view-il_delete_char, il_backward_delete_char_lem,
}
use gnu_gnuit.InputLine.KillLaws.{
  il_kill_line_lem, il_kill_to_beginning_of_line_lem, il_kill_to_end_of_line_lem,
}
use gnu_gnuit.InputLine.KillWords.{il_kill_word_lem, il_backward_kill_word_lem}
use gnu_gnuit.InputLine.CaseLaws.{il_downcase_word_lem, il_upcase_word_lem}
use gnu_gnuit.InputLine.TextLaws.{il_insert_text_lem}

abbrev pub ring_length : Option (List ℕ) → ℕ
ring_length none = 0
ring_length (some text) = length (c_str text)

-- The next command finds memory for what it may insert.
abbrev pub Affordable : InputLine → Type 0
Affordable il = il.size + ring_length il.kill_ring + 33 ≤ max_size

-- The commands on lines. The others depend on the mark, or have loops that need not end.
unfoldable pub line_key : Locale → Key → Line → Option Line
line_key loc backward_char l = some (line_backward_char l)
line_key loc forward_char l = some (line_forward_char l)
line_key loc backward_word l = some (line_backward_word l)
line_key loc forward_word l = some (line_forward_word l)
line_key loc beginning_of_line l = some (line_beginning l)
line_key loc end_of_line l = some (line_end l)
line_key loc delete_char l = some (line_delete l)
line_key loc backward_delete_char l = some (line_backward_delete l)
line_key loc kill_word l = some (line_kill_word l)
line_key loc backward_kill_word l = some (line_backward_kill_word l)
line_key loc kill_line l = some (line_kill_line true l)
line_key loc kill_to_beginning_of_line l = some (line_kill_to_beginning l)
line_key loc kill_to_end_of_line l = some (line_kill_to_end l)
line_key loc downcase_word l = some (line_change loc.towlower l)
line_key loc upcase_word l = some (line_change loc.towupper l)
line_key loc set_mark l = some l
line_key loc yank l = some (line_yank loc l)
line_key loc (other key) l = some (if loc.isprint key then line_insert loc key l else l)
line_key loc _ l = none

yank_from_lem :
    (loc : Locale) (ring : Option (List ℕ)) (il : InputLine)
    → IsValid il
    → il.size + ring_length ring + 33 ≤ max_size
    → Refines il (yank_from loc ring il) (line_yank_from loc ring (view il))
unfolding yank_from line_yank_from
yank_from_lem loc none il v fits = record { valid = v; shows = refl; sound = refl }
yank_from_lem loc (some text) il v fits =
    let done = il_insert_text_lem loc il v text fits in
    record { valid = rebuild done.valid; shows = done.shows; sound = done.sound }

-- The text of the kill ring comes in at the left of the point.
il_yank_lem :
    (loc : Locale) (il : InputLine)
    → IsValid il
    → Affordable il
    → Refines il (il_yank loc il) (line_yank loc (view il))
unfolding il_yank line_yank
il_yank_lem loc il v fits = yank_from_lem loc il.kill_ring il v fits

-- `il_dispatch_commands` returned, with a valid input line that shows `l`.
pub record Processed (result : Option (InputLine × ℕ)) (l : Line) : Type 0 where
  pub after : InputLine
  pub code : ℕ
  pub returned : result ≡ some (after, code)
  pub valid : IsValid after
  pub shows : view after ≡ l

module _ (il : InputLine) where
  processed :
      {il' : InputLine} {l m : Line}
      → (code : ℕ) → Refines il il' l
      → some l ≡ some m
      → Processed (some (il', code)) m
  processed {il' = il'} {l = l} {m = m} code r e = record {
    after = il';
    code = code;
    returned = refl;
    valid = r.valid;
    shows = r.shows ∙ some-injective l m e;
  }

module _ (loc : Locale) (laws : LocaleLaws loc) (fuel : ℕ) (il : InputLine) (v : IsValid il)
    (fits : Affordable il) where
  insert_key :
      (key : ℕ) (printable : Bool) {l : Line}
      → some (if printable then line_insert loc key (view il) else view il) ≡ some l
      → Processed (if printable then some (il_insert_char loc key il, 1) else some (il, 0)) l
  insert_key key true e = processed il 1 (il_insert_char_lem loc laws key il v (omega arith)) e
  insert_key key false e = processed il 0 (record { valid = v; shows = refl; sound = refl }) e

  delete_key :
      {l : Line}
      → some (line_delete (view il)) ≡ some l
      → Processed (some (il_delete_char loc il, 1)) l
  delete_key {l = l} e = record {
    after = il_delete_char loc il;
    code = 1;
    returned = refl;
    valid = il_delete_char-IsValid loc il v;
    shows = view-il_delete_char loc il v ∙ some-injective _ l e;
  }

  marked_lem : Refines il (il_set_mark il) (view il)
  unfolding il_set_mark
  marked_lem = record { valid = rebuild_mark v; shows = refl; sound = refl }

  -- A command in edit mode on a valid line with memory to grow in, if it is described on lines,
  -- returns with a valid line that shows what it does there.
  pub dispatch_refines :
      (key : Key) {l : Line}
      → line_key loc key (view il) ≡ some l
      → Processed (il_dispatch_commands loc fuel true true key il) l
  unfolding il_dispatch_commands line_key
  dispatch_refines backward_char e = processed il 1 (il_backward_char_lem il v) e
  dispatch_refines forward_char e = processed il 1 (il_forward_char_lem il v) e
  dispatch_refines backward_word e = processed il 1 (il_backward_word_lem il v) e
  dispatch_refines forward_word e = processed il 1 (il_forward_word_lem il v) e
  dispatch_refines beginning_of_line e = processed il 1 (il_beginning_of_line_lem il v) e
  dispatch_refines end_of_line e = processed il 1 (il_end_of_line_lem il v) e
  dispatch_refines delete_char e = delete_key e
  dispatch_refines backward_delete_char e = processed il 1 (il_backward_delete_char_lem loc il v) e
  dispatch_refines kill_word e = processed il 1 (il_kill_word_lem il v loc) e
  dispatch_refines backward_kill_word e = processed il 1 (il_backward_kill_word_lem il v loc) e
  dispatch_refines kill_line e = processed il 1 (il_kill_line_lem loc il v true) e
  dispatch_refines kill_to_beginning_of_line e =
      processed il 1 (il_kill_to_beginning_of_line_lem loc il v) e
  dispatch_refines kill_to_end_of_line e = processed il 1 (il_kill_to_end_of_line_lem loc il v) e
  dispatch_refines downcase_word e = processed il 1 (il_downcase_word_lem loc laws il v) e
  dispatch_refines upcase_word e = processed il 1 (il_upcase_word_lem loc laws il v) e
  dispatch_refines set_mark e = processed il 1 marked_lem e
  dispatch_refines yank e = processed il 1 (il_yank_lem loc il v fits) e
  dispatch_refines (other key) e = insert_key key (loc.isprint key) e
  dispatch_refines _ e = cc

-- A session: commands that each returned, with memory enough before each.
pub data Session (loc : Locale) (fuel : ℕ) : InputLine → List Key → InputLine → Type 0 where
  over : {il : InputLine} → Session loc fuel il [] il
  press :
      {il mid after : InputLine} {key : Key} {keys : List Key} {code : ℕ}
      → Affordable il
      → il_dispatch_commands loc fuel true true key il ≡ some (mid, code)
      → Session loc fuel mid keys after
      → Session loc fuel il (key ∷ keys) after

-- The same commands on a line.
unfoldable pub line_keys : Locale → List Key → Line → Option Line
line_keys loc [] l = some l
line_keys loc (key ∷ keys) l = elim (line_key loc key l) [
  | none ↦ none
  | some l' ↦ line_keys loc keys l'
]

module _ (loc : Locale) (laws : LocaleLaws loc) (fuel : ℕ) where
  step_refines :
      (key : Key) {il mid : InputLine} {code : ℕ} {l : Line}
      → IsValid il
      → Affordable il
      → il_dispatch_commands loc fuel true true key il ≡ some (mid, code)
      → line_key loc key (view il) ≡ some l
      → IsValid mid × (view mid ≡ l)
  step_refines key {il = il} {mid = mid} {code = code} {l = l} v fits r e =
      let done = dispatch_refines loc laws fuel il v fits key e in
      let same : done.after ≡ mid =
        ap (λ (p : InputLine × ℕ). p.0)
          (some-injective (done.after, done.code) (mid, code) (sym done.returned ∙ r)) in
      (subst IsValid same done.valid, subst (λ x. view x ≡ l) same done.shows)

  line_keys_step :
      (key : Key) (keys : List Key) (l m : Line)
      → line_keys loc (key ∷ keys) l ≡ some m
      → (l' : Line) × (line_key loc key l ≡ some l') × (line_keys loc keys l' ≡ some m)
  unfolding line_keys
  line_keys_step key keys l m e = by_result (line_key loc key l) refl e
    where
      by_result :
          (r : Option Line)
          → line_key loc key l ≡ r
          → (elim r [ none ↦ none | some l' ↦ line_keys loc keys l' ]) ≡ some m
          → (l' : Line) × (line_key loc key l ≡ some l') × (line_keys loc keys l' ≡ some m)
      by_result none q e' = cc
      by_result (some l') q e' = (l', q, e')

  -- After a session of commands that are described on lines, each of which returned and had memory
  -- enough before it, from a valid line: the input line is
  -- valid, and shows what the same commands make of the line that it showed at first.
  pub Session-refines :
      {il after : InputLine} {keys : List Key} {l : Line}
      → Session loc fuel il keys after
      → IsValid il
      → line_keys loc keys (view il) ≡ some l
      → IsValid after × (view after ≡ l)
  unfolding line_keys
  Session-refines over v e = (v, some-injective _ _ e)
  Session-refines (press {il = il} {key = key} {keys = keys} fits r rest) v e =
      let (l', q, e') = line_keys_step key keys (view il) _ e in
      let (valid, shows) = step_refines key v fits r q in
      Session-refines rest valid (ap (line_keys loc keys) shows ∙ e')
