-- ===== src/InputLine/Tests.antt =====
-- The theorems on the input line of src/inputline.c, applied to the line "$ ab  c" of a terminal.
use gnu_gnuit.Prelude.{
  ℕ, zero, suc, ◌+◌, ◌-◌, min, max, reverse, map, ◌≤◌, ◌<◌, ◌≡◌, ◌≢◌, refl, Bool, true, false, ◌&&◌,
  ◌||◌, not, none, some, List, [], ◌∷◌, length, get_or, leb, ltb, ◌==◌, if◌then◌else◌, arith,
}
use gnu_gnuit.Prelude.Int.{pos}
use gnu_gnuit.Window.{Window}
use gnu_gnuit.Wide.{Locale, LocaleLaws}
use gnu_gnuit.InputLine.{InputLine, Operation}
use gnu_gnuit.InputLine.HistoryKeys.{HistoryLibrary, Browsing, il_previous, il_history}
use gnu_gnuit.InputLine.HistoryLaws.{il_history_lem}
use gnu_gnuit.InputLine.Valid.{IsValid, MarkFits, Refines, view}
use gnu_gnuit.Wide.{c_str}
use gnu_gnuit.InputLine.Move.{il_backward_char}
use gnu_gnuit.InputLine.Edit.{
  il_insert_char, il_delete_char, il_delete_horizontal_space, il_insert_text, il_set_static_text,
}
use gnu_gnuit.InputLine.Kill.{il_kill_region}
use gnu_gnuit.InputLine.Dispatch.{Key, il_dispatch_commands}
use gnu_gnuit.InputLine.Line.{
  span, shown, line_backward_char, line_insert, line_insert_text, line_kill_to_end,
}
use gnu_gnuit.InputLine.Insertion.{il_insert_char_lem}
use gnu_gnuit.InputLine.TextLaws.{Solid, il_insert_text_lem}
use gnu_gnuit.InputLine.StaticText.{il_set_static_text_lem, with_prompt}
use gnu_gnuit.InputLine.Region.{killed}
use gnu_gnuit.InputLine.Marks.{il_kill_region_lem, il_kill_region-breaks}
use gnu_gnuit.InputLine.Deletion.{overrun-il_delete_char}
use gnu_gnuit.InputLine.Spaces.{line_skip_spaces, il_delete_horizontal_space-hangs}
use gnu_gnuit.InputLine.SpacesEnd.{line_trim, Ends, il_delete_horizontal_space-Ends}
use gnu_gnuit.InputLine.Session.{
  Session, Processed, Affordable, line_key, line_keys, dispatch_refines, Session-refines,
}

abbrev ascii : Locale
ascii = record {
  isprint = λ c. leb 32 c && leb c 126;
  iswprint = λ c. leb 32 c && leb c 126;
  iswalnum = λ c. leb b'a' c && leb c b'z';
  towlower = λ c. if leb b'A' c && leb c b'Z' then c + 32 else c;
  towupper = λ c. if leb b'a' c && leb c b'z' then c - 32 else c;
  wcswidth = λ text. pos (length text);
  fresh = λ i. 7;
}

ascii_laws : LocaleLaws ascii
ascii_laws = record {
  nul_unprintable = refl;
  lower_solid = λ c h e. ground arith;
  upper_solid = λ c h e. ground arith;
}

abbrev screen : Window
screen = record {
  x = pos 0;
  y = pos 23;
  wlines = pos 1;
  wcolumns = pos 80;
  cursor_x = pos 0;
  cursor_y = pos 0;
}

-- An input line that shows `text`, `static` characters of it the prompt.
abbrev line_of : List ℕ → ℕ → ℕ → ℕ → InputLine
line_of text static point mark = record {
  window = screen;
  echo = 1;
  error = 0;
  last_operation = Operation.no_operation;
  wcadjust = pos 0;
  point = point;
  mark = mark;
  ilcolumns = 80;
  illine = 23;
  length = length text;
  static_length = static;
  dynamic_length = length text - static;
  size = length text + 10;
  buffer = λ i. get_or text i 0;
  kill_ring = none;
  history_file = [];
  overrun = false;
}

abbrev all_solid : List ℕ → Bool
all_solid [] = true
all_solid (c ∷ text) = not (c == 0) && all_solid text

all_solid_sound :
    (text : List ℕ) → all_solid text ≡ true → (i : ℕ) → i < length text → get_or text i 0 ≢ 0
all_solid_sound [] h i inside e = omega (arith, inside)
all_solid_sound (c ∷ text) h zero inside e = ground arith
all_solid_sound (c ∷ text) h (suc i) inside e =
    all_solid_sound text (ground arith) i (omega arith) e

get_or-end : (text : List ℕ) → get_or text (length text) 0 ≡ 0
get_or-end [] = refl
get_or-end (c ∷ text) = get_or-end text

line_of-IsValid :
    (text : List ℕ) (static point mark : ℕ)
    → all_solid text ≡ true
    → static ≤ point
    → point ≤ length text
    → length text ≤ 1000
    → IsValid (line_of text static point mark)
line_of-IsValid text static point mark h low high few = record {
  lengths = omega arith;
  low = low;
  high = high;
  room = omega arith;
  small = omega arith;
  ended = get_or-end text;
  solid = all_solid_sound text h;
}

-- "$ ab  c", with the point behind "ab" and the mark at the end.
abbrev sample : InputLine
sample = line_of (b'$' ∷ b' ' ∷ b'a' ∷ b'b' ∷ b' ' ∷ b' ' ∷ b'c' ∷ []) 2 4 7

sample-IsValid : IsValid sample
sample-IsValid =
    line_of-IsValid (b'$' ∷ b' ' ∷ b'a' ∷ b'b' ∷ b' ' ∷ b' ' ∷ b'c' ∷ []) 2 4 7 refl (omega arith)
      (omega arith) (omega arith)

sample-MarkFits : MarkFits sample
sample-MarkFits = record { mark_low = omega arith; mark_high = omega arith }

-- "$ " alone, with a space and a character behind the prompt.
abbrev spaced : InputLine
spaced = line_of (b'$' ∷ b' ' ∷ b' ' ∷ b'c' ∷ []) 2 2 2

spaced-IsValid : IsValid spaced
spaced-IsValid =
    line_of-IsValid (b'$' ∷ b' ' ∷ b' ' ∷ b'c' ∷ []) 2 2 2 refl (omega arith) (omega arith)
      (omega arith)

il_insert_char_example :
    Refines sample (il_insert_char ascii b'x' sample) (line_insert ascii b'x' (view sample))
il_insert_char_example =
    il_insert_char_lem ascii ascii_laws b'x' sample sample-IsValid (omega arith)

il_insert_text_example :
    Refines sample
      (il_insert_text ascii (some (b'x' ∷ b'y' ∷ [])) sample)
      (line_insert_text ascii (b'x' ∷ b'y' ∷ []) (view sample))
unfolding c_str
il_insert_text_example =
    il_insert_text_lem ascii sample sample-IsValid (b'x' ∷ b'y' ∷ []) (omega arith)

il_set_static_text_example :
    Refines sample
      (il_set_static_text ascii (b'%' ∷ []) sample)
      (with_prompt (map (shown ascii) (c_str (b'%' ∷ []))) (view sample))
unfolding c_str
il_set_static_text_example =
    il_set_static_text_lem ascii sample sample-IsValid (b'%' ∷ []) (omega arith)

il_kill_region_example :
    Refines sample
      (il_kill_region ascii sample)
      (killed true sample (min sample.mark sample.point) (max sample.mark sample.point))
il_kill_region_example = il_kill_region_lem ascii sample sample-IsValid sample-MarkFits

overrun-il_delete_char_example : (il_delete_char ascii sample).overrun ≡ (
    if ltb sample.point sample.length
    then sample.overrun || ltb sample.size (sample.length + 2)
    else sample.overrun)
overrun-il_delete_char_example = overrun-il_delete_char ascii sample sample-IsValid

-- The mark far behind the end, as deletions leave it.
abbrev stale : InputLine
stale = line_of (b'$' ∷ b' ' ∷ b'a' ∷ []) 2 2 9

il_kill_region-breaks_example : ¬ (IsValid (il_kill_region ascii stale))
il_kill_region-breaks_example =
    il_kill_region-breaks ascii stale
      (line_of-IsValid (b'$' ∷ b' ' ∷ b'a' ∷ []) 2 2 9 refl (omega arith) (omega arith)
        (omega arith))
      (omega arith) (omega arith) (omega arith)

right_not_nil : (c : ℕ) (text : List ℕ) → (c ∷ text) ≢ []
right_not_nil c text e = cc

il_delete_horizontal_space-hangs_example : il_delete_horizontal_space ascii 100 spaced ≡ none
unfolding line_skip_spaces span
il_delete_horizontal_space-hangs_example =
    il_delete_horizontal_space-hangs ascii 100 spaced spaced-IsValid (omega arith) refl refl refl
      (right_not_nil b'c' [])

-- A prompt without a space at its end.
abbrev bare : InputLine
bare = line_of (b'$' ∷ b'a' ∷ b' ' ∷ b' ' ∷ b'c' ∷ []) 1 3 1

il_delete_horizontal_space-Ends_example :
    Ends (il_delete_horizontal_space ascii 100 bare) (line_trim (line_skip_spaces (view bare)))
il_delete_horizontal_space-Ends_example =
    il_delete_horizontal_space-Ends ascii 100 bare
      (line_of-IsValid (b'$' ∷ b'a' ∷ b' ' ∷ b' ' ∷ b'c' ∷ []) 1 3 1 refl (omega arith)
        (omega arith) (omega arith))
      (record { some_prompt = omega arith; no_space = λ e. omega (arith, e) }) refl (omega arith)

dispatch_refines_example :
    Processed
      (il_dispatch_commands ascii 100 true true Key.kill_to_end_of_line sample)
      (line_kill_to_end (view sample))
unfolding line_key
dispatch_refines_example =
    dispatch_refines ascii ascii_laws 100 sample sample-IsValid (omega arith)
      Key.kill_to_end_of_line refl

-- The point goes back, and a character comes in.
abbrev after_back : InputLine
after_back = il_backward_char sample

abbrev after_insert : InputLine
after_insert = il_insert_char ascii b'x' after_back

after_back-fits : Affordable after_back
unfolding il_backward_char
after_back-fits = omega arith

Session-refines_example :
    IsValid after_insert
    × (view after_insert ≡ line_insert ascii b'x' (line_backward_char (view sample)))
unfolding il_dispatch_commands line_key line_keys
Session-refines_example =
    Session-refines ascii ascii_laws 100 {keys = Key.backward_char ∷ Key.other b'x' ∷ []}
      (Session.press {il = sample} {mid = after_back} (omega arith) refl
        (Session.press {il = after_back} {mid = after_insert} after_back-fits refl Session.over))
      sample-IsValid refl

-- The sample in a window of four columns, too few for the prompt and its text.
abbrev narrow : InputLine
narrow = record sample { ilcolumns = 4 }

-- A history of the line "ls" alone, whose state is the position in it.
abbrev one_line : HistoryLibrary ℕ
one_line = record {
  where_history = λ h. h;
  previous_history = λ h. (some (b'l' ∷ b's' ∷ []), 0);
  next_history = λ h. (none, 1);
  history_set_pos = λ position h. position;
  add_history = λ line h. h;
}

abbrev browsed : Browsing ℕ
browsed = record { il = sample; history = 1; browsing = false; last_history_position = 0 }

two_letters : Solid (b'l' ∷ b's' ∷ [])
two_letters zero h e = omega (arith, e)
two_letters (suc zero) h e = omega (arith, e)
two_letters (suc (suc i)) h e = omega (arith, h)

il_history_example :
    let st' = il_history ascii one_line il_previous browsed in
    Refines sample st'.il (record (view sample) { left = reverse (b'l' ∷ b's' ∷ []); right = [] })
    × (st'.history ≡ 0)
    × (st'.browsing ≡ true)
    × (st'.last_history_position ≡ (if false then 0 else one_line.where_history 1))
il_history_example =
    il_history_lem ascii (b'l' ∷ b's' ∷ []) two_letters sample sample-IsValid (omega arith) one_line
      0 browsed refl refl
