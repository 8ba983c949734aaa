-- ===== src/Configure.antt =====
-- src/configure.c: the configuration file, read line by line. A position in the file is the text from
-- there on, `none` where ftell's result is -1, to which fseek does not go. The buffer `line` is written
-- again by each line that is read, so what `configuration_getvarinfo` cuts in it is not kept.
pub mod Lines
pub mod Reading
pub mod Lookup
pub mod Swallowed
pub mod Settings
pub mod SettingsLaws
pub mod Tests
use gnu_gnuit.Prelude.{
  ℕ, zero, suc, ◌+◌, ◌-◌, Bool, true, false, Option, none, some, List, [], ◌∷◌, ◌++◌, length, take,
  reverse, replicate, map, not, ◌==◌, ◌&&◌, ◌||◌, if◌then◌else◌,
}
use gnu_gnuit.Stack.History.{same_text}

-- The character classes of <ctype.h>.
pub record Ctype : Type 0 where
  pub isspace : ℕ → Bool
  pub isprint : ℕ → Bool

abbrev pub max_line : ℕ
max_line = 1024

pub record Configuration : Type 0 where
  pub contents : List ℕ
  pub unread : List ℕ
  pub sectionptr : Option (List ℕ)
  pub line : List ℕ
  pub wait_msg : ℕ

-- fgets, which reads up to `n` characters: what is read, and what is left.
unfoldable pub fgets : ℕ → List ℕ → List ℕ × List ℕ
fgets zero text = ([], text)
fgets (suc n) [] = ([], [])
fgets (suc n) (c ∷ text) =
    let rest = fgets n text in if c == b'\n' then (c ∷ [], text) else (c ∷ rest.0, rest.1)

-- `for (;;) { c = fgetc(fileptr); if (c == '\n' || c == EOF) break; }`
unfoldable pub skip_line : List ℕ → List ℕ
skip_line [] = []
skip_line (c ∷ text) = let rest = skip_line text in if c == b'\n' then text else rest

-- Whether strchr finds the character; and the text before it.
unfoldable pub has_char : ℕ → List ℕ → Bool
has_char d [] = false
has_char d (c ∷ text) = let rest = has_char d text in if c == d then true else rest

unfoldable pub before : ℕ → List ℕ → List ℕ
before d [] = []
before d (c ∷ text) = let rest = before d text in if c == d then [] else c ∷ rest

unfoldable pub all_space : Ctype → List ℕ → Bool
all_space ct [] = true
all_space ct (c ∷ text) = ct.isspace c && all_space ct text

-- `if (line[len - 1] == '\n') line[len - 1] = 0;`
unfoldable pub strip_newline : List ℕ → List ℕ
strip_newline [] = []
strip_newline (c ∷ []) = if c == b'\n' then [] else c ∷ []
strip_newline (c ∷ d ∷ text) = c ∷ strip_newline (d ∷ text)

-- What `configuration_getline` makes of the line that fgets has read; none for a comment.
unfoldable pub line_of : Ctype → List ℕ → Option (List ℕ)
unfolding has_char before all_space strip_newline
line_of ct text =
    if has_char b'#' text
    then (if all_space ct (before b'#' text) then none else some (before b'#' text))
    else some (strip_newline text)

-- The state after one round of the loop of `configuration_getline`, before `line` is set, and the text
-- of the line, from what fgets has read.
unfoldable pub keep_line : Configuration → List ℕ × List ℕ → Configuration × List ℕ
unfolding skip_line
keep_line conf (text, rest) =
    if length text == max_line - 1
    then (record conf { unread = skip_line rest; wait_msg = conf.wait_msg + 1 }, text)
    else (record conf { unread = rest }, text)

unfoldable pub read_line : Configuration → Configuration × List ℕ
unfolding fgets keep_line
read_line conf = keep_line conf (fgets (max_line - 1) conf.unread)

-- fgets returns NULL.
unfoldable pub at_end : List ℕ → Bool
at_end [] = true
at_end (c ∷ text) = false

-- After a round: the rest of the loop, `again`, goes on behind a comment.
unfoldable pub take_line :
    Configuration × Bool → Configuration → Option (List ℕ) → Configuration × Bool
take_line again conf none = again
take_line again conf (some line) = (record conf { line = line }, true)

module _ (ct : Ctype) where
  -- A round reads a character at least. The flag is the result.
  unfoldable pub getline_loop : ℕ → Configuration → Configuration × Bool
  unfolding read_line line_of take_line at_end
  getline_loop zero conf = (conf, false)
  getline_loop (suc fuel) conf =
      let (conf', read) = read_line conf in
      let again = getline_loop fuel conf' in
      if at_end conf.unread then (conf, false) else take_line again conf' (line_of ct read)

  unfoldable pub configuration_getline : Configuration → Configuration × Bool
  unfolding getline_loop
  configuration_getline conf = getline_loop (suc (length conf.unread)) conf

-- A round of the loop of `configuration_section`, on the line that was read; `again` is the loop. The
-- section is found where `sectionptr` is set.
unfoldable pub section_step :
    (Configuration → Configuration) → List ℕ → Configuration × Bool → Configuration
unfolding same_text
section_step again section_name (conf, false) = record conf { sectionptr = none }
section_step again section_name (conf, true) =
    if same_text section_name conf.line
    then record conf { sectionptr = some conf.unread }
    else again conf

module _ (ct : Ctype) where
  unfoldable pub section_loop : ℕ → List ℕ → Configuration → Configuration
  unfolding configuration_getline section_step
  section_loop zero section_name conf = record conf { sectionptr = none }
  section_loop (suc fuel) section_name conf =
      section_step (section_loop fuel section_name) section_name (configuration_getline ct conf)

  unfoldable pub configuration_section : List ℕ → Configuration → Configuration
  unfolding section_loop
  configuration_section section_name conf =
      section_loop (suc (length conf.contents)) section_name
        (record conf { unread = conf.contents })

-- What sscanf reads for "%s".
unfoldable pub skip_spaces : Ctype → List ℕ → List ℕ
skip_spaces ct [] = []
skip_spaces ct (c ∷ text) =
    let rest = skip_spaces ct text in if ct.isspace c then rest else c ∷ text

unfoldable pub word : Ctype → List ℕ → List ℕ
word ct [] = []
word ct (c ∷ text) = let rest = word ct text in if ct.isspace c then [] else c ∷ rest

unfoldable pub first_word : Ctype → List ℕ → List ℕ
unfolding skip_spaces word
first_word ct text = word ct (skip_spaces ct text)

-- The text of a field without the white space around it; NULL where nothing is left.
unfoldable pub trim : Ctype → List ℕ → Option (List ℕ)
unfolding skip_spaces
trim ct text = elim (reverse (skip_spaces ct (reverse (skip_spaces ct text)))) [
  | [] ↦ none
  | c ∷ rest ↦ some (c ∷ rest)
]

-- The text behind a separator.
unfoldable pub behind : ℕ → List ℕ → List ℕ
behind d [] = []
behind d (c ∷ text) = let rest = behind d text in if c == d then text else rest

-- The fields of a value: each ends at the next separator, the last one too.
unfoldable pub dest_fields : Ctype → ℕ → List ℕ → List (Option (List ℕ))
unfolding trim before behind
dest_fields ct zero text = []
dest_fields ct (suc fields) text =
    trim ct (before b';' text) ∷ dest_fields ct fields (behind b';' text)

-- `if ((ptr = strchr(line, IAS)) && *++ptr)`
unfoldable pub value_fields : Ctype → ℕ → List ℕ → List (Option (List ℕ))
unfolding dest_fields behind
value_fields ct fields line = dest_fields ct fields (behind b'=' line)

unfoldable pub is_printable : Ctype → List ℕ → Bool
is_printable ct [] = ct.isprint 0
is_printable ct (c ∷ text) = ct.isprint c

-- What `configuration_getvarinfo` gives: the state, `var_name`, and the fields.
pub record VarInfo : Type 0 where
  pub after : Configuration
  pub var_name : List ℕ
  pub dest : List (Option (List ℕ))

module _ (ct : Ctype) (fields : ℕ) (seek : Bool) where
  -- `while` has seen the end of the file or an empty line.
  unfoldable pub var_missing : List ℕ → Configuration → VarInfo
  var_missing var_name conf = record {
    after = conf;
    var_name = if seek then var_name else [];
    dest = replicate fields none;
  }

  -- A round of the loop, on the line that was read; `again` is the loop.
  unfoldable pub var_line : (Configuration → VarInfo) → List ℕ → Configuration → List ℕ → VarInfo
  unfolding var_missing first_word is_printable same_text value_fields
  var_line again var_name conf [] = var_missing var_name conf
  var_line again var_name conf (c ∷ text) =
      let buf = if seek then first_word ct (c ∷ text) else take 32 (first_word ct (c ∷ text)) in
      if not (is_printable ct buf)
      then record { after = conf; var_name = var_name; dest = replicate fields none }
      else if not seek || same_text var_name buf
      then record {
        after = conf;
        var_name = if seek then var_name else buf;
        dest = value_fields ct fields (c ∷ text);
      }
      else again conf

  unfoldable pub var_step : (Configuration → VarInfo) → List ℕ → Configuration × Bool → VarInfo
  unfolding var_line
  var_step again var_name (conf, false) = var_missing var_name conf
  var_step again var_name (conf, true) = var_line again var_name conf conf.line

  unfoldable pub var_loop : ℕ → List ℕ → Configuration → VarInfo
  unfolding configuration_getline var_step
  var_loop zero var_name conf = var_missing var_name conf
  var_loop (suc fuel) var_name conf =
      var_step (var_loop fuel var_name) var_name (configuration_getline ct conf)

  unfoldable pub configuration_getvarinfo : List ℕ → Configuration → VarInfo
  unfolding var_loop
  configuration_getvarinfo var_name conf =
      let start =
        if seek
        then elim conf.sectionptr [ none ↦ conf | some text ↦ record conf { unread = text } ]
        else conf in
      var_loop (suc (length start.unread)) var_name start
