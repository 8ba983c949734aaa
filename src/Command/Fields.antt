-- ===== src/Command/Fields.antt =====
-- The letters of `command_expand` in src/git.c, and the texts that the fields of a panel give.
use gnu_gnuit.Prelude.{
  ℕ, zero, suc, ◌+◌, ◌/◌, ◌%◌, Bool, true, false, Option, none, some, List, [], ◌∷◌, ◌++◌, ◌==◌,
  ◌&&◌, ◌||◌, leb, if◌then◌else◌,
}
use gnu_gnuit.Panel.{
  Panel, DirEntry, EntryType, dir_entry, file_entry, symlink_entry, fifo_entry, socket_entry,
}
use gnu_gnuit.Panel.Isearch.{name_at}
use gnu_gnuit.Panel.Selection.{panel_init_iterator, panel_get_next}

-- The fields of the current `dir_entry_t` that lstat has filled.
pub record Stat : Type 0 where
  pub mode : ℕ
  pub uid : ℕ
  pub gid : ℕ

-- What the function asks of the rest of the system: `il_read_char` and `il_read_line`, with the user's
-- answer and what comes of him, and the names that `getpwuid` and `getgrgid` find.
pub record System (U : Type 0) : Type 0 where
  pub il_read_char : List ℕ → U → ℕ × U
  pub il_read_line : List ℕ → List ℕ → U → Option (List ℕ) × U
  pub getpwuid : ℕ → Option (List ℕ)
  pub getgrgid : ℕ → Option (List ℕ)
  pub stat : Panel → Stat

-- The cases of the switch.
pub data Directive : Type 0 where
  ask prompt any_file mode owner group path base selected unknown : Directive
  typed : EntryType → Directive

-- iswlower, of the letters of the switch
abbrev pub is_lower : ℕ → Bool
is_lower c = leb b'a' c && leb c b'z'

unfoldable pub directive : ℕ → Directive
directive c =
    if c == b'?'
    then ask
    else if c == b's'
    then prompt
    else if c == b'f' || c == b'F'
    then typed file_entry
    else if c == b'd' || c == b'D'
    then typed dir_entry
    else if c == b'l' || c == b'L'
    then typed symlink_entry
    else if c == b't' || c == b'T'
    then typed fifo_entry
    else if c == b'z' || c == b'Z'
    then typed socket_entry
    else if c == b'a' || c == b'A'
    then any_file
    else if c == b'm' || c == b'M'
    then mode
    else if c == b'o' || c == b'O'
    then owner
    else if c == b'g' || c == b'G'
    then group
    else if c == b'p' || c == b'P'
    then path
    else if c == b'b' || c == b'B'
    then base
    else if c == b'i' || c == b'I'
    then selected
    else unknown

-- `"%o"`, of a number of at most so many digits.
unfoldable pub octal : ℕ → ℕ → List ℕ
octal zero n = []
octal (suc digits) n =
    let front = octal digits (n / 8) in
    if leb 8 n then front ++ (b'0' + n % 8) ∷ [] else (b'0' + n % 8) ∷ []

-- `"\"%s\""`
unfoldable pub quoted : List ℕ → List ℕ
quoted text = b'"' ∷ (text ++ b'"' ∷ [])

unfoldable pub same_type : EntryType → EntryType → Bool
same_type dir_entry dir_entry = true
same_type file_entry file_entry = true
same_type symlink_entry symlink_entry = true
same_type fifo_entry fifo_entry = true
same_type socket_entry socket_entry = true
same_type a b = false

-- `dir_entry[i].type`; a panel always has an entry.
unfoldable pub type_at : List DirEntry → ℕ → EntryType
type_at [] i = dir_entry
type_at (e ∷ rest) zero = e.type
type_at (e ∷ rest) (suc i) = type_at rest i

unfoldable pub panel_get_current_file_type : Panel → EntryType
unfolding type_at
panel_get_current_file_type this = type_at this.entry_list this.current_entry

unfoldable pub panel_get_current_file_name : Panel → List ℕ
unfolding name_at
panel_get_current_file_name this = name_at this.entry_list this.current_entry

-- `strrchr(text, '/') + 1`; `none` for NULL.
unfoldable pub behind_last_slash : List ℕ → Option (List ℕ)
behind_last_slash [] = none
behind_last_slash (c ∷ text) = elim (behind_last_slash text) [
  | some rest ↦ some rest
  | none ↦ if c == b'/' then some text else none
]

-- `(*++sptr) ? sptr : "/root"`
unfoldable pub or_root : List ℕ → List ℕ
or_root [] = b'/' ∷ b'r' ∷ b'o' ∷ b'o' ∷ b't' ∷ []
or_root (c ∷ text) = c ∷ text

-- What `%i` does with the result of `panel_get_next`; `on` is what the loop does from there.
unfoldable pub gathered :
    List DirEntry → (Panel → Panel × List ℕ) → Panel × Option ℕ → Panel × List ℕ
unfolding name_at quoted
gathered list on (t, none) = (t, [])
gathered list on (t, some entry) =
    let rest = on t in (rest.0, quoted (name_at list entry) ++ b' ' ∷ rest.1)

-- The loop of `%i`: the panel after it, and what it writes for each entry. A call of `panel_get_next`
-- for every entry and one more end it.
unfoldable pub gather : ℕ → Panel → Panel × List ℕ
unfolding panel_get_next gathered
gather zero t = (t, [])
gather (suc fuel) t = gathered t.entry_list (gather fuel) (panel_get_next t)

unfoldable pub selection_text : Panel → Panel × List ℕ
unfolding gather panel_init_iterator
selection_text t = gather (t.entries + 1) (panel_init_iterator t)
