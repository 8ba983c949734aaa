-- ===== src/Command/Tests.antt =====
-- The theorems on the expansion of a command, applied to a panel with one selected file.
use gnu_gnuit.Prelude.{ℕ, ◌≡◌, refl, true, false, none, some, List, [], ◌∷◌, arith, inl}
use gnu_gnuit.Prelude.Int.{pos}
use gnu_gnuit.Panel.{Panel, EntryType}
use gnu_gnuit.Panel.Valid.{IsValid}
use gnu_gnuit.Command.Fields.{System, selection_text}
use gnu_gnuit.Command.Steps.{expanded, Expansion, go, put_panel, selected_step}
use gnu_gnuit.Command.{command_expand}
use gnu_gnuit.Command.Fit.{Fits, command_expand-Fits}
use gnu_gnuit.Command.Selected.{quoted_names, selected_step-names}

-- A user who answers "y", and the default.
abbrev agreeing : System ℕ
agreeing = record {
  il_read_char = λ message user. (b'y', user);
  il_read_line = λ question answer user. (some answer, user);
  getpwuid = λ uid. none;
  getgrgid = λ gid. none;
  stat = λ t. record { mode = 420; uid = 0; gid = 0 };
}

abbrev files : Panel
files = record {
  path = b'/' ∷ [];
  entry_list =
      record { name = b'a' ∷ []; type = EntryType.file_entry; selected = false }
      ∷ record { name = b'b' ∷ []; type = EntryType.file_entry; selected = true }
      ∷ [];
  entries = 2;
  current_entry = 0;
  first_on_screen = 0;
  plines = 5;
  scroll_step = 2;
  selected_entries = 1;
  last_index = pos 0;
  multiple_files = 0;
}

files-IsValid : IsValid files
files-IsValid = record {
  counted = refl;
  inside = omega arith;
  rows = omega arith;
  above = omega arith;
  below = omega arith;
  filled = inl refl;
  step_low = omega arith;
  step_high = omega arith;
  selection = refl;
}

-- "%s{To,%i}%i"
abbrev asking : List ℕ
asking = b'%' ∷ b's' ∷ b'{' ∷ b'T' ∷ b'o' ∷ b',' ∷ b'%' ∷ b'i' ∷ b'}' ∷ b'%' ∷ b'i' ∷ []

command_expand-Fits_example :
    Fits agreeing (command_expand agreeing (b'c' ∷ b'p' ∷ []) asking files files 0)
command_expand-Fits_example = command_expand-Fits agreeing (b'c' ∷ b'p' ∷ []) asking files files 0

abbrev begun : Expansion ℕ
begun = record { user = 0; busy = false; p = files; l = files; len = 3; dest = []; i_flag = 0 }

selected_step-names_example :
    selected_step agreeing true files [] begun
    ≡ go
        (some (quoted_names files.entry_list))
        []
        (put_panel agreeing true (selection_text files).0 (record begun { i_flag = 1 }))
selected_step-names_example =
    selected_step-names agreeing true files [] begun files-IsValid (omega arith) refl

asking_run :
    (command_expand agreeing (b'c' ∷ b'p' ∷ []) asking files files 0).0
    ≡ expanded 2 (
        b's' ∷ b'e' ∷ b'l' ∷ b'e' ∷ b'c' ∷ b't' ∷ b'e' ∷ b'd' ∷ b' ' ∷ b'e' ∷ b'n' ∷ b't' ∷ b'r'
        ∷ b'i' ∷ b'e' ∷ b's' ∷ b'"' ∷ b'b' ∷ b'"' ∷ b' ' ∷ [])
unfolding command_expand
asking_run = refl
