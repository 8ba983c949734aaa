-- ===== src/Panel.antt =====
-- src/panel.c: a panel's list of files, its cursor, what of it is on the screen, and the selection.
-- The record has the fields of `panel_t` that these functions use. What they draw is left out.
-- Differences of `int`s are written as sums on the other side of a comparison; the places where a
-- difference is stored hold the same value for a panel of at least two lines.
pub mod Cursor
pub mod Selection
pub mod Valid
pub mod Moves
pub mod Counts
pub mod Isearch
pub mod Iteration
pub mod Sort
pub mod Tests
use gnu_gnuit.Prelude.{ℕ, Bool, true, false, List, [], ◌∷◌, ◌==◌, if◌then◌else◌}
use gnu_gnuit.Prelude.Int.{ℤ}

-- The kinds of `dir_entry_t.type`.
pub data EntryType : Type 0 where
  dir_entry file_entry symlink_entry fifo_entry socket_entry : EntryType

pub record DirEntry : Type 0 where
  pub name : List ℕ
  pub type : EntryType
  pub selected : Bool

pub record Panel : Type 0 where
  pub path : List ℕ
  pub entry_list : List DirEntry
  pub entries : ℕ
  pub current_entry : ℕ
  pub first_on_screen : ℕ
  pub plines : ℕ
  pub scroll_step : ℕ
  pub selected_entries : ℕ
  pub last_index : ℤ
  pub multiple_files : ℕ

-- `this->path[0] == '/' && this->path[1] == '\0'`
unfoldable pub rootdir : Panel → Bool
rootdir this = is_root this.path
  where
    is_root : List ℕ → Bool
    is_root [] = false
    is_root (c ∷ []) = c == b'/'
    is_root (c ∷ _ ∷ _) = false

-- `type != DIR_ENTRY`
unfoldable pub is_file : DirEntry → Bool
is_file e = elim e.type [ dir_entry ↦ false | _ ↦ true ]
