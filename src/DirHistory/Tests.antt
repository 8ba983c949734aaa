-- ===== src/DirHistory/Tests.antt =====
-- The theorem on the directory history, applied to one directory and a second.
use gnu_gnuit.Prelude.{◌-◌, ◌≡◌, refl, some, [], ◌∷◌, arith}
use gnu_gnuit.DirHistory.{DirHistory, dir_at, dir_history_add, dir_history_next, dir_history_prev}
use gnu_gnuit.DirHistory.Laws.{IsWhole, dir_history_add_lem}

abbrev one_directory : DirHistory
one_directory = record {
  dir_history = (b'/' ∷ []) ∷ [];
  dir_history_count = 1;
  dir_history_point = 0;
}

abbrev two_directories : DirHistory
two_directories = dir_history_add (b'/' ∷ b'u' ∷ []) one_directory

dir_history_add_example :
    IsWhole two_directories
    × (dir_at two_directories.dir_history two_directories.dir_history_point
        ≡ some (b'/' ∷ b'u' ∷ []))
    × ((dir_history_prev two_directories).1 ≡ dir_at one_directory.dir_history (1 - 1))
    × (dir_history_next (dir_history_prev two_directories).0
        ≡ (two_directories, some (b'/' ∷ b'u' ∷ [])))
dir_history_add_example =
    dir_history_add_lem (b'/' ∷ b'u' ∷ []) one_directory
      (record { counted = refl; inside = omega arith })
