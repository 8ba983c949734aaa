-- ===== src/DirHistory.antt =====
-- src/git.c: the directories that the panels have shown, `dir_history` and its functions. What
-- `panel_action` does with act_CHDIR is left out: a step gives the directory it is called with, `none`
-- for tty_beep.
pub mod Laws
pub mod Tests
use gnu_gnuit.Prelude.{
  ℕ, zero, suc, ◌+◌, ◌-◌, Option, none, some, List, [], ◌∷◌, ◌++◌, ◌==◌, ltb, take, if◌then◌else◌,
}

-- NULL is the empty list.
pub record DirHistory : Type 0 where
  pub dir_history : List (List ℕ)
  pub dir_history_count : ℕ
  pub dir_history_point : ℕ

-- `dir_history[i]`; `none` outside the block.
unfoldable pub dir_at : List (List ℕ) → ℕ → Option (List ℕ)
dir_at [] i = none
dir_at (d ∷ rest) zero = some d
dir_at (d ∷ rest) (suc i) = dir_at rest i

unfoldable pub dir_history_reset : DirHistory → DirHistory
dir_history_reset h = record { dir_history = []; dir_history_count = 0; dir_history_point = 0 }

-- The block grows to one more entry, and the directory comes into the last one.
unfoldable pub dir_history_add : List ℕ → DirHistory → DirHistory
dir_history_add directory h = record {
  dir_history = take h.dir_history_count h.dir_history ++ directory ∷ [];
  dir_history_count = h.dir_history_count + 1;
  dir_history_point = h.dir_history_count;
}

unfoldable pub dir_history_next : DirHistory → DirHistory × Option (List ℕ)
unfolding dir_at
dir_history_next h =
    if ltb (h.dir_history_point + 1) h.dir_history_count
    then (
      record h { dir_history_point = h.dir_history_point + 1 },
      dir_at h.dir_history (h.dir_history_point + 1),
    )
    else (h, none)

unfoldable pub dir_history_prev : DirHistory → DirHistory × Option (List ℕ)
unfolding dir_at
dir_history_prev h = if h.dir_history_point == 0 then (h, none) else (
  record h { dir_history_point = h.dir_history_point - 1 },
  dir_at h.dir_history (h.dir_history_point - 1),
)
