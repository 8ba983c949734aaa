-- ===== src/Misc/Tests.antt =====
-- The theorem on truncation, applied to a name that is cut.
use gnu_gnuit.Prelude.{ℕ, ◌≡◌, some, List, [], ◌∷◌}
use gnu_gnuit.Misc.Path.{minimize_path}
use gnu_gnuit.Misc.PathLaws.{minimize_path_lem}

-- "/a/./b//../c/": "/a/c".
abbrev winding : List ℕ
winding =
    b'/' ∷ b'a' ∷ b'/' ∷ b'.' ∷ b'/' ∷ b'b' ∷ b'/' ∷ b'/' ∷ b'.' ∷ b'.' ∷ b'/' ∷ b'c' ∷ b'/' ∷ []

minimize_path_example : minimize_path winding ≡ some (b'/' ∷ b'a' ∷ b'/' ∷ b'c' ∷ [])
minimize_path_example = minimize_path_lem winding
