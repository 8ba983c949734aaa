-- ===== src/DirHistory/Laws.antt =====
-- The functions on `dir_history` of src/git.c read inside its block, and undo each other.
use gnu_gnuit.Prelude.{
  ℕ, zero, suc, ◌+◌, ◌-◌, ◌<◌, ◌≤◌, ◌≡◌, refl, sym, ap, ◌∙◌, true, false, ltb, ◌==◌, some, List, [],
  ◌∷◌, ◌++◌, length, length-append, take, arith,
}
use gnu_gnuit.DirHistory.{DirHistory, dir_at, dir_history_add, dir_history_next, dir_history_prev}

-- The block holds the entries that are counted, and the point is at one of them.
pub record IsWhole (h : DirHistory) : Type 0 where
  pub counted : length h.dir_history ≡ h.dir_history_count
  pub inside : h.dir_history_point < h.dir_history_count

take-all : (xs : List (List ℕ)) (n : ℕ) → length xs ≤ n → take n xs ≡ xs
take-all [] zero h = refl
take-all [] (suc n) h = refl
take-all (d ∷ xs) zero h = absurd (omega (arith, h))
take-all (d ∷ xs) (suc n) h = ap (d ∷◌) (take-all xs n (omega (arith, h)))

dir_at-last : (xs : List (List ℕ)) (d : List ℕ) → dir_at (xs ++ d ∷ []) (length xs) ≡ some d
unfolding dir_at
dir_at-last [] d = refl
dir_at-last (e ∷ xs) d = dir_at-last xs d

dir_at-before :
    (xs : List (List ℕ)) (d : List ℕ) (i : ℕ)
    → i < length xs
    → dir_at (xs ++ d ∷ []) i ≡ dir_at xs i
unfolding dir_at
dir_at-before [] d i h = absurd (omega (arith, h))
dir_at-before (e ∷ xs) d zero h = refl
dir_at-before (e ∷ xs) d (suc i) h = dir_at-before xs d i (omega (arith, h))

dir_history_prev_step :
    (h : DirHistory)
    → 0 < h.dir_history_point
    → dir_history_prev h ≡ (
      record h { dir_history_point = h.dir_history_point - 1 },
      dir_at h.dir_history (h.dir_history_point - 1),
    )
unfolding dir_history_prev
dir_history_prev_step h later =
    let no : (h.dir_history_point == 0) ≡ false = ground (arith, later) in simp no refl

dir_history_next_step :
    (h : DirHistory) (n : ℕ)
    → n ≡ h.dir_history_point + 1
    → n < h.dir_history_count
    → dir_history_next h ≡ (record h { dir_history_point = n }, dir_at h.dir_history n)
unfolding dir_history_next
dir_history_next_step h n e more =
    let on : ltb (h.dir_history_point + 1) h.dir_history_count ≡ true = ground (arith, e, more) in
    simp on (
      ap (λ k. (record h { dir_history_point = k }, dir_at h.dir_history k))
        {x = h.dir_history_point + 1} {y = n} (sym e))

-- A directory added to a whole history becomes its current and last entry, the entries before it stay,
-- and the history is whole; the previous directory is then the entry that was last, and the next one
-- after that the directory added.
pub dir_history_add_lem :
    (directory : List ℕ) (h : DirHistory)
    → IsWhole h
    → let added = dir_history_add directory h in
      IsWhole added
      × (dir_at added.dir_history added.dir_history_point ≡ some directory)
      × ((dir_history_prev added).1 ≡ dir_at h.dir_history (h.dir_history_count - 1))
      × (dir_history_next (dir_history_prev added).0 ≡ (added, some directory))
unfolding dir_history_add dir_history_prev dir_history_next
dir_history_add_lem directory h v =
    let added = dir_history_add directory h in
    let same = take-all h.dir_history h.dir_history_count (omega (arith, v.counted)) in
    let current =
      ap (λ xs. dir_at (xs ++ directory ∷ []) h.dir_history_count) same
      ∙ ap (dir_at (h.dir_history ++ directory ∷ [])) (sym v.counted)
      ∙ dir_at-last h.dir_history directory in
    let back = dir_history_prev_step added (omega (arith, v.inside)) in
    (
      record {
        counted =
            length-append (take h.dir_history_count h.dir_history) (directory ∷ [])
            ∙ ap (λ xs. length xs + 1) same
            ∙ ap (◌+ 1) v.counted;
        inside = omega arith;
      },
      current,
      ap (λ r. r.1) back
          ∙ ap (λ xs. dir_at (xs ++ directory ∷ []) (h.dir_history_count - 1)) same
          ∙ dir_at-before h.dir_history directory (h.dir_history_count - 1)
              (omega (arith, v.counted, v.inside)),
      ap (λ r. dir_history_next r.0) back
          ∙ dir_history_next_step (record added { dir_history_point = h.dir_history_count - 1 })
              h.dir_history_count (omega (arith, v.inside)) (omega arith)
          ∙ ap (λ r. (added, r)) current,
    )
