-- ===== src/Misc/PathLaws.antt =====
-- `minimize_path` of src/misc.c gives the path of the directory that its argument names.
use gnu_gnuit.Prelude.{
  ℕ, zero, suc, ◌≤◌, ◌<◌, ◌≡◌, refl, sym, ap, ap₂, subst, ◌∙◌, true, false, Option, none, some,
  List, [], ◌∷◌, ◌++◌, reverse, length, length-append, append_assoc, ◌==◌, if◌then◌else◌, arith,
  Bool-cases, inl, inr,
}
use mathlib.Core.List.{reverse-append, reverse-reverse}
use gnu_gnuit.Misc.Path.{
  tail_of, slash_or_end, skip_here, is_parent, minimize_loop, strip_slash, minimize_path,
}
use gnu_gnuit.Misc.Components.{
  components, parent, resolve, joined, path_of, written_of, has_slash, NoSlash, skip_here_lem,
  reverse-written_of,
}
use gnu_gnuit.Misc.PathSteps.{
  Proper, behind_name, closed, skip_here-Proper, length-skip_here, enter_lem, copy_component_lem,
  parent_lem, has_slash-reverse, written_of-Cell, strip_slash-Cell, drop_component_lem,
  strip_slash_name, length-reverse_lem, loop_end, length-parent, parent-NoSlash,
}

-- The end of the loop, its last slash off.
abbrev Ends : ℕ → List ℕ → List (List ℕ) → Type 0
Ends fuel text names =
    strip_slash (minimize_loop fuel text (written_of names))
    ≡ strip_slash (written_of (resolve names (components text)))

-- A round that enters a name, from what is left after it.
copied_lem :
    (names : List (List ℕ)) (fuel : ℕ) (first rest : List ℕ)
    → has_slash first ≡ false
    → 0 < length first
    → slash_or_end rest ≡ true
    → ((names' : List (List ℕ)) → NoSlash names' → Ends fuel rest names')
    → NoSlash names
    → strip_slash (minimize_loop fuel rest (closed rest (reverse first ++ written_of names)))
      ≡ strip_slash (written_of (resolve (first ∷ names) (behind_name rest)))
copied_lem names fuel first [] h l e loop s =
    ap strip_slash (loop_end fuel (reverse first ++ written_of names))
    ∙ strip_slash_name (reverse first) (written_of names) (has_slash-reverse first h)
        (omega (arith, l, length-reverse_lem first))
    ∙ sym (
        strip_slash-Cell (reverse first ++ written_of names)
          (written_of-Cell (reverse first) names))
copied_lem names fuel first (c ∷ rest) h l e loop s =
    loop (first ∷ names) (h, s)
    ∙ ap (λ t. strip_slash (written_of (resolve (first ∷ names) t))) {x = components (c ∷ rest)}
        {y = [] ∷ components rest} (rw (e, components) refl)

-- The same when nothing is left to copy.
named_lem :
    (names : List (List ℕ)) (fuel : ℕ) (first rest : List ℕ)
    → has_slash first ≡ false
    → slash_or_end rest ≡ true
    → Proper (first ++ rest)
    → is_parent (first ++ rest) ≡ false
    → ((names' : List (List ℕ)) → 0 < length first → NoSlash names' → Ends fuel rest names')
    → NoSlash names
    → strip_slash (minimize_loop fuel rest (closed rest (reverse first ++ written_of names)))
      ≡ strip_slash (written_of (resolve names (first ∷ behind_name rest)))
named_lem names fuel [] [] h e p q loop s = ap strip_slash (loop_end fuel (written_of names))
named_lem names fuel [] (c ∷ rest) h e p q loop s = absurd (ground (arith, e, p))
named_lem names fuel (c ∷ first) rest h e p q loop s =
    copied_lem names fuel (c ∷ first) rest h (omega arith) e (λ names'. loop names' (omega arith)) s
    ∙ ap (λ n. strip_slash (written_of (resolve n (behind_name rest))))
        (sym (enter_lem names c first rest e p q))

round_lem :
    (names : List (List ℕ)) (fuel c : ℕ) (text : List ℕ)
    → ((rest : List ℕ) (names' : List (List ℕ))
        → length rest ≤ length text
        → NoSlash names'
        → Ends fuel rest names')
    → NoSlash names
    → Ends (suc fuel) (c ∷ text) names
unfolding minimize_loop
round_lem names fuel c text loop s =
    let opath = skip_here (c ∷ text) in
    let shorter : length opath ≤ suc (length text) = length-skip_here (c ∷ text) in
    let r = copy_component_lem opath (written_of names) in
    elim (Bool-cases (is_parent opath)) [
      | inl up ↦ rw up (
          ap (λ w. strip_slash (minimize_loop fuel (tail_of (tail_of opath)) w))
            (drop_component_lem names s)
          ∙ loop (tail_of (tail_of opath)) (parent names)
              (omega (arith, shorter, length-parent opath up)) (parent-NoSlash names s)
          ∙ ap (λ n. strip_slash (written_of n))
              (parent_lem names opath up ∙ skip_here_lem names (c ∷ text)))
      | inr name ↦
          rw (name, r.copied)
            (named_lem names fuel r.first r.rest r.named r.ended
                (subst Proper r.whole (skip_here-Proper (c ∷ text)))
                (sym (ap is_parent r.whole) ∙ name)
                (λ names' l.
                  loop r.rest names'
                    (omega (arith, l, shorter, ap length r.whole, length-append r.first r.rest)))
                s
              ∙ ap (λ n. strip_slash (written_of n))
                  (ap (resolve names) (sym r.split) ∙ skip_here_lem names (c ∷ text)))
    ]

minimize_loop_lem :
    (fuel : ℕ) (text : List ℕ) (names : List (List ℕ))
    → length text ≤ fuel
    → NoSlash names
    → Ends fuel text names
minimize_loop_lem fuel [] names l s = ap strip_slash (loop_end fuel (written_of names))
minimize_loop_lem zero (c ∷ text) names l s = absurd (omega (arith, l))
minimize_loop_lem (suc fuel) (c ∷ text) names l s =
    round_lem names fuel c text
      (λ rest names' h s'. minimize_loop_lem fuel rest names' (omega (arith, l, h)) s') s

path_of_lem : (names : List (List ℕ)) → reverse (strip_slash (written_of names)) ≡ path_of names
unfolding strip_slash
path_of_lem [] = refl
path_of_lem (name ∷ names) =
    ap reverse
      (strip_slash-Cell (reverse name ++ written_of names) (written_of-Cell (reverse name) names))
    ∙ reverse-append (reverse name) (written_of names)
    ∙ ap₂ (◌++◌) (reverse-written_of names) (reverse-reverse name)
    ∙ append_assoc (joined names) (b'/' ∷ []) name

-- The directory that a path names, from the root: its names taken one by one, "." and the empty
-- name staying, ".." leaving. A relative path names none.
abbrev pub directory_of : List ℕ → Option (List ℕ)
directory_of [] = none
directory_of (c ∷ text) = if c == b'/' then some (path_of (resolve [] (components text))) else none

-- `minimize_path` gives, of every path, the directory it names: of an absolute path the names that
-- are left when each "." and empty name is dropped and each ".." takes back the name before it (and
-- nothing in the root), each behind one slash, "/" where none is left; of a relative or empty path
-- the fatal error.
pub minimize_path_lem : (path : List ℕ) → minimize_path path ≡ directory_of path
unfolding minimize_path
minimize_path_lem [] = refl
minimize_path_lem (c ∷ text) = elim (Bool-cases (c == b'/')) [
  | inl slash ↦ rw slash (
      ap (λ t. some (reverse t)) (minimize_loop_lem (length text) text [] (omega arith) tt)
      ∙ ap some (path_of_lem (resolve [] (components text))))
  | inr relative ↦ rw relative refl
]
