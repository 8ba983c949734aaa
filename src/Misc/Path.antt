-- ===== src/Misc/Path.antt =====
-- src/misc.c: `minimize_path`. The path is read from `opath` and written through `cpath`, which
-- never overtakes it; the model has the unread text, and what is written, last character first.
use gnu_gnuit.Prelude.{
  ℕ, zero, suc, true, Bool, Option, none, some, List, [], ◌∷◌, reverse, ◌==◌, ◌&&◌, ◌||◌, length,
  if◌then◌else◌,
}

-- The character at the head of a string, NUL at its end.
abbrev pub head_or_nul : List ℕ → ℕ
head_or_nul [] = 0
head_or_nul (c ∷ text) = c

abbrev pub tail_of : List ℕ → List ℕ
tail_of [] = []
tail_of (c ∷ text) = text

-- `*p == '/' || *p == '\0'`: the text ends at its NUL.
abbrev pub slash_or_end : List ℕ → Bool
slash_or_end [] = true
slash_or_end (c ∷ text) = c == b'/'

-- `while (*opath == '/' || (*opath == '.' && (opath[1] == '/' || opath[1] == '\0'))) opath++;`
unfoldable pub skip_here : List ℕ → List ℕ
skip_here [] = []
skip_here (c ∷ text) =
    let rest = skip_here text in
    if c == b'/' || (c == b'.' && slash_or_end text) then rest else c ∷ text

-- `*opath == '.' && opath[1] == '.' && (opath[2] == '/' || opath[2] == '\0')`
unfoldable pub is_parent : List ℕ → Bool
is_parent text =
    head_or_nul text == b'.'
    && head_or_nul (tail_of text) == b'.'
    && slash_or_end (tail_of (tail_of text))

-- `for (; *cpath != '/'; cpath--);`, down to a slash.
unfoldable pub back_to_slash : List ℕ → List ℕ
back_to_slash [] = []
back_to_slash (c ∷ written) =
    let rest = back_to_slash written in if c == b'/' then c ∷ written else rest

-- `if (cpath - 1 != path)`: the last character written goes, and what stands behind the slash
-- before it.
unfoldable pub drop_component : List ℕ → List ℕ
unfolding back_to_slash
drop_component [] = []
drop_component (c ∷ []) = c ∷ []
drop_component (c ∷ d ∷ written) = back_to_slash (d ∷ written)

-- `while (*opath && *opath != '/') *cpath++ = *opath++; if (*opath) *cpath++ = '/';`: what is left
-- to read, which begins with that slash still, and what is written.
unfoldable pub copy_component : List ℕ → List ℕ → List ℕ × List ℕ
copy_component [] written = ([], written)
copy_component (c ∷ text) written =
    let rest = copy_component text (c ∷ written) in
    if c == b'/' then (c ∷ text, c ∷ written) else rest

-- The main loop. Every round but the last reads a character.
unfoldable pub minimize_loop : ℕ → List ℕ → List ℕ → List ℕ
unfolding skip_here is_parent drop_component copy_component
minimize_loop zero opath written = written
minimize_loop (suc fuel) [] written = written
minimize_loop (suc fuel) (c ∷ text) written =
    let opath = skip_here (c ∷ text) in
    let up = minimize_loop fuel (tail_of (tail_of opath)) (drop_component written) in
    let (rest, written') = copy_component opath written in
    let on = minimize_loop fuel rest written' in if is_parent opath then up else on

-- `if (*(cpath - 1) == '/' && cpath - path > 1) cpath--;`
unfoldable pub strip_slash : List ℕ → List ℕ
strip_slash [] = []
strip_slash (c ∷ []) = c ∷ []
strip_slash (c ∷ d ∷ written) = if c == b'/' then d ∷ written else c ∷ d ∷ written

-- `none` is the fatal error on a relative path. A round of the loop reads a character at least, so
-- the text's length bounds the rounds.
unfoldable pub minimize_path : List ℕ → Option (List ℕ)
unfolding minimize_loop strip_slash
minimize_path [] = none
minimize_path (c ∷ text) =
    if c == b'/'
    then some (reverse (strip_slash (minimize_loop (length text) text (b'/' ∷ []))))
    else none
