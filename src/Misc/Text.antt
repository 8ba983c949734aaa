-- ===== src/Misc/Text.antt =====
-- src/misc.c: what is printed of a string, how a long name is cut to fit, and the tests that the
-- command line applies to a command; and `il_fix_text` of src/git.c.
use gnu_gnuit.Prelude.{
  ℕ, ◌+◌, ◌-◌, Bool, true, false, ◌&&◌, not, ltb, leb, ◌==◌, if◌then◌else◌, List, [], ◌∷◌, ◌++◌,
  length, drop, take, reverse, replicate, min,
}
use gnu_gnuit.Wide.{Locale, Cells, store, wmemcpy}

-- `toprintable` on the `n` cells at `at`: L'?' replaces what is not printable.
unfoldable pub toprintable : Locale → ℕ → ℕ → Cells → Cells
toprintable loc at n cells i =
    if leb at i && ltb i (at + n) && not (loc.iswprint (cells i)) then b'?' else cells i

-- `needs_quotes` on the characters of its string.
unfoldable pub needs_quotes : Locale → List ℕ → Bool
needs_quotes loc [] = false
needs_quotes loc (c ∷ string) =
    let rest = needs_quotes loc string in
    if not (loc.iswalnum c)
      && not (c == b'.')
      && not (c == b'-')
      && not (c == b'+')
      && not (c == b'=')
      && not (c == b'~')
      && not (c == b'^')
      && not (c == b'%')
      && not (c == b'@')
      && not (c == b'/')
      && not (c == b':')
      && not (c == b'{')
      && not (c == b'}')
      && not (c == b',')
      && not (c == b'_')
    then true
    else rest

-- The loop of `is_a_bg_command`, on the command's characters from the last one on.
unfoldable pub ends_in_ampersand : List ℕ → Bool
ends_in_ampersand [] = false
ends_in_ampersand (c ∷ before) =
    let rest = ends_in_ampersand before in
    if c == b'&' then true else if not (c == b' ') && not (c == 9) then false else rest

unfoldable pub is_a_bg_command : List ℕ → Bool
is_a_bg_command cmd = ends_in_ampersand (reverse cmd)

unfoldable pub is_an_empty_command : List ℕ → Bool
is_an_empty_command [] = true
is_an_empty_command (c ∷ cmd) =
    let rest = is_an_empty_command cmd in if not (c == b' ') && not (c == b';') then false else rest

-- `truncate_long_name` writes into the block `dest`.
unfoldable pub truncate_long_name : List ℕ → ℕ → Cells → Cells
truncate_long_name name len dest =
    let name_len = length name in
    if len == 0
    then dest
    else if len == 1
    then store 0 b' ' dest
    else if len == 2
    then store 0 b' ' (store 1 b' ' dest)
    else if len == 3
    then store 0 b' ' (store 1 b' ' (store 2 b' ' dest))
    else if ltb len name_len
    then wmemcpy 3 (take (len - 3) (drop (name_len - len + 3) name))
        (store 0 b'.' (store 1 b'.' (store 2 b'.' dest)))
    else wmemcpy 0 name dest

-- For `len` at least 1, as its callers have it.
unfoldable pub truncate_string : List ℕ → ℕ → Cells → Cells
truncate_string path len temppath =
    store (min (len - 1) (length path)) 0 (truncate_long_name path (len - 1) temppath)

-- The loop of `il_fix_text`: what it writes for each character of a text that is not NULL,
-- a tab as eight spaces.
unfoldable pub il_fix_text : Locale → List ℕ → List ℕ
il_fix_text loc [] = []
il_fix_text loc (c ∷ text) =
    let fixed = il_fix_text loc text in
    if c == 9 then replicate 8 b' ' ++ fixed else if loc.iswprint c then c ∷ fixed else b'?' ∷ fixed
