-- ===== src/Misc/TextLaws.antt =====
-- The text helpers of src/misc.c and src/git.c against what they are for.
use gnu_gnuit.Prelude.{
  ℕ, zero, suc, ◌+◌, ◌-◌, ◌≤◌, ◌<◌, ◌≡◌, ◌≢◌, refl, sym, ap, ◌∙◌, true, ◌==◌, List, [], ◌∷◌, ◌++◌,
  length, get_or, drop, take, replicate, min, arith, length-take, length-drop, Bool-cases, inl, inr,
}
use gnu_gnuit.Wide.{Locale, Cells, store, wmemcpy, wcslen}
use gnu_gnuit.Wide.Strings.{wcslen_lem}
use gnu_gnuit.Misc.Text.{truncate_long_name, truncate_string, il_fix_text}

-- All characters of a text are printable.
abbrev pub AllPrintable : Locale → List ℕ → Type 0
AllPrintable loc [] = Unit
AllPrintable loc (c ∷ text) = (loc.iswprint c ≡ true) × AllPrintable loc text

spaces-AllPrintable :
    (loc : Locale) (n : ℕ) (text : List ℕ)
    → loc.iswprint b' ' ≡ true
    → AllPrintable loc text
    → AllPrintable loc (replicate n b' ' ++ text)
spaces-AllPrintable loc zero text space h = h
spaces-AllPrintable loc (suc n) text space h = (space, spaces-AllPrintable loc n text space h)

-- What `il_fix_text` returns is printable, where the locale prints a space and a question mark.
pub il_fix_text-AllPrintable :
    (loc : Locale) (text : List ℕ)
    → loc.iswprint b' ' ≡ true
    → loc.iswprint b'?' ≡ true
    → AllPrintable loc (il_fix_text loc text)
unfolding il_fix_text
il_fix_text-AllPrintable loc [] space mark = tt
il_fix_text-AllPrintable loc (c ∷ text) space mark =
    let rest = il_fix_text-AllPrintable loc text space mark in
    elim (Bool-cases (c == 9)) [
      | inl tab ↦ rw tab (spaces-AllPrintable loc 8 (il_fix_text loc text) space rest)
      | inr other ↦ elim (Bool-cases (loc.iswprint c)) [
        | inl printed ↦ rw (other, printed) (printed, rest)
        | inr hidden ↦ rw (other, hidden) (mark, rest)
      ]
    ]

get_or-drop : (n : ℕ) (xs : List ℕ) (i : ℕ) → get_or (drop n xs) i 0 ≡ get_or xs (n + i) 0
get_or-drop zero xs i = ap (λ j. get_or xs j 0) {x = i} {y = 0 + i} (omega arith)
get_or-drop (suc n) [] i = refl
get_or-drop (suc n) (x ∷ xs) i =
    get_or-drop n xs i
    ∙ ap (λ j. get_or (x ∷ xs) j 0) {x = suc (n + i)} {y = suc n + i} (omega arith)

get_or-take : (n : ℕ) (xs : List ℕ) (i : ℕ) → i < n → get_or (take n xs) i 0 ≡ get_or xs i 0
get_or-take zero xs i h = absurd (omega arith)
get_or-take (suc n) [] i h = refl
get_or-take (suc n) (x ∷ xs) zero h = refl
get_or-take (suc n) (x ∷ xs) (suc i) h = get_or-take n xs i (omega arith)

-- Cells of the name's last part.
suffix-solid :
    (name : List ℕ) (skip n i : ℕ)
    → ((j : ℕ) → j < length name → get_or name j 0 ≢ 0)
    → skip + i < length name
    → i < n
    → get_or (take n (drop skip name)) i 0 ≢ 0
suffix-solid name skip n i solid inside fits e =
    solid (skip + i) inside
      (sym (get_or-take n (drop skip name) i fits ∙ get_or-drop skip name i) ∙ e)

wide-solid :
    (name : List ℕ) (len : ℕ) (dest : Cells) (i : ℕ)
    → ((j : ℕ) → j < length name → get_or name j 0 ≢ 0)
    → 3 < len
    → len < length name
    → i < len
    → truncate_long_name name len dest i ≢ 0
unfolding truncate_long_name store wmemcpy
wide-solid name len dest i solid wide long inside e =
    let named = length-take (len - 3) (drop (length name - len + 3) name) in
    let left = length-drop (length name - len + 3) name in
    let cell = λ (p : 3 ≤ i).
      suffix-solid name (length name - len + 3) (len - 3) (i - 3) solid (omega arith)
        (omega arith) in
    ground arith

truncate_long_name-solid :
    (name : List ℕ) (len : ℕ) (dest : Cells) (i : ℕ)
    → ((j : ℕ) → j < length name → get_or name j 0 ≢ 0)
    → i < len
    → i < length name
    → truncate_long_name name len dest i ≢ 0
unfolding truncate_long_name store wmemcpy
truncate_long_name-solid name len dest i solid inside short e =
    let cell = solid i short in
    let shifted : get_or name (i - 0) 0 ≡ get_or name i 0 =
      ap (λ j. get_or name j 0) (omega arith) in
    let wide =
      λ (p : 3 < len) (q : len < length name). wide-solid name len dest i solid p q inside in
    ground arith

store-below : (at c : ℕ) (cells : Cells) (i : ℕ) → i < at → store at c cells (0 + i) ≡ cells i
unfolding store
store-below at c cells i h =
    let same : cells (0 + i) ≡ cells i = ap cells {x = 0 + i} {y = i} (omega arith) in ground arith

store-here : (at c : ℕ) (cells : Cells) → store at c cells (0 + at) ≡ c
unfolding store
store-here at c cells = ground arith

-- `truncate_string` leaves a string of at most `len - 1` characters at the start of its block: the
-- name's length where that is shorter.
pub wcslen-truncate_string :
    (path : List ℕ) (len : ℕ) (temppath : Cells)
    → 0 < len
    → ((i : ℕ) → i < length path → get_or path i 0 ≢ 0)
    → wcslen len 0 (truncate_string path len temppath) ≡ min (len - 1) (length path)
unfolding truncate_string
wcslen-truncate_string path len temppath some_room solid =
    wcslen_lem len 0 (truncate_string path len temppath) (min (len - 1) (length path)) (omega arith)
      (store-here _ 0 _)
      (λ i inside e.
        truncate_long_name-solid path (len - 1) temppath i solid (omega arith) (omega arith)
          (sym (store-below _ 0 (truncate_long_name path (len - 1) temppath) i inside) ∙ e))
