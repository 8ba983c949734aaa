-- ===== src/Wide.antt =====
-- Wide-character memory as src/inputline.c uses it through <wchar.h>: blocks of cells, the locale's
-- character classes, and the strings that a block holds.
pub mod Slice
pub mod Strings
use gnu_gnuit.Prelude.{
  ℕ, zero, suc, ◌+◌, ◌-◌, ◌≡◌, ◌≢◌, Bool, true, false, List, [], ◌∷◌, ltb, ◌==◌, if◌then◌else◌, min,
  ◌&&◌, leb, length, get_or,
}
use gnu_gnuit.Prelude.Int.{ℤ}

-- What the code takes from the C library and the allocator. `fresh i` is what cell i of a block
-- holds when realloc has just added it.
pub record Locale : Type 0 where
  pub isprint : ℕ → Bool
  pub iswprint : ℕ → Bool
  pub iswalnum : ℕ → Bool
  pub towlower : ℕ → ℕ
  pub towupper : ℕ → ℕ
  pub wcswidth : List ℕ → ℤ
  pub fresh : ℕ → ℕ

-- What the code relies on: NUL is not printable, and a change of case never makes a NUL.
pub record LocaleLaws (loc : Locale) : Type 0 where
  pub nul_unprintable : loc.iswprint 0 ≡ false
  pub lower_solid : (c : ℕ) → c ≢ 0 → loc.towlower c ≢ 0
  pub upper_solid : (c : ℕ) → c ≢ 0 → loc.towupper c ≢ 0

-- The cells of a block; the block's size is kept beside it.
abbrev pub Cells : Type 0
Cells = ℕ → ℕ

-- realloc from `old` to `new` cells
unfoldable pub realloc : (ℕ → ℕ) → ℕ → ℕ → Cells → Cells
realloc fresh old new cells i = if ltb i (min old new) then cells i else fresh i

-- `cells[at] = c`
unfoldable pub store : ℕ → ℕ → Cells → Cells
store at c cells i = if i == at then c else cells i

-- wmemmove of `n` cells within a block
unfoldable pub wmemmove : ℕ → ℕ → ℕ → Cells → Cells
wmemmove dst src n cells i = if leb dst i && ltb i (dst + n) then cells (i - dst + src) else cells i

-- wmemcpy into a block from a string outside it
unfoldable pub wmemcpy : ℕ → List ℕ → Cells → Cells
wmemcpy dst text cells i =
    if leb dst i && ltb i (dst + length text) then get_or text (i - dst) 0 else cells i

-- wcslen of the string at `at`, in a block that has `fuel` cells from there on
unfoldable pub wcslen : ℕ → ℕ → Cells → ℕ
wcslen zero at cells = 0
wcslen (suc fuel) at cells = elim (cells at == 0) [
  | true ↦ 0
  | false ↦ suc (wcslen fuel (at + 1) cells)
]

-- The part of a wide string that its readers see: it ends at the first NUL.
unfoldable pub c_str : List ℕ → List ℕ
c_str [] = []
c_str (c ∷ text) = let rest = c_str text in if c == 0 then [] else c ∷ rest
