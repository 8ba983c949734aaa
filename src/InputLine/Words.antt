-- ===== src/InputLine/Words.antt =====
-- src/inputline.c: the change of case of a word.
use gnu_gnuit.Prelude.{ℕ, zero, suc, ◌+◌, ◌-◌, Bool, true, false, ltb, if◌then◌else◌}
use gnu_gnuit.Wide.{Locale, Cells, store}
use gnu_gnuit.InputLine.{InputLine, downcase_word, upcase_word, capitalize_word}
use gnu_gnuit.InputLine.Move.{il_forward_word}

-- `for (i = from; i < from + n; i++) cells[i] = change(cells[i]);`
unfoldable pub change_cells : (ℕ → ℕ) → ℕ → ℕ → Cells → Cells
change_cells change zero i cells = cells
change_cells change (suc n) i cells =
    change_cells change n (i + 1) (store i (change (cells i)) cells)

module _ (loc : Locale) where
  -- The loop of `il_capitalize_word`; the flag is `first`.
  unfoldable pub capitalize_cells : Bool → ℕ → ℕ → Cells → Cells
  capitalize_cells first zero i cells = cells
  capitalize_cells first (suc n) i cells = elim (loc.iswalnum (cells i)) [
    | true ↦
        capitalize_cells false n (i + 1)
          (store i (if first then loc.towupper (cells i) else loc.towlower (cells i)) cells)
    | false ↦ capitalize_cells first n (i + 1) cells
  ]

  unfoldable pub il_downcase_word : InputLine → InputLine
  il_downcase_word il =
      if ltb il.point il.length
      then (let moved = il_forward_word il in
          record moved {
            buffer = change_cells loc.towlower (moved.point - il.point) il.point moved.buffer;
            last_operation = downcase_word;
          })
      else il

  unfoldable pub il_upcase_word : InputLine → InputLine
  il_upcase_word il =
      if ltb il.point il.length
      then (let moved = il_forward_word il in
          record moved {
            buffer = change_cells loc.towupper (moved.point - il.point) il.point moved.buffer;
            last_operation = upcase_word;
          })
      else il

  unfoldable pub il_capitalize_word : InputLine → InputLine
  il_capitalize_word il =
      if ltb il.point il.length
      then (let moved = il_forward_word il in
          record moved {
            buffer = capitalize_cells true (moved.point - il.point) il.point moved.buffer;
            last_operation = capitalize_word;
          })
      else il
