-- ===== src/InputLine/HistoryKeys.antt =====
-- src/inputline.c: `il_history`, which brings lines of the history into the input line. The history
-- library is a record of its functions on a state; a line of it is the wide text that mbsduptowcs gives.
use gnu_gnuit.Prelude.{
  ℕ, ◌+◌, Bool, true, false, Option, none, some, List, ltb, ◌||◌, length, if◌then◌else◌,
}
use gnu_gnuit.Prelude.Word.{add_size}
use gnu_gnuit.Wide.{Locale, store, wmemcpy, wcslen}
use gnu_gnuit.Wide.Slice.{slice}
use gnu_gnuit.Stack.History.{same_text}
use gnu_gnuit.InputLine.{InputLine, il_resize_buffer}
use gnu_gnuit.InputLine.Kill.{il_kill_line}

pub record HistoryLibrary {ℓ} (H : Type ℓ) : Type ℓ where
  pub where_history : H → ℕ
  pub previous_history : H → Option (List ℕ) × H
  pub next_history : H → Option (List ℕ) × H
  pub history_set_pos : ℕ → H → H
  pub add_history : List ℕ → H → H

-- The input line, the library's state, and the static variables of `il_history`.
pub record Browsing {ℓ} (H : Type ℓ) : Type ℓ where
  pub il : InputLine
  pub history : H
  pub browsing : Bool
  pub last_history_position : ℕ

pub data HistoryMove : Type 0 where
  il_previous il_next il_record : HistoryMove

module _ (loc : Locale) where
  -- `if (il->length + 1 > il->size) IL_RESIZE(il->length + 1);`
  unfoldable pub history_room : InputLine → InputLine
  unfolding il_resize_buffer
  history_room il =
      if ltb il.size (add_size il.length 1)
      then il_resize_buffer loc (add_size il.length 1) il
      else il

  -- The line of the history takes the place of the dynamic text.
  unfoldable pub put_line : List ℕ → InputLine → InputLine
  unfolding history_room store wmemcpy
  put_line line il =
      let wide = add_size il.static_length (length line) in
      let il' =
        history_room (record il { dynamic_length = length line; length = wide; point = wide }) in
      record il' {
        buffer =
            store (il.static_length + length line) 0 (wmemcpy il.static_length line il'.buffer);
        overrun = il'.overrun || ltb il'.size (il.static_length + length line + 1);
      }

  module _ {ℓ} {H : Type ℓ} (library : HistoryLibrary H) where
    -- `if (!browsing) { browsing = 1; last_history_position = where_history(); }`
    unfoldable pub start_browsing : Browsing H → Browsing H
    start_browsing st =
        if st.browsing
        then st
        else record st { browsing = true; last_history_position = library.where_history st.history }

    -- `if (browsing) { history_set_pos(last_history_position); browsing = 0; }`
    unfoldable pub stop_browsing : Browsing H → Browsing H
    stop_browsing st =
        if st.browsing
        then record st {
          history = library.history_set_pos st.last_history_position st.history;
          browsing = false;
        }
        else st

    unfoldable pub show_previous : Option (List ℕ) × H → Browsing H → Browsing H
    unfolding put_line
    show_previous (none, h) st = record st { history = h }
    show_previous (some line, h) st = record st { history = h; il = put_line line st.il }

    unfoldable pub show_next : Option (List ℕ) × H → Browsing H → Browsing H
    unfolding put_line il_kill_line
    show_next (none, h) st = record st { history = h; il = il_kill_line loc false st.il }
    show_next (some line, h) st = record st { history = h; il = put_line line st.il }

    -- `wcsduptombs(il->buffer + il->static_length)`
    unfoldable pub dynamic_text : InputLine → List ℕ
    unfolding wcslen
    dynamic_text il = slice il.buffer il.static_length (wcslen il.size il.static_length il.buffer)

    -- The line is recorded unless it is the one before it.
    unfoldable pub record_line : Option (List ℕ) × H → Browsing H → Browsing H
    unfolding dynamic_text same_text
    record_line (none, h) st = record st {
      history = (library.next_history (library.add_history (dynamic_text st.il) h)).1;
    }
    record_line (some line, h) st =
        let newhist = dynamic_text st.il in
        let added = (library.next_history (library.add_history newhist h)).1 in
        let kept = if same_text newhist line then h else added in
        record st { history = (library.next_history kept).1 }

    unfoldable pub il_history : HistoryMove → Browsing H → Browsing H
    unfolding start_browsing stop_browsing show_previous show_next record_line
    il_history il_previous st =
        let st' = start_browsing st in show_previous (library.previous_history st'.history) st'
    il_history il_next st =
        let st' = start_browsing st in show_next (library.next_history st'.history) st'
    il_history il_record st =
        let st' = stop_browsing st in record_line (library.previous_history st'.history) st'
