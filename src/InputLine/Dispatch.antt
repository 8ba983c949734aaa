-- ===== src/InputLine/Dispatch.antt =====
-- src/git.c: `il_dispatch_commands`, the switch over the input line's commands.
use gnu_gnuit.Prelude.{ℕ, Bool, true, ◌&&◌, Option, none, some, if◌then◌else◌}
use gnu_gnuit.Wide.{Locale}
use gnu_gnuit.InputLine.{InputLine}
use gnu_gnuit.InputLine.Move.{
  il_backward_char, il_forward_char, il_backward_word, il_forward_word, il_beginning_of_line,
  il_end_of_line, il_set_mark, il_exchange_point_and_mark,
}
use gnu_gnuit.InputLine.Edit.{
  il_delete_char, il_backward_delete_char, il_insert_char, il_just_one_space,
  il_delete_horizontal_space,
}
use gnu_gnuit.InputLine.Kill.{
  il_kill_word, il_backward_kill_word, il_kill_line, il_kill_to_beginning_of_line,
  il_kill_to_end_of_line, il_kill_region, il_kill_ring_save, il_yank,
}
use gnu_gnuit.InputLine.Words.{il_downcase_word, il_upcase_word, il_capitalize_word}

-- The BUILTIN_ commands of the input line, and any other key.
pub data Key : Type 0 where
  backward_char forward_char backward_word forward_word beginning_of_line end_of_line : Key
  delete_char backward_delete_char kill_word backward_kill_word kill_line : Key
  kill_to_beginning_of_line kill_to_end_of_line just_one_space delete_horizontal_space : Key
  downcase_word upcase_word capitalize_word set_mark kill_region kill_ring_save yank : Key
  exchange_point_and_mark : Key
  other : ℕ → Key

-- `if (flags & IL_EDIT)`; the key counts as processed either way.
abbrev pub when_edit : Bool → InputLine → InputLine → Option (InputLine × ℕ)
when_edit edit il changed = some (if edit then changed else il, 1)

abbrev pub when_edit_option : Bool → InputLine → Option InputLine → Option (InputLine × ℕ)
when_edit_option edit il changed =
    if edit then elim changed [ none ↦ none | some il' ↦ some (il', 1) ] else some (il, 1)

module _ (loc : Locale) (fuel : ℕ) (edit : Bool) where
  unfoldable pub il_dispatch_key : Key → InputLine → Option (InputLine × ℕ)
  il_dispatch_key backward_char il = some (il_backward_char il, 1)
  il_dispatch_key forward_char il = some (il_forward_char il, 1)
  il_dispatch_key backward_word il = some (il_backward_word il, 1)
  il_dispatch_key forward_word il = some (il_forward_word il, 1)
  il_dispatch_key beginning_of_line il = some (il_beginning_of_line il, 1)
  il_dispatch_key end_of_line il = some (il_end_of_line il, 1)
  il_dispatch_key delete_char il = when_edit edit il (il_delete_char loc il)
  il_dispatch_key backward_delete_char il = when_edit edit il (il_backward_delete_char loc il)
  il_dispatch_key kill_word il = when_edit edit il (il_kill_word loc il)
  il_dispatch_key backward_kill_word il = when_edit edit il (il_backward_kill_word loc il)
  il_dispatch_key kill_line il = when_edit edit il (il_kill_line loc true il)
  il_dispatch_key kill_to_beginning_of_line il =
      when_edit edit il (il_kill_to_beginning_of_line loc il)
  il_dispatch_key kill_to_end_of_line il = when_edit edit il (il_kill_to_end_of_line loc il)
  il_dispatch_key just_one_space il = when_edit_option edit il (il_just_one_space loc fuel il)
  il_dispatch_key delete_horizontal_space il =
      when_edit_option edit il (il_delete_horizontal_space loc fuel il)
  il_dispatch_key downcase_word il = when_edit edit il (il_downcase_word loc il)
  il_dispatch_key upcase_word il = when_edit edit il (il_upcase_word loc il)
  il_dispatch_key capitalize_word il = when_edit edit il (il_capitalize_word loc il)
  il_dispatch_key set_mark il = some (il_set_mark il, 1)
  il_dispatch_key kill_region il = when_edit edit il (il_kill_region loc il)
  il_dispatch_key kill_ring_save il = some (il_kill_ring_save loc il, 1)
  il_dispatch_key yank il = when_edit edit il (il_yank loc il)
  il_dispatch_key exchange_point_and_mark il = some (il_exchange_point_and_mark il, 1)
  il_dispatch_key (other key) il =
      if edit && loc.isprint key then some (il_insert_char loc key il, 1) else some (il, 0)

  -- The flags are IL_MOVE and IL_EDIT. `none` where one of the loops that delete spaces does not
  -- end within the fuel.
  unfoldable pub il_dispatch_commands : Bool → Key → InputLine → Option (InputLine × ℕ)
  unfolding il_dispatch_key
  il_dispatch_commands move key il = if move then il_dispatch_key key il else some (il, 0)
