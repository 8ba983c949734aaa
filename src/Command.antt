-- ===== src/Command.antt =====
-- src/git.c: `command_expand`, which writes out the `%` sequences of a user's command. The user, whom
-- the input line asks, and the password and group files are parameters.
pub mod Braces
pub mod Fields
pub mod Fit
pub mod Keeps
pub mod Selected
pub mod Steps
pub mod Tests
use gnu_gnuit.Prelude.{
  ℕ, zero, suc, ◌+◌, Bool, true, false, not, Option, none, some, List, [], ◌∷◌, ◌++◌, ◌==◌, take,
  length,
}
use gnu_gnuit.Panel.{Panel}
use gnu_gnuit.Command.Fields.{System, Directive, directive, is_lower}
use gnu_gnuit.Command.Steps.{
  Expansion, Outcome, expanded, unfinished, Step, stop, go, directive_step,
}

module _ {U : Type 0} (sys : System U) (name : List ℕ) where
  -- `wcscat(*dest, tmp)`, in the room that is added for it.
  unfoldable pub append_tmp : Option (List ℕ) → Expansion U → Expansion U
  append_tmp none st = st
  append_tmp (some tmp) st = record st { len = st.len + length tmp; dest = st.dest ++ tmp }

  -- What the step behind a `%` leads to.
  unfoldable pub take_step :
      (List ℕ → Expansion U → Outcome × Expansion U) → Step U → Outcome × Expansion U
  unfolding append_tmp
  take_step on (stop outcome st) = (outcome, st)
  take_step on (go tmp rest st) = on rest (append_tmp tmp st)

  -- The loop over `src`. Every round reads a character.
  unfoldable pub expand : ℕ → List ℕ → Expansion U → Outcome × Expansion U
  unfolding take_step directive_step
  expand zero src st = (unfinished, st)
  expand (suc fuel) [] st = (expanded (1 + st.i_flag) st.dest, st)
  expand (suc fuel) (c ∷ src) st = elim (c == b'%') [
    | false ↦ expand fuel src (record st { dest = st.dest ++ c ∷ [] })
    | true ↦ take_step (expand fuel) (directive_step sys name (expand fuel) src st)
  ]

  -- A call at the top, where `busy` is clear.
  unfoldable pub command_expand : List ℕ → Panel → Panel → U → Outcome × Expansion U
  unfolding expand
  command_expand body p l user = expand (suc (length body)) body (record {
    user = user;
    busy = false;
    p = p;
    l = l;
    len = length body + 1;
    dest = [];
    i_flag = 0;
  })
