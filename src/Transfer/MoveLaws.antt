-- ===== src/Transfer/MoveLaws.antt =====
-- What becomes of a file that src/panel.c moves.
use gnu_gnuit.Prelude.{
  ℕ, ◌≡◌, Bool-cases, inl, inr, Bool, false, Option, none, some, List, ◌==◌, ◌&&◌, ◌||◌, not,
}
use gnu_gnuit.Transfer.{
  Status, Warning, warn_overwrite, warn_cancel, warn_skip, panel_warning, Turn, Entry, Dest, Files,
  panel_copy,
}
use gnu_gnuit.Transfer.CopyLaws.{Finished, finished}
use gnu_gnuit.Transfer.Complete.{get_flen-plain, panel_copy-Finished}
use gnu_gnuit.Transfer.Reads.{NotShort, WholeIfOk, Ordinary, panel_copy-WholeIfOk}
use gnu_gnuit.Transfer.Move.{
  Node, ft_cancel, ft_skip, f_staterr, t_staterr, t_createrr, Places, before, Moved, stays,
  move_copied, move_linked, to_statbuf, move_across, move_between, move_contents, panel_move,
}
use gnu_gnuit.Transfer.Kept.{
  source_kept, Safe, safe, is_special, NodeNotSpecial, NotSpecial, move_linked-Kept,
  move_copied-Kept,
}

move_across-Safe :
    (bytes : List ℕ) (places : Places) (entry : Entry) (result : Option (Status × Dest))
    (chkdest : Bool)
    → Finished entry bytes result
    → WholeIfOk bytes result
    → Safe bytes (move_across places (result, chkdest)).0
unfolding move_across
move_across-Safe bytes places entry _ chkdest (finished status dest left) whole =
    safe (move_copied places status dest)
      (move_copied-Kept bytes places entry status dest left whole)

module _ (bytes : List ℕ) (places : Places) (chkdest : Bool) (entry : Entry)
    (result : Option (Status × Dest) × Bool) (apart : places.same_entry ≡ false)
    (f : Finished entry bytes result.0) (whole : WholeIfOk bytes result.0) where
  move_between-Safe :
      (from to : Node)
      → is_special to.kind ≡ false
      → Safe bytes (move_between places chkdest result from to).0
  unfolding move_between
  move_between-Safe from to plain =
      elim (Bool-cases (not (to.st_dev == from.st_dev) || places.msdosfs)) [
        | inl across ↦ simp across (move_across-Safe bytes places entry result.0 result.1 f whole)
        | inr near ↦
            simp near (
              safe (move_linked places to.kind) (move_linked-Kept bytes places to.kind apart plain))
      ]

  move_contents-Safe : NotSpecial places → Safe bytes (move_contents places chkdest result).0
  unfolding move_contents
  move_contents-Safe plain = go places.from (to_statbuf places) plain
    where
      go :
          (from to : Option Node)
          → NodeNotSpecial to
          → Safe bytes
              (elim from as (λ n. Option Moved × Bool) [
                | none ↦ (some (stays f_staterr before), chkdest)
                | some from ↦ elim to as (λ n. Option Moved × Bool) [
                  | none ↦ (some (stays t_staterr before), chkdest)
                  | some to ↦ move_between places chkdest result from to
                ]
              ]).0
      go none to h = safe _ (source_kept f_staterr before)
      go (some from) none h = safe _ (source_kept t_staterr before)
      go (some from) (some to) h = move_between-Safe from to h

-- Where the two names are not of one directory entry, the destination is no special file and not the
-- source's file, the source is no device and has the length that lseek gives, and no read gives
-- fewer bytes than it is asked: whatever calls fail and whatever the user answers, panel_move of a
-- file that is no directory comes to an end, and the source is where it was, or the destination is
-- another name of its file, or the destination holds all its bytes.
pub panel_move-Safe :
    (selected_entries chkdest : Bool) (key again : ℕ) (places : Places) (files : Files)
    (turns : ℕ → Turn)
    → NotSpecial places
    → places.same_entry ≡ false
    → Ordinary files
    → ((i : ℕ) → NotShort (turns i))
    → Safe files.bytes (panel_move selected_entries chkdest key again places files turns).0
unfolding panel_move
panel_move-Safe selected_entries chkdest key again places files turns plain apart o reads =
    elim (Bool-cases places.unnamed) [
      | inl none_given ↦ simp none_given (safe _ (source_kept t_createrr before))
      | inr named ↦ elim (Bool-cases (chkdest && places.exists)) [
        | inr free ↦ simp (named, free) (contents chkdest)
        | inl taken ↦ simp (named, taken) (asked (panel_warning selected_entries chkdest key).0)
      ]
    ]
  where
    still : Bool
    still = (panel_warning selected_entries chkdest key).1

    contents :
        (chkdest : Bool)
        → Safe files.bytes
            (move_contents places chkdest (panel_copy selected_entries chkdest again files turns)).0
    contents chkdest =
        move_contents-Safe files.bytes places chkdest files.entry
          (panel_copy selected_entries chkdest again files turns) apart
          (panel_copy-Finished selected_entries chkdest again files turns
            (_, get_flen-plain files _ o.plain o.apart o.measured))
          (panel_copy-WholeIfOk selected_entries chkdest again files turns o reads) plain

    asked :
        (answer : Warning)
        → Safe files.bytes
            (elim answer as (λ a. Option Moved × Bool) [
              | warn_overwrite ↦
                  move_contents places still (panel_copy selected_entries still again files turns)
              | warn_cancel ↦ (some (stays ft_cancel before), still)
              | warn_skip ↦ (some (stays ft_skip before), still)
            ]).0
    asked warn_overwrite = contents still
    asked warn_cancel = safe _ (source_kept ft_cancel before)
    asked warn_skip = safe _ (source_kept ft_skip before)
