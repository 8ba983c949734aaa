-- ===== src/Transfer/Kept.antt =====
-- What the parts of panel_move of src/panel.c leave of the file that is moved.
use gnu_gnuit.Prelude.{
  ℕ, ◌≡◌, refl, Bool-cases, inl, inr, Bool, true, false, Option, none, some, List, arith,
}
use gnu_gnuit.Transfer.{
  Status, sd_ok, sd_cancel, sd_skip, s_openerr, s_readerr, d_createrr, d_writeerr, sd_nospace,
  sd_unknown, d_staterr, sd_inval, sd_interrupted, Entry, Dest, untouched, removed, holds,
}
use gnu_gnuit.Transfer.CopyLaws.{is_ok, Left, copied, given_up, refused, not_removed}
use gnu_gnuit.Transfer.Move.{
  Kind, regular, directory, special, Node, MoveStatus, ft_ok, ft_cancel, ft_skip, t_createrr,
  f_deleterr, ft_nospace, ft_copy, Places, Held, linked, copy, Moved, stays, remove_from,
  move_copied, unlink_and_link, move_linked, to_statbuf,
}

-- What is left after a move: the source is where it was; or the destination is another name of its file,
-- or holds all its bytes.
pub data Kept (bytes : List ℕ) : Moved → Type 0 where
  source_kept : (status : MoveStatus) (held : Held) → Kept bytes (stays status held)
  is_linked :
      (status : MoveStatus)
      → Kept bytes (record { status = status; source_left = false; to_file = linked })
  is_copied :
      (status : MoveStatus)
      → Kept bytes (record { status = status; source_left = false; to_file = copy (holds bytes) })

pub data Safe (bytes : List ℕ) : Option Moved → Type 0 where
  safe : (moved : Moved) → Kept bytes moved → Safe bytes (some moved)

abbrev pub is_special : Kind → Bool
is_special special = true
is_special kind = false

abbrev pub NodeNotSpecial : Option Node → Type 0
NodeNotSpecial none = Unit
NodeNotSpecial (some node) = is_special node.kind ≡ false

-- The destination, where it exists, is no special file.
abbrev pub NotSpecial : Places → Type 0
NotSpecial places = NodeNotSpecial (to_statbuf places)

remove_linked : (bytes : List ℕ) (places : Places) → Kept bytes (remove_from places linked)
unfolding remove_from
remove_linked bytes places = elim (Bool-cases places.unlinks) [
  | inl works ↦ simp works (is_linked ft_ok)
  | inr fails ↦ simp fails (source_kept f_deleterr linked)
]

unlink_and_link-Kept :
    (bytes : List ℕ) (places : Places)
    → places.same_entry ≡ false
    → Kept bytes (unlink_and_link places)
unfolding unlink_and_link
unlink_and_link-Kept bytes places apart = elim (Bool-cases places.links) [
  | inl works ↦ simp (apart, works) (remove_linked bytes places)
  | inr fails ↦ simp (apart, fails) (source_kept t_createrr _)
]

pub move_linked-Kept :
    (bytes : List ℕ) (places : Places) (kind : Kind)
    → places.same_entry ≡ false
    → is_special kind ≡ false
    → Kept bytes (move_linked places kind)
unfolding move_linked
move_linked-Kept bytes places special apart h = absurd (ground (arith, h))
move_linked-Kept bytes places regular apart h = unlink_and_link-Kept bytes places apart
move_linked-Kept bytes places directory apart h = unlink_and_link-Kept bytes places apart

move_failed-Kept :
    (bytes : List ℕ) (places : Places) (status : Status) (dest : Dest)
    → is_ok status ≡ false
    → Kept bytes (move_copied places status dest)
unfolding move_copied
move_failed-Kept bytes places sd_ok dest h = absurd (ground (arith, h))
move_failed-Kept bytes places sd_cancel dest h = source_kept ft_cancel (copy dest)
move_failed-Kept bytes places sd_skip dest h = source_kept ft_skip (copy dest)
move_failed-Kept bytes places sd_nospace dest h = source_kept ft_nospace (copy dest)
move_failed-Kept bytes places s_openerr dest h = source_kept ft_copy (copy dest)
move_failed-Kept bytes places s_readerr dest h = source_kept ft_copy (copy dest)
move_failed-Kept bytes places d_createrr dest h = source_kept ft_copy (copy dest)
move_failed-Kept bytes places d_writeerr dest h = source_kept ft_copy (copy dest)
move_failed-Kept bytes places sd_unknown dest h = source_kept ft_copy (copy dest)
move_failed-Kept bytes places d_staterr dest h = source_kept ft_copy (copy dest)
move_failed-Kept bytes places sd_inval dest h = source_kept ft_copy (copy dest)
move_failed-Kept bytes places sd_interrupted dest h = source_kept ft_copy (copy dest)

move_ok-Kept :
    (bytes : List ℕ) (places : Places) (dest : Dest)
    → dest ≡ holds bytes
    → Kept bytes (move_copied places sd_ok dest)
unfolding move_copied remove_from
move_ok-Kept bytes places dest e = elim (Bool-cases places.unlinks) [
  | inl works ↦ simp (works, e) (is_copied ft_ok)
  | inr fails ↦ simp fails (source_kept f_deleterr (copy dest))
]

pub move_copied-Kept :
    (bytes : List ℕ) (places : Places) (entry : Entry) (status : Status) (dest : Dest)
    → Left entry bytes status dest
    → (is_ok status ≡ true → dest ≡ holds bytes)
    → Kept bytes (move_copied places status dest)
move_copied-Kept bytes places entry status _ (copied dest prefix) whole =
    move_ok-Kept bytes places (holds dest) (whole refl)
move_copied-Kept bytes places entry status dest (given_up s h) whole =
    move_failed-Kept bytes places status removed h
move_copied-Kept bytes places entry status dest (refused s h) whole =
    move_failed-Kept bytes places status untouched h
move_copied-Kept bytes places entry status _ (not_removed s dest h left prefix) whole =
    move_failed-Kept bytes places status (holds dest) h
