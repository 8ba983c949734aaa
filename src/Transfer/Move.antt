-- ===== src/Transfer/Move.antt =====
-- src/panel.c: panel_move of a file that is no directory. What stat, link and unlink answer is a record;
-- where the files are on different devices panel_copy is called, which may ask the user again. A
-- link that works makes the destination a name of the source's file.
use gnu_gnuit.Prelude.{
  ℕ, Bool, true, false, Option, none, some, ◌==◌, ◌&&◌, ◌||◌, not, if◌then◌else◌,
}
use gnu_gnuit.Transfer.{
  Status, sd_ok, sd_cancel, sd_skip, sd_nospace, warn_overwrite, warn_cancel, warn_skip,
  panel_warning, Turn, Dest, Files, panel_copy,
}

pub data Kind : Type 0 where
  regular directory special : Kind

pub record Node : Type 0 where
  pub st_dev : ℕ
  pub kind : Kind

-- FT_OK to FT_COPY.
pub data MoveStatus : Type 0 where
  ft_ok ft_cancel ft_skip t_createrr f_deleterr f_staterr t_staterr ft_nospace ft_copy : MoveStatus

-- What stat says of the source, of the destination and of the directory it is in; whether the two names
-- are of one directory entry, as `a` and `./a` are; and whether unlink of the destination, link, and
-- unlink of the source work.
pub record Places : Type 0 where
  pub unnamed : Bool
  pub exists : Bool
  pub from : Option Node
  pub to : Option Node
  pub parent : Option Node
  pub msdosfs : Bool
  pub same_entry : Bool
  pub to_unlinks : Bool
  pub links : Bool
  pub unlinks : Bool

-- What the destination is: what it was, nothing, another name of the source's file, or a copy.
pub data Held : Type 0 where
  before gone linked : Held
  copy : Dest → Held

pub record Moved : Type 0 where
  pub status : MoveStatus
  pub source_left : Bool
  pub to_file : Held

abbrev pub stays : MoveStatus → Held → Moved
stays status held = record { status = status; source_left = true; to_file = held }

-- The label `remove_from`.
unfoldable pub remove_from : Places → Held → Moved
remove_from places held =
    if places.unlinks
    then record { status = ft_ok; source_left = false; to_file = held }
    else stays f_deleterr held

-- On what panel_copy gives.
unfoldable pub move_copied : Places → Status → Dest → Moved
unfolding remove_from
move_copied places sd_ok dest = remove_from places (copy dest)
move_copied places sd_cancel dest = stays ft_cancel (copy dest)
move_copied places sd_skip dest = stays ft_skip (copy dest)
move_copied places sd_nospace dest = stays ft_nospace (copy dest)
move_copied places status dest = stays ft_copy (copy dest)

-- unlink of the destination, which goes by no result, and link: where the two are one entry, the source is
-- gone after an unlink that works, and link fails with or without it.
unfoldable pub unlink_and_link : Places → Moved
unfolding remove_from
unlink_and_link places =
    let left = if places.to_unlinks then gone else before in
    if places.same_entry
    then record { status = t_createrr; source_left = not places.to_unlinks; to_file = left }
    else if places.links
    then remove_from places linked
    else stays t_createrr left

-- On one device, unless the destination is a special file.
unfoldable pub move_linked : Places → Kind → Moved
unfolding remove_from unlink_and_link
move_linked places special = remove_from places before
move_linked places kind = unlink_and_link places

-- The destination's stat, or that of its directory.
unfoldable pub to_statbuf : Places → Option Node
to_statbuf places = elim places.to [ some node ↦ some node | none ↦ places.parent ]

-- On another device: what panel_copy gives, with `this->chkdest`.
unfoldable pub move_across : Places → Option (Status × Dest) × Bool → Option Moved × Bool
unfolding move_copied
move_across places (some (status, dest), chkdest) = (some (move_copied places status dest), chkdest)
move_across places (none, chkdest) = (none, chkdest)

unfoldable pub move_between :
    Places → Bool → Option (Status × Dest) × Bool → Node → Node → Option Moved × Bool
unfolding move_across move_linked
move_between places chkdest copied from to =
    if not (to.st_dev == from.st_dev) || places.msdosfs
    then move_across places copied
    else (some (move_linked places to.kind), chkdest)

-- From the stat of the source on; `copied` is what panel_copy gives if it is called.
unfoldable pub move_contents : Places → Bool → Option (Status × Dest) × Bool → Option Moved × Bool
unfolding to_statbuf move_between
move_contents places chkdest copied = elim places.from [
  | none ↦ (some (stays f_staterr before), chkdest)
  | some from ↦ elim (to_statbuf places) [
    | none ↦ (some (stays t_staterr before), chkdest)
    | some to ↦ move_between places chkdest copied from to
  ]
]

-- panel_move, where the user presses `key` if asked, and `again` if panel_copy asks.
unfoldable pub panel_move : Bool → Bool → ℕ → ℕ → Places → Files → (ℕ → Turn) → Option Moved × Bool
unfolding move_contents
panel_move selected_entries chkdest key again places files turns =
    let (answer, still) = panel_warning selected_entries chkdest key in
    if places.unnamed
    then (some (stays t_createrr before), chkdest)
    else if chkdest && places.exists
    then elim answer [
      | warn_overwrite ↦
          move_contents places still (panel_copy selected_entries still again files turns)
      | warn_cancel ↦ (some (stays ft_cancel before), still)
      | warn_skip ↦ (some (stays ft_skip before), still)
    ]
    else move_contents places chkdest (panel_copy selected_entries chkdest again files turns)
