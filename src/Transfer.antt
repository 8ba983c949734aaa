-- ===== src/Transfer.antt =====
-- src/panel.c: the copy of a file that is no directory, and what the user is asked before a file is
-- overwritten. What the system answers at each turn of the loop is a sequence of turns; a failed call
-- gives `none`, and a failed write, no byte. The destination's name, with the file's name added where
-- it is a directory, is taken as given. What the status line shows is left out, and the chown by root.
pub mod CopyLaws
pub mod Complete
pub mod Reads
pub mod Move
pub mod Kept
pub mod MoveLaws
pub mod Find
pub mod FindLaws
pub mod Compare
pub mod Cast
pub mod CompareLaws
pub mod Identical
pub mod Verdict
pub mod Short
pub mod Tests
use gnu_gnuit.Prelude.{
  ℕ, zero, suc, ◌+◌, ◌-◌, ◌*◌, ◌/◌, ◌^◌, Bool, true, false, not, Option, none, some, List, [], ◌∷◌,
  ◌++◌, ◌==◌, ◌&&◌, ltb, leb, length, take, drop, min, if◌then◌else◌,
}

-- SD_OK to SD_INTERRUPTED.
pub data Status : Type 0 where
  sd_ok sd_cancel sd_skip s_openerr s_readerr d_createrr d_writeerr sd_nospace : Status
  sd_unknown d_staterr sd_inval sd_interrupted : Status

-- WARN_OVERWRITE, WARN_CANCEL and WARN_SKIP.
pub data Warning : Type 0 where
  warn_overwrite warn_cancel warn_skip : Warning

-- On the key pressed: the answer, and `this->chkdest` after it.
unfoldable pub panel_warning : Bool → Bool → ℕ → Warning × Bool
panel_warning selected_entries chkdest c =
    if c == b'o'
    then (warn_overwrite, chkdest)
    else if c == b'a' && selected_entries
    then (warn_overwrite, false)
    else if c == b's' && selected_entries
    then (warn_skip, chkdest)
    else (warn_cancel, chkdest)

unfoldable pub panel_percent : ℕ → ℕ → ℕ
panel_percent x total =
    if total == 0 then 0 else if leb 100000 total then x / (total / 100) else x * 100 / total

-- The answers of one turn of the loop: whether the user cancels before the read and before the write, how
-- many bytes the read gives at most, how many bytes the write takes, and whether it says ENOSPC.
pub record Turn : Type 0 where
  pub canceled_first : Bool
  pub given : Option ℕ
  pub canceled_then : Bool
  pub taken : ℕ
  pub nospace : Bool

-- What the destination holds: what it held before, nothing, or the bytes written.
pub data Dest : Type 0 where
  untouched removed : Dest
  holds : List ℕ → Dest

-- The destination's entry once it is created: whether xstat finds a regular file there, and whether
-- unlink of it works.
pub record Entry : Type 0 where
  pub is_regular : Bool
  pub unlinks : Bool

-- panel_unlink of the destination, which goes by no result: what holds `dest` is removed, or stays.
unfoldable pub panel_unlink : Entry → List ℕ → Dest
panel_unlink entry dest =
    if entry.is_regular then if entry.unlinks then removed else holds dest else holds dest

-- A turn ends the copy, or goes on with the bytes that it wrote.
pub data Turned : Type 0 where
  ended : Status → Dest → Turned
  goes_on : List ℕ → Turned

abbrev pub copy_buffer_size : ℕ
copy_buffer_size = 32 * 1024

-- The bytes read in a turn: those that follow in the source, at most as many as the read gives.
unfoldable pub copy_bytes : Entry → Turn → List ℕ → List ℕ → Turned
unfolding panel_unlink
copy_bytes entry turn dest bytes =
    if length bytes == 0
    then ended sd_ok (holds dest)
    else if turn.canceled_then
    then ended sd_cancel (panel_unlink entry dest)
    else if leb (length bytes) turn.taken
    then goes_on bytes
    else if ltb 0 turn.taken
    then ended sd_nospace (panel_unlink entry (dest ++ take turn.taken bytes))
    else ended (if turn.nospace then sd_nospace else d_writeerr) (panel_unlink entry dest)

unfoldable pub copy_turn : Entry → Turn → ℕ → List ℕ → List ℕ → Turned
unfolding copy_bytes panel_unlink
copy_turn entry turn bytes_to_transfer source dest =
    if turn.canceled_first then ended sd_cancel (panel_unlink entry dest) else elim turn.given [
      | none ↦ ended s_readerr (panel_unlink entry dest)
      | some k ↦ copy_bytes entry turn dest (take (min k bytes_to_transfer) source)
    ]

-- The loop, `n` bytes on by its count; `source` is what the file still has behind the bytes read.
module _ (entry : Entry) (turns : ℕ → Turn) (flen memsize : ℕ) where
  unfoldable pub copy_loop : ℕ → ℕ → ℕ → List ℕ → List ℕ → Option (Status × Dest)
  unfolding copy_turn
  copy_loop zero turn n source dest = none
  copy_loop (suc fuel) turn n source dest = elim (ltb n flen) [
    | false ↦ some (sd_ok, holds dest)
    | true ↦ elim (copy_turn entry (turns turn) (min (flen - n) memsize) source dest) [
      | ended status left ↦ some (status, left)
      | goes_on bytes ↦
          copy_loop fuel (turn + 1) (n + copy_buffer_size) (drop (length bytes) source)
            (dest ++ bytes)
    ]
  ]

abbrev pub max_file_size : ℕ
max_file_size = 2 ^ 63 - 1

-- The two files of a copy: whether the destination's name is empty, whether it exists, and whether the
-- files can be opened and created; the destination's entry once it is created, and whether it is the
-- source's file itself; the bytes that the source gives, its length by lseek, `none` where lseek
-- fails, and whether it is a block or character device.
pub record Files : Type 0 where
  pub unnamed : Bool
  pub exists : Bool
  pub opens : Bool
  pub creates : Bool
  pub entry : Entry
  pub same_file : Bool
  pub bytes : List ℕ
  pub file_length : Option ℕ
  pub device : Bool

-- `flen`: creat has emptied the source where it is the destination's file too, unless it is a device.
unfoldable pub get_flen : Files → Option ℕ
get_flen files =
    if files.device
    then some max_file_size
    else if files.same_file
    then some 0
    else files.file_length

-- From the opening of the source on, with enough fuel. Where lseek fails, xmalloc is asked for (size_t)-1
-- bytes, so that fatal ends the program, and nothing is returned.
unfoldable pub copy_contents : Files → (ℕ → Turn) → Option (Status × Dest)
unfolding get_flen copy_loop
copy_contents files turns =
    if not files.opens
    then some (s_openerr, untouched)
    else if not files.creates
    then some (d_createrr, untouched)
    else elim (get_flen files) [
      | none ↦ none
      | some flen ↦
          if flen == 0
          then some (sd_ok, holds [])
          else copy_loop files.entry turns flen (min flen copy_buffer_size)
              (flen / copy_buffer_size + 2) 0 0 files.bytes []
    ]

-- panel_copy of a file that is no directory, where the user presses `key` if asked. It gives `chkdest` too.
unfoldable pub panel_copy : Bool → Bool → ℕ → Files → (ℕ → Turn) → Option (Status × Dest) × Bool
unfolding panel_warning copy_contents
panel_copy selected_entries chkdest key files turns =
    let (answer, still) = panel_warning selected_entries chkdest key in
    if files.unnamed
    then (some (d_createrr, untouched), chkdest)
    else if chkdest && files.exists
    then elim answer [
      | warn_overwrite ↦ (copy_contents files turns, still)
      | warn_cancel ↦ (some (sd_cancel, untouched), still)
      | warn_skip ↦ (some (sd_skip, untouched), still)
    ]
    else (copy_contents files turns, chkdest)
