-- ===== src/Transfer/Reads.antt =====
-- A copy of src/panel.c in which no read gives fewer bytes than it is asked, and every other call may fail.
use gnu_gnuit.Prelude.{
  ℕ, zero, suc, ◌+◌, ◌-◌, ◌/◌, ◌≤◌, ◌<◌, ◌≡◌, ◌⊎◌, refl, sym, ap, ◌∙◌, Bool-cases, inl, inr, Bool,
  true, false, Option, none, some, List, [], ◌++◌, append_assoc, append-nil, ◌==◌, ◌&&◌, ltb, leb,
  length, length-take, take, drop, length-drop, min, arith,
}
use gnu_gnuit.Transfer.{
  Status, sd_cancel, sd_skip, s_openerr, s_readerr, d_createrr, sd_nospace, Warning, warn_overwrite,
  warn_cancel, warn_skip, panel_warning, Entry, panel_unlink, Turn, Dest, untouched, holds, Turned,
  ended, goes_on, copy_bytes, copy_turn, copy_loop, Files, copy_contents, panel_copy,
}
use gnu_gnuit.Transfer.CopyLaws.{is_ok, failed, take-drop, drop-length-take}
use gnu_gnuit.Transfer.Complete.{get_flen-plain, no_bytes}

-- A read that fails, or gives all that it is asked.
abbrev pub NotShort : Turn → Type 0
NotShort turn = (turn.given ≡ none) ⊎ ((k : ℕ) × (turn.given ≡ some k) × (32768 ≤ k))

-- A turn that wants `m` bytes ends with a result other than SD_OK, or writes them.
data AllOrFailed (m : ℕ) (source : List ℕ) : Turned → Type 0 where
  gives_up :
      (status : Status) (left : Dest)
      → is_ok status ≡ false
      → AllOrFailed m source (ended status left)
  writes : AllOrFailed m source (goes_on (take m source))

copy_bytes-AllOrFailed :
    (entry : Entry) (turn : Turn) (m : ℕ) (source dest : List ℕ)
    → 0 < m
    → m ≤ length source
    → AllOrFailed m source (copy_bytes entry turn dest (take m source))
unfolding copy_bytes
copy_bytes-AllOrFailed entry turn m source dest some_left inside =
    let not_end : (length (take m source) == 0) ≡ false =
      ground (arith, length-take m source, some_left, inside) in
    elim (Bool-cases turn.canceled_then) [
      | inl stop ↦ simp (not_end, stop) (gives_up sd_cancel (panel_unlink entry dest) refl)
      | inr more ↦ elim (Bool-cases (leb (length (take m source)) turn.taken)) [
        | inl all ↦ simp (not_end, more, all) writes
        | inr short ↦ elim (Bool-cases (ltb 0 turn.taken)) [
          | inl part ↦ simp (not_end, more, short, part) (gives_up sd_nospace _ refl)
          | inr nothing ↦
              simp (not_end, more, short, nothing)
                (gives_up _ (panel_unlink entry dest) (failed turn.nospace))
        ]
      ]
    ]

copy_turn-AllOrFailed :
    (entry : Entry) (turn : Turn) (m : ℕ) (source dest : List ℕ)
    → NotShort turn
    → 0 < m
    → m ≤ 32768
    → m ≤ length source
    → AllOrFailed m source (copy_turn entry turn m source dest)
unfolding copy_turn
copy_turn-AllOrFailed entry turn m source dest h some_left small inside =
    elim (Bool-cases turn.canceled_first) [
      | inl stop ↦ simp stop (gives_up sd_cancel (panel_unlink entry dest) refl)
      | inr more ↦ elim h [
        | inl fails ↦ simp (more, fails) (gives_up s_readerr (panel_unlink entry dest) refl)
        | inr (k, given, much) ↦
            let asked : min k m ≡ m = omega (arith, much, small) in
            simp (more, given, asked)
              (copy_bytes-AllOrFailed entry turn m source dest some_left inside)
      ]
    ]

-- After SD_OK the destination holds all the bytes.
abbrev pub WholeIfOk : List ℕ → Option (Status × Dest) → Type 0
WholeIfOk bytes none = Unit
WholeIfOk bytes (some (status, left)) = is_ok status ≡ true → left ≡ holds bytes

failed-WholeIfOk :
    (bytes : List ℕ) (status : Status) (left : Dest)
    → is_ok status ≡ false
    → WholeIfOk bytes (some (status, left))
failed-WholeIfOk bytes status left h ok =
    let clash : true ≡ false = sym ok ∙ h in absurd (ground (arith, clash))

module _ (entry : Entry) (turns : ℕ → Turn) (reads : (i : ℕ) → NotShort (turns i)) (flen : ℕ)
    (bytes : List ℕ) where
  copy_loop-WholeIfOk :
      (fuel turn n : ℕ) (source dest : List ℕ)
      → length source ≡ flen - n
      → dest ++ source ≡ bytes
      → WholeIfOk bytes (copy_loop entry turns flen (min flen 32768) fuel turn n source dest)
  unfolding copy_loop
  copy_loop-WholeIfOk zero turn n source dest left e = tt
  copy_loop-WholeIfOk (suc fuel) turn n source dest left e = elim (Bool-cases (ltb n flen)) [
    | inr end ↦
        let nothing = no_bytes source (ground (arith, left, end)) in
        rw (end, copy_loop) (λ ok. ap holds (sym (append-nil dest) ∙ ap (dest ++◌) nothing ∙ e))
    | inl more ↦
        let m = min (flen - n) (min flen 32768) in
        rw (more, copy_loop)
          (go m (copy_turn entry (turns turn) m source dest)
            (copy_turn-AllOrFailed entry (turns turn) m source dest (reads turn)
              (ground (arith, more)) (omega arith) (omega (arith, left)))
            (copy_loop-WholeIfOk fuel (turn + 1) (n + 32768) (drop (length (take m source)) source)
              (dest ++ take m source)
              (length-drop (length (take m source)) source
                ∙ ground (arith, more, left, length-take m source))
              (append_assoc dest (take m source) (drop (length (take m source)) source)
                ∙ ap (dest ++◌)
                    (ap (take m source ++◌) (drop-length-take m source) ∙ take-drop m source)
                ∙ e)))
  ]
    where
      go :
          (m : ℕ) (t : Turned)
          → AllOrFailed m source t
          → WholeIfOk bytes (
              copy_loop entry turns flen
                (min flen 32768)
                fuel
                (turn + 1)
                (n + 32768)
                (drop (length (take m source)) source)
                (dest ++ take m source))
          → WholeIfOk bytes (elim t [
            | ended status left ↦ some (status, left)
            | goes_on more ↦
                copy_loop entry turns flen
                  (min flen 32768)
                  fuel
                  (turn + 1)
                  (n + 32768)
                  (drop (length more) source)
                  (dest ++ more)
          ])
      go m _ (gives_up status left h) next = failed-WholeIfOk bytes status left h
      go m _ writes next = next

-- A source that is no device and not the destination's file, with the length that lseek gives.
pub record Ordinary (files : Files) : Type 0 where
  pub plain : files.device ≡ false
  pub apart : files.same_file ≡ false
  pub measured : files.file_length ≡ some (length files.bytes)

copy_contents-WholeIfOk :
    (files : Files) (turns : ℕ → Turn)
    → Ordinary files
    → ((i : ℕ) → NotShort (turns i))
    → WholeIfOk files.bytes (copy_contents files turns)
unfolding copy_contents
copy_contents-WholeIfOk files turns o reads =
    let flen = length files.bytes in
    let known = get_flen-plain files flen o.plain o.apart o.measured in
    elim (Bool-cases (files.opens)) [
      | inr closed ↦ simp closed (failed-WholeIfOk files.bytes s_openerr untouched refl)
      | inl opened ↦ elim (Bool-cases (files.creates)) [
        | inr fails ↦ simp (opened, fails) (failed-WholeIfOk files.bytes d_createrr untouched refl)
        | inl made ↦ elim (Bool-cases (length files.bytes == 0)) [
          | inl empty ↦
              simp (opened, made, known, empty)
                (λ ok. ap holds (no_bytes files.bytes (ground (arith, empty))))
          | inr more ↦
              simp (opened, made, known, more)
                (copy_loop-WholeIfOk files.entry turns reads flen files.bytes (flen / 32768 + 2) 0 0
                  files.bytes [] (omega arith) refl)
        ]
      ]
    ]

pub panel_copy-WholeIfOk :
    (selected_entries chkdest : Bool) (key : ℕ) (files : Files) (turns : ℕ → Turn)
    → Ordinary files
    → ((i : ℕ) → NotShort (turns i))
    → WholeIfOk files.bytes (panel_copy selected_entries chkdest key files turns).0
unfolding panel_copy
panel_copy-WholeIfOk selected_entries chkdest key files turns o reads =
    elim (Bool-cases (files.unnamed)) [
      | inl none_given ↦ simp none_given (failed-WholeIfOk files.bytes d_createrr untouched refl)
      | inr named ↦ elim (Bool-cases (chkdest && files.exists)) [
        | inr free ↦ simp (named, free) whole
        | inl taken ↦ simp (named, taken) (asked (panel_warning selected_entries chkdest key).0)
      ]
    ]
  where
    whole : WholeIfOk files.bytes (copy_contents files turns)
    whole = copy_contents-WholeIfOk files turns o reads

    asked :
        (answer : Warning)
        → WholeIfOk files.bytes
            (elim answer as (λ a. Option (Status × Dest) × Bool) [
              | warn_overwrite ↦
                  (copy_contents files turns, (panel_warning selected_entries chkdest key).1)
              | warn_cancel ↦
                  (some (sd_cancel, untouched), (panel_warning selected_entries chkdest key).1)
              | warn_skip ↦
                  (some (sd_skip, untouched), (panel_warning selected_entries chkdest key).1)
            ]).0
    asked warn_overwrite = whole
    asked warn_cancel = failed-WholeIfOk files.bytes sd_cancel untouched refl
    asked warn_skip = failed-WholeIfOk files.bytes sd_skip untouched refl
