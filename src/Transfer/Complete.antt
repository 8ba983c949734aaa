-- ===== src/Transfer/Complete.antt =====
-- How panel_copy of src/panel.c ends, when it copies the whole file, and when it does not.
use gnu_gnuit.Prelude.{
  ℕ, zero, suc, ◌+◌, ◌-◌, ◌*◌, ◌/◌, ◌≤◌, ◌<◌, ◌≡◌, ◌⊎◌, refl, sym, ap, ◌∙◌, Bool-cases, inl, inr,
  Bool, true, false, Option, some, List, [], ◌∷◌, ◌++◌, append_assoc, append-nil, ◌==◌, ◌&&◌, ltb,
  leb, length, length-take, take, drop, length-drop, min, arith,
}
use gnu_gnuit.Transfer.{
  Status, sd_ok, sd_cancel, sd_skip, s_openerr, d_createrr, Warning, warn_overwrite, warn_cancel,
  warn_skip, panel_warning, Turn, Dest, untouched, holds, goes_on, copy_bytes, copy_turn, copy_loop,
  Entry, Files, get_flen, copy_contents, panel_copy,
}
use gnu_gnuit.Transfer.CopyLaws.{
  Finished, finished, copied, refused, copy_loop-Finished, take-drop, drop-length-take,
}

-- `flen` is known.
abbrev pub HasLength : Files → Type 0
HasLength files = (flen : ℕ) × (get_flen files ≡ some flen)

copy_contents-Finished :
    (files : Files) (turns : ℕ → Turn)
    → HasLength files
    → Finished files.entry files.bytes (copy_contents files turns)
unfolding copy_contents
copy_contents-Finished files turns (flen, known) = elim (Bool-cases (files.opens)) [
  | inr closed ↦ simp closed (finished s_openerr untouched (refused s_openerr refl))
  | inl opened ↦ elim (Bool-cases (files.creates)) [
    | inr failed ↦ simp (opened, failed) (finished d_createrr untouched (refused d_createrr refl))
    | inl made ↦ elim (Bool-cases (flen == 0)) [
      | inl empty ↦
          simp (opened, made, known, empty)
            (finished sd_ok (holds []) (copied [] (files.bytes, refl)))
      | inr more ↦
          simp (opened, made, known, more)
            (copy_loop-Finished files.entry turns flen _ files.bytes (flen / 32768 + 2) 0 0
              files.bytes [] (omega arith) (omega arith) refl)
    ]
  ]
]

-- Where lseek gives the source's length, or the source is a device: whatever else the system and the
-- user answer, panel_copy of a file that is no directory comes to an end. After SD_OK the
-- destination holds a beginning of the source's bytes, which may be empty; after any other result it
-- is removed, or was not touched, or holds a beginning of them where xstat does not find a regular
-- file there or unlink of it fails.
pub panel_copy-Finished :
    (selected_entries chkdest : Bool) (key : ℕ) (files : Files) (turns : ℕ → Turn)
    → HasLength files
    → Finished files.entry files.bytes (panel_copy selected_entries chkdest key files turns).0
unfolding panel_copy
panel_copy-Finished selected_entries chkdest key files turns known =
    elim (Bool-cases (files.unnamed)) [
      | inl none_given ↦ simp none_given (finished d_createrr untouched (refused d_createrr refl))
      | inr named ↦ elim (Bool-cases (chkdest && files.exists)) [
        | inr free ↦ simp (named, free) whole
        | inl taken ↦ simp (named, taken) (asked (panel_warning selected_entries chkdest key).0)
      ]
    ]
  where
    whole : Finished files.entry files.bytes (copy_contents files turns)
    whole = copy_contents-Finished files turns known

    asked :
        (answer : Warning)
        → Finished files.entry files.bytes
            (elim answer as (λ a. Option (Status × Dest) × Bool) [
              | warn_overwrite ↦
                  (copy_contents files turns, (panel_warning selected_entries chkdest key).1)
              | warn_cancel ↦
                  (some (sd_cancel, untouched), (panel_warning selected_entries chkdest key).1)
              | warn_skip ↦
                  (some (sd_skip, untouched), (panel_warning selected_entries chkdest key).1)
            ]).0
    asked warn_overwrite = whole
    asked warn_cancel = finished sd_cancel untouched (refused sd_cancel refl)
    asked warn_skip = finished sd_skip untouched (refused sd_skip refl)

-- A turn in which nobody cancels and the read and the write do all that they are asked.
pub record Full (turn : Turn) : Type 0 where
  pub at_most : ℕ
  pub first : turn.canceled_first ≡ false
  pub given : turn.given ≡ some at_most
  pub much : 32768 ≤ at_most
  pub second : turn.canceled_then ≡ false
  pub taken : 32768 ≤ turn.taken

-- A turn that wants `m` of the bytes that are left writes them.
copy_turn-Full :
    (entry : Entry) (turn : Turn) (m : ℕ) (source dest : List ℕ)
    → Full turn
    → 0 < m
    → m ≤ 32768
    → m ≤ length source
    → copy_turn entry turn m source dest ≡ goes_on (take m source)
unfolding copy_turn copy_bytes
copy_turn-Full entry turn m source dest f some_left small inside =
    let asked : min f.at_most m ≡ m = omega (arith, f.much, small) in
    let not_end : (length (take m source) == 0) ≡ false =
      ground (arith, length-take m source, some_left, inside) in
    let whole : leb (length (take m source)) turn.taken ≡ true =
      ground (arith, length-take m source, f.taken, small) in
    simp (f.first, f.given, asked, not_end, f.second, whole) refl

module _ (entry : Entry) (turns : ℕ → Turn) (full : (i : ℕ) → Full (turns i)) (flen : ℕ) where
  copy_loop-full :
      (fuel turn n : ℕ) (source dest : List ℕ)
      → n < flen + 32768
      → flen + 32768 ≤ n + fuel * 32768
      → length source ≡ flen - n
      → copy_loop entry turns flen (min flen 32768) fuel turn n source dest
        ≡ some (sd_ok, holds (dest ++ source))
  unfolding copy_loop
  copy_loop-full zero turn n source dest near enough e = absurd (omega (arith, near, enough))
  copy_loop-full (suc fuel) turn n source dest near enough e = elim (Bool-cases (ltb n flen)) [
    | inr end ↦
        rw (end, copy_loop)
          (ap (λ d. some (sd_ok, holds d))
            (sym (append-nil dest) ∙ ap (dest ++◌) (sym (empty source (ground (arith, e, end))))))
    | inl more ↦
        let m = min (flen - n) (min flen 32768) in
        let left : length source ≡ flen - n = e in
        rw
          (
            more,
            copy_loop,
            copy_turn-Full entry (turns turn) m source dest (full turn) (ground (arith, more))
                (omega arith) (omega (arith, e)),
          )
          (copy_loop-full fuel (turn + 1) (n + 32768) (drop (length (take m source)) source)
              (dest ++ take m source) (ground (arith, more)) (omega (arith, enough))
              (length-drop (length (take m source)) source
                ∙ ground (arith, more, e, length-take m source))
            ∙ ap (λ d. some (sd_ok, holds d))
                (append_assoc dest (take m source) (drop (length (take m source)) source)
                  ∙ ap (dest ++◌)
                      (ap (take m source ++◌) (drop-length-take m source) ∙ take-drop m source)))
  ]
    where
      empty : (source : List ℕ) → length source ≡ 0 → source ≡ []
      empty [] h = refl
      empty (x ∷ source) h = absurd (omega (arith, h))

-- An ordinary file that can be copied: the user is not asked, or presses o.
pub record Copyable (chkdest : Bool) (key : ℕ) (files : Files) : Type 0 where
  pub named : files.unnamed ≡ false
  pub agreed : ((chkdest && files.exists) ≡ false) ⊎ (key ≡ b'o')
  pub opens : files.opens ≡ true
  pub creates : files.creates ≡ true
  pub regular : files.entry.is_regular ≡ true
  pub apart : files.same_file ≡ false
  pub plain : files.device ≡ false
  pub measured : files.file_length ≡ some (length files.bytes)

pub panel_copy-agreed :
    (selected_entries chkdest : Bool) (key : ℕ) (files : Files) (turns : ℕ → Turn)
    → Copyable chkdest key files
    → (panel_copy selected_entries chkdest key files turns).0 ≡ copy_contents files turns
unfolding panel_copy panel_warning
panel_copy-agreed selected_entries chkdest key files turns c =
    elim (Bool-cases (chkdest && files.exists)) [
      | inr free ↦ simp (c.named, free) refl
      | inl taken ↦ elim c.agreed [
        | inl free ↦ simp (c.named, free) refl
        | inr pressed ↦
            let o : (key == b'o') ≡ true = ground (arith, pressed) in simp (c.named, taken, o) refl
      ]
    ]

pub no_bytes : (bytes : List ℕ) → length bytes ≡ 0 → [] ≡ bytes
no_bytes [] h = refl
no_bytes (x ∷ bytes) h = absurd (omega (arith, h))

pub get_flen-plain :
    (files : Files) (n : ℕ)
    → files.device ≡ false
    → files.same_file ≡ false
    → files.file_length ≡ some n
    → get_flen files ≡ some n
unfolding get_flen
get_flen-plain files n plain apart measured = simp (plain, apart) measured

-- Where the source is an ordinary file of the length that lseek gives and can be opened, the
-- destination can be created as a regular file and is not the source's file, the user is not asked
-- or presses o, nobody cancels, and each read and each write does all that it is asked: panel_copy
-- gives SD_OK and the destination holds the source's bytes, however many they are.
pub panel_copy-whole :
    (selected_entries chkdest : Bool) (key : ℕ) (files : Files) (turns : ℕ → Turn)
    → Copyable chkdest key files
    → ((i : ℕ) → Full (turns i))
    → (panel_copy selected_entries chkdest key files turns).0 ≡ some (sd_ok, holds files.bytes)
unfolding copy_contents
panel_copy-whole selected_entries chkdest key files turns c full =
    let flen = length files.bytes in
    let known = get_flen-plain files flen c.plain c.apart c.measured in
    panel_copy-agreed selected_entries chkdest key files turns c
    ∙ elim (Bool-cases (length files.bytes == 0)) [
      | inl empty ↦
          simp (c.opens, c.creates, known, empty)
            (ap (λ d. some (sd_ok, holds d)) (no_bytes files.bytes (ground (arith, empty))))
      | inr more ↦
          simp (c.opens, c.creates, known, more)
            (copy_loop-full files.entry turns full flen (flen / 32768 + 2) 0 0 files.bytes []
              (omega arith) (omega arith) (omega arith))
    ]
