-- ===== src/Transfer/CopyLaws.antt =====
-- What a copy of src/panel.c leaves behind, whatever the system answers.
use gnu_gnuit.Prelude.{
  ℕ, zero, suc, ◌+◌, ◌-◌, ◌*◌, ◌≤◌, ◌<◌, ◌≡◌, refl, sym, ap, ◌∙◌, Bool-cases, inl, inr, Bool, true,
  false, Option, none, some, List, [], ◌∷◌, ◌++◌, append_assoc, ◌==◌, ◌&&◌, ltb, leb, length, take,
  drop, min, if◌then◌else◌, arith,
}
use gnu_gnuit.Transfer.{
  Status, sd_ok, sd_cancel, s_readerr, d_writeerr, sd_nospace, Turn, Dest, untouched, removed,
  holds, Entry, panel_unlink, Turned, ended, goes_on, copy_bytes, copy_turn, copy_loop,
}

-- The bytes read so far, and the ones that follow, are the source.
abbrev pub Prefix : List ℕ → List ℕ → Type 0
Prefix dest bytes = (rest : List ℕ) × (dest ++ rest ≡ bytes)

abbrev pub is_ok : Status → Bool
is_ok sd_ok = true
is_ok status = false

pub take-drop : (n : ℕ) (xs : List ℕ) → take n xs ++ drop n xs ≡ xs
take-drop zero xs = refl
take-drop (suc n) [] = refl
take-drop (suc n) (x ∷ xs) = ap (x ∷◌) (take-drop n xs)

pub drop-length-take : (n : ℕ) (xs : List ℕ) → drop (length (take n xs)) xs ≡ drop n xs
drop-length-take zero xs = refl
drop-length-take (suc n) [] = refl
drop-length-take (suc n) (x ∷ xs) = drop-length-take n xs

-- What the destination may be left as: a beginning of the source after SD_OK; after anything else
-- nothing, or what it was, or, where xstat does not find a regular file or unlink fails, a beginning of
-- the source again.
pub data Left (entry : Entry) (bytes : List ℕ) : Status → Dest → Type 0 where
  copied : (dest : List ℕ) → Prefix dest bytes → Left entry bytes sd_ok (holds dest)
  given_up : (status : Status) → is_ok status ≡ false → Left entry bytes status removed
  refused : (status : Status) → is_ok status ≡ false → Left entry bytes status untouched
  not_removed :
      (status : Status) (dest : List ℕ)
      → is_ok status ≡ false
      → (entry.is_regular && entry.unlinks) ≡ false
      → Prefix dest bytes
      → Left entry bytes status (holds dest)

panel_unlink-Left :
    (entry : Entry) (bytes : List ℕ) (status : Status) (dest : List ℕ)
    → is_ok status ≡ false
    → Prefix dest bytes
    → Left entry bytes status (panel_unlink entry dest)
unfolding panel_unlink
panel_unlink-Left entry bytes status dest h prefix = elim (Bool-cases entry.is_regular) [
  | inl is ↦ elim (Bool-cases entry.unlinks) [
    | inl works ↦ simp (is, works) (given_up status h)
    | inr fails ↦
        let stays : (entry.is_regular && entry.unlinks) ≡ false = simp (is, fails) refl in
        simp (is, fails) (not_removed status dest h stays prefix)
  ]
  | inr special ↦
      let stays : (entry.is_regular && entry.unlinks) ≡ false = simp special refl in
      simp special (not_removed status dest h stays prefix)
]

-- The first bytes of what follows, behind the ones that are there.
Prefix-append :
    (dest source bytes : List ℕ) (k n : ℕ)
    → dest ++ source ≡ bytes
    → Prefix (dest ++ take k (take n source)) bytes
Prefix-append dest source bytes k n e = (
  drop k (take n source) ++ drop n source,
  append_assoc dest (take k (take n source)) (drop k (take n source) ++ drop n source)
      ∙ ap (dest ++◌) (
          sym (append_assoc (take k (take n source)) (drop k (take n source)) (drop n source))
          ∙ ap (λ xs. xs ++ drop n source) (take-drop k (take n source))
          ∙ take-drop n source)
      ∙ e,
)

-- A turn that ends leaves that; one that goes on wrote what follows in the source.
TurnLeft : Entry → List ℕ → List ℕ → List ℕ → Turned → Type 0
TurnLeft entry bytes source dest (ended status left) = Left entry bytes status left
TurnLeft entry bytes source dest (goes_on more) = more ++ drop (length more) source ≡ source

pub failed : (nospace : Bool) → is_ok (if nospace then sd_nospace else d_writeerr) ≡ false
failed true = refl
failed false = refl

copy_bytes-left :
    (entry : Entry) (turn : Turn) (bytes source dest : List ℕ) (n : ℕ)
    → dest ++ source ≡ bytes
    → TurnLeft entry bytes source dest (copy_bytes entry turn dest (take n source))
unfolding copy_bytes TurnLeft
copy_bytes-left entry turn bytes source dest n e = elim (Bool-cases (length (take n source) == 0)) [
  | inl none_left ↦ simp none_left (copied dest (source, e))
  | inr some_left ↦ elim (Bool-cases turn.canceled_then) [
    | inl stop ↦
        simp (some_left, stop) (panel_unlink-Left entry bytes sd_cancel dest refl (source, e))
    | inr more ↦ elim (Bool-cases (leb (length (take n source)) turn.taken)) [
      | inl all ↦
          simp (some_left, more, all)
            (ap (take n source ++◌) (drop-length-take n source) ∙ take-drop n source)
      | inr short ↦ elim (Bool-cases (ltb 0 turn.taken)) [
        | inl part ↦
            simp (some_left, more, short, part)
              (panel_unlink-Left entry bytes sd_nospace _ refl
                (Prefix-append dest source bytes turn.taken n e))
        | inr nothing ↦
            simp (some_left, more, short, nothing)
              (panel_unlink-Left entry bytes _ dest (failed turn.nospace) (source, e))
      ]
    ]
  ]
]

copy_turn-left :
    (entry : Entry) (turn : Turn) (bytes source dest : List ℕ) (n : ℕ)
    → dest ++ source ≡ bytes
    → TurnLeft entry bytes source dest (copy_turn entry turn n source dest)
unfolding copy_turn TurnLeft
copy_turn-left entry turn bytes source dest n e = elim (Bool-cases turn.canceled_first) [
  | inl stop ↦ simp stop (panel_unlink-Left entry bytes sd_cancel dest refl (source, e))
  | inr more ↦ simp more (read turn.given)
]
  where
    read :
        (given : Option ℕ)
        → TurnLeft entry bytes source dest (elim given [
          | none ↦ ended s_readerr (panel_unlink entry dest)
          | some k ↦ copy_bytes entry turn dest (take (min k n) source)
        ])
    read none = panel_unlink-Left entry bytes s_readerr dest refl (source, e)
    read (some k) = copy_bytes-left entry turn bytes source dest (min k n) e

-- A copy that came to an end.
pub data Finished (entry : Entry) (bytes : List ℕ) : Option (Status × Dest) → Type 0 where
  finished :
      (status : Status) (left : Dest)
      → Left entry bytes status left
      → Finished entry bytes (some (status, left))

module _ (entry : Entry) (turns : ℕ → Turn) (flen memsize : ℕ) (bytes : List ℕ) where
  pub copy_loop-Finished :
      (fuel turn n : ℕ) (source dest : List ℕ)
      → n < flen + 32768
      → flen + 32768 ≤ n + fuel * 32768
      → dest ++ source ≡ bytes
      → Finished entry bytes (copy_loop entry turns flen memsize fuel turn n source dest)
  unfolding copy_loop TurnLeft
  copy_loop-Finished zero turn n source dest near enough e = absurd (omega (arith, near, enough))
  copy_loop-Finished (suc fuel) turn n source dest near enough e = elim (Bool-cases (ltb n flen)) [
    | inr end ↦ rw (end, copy_loop) (finished sd_ok (holds dest) (copied dest (source, e)))
    | inl more ↦
        rw (more, copy_loop)
          (go (copy_turn entry (turns turn) (min (flen - n) memsize) source dest)
            (copy_turn-left entry (turns turn) bytes source dest (min (flen - n) memsize) e)
            (λ source' dest'.
              copy_loop-Finished fuel (turn + 1) (n + 32768) source' dest' (ground (arith, more))
                (omega (arith, enough))))
  ]
    where
      go :
          (t : Turned)
          → TurnLeft entry bytes source dest t
          → ((source' dest' : List ℕ)
              → dest' ++ source' ≡ bytes
              → Finished entry bytes
                  (copy_loop entry turns flen memsize fuel (turn + 1) (n + 32768) source' dest'))
          → Finished entry bytes (elim t [
            | ended status left ↦ some (status, left)
            | goes_on more ↦
                copy_loop entry turns flen memsize fuel
                  (turn + 1)
                  (n + 32768)
                  (drop (length more) source)
                  (dest ++ more)
          ])
      go (ended status left) h next = finished status left h
      go (goes_on more) h next =
          next (drop (length more) source) (dest ++ more)
            (append_assoc dest more (drop (length more) source) ∙ ap (dest ++◌) h ∙ e)
