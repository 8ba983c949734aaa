-- ===== src/Gitps/Pid.antt =====
-- src/gitps.c: the column of ps's header that says PID, and the process number that kill_process reads
-- from a line. A text is the list of its characters before the NUL; a loop that would step over the NUL
-- gives `overrun`. `iswspace` is the C library's.
use gnu_gnuit.Prelude.{
  ℕ, zero, suc, ◌+◌, ◌-◌, ◌%◌, ◌^◌, Bool, true, false, Option, none, some, List, [], ◌∷◌, ◌==◌,
  ◌&&◌, ltb, length, if◌then◌else◌,
}
use gnu_gnuit.Prelude.Int.{ℤ, pos, negsuc}

-- What a scan of a text gives.
pub data Scan {ℓ} (A : Type ℓ) : Type ℓ where
  found : A → Scan A
  overrun : Scan A

-- wmemcmp with "PID", which a text that ends before differs from.
unfoldable pub begins_pid : List ℕ → Bool
begins_pid (a ∷ b ∷ c ∷ text) = a == b'P' && b == b'I' && c == b'D'
begins_pid text = false

-- wcsstr with "PID".
unfoldable pub has_pid : List ℕ → Bool
unfolding begins_pid
has_pid [] = false
has_pid (c ∷ text) = if begins_pid (c ∷ text) then true else has_pid text

-- A uintmax_t as an int: its low 32 bits, with a sign.
unfoldable pub as_int : ℕ → ℤ
as_int n = let low = n % 2 ^ 32 in if ltb low (2 ^ 31) then pos low else negsuc (2 ^ 32 - low - 1)

abbrev pub equal_ℤ : ℤ → ℤ → Bool
equal_ℤ (pos a) (pos b) = a == b
equal_ℤ (negsuc a) (negsuc b) = a == b
equal_ℤ a b = false

module _ (iswspace : ℕ → Bool) where
  -- The loop of get_PID_index: `inside` a word, where it looks for the word's end, or before a word.
  unfoldable pub pid_from : Bool → ℕ → List ℕ → Scan ℕ
  unfolding begins_pid
  pid_from inside i [] = overrun
  pid_from inside i (c ∷ text) =
      let spaces = pid_from false (if inside then i + 1 else i) text in
      let word = pid_from true i text in
      if iswspace c
      then spaces
      else if inside
      then word
      else if begins_pid (c ∷ text)
      then found i
      else word

  -- `none` where the header has no PID.
  unfoldable pub get_pid_index : List ℕ → Option (Scan ℕ)
  unfolding has_pid pid_from
  get_pid_index header = if has_pid header then some (pid_from false 0 header) else none

  -- The two loops over spaces, and over the characters of a word.
  unfoldable pub skip_spaces : List ℕ → List ℕ
  skip_spaces [] = []
  skip_spaces (c ∷ text) = let rest = skip_spaces text in if iswspace c then rest else c ∷ text

  unfoldable pub skip_word : List ℕ → Scan (List ℕ)
  skip_word [] = overrun
  skip_word (c ∷ text) = let rest = skip_word text in if iswspace c then found (c ∷ text) else rest

  unfoldable pub read_word : List ℕ → Scan (List ℕ)
  read_word [] = overrun
  read_word (c ∷ text) =
      let rest = read_word text in
      if iswspace c
      then found []
      else elim rest [ found word ↦ found (c ∷ word) | overrun ↦ overrun ]

  unfoldable pub skip_words : ℕ → List ℕ → Scan (List ℕ)
  unfolding skip_spaces skip_word
  skip_words zero p = found p
  skip_words (suc n) p = elim (skip_word (skip_spaces p)) [
    | found q ↦ skip_words n q
    | overrun ↦ overrun
  ]

  -- The characters that kill_process collects in `pidstr`, which holds 127 and the NUL.
  unfoldable pub pid_word : ℕ → List ℕ → Scan (List ℕ)
  unfolding skip_words skip_spaces read_word
  pid_word PID_index p = elim (skip_words PID_index p) [
    | found q ↦ elim (read_word (skip_spaces q)) [
      | found word ↦ if ltb (length word) 128 then found word else overrun
      | overrun ↦ overrun
    ]
    | overrun ↦ overrun
  ]

  -- `wcstoumax` reads a number, of which `pidnum` is an int, and `kill` says whether the signal `number` was sent to a process, as the
  -- C library and the system do. What kill_process gives: whether it is nonzero.
  unfoldable pub kill_process : (List ℕ → ℕ) → (ℤ → ℕ → Bool) → ℕ → ℕ → List ℕ → Scan Bool
  unfolding pid_word as_int
  kill_process wcstoumax kill number PID_index p = elim (pid_word PID_index p) [
    | found word ↦
        let pidnum = as_int (wcstoumax word) in
        found (if equal_ℤ pidnum (pos 0) then true else kill pidnum number)
    | overrun ↦ overrun
  ]
