-- ===== src/Gitps/Columns.antt =====
-- The process number of src/gitps.c is read from the column that the header calls PID.
use gnu_gnuit.Prelude.{
  ℕ, ◌+◌, ◌%◌, ◌^◌, ◌<◌, ◌≡◌, refl, sym, ap, ◌∙◌, Bool-cases, inl, inr, Bool, true, false, some,
  List, [], ◌∷◌, ◌++◌, length, ◌==◌, ltb, arith,
}
use gnu_gnuit.Prelude.Int.{ℤ, pos}
use gnu_gnuit.Gitps.Pid.{
  as_int, found, overrun, begins_pid, has_pid, pid_from, get_pid_index, kill_process,
}
use gnu_gnuit.Gitps.Fields.{Field, AllSpace, AllBlack, field_word, fields_then, pid_word-fields}

as_int-small : (n : ℕ) → n < 2 ^ 31 → as_int n ≡ pos n
unfolding as_int
as_int-small n small =
    let low : n % 2 ^ 32 ≡ n = omega (arith, small) in
    let positive : ltb n (2 ^ 31) ≡ true = ground (arith, small) in rw (low, positive) refl

module _ (iswspace : ℕ → Bool) where
  -- The spaces before a word, and the characters of a word, in the loop of get_PID_index.
  pid_from-spaces :
      (spaces : List ℕ) (i : ℕ) (rest : List ℕ)
      → AllSpace iswspace spaces
      → pid_from iswspace false i (spaces ++ rest) ≡ pid_from iswspace false i rest
  unfolding pid_from
  pid_from-spaces [] i rest h = refl
  pid_from-spaces (c ∷ spaces) i rest (h, hs) = simp h (pid_from-spaces spaces i rest hs)

  pid_from-word :
      (word : List ℕ) (i space : ℕ) (rest : List ℕ)
      → AllBlack iswspace word
      → iswspace space ≡ true
      → pid_from iswspace true i (word ++ space ∷ rest) ≡ pid_from iswspace false (i + 1) rest
  unfolding pid_from
  pid_from-word [] i space rest h behind = simp behind refl
  pid_from-word (c ∷ word) i space rest (h, hs) behind =
      simp h (pid_from-word word i space rest hs behind)

  module _ (pid_black : AllBlack iswspace (b'P' ∷ b'I' ∷ b'D' ∷ [])) where
    space_differs :
        (c space : ℕ) → iswspace c ≡ false → iswspace space ≡ true → (space == c) ≡ false
    space_differs c space h behind = elim (Bool-cases (space == c)) [
      | inr differs ↦ differs
      | inl same ↦
          let clash : true ≡ false = sym behind ∙ ap iswspace (ground (arith, same)) ∙ h in
          absurd (ground (arith, clash))
    ]

    begins_pid-space :
        (a : ℕ) (word : List ℕ) (space : ℕ) (rest : List ℕ)
        → iswspace space ≡ true
        → begins_pid (a ∷ word) ≡ false
        → begins_pid (a ∷ word ++ space ∷ rest) ≡ false
    unfolding begins_pid
    begins_pid-space a [] space [] behind h = refl
    begins_pid-space a [] space (r ∷ rest) behind h =
        let differs = space_differs b'I' space pid_black.1.0 behind in ground (arith, differs)
    begins_pid-space a (b ∷ []) space rest behind h =
        let differs = space_differs b'D' space pid_black.1.1.0 behind in ground (arith, differs)
    begins_pid-space a (b ∷ c ∷ word) space rest behind h = h

    pid_from-field :
        (f : Field iswspace) (i : ℕ) (rest : List ℕ)
        → begins_pid (field_word iswspace f) ≡ false
        → pid_from iswspace false i (field_word iswspace f ++ f.space ∷ rest)
          ≡ pid_from iswspace false (i + 1) rest
    unfolding pid_from
    pid_from-field f i rest h =
        simp (f.black.0, begins_pid-space f.first f.others f.space rest f.behind h)
          (pid_from-word f.others i f.space rest f.black.1 f.behind)

    abbrev pub NoPid : List (Field iswspace) → Type 0
    NoPid [] = Unit
    NoPid (f ∷ fields) = (begins_pid (field_word iswspace f) ≡ false) × NoPid fields

    pid_from-fields :
        (fields : List (Field iswspace)) (i : ℕ) (rest : List ℕ)
        → NoPid fields
        → pid_from iswspace false i (fields_then iswspace fields rest)
          ≡ pid_from iswspace false (i + length fields) rest
    pid_from-fields [] i rest h = ap (λ n. pid_from iswspace false n rest) (omega arith)
    pid_from-fields (f ∷ fields) i rest (h, hs) =
        pid_from-spaces f.spaces i
          (field_word iswspace f ++ f.space ∷ fields_then iswspace fields rest) f.blank
        ∙ pid_from-field f i (fields_then iswspace fields rest) h
        ∙ pid_from-fields fields (i + 1) rest hs
        ∙ ap (λ n. pid_from iswspace false n rest) (omega arith)

    -- The header of a list: its fields before the one that begins with PID, that field, and the rest.
    abbrev pub header_of : List (Field iswspace) → List ℕ → List ℕ → List ℕ
    header_of fields spaces rest = fields_then iswspace fields (spaces ++ b'P' ∷ b'I' ∷ b'D' ∷ rest)

    at_pid :
        (i : ℕ) (rest : List ℕ) → pid_from iswspace false i (b'P' ∷ b'I' ∷ b'D' ∷ rest) ≡ found i
    unfolding pid_from begins_pid
    at_pid i rest = simp pid_black.0 refl

    has_pid-append : (text rest : List ℕ) → has_pid rest ≡ true → has_pid (text ++ rest) ≡ true
    unfolding has_pid
    has_pid-append [] rest h = h
    has_pid-append (c ∷ text) rest h = elim (Bool-cases (begins_pid (c ∷ text ++ rest))) [
      | inl begins ↦ simp begins refl
      | inr differs ↦ simp differs (has_pid-append text rest h)
    ]

    has_pid-fields :
        (fields : List (Field iswspace)) (rest : List ℕ)
        → has_pid rest ≡ true
        → has_pid (fields_then iswspace fields rest) ≡ true
    has_pid-fields [] rest h = h
    has_pid-fields (f ∷ fields) rest h = has_pid-append f.spaces _ (
        has_pid-append (field_word iswspace f) _
          (has_pid-append (f.space ∷ []) _ (has_pid-fields fields rest h)))

    get_pid_index-header :
        (fields : List (Field iswspace)) (spaces rest : List ℕ)
        → NoPid fields
        → AllSpace iswspace spaces
        → get_pid_index iswspace (header_of fields spaces rest) ≡ some (found (length fields))
    unfolding get_pid_index has_pid begins_pid
    get_pid_index-header fields spaces rest none blank =
        let pid = b'P' ∷ b'I' ∷ b'D' ∷ rest in
        let has : has_pid (header_of fields spaces rest) ≡ true =
          has_pid-fields fields (spaces ++ pid) (has_pid-append spaces pid refl) in
        simp has (
          ap some (
            pid_from-fields fields 0 (spaces ++ pid) none
            ∙ ap (λ i. pid_from iswspace false i (spaces ++ pid)) (omega arith)
            ∙ pid_from-spaces spaces (length fields) pid blank
            ∙ at_pid (length fields) rest))

    -- In a locale where P, I and D are no spaces: where a field of the header begins with PID, and
    -- none before it does, and a line of the list has as many fields before its process number as
    -- the header has before that one, the number written in less than 128 characters, with a space
    -- behind it, and from 1 to 2^31 - 1 as wcstoumax reads it, get_PID_index gives the column's
    -- number, and kill_process with it sends the signal to the process of that number, and gives
    -- whether it was sent.
    pub kill_process-header :
        (wcstoumax : List ℕ → ℕ) (kill : ℤ → ℕ → Bool) (number : ℕ)
        (titles fields : List (Field iswspace)) (spaces rest_title : List ℕ) (f : Field iswspace)
        (rest : List ℕ)
        → NoPid titles
        → AllSpace iswspace spaces
        → length titles ≡ length fields
        → length (field_word iswspace f) < 128
        → 0 < wcstoumax (field_word iswspace f)
        → wcstoumax (field_word iswspace f) < 2 ^ 31
        → (get_pid_index iswspace (header_of titles spaces rest_title)
            ≡ some (found (length titles)))
          × (kill_process iswspace wcstoumax kill number
                (length titles)
                (fields_then iswspace fields (fields_then iswspace (f ∷ []) rest))
              ≡ found (kill (pos (wcstoumax (field_word iswspace f))) number))
    unfolding kill_process
    kill_process-header wcstoumax kill number titles fields spaces rest_title f rest none blank same
          short some_number small =
        let pidnum = as_int-small (wcstoumax (field_word iswspace f)) small in
        let not_zero : (wcstoumax (field_word iswspace f) == 0) ≡ false =
          ground (arith, some_number) in
        (
          get_pid_index-header titles spaces rest_title none blank,
          rw (same, kill_process, pid_word-fields iswspace fields f rest short, pidnum, not_zero)
              refl,
        )

    -- Where PID stands in the header only behind the beginnings of its fields, as in PPID,
    -- get_PID_index reads over the end of the header.
    pub get_pid_index-past_end :
        (fields : List (Field iswspace))
        → NoPid fields
        → has_pid (fields_then iswspace fields []) ≡ true
        → get_pid_index iswspace (fields_then iswspace fields []) ≡ some overrun
    unfolding get_pid_index pid_from
    get_pid_index-past_end fields none has = simp has (ap some (pid_from-fields fields 0 [] none))
