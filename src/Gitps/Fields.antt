-- ===== src/Gitps/Fields.antt =====
-- The fields of a line of ps, and the one that kill_process of src/gitps.c reads.
use gnu_gnuit.Prelude.{
  ℕ, ◌<◌, ◌≡◌, refl, sym, ap, ◌∙◌, Bool, true, false, List, [], ◌∷◌, ◌++◌, append_assoc, ltb,
  length, arith,
}
use gnu_gnuit.Prelude.Int.{ℤ}
use gnu_gnuit.Gitps.Pid.{
  found, overrun, skip_spaces, skip_word, read_word, skip_words, pid_word, kill_process,
}

module _ (iswspace : ℕ → Bool) where
  abbrev pub AllSpace : List ℕ → Type 0
  AllSpace [] = Unit
  AllSpace (c ∷ text) = (iswspace c ≡ true) × AllSpace text

  abbrev pub AllBlack : List ℕ → Type 0
  AllBlack [] = Unit
  AllBlack (c ∷ text) = (iswspace c ≡ false) × AllBlack text

  -- A field of a line: the spaces before it, its characters, and the space behind it.
  pub record Field : Type 0 where
    pub spaces : List ℕ
    pub first : ℕ
    pub others : List ℕ
    pub space : ℕ
    pub blank : AllSpace spaces
    pub black : AllBlack (first ∷ others)
    pub behind : iswspace space ≡ true

  abbrev pub field_word : Field → List ℕ
  field_word f = f.first ∷ f.others

  -- The fields, before the rest of the line.
  abbrev pub fields_then : List Field → List ℕ → List ℕ
  fields_then [] rest = rest
  fields_then (f ∷ fields) rest = f.spaces ++ (field_word f ++ f.space ∷ fields_then fields rest)

  skip_spaces-append :
      (spaces : List ℕ) (c : ℕ) (rest : List ℕ)
      → AllSpace spaces
      → iswspace c ≡ false
      → skip_spaces iswspace (spaces ++ c ∷ rest) ≡ c ∷ rest
  unfolding skip_spaces
  skip_spaces-append [] c rest tt h = simp h refl
  skip_spaces-append (d ∷ spaces) c rest (b, bs) h = simp b (skip_spaces-append spaces c rest bs h)

  skip_word-append :
      (word : List ℕ) (space : ℕ) (rest : List ℕ)
      → AllBlack word
      → iswspace space ≡ true
      → skip_word iswspace (word ++ space ∷ rest) ≡ found (space ∷ rest)
  unfolding skip_word
  skip_word-append [] space rest tt h = simp h refl
  skip_word-append (d ∷ word) space rest (b, bs) h = simp b (skip_word-append word space rest bs h)

  read_word-append :
      (word : List ℕ) (space : ℕ) (rest : List ℕ)
      → AllBlack word
      → iswspace space ≡ true
      → read_word iswspace (word ++ space ∷ rest) ≡ found word
  unfolding read_word
  read_word-append [] space rest tt h = simp h refl
  read_word-append (d ∷ word) space rest (b, bs) h =
      rw (b, read_word-append word space rest bs h) refl

  AllSpace-append : (a b : List ℕ) → AllSpace a → AllSpace b → AllSpace (a ++ b)
  AllSpace-append [] b ha hb = hb
  AllSpace-append (c ∷ a) b (h, ha) hb = (h, AllSpace-append a b ha hb)

  -- The line from its start, or from the spaces behind a field.
  abbrev from_lead : List ℕ → List Field → List ℕ → List ℕ
  from_lead lead fields rest = lead ++ fields_then fields rest

  skip_lead :
      (lead : List ℕ) (f : Field) (fields : List Field) (rest : List ℕ)
      → AllSpace lead
      → skip_spaces iswspace (from_lead lead (f ∷ fields) rest)
        ≡ field_word f ++ f.space ∷ fields_then fields rest
  skip_lead lead f fields rest h =
      ap (skip_spaces iswspace) (sym (append_assoc lead f.spaces _))
      ∙ skip_spaces-append (lead ++ f.spaces) f.first _ (AllSpace-append lead f.spaces h f.blank)
          f.black.0

  skip_field :
      (lead : List ℕ) (f : Field) (fields : List Field) (rest : List ℕ)
      → AllSpace lead
      → skip_word iswspace (skip_spaces iswspace (from_lead lead (f ∷ fields) rest))
        ≡ found (from_lead (f.space ∷ []) fields rest)
  skip_field lead f fields rest h =
      ap (skip_word iswspace) (skip_lead lead f fields rest h)
      ∙ skip_word-append (field_word f) f.space _ f.black f.behind

  -- As many words as there are fields lead to the rest of the line, and some of the spaces before it.
  skip_words-fields :
      (lead : List ℕ) (fields : List Field) (rest : List ℕ)
      → AllSpace lead
      → (behind : List ℕ) × AllSpace behind
        × (skip_words iswspace (length fields) (from_lead lead fields rest)
            ≡ found (behind ++ rest))
  unfolding skip_words
  skip_words-fields lead [] rest h = (lead, h, refl)
  skip_words-fields lead (f ∷ fields) rest h =
      let (behind, spaces, e) = skip_words-fields (f.space ∷ []) fields rest (f.behind, tt) in
      (behind, spaces, rw (skip_words, skip_field lead f fields rest h) e)

  -- Where a line has the fields given, and after them one of less than 128 characters with a space behind
  -- it, the word that kill_process reads in their number's column is that field.
  pub pid_word-fields :
      (fields : List Field) (f : Field) (rest : List ℕ)
      → length (field_word f) < 128
      → pid_word iswspace (length fields) (fields_then fields (fields_then (f ∷ []) rest))
        ≡ found (field_word f)
  unfolding pid_word
  pid_word-fields fields f rest short =
      let (behind, spaces, e) = skip_words-fields [] fields (fields_then (f ∷ []) rest) tt in
      let fits : ltb (length (field_word f)) 128 ≡ true = ground (arith, short) in
      let start = skip_lead behind f [] rest spaces in
      let word = read_word-append (field_word f) f.space rest f.black f.behind in
      rw (pid_word, e, start, word, fits) refl

  read_word-past_end : (word : List ℕ) → AllBlack word → read_word iswspace word ≡ overrun
  unfolding read_word
  read_word-past_end [] h = refl
  read_word-past_end (c ∷ word) (h, hs) = rw (h, read_word-past_end word hs) refl

  -- Where the process number is the last field of its line and no space stands behind it, kill_process
  -- reads over the end of the line.
  pub kill_process-past_end :
      (wcstoumax : List ℕ → ℕ) (kill : ℤ → ℕ → Bool) (number : ℕ) (fields : List Field) (c : ℕ)
      (word : List ℕ)
      → AllBlack (c ∷ word)
      → kill_process iswspace wcstoumax kill number (length fields) (fields_then fields (c ∷ word))
        ≡ overrun
  unfolding kill_process pid_word
  kill_process-past_end wcstoumax kill number fields c word black =
      let (behind, spaces, e) = skip_words-fields [] fields (c ∷ word) tt in
      let start = skip_spaces-append behind c word spaces black.0 in
      let past = read_word-past_end (c ∷ word) black in
      rw (kill_process, pid_word, e, start, past) refl
