-- ===== src/Status/Doubled.antt =====
-- What the status line of src/status.c shows of a text whose backslashes are doubled, and how long it is.
use gnu_gnuit.Prelude.{
  ℕ, zero, suc, ◌-◌, ◌/◌, ◌≤◌, ◌<◌, ◌≡◌, ◌≢◌, refl, sym, ap, ap₂, ◌∙◌, Bool-cases, inl, inr, Bool,
  true, false, List, [], ◌∷◌, ◌++◌, append_assoc, append-nil, map, length, length-append,
  length-map, length-take, length-replicate, take, replicate, min, ◌==◌, ◌&&◌, ◌||◌, ltb,
  if◌then◌else◌, arith,
}
use gnu_gnuit.Wide.{Locale}
use gnu_gnuit.Status.{
  System, Temp, put, escape, build_temp, expand_message, align, unbroken, build_message, printable,
  status,
}
use gnu_gnuit.Status.Shown.{build_temp-single}

length-align :
    (centered : Bool) (columns : ℕ) (text : List ℕ) → length (align centered columns text) ≡ columns
unfolding align
length-align centered columns text = elim (Bool-cases (centered && ltb (length text) columns)) [
  | inl short ↦ simp short (
      length-append (replicate left b' ' ++ text) right
      ∙ omega (
        arith,
        length-append (replicate left b' ') text,
        length-replicate {A = ℕ} left b' ',
        length-replicate {A = ℕ} (columns - left - length text) b' ',
        fits short,
      ))
  | inr long ↦ simp long (
      length-append (take shown text) (replicate (columns - shown) b' ')
      ∙ omega (arith, length-take shown text, length-replicate {A = ℕ} (columns - shown) b' '))
]
  where
    left : ℕ
    left = (columns - length text) / 2

    shown : ℕ
    shown = min (length text) columns

    right : List ℕ
    right = replicate (columns - left - length text) b' '

    fits : (centered && ltb (length text) columns) ≡ true → length text < columns
    fits h = ground (arith, h)

-- The status line gets as many characters as it has columns, whatever the message, the system's names and
-- the alignment.
pub length-status :
    (loc : Locale) (sys : System) (centered : Bool) (columns : ℕ) (message : List ℕ)
    → length (status loc sys centered columns message) ≡ columns
unfolding status build_message
length-status loc sys centered columns message =
    length-map _ unbroken
    ∙ length-align centered columns (expand_message sys (printable loc message)).text

-- A text with each of its backslashes doubled.
abbrev pub doubled : List ℕ → List ℕ
doubled [] = []
doubled (c ∷ text) = if c == b'\\' then b'\\' ∷ b'\\' ∷ doubled text else c ∷ doubled text

-- The characters are printable, the backslash too, and tab, line feed and carriage return are not.
pub record Prints (loc : Locale) : Type 0 where
  pub slash : loc.iswprint b'\\' ≡ true
  pub tab : loc.iswprint 9 ≡ false
  pub feed : loc.iswprint b'\n' ≡ false
  pub return : loc.iswprint b'\r' ≡ false

module _ (loc : Locale) (prints : Prints loc) where
  abbrev pub AllPrint : List ℕ → Type 0
  AllPrint [] = Unit
  AllPrint (c ∷ text) = (loc.iswprint c ≡ true) × AllPrint text

  differs : (c d : ℕ) → loc.iswprint c ≡ true → loc.iswprint d ≡ false → c ≢ d
  differs c d h k same =
      let clash : true ≡ false = sym h ∙ ap (loc.iswprint) same ∙ k in
      absurd (ground (arith, clash))

  printable-doubled : (text : List ℕ) → AllPrint text → printable loc (doubled text) ≡ doubled text
  unfolding printable
  printable-doubled [] h = refl
  printable-doubled (c ∷ text) (h, hs) = elim (Bool-cases (c == b'\\')) [
    | inl slash ↦ simp slash (
        ap₂ (λ a b. a ∷ b) (simp prints.slash refl)
          (ap₂ (λ a b. a ∷ b) (simp prints.slash refl) (printable-doubled text hs)))
    | inr other ↦ simp other (ap₂ (λ a b. a ∷ b) (simp h refl) (printable-doubled text hs))
  ]

  build_temp-doubled :
      (sys : System) (text : List ℕ) (t : Temp)
      → AllPrint text
      → (build_temp sys (doubled text) t).text ≡ t.text ++ text
  unfolding build_temp put escape
  build_temp-doubled sys [] t h = sym (append-nil t.text)
  build_temp-doubled sys (c ∷ text) t (h, hs) = elim (Bool-cases (c == b'\\')) [
    | inl slash ↦
        let same : b'\\' ≡ c = ground (arith, slash) in
        simp slash (
          build_temp-doubled sys text (put b'\\' t) hs
          ∙ append_assoc t.text (b'\\' ∷ []) text
          ∙ ap (λ d. t.text ++ d ∷ text) same)
    | inr other ↦ simp other (
        ap Temp.text (
          build_temp-single sys c (doubled text) t (ground (arith, other))
            (differs c 9 h prints.tab))
        ∙ build_temp-doubled sys text (put c t) hs
        ∙ append_assoc t.text (c ∷ []) text)
  ]

  unbroken-text : (text : List ℕ) → AllPrint text → map unbroken text ≡ text
  unfolding unbroken
  unbroken-text [] h = refl
  unbroken-text (c ∷ text) (h, hs) =
      let no_return = differs c b'\r' h prints.return in
      let no_feed = differs c b'\n' h prints.feed in
      let kept : (c == b'\r' || c == b'\n') ≡ false = ground (arith, no_return, no_feed) in
      ap₂ (λ a b. a ∷ b) (simp kept refl) (unbroken-text text hs)

  map-append : (a b : List ℕ) → map unbroken (a ++ b) ≡ map unbroken a ++ map unbroken b
  map-append [] b = refl
  map-append (c ∷ a) b = ap (unbroken c ∷◌) (map-append a b)

  unbroken-spaces : (n : ℕ) → map unbroken (replicate n b' ') ≡ replicate n b' '
  unfolding unbroken
  unbroken-spaces zero = refl
  unbroken-spaces (suc n) = ap (b' ' ∷◌) (unbroken-spaces n)

  take_all : (text : List ℕ) → take (length text) text ≡ text
  take_all [] = refl
  take_all (c ∷ text) = ap (c ∷◌) (take_all text)

  -- In a locale that prints the backslash but no tab, line feed and carriage return: a text of printable
  -- characters that fits the columns, with each of its backslashes doubled and shown at the left, stands on
  -- the line as it is, with spaces behind it, whatever escapes it looks like.
  pub status-doubled :
      (sys : System) (columns : ℕ) (text : List ℕ)
      → AllPrint text
      → length text ≤ columns
      → status loc sys false columns (doubled text) ≡ text ++ replicate (columns - length text) b' '
  unfolding status build_message expand_message align
  status-doubled sys columns text h fits =
      let whole : min (length text) columns ≡ length text = omega (arith, fits) in
      rw (printable-doubled text h, build_temp-doubled sys text _ h, whole, take_all text)
        (map-append text (replicate (columns - length text) b' ')
          ∙ ap₂ (λ a b. a ++ b) (unbroken-text text h) (unbroken-spaces (columns - length text)))
