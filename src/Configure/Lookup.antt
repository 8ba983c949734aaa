-- ===== src/Configure/Lookup.antt =====
-- A section and a variable of the configuration file, looked up in its lines.
use gnu_gnuit.Prelude.{
  ℕ, zero, suc, ◌<◌, ◌≡◌, refl, subst, Bool, true, false, not, Option, none, some, List, [], ◌∷◌,
  length, replicate, if◌then◌else◌, arith, Bool-cases, inl, inr,
}
use gnu_gnuit.Stack.History.{same_text}
use gnu_gnuit.Configure.{
  Ctype, Configuration, configuration_getline, section_step, section_loop, configuration_section,
  VarInfo, first_word, is_printable, value_fields, var_line, var_step, var_loop,
  configuration_getvarinfo,
}
use gnu_gnuit.Configure.Lines.{split_lines, file_lines, AllShort}
use gnu_gnuit.Configure.Reading.{Reads, configuration_getline_lem}

-- The lines behind the first one that is the section's name.
abbrev pub section_lines : List ℕ → List (List ℕ) → Option (List (List ℕ))
section_lines section_name [] = none
section_lines section_name (l ∷ ls) =
    if same_text section_name l then some ls else section_lines section_name ls

-- The fields of a variable: those of the first line whose first word is its name, up to an empty line
-- or one whose first word is not printable.
abbrev pub var_fields : Ctype → ℕ → List ℕ → List (List ℕ) → List (Option (List ℕ))
var_fields ct fields var_name [] = replicate fields none
var_fields ct fields var_name ([] ∷ ls) = replicate fields none
var_fields ct fields var_name ((c ∷ text) ∷ ls) =
    if not (is_printable ct (first_word ct (c ∷ text)))
    then replicate fields none
    else if same_text var_name (first_word ct (c ∷ text))
    then value_fields ct fields (c ∷ text)
    else var_fields ct fields var_name ls

-- `sectionptr` stands before the lines, or is -1.
abbrev pub StandsAt : Ctype → Option (List (List ℕ)) → Option (List ℕ) → Type 0
StandsAt ct none none = Unit
StandsAt ct none (some text) = ⊥
StandsAt ct (some ls) none = ⊥
StandsAt ct (some ls) (some text) = (file_lines ct text ≡ ls) × AllShort (split_lines text)

module _ (ct : Ctype) (section_name : List ℕ) where
  section_step_lem :
      (n : ℕ) (again : Configuration → Configuration) (ls : List (List ℕ))
      → ((conf : Configuration)
          → length conf.unread < n
          → AllShort (split_lines conf.unread)
          → StandsAt ct
              (section_lines section_name (file_lines ct conf.unread))
              (again conf).sectionptr)
      → (read : Configuration × Bool) → Reads ct n ls read
      → StandsAt ct
          (section_lines section_name ls)
          (section_step again section_name read).sectionptr
  unfolding section_step
  section_step_lem n again ls rest (conf, false) r = rw r tt
  section_step_lem n again ls rest (conf, true) (e, short, fewer) =
      rw e (elim (Bool-cases (same_text section_name conf.line)) [
        | inl same ↦ rw (same, section_lines) (refl, short)
        | inr other ↦ rw (other, section_lines) (rest conf fewer short)
      ])

  section_loop_lem :
      (fuel : ℕ) (conf : Configuration)
      → length conf.unread < fuel
      → AllShort (split_lines conf.unread)
      → StandsAt ct
          (section_lines section_name (file_lines ct conf.unread))
          (section_loop ct fuel section_name conf).sectionptr
  unfolding section_loop
  section_loop_lem zero conf h short = absurd (omega arith)
  section_loop_lem (suc fuel) conf h short =
      section_step_lem (length conf.unread) (section_loop ct fuel section_name) _
        (λ conf' fewer short'. section_loop_lem fuel conf' (omega (arith, fewer, h)) short')
        (configuration_getline ct conf) (configuration_getline_lem ct conf short)

  -- `configuration_section` looks through the file from its start.
  pub configuration_section_lem :
      (conf : Configuration)
      → AllShort (split_lines conf.contents)
      → StandsAt ct
          (section_lines section_name (file_lines ct conf.contents))
          (configuration_section ct section_name conf).sectionptr
  unfolding configuration_section
  configuration_section_lem conf short =
      section_loop_lem (suc (length conf.contents)) (record conf { unread = conf.contents })
        (omega arith) short

module _ (ct : Ctype) (fields : ℕ) (var_name : List ℕ) where
  var_line_lem :
      (again : Configuration → VarInfo) (conf : Configuration) (line : List ℕ) (ls : List (List ℕ))
      → (again conf).dest ≡ var_fields ct fields var_name ls
      → (var_line ct fields true again var_name conf line).dest
        ≡ var_fields ct fields var_name (line ∷ ls)
  unfolding var_line
  var_line_lem again conf [] ls rest = refl
  var_line_lem again conf (c ∷ text) ls rest =
      elim (Bool-cases (is_printable ct (first_word ct (c ∷ text)))) [
        | inr ends ↦ rw (ends, var_fields) refl
        | inl printed ↦ elim (Bool-cases (same_text var_name (first_word ct (c ∷ text)))) [
          | inl same ↦ rw (printed, same, var_fields) refl
          | inr other ↦ rw (printed, other, var_fields) rest
        ]
      ]

  var_step_lem :
      (n : ℕ) (again : Configuration → VarInfo) (ls : List (List ℕ))
      → ((conf : Configuration)
          → length conf.unread < n
          → AllShort (split_lines conf.unread)
          → (again conf).dest ≡ var_fields ct fields var_name (file_lines ct conf.unread))
      → (read : Configuration × Bool) → Reads ct n ls read
      → (var_step ct fields true again var_name read).dest ≡ var_fields ct fields var_name ls
  unfolding var_step
  var_step_lem n again ls rest (conf, false) r = rw r refl
  var_step_lem n again ls rest (conf, true) (e, short, fewer) =
      rw e (var_line_lem again conf conf.line (file_lines ct conf.unread) (rest conf fewer short))

  var_loop_lem :
      (fuel : ℕ) (conf : Configuration)
      → length conf.unread < fuel
      → AllShort (split_lines conf.unread)
      → (var_loop ct fields true fuel var_name conf).dest
        ≡ var_fields ct fields var_name (file_lines ct conf.unread)
  unfolding var_loop
  var_loop_lem zero conf h short = absurd (omega arith)
  var_loop_lem (suc fuel) conf h short =
      var_step_lem (length conf.unread) (var_loop ct fields true fuel var_name) _
        (λ conf' fewer short'. var_loop_lem fuel conf' (omega (arith, fewer, h)) short')
        (configuration_getline ct conf) (configuration_getline_lem ct conf short)

  var_placed :
      (ls : List (List ℕ)) (conf : Configuration) (place : Option (List ℕ))
      → conf.sectionptr ≡ place
      → StandsAt ct (some ls) place
      → (configuration_getvarinfo ct fields true var_name conf).dest
        ≡ var_fields ct fields var_name ls
  unfolding configuration_getvarinfo
  var_placed ls conf none e at = absurd at
  var_placed ls conf (some text) e (e', short) =
      rw (e, ← e')
        (var_loop_lem (suc (length text)) (record conf { unread = text }) (omega arith) short)

  -- In a file whose lines are all shorter than the buffer, `configuration_section` and then
  -- `configuration_getvarinfo` give the fields that the lines of the section bind to the variable, of
  -- the first such line up to the section's end, comments and lines of comments alone being left out.
  pub configuration_lem :
      (section_name : List ℕ) (conf : Configuration) (ls : List (List ℕ))
      → AllShort (split_lines conf.contents)
      → section_lines section_name (file_lines ct conf.contents) ≡ some ls
      → (configuration_getvarinfo ct fields true var_name
          (configuration_section ct section_name conf)).dest
        ≡ var_fields ct fields var_name ls
  configuration_lem section_name conf ls short found =
      var_placed ls (configuration_section ct section_name conf) _ refl (
        subst (λ o. StandsAt ct o (configuration_section ct section_name conf).sectionptr) found
          (configuration_section_lem ct section_name conf short))
