-- ===== src/Configure/SettingsLaws.antt =====
-- When src/misc.c finds a section, and what it exits on.
use gnu_gnuit.Prelude.{
  ℕ, zero, suc, ◌-◌, ◌≡◌, refl, sym, subst, ◌∙◌, Bool, true, false, Option, none, some, List, ◌++◌,
  drop, length, ◌==◌, Bool-cases, inl, inr,
}
use gnu_gnuit.Configure.{
  Ctype, Configuration, max_line, fgets, at_end, line_of, configuration_section, section_loop,
  section_step, configuration_getline, getline_loop, take_line, read_line, keep_line,
}
use gnu_gnuit.Stack.History.{same_text}
use gnu_gnuit.Configure.Lines.{split_lines, file_lines, AllShort}
use gnu_gnuit.Configure.Lookup.{section_lines, StandsAt, configuration_section_lem}
use gnu_gnuit.Configure.Settings.{
  gitfm_prefix, git_prefix, has_prefix, is_set, choose_section, use_section,
}

keep_line-contents :
    (conf : Configuration) (text rest : List ℕ)
    → (keep_line conf (text, rest)).0.contents ≡ conf.contents
unfolding keep_line
keep_line-contents conf text rest = elim (Bool-cases (length text == max_line - 1)) [
  | inl full ↦ rw full refl
  | inr short ↦ rw short refl
]

read_line-contents : (conf : Configuration) → (read_line conf).0.contents ≡ conf.contents
unfolding read_line
read_line-contents conf =
    keep_line-contents conf (fgets (max_line - 1) conf.unread).0
      (fgets (max_line - 1) conf.unread).1

module _ (ct : Ctype) where
  take_line-contents :
      (contents : List ℕ) (again : Configuration × Bool) (conf : Configuration)
      (line : Option (List ℕ))
      → again.0.contents ≡ contents
      → conf.contents ≡ contents
      → (take_line again conf line).0.contents ≡ contents
  unfolding take_line
  take_line-contents contents again conf none h h' = h
  take_line-contents contents again conf (some line) h h' = h'

  getline_loop-contents :
      (fuel : ℕ) (conf : Configuration) → (getline_loop ct fuel conf).0.contents ≡ conf.contents
  unfolding getline_loop
  getline_loop-contents zero conf = refl
  getline_loop-contents (suc fuel) conf = elim (Bool-cases (at_end conf.unread)) [
    | inl end ↦ rw end refl
    | inr more ↦
        let kept = read_line-contents conf in
        let rest = getline_loop-contents fuel (read_line conf).0 ∙ kept in
        rw more (
          take_line-contents conf.contents (getline_loop ct fuel (read_line conf).0)
            (read_line conf).0 (line_of ct (read_line conf).1) rest kept)
  ]

  section_step-contents :
      (contents : List ℕ) (again : Configuration → Configuration) (section_name : List ℕ)
      → ((conf : Configuration) → conf.contents ≡ contents → (again conf).contents ≡ contents)
      → (read : Configuration × Bool) → read.0.contents ≡ contents
      → (section_step again section_name read).contents ≡ contents
  unfolding section_step
  section_step-contents contents again section_name rest (conf, false) h = h
  section_step-contents contents again section_name rest (conf, true) h =
      elim (Bool-cases (same_text section_name conf.line)) [
        | inl same ↦ rw same h
        | inr other ↦ rw other (rest conf h)
      ]

  section_loop-contents :
      (fuel : ℕ) (section_name : List ℕ) (contents : List ℕ) (conf : Configuration)
      → conf.contents ≡ contents
      → (section_loop ct fuel section_name conf).contents ≡ contents
  unfolding section_loop configuration_getline
  section_loop-contents zero section_name contents conf h = h
  section_loop-contents (suc fuel) section_name contents conf h =
      section_step-contents contents (section_loop ct fuel section_name) section_name
        (λ conf' h'. section_loop-contents fuel section_name contents conf' h')
        (configuration_getline ct conf) (getline_loop-contents (suc (length conf.unread)) conf ∙ h)

-- The lines of the section, or where there is none and the name begins with "[GITFM-", of the section
-- whose name begins with "[GIT-" instead.
abbrev pub older_name : List ℕ → List ℕ
older_name section = git_prefix ++ drop (length gitfm_prefix) section

abbrev pub pick : Bool → Option (List (List ℕ)) → Option (List (List ℕ)) → Option (List (List ℕ))
pick prefixed (some ls) older = some ls
pick true none older = older
pick false none older = none

abbrev pub used_lines : List ℕ → List (List ℕ) → Option (List (List ℕ))
used_lines section ls =
    pick (has_prefix gitfm_prefix section) (section_lines section ls)
      (section_lines (older_name section) ls)

-- The program goes on with the section of these lines, or exits.
abbrev pub UsesLines : Ctype → Option (List (List ℕ)) → Option Configuration → Type 0
UsesLines ct none none = Unit
UsesLines ct none (some conf) = ⊥
UsesLines ct (some ls) none = ⊥
UsesLines ct (some ls) (some conf) = StandsAt ct (some ls) conf.sectionptr

module _ (ct : Ctype) where
  stands_set :
      (ls : List (List ℕ)) (place : Option (List ℕ))
      → StandsAt ct (some ls) place
      → is_set place ≡ true
  unfolding is_set
  stands_set ls none at = absurd at
  stands_set ls (some text) at = refl

  stands_unset : (place : Option (List ℕ)) → StandsAt ct none place → is_set place ≡ false
  unfolding is_set
  stands_unset none at = refl
  stands_unset (some text) at = absurd at

  choose_section_lem :
      (prefixed : Bool) (found old : Configuration) (ls older : Option (List (List ℕ)))
      → StandsAt ct ls found.sectionptr
      → StandsAt ct older old.sectionptr
      → UsesLines ct (pick prefixed ls older) (choose_section prefixed found old)
  unfolding choose_section
  choose_section_lem prefixed found old (some ls) older at at' =
      rw (stands_set ls found.sectionptr at) at
  choose_section_lem true found old none (some ls) at at' =
      rw (stands_unset found.sectionptr at, stands_set ls old.sectionptr at') at'
  choose_section_lem true found old none none at at' =
      rw (stands_unset found.sectionptr at, stands_unset old.sectionptr at') tt
  choose_section_lem false found old none older at at' = rw (stands_unset found.sectionptr at) tt

module _ (ct : Ctype) (section : List ℕ) (conf : Configuration)
    (short : AllShort (split_lines conf.contents)) where
  configuration_section-contents : (configuration_section ct section conf).contents ≡ conf.contents
  unfolding configuration_section
  configuration_section-contents =
      section_loop-contents ct (suc (length conf.contents)) section conf.contents
        (record conf { unread = conf.contents }) refl

  -- The second search finds what the first would have found of the older name.
  older_lem :
      StandsAt ct
        (section_lines (older_name section) (file_lines ct conf.contents))
        (configuration_section ct
          (older_name section)
          (configuration_section ct section conf)).sectionptr
  older_lem =
      let found = configuration_section ct section conf in
      let same = configuration_section-contents in
      subst
        (λ text.
          StandsAt ct (section_lines (older_name section) (file_lines ct text))
            (configuration_section ct (older_name section) found).sectionptr)
        same
        (configuration_section_lem ct (older_name section) found
          (subst (λ text. AllShort (split_lines text)) (sym same) short))

  -- In a file whose lines are all shorter than the buffer, `use_section` goes on with the lines of the
  -- section, or of the one with the older name; it exits exactly where there is neither.
  pub use_section_lem :
      UsesLines ct (used_lines section (file_lines ct conf.contents)) (use_section ct section conf)
  unfolding use_section
  use_section_lem =
      let found = configuration_section ct section conf in
      choose_section_lem ct (has_prefix gitfm_prefix section) found
        (configuration_section ct (older_name section) found)
        (section_lines section (file_lines ct conf.contents))
        (section_lines (older_name section) (file_lines ct conf.contents))
        (configuration_section_lem ct section conf short) older_lem
