-- ===== src/Configure/Tests.antt =====
-- The theorem on the configuration file, applied to a section of one variable; and a line that fills
-- the buffer.
use gnu_gnuit.Prelude.{ℕ, ◌≡◌, refl, true, ◌||◌, none, List, [], ◌∷◌, ◌==◌, leb, ◌&&◌, arith}
use gnu_gnuit.Stack.History.{same_text}
use gnu_gnuit.Configure.{
  Ctype, Configuration, has_char, before, all_space, configuration_section,
  configuration_getvarinfo,
}
use gnu_gnuit.Configure.Lines.{split_lines, file_lines, AllShort}
use gnu_gnuit.Configure.Lookup.{var_fields, configuration_lem}
use gnu_gnuit.Configure.Settings.{use_section}
use gnu_gnuit.Configure.SettingsLaws.{UsesLines, used_lines, use_section_lem}

abbrev c_locale : Ctype
c_locale = record {
  isspace = λ c. c == b' ' || (leb 9 c && leb c 13);
  isprint = λ c. leb 32 c && leb c 126;
}

-- "[S]\nA = b;c # d\n"
abbrev sample : List ℕ
sample =
    b'[' ∷ b'S' ∷ b']' ∷ b'\n' ∷ b'A' ∷ b' ' ∷ b'=' ∷ b' ' ∷ b'b' ∷ b';' ∷ b'c' ∷ b' ' ∷ b'#' ∷ b'd'
    ∷ b'\n' ∷ []

abbrev opened : Configuration
opened = record { contents = sample; unread = sample; sectionptr = none; line = []; wait_msg = 0 }

sample-AllShort : AllShort (split_lines sample)
sample-AllShort = (omega arith, (omega arith, tt))

configuration_example :
    (configuration_getvarinfo c_locale 2 true
      (b'A' ∷ [])
      (configuration_section c_locale (b'[' ∷ b'S' ∷ b']' ∷ []) opened)).dest
    ≡ var_fields c_locale 2
        (b'A' ∷ [])
        ((b'A' ∷ b' ' ∷ b'=' ∷ b' ' ∷ b'b' ∷ b';' ∷ b'c' ∷ b' ' ∷ []) ∷ [])
unfolding has_char before all_space same_text
configuration_example =
    configuration_lem c_locale 2 (b'A' ∷ []) (b'[' ∷ b'S' ∷ b']' ∷ []) opened
      ((b'A' ∷ b' ' ∷ b'=' ∷ b' ' ∷ b'b' ∷ b';' ∷ b'c' ∷ b' ' ∷ []) ∷ []) sample-AllShort refl

-- The section of the sample.
use_section_example :
    UsesLines c_locale
      (used_lines (b'[' ∷ b'S' ∷ b']' ∷ []) (file_lines c_locale sample))
      (use_section c_locale (b'[' ∷ b'S' ∷ b']' ∷ []) opened)
use_section_example = use_section_lem c_locale (b'[' ∷ b'S' ∷ b']' ∷ []) opened sample-AllShort
