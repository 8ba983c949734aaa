-- ===== src/Configure/Settings.antt =====
-- src/misc.c: the sections and variables of the configuration file as the programs ask for them. The
-- warnings on stderr are left out; `none` is an exit.
use gnu_gnuit.Prelude.{
  ℕ, ◌+◌, Bool, true, false, Option, none, some, List, [], ◌∷◌, ◌++◌, drop, length, ◌==◌, ◌&&◌,
  if◌then◌else◌,
}
use gnu_gnuit.Prelude.Int.{ℤ}
use gnu_gnuit.Stack.History.{same_text}
use gnu_gnuit.Configure.{Ctype, Configuration, configuration_section, configuration_getvarinfo}

-- "[GITFM-" and "[GIT-"
abbrev pub gitfm_prefix : List ℕ
gitfm_prefix = b'[' ∷ b'G' ∷ b'I' ∷ b'T' ∷ b'F' ∷ b'M' ∷ b'-' ∷ []

abbrev pub git_prefix : List ℕ
git_prefix = b'[' ∷ b'G' ∷ b'I' ∷ b'T' ∷ b'-' ∷ []

-- strncmp(text, prefix, strlen(prefix)) == 0
unfoldable pub has_prefix : List ℕ → List ℕ → Bool
has_prefix [] text = true
has_prefix (c ∷ prefix) [] = false
has_prefix (c ∷ prefix) (d ∷ text) = (c == d) && has_prefix prefix text

unfoldable pub is_set : Option (List ℕ) → Bool
is_set none = false
is_set (some text) = true

-- `found` and `old` are the states after the searches for the section and for the one with the older
-- name, which is made only where the first fails.
unfoldable pub choose_section : Bool → Configuration → Configuration → Option Configuration
unfolding is_set
choose_section prefixed found old =
    if is_set found.sectionptr
    then some found
    else if prefixed && is_set old.sectionptr
    then some old
    else none

-- The one field that `configuration_getvarinfo` gives for `fields` 1.
unfoldable pub first_field : List (Option (List ℕ)) → Option (List ℕ)
first_field [] = none
first_field (field ∷ rest) = field

module _ (ct : Ctype) where
  unfoldable pub use_section : List ℕ → Configuration → Option Configuration
  unfolding has_prefix choose_section configuration_section
  use_section section conf =
      let found = configuration_section ct section conf in
      let old = configuration_section ct (git_prefix ++ drop (length gitfm_prefix) section) found in
      choose_section (has_prefix gitfm_prefix section) found old

  -- `data`, with the state that the search leaves.
  unfoldable pub get_data : List ℕ → Configuration → Option (List ℕ) × Configuration
  unfolding configuration_getvarinfo first_field
  get_data var_name conf =
      let info = configuration_getvarinfo ct 1 true var_name conf in
      (first_field info.dest, info.after)

  unfoldable pub get_int_var : (List ℕ → ℤ) → List ℕ → ℤ → Configuration → ℤ × Configuration
  unfolding get_data
  get_int_var atoi var_name default_value conf =
      let (data', conf') = get_data var_name conf in
      elim data' [ none ↦ (default_value, conf') | some text ↦ (atoi text, conf') ]

  -- The loop over `options` from the index `i`.
  unfoldable pub option_index : List ℕ → List (List ℕ) → ℕ → Option ℕ
  unfolding same_text
  option_index text [] i = none
  option_index text (o ∷ options) i =
      let rest = option_index text options (i + 1) in if same_text text o then some i else rest

  unfoldable pub const_value : Option (List ℕ) → List (List ℕ) → ℕ → ℕ
  unfolding option_index
  const_value none options default_value = default_value
  const_value (some text) options default_value = elim (option_index text options 0) [
    | none ↦ default_value
    | some i ↦ i
  ]

  unfoldable pub get_const_var : List ℕ → List (List ℕ) → ℕ → Configuration → ℕ × Configuration
  unfolding get_data const_value
  get_const_var var_name options default_value conf =
      let (data', conf') = get_data var_name conf in
      (const_value data' options default_value, conf')

  -- "ON" and "OFF"
  unfoldable pub flag_value : Option (List ℕ) → ℕ → ℕ
  unfolding same_text
  flag_value none default_value = default_value
  flag_value (some text) default_value =
      if same_text text (b'O' ∷ b'N' ∷ [])
      then 1
      else if same_text text (b'O' ∷ b'F' ∷ b'F' ∷ [])
      then 0
      else default_value

  unfoldable pub get_flag_var : List ℕ → ℕ → Configuration → ℕ × Configuration
  unfolding get_data flag_value
  get_flag_var var_name default_value conf =
      let (data', conf') = get_data var_name conf in (flag_value data' default_value, conf')

  unfoldable pub get_string_var :
      List ℕ → Option (List ℕ) → Configuration → Option (List ℕ) × Configuration
  unfolding get_data
  get_string_var var_name default_value conf =
      let (data', conf') = get_data var_name conf in
      elim data' [ none ↦ (default_value, conf') | some text ↦ (some text, conf') ]
