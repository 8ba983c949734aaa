-- ===== src/Command/Steps.antt =====
-- src/git.c: the state of `command_expand` and what it does behind a `%`.
use gnu_gnuit.Prelude.{
  ℕ, ◌+◌, ◌%◌, Bool, true, false, Option, none, some, List, [], ◌∷◌, ◌++◌, ◌==◌, ◌&&◌, ltb, take,
  length, if◌then◌else◌,
}
use gnu_gnuit.Panel.{Panel}
use gnu_gnuit.Command.Fields.{
  System, Directive, ask, prompt, any_file, mode, owner, group, path, base, selected, unknown,
  typed, directive, is_lower, octal, quoted, same_type, panel_get_current_file_type,
  panel_get_current_file_name, behind_last_slash, or_root, selection_text,
}

-- `len` is the room of `*dest`, `dest` what is written there, before `d`.
pub record Expansion (U : Type 0) : Type 0 where
  pub user : U
  pub busy : Bool
  pub p : Panel
  pub l : Panel
  pub len : ℕ
  pub dest : List ℕ
  pub i_flag : ℕ

-- The results 0 and -1, the ones from 1 on with the command, a null pointer read, and a call that
-- has not ended.
pub data Outcome : Type 0 where
  bad_command strings_dont_match faulted unfinished : Outcome
  expanded : ℕ → List ℕ → Outcome

-- A jump to the end; or `tmp` and the text behind the letter and its arguments.
pub data Step (U : Type 0) : Type 0 where
  stop : Outcome → Expansion U → Step U
  go : Option (List ℕ) → List ℕ → Expansion U → Step U

unfoldable pub max_static_size : ℕ
max_static_size = 50

-- wcschr: the text before the character and behind it.
unfoldable pub split_at : ℕ → List ℕ → Option (List ℕ × List ℕ)
split_at d [] = none
split_at d (c ∷ text) = elim (c == d) [
  | true ↦ some ([], text)
  | false ↦ elim (split_at d text) [ none ↦ none | some found ↦ some (c ∷ found.0, found.1) ]
]

-- `*++src != '{'`, and the text up to the character and behind it.
unfoldable pub braced : ℕ → List ℕ → Option (List ℕ × List ℕ)
unfolding split_at
braced d [] = none
braced d (c ∷ text) = elim (c == b'{') [ true ↦ split_at d text | false ↦ none ]

module _ {U : Type 0} (sys : System U) where
  -- il_read_char(src, L"yn", IL_MOVE)
  unfoldable pub ask_step : Option (List ℕ × List ℕ) → Expansion U → Step U
  ask_step none st = stop bad_command st
  ask_step (some (message, rest)) st =
      let (c, user) = sys.il_read_char message st.user in
      let st' = record st { user = user } in
      if c == b'y' then go none rest st' else stop strings_dont_match st'

  unfoldable pub line_step : List ℕ → Option (List ℕ) × U → Expansion U → Step U
  line_step rest (none, user) st = stop strings_dont_match (record st { user = user })
  line_step rest (some tmp, user) st = go (some tmp) rest (record st { user = user })

  -- The result of the second inner call, the default answer.
  unfoldable pub answer_step : List ℕ → List ℕ → Outcome × Expansion U → Expansion U → Step U
  unfolding line_step max_static_size
  answer_step question rest (expanded flag answer, inner) st =
      line_step rest (sys.il_read_line (take max_static_size question) answer inner.user)
        (record st { user = inner.user; busy = false; p = inner.p; l = inner.l })
  answer_step question rest (outcome, inner) st =
      stop outcome (record st { user = inner.user; busy = false; p = inner.p; l = inner.l })

  -- The state of an inner call on a body.
  unfoldable pub inner_call : List ℕ → Expansion U → Expansion U
  inner_call body st = record st { busy = true; len = length body + 1; dest = []; i_flag = 0 }

  module _ (name : List ℕ) (call : List ℕ → Expansion U → Outcome × Expansion U) where
    unfoldable pub default_step : List ℕ → Option (List ℕ × List ℕ) → Expansion U → Step U
    unfolding answer_step inner_call
    default_step question none st = stop bad_command st
    default_step question (some (body, rest)) st =
        answer_step question rest (call body (inner_call body st)) st

    -- The result of the first inner call, the question.
    unfoldable pub question_step : List ℕ → Outcome × Expansion U → Expansion U → Step U
    unfolding default_step split_at
    question_step rest (expanded flag answer, inner) st =
        default_step (name ++ b':' ∷ b' ' ∷ answer) (split_at b'}' rest)
          (record st { user = inner.user; busy = false; p = inner.p; l = inner.l })
    question_step rest (outcome, inner) st =
        stop outcome (record st { user = inner.user; busy = false; p = inner.p; l = inner.l })

    unfoldable pub prompt_step : Option (List ℕ × List ℕ) → Expansion U → Step U
    unfolding question_step inner_call
    prompt_step none st = stop bad_command st
    prompt_step (some (body, rest)) st = question_step rest (call body (inner_call body st)) st

  -- The label `get_file_name`.
  unfoldable pub name_step : Bool → Panel → List ℕ → Expansion U → Step U
  unfolding quoted panel_get_current_file_name
  name_step fits t rest st =
      if fits
      then go (some (quoted (panel_get_current_file_name t))) rest st
      else stop strings_dont_match st

  -- A name from the password or group file, else the number.
  unfoldable pub account_text : Option (List ℕ) → ℕ → List ℕ
  unfolding octal
  account_text none id = octal 11 id
  account_text (some account) id = account

  unfoldable pub base_step : Option (List ℕ) → List ℕ → Expansion U → Step U
  unfolding or_root quoted
  base_step none rest st = stop faulted st
  base_step (some text) rest st = go (some (quoted (or_root text))) rest st

  -- The panel that the letter has named.
  unfoldable pub put_panel : Bool → Panel → Expansion U → Expansion U
  put_panel lower t st = if lower then record st { p = t } else record st { l = t }

  unfoldable pub gathered_step : List ℕ → List ℕ → Expansion U → Step U
  gathered_step [] rest st = stop strings_dont_match st
  gathered_step (c ∷ tmp) rest st = go (some (c ∷ tmp)) rest st

  unfoldable pub selected_step : Bool → Panel → List ℕ → Expansion U → Step U
  unfolding selection_text gathered_step put_panel
  selected_step lower t rest st =
      let flagged = record st { i_flag = if lower then 1 else 2 } in
      elim (st.busy && ltb 0 t.selected_entries) [
        | true ↦
            go
              (some (
                b's' ∷ b'e' ∷ b'l' ∷ b'e' ∷ b'c' ∷ b't' ∷ b'e' ∷ b'd' ∷ b' ' ∷ b'e' ∷ b'n' ∷ b't'
                ∷ b'r' ∷ b'i' ∷ b'e' ∷ b's' ∷ []))
              rest flagged
        | false ↦
            gathered_step (selection_text t).1 rest (put_panel lower (selection_text t).0 flagged)
      ]

  module _ (name : List ℕ) (call : List ℕ → Expansion U → Outcome × Expansion U) where
    -- The switch; `rest` is the text behind the letter.
    unfoldable pub letter_step : Directive → Bool → List ℕ → Expansion U → Step U
    unfolding ask_step prompt_step name_step account_text base_step selected_step braced same_type
        panel_get_current_file_type octal quoted behind_last_slash
    letter_step ask lower rest st =
        if st.busy
        then stop bad_command (record st { busy = false })
        else ask_step (braced b'}' rest) st
    letter_step prompt lower rest st =
        if st.busy
        then stop bad_command (record st { busy = false })
        else prompt_step name call (braced b',' rest) st
    letter_step (typed type) lower rest st =
        let t = if lower then st.p else st.l in
        name_step (same_type (panel_get_current_file_type t) type) t rest st
    letter_step any_file lower rest st = name_step true (if lower then st.p else st.l) rest st
    letter_step mode lower rest st =
        go (some (octal 4 ((sys.stat (if lower then st.p else st.l)).mode % 4096))) rest st
    letter_step owner lower rest st =
        let uid = (sys.stat (if lower then st.p else st.l)).uid in
        go (some (account_text (sys.getpwuid uid) uid)) rest st
    letter_step group lower rest st =
        let gid = (sys.stat (if lower then st.p else st.l)).gid in
        go (some (account_text (sys.getgrgid gid) gid)) rest st
    letter_step path lower rest st =
        let t = if lower then st.p else st.l in go (some (quoted t.path)) rest st
    letter_step base lower rest st =
        let t = if lower then st.p else st.l in base_step (behind_last_slash t.path) rest st
    letter_step selected lower rest st = selected_step lower (if lower then st.p else st.l) rest st
    letter_step unknown lower rest st = stop bad_command st

    -- What follows the `%`; at the end of the command its NUL, which is no letter.
    unfoldable pub directive_step : List ℕ → Expansion U → Step U
    unfolding letter_step directive
    directive_step [] st = stop bad_command st
    directive_step (c ∷ rest) st = letter_step (directive c) (is_lower c) rest st
