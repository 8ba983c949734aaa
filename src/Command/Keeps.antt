-- ===== src/Command/Keeps.antt =====
-- A `%` sequence of `command_expand` in src/git.c: it takes some of the text, and leaves what is written
-- as it is.
use gnu_gnuit.Prelude.{
  if◌then◌else◌, ℕ, ◌+◌, ◌≤◌, ◌<◌, ◌≡◌, refl, Bool, true, false, Bool-cases, inl, inr, Option, none,
  some, List, [], ◌∷◌, ◌++◌, ◌==◌, ◌&&◌, ltb, take, length, arith,
}
use gnu_gnuit.Panel.{Panel}
use gnu_gnuit.Command.Fields.{
  System, Directive, ask, prompt, any_file, mode, owner, group, path, base, selected, unknown,
  typed, directive, is_lower, same_type, panel_get_current_file_type, behind_last_slash,
  selection_text,
}
use gnu_gnuit.Command.Steps.{
  Expansion, Outcome, bad_command, strings_dont_match, faulted, unfinished, expanded, Step, stop,
  go, split_at, braced, ask_step, line_step, answer_step, inner_call, default_step, question_step,
  prompt_step, name_step, base_step, put_panel, gathered_step, selected_step, letter_step,
  directive_step, max_static_size,
}
use gnu_gnuit.Command.Braces.{IsError, IsEnd, Shorter, split_at-Shorter, Shorter-le, braced-Shorter}

module _ {U : Type 0} (sys : System U) where
  -- A step behind which the loop goes on with no more text than `n`, and the room as it was.
  abbrev pub Keeps : ℕ → Expansion U → Step U → Type 0
  Keeps n st (stop outcome st') = IsError outcome
  Keeps n st (go tmp rest st') =
      (length rest ≤ n) × (st'.len ≡ st.len) × (st'.dest ≡ st.dest) × (st'.i_flag ≤ 2)

  ask_step-Keeps :
      (n : ℕ) (found : Option (List ℕ × List ℕ)) (st : Expansion U)
      → Shorter n found
      → st.i_flag ≤ 2
      → Keeps n st (ask_step sys found st)
  unfolding ask_step
  ask_step-Keeps n none st h f = tt
  ask_step-Keeps n (some found) st h f =
      elim (Bool-cases ((sys.il_read_char found.0 st.user).0 == b'y')) [
        | inl agreed ↦ rw (agreed, Keeps) (omega (arith, h.1), refl, refl, f)
        | inr refused ↦ rw (refused, Keeps) tt
      ]

  Keeps-le :
      {m n : ℕ} (st : Expansion U) (step : Step U) → Keeps m st step → m ≤ n → Keeps n st step
  Keeps-le st (stop outcome st') h le = h
  Keeps-le st (go tmp rest st') h le = (omega (arith, h.0, le), h.1, h.2, h.3)

  module _ (name : List ℕ) (call : List ℕ → Expansion U → Outcome × Expansion U) where
    -- The inner calls on texts of less than `n` characters end.
    abbrev pub Ends : ℕ → Type 0
    Ends n =
        (body : List ℕ) (st : Expansion U)
        → length body < n
        → st.i_flag ≤ 2
        → length st.dest + length body < st.len
        → IsEnd (call body st).0

    line_step-Keeps :
        (n : ℕ) (rest : List ℕ) (line : Option (List ℕ) × U) (st st' : Expansion U)
        → length rest ≤ n
        → st'.i_flag ≤ 2
        → (st'.len ≡ st.len)
        → (st'.dest ≡ st.dest)
        → Keeps n st (line_step sys rest line st')
    unfolding line_step
    line_step-Keeps n rest (none, user) st st' h f e d = tt
    line_step-Keeps n rest (some tmp, user) st st' h f e d = (h, e, d, f)

    answer_step-Keeps :
        (n : ℕ) (question rest : List ℕ) (inner : Outcome × Expansion U) (st st' : Expansion U)
        → IsEnd inner.0
        → length rest ≤ n
        → st'.i_flag ≤ 2
        → (st'.len ≡ st.len)
        → (st'.dest ≡ st.dest)
        → Keeps n st (answer_step sys question rest inner st')
    unfolding answer_step
    answer_step-Keeps n question rest (bad_command, inner) st st' i h f e d = tt
    answer_step-Keeps n question rest (strings_dont_match, inner) st st' i h f e d = tt
    answer_step-Keeps n question rest (faulted, inner) st st' i h f e d = tt
    answer_step-Keeps n question rest (unfinished, inner) st st' i h f e d = i
    answer_step-Keeps n question rest (expanded flag answer, inner) st st' i h f e d =
        line_step-Keeps n rest (sys.il_read_line (take max_static_size question) answer inner.user)
          st (record st' { user = inner.user; busy = false; p = inner.p; l = inner.l }) h f e d

    default_step-Keeps :
        (n : ℕ) (question : List ℕ) (found : Option (List ℕ × List ℕ)) (st st' : Expansion U)
        → Ends n
        → Shorter n found
        → st'.i_flag ≤ 2
        → (st'.len ≡ st.len)
        → (st'.dest ≡ st.dest)
        → Keeps n st (default_step sys name call question found st')
    unfolding default_step inner_call
    default_step-Keeps n question none st st' ends h f e d = tt
    default_step-Keeps n question (some found) st st' ends h f e d =
        answer_step-Keeps n question found.1 (call found.0 (inner_call sys found.0 st')) st st'
          (ends found.0 (inner_call sys found.0 st') h.0 (omega arith) (omega arith))
          (omega (arith, h.1)) f e d

    question_step-Keeps :
        (n : ℕ) (rest : List ℕ) (inner : Outcome × Expansion U) (st st' : Expansion U)
        → Ends n
        → IsEnd inner.0
        → length rest < n
        → st'.i_flag ≤ 2
        → (st'.len ≡ st.len)
        → (st'.dest ≡ st.dest)
        → Keeps n st (question_step sys name call rest inner st')
    unfolding question_step
    question_step-Keeps n rest (bad_command, inner) st st' ends i h f e d = tt
    question_step-Keeps n rest (strings_dont_match, inner) st st' ends i h f e d = tt
    question_step-Keeps n rest (faulted, inner) st st' ends i h f e d = tt
    question_step-Keeps n rest (unfinished, inner) st st' ends i h f e d = i
    question_step-Keeps n rest (expanded flag answer, inner) st st' ends i h f e d =
        default_step-Keeps n (name ++ b':' ∷ b' ' ∷ answer) (split_at b'}' rest) st
          (record st' { user = inner.user; busy = false; p = inner.p; l = inner.l }) ends
          (Shorter-le (length rest) n (split_at b'}' rest) (split_at-Shorter b'}' rest)
            (omega (arith, h)))
          f e d

    prompt_step-Keeps :
        (n : ℕ) (found : Option (List ℕ × List ℕ)) (st : Expansion U)
        → Ends n
        → Shorter n found
        → st.i_flag ≤ 2
        → Keeps n st (prompt_step sys name call found st)
    unfolding prompt_step inner_call
    prompt_step-Keeps n none st ends h f = tt
    prompt_step-Keeps n (some found) st ends h f =
        question_step-Keeps n found.1 (call found.0 (inner_call sys found.0 st)) st st ends
          (ends found.0 (inner_call sys found.0 st) h.0 (omega arith) (omega arith)) h.1 f refl refl

    name_step-Keeps :
        (fits : Bool) (t : Panel) (rest : List ℕ) (st : Expansion U)
        → st.i_flag ≤ 2
        → Keeps (length rest) st (name_step sys fits t rest st)
    unfolding name_step
    name_step-Keeps true t rest st f = (omega arith, refl, refl, f)
    name_step-Keeps false t rest st f = tt

    base_step-Keeps :
        (found : Option (List ℕ)) (rest : List ℕ) (st : Expansion U)
        → st.i_flag ≤ 2
        → Keeps (length rest) st (base_step sys found rest st)
    unfolding base_step
    base_step-Keeps none rest st f = tt
    base_step-Keeps (some text) rest st f = (omega arith, refl, refl, f)

    gathered_step-Keeps :
        (tmp rest : List ℕ) (lower : Bool) (t : Panel) (st : Expansion U)
        → Keeps (length rest) st (
            gathered_step sys tmp rest
              (put_panel sys lower t (record st { i_flag = if lower then 1 else 2 })))
    unfolding gathered_step put_panel
    gathered_step-Keeps [] rest lower t st = tt
    gathered_step-Keeps (c ∷ tmp) rest true t st = (omega arith, refl, refl, omega arith)
    gathered_step-Keeps (c ∷ tmp) rest false t st = (omega arith, refl, refl, omega arith)

    flag_le : (lower : Bool) → (if lower then 1 else 2) ≤ 2
    flag_le true = omega arith
    flag_le false = omega arith

    selected_step-Keeps :
        (lower : Bool) (t : Panel) (rest : List ℕ) (st : Expansion U)
        → Keeps (length rest) st (selected_step sys lower t rest st)
    unfolding selected_step
    selected_step-Keeps lower t rest st = elim (Bool-cases (st.busy && ltb 0 t.selected_entries)) [
      | inl several ↦ rw (several, Keeps) (omega arith, refl, refl, flag_le lower)
      | inr named ↦
          rw (named, Keeps)
            (gathered_step-Keeps (selection_text t).1 rest lower (selection_text t).0 st)
    ]

    letter_step-Keeps :
        (directive : Directive) (lower : Bool) (rest : List ℕ) (st : Expansion U)
        → Ends (length rest)
        → st.i_flag ≤ 2
        → Keeps (length rest) st (letter_step sys name call directive lower rest st)
    unfolding letter_step
    letter_step-Keeps ask lower rest st ends f = elim (Bool-cases st.busy) [
      | inl inside ↦ simp (inside) tt
      | inr top ↦
          simp (top)
            (ask_step-Keeps (length rest) (braced b'}' rest) st (braced-Shorter b'}' rest) f)
    ]
    letter_step-Keeps prompt lower rest st ends f = elim (Bool-cases st.busy) [
      | inl inside ↦ simp (inside) tt
      | inr top ↦
          simp (top) (
            prompt_step-Keeps (length rest) (braced b',' rest) st ends (braced-Shorter b',' rest) f)
    ]
    letter_step-Keeps (typed type) lower rest st ends f =
        let t = if lower then st.p else st.l in
        name_step-Keeps (same_type (panel_get_current_file_type t) type) t rest st f
    letter_step-Keeps any_file lower rest st ends f =
        name_step-Keeps true (if lower then st.p else st.l) rest st f
    letter_step-Keeps mode lower rest st ends f = (omega arith, refl, refl, f)
    letter_step-Keeps owner lower rest st ends f = (omega arith, refl, refl, f)
    letter_step-Keeps group lower rest st ends f = (omega arith, refl, refl, f)
    letter_step-Keeps path lower rest st ends f = (omega arith, refl, refl, f)
    letter_step-Keeps base lower rest st ends f =
        base_step-Keeps (behind_last_slash (if lower then st.p else st.l).path) rest st f
    letter_step-Keeps selected lower rest st ends f =
        selected_step-Keeps lower (if lower then st.p else st.l) rest st
    letter_step-Keeps unknown lower rest st ends f = tt

    pub directive_step-Keeps :
        (src : List ℕ) (st : Expansion U)
        → Ends (length src)
        → st.i_flag ≤ 2
        → Keeps (length src) st (directive_step sys name call src st)
    unfolding directive_step
    directive_step-Keeps [] st ends f = tt
    directive_step-Keeps (c ∷ rest) st ends f =
        Keeps-le st (letter_step sys name call (directive c) (is_lower c) rest st)
          (letter_step-Keeps (directive c) (is_lower c) rest st
            (λ body st' h. ends body st' (omega (arith, h))) f)
          (omega arith)
