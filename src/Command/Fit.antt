-- ===== src/Command/Fit.antt =====
-- `command_expand` of src/git.c ends, and stays inside the room it has allocated.
use gnu_gnuit.Prelude.{
  ℕ, zero, suc, ◌+◌, ◌≤◌, ◌<◌, ◌≡◌, refl, ap, subst, sym, true, false, Bool-cases, inl, inr, none,
  some, List, [], ◌∷◌, ◌++◌, ◌==◌, length, length-append, arith,
}
use gnu_gnuit.Panel.{Panel}
use gnu_gnuit.Command.Fields.{System}
use gnu_gnuit.Command.Steps.{
  Expansion, Outcome, bad_command, strings_dont_match, faulted, unfinished, expanded, Step, stop,
  go, directive_step,
}
use gnu_gnuit.Command.{append_tmp, take_step, expand, command_expand}
use gnu_gnuit.Command.Braces.{IsError, IsEnd}
use gnu_gnuit.Command.Keeps.{Keeps, directive_step-Keeps}

module _ {U : Type 0} (sys : System U) where
  -- The end of a call: the results -1 and 0 or a null pointer read; or a result from 1 to 3, and the
  -- command with its NUL inside the room.
  abbrev pub Fits : Outcome × Expansion U → Type 0
  Fits (bad_command, st) = Unit
  Fits (strings_dont_match, st) = Unit
  Fits (faulted, st) = Unit
  Fits (unfinished, st) = ⊥
  Fits (expanded result text, st) = (1 ≤ result) × (result ≤ 3) × (length text < st.len)

  Fits-IsEnd : (end : Outcome × Expansion U) → Fits end → IsEnd end.0
  Fits-IsEnd (bad_command, st) h = tt
  Fits-IsEnd (strings_dont_match, st) h = tt
  Fits-IsEnd (faulted, st) h = tt
  Fits-IsEnd (unfinished, st) h = h
  Fits-IsEnd (expanded result text, st) h = tt

  error-Fits : (outcome : Outcome) (st : Expansion U) → IsError outcome → Fits (outcome, st)
  error-Fits bad_command st h = tt
  error-Fits strings_dont_match st h = tt
  error-Fits faulted st h = tt
  error-Fits unfinished st h = h
  error-Fits (expanded result text) st h = absurd h

  module _ (name : List ℕ) where
    take_step-Fits :
        (on : List ℕ → Expansion U → Outcome × Expansion U) (n : ℕ) (st : Expansion U)
        (step : Step U)
        → Keeps sys n st step
        → length st.dest + n < st.len
        → ((rest : List ℕ) (st' : Expansion U)
            → length rest ≤ n
            → st'.i_flag ≤ 2
            → length st'.dest + length rest < st'.len
            → Fits (on rest st'))
        → Fits (take_step sys name on step)
    unfolding take_step append_tmp
    take_step-Fits on n st (stop outcome st') h room loop = error-Fits outcome st' h
    take_step-Fits on n st (go none rest st') h room loop =
        loop rest st' h.0 h.3 (omega (arith, h.0, h.1, room, ap length h.2))
    take_step-Fits on n st (go (some tmp) rest st') h room loop =
        loop rest (record st' { len = st'.len + length tmp; dest = st'.dest ++ tmp }) h.0 h.3
          (omega (arith, h.0, h.1, room, ap length h.2, length-append st'.dest tmp))

    expand_plain :
        (fuel c : ℕ) (src : List ℕ) (st : Expansion U)
        → (c == b'%') ≡ false
        → expand sys name (suc fuel) (c ∷ src) st
          ≡ expand sys name fuel src (record st { dest = st.dest ++ c ∷ [] })
    unfolding expand
    expand_plain fuel c src st plain = rw (plain, expand) refl

    expand_percent :
        (fuel c : ℕ) (src : List ℕ) (st : Expansion U)
        → (c == b'%') ≡ true
        → expand sys name (suc fuel) (c ∷ src) st
          ≡ take_step sys name
              (expand sys name fuel)
              (directive_step sys name (expand sys name fuel) src st)
    unfolding expand
    expand_percent fuel c src st percent = rw (percent, expand) refl

    expand-Fits :
        (fuel : ℕ) (src : List ℕ) (st : Expansion U)
        → length src < fuel
        → st.i_flag ≤ 2
        → length st.dest + length src < st.len
        → Fits (expand sys name fuel src st)
    unfolding expand
    expand-Fits zero src st enough f room = absurd (omega (arith, enough))
    expand-Fits (suc fuel) [] st enough f room =
        (omega arith, omega (arith, f), omega (arith, room))
    expand-Fits (suc fuel) (c ∷ src) st enough f room = elim (Bool-cases (c == b'%')) [
      | inr plain ↦ subst Fits (sym (expand_plain fuel c src st plain)) (
          expand-Fits fuel src (record st { dest = st.dest ++ c ∷ [] }) (omega (arith, enough)) f
            (omega (arith, room, length-append st.dest (c ∷ []))))
      | inl percent ↦ subst Fits (sym (expand_percent fuel c src st percent)) (
          take_step-Fits (expand sys name fuel) (length src) st
            (directive_step sys name (expand sys name fuel) src st)
            (directive_step-Keeps sys name (expand sys name fuel) src st
              (λ body st' h f' room'.
                Fits-IsEnd (expand sys name fuel body st')
                  (expand-Fits fuel body st' (omega (arith, h, enough)) f' room'))
              f)
            (omega (arith, room))
            (λ rest st' h f' room'. expand-Fits fuel rest st' (omega (arith, h, enough)) f' room'))
    ]

    -- `command_expand` ends on every command, and a command that it expands fits with its NUL into the
    -- room it has allocated for it, with a result from 1 to 3.
    pub command_expand-Fits :
        (body : List ℕ) (p l : Panel) (user : U) → Fits (command_expand sys name body p l user)
    unfolding command_expand
    command_expand-Fits body p l user =
        expand-Fits (suc (length body)) body _ (omega arith) (omega arith) (omega arith)
