-- ===== src/Gitps/Signals.antt =====
-- The signal that src/gitps.c has chosen.
use gnu_gnuit.Prelude.{
  ℕ, zero, suc, ◌+◌, ◌-◌, ◌%◌, ◌≤◌, ◌<◌, ◌≡◌, sym, ap, ◌∙◌, Bool-cases, inl, inr, true, List, [],
  ◌∷◌, length, ◌==◌, get_or, arith,
}
use native.Mathlib.Nat.{mod-eq_of_lt, mod-lt, mod-add-mod}
use gnu_gnuit.Gitps.{Ps, next_signal, signal, signal_index, set_signal, press}

-- The index found is one of the table, and the signal there is the one looked for.
Finds : ℕ → ℕ → List ℕ → ℕ → Type 0
Finds index i sigdesc j = (i ≤ j) × (j < i + length sigdesc) × (get_or sigdesc (j - i) 0 ≡ index)

Finds-here :
    (index i number : ℕ) (sigdesc : List ℕ) → number ≡ index → Finds index i (number ∷ sigdesc) i
unfolding Finds
Finds-here index i number sigdesc e = (
  omega arith,
  omega arith,
  ap (λ k. get_or (number ∷ sigdesc) k 0) {x = i - i} {y = 0} (omega arith) ∙ e,
)

Finds-later :
    (index i number : ℕ) (sigdesc : List ℕ) (j : ℕ)
    → Finds index (i + 1) sigdesc j
    → Finds index i (number ∷ sigdesc) j
unfolding Finds
Finds-later index i number sigdesc j (low, high, e) = (
  omega (arith, low),
  omega (arith, high),
  ap (λ k. get_or (number ∷ sigdesc) k 0) {x = j - i} {y = suc (j - (i + 1))} (omega (arith, low))
      ∙ e,
)

signal_index-Finds :
    (index i : ℕ) (sigdesc : List ℕ) (otherwise k : ℕ)
    → k < length sigdesc
    → get_or sigdesc k 0 ≡ index
    → Finds index i sigdesc (signal_index index i sigdesc otherwise)
unfolding signal_index
signal_index-Finds index i [] otherwise k h e = absurd (omega (arith, h))
signal_index-Finds index i (number ∷ sigdesc) otherwise zero h e =
    let same : (number == index) ≡ true = ground (arith, e) in
    simp same (Finds-here index i number sigdesc e)
signal_index-Finds index i (number ∷ sigdesc) otherwise (suc k) h e =
    elim (Bool-cases (number == index)) [
      | inl same ↦ simp same (Finds-here index i number sigdesc (ground (arith, same)))
      | inr differs ↦ simp differs (
          Finds-later index i number sigdesc (signal_index index (i + 1) sigdesc otherwise)
            (signal_index-Finds index (i + 1) sigdesc otherwise k (omega (arith, h)) e))
    ]

-- The command for a signal of the table chooses an entry of the table with that signal.
pub set_signal_lem :
    (sigdesc : List ℕ) (index k : ℕ) (s : Ps)
    → k < length sigdesc
    → get_or sigdesc k 0 ≡ index
    → ((press sigdesc (signal index) s).signal_type < length sigdesc)
      × (get_or sigdesc (press sigdesc (signal index) s).signal_type 0 ≡ index)
unfolding press set_signal Finds
set_signal_lem sigdesc index k s h e =
    let (low, high, found) = signal_index-Finds index 0 sigdesc s.signal_type k h e in
    (omega (arith, high), ap (λ k. get_or sigdesc k 0) (omega (arith, low)) ∙ found)

abbrev pub presses : List ℕ → ℕ → Ps → Ps
presses sigdesc zero s = s
presses sigdesc (suc n) s = presses sigdesc n (press sigdesc next_signal s)

-- Next-signal commands step through the table and around its end: from an entry of the table, n of
-- them choose the entry n further, modulo the number of entries; and nothing else changes.
pub next_signals_lem :
    (sigdesc : List ℕ) (n : ℕ) (s : Ps)
    → s.signal_type < length sigdesc
    → presses sigdesc n s ≡ record s { signal_type = (s.signal_type + n) % length sigdesc }
unfolding press
next_signals_lem sigdesc zero s h =
    ap (λ t. record s { signal_type = t })
      (sym (mod-eq_of_lt h) ∙ ap (λ k. k % length sigdesc) (omega arith))
next_signals_lem sigdesc (suc n) s h =
    next_signals_lem sigdesc n (record s { signal_type = (s.signal_type + 1) % length sigdesc })
      (mod-lt (s.signal_type + 1) (omega (arith, h)))
    ∙ ap (λ t. record s { signal_type = t })
        (mod-add-mod (s.signal_type + 1) (length sigdesc) n
          ∙ ap (λ k. k % length sigdesc) (omega arith))
