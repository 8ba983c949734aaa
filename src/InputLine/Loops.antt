-- ===== src/InputLine/Loops.antt =====
-- The loops that `il_backward_word` and `il_forward_word` are made of, on the line.
use gnu_gnuit.Prelude.{
  ℕ, zero, suc, ◌+◌, ◌-◌, ◌≤◌, ◌≡◌, refl, sym, ap, ◌∙◌, Bool, true, false, ◌&&◌, ltb, List, [], ◌∷◌,
  ◌++◌, append_assoc, reverse, arith, Bool-cases, inl, inr,
}
use mathlib.Core.List.{reverse-cons}
use gnu_gnuit.InputLine.{InputLine}
use gnu_gnuit.InputLine.Line.{
  Line, Line-ext, span, line_backward_char, line_forward_char, line_backward_over,
  line_forward_over,
}
use gnu_gnuit.InputLine.Valid.{IsValid, Refines, Kept, Kept-refl, Kept-trans, view}
use gnu_gnuit.InputLine.Move.{il_backward_char, il_forward_char, backward_while, forward_while}
use gnu_gnuit.InputLine.Moves.{
  il_backward_char_lem, il_forward_char_lem, left_uncons, right_uncons, left_nil, right_nil,
}

il_backward_char-Kept : (il : InputLine) → Kept il (il_backward_char il)
unfolding il_backward_char
il_backward_char-Kept il = ground arith

il_forward_char-Kept : (il : InputLine) → Kept il (il_forward_char il)
unfolding il_forward_char
il_forward_char-Kept il = ground arith

-- The loops on the line, a step at a time.
module _ (test : ℕ → Bool) where
  pub span_stop :
      (text : List ℕ) (c : ℕ) (rest : List ℕ)
      → text ≡ c ∷ rest
      → test c ≡ false
      → span test text ≡ ([], text)
  unfolding span
  span_stop text c rest e t = rw (e, t)

  pub span_nil : (text : List ℕ) → text ≡ [] → span test text ≡ ([], text)
  unfolding span
  span_nil text e = rw e

  backward_over_stop : (l : Line) → span test l.left ≡ ([], l.left) → line_backward_over test l ≡ l
  unfolding line_backward_over
  backward_over_stop l q =
      Line-ext _ _ refl (ap (λ t. t.1) q) (ap (λ t. reverse t.0 ++ l.right) q) refl

  forward_over_stop : (l : Line) → span test l.right ≡ ([], l.right) → line_forward_over test l ≡ l
  unfolding line_forward_over
  forward_over_stop l q =
      Line-ext _ _ refl (ap (λ t. reverse t.0 ++ l.left) q) (ap (λ t. t.1) q) refl

  module _ (l : Line) (c : ℕ) (rest : List ℕ) where
    backward_over_step :
        l.left ≡ c ∷ rest
        → test c ≡ true
        → line_backward_over test l ≡ line_backward_over test (line_backward_char l)
    unfolding line_backward_over line_backward_char span
    backward_over_step e t = rw (e, t, reverse-cons, append_assoc)

    forward_over_step :
        l.right ≡ c ∷ rest
        → test c ≡ true
        → line_forward_over test l ≡ line_forward_over test (line_forward_char l)
    unfolding line_forward_over line_forward_char span
    forward_over_step e t = rw (e, t, reverse-cons, append_assoc)

  -- A round of the loop that goes on, and one that ends it.
  module _ (il : InputLine) (v : IsValid il) where
    backward_round :
        (ltb il.static_length il.point && test (il.buffer (il.point - 1))) ≡ true
        → line_backward_over test (view (il_backward_char il)) ≡ line_backward_over test (view il)
    backward_round go =
        rw ((il_backward_char_lem il v).shows)
          (sym (backward_over_step (view il) _ _ (left_uncons il v (ground arith)) (ground arith)))

    backward_end :
        (ltb il.static_length il.point && test (il.buffer (il.point - 1))) ≡ false
        → line_backward_over test (view il) ≡ view il
    backward_end stop = backward_over_stop _ (elim (Bool-cases (ltb il.static_length il.point)) [
      | inl inside ↦ span_stop _ _ _ (left_uncons il v (ground arith)) (ground arith)
      | inr outside ↦ span_nil _ (left_nil il v (ground arith))
    ])

    forward_round :
        (ltb il.point il.length && test (il.buffer il.point)) ≡ true
        → line_forward_over test (view (il_forward_char il)) ≡ line_forward_over test (view il)
    forward_round go =
        rw ((il_forward_char_lem il v).shows)
          (sym (forward_over_step (view il) _ _ (right_uncons il v (ground arith)) (ground arith)))

    forward_end :
        (ltb il.point il.length && test (il.buffer il.point)) ≡ false
        → line_forward_over test (view il) ≡ view il
    forward_end stop = forward_over_stop _ (elim (Bool-cases (ltb il.point il.length)) [
      | inl inside ↦ span_stop _ _ _ (right_uncons il v (ground arith)) (ground arith)
      | inr outside ↦ span_nil _ (right_nil il v (ground arith))
    ])

    backward_char-point :
        ltb il.static_length il.point ≡ true → (il_backward_char il).point + 1 ≡ il.point
    unfolding il_backward_char
    backward_char-point go = ground arith

    forward_char-point :
        ltb il.point il.length ≡ true
        → ((il_forward_char il).point ≡ il.point + 1) × ((il_forward_char il).length ≡ il.length)
    unfolding il_forward_char
    forward_char-point go = ground arith

  -- The loops of `il_backward_word` and `il_forward_word` end by their tests, given a round for
  -- each character in front of them.
  pub backward_while_lem :
      (fuel : ℕ) (il : InputLine)
      → IsValid il
      → il.point ≤ fuel
      → Refines il (backward_while test fuel il) (line_backward_over test (view il))
  unfolding backward_while
  backward_while_lem zero il v h = record {
    valid = v;
    shows = sym (backward_end il v (ground arith));
    sound = refl;
  }
  backward_while_lem (suc fuel) il v h =
      elim (Bool-cases (ltb il.static_length il.point && test (il.buffer (il.point - 1)))) [
        | inl go ↦
            rw (go, backward_while)
              (let one = il_backward_char_lem il v in
                let rest =
                  backward_while_lem fuel (il_backward_char il) one.valid
                    (ground (arith, backward_char-point il v)) in
                record {
                  valid = rest.valid;
                  shows = rest.shows ∙ backward_round il v go;
                  sound = rest.sound ∙ one.sound;
                })
        | inr stop ↦
            rw (stop, backward_while)
              (record { valid = v; shows = sym (backward_end il v stop); sound = refl })
      ]

  pub forward_while_lem :
      (fuel : ℕ) (il : InputLine)
      → IsValid il
      → il.length - il.point ≤ fuel
      → Refines il (forward_while test fuel il) (line_forward_over test (view il))
  unfolding forward_while
  forward_while_lem zero il v h = record {
    valid = v;
    shows = sym (forward_end il v (ground arith));
    sound = refl;
  }
  forward_while_lem (suc fuel) il v h =
      elim (Bool-cases (ltb il.point il.length && test (il.buffer il.point))) [
        | inl go ↦
            rw (go, forward_while)
              (let one = il_forward_char_lem il v in
                let rest =
                  forward_while_lem fuel (il_forward_char il) one.valid
                    (ground (arith, forward_char-point il v)) in
                record {
                  valid = rest.valid;
                  shows = rest.shows ∙ forward_round il v go;
                  sound = rest.sound ∙ one.sound;
                })
        | inr stop ↦
            rw (stop, forward_while)
              (record { valid = v; shows = sym (forward_end il v stop); sound = refl })
      ]

  -- Moves leave all else as it was.
  pub backward_while-Kept : (fuel : ℕ) (il : InputLine) → Kept il (backward_while test fuel il)
  unfolding backward_while
  backward_while-Kept zero il = Kept-refl il
  backward_while-Kept (suc fuel) il =
      elim (Bool-cases (ltb il.static_length il.point && test (il.buffer (il.point - 1)))) [
        | inl go ↦
            rw (go, backward_while)
              (Kept-trans (il_backward_char-Kept il)
                (backward_while-Kept fuel (il_backward_char il)))
        | inr stop ↦ rw (stop, backward_while) (Kept-refl il)
      ]

  pub forward_while-Kept : (fuel : ℕ) (il : InputLine) → Kept il (forward_while test fuel il)
  unfolding forward_while
  forward_while-Kept zero il = Kept-refl il
  forward_while-Kept (suc fuel) il =
      elim (Bool-cases (ltb il.point il.length && test (il.buffer il.point))) [
        | inl go ↦
            rw (go, forward_while)
              (Kept-trans (il_forward_char-Kept il) (forward_while-Kept fuel (il_forward_char il)))
        | inr stop ↦ rw (stop, forward_while) (Kept-refl il)
      ]
