-- ===== src/InputLine/CaseLaws.antt =====
-- The changes of case, on the line.
use gnu_gnuit.Prelude.{
  ℕ, zero, suc, ◌+◌, ◌-◌, ◌<◌, ◌≡◌, ◌≢◌, refl, sym, ap, ap₂, ◌∙◌, ltb, leb, ◌&&◌, [], ◌∷◌, ◌++◌,
  reverse, map, if◌then◌else◌, arith, Bool-cases, inl, inr,
}
use gnu_gnuit.Wide.{Locale, LocaleLaws, store}
use gnu_gnuit.Wide.Slice.{slice, rslice, slice_move, rslice_move, reverse-slice, rslice-add}
use gnu_gnuit.InputLine.{InputLine}
use gnu_gnuit.InputLine.Move.{il_forward_word}
use gnu_gnuit.InputLine.Line.{Line, Line-ext, span, word, line_change}
use gnu_gnuit.InputLine.Valid.{IsValid, Refines, view, rebuild}
use gnu_gnuit.InputLine.Moves.{right_nil}
use gnu_gnuit.InputLine.WordMoves.{il_forward_word_lem, il_forward_word-Kept}
use gnu_gnuit.InputLine.WordText.{right-ahead, point-ahead, word_ahead}
use gnu_gnuit.InputLine.Words.{change_cells, il_downcase_word, il_upcase_word}

-- The loop changes the cells of its range, once each, and no others.
change_cells_at :
    (change : ℕ → ℕ) (n at : ℕ) (cells : ℕ → ℕ) (i : ℕ)
    → change_cells change n at cells i
      ≡ (if leb at i && ltb i (at + n) then change (cells i) else cells i)
unfolding change_cells store
change_cells_at change zero at cells i = ground arith
change_cells_at change (suc n) at cells i =
    ground (arith, change_cells_at change n (at + 1) (store at (change (cells at)) cells) i)

slice-map :
    (f g : ℕ → ℕ) (change : ℕ → ℕ) (a n : ℕ)
    → ((i : ℕ) → i < n → f (a + i) ≡ change (g (a + i)))
    → slice f a n ≡ map change (slice g a n)
slice-map f g change a zero h = refl
slice-map f g change a (suc n) h =
    ap₂ ◌∷◌
      (ap f {x = a} {y = a + 0} (omega arith)
        ∙ h 0 (omega arith)
        ∙ ap (λ k. change (g k)) {x = a + 0} {y = a} (omega arith))
      (slice-map f g change (a + 1) n (λ i p.
        ap f {x = a + 1 + i} {y = a + suc i} (omega arith)
        ∙ h (suc i) (omega arith)
        ∙ ap (λ k. change (g k)) {x = a + suc i} {y = a + 1 + i} (omega arith)))

-- The word behind the point with its case changed, the point behind it.
module _ (change : ℕ → ℕ) (solid : (c : ℕ) → c ≢ 0 → change c ≢ 0) (il : InputLine)
    (v : IsValid il) where
  changed : InputLine
  changed =
      let moved = il_forward_word il in
      record moved { buffer = change_cells change (moved.point - il.point) il.point moved.buffer }

  abbrev cells' : ℕ → ℕ
  cells' = change_cells change ((il_forward_word il).point - il.point) il.point il.buffer

  cell' :
      (i : ℕ)
      → cells' i ≡ (
          if leb il.point i && ltb i (il_forward_word il).point
          then change (il.buffer i)
          else il.buffer i)
  cell' i =
      change_cells_at change ((il_forward_word il).point - il.point) il.point il.buffer i
      ∙ ap (λ k. if leb il.point i && ltb i k then change (il.buffer i) else il.buffer i)
          (omega (arith, point-ahead il v))

  changed-buffer : changed.buffer ≡ cells'
  unfolding changed
  changed-buffer =
      ap (change_cells change ((il_forward_word il).point - il.point) il.point)
        (il_forward_word-Kept il v).buffer_kept

  changed-IsValid : IsValid changed
  unfolding changed
  changed-IsValid =
      let ok = (il_forward_word_lem il v).valid in
      let kept = il_forward_word-Kept il v in
      record {
        lengths = ok.lengths;
        low = ok.low;
        high = ok.high;
        room = ok.room;
        small = ok.small;
        ended =
            rw (changed-buffer, kept.length_kept)
              (ground (arith, cell' il.length, point-ahead il v));
        solid = λ i h.
            rw changed-buffer
              (ground (arith, cell' i, v.solid i, solid (il.buffer i), kept.length_kept));
      }

  view-changed : view changed ≡ line_change change (view il)
  unfolding changed line_change
  view-changed =
      let kept = il_forward_word-Kept il v in
      rw (changed-buffer, kept.length_kept, kept.static_kept, kept.ring_kept)
        (Line-ext _ _
          (slice_move cells' il.buffer _ _ _ _ refl (λ i h. ground (arith, cell' (0 + i))))
          (rslice-add cells' il.static_length (il.point - il.static_length)
              ((il_forward_word il).point - il.point) _ (omega (arith, point-ahead il v))
            ∙ ap₂ ◌++◌ word' before)
          (slice_move cells' il.buffer _ _ _ _ refl
              (λ i h. ground (arith, cell' ((il_forward_word il).point + i)))
            ∙ right-ahead il v)
          refl)
    where
      word' :
          rslice cells'
            (il.static_length + (il.point - il.static_length))
            ((il_forward_word il).point - il.point)
          ≡ reverse (map change (word (view il).right).0)
      word' =
          ap (λ a. rslice cells' a ((il_forward_word il).point - il.point)) (omega arith)
          ∙ sym (reverse-slice cells' il.point _)
          ∙ ap reverse (
              slice-map cells' il.buffer change il.point _
                (λ i h. ground (arith, cell' (il.point + i)))
              ∙ ap (map change) (word_ahead il v))

      before : rslice cells' il.static_length (il.point - il.static_length) ≡ (view il).left
      before =
          rslice_move cells' il.buffer _ _ _ _ refl
            (λ i h. ground (arith, cell' (il.static_length + i)))

  overrun-changed : changed.overrun ≡ il.overrun
  unfolding changed
  overrun-changed = (il_forward_word_lem il v).sound

line_change_nil : (change : ℕ → ℕ) (l : Line) → l.right ≡ [] → line_change change l ≡ l
unfolding line_change word span
line_change_nil change l e = rw e

module _ (loc : Locale) (laws : LocaleLaws loc) (il : InputLine) (v : IsValid il) where
  -- On a valid line, with a locale whose lower case of no character is NUL: `il_downcase_word` puts
  -- the next word in lower case and the point behind it; the line stays valid.
  pub il_downcase_word_lem :
      Refines il (il_downcase_word loc il) (line_change loc.towlower (view il))
  unfolding il_downcase_word changed
  il_downcase_word_lem = elim (Bool-cases (ltb il.point il.length)) [
    | inl inside ↦ rw inside (record {
      valid = rebuild (changed-IsValid loc.towlower laws.lower_solid il v);
      shows = view-changed loc.towlower laws.lower_solid il v;
      sound = overrun-changed loc.towlower laws.lower_solid il v;
    })
    | inr outside ↦ rw outside (record {
      valid = v;
      shows = sym (line_change_nil loc.towlower _ (right_nil il v (ground arith)));
      sound = refl;
    })
  ]

  -- The next word in upper case, the point moving over it; nothing at the end of the line.
  pub il_upcase_word_lem : Refines il (il_upcase_word loc il) (line_change loc.towupper (view il))
  unfolding il_upcase_word changed
  il_upcase_word_lem = elim (Bool-cases (ltb il.point il.length)) [
    | inl inside ↦ rw inside (record {
      valid = rebuild (changed-IsValid loc.towupper laws.upper_solid il v);
      shows = view-changed loc.towupper laws.upper_solid il v;
      sound = overrun-changed loc.towupper laws.upper_solid il v;
    })
    | inr outside ↦ rw outside (record {
      valid = v;
      shows = sym (line_change_nil loc.towupper _ (right_nil il v (ground arith)));
      sound = refl;
    })
  ]
