-- ===== src/Misc/PathSteps.antt =====
-- The steps of `minimize_path` in src/misc.c, on the directories that are written so far.
use gnu_gnuit.Prelude.{
  ℕ, zero, suc, ◌≤◌, ◌<◌, ◌≡◌, refl, sym, ap, ◌∙◌, true, false, List, [], ◌∷◌, ◌++◌, reverse,
  length, length-append, append_assoc, ◌==◌, ◌&&◌, ◌||◌, arith, Bool-cases, inl, inr,
}
use mathlib.Core.List.{reverse-cons}
use gnu_gnuit.Misc.Path.{
  tail_of, slash_or_end, skip_here, is_parent, back_to_slash, drop_component, copy_component,
  minimize_loop, strip_slash,
}
use gnu_gnuit.Misc.Components.{
  has_slash-append, on_head, components, parent, enter, resolve, written_of, has_slash, NoSlash,
  back_to_slash_lem,
}

-- What is left after "/" and "./" are skipped begins with a name.
abbrev pub Proper : List ℕ → Type 0
Proper [] = Unit
Proper (c ∷ text) = (c == b'/' || (c == b'.' && slash_or_end text)) ≡ false

pub skip_here-Proper : (text : List ℕ) → Proper (skip_here text)
unfolding skip_here
skip_here-Proper [] = tt
skip_here-Proper (c ∷ text) = elim (Bool-cases (c == b'/' || (c == b'.' && slash_or_end text))) [
  | inl skip ↦ rw skip (skip_here-Proper text)
  | inr stop ↦ rw (stop, Proper) stop
]

pub length-skip_here : (text : List ℕ) → length (skip_here text) ≤ length text
unfolding skip_here
length-skip_here [] = omega arith
length-skip_here (c ∷ text) = ground (arith, length-skip_here text)

-- A name that is not skipped and is not ".." is entered.
pub enter_lem :
    (names : List (List ℕ)) (c : ℕ) (first rest : List ℕ)
    → slash_or_end rest ≡ true
    → Proper (c ∷ first ++ rest)
    → is_parent (c ∷ first ++ rest) ≡ false
    → enter names (c ∷ first) ≡ (c ∷ first) ∷ names
unfolding is_parent
enter_lem names c [] rest e p q = ground arith
enter_lem names c (d ∷ []) rest e p q = ground arith
enter_lem names c (d ∷ f ∷ first) rest e p q = refl

-- The names behind a component.
abbrev pub behind_name : List ℕ → List (List ℕ)
behind_name [] = []
behind_name (c ∷ text) = components text

abbrev pub closed : List ℕ → List ℕ → List ℕ
closed [] written = written
closed (c ∷ text) written = b'/' ∷ written

-- What `copy_component` does: `first` is what it copies.
pub record Copied (text written : List ℕ) : Type 0 where
  pub first : List ℕ
  pub rest : List ℕ
  pub whole : text ≡ first ++ rest
  pub ended : slash_or_end rest ≡ true
  pub named : has_slash first ≡ false
  pub copied : copy_component text written ≡ (rest, closed rest (reverse first ++ written))
  pub split : components text ≡ first ∷ behind_name rest

reverse_onto :
    (c : ℕ) (text written : List ℕ) → reverse (c ∷ text) ++ written ≡ reverse text ++ c ∷ written
reverse_onto c text written = rw reverse-cons (append_assoc (reverse text) (c ∷ []) written)

pub copy_component_lem : (text written : List ℕ) → Copied text written
unfolding copy_component
copy_component_lem [] written = record {
  first = [];
  rest = [];
  whole = refl;
  ended = refl;
  named = refl;
  copied = refl;
  split = refl;
}
copy_component_lem (c ∷ text) written = elim (Bool-cases (c == b'/')) [
  | inl slash ↦ record {
    first = [];
    rest = c ∷ text;
    whole = refl;
    ended = slash;
    named = refl;
    copied = rw slash (ap (λ d. (c ∷ text, d ∷ written)) (ground arith));
    split = rw (slash, components) refl;
  }
  | inr other ↦
      let r = copy_component_lem text (c ∷ written) in
      record {
        first = c ∷ r.first;
        rest = r.rest;
        whole = ap (c ∷◌) r.whole;
        ended = r.ended;
        named = ground (arith, r.named);
        copied =
            rw other (
              r.copied
              ∙ ap (λ w. (r.rest, closed r.rest w)) (sym (reverse_onto c r.first written)));
        split = rw (other, components) (ap (on_head c) r.split);
      }
]

pub parent_lem :
    (names : List (List ℕ)) (text : List ℕ)
    → is_parent text ≡ true
    → resolve (parent names) (components (tail_of (tail_of text))) ≡ resolve names (components text)
unfolding is_parent
parent_lem names [] h = absurd (ground arith)
parent_lem names (c ∷ []) h = absurd (ground arith)
parent_lem names (c ∷ d ∷ []) h = ground arith
parent_lem names (c ∷ d ∷ e ∷ text) h = ground arith

pub has_slash-reverse : (a : List ℕ) → has_slash a ≡ false → has_slash (reverse a) ≡ false
has_slash-reverse [] h = refl
has_slash-reverse (c ∷ a) h =
    let other : (c == b'/') ≡ false = ground (arith, h) in
    ap has_slash (reverse-cons c a)
    ∙ has_slash-append (reverse a) (c ∷ [])
    ∙ ap (◌|| (c == b'/' || false)) (has_slash-reverse a (ground (arith, h)))
    ∙ ap (◌|| false) other

-- The root's slash is never taken.
pub record Cell (written : List ℕ) : Type 0 where
  pub head : ℕ
  pub tail : List ℕ
  pub is : written ≡ head ∷ tail

pub written_of-Cell : (name : List ℕ) (names : List (List ℕ)) → Cell (name ++ written_of names)
written_of-Cell [] [] = record { head = b'/'; tail = []; is = refl }
written_of-Cell [] (n ∷ names) = record {
  head = b'/';
  tail = reverse n ++ written_of names;
  is = refl;
}
written_of-Cell (c ∷ name) names = record { head = c; tail = name ++ written_of names; is = refl }

drop_component-Cell :
    (written : List ℕ) (c : ℕ) → Cell written → drop_component (c ∷ written) ≡ back_to_slash written
unfolding drop_component
drop_component-Cell [] c r = absurd (ground (arith, r.is))
drop_component-Cell (d ∷ written) c r = refl

pub strip_slash-Cell : (written : List ℕ) → Cell written → strip_slash (b'/' ∷ written) ≡ written
unfolding strip_slash
strip_slash-Cell [] r = absurd (ground (arith, r.is))
strip_slash-Cell (d ∷ written) r = refl

pub drop_component_lem :
    (names : List (List ℕ))
    → NoSlash names
    → drop_component (written_of names) ≡ written_of (parent names)
unfolding drop_component
drop_component_lem [] s = refl
drop_component_lem (name ∷ names) (h, s) =
    drop_component-Cell (reverse name ++ written_of names) b'/'
      (written_of-Cell (reverse name) names)
    ∙ back_to_slash_lem (reverse name) names (has_slash-reverse name h)

pub strip_slash_name :
    (name written : List ℕ)
    → has_slash name ≡ false
    → 0 < length name
    → strip_slash (name ++ written) ≡ name ++ written
unfolding strip_slash
strip_slash_name [] written h l = absurd (omega (arith, l))
strip_slash_name (c ∷ []) [] h l = refl
strip_slash_name (c ∷ []) (d ∷ written) h l = ground (arith, h)
strip_slash_name (c ∷ d ∷ name) written h l = ground (arith, h)

pub length-reverse_lem : (a : List ℕ) → length (reverse a) ≡ length a
length-reverse_lem [] = refl
length-reverse_lem (c ∷ a) =
    ap length (reverse-cons c a)
    ∙ length-append (reverse a) (c ∷ [])
    ∙ ground (arith, length-reverse_lem a)

pub loop_end : (fuel : ℕ) (written : List ℕ) → minimize_loop fuel [] written ≡ written
unfolding minimize_loop
loop_end zero written = refl
loop_end (suc fuel) written = refl

pub length-parent :
    (text : List ℕ) → is_parent text ≡ true → length (tail_of (tail_of text)) < length text
unfolding is_parent
length-parent [] h = absurd (ground (arith, h))
length-parent (c ∷ []) h = omega arith
length-parent (c ∷ d ∷ text) h = omega arith

pub parent-NoSlash : (names : List (List ℕ)) → NoSlash names → NoSlash (parent names)
parent-NoSlash [] s = s
parent-NoSlash (name ∷ names) (h, s) = s
