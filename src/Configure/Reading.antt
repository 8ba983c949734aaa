-- ===== src/Configure/Reading.antt =====
-- `configuration_getline` gives the lines of the file one by one.
use gnu_gnuit.Prelude.{
  ℕ, zero, suc, ◌+◌, ◌-◌, ◌≤◌, ◌<◌, ◌≡◌, refl, sym, ap, subst, ◌∙◌, Bool, true, false, Option, none,
  some, List, [], ◌∷◌, ◌++◌, length, length-append, ◌==◌, arith,
}
use gnu_gnuit.Configure.{
  Ctype, Configuration, max_line, skip_line, line_of, keep_line, read_line, take_line, getline_loop,
  configuration_getline,
}
use gnu_gnuit.Configure.Lines.{
  split_lines, split_lines-first, clean, cons_some, file_lines, AllShort, first_line, newline_of,
  fgets-first, line_of-first,
}

-- What reading a line gave, with the lines `ls` in the `n` characters that were left: no line is left,
-- or the first of them is in the buffer and the others are to come.
abbrev pub Reads : Ctype → ℕ → List (List ℕ) → Configuration × Bool → Type 0
Reads ct n ls (conf, false) = ls ≡ []
Reads ct n ls (conf, true) =
    (ls ≡ conf.line ∷ file_lines ct conf.unread)
    × AllShort (split_lines conf.unread)
    × (length conf.unread < n)

skip_line-shorter : (c : ℕ) (text : List ℕ) → length (skip_line (c ∷ text)) < length (c ∷ text)
unfolding skip_line
skip_line-shorter c [] = ground arith
skip_line-shorter c (d ∷ text) = ground (arith, skip_line-shorter d text)

newline_of-short : (text : List ℕ) → length (newline_of text) ≤ 1
newline_of-short text = ground arith

ne_test : (a b : ℕ) → a < b → (a == b) ≡ false
ne_test a b h = ground arith

keep_short :
    (conf : Configuration) (text rest : List ℕ)
    → (length text == max_line - 1) ≡ false
    → keep_line conf (text, rest) ≡ (record conf { unread = rest }, text)
unfolding keep_line
keep_short conf text rest h = rw h refl

-- A round of the loop on a text whose first line is short.
read_line-first :
    (conf : Configuration)
    → length (first_line conf.unread) + 2 < max_line
    → read_line conf ≡ (
      record conf { unread = skip_line conf.unread },
      first_line conf.unread ++ newline_of conf.unread,
    )
unfolding read_line
read_line-first conf short =
    let read = fgets-first (max_line - 1) conf.unread (omega arith) in
    let few = length-append (first_line conf.unread) (newline_of conf.unread) in
    let one = newline_of-short conf.unread in
    ap (keep_line conf) read
    ∙ keep_short conf (first_line conf.unread ++ newline_of conf.unread) (skip_line conf.unread)
        (ne_test _ _ (omega arith))

module _ (ct : Ctype) where
  Reads-weaken :
      (m n : ℕ) (ls : List (List ℕ)) (result : Configuration × Bool)
      → m ≤ n
      → Reads ct m ls result
      → Reads ct n ls result
  Reads-weaken m n ls (conf, false) h r = r
  Reads-weaken m n ls (conf, true) h r = (r.0, r.1, omega (arith, r.2))

  -- The loop after it has read a line whose text is cleaned to `cleaned`.
  line_read :
      (fuel : ℕ) (conf : Configuration) (c : ℕ) (text : List ℕ)
      → AllShort (split_lines (skip_line (c ∷ text)))
      → Reads ct
          (length (skip_line (c ∷ text)))
          (file_lines ct (skip_line (c ∷ text)))
          (getline_loop ct fuel (record conf { unread = skip_line (c ∷ text) }))
      → (cleaned : Option (List ℕ))
      → Reads ct (length (c ∷ text)) (cons_some cleaned (file_lines ct (skip_line (c ∷ text)))) (
          take_line
            (getline_loop ct fuel (record conf { unread = skip_line (c ∷ text) }))
            (record conf { unread = skip_line (c ∷ text) })
            cleaned)
  unfolding take_line
  line_read fuel conf c text short again none =
      Reads-weaken (length (skip_line (c ∷ text))) (length (c ∷ text)) _
        (getline_loop ct fuel (record conf { unread = skip_line (c ∷ text) }))
        (omega (arith, skip_line-shorter c text)) again
  line_read fuel conf c text short again (some line) = (refl, short, skip_line-shorter c text)

  getline_loop_lem :
      (fuel : ℕ) (contents unread : List ℕ) (sectionptr : Option (List ℕ)) (line : List ℕ)
      (wait_msg : ℕ)
      → length unread < fuel
      → AllShort (split_lines unread)
      → Reads ct (length unread) (file_lines ct unread) (
          getline_loop ct fuel (record {
            contents = contents;
            unread = unread;
            sectionptr = sectionptr;
            line = line;
            wait_msg = wait_msg;
          }))
  unfolding getline_loop
  getline_loop_lem zero contents unread sectionptr line wait_msg h short = absurd (omega arith)
  getline_loop_lem (suc fuel) contents [] sectionptr line wait_msg h short = refl
  getline_loop_lem (suc fuel) contents (c ∷ text) sectionptr line wait_msg h short =
      let conf : Configuration = record {
        contents = contents;
        unread = c ∷ text;
        sectionptr = sectionptr;
        line = line;
        wait_msg = wait_msg;
      } in
      let shorts = subst AllShort (split_lines-first c text) short in
      let fewer = skip_line-shorter c text in
      let again =
        getline_loop_lem fuel contents (skip_line (c ∷ text)) sectionptr line wait_msg
          (omega (arith, fewer)) shorts.1 in
      let done = line_read fuel conf c text shorts.1 again (clean ct (first_line (c ∷ text))) in
      subst
        (λ (r : Configuration × List ℕ).
          Reads ct (length (c ∷ text)) (file_lines ct (c ∷ text))
            (take_line (getline_loop ct fuel r.0) r.0 (line_of ct r.1)))
        (sym (read_line-first conf shorts.0))
        (rw (split_lines-first c text, line_of-first ct (c ∷ text)) done)

  -- `configuration_getline` on a file whose lines are short gives the first of the lines that are left,
  -- without its comment and its newline, and leaves the others; lines of comments alone are passed over.
  pub configuration_getline_lem :
      (conf : Configuration)
      → AllShort (split_lines conf.unread)
      → Reads ct (length conf.unread) (file_lines ct conf.unread) (configuration_getline ct conf)
  unfolding configuration_getline
  configuration_getline_lem conf short =
      getline_loop_lem (suc (length conf.unread)) conf.contents conf.unread conf.sectionptr
        conf.line conf.wait_msg (omega arith) short
