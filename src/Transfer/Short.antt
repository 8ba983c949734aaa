-- ===== src/Transfer/Short.antt =====
-- A read of src/panel.c that gives less than it was asked.
use gnu_gnuit.Prelude.{
  ℕ, suc, ◌+◌, ◌-◌, ◌/◌, ◌≤◌, ◌<◌, ◌≡◌, refl, ap, ◌∙◌, Bool, true, false, some, List, [], ◌==◌, ltb,
  leb, length, length-take, take, min, arith,
}
use gnu_gnuit.Transfer.{
  sd_ok, Turn, holds, goes_on, copy_bytes, copy_turn, copy_loop, Entry, Files, copy_contents,
  panel_copy,
}
use gnu_gnuit.Transfer.Complete.{Copyable, get_flen-plain, panel_copy-agreed}

module _ (entry : Entry) (turn : Turn) (k : ℕ) (source : List ℕ) where
  copy_turn-short :
      (m : ℕ)
      → k ≤ m
      → 0 < k
      → k ≤ length source
      → turn.canceled_first ≡ false
      → turn.given ≡ some k
      → turn.canceled_then ≡ false
      → k ≤ turn.taken
      → copy_turn entry turn m source [] ≡ goes_on (take k source)
  unfolding copy_turn copy_bytes
  copy_turn-short m asked some_read inside first given second taken =
      let less : min k m ≡ k = omega (arith, asked) in
      let not_end : (length (take k source) == 0) ≡ false =
        ground (arith, length-take k source, some_read, inside) in
      let whole : leb (length (take k source)) turn.taken ≡ true =
        ground (arith, length-take k source, taken) in
      simp (first, given, less, not_end, second, whole) refl

-- The count of a loop over one buffer is at the end after one turn.
copy_loop-one :
    (entry : Entry) (turns : ℕ → Turn) (flen memsize fuel : ℕ) (source bytes : List ℕ)
    → 0 < flen
    → flen ≤ 32768
    → copy_turn entry (turns 0) (min (flen - 0) memsize) source [] ≡ goes_on bytes
    → copy_loop entry turns flen memsize (suc (suc fuel)) 0 0 source [] ≡ some (sd_ok, holds bytes)
unfolding copy_loop
copy_loop-one entry turns flen memsize fuel source bytes some_left one_buffer turn =
    let more : ltb 0 flen ≡ true = ground (arith, some_left) in
    let end : ltb (0 + 32768) flen ≡ false = ground (arith, one_buffer) in
    rw (copy_loop, more, turn) (rw (copy_loop, end) refl)

-- Where an ordinary file of one buffer at most can be copied to a regular file, not the source's,
-- the user is not asked or agrees, nobody cancels in the first turn, its read gives some of the
-- bytes and not all of them, and its write takes what it is given: panel_copy gives SD_OK, and the
-- destination holds those bytes only.
pub panel_copy-short :
    (selected_entries chkdest : Bool) (key : ℕ) (files : Files) (turns : ℕ → Turn) (k : ℕ)
    → Copyable chkdest key files
    → length files.bytes ≤ 32768
    → 0 < k
    → k < length files.bytes
    → (turns 0).canceled_first ≡ false
    → (turns 0).given ≡ some k
    → (turns 0).canceled_then ≡ false
    → 32768 ≤ (turns 0).taken
    → (panel_copy selected_entries chkdest key files turns).0
      ≡ some (sd_ok, holds (take k files.bytes))
unfolding copy_contents
panel_copy-short selected_entries chkdest key files turns k c one_buffer some_read fewer first given
      second taken =
    let known = get_flen-plain files flen c.plain c.apart c.measured in
    panel_copy-agreed selected_entries chkdest key files turns c
    ∙ simp (c.opens, c.creates, known, not_empty)
        (ap (λ fuel. copy_loop files.entry turns flen (min flen 32768) fuel 0 0 files.bytes [])
            {x = flen / 32768 + 2} {y = suc (suc (flen / 32768))} (omega arith)
          ∙ copy_loop-one files.entry turns flen (min flen 32768) (flen / 32768) files.bytes
              (take k files.bytes) (omega (arith, fewer)) (omega (arith, one_buffer))
              (copy_turn-short files.entry (turns 0) k files.bytes _
                (omega (arith, fewer, one_buffer)) some_read (omega (arith, fewer)) first given
                second (omega (arith, taken, fewer, one_buffer))))
  where
    flen : ℕ
    flen = length files.bytes

    not_empty : (length files.bytes == 0) ≡ false
    not_empty = ground (arith, fewer)
