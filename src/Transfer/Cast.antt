-- ===== src/Transfer/Cast.antt =====
-- The offset that panel_compare of src/panel.c gives, and the int that it is cast to.
use gnu_gnuit.Prelude.{
  ℕ, zero, suc, ◌+◌, ◌-◌, ◌*◌, ◌%◌, ◌^◌, ◌≤◌, ◌<◌, ◌≡◌, refl, sym, subst, ◌==◌, Bool-cases, inl,
  inr, false, not, ◌&&◌, Option, none, some, List, length, length-take, length-drop, take, drop,
  min, arith,
}
use gnu_gnuit.Transfer.Compare.{
  Turn, Result, cf_abort, cf_read1, cf_read2, cf_open1, cf_open2, offset, File, Step, compare_bytes,
  compare_loop, compare_size, panel_compare, verdict, act_compare,
}
use gnu_gnuit.Transfer.CompareLaws.{
  Full, after, Compared, ends, parts, agrees, compare_loop-after, compare_bytes-Compared,
}

-- The offset, where there is one, is at most k.
abbrev pub AtMost : ℕ → Option Result → Type 0
AtMost k none = Unit
AtMost k (some (offset n this_size other_size)) = n ≤ k
AtMost k (some result) = Unit

AtMost-mono : (k l : ℕ) (r : Option Result) → k ≤ l → AtMost k r → AtMost l r
AtMost-mono k l none h b = tt
AtMost-mono k l (some (offset n this_size other_size)) h b = omega (arith, h, b)
AtMost-mono k l (some cf_abort) h b = tt
AtMost-mono k l (some cf_read1) h b = tt
AtMost-mono k l (some cf_read2) h b = tt
AtMost-mono k l (some cf_open1) h b = tt
AtMost-mono k l (some cf_open2) h b = tt

module _ (this other : File) (turns : ℕ → Turn) (size : ℕ) (full : (i : ℕ) → Full size (turns i))
    (room : 0 < size) where
  after-AtMost :
      (fuel turn n this_size other_size : ℕ) (a b : List ℕ) (s : Step)
      → Compared size a b s
      → ((m : ℕ) (t o : ℕ) (b : List ℕ)
          → AtMost (n + m + length (drop (length (take size a)) a)) (
              compare_loop this other turns size fuel
                (turn + 1)
                (n + m)
                t
                o
                (drop (length (take size a)) a)
                b))
      → AtMost
          (n + length a)
          (after this other turns size full fuel turn n this_size other_size a b s)
  after-AtMost fuel turn n this_size other_size a b _ (ends e) next = omega arith
  after-AtMost fuel turn n this_size other_size a b _ (parts less) next = omega (arith, less)
  after-AtMost fuel turn n this_size other_size a b _ (agrees more same) next =
      AtMost-mono _ (n + length a) _
        (omega (arith, length-drop (length (take size a)) a, length-take size a))
        (next (min size (min (length a) (length b))) (this_size + length (take size a))
          (other_size + length (take size b)) (drop (length (take size b)) b))

  compare_loop-AtMost :
      (fuel turn n this_size other_size : ℕ) (a b : List ℕ)
      → AtMost
          (n + length a)
          (compare_loop this other turns size fuel turn n this_size other_size a b)
  unfolding compare_loop
  compare_loop-AtMost zero turn n this_size other_size a b = tt
  compare_loop-AtMost (suc fuel) turn n this_size other_size a b =
      subst (AtMost (n + length a))
        (sym (compare_loop-after this other turns size full fuel turn n this_size other_size a b))
        (after-AtMost fuel turn n this_size other_size a b
          (compare_bytes (take size a) (take size b)) (compare_bytes-Compared size room a b)
          (λ m t o b'.
            compare_loop-AtMost fuel (turn + 1) (n + m) t o (drop (length (take size a)) a) b'))

-- panel_compare gives no offset behind the end of the first file.
pub panel_compare-AtMost :
    (this other : File) (turns : ℕ → Turn)
    → ((i : ℕ) → Full (32 * 1024) (turns i))
    → AtMost (length this.bytes) (panel_compare this other turns)
unfolding panel_compare
panel_compare-AtMost this other turns full =
    elim (Bool-cases
      (compare_size this other turns == 0 && not (this.is_special && other.is_special))) [
        | inl empty ↦ simp empty (omega arith)
        | inr more ↦ elim (Bool-cases this.opens) [
          | inr closed ↦ simp (more, closed) tt
          | inl opened ↦ elim (Bool-cases other.opens) [
            | inr closed ↦ simp (more, opened, closed) tt
            | inl both ↦
                simp (more, opened, both)
                  (AtMost-mono _ (length this.bytes) _ (omega arith) (
                    compare_loop-AtMost this other turns (32 * 1024) full (omega arith)
                      (suc (length this.bytes)) 0 0 0 0 this.bytes other.bytes))
          ]
        ]
      ]

-- An offset below the values of the errors is not taken for one.
pub act_compare-AtMost :
    (k : ℕ) (result : Result)
    → k < 2 ^ 32 - 5
    → AtMost k (some result)
    → act_compare result ≡ verdict result
unfolding act_compare
act_compare-AtMost k (offset n t o) small h =
    let low : n % 2 ^ 32 ≡ n = omega (arith, small, h) in
    let e1 : (n % 2 ^ 32 == 2 ^ 32 - 1) ≡ false = ground (arith, low, small, h) in
    let e2 : (n % 2 ^ 32 == 2 ^ 32 - 2) ≡ false = ground (arith, low, small, h) in
    let e3 : (n % 2 ^ 32 == 2 ^ 32 - 3) ≡ false = ground (arith, low, small, h) in
    let e4 : (n % 2 ^ 32 == 2 ^ 32 - 4) ≡ false = ground (arith, low, small, h) in
    let e5 : (n % 2 ^ 32 == 2 ^ 32 - 5) ≡ false = ground (arith, low, small, h) in
    simp (e1, e2, e3, e4, e5) refl
act_compare-AtMost k cf_abort small h = refl
act_compare-AtMost k cf_read1 small h = refl
act_compare-AtMost k cf_read2 small h = refl
act_compare-AtMost k cf_open1 small h = refl
act_compare-AtMost k cf_open2 small h = refl
