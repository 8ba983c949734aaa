-- ===== src/Transfer/Identical.antt =====
-- When src/panel.c says that two files are identical, a prefix of each other, or different, and where.
use gnu_gnuit.Prelude.{
  ◌-◌, ◌^◌, ℕ, suc, ◌+◌, ◌*◌, ◌<◌, ◌≡◌, ◌↔◌, refl, sym, ap, ap₂, ◌∙◌, subst, Bool-cases, inl, inr,
  Bool, true, false, Option, some, List, [], ◌∷◌, ◌==◌, ◌&&◌, length, min, max, arith,
}
use gnu_gnuit.Transfer.Compare.{
  Turn, Result, offset, same_bytes, File, final_size, compare_size, panel_compare, Verdict,
  says_identical, says_differ, verdict, act_compare,
}
use gnu_gnuit.Transfer.Cast.{AtMost, panel_compare-AtMost, act_compare-AtMost}
use gnu_gnuit.Transfer.CompareLaws.{Full}
use gnu_gnuit.Transfer.Verdict.{should_say, Judged, judged, compare_loop-Judged}

-- An ordinary file, of the size that its entry has, that can be opened.
pub record IsPlain (file : File) : Type 0 where
  pub plain : file.is_special ≡ false
  pub measured : file.size ≡ length file.bytes
  pub openable : file.opens ≡ true

final_size-IsPlain : (file : File) → IsPlain file → final_size file ≡ length file.bytes
unfolding final_size
final_size-IsPlain file p = simp p.plain p.measured

no_bytes : (bytes : List ℕ) → length bytes ≡ 0 → bytes ≡ []
no_bytes [] h = refl
no_bytes (x ∷ bytes) h = absurd (omega (arith, h))

should_say-empty :
    (a b : List ℕ)
    → a ≡ []
    → b ≡ []
    → verdict (offset 0 0 0) ≡ verdict (offset (0 + same_bytes a b) (0 + length a) (0 + length b))
unfolding verdict same_bytes
should_say-empty a b none_left none_right = rw (none_left, none_right) refl

module _ (this other : File) (turns : ℕ → Turn) (full : (i : ℕ) → Full (32 * 1024) (turns i))
    (p : IsPlain this) (q : IsPlain other) where
  panel_compare-Judged : Judged 0 this.bytes other.bytes (panel_compare this other turns)
  unfolding panel_compare compare_size
  panel_compare-Judged = elim (Bool-cases (max this.size other.size == 0)) [
    | inl empty ↦
        simp (p.plain, q.plain, empty)
          (judged (offset 0 0 0) (
            should_say-empty this.bytes other.bytes
              (no_bytes this.bytes (ground (arith, empty, p.measured)))
              (no_bytes other.bytes (ground (arith, empty, q.measured)))))
    | inr more ↦
        simp (p.plain, q.plain, more, p.openable, q.openable)
          (compare_loop-Judged this other turns (32 * 1024) full (omega arith)
            (suc (length this.bytes)) 0 0 this.bytes other.bytes (omega arith)
            (omega (arith, final_size-IsPlain this p)) (omega (arith, final_size-IsPlain other q)))
  ]

same_bytes_refl : (a : List ℕ) → same_bytes a a ≡ length a
unfolding same_bytes
same_bytes_refl [] = refl
same_bytes_refl (x ∷ a) = ground (arith, same_bytes_refl a)

same_bytes-equal : (a b : List ℕ) → same_bytes a b ≡ length a → length a ≡ length b → a ≡ b
unfolding same_bytes
same_bytes-equal [] [] h l = refl
same_bytes-equal [] (y ∷ b) h l = absurd (omega (arith, l))
same_bytes-equal (x ∷ a) [] h l = absurd (omega (arith, l))
same_bytes-equal (x ∷ a) (y ∷ b) h l = elim (Bool-cases (x == y)) [
  | inl same ↦
      let h' = simp same at h in
      ap₂ (◌∷◌) (ground (arith, same)) (same_bytes-equal a b (omega (arith, h')) (omega (arith, l)))
  | inr other ↦ let h' = simp other at h in absurd (omega (arith, h'))
]

is_identical : Verdict → Bool
is_identical says_identical = true
is_identical answer = false

says_identical-levels : (n t o : ℕ) → verdict (offset n t o) ≡ says_identical → (n ≡ t) × (t ≡ o)
unfolding verdict is_identical
says_identical-levels n t o h = elim (Bool-cases (n == t && t == o)) [
  | inl same ↦ (ground (arith, same), ground (arith, same))
  | inr differ ↦ elim (Bool-cases (n == min t o)) [
    | inl prefix ↦
        let clash : false ≡ true = ap is_identical (simp (differ, prefix) at h) in
        absurd (ground (arith, clash))
    | inr other ↦
        let clash : false ≡ true = ap is_identical (simp (differ, other) at h) in
        absurd (ground (arith, clash))
  ]
]

same_says : (a : List ℕ) → should_say a a ≡ says_identical
unfolding verdict
same_says a =
    let same : (same_bytes a a == length a && length a == length a) ≡ true =
      ground (arith, same_bytes_refl a) in
    simp same refl

differs_at : (n t o : ℕ) → n < min t o → verdict (offset n t o) ≡ says_differ n
unfolding verdict
differs_at n t o h =
    let differ : (n == t && t == o) ≡ false = ground (arith, h) in
    let prefix : (n == min t o) ≡ false = ground (arith, h) in simp (differ, prefix) refl

should_say-identical : (a b : List ℕ) → (should_say a b ≡ says_identical) ↔ (a ≡ b)
should_say-identical a b = (sound, complete)
  where
    sound : should_say a b ≡ says_identical → a ≡ b
    sound h =
        let (one, two) = says_identical-levels (same_bytes a b) (length a) (length b) h in
        same_bytes-equal a b one two

    complete : a ≡ b → should_say a b ≡ says_identical
    complete e = subst (λ b. should_say a b ≡ says_identical) e (same_says a)

verdict_zero :
    (a b : List ℕ)
    → verdict (offset (0 + same_bytes a b) (0 + length a) (0 + length b)) ≡ should_say a b
verdict_zero a b =
    let n : 0 + same_bytes a b ≡ same_bytes a b = omega arith in
    let t : 0 + length a ≡ length a = omega arith in
    let o : 0 + length b ≡ length b = omega arith in
    ap (λ n. verdict (offset n (0 + length a) (0 + length b))) n
    ∙ ap₂ (λ t o. verdict (offset (same_bytes a b) t o)) t o

-- What a comparison that came to an end says.
Says : List ℕ → List ℕ → Option Result → Type 0
Says a b r = (result : Result) × (r ≡ some result) × (verdict result ≡ should_say a b)

Judged-Says : (a b : List ℕ) (r : Option Result) → Judged 0 a b r → Says a b r
unfolding Says
Judged-Says a b _ (judged result e) = (result, refl, e ∙ verdict_zero a b)

panel_compare-says :
    (this other : File) (turns : ℕ → Turn)
    → ((i : ℕ) → Full (32 * 1024) (turns i))
    → IsPlain this
    → IsPlain other
    → length this.bytes < 2 ^ 32 - 5
    → (result : Result) × (panel_compare this other turns ≡ some result)
      × (act_compare result ≡ should_say this.bytes other.bytes)
unfolding Says
panel_compare-says this other turns full p q small =
    let (result, e, says) =
      Judged-Says this.bytes other.bytes _ (panel_compare-Judged this other turns full p q) in
    let bound = subst (AtMost (length this.bytes)) e (panel_compare-AtMost this other turns full) in
    (result, e, act_compare-AtMost (length this.bytes) result small bound ∙ says)

-- Where two ordinary files, of the sizes that their entries have, can be opened, the first is
-- shorter than 2^32 - 5 bytes, nobody cancels, and each read gives all that it is asked for:
-- panel_compare comes to an end, and panel_act_COMPARE says that they are identical exactly if their
-- bytes are the same.
pub panel_compare-identical :
    (this other : File) (turns : ℕ → Turn)
    → ((i : ℕ) → Full (32 * 1024) (turns i))
    → IsPlain this
    → IsPlain other
    → length this.bytes < 2 ^ 32 - 5
    → (result : Result) × (panel_compare this other turns ≡ some result)
      × ((act_compare result ≡ says_identical) ↔ (this.bytes ≡ other.bytes))
unfolding Says
panel_compare-identical this other turns full p q small =
    let (result, e, says) = panel_compare-says this other turns full p q small in
    let (sound, complete) = should_say-identical this.bytes other.bytes in
    (result, e, (λ h. sound (sym says ∙ h), λ h. says ∙ complete h))

-- For the same files: where their bytes differ before the end of both, panel_act_COMPARE gives the offset
-- of the first bytes that differ.
pub panel_compare-differ :
    (this other : File) (turns : ℕ → Turn)
    → ((i : ℕ) → Full (32 * 1024) (turns i))
    → IsPlain this
    → IsPlain other
    → length this.bytes < 2 ^ 32 - 5
    → same_bytes this.bytes other.bytes < min (length this.bytes) (length other.bytes)
    → (result : Result) × (panel_compare this other turns ≡ some result)
      × (act_compare result ≡ says_differ (same_bytes this.bytes other.bytes))
unfolding Says
panel_compare-differ this other turns full p q small less =
    let (result, e, says) = panel_compare-says this other turns full p q small in
    (
      result,
      e,
      says
          ∙ differs_at (same_bytes this.bytes other.bytes) (length this.bytes) (length other.bytes)
              less,
    )

-- A special file is never read where it is compared with an empty ordinary file: panel_act_COMPARE says
-- that they are identical, whatever the special file holds.
pub panel_compare-unread :
    (this other : File) (turns : ℕ → Turn)
    → this.is_special ≡ true
    → other.is_special ≡ false
    → other.size ≡ 0
    → (result : Result) × (panel_compare this other turns ≡ some result)
      × (act_compare result ≡ says_identical)
unfolding panel_compare compare_size verdict act_compare
panel_compare-unread this other turns special plain empty =
    (offset 0 0 0, simp (special, plain, empty) refl, refl)
