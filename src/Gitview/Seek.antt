-- ===== src/Gitview/Seek.antt =====
-- An offset typed in hexadecimal digits, in src/gitview.c.
use gnu_gnuit.Prelude.{
  ℕ, zero, suc, ◌+◌, ◌*◌, ◌-◌, ◌/◌, ◌%◌, ◌^◌, ◌≤◌, ◌<◌, ◌≡◌, refl, sym, ap, ap₂, ◌∙◌, true, false,
  List, [], ◌∷◌, ◌++◌, append_assoc, append-nil, ◌==◌, ◌&&◌, ◌||◌, leb, ltb, length, length-append,
  min, if◌then◌else◌, arith,
}
use native.Mathlib.Numerals.{unary_clauses}
use gnu_gnuit.Gitview.{View, action, char, is_hex, hex_digit, hex_from, type_digit, seek, press}

-- The digit of a number below 16, and the last digits of a number.
abbrev pub digit : ℕ → ℕ
digit n = if ltb n 10 then b'0' + n else b'A' + (n - 10)

abbrev pub to_hex : ℕ → ℕ → List ℕ
to_hex zero n = []
to_hex (suc k) n = to_hex k (n / 16) ++ digit (n % 16) ∷ []

-- The characters pressed one by one.
abbrev pub type_all : List ℕ → View → View
type_all [] v = v
type_all (c ∷ text) v = type_all text (press (char c) v)

abbrev AllHex : List ℕ → Type 0
AllHex [] = Unit
AllHex (c ∷ text) = (is_hex c ≡ true) × AllHex text

digit-is_hex : (n : ℕ) → n < 16 → is_hex (digit n) ≡ true
unfolding is_hex
digit-is_hex n h = ground (arith, h)

digit-hex_digit : (n : ℕ) → n < 16 → hex_digit (digit n) ≡ n
unfolding hex_digit
digit-hex_digit n h = ground (arith, h)

AllHex-append : (a : List ℕ) (c : ℕ) → AllHex a → is_hex c ≡ true → AllHex (a ++ c ∷ [])
AllHex-append [] c h e = (e, tt)
AllHex-append (d ∷ a) c (h, hs) e = (h, AllHex-append a c hs e)

to_hex-AllHex : (k n : ℕ) → AllHex (to_hex k n)
to_hex-AllHex zero n = tt
to_hex-AllHex (suc k) n =
    AllHex-append (to_hex k (n / 16)) (digit (n % 16)) (to_hex-AllHex k (n / 16))
      (digit-is_hex (n % 16) (omega arith))

length-to_hex : (k n : ℕ) → length (to_hex k n) ≡ k
length-to_hex zero n = refl
length-to_hex (suc k) n =
    length-append (to_hex k (n / 16)) (digit (n % 16) ∷ [])
    ∙ omega (arith, length-to_hex k (n / 16))

hex_from-append :
    (value : ℕ) (a : List ℕ) (c : ℕ)
    → hex_from value (a ++ c ∷ []) ≡ hex_from value a * 16 + hex_digit c
unfolding hex_from
hex_from-append value [] c = refl
hex_from-append value (d ∷ a) c = hex_from-append (value * 16 + hex_digit d) a c

hex_from-to_hex : (k n : ℕ) → n < 16 ^ k → hex_from 0 (to_hex k n) ≡ n
unfolding hex_from
hex_from-to_hex zero n h = omega (arith, h)
hex_from-to_hex (suc k) n h =
    hex_from-append 0 (to_hex k (n / 16)) (digit (n % 16))
    ∙ ap₂ (λ a b. a * 16 + b)
        (hex_from-to_hex k (n / 16) (let h' = simp unary_clauses at h in omega (arith, h')))
        (digit-hex_digit (n % 16) (omega arith))
    ∙ omega arith

-- Each digit comes in behind the others.
type_all-offset :
    (text : List ℕ) (v : View)
    → AllHex text
    → 9 ≤ v.tty_lines
    → length v.offset + length text ≤ 16
    → type_all text v ≡ record v { offset = v.offset ++ text }
unfolding press type_digit
type_all-offset [] v h tall room = ap (λ t. record v { offset = t }) (sym (append-nil v.offset))
type_all-offset (c ∷ text) v (h, hs) tall room =
    let fits : (ltb (length v.offset) 16 && leb 9 v.tty_lines) ≡ true =
      ground (arith, tall, room) in
    let v' : View = record v { offset = v.offset ++ c ∷ [] } in
    ap (type_all text) {x = press (char c) v} {y = v'} (simp (h, fits) refl)
    ∙ type_all-offset text v' hs tall (omega (arith, room, length-append v.offset (c ∷ [])))
    ∙ ap (λ t. record v { offset = t }) (append_assoc v.offset (c ∷ []) text)

-- Where no offset is begun and the screen has at least 9 lines: the digits of a number, typed in
-- hexadecimal, 16 at most and leading zeros allowed, and then BUILTIN_action show the line of 16 bytes
-- that holds the byte at that offset, the end of the file for a number beyond it; and no offset is left.
pub seek-to_hex :
    (k n : ℕ) (v : View)
    → 0 < k
    → k ≤ 16
    → n < 16 ^ k
    → v.offset ≡ []
    → 9 ≤ v.tty_lines
    → press action (type_all (to_hex k n) v)
      ≡ record v { current_line = min n v.size / 16; offset = [] }
unfolding press seek
seek-to_hex k n v some few small none tall =
    let typed =
      type_all-offset (to_hex k n) v (to_hex-AllHex k n) tall
        (omega (arith, few, length-to_hex k n, ap length none))
      ∙ ap (λ t. record v { offset = t ++ to_hex k n }) none in
    let ready : (length (to_hex k n) == 0 || ltb v.tty_lines 9) ≡ false =
      ground (arith, length-to_hex k n, some, tall) in
    ap seek typed
    ∙ simp ready (
        ap (λ m. record v { current_line = min m v.size / 16; offset = [] })
          (hex_from-to_hex k n small))
