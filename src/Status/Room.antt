-- ===== src/Status/Room.antt =====
-- Whether src/status.c writes within `temp_msg`.
use gnu_gnuit.Prelude.{
  ℕ, ◌+◌, ◌≤◌, ◌<◌, ◌≡◌, ◌≢◌, ◌⊎◌, refl, sym, ap, ◌∙◌, Bool-cases, inl, inr, true, false, List, [],
  ◌∷◌, length, length-append, ◌==◌, if◌then◌else◌, arith,
}
use gnu_gnuit.Wide.{Locale}
use gnu_gnuit.Status.{
  Name, converts, fails, System, Temp, put, grow_by, get_system_info, escape, plain, build_temp,
  expand_message, printable,
}

-- With `n` characters of the message left, they and a NUL still fit.
record HasRoom (t : Temp) (n : ℕ) : Type 0 where
  inside : t.inside ≡ true
  counted : length t.text + n ≤ t.temp_msg_len
  room : (t.room ≡ t.temp_msg_len + 1) ⊎ ((t.room ≡ t.temp_msg_len) × (length t.text + n < t.room))

put-HasRoom : (c : ℕ) (t : Temp) (n : ℕ) → HasRoom t (n + 1) → HasRoom (put c t) n
unfolding put
put-HasRoom c t n h =
    let longer = length-append t.text (c ∷ []) in
    record {
      inside = ground (arith, h.inside, h.counted, h.room);
      counted = omega (arith, h.counted, longer);
      room = ground (arith, h.room, longer);
    }

fewer : (t : Temp) (m n : ℕ) → n ≤ m → HasRoom t m → HasRoom t n
fewer t m n le h = record {
  inside = h.inside;
  counted = omega (arith, h.counted, le);
  room = ground (arith, h.room, le);
}

grow_by-HasRoom :
    (string : List ℕ) (t : Temp) (n : ℕ)
    → HasRoom t (n + 2)
    → HasRoom (grow_by string (length string) t) n
unfolding grow_by
grow_by-HasRoom string t n h =
    let longer = length-append t.text string in
    record {
      inside = ground (arith, h.inside, h.counted, h.room);
      counted = omega (arith, h.counted, longer);
      room = ground (arith, h.counted, longer);
    }

abbrev pub IsConverted : Name → Type 0
IsConverted (converts text) = Unit
IsConverted (fails written) = ⊥

-- The three names convert.
pub record Converts (sys : System) : Type 0 where
  pub node : IsConverted sys.nodename
  pub system : IsConverted sys.sysname
  pub hardware : IsConverted sys.machine

get_system_info-HasRoom :
    (ptr : Name) (t : Temp) (n : ℕ)
    → IsConverted ptr
    → HasRoom t (n + 2)
    → HasRoom (get_system_info ptr t) n
unfolding get_system_info
get_system_info-HasRoom (converts []) t n p h = grow_by-HasRoom _ t n h
get_system_info-HasRoom (converts (c ∷ ptr)) t n p h = grow_by-HasRoom (c ∷ ptr) t n h
get_system_info-HasRoom (fails written) t n p h = absurd p

escape-HasRoom :
    (sys : System) (c : ℕ) (t : Temp) (n : ℕ)
    → Converts sys
    → HasRoom t (n + 2)
    → HasRoom (escape sys c t) n
unfolding escape
escape-HasRoom sys c t n names h = elim (Bool-cases (c == b'h')) [
  | inl is ↦ simp is (get_system_info-HasRoom sys.nodename t n names.node h)
  | inr no_h ↦ elim (Bool-cases (c == b's')) [
    | inl is ↦ simp (no_h, is) (get_system_info-HasRoom sys.sysname t n names.system h)
    | inr no_s ↦ elim (Bool-cases (c == b'm')) [
      | inl is ↦ simp (no_h, no_s, is) (get_system_info-HasRoom sys.machine t n names.hardware h)
      | inr no_m ↦ elim (Bool-cases (c == b'd')) [
        | inl is ↦ simp (no_h, no_s, no_m, is) (grow_by-HasRoom sys.date t n h)
        | inr no_d ↦ elim (Bool-cases (c == b'\\')) [
          | inl is ↦
              simp (no_h, no_s, no_m, no_d, is)
                (put-HasRoom b'\\' t n (fewer t (n + 2) (n + 1) (omega arith) h))
          | inr other ↦
              simp (no_h, no_s, no_m, no_d, other)
                (put-HasRoom c (put b'\\' t) n
                  (put-HasRoom b'\\' t (n + 1) (fewer t (n + 2) (n + 1 + 1) (omega arith) h)))
        ]
      ]
    ]
  ]
]

abbrev NoTab : List ℕ → Type 0
NoTab [] = Unit
NoTab (c ∷ message) = (c ≢ 9) × NoTab message

plain-HasRoom : (c : ℕ) (t : Temp) (n : ℕ) → c ≢ 9 → HasRoom t (n + 1) → HasRoom (plain c t) n
unfolding plain
plain-HasRoom c t n differs h =
    let other : (c == 9) ≡ false = ground (arith, differs) in simp other (put-HasRoom c t n h)

build_temp-HasRoom :
    (sys : System) (message : List ℕ) (t : Temp)
    → Converts sys
    → NoTab message
    → HasRoom t (length message)
    → HasRoom (build_temp sys message t) 0
unfolding build_temp
build_temp-HasRoom sys [] t names no_tab h = h
build_temp-HasRoom sys (c ∷ []) t names no_tab h = elim (Bool-cases (c == b'\\')) [
  | inl slash ↦ simp slash (put-HasRoom b'\\' t 0 h)
  | inr other ↦ simp other (plain-HasRoom c t 0 no_tab.0 h)
]
build_temp-HasRoom sys (c ∷ d ∷ message) t names no_tab h = elim (Bool-cases (c == b'\\')) [
  | inl slash ↦
      rw (slash, build_temp)
        (build_temp-HasRoom sys message (escape sys d t) names no_tab.1.1 (
          escape-HasRoom sys d t (length message) names
            (fewer t _ (length message + 2) (omega arith) h)))
  | inr other ↦
      rw (other, build_temp)
        (build_temp-HasRoom sys (d ∷ message) (plain c t) names no_tab.1 (
          plain-HasRoom c t (length (d ∷ message)) no_tab.0
            (fewer t _ (length (d ∷ message) + 1) (omega arith) h)))
]

printable-NoTab :
    (loc : Locale) (message : List ℕ) → loc.iswprint 9 ≡ false → NoTab (printable loc message)
unfolding printable
printable-NoTab loc [] h = tt
printable-NoTab loc (c ∷ message) h = (shown_differs, printable-NoTab loc message h)
  where
    shown_differs : (if loc.iswprint c then c else b'?') ≢ 9
    shown_differs same = elim (Bool-cases (loc.iswprint c)) [
      | inl prints ↦
          let tab : c ≡ 9 = ground (arith, same, prints) in
          let clash : true ≡ false = sym prints ∙ ap (loc.iswprint) tab ∙ h in
          absurd (ground (arith, clash))
      | inr hidden ↦ absurd (ground (arith, same, hidden))
    ]

-- Where a tab is not a printable character and the system's three names convert to wide characters,
-- all that is written to temp_msg for a message that toprintable went over, the NUL included, lies
-- in the cells allocated at that moment, whatever the message, the names and the date.
pub expand_message-inside :
    (loc : Locale) (sys : System) (message : List ℕ)
    → Converts sys
    → loc.iswprint 9 ≡ false
    → (expand_message sys (printable loc message)).inside ≡ true
unfolding expand_message
expand_message-inside loc sys message names no_tab =
    let text = printable loc message in
    let first : Temp = record {
      text = [];
      room = length text + 1;
      inside = true;
      temp_msg_len = length text;
    } in
    let h =
      build_temp-HasRoom sys text first names (printable-NoTab loc message no_tab)
        (record { inside = refl; counted = omega arith; room = inl refl }) in
    ground (arith, h.inside, h.counted, h.room)
