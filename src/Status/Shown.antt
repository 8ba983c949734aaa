-- ===== src/Status/Shown.antt =====
-- What the status line of src/status.c shows of a message.
use gnu_gnuit.Prelude.{
  ℕ, ◌≡◌, ◌≢◌, refl, sym, ap, ◌∙◌, false, List, [], ◌∷◌, ◌++◌, append_assoc, append-nil, ◌==◌,
  arith,
}
use gnu_gnuit.Status.{
  Name, converts, fails, System, Temp, put, grow_by, get_system_info, escape, plain, build_temp,
  expand_message,
}
use gnu_gnuit.Status.Room.{IsConverted, Converts}

-- A part of a message: a character other than a backslash and a tab, an escape, or a backslash before a
-- character that makes no escape with it.
pub data Piece : Type 0 where
  single : (c : ℕ) → c ≢ b'\\' → c ≢ 9 → Piece
  host system machine date backslash : Piece
  unknown : (c : ℕ) → c ≢ b'h' → c ≢ b's' → c ≢ b'm' → c ≢ b'd' → c ≢ b'\\' → Piece

-- How a piece is written, and what it stands for.
abbrev pub written : Piece → List ℕ → List ℕ
written (single c p q) rest = c ∷ rest
written host rest = b'\\' ∷ b'h' ∷ rest
written system rest = b'\\' ∷ b's' ∷ rest
written machine rest = b'\\' ∷ b'm' ∷ rest
written date rest = b'\\' ∷ b'd' ∷ rest
written backslash rest = b'\\' ∷ b'\\' ∷ rest
written (unknown c h s m d b) rest = b'\\' ∷ c ∷ rest

abbrev or_none : List ℕ → List ℕ
or_none [] = b'(' ∷ b'n' ∷ b'o' ∷ b'n' ∷ b'e' ∷ b')' ∷ []
or_none (c ∷ text) = c ∷ text

abbrev pub shown_name : Name → List ℕ
shown_name (converts text) = or_none text
shown_name (fails written) = []

abbrev pub meaning : System → Piece → List ℕ
meaning sys (single c p q) = c ∷ []
meaning sys host = shown_name sys.nodename
meaning sys system = shown_name sys.sysname
meaning sys machine = shown_name sys.machine
meaning sys date = sys.date
meaning sys backslash = b'\\' ∷ []
meaning sys (unknown c h s m d b) = b'\\' ∷ c ∷ []

abbrev pub message_of : List Piece → List ℕ
message_of [] = []
message_of (p ∷ pieces) = written p (message_of pieces)

abbrev pub meaning_of : System → List Piece → List ℕ
meaning_of sys [] = []
meaning_of sys (p ∷ pieces) = meaning sys p ++ meaning_of sys pieces

get_system_info-text :
    (ptr : Name) (t : Temp)
    → IsConverted ptr
    → (get_system_info ptr t).text ≡ t.text ++ shown_name ptr
unfolding get_system_info grow_by
get_system_info-text (converts []) t p = refl
get_system_info-text (converts (c ∷ ptr)) t p = refl
get_system_info-text (fails written) t p = absurd p

build_temp-slash :
    (sys : System) (c : ℕ) (message : List ℕ) (t : Temp)
    → build_temp sys (b'\\' ∷ c ∷ message) t ≡ build_temp sys message (escape sys c t)
unfolding build_temp
build_temp-slash sys c message t = refl

pub build_temp-single :
    (sys : System) (c : ℕ) (message : List ℕ) (t : Temp)
    → c ≢ b'\\'
    → c ≢ 9
    → build_temp sys (c ∷ message) t ≡ build_temp sys message (put c t)
unfolding build_temp plain
build_temp-single sys c [] t p q =
    let other : (c == b'\\') ≡ false = ground (arith, p) in
    let solid : (c == 9) ≡ false = ground (arith, q) in simp (other, solid) refl
build_temp-single sys c (d ∷ message) t p q =
    let other : (c == b'\\') ≡ false = ground (arith, p) in
    let solid : (c == 9) ≡ false = ground (arith, q) in rw (build_temp, other, solid) refl

-- One piece is read, and its meaning written.
Reads : System → Piece → Type 0
Reads sys p =
    (message : List ℕ) (t : Temp)
    → (t' : Temp) × (build_temp sys (written p message) t ≡ build_temp sys message t')
      × (t'.text ≡ t.text ++ meaning sys p)

build_temp-reads : (sys : System) (p : Piece) → Converts sys → Reads sys p
unfolding Reads escape put grow_by
build_temp-reads sys (single c p q) names message t =
    (put c t, build_temp-single sys c message t p q, refl)
build_temp-reads sys host names message t = (
  escape sys b'h' t,
  build_temp-slash sys b'h' message t,
  get_system_info-text sys.nodename t names.node,
)
build_temp-reads sys system names message t = (
  escape sys b's' t,
  build_temp-slash sys b's' message t,
  get_system_info-text sys.sysname t names.system,
)
build_temp-reads sys machine names message t = (
  escape sys b'm' t,
  build_temp-slash sys b'm' message t,
  get_system_info-text sys.machine t names.hardware,
)
build_temp-reads sys date names message t =
    (escape sys b'd' t, build_temp-slash sys b'd' message t, refl)
build_temp-reads sys backslash names message t =
    (escape sys b'\\' t, build_temp-slash sys b'\\' message t, refl)
build_temp-reads sys (unknown c h s m d b) names message t =
    (escape sys c t, build_temp-slash sys c message t, other)
  where
    other : (escape sys c t).text ≡ t.text ++ b'\\' ∷ c ∷ []
    other =
        let no_h : (c == b'h') ≡ false = ground (arith, h) in
        let no_s : (c == b's') ≡ false = ground (arith, s) in
        let no_m : (c == b'm') ≡ false = ground (arith, m) in
        let no_d : (c == b'd') ≡ false = ground (arith, d) in
        let no_b : (c == b'\\') ≡ false = ground (arith, b) in
        simp (no_h, no_s, no_m, no_d, no_b) (append_assoc t.text (b'\\' ∷ []) (c ∷ []))

build_temp-pieces :
    (sys : System) (pieces : List Piece) (t : Temp)
    → Converts sys
    → (build_temp sys (message_of pieces) t).text ≡ t.text ++ meaning_of sys pieces
unfolding build_temp Reads
build_temp-pieces sys [] t names = sym (append-nil t.text)
build_temp-pieces sys (p ∷ pieces) t names =
    let (t', e, text) = build_temp-reads sys p names (message_of pieces) t in
    ap Temp.text e
    ∙ build_temp-pieces sys pieces t' names
    ∙ ap (λ x. x ++ meaning_of sys pieces) text
    ∙ append_assoc t.text (meaning sys p) (meaning_of sys pieces)

-- Where the system's names convert, a message made of characters other than backslashes and tabs, of the escapes, and of backslashes before
-- other characters expands to the system's name for each escape, (none) where the system gives an empty
-- one, to the date, and to every other character as it is.
pub expand_message-pieces :
    (sys : System) (pieces : List Piece)
    → Converts sys
    → (expand_message sys (message_of pieces)).text ≡ meaning_of sys pieces
unfolding expand_message
expand_message-pieces sys pieces names = build_temp-pieces sys pieces _ names
