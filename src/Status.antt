-- ===== src/Status.antt =====
-- src/status.c: the message of the status line, with its escapes expanded, and the characters that the
-- line shows of it. The colors are left out. `System` holds what the C library and the system give; none
-- of its texts has a NUL. A wchar_t has 4 bytes.
pub mod Doubled
pub mod Room
pub mod Shown
pub mod Tests
use gnu_gnuit.Prelude.{
  ℕ, zero, suc, ◌+◌, ◌-◌, ◌*◌, ◌/◌, ◌%◌, ◌^◌, ◌<◌, ◌≤◌, Bool, true, false, List, [], ◌∷◌, ◌++◌, map,
  ◌==◌, ◌||◌, ◌&&◌, ltb, leb, length, get_or, take, drop, replicate, min, max, if◌then◌else◌,
}
use gnu_gnuit.Wide.{Locale}

-- What mbstowcs makes of a name: its characters, or, where it does not convert, those that are written
-- before (size_t)-1 is returned.
pub data Name : Type 0 where
  converts fails : List ℕ → Name

-- `date` is what swprintf makes of the date.
pub record System : Type 0 where
  pub nodename : Name
  pub sysname : Name
  pub machine : Name
  pub date : List ℕ

-- `temp_msg`: its cells from 0 to j - 1, the cells that it is allocated with, whether all that was written
-- to it lay in them, and the length that the next allocation adds to.
pub record Temp : Type 0 where
  pub text : List ℕ
  pub room : ℕ
  pub inside : Bool
  pub temp_msg_len : ℕ

-- `temp_msg[j++] = c`
unfoldable pub put : ℕ → Temp → Temp
put c t = record t { text = t.text ++ c ∷ []; inside = t.inside && leb (length t.text + 1) t.room }

-- xrealloc to `temp_msg_len += len` cells, a copy of `written` cells, and `j += len`.
unfoldable pub grow_by : List ℕ → ℕ → Temp → Temp
grow_by string written t =
    let room = t.temp_msg_len + length string in
    record {
      text = t.text ++ string;
      room = room;
      inside = t.inside && leb (length t.text + written) room;
      temp_msg_len = room;
    }

-- The label `get_system_info`. A `len` of (size_t)-1 wraps: one is taken off temp_msg_len and off `j`,
-- which leaves the block where it was 0.
unfoldable pub get_system_info : Name → Temp → Temp
unfolding grow_by
get_system_info (converts []) t = grow_by (b'(' ∷ b'n' ∷ b'o' ∷ b'n' ∷ b'e' ∷ b')' ∷ []) 6 t
get_system_info (converts (c ∷ ptr)) t = grow_by (c ∷ ptr) (length (c ∷ ptr)) t
get_system_info (fails written) t =
    let room = (t.temp_msg_len + (2 ^ 64 - 1)) % 2 ^ 64 in
    record {
      text = take (length t.text - 1) t.text;
      room = room;
      inside = t.inside && ltb 0 (length t.text) && leb (length t.text + length written) room;
      temp_msg_len = room;
    }

-- The switch on the character behind a backslash.
unfoldable pub escape : System → ℕ → Temp → Temp
unfolding get_system_info grow_by put
escape sys c t =
    if c == b'h'
    then get_system_info sys.nodename t
    else if c == b's'
    then get_system_info sys.sysname t
    else if c == b'm'
    then get_system_info sys.machine t
    else if c == b'd'
    then grow_by sys.date (length sys.date) t
    else if c == b'\\'
    then put b'\\' t
    else put c (put b'\\' t)

-- Of a tab, 8 spaces are kept of the 8 * sizeof(wchar_t) cells copied.
unfoldable pub plain : ℕ → Temp → Temp
unfolding grow_by put
plain c t = if c == 9 then grow_by (replicate 8 b' ') (8 * 4) t else put c t

-- The loop over the message.
unfoldable pub build_temp : System → List ℕ → Temp → Temp
unfolding escape plain put
build_temp sys [] t = t
build_temp sys (c ∷ []) t = if c == b'\\' then put b'\\' t else plain c t
build_temp sys (c ∷ d ∷ message) t = elim (c == b'\\') [
  | true ↦ build_temp sys message (escape sys d t)
  | false ↦ build_temp sys (d ∷ message) (plain c t)
]

-- The loop, and the NUL that ends the text.
unfoldable pub expand_message : System → List ℕ → Temp
unfolding build_temp
expand_message sys message =
    let t = build_temp sys message (record {
      text = [];
      room = length message + 1;
      inside = true;
      temp_msg_len = length message;
    }) in
    record t { inside = t.inside && leb (length t.text + 1) t.room }

-- What is copied into `status_buffer`, over its spaces.
unfoldable pub align : Bool → ℕ → List ℕ → List ℕ
align centered columns text =
    let left = (columns - length text) / 2 in
    let shown = min (length text) columns in
    if centered && ltb (length text) columns
    then replicate left b' ' ++ text ++ replicate (columns - left - length text) b' '
    else take shown text ++ replicate (columns - shown) b' '

unfoldable pub unbroken : ℕ → ℕ
unbroken c = if c == b'\r' || c == b'\n' then b' ' else c

unfoldable pub build_message : System → Bool → ℕ → List ℕ → List ℕ
unfolding expand_message align unbroken
build_message sys centered columns message =
    map unbroken (align centered columns (expand_message sys message).text)

-- toprintable on a whole string.
unfoldable pub printable : Locale → List ℕ → List ℕ
printable loc message = map (λ c. if loc.iswprint c then c else b'?') message

-- The function `status`: what it writes on the line.
unfoldable pub status : Locale → System → Bool → ℕ → List ℕ → List ℕ
unfolding printable build_message
status loc sys centered columns message = build_message sys centered columns (printable loc message)
