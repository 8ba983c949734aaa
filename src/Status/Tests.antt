-- ===== src/Status/Tests.antt =====
-- The theorems on the status line, applied on a machine called box.
use gnu_gnuit.Prelude.{
  ◌-◌, ◌≡◌, refl, true, false, [], ◌∷◌, ◌++◌, ◌&&◌, leb, ltb, length, replicate, arith,
}
use gnu_gnuit.Prelude.Int.{pos}
use gnu_gnuit.Wide.{Locale}
use gnu_gnuit.Status.{converts, fails, System, expand_message, printable, status}
use gnu_gnuit.Status.Room.{Converts, expand_message-inside}
use gnu_gnuit.Status.Doubled.{Prints, doubled, status-doubled}

abbrev ascii : Locale
ascii = record {
  isprint = λ c. leb 32 c && ltb c 127;
  iswprint = λ c. leb 32 c && ltb c 127;
  iswalnum = λ c. false;
  towlower = λ c. c;
  towupper = λ c. c;
  wcswidth = λ text. pos (length text);
  fresh = λ i. 0;
}

-- The system has no name for the machine.
abbrev box : System
box = record {
  nodename = converts (b'b' ∷ b'o' ∷ b'x' ∷ []);
  sysname = converts (b'L' ∷ []);
  machine = converts [];
  date = b'M' ∷ b'o' ∷ b'n' ∷ [];
}

ascii-Prints : Prints ascii
ascii-Prints = record { slash = refl; tab = refl; feed = refl; return = refl }

box-Converts : Converts box
box-Converts = record { node = tt; system = tt; hardware = tt }

-- The message is \h, a tab and \m.
expand_message-inside_example :
    (expand_message box (printable ascii (b'\\' ∷ b'h' ∷ 9 ∷ b'\\' ∷ b'm' ∷ []))).inside ≡ true
expand_message-inside_example =
    expand_message-inside ascii box (b'\\' ∷ b'h' ∷ 9 ∷ b'\\' ∷ b'm' ∷ []) box-Converts refl

-- The same without toprintable: 32 cells are written behind the 3 of the name, where 15 are allocated.
tab_overruns : (expand_message box (b'\\' ∷ b'h' ∷ 9 ∷ b'\\' ∷ [])).inside ≡ false
unfolding expand_message
tab_overruns = refl

-- A name that does not convert, of which three characters are written behind the first one of the message:
-- the block has then 2 cells.
name_overruns :
    (expand_message
      (record box { nodename = fails (b'b' ∷ b'o' ∷ b'x' ∷ []) })
      (b'a' ∷ b'\\' ∷ b'h' ∷ [])).inside
    ≡ false
unfolding expand_message
name_overruns = refl

-- A file called a\h.
status-doubled_example :
    status ascii box false 10 (doubled (b'a' ∷ b'\\' ∷ b'h' ∷ []))
    ≡ b'a' ∷ b'\\' ∷ b'h' ∷ [] ++ replicate (10 - 3) b' '
status-doubled_example =
    status-doubled ascii ascii-Prints box 10 (b'a' ∷ b'\\' ∷ b'h' ∷ []) (refl, (refl, (refl, tt)))
      (omega arith)
