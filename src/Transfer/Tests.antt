-- ===== src/Transfer/Tests.antt =====
-- The theorems on copies, moves, comparisons and the search for an entry, applied to small files.
use gnu_gnuit.Prelude.{
  ℕ, ◌*◌, ◌≡◌, ◌↔◌, refl, ap, ◌++◌, inr, true, false, none, some, List, [], ◌∷◌, length, take,
  arith,
}
use gnu_gnuit.Transfer.{panel_warning, sd_ok, Turn, holds, Files, get_flen, panel_copy}
use gnu_gnuit.Transfer.CopyLaws.{Finished}
use gnu_gnuit.Transfer.Complete.{Full, Copyable, panel_copy-Finished, panel_copy-whole}
use gnu_gnuit.Transfer.Reads.{Ordinary}
use gnu_gnuit.Transfer.Short.{panel_copy-short}
use gnu_gnuit.Transfer.Move.{ft_ok, t_createrr, gone, copy, regular, Places, to_statbuf, panel_move}
use gnu_gnuit.Transfer.MoveLaws.{panel_move-Safe}
use gnu_gnuit.Transfer.Kept.{Safe, NotSpecial}
use gnu_gnuit.Transfer.Find.{panel_find_index}
use gnu_gnuit.Transfer.FindLaws.{panel_find_index-exact}
use gnu_gnuit.Transfer.Compare.{
  Result, same_bytes, File, panel_compare, Verdict, says_identical, says_differ, verdict,
  act_compare,
}
use gnu_gnuit.Transfer.Compare
use gnu_gnuit.Transfer.CompareLaws
use gnu_gnuit.Transfer.Identical.{IsPlain, panel_compare-identical}

-- A file of three bytes, copied over another where the user agrees.
abbrev three : Files
three = record {
  unnamed = false;
  exists = true;
  opens = true;
  creates = true;
  entry = record { is_regular = true; unlinks = true };
  same_file = false;
  bytes = 1 ∷ 2 ∷ 3 ∷ [];
  file_length = some 3;
  device = false;
}

abbrev calm : ℕ → Turn
calm i = record {
  canceled_first = false;
  given = some 40000;
  canceled_then = false;
  taken = 40000;
  nospace = false;
}

-- The disk is full.
abbrev full_disk : ℕ → Turn
full_disk i = record (calm i) { taken = 1; nospace = true }

-- Each read gives two bytes.
abbrev by_two : ℕ → Turn
by_two i = record (calm i) { given = some 2 }

panel_copy-Finished_example :
    Finished three.entry (1 ∷ 2 ∷ 3 ∷ []) (panel_copy false true b'o' three full_disk).0
unfolding get_flen
panel_copy-Finished_example = panel_copy-Finished false true b'o' three full_disk (3, refl)

three-Copyable : Copyable true b'o' three
three-Copyable = record {
  named = refl;
  agreed = inr refl;
  opens = refl;
  creates = refl;
  regular = refl;
  apart = refl;
  plain = refl;
  measured = refl;
}

calm-Full : (i : ℕ) → Full (calm i)
calm-Full i = record {
  at_most = 40000;
  first = refl;
  given = refl;
  much = omega arith;
  second = refl;
  taken = omega arith;
}

panel_copy-whole_example :
    (panel_copy false true b'o' three calm).0 ≡ some (sd_ok, holds (1 ∷ 2 ∷ 3 ∷ []))
panel_copy-whole_example = panel_copy-whole false true b'o' three calm three-Copyable calm-Full

panel_copy-short_example :
    (panel_copy false true b'o' three by_two).0 ≡ some (sd_ok, holds (take 2 (1 ∷ 2 ∷ 3 ∷ [])))
panel_copy-short_example =
    panel_copy-short false true b'o' three by_two 2 three-Copyable (omega arith) (omega arith)
      (omega arith) refl refl refl (omega arith)

-- The destination is a file of another device, so the source is copied.
abbrev away : Places
away = record {
  unnamed = false;
  exists = true;
  from = some (record { st_dev = 1; kind = regular });
  to = some (record { st_dev = 2; kind = regular });
  parent = none;
  msdosfs = false;
  same_entry = false;
  to_unlinks = true;
  links = true;
  unlinks = true;
}

away-NotSpecial : NotSpecial away
unfolding to_statbuf
away-NotSpecial = refl

three-Ordinary : Ordinary three
three-Ordinary = record { plain = refl; apart = refl; measured = refl }

panel_move-Safe_example : Safe (1 ∷ 2 ∷ 3 ∷ []) (panel_move true true b'a' b'o' away three calm).0
panel_move-Safe_example =
    panel_move-Safe true true b'a' b'o' away three calm away-NotSpecial refl three-Ordinary
      (λ i. inr (40000, refl, omega arith))

-- The source's own entry as the destination: the source is lost.
one_entry_loses :
    (panel_move true true b'a' b'o'
      (record away { to = away.from; same_entry = true })
      three
      calm).0
    ≡ some (record { status = t_createrr; source_left = false; to_file = gone })
unfolding panel_move panel_warning
one_entry_loses = refl

-- A read of two of the bytes is taken for one of all of them.
short_read_loses :
    (panel_move true true b'a' b'o' away three by_two).0
    ≡ some (record { status = ft_ok; source_left = false; to_file = copy (holds (1 ∷ 2 ∷ [])) })
unfolding panel_move panel_warning panel_copy
short_read_loses = refl

-- The entry ab comes behind the entry abc.
panel_find_index-exact_example :
    panel_find_index
      (λ c. c)
      ((b'a' ∷ b'b' ∷ b'c' ∷ []) ∷ [] ++ (b'a' ∷ b'b' ∷ []) ∷ [])
      (b'a' ∷ b'b' ∷ [])
    ≡ 1
panel_find_index-exact_example =
    panel_find_index-exact (λ c. c) (b'a' ∷ b'b' ∷ []) ((b'a' ∷ b'b' ∷ b'c' ∷ []) ∷ []) []
      ((λ h. let l : 2 ≡ 3 = ap length h in absurd (omega (arith, l))), tt)

abbrev file : List ℕ → File
file bytes = record { bytes = bytes; size = length bytes; is_special = false; opens = true }

abbrev quiet : ℕ → Compare.Turn
quiet i = record { canceled = false; read1 = some 40000; read2 = some 40000 }

quiet-Full : (i : ℕ) → CompareLaws.Full (32 * 1024) (quiet i)
quiet-Full i = record {
  most1 = 40000;
  most2 = 40000;
  goes = refl;
  given1 = refl;
  given2 = refl;
  much1 = omega arith;
  much2 = omega arith;
}

file-IsPlain : (bytes : List ℕ) → IsPlain (file bytes)
file-IsPlain bytes = record { plain = refl; measured = refl; openable = refl }

abbrev short : File
short = file (1 ∷ 2 ∷ [])

abbrev long : File
long = file (1 ∷ 3 ∷ 4 ∷ [])

panel_compare-identical_example :
    (result : Result) × (panel_compare short long quiet ≡ some result)
    × ((act_compare result ≡ says_identical) ↔ (short.bytes ≡ long.bytes))
panel_compare-identical_example =
    panel_compare-identical short long quiet quiet-Full (file-IsPlain (1 ∷ 2 ∷ []))
      (file-IsPlain (1 ∷ 3 ∷ 4 ∷ [])) (omega arith)
