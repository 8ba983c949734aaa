-- ===== src/Transfer/Compare.antt =====
-- src/panel.c: panel_compare, and what panel_act_COMPARE says of its result. What the user and the system
-- answer at each turn of the loop is a sequence of turns. Offsets are exact
-- up to where `act_compare` casts them to an int.
use gnu_gnuit.Prelude.{
  ◌%◌, ◌^◌, ◌-◌, ℕ, zero, suc, ◌+◌, ◌*◌, Bool, true, false, not, Option, none, some, List, [], ◌∷◌,
  ◌==◌, ◌&&◌, ltb, length, take, drop, min, max, if◌then◌else◌,
}

-- Whether the user cancels, and how many bytes the two reads give at most; `none` for a read that fails.
pub record Turn : Type 0 where
  pub canceled : Bool
  pub read1 : Option ℕ
  pub read2 : Option ℕ

-- CF_ABORT, CF_READ1, CF_READ2, CF_OPEN1, CF_OPEN2, or an offset with `*this_size` and `*other_size`.
pub data Result : Type 0 where
  cf_abort cf_read1 cf_read2 cf_open1 cf_open2 : Result
  offset : ℕ → ℕ → ℕ → Result

-- The bytes that both reads gave, up to the first that differs.
unfoldable pub same_bytes : List ℕ → List ℕ → ℕ
same_bytes [] b = 0
same_bytes (x ∷ a) [] = 0
same_bytes (x ∷ a) (y ∷ b) = let rest = same_bytes a b in if x == y then suc rest else 0

-- The file of an entry: its bytes, the size that the entry has, whether it is a special file and whether
-- it can be opened.
pub record File : Type 0 where
  pub bytes : List ℕ
  pub size : ℕ
  pub is_special : Bool
  pub opens : Bool

-- The size after a mismatch: a special file is read to its end, without a failure.
unfoldable pub final_size : File → ℕ
final_size file = if file.is_special then length file.bytes else file.size

-- What a turn does with the bytes read: the end of a file, a difference, or more to compare.
pub data Step : Type 0 where
  at_end : Step
  differs : ℕ → Step
  goes_on : ℕ → Step

unfoldable pub compare_bytes : List ℕ → List ℕ → Step
unfolding same_bytes
compare_bytes a b =
    let bytes_read = min (length a) (length b) in
    let same = same_bytes a b in
    if bytes_read == 0
    then at_end
    else if ltb same bytes_read
    then differs same
    else goes_on bytes_read

-- What a turn gives up with, or the bytes that it reads into buffers of `size` bytes.
pub data Reads : Type 0 where
  stops : Result → Reads
  reads : List ℕ → List ℕ → Reads

unfoldable pub read_both : ℕ → Turn → List ℕ → List ℕ → Reads
read_both size turn a b = elim turn.canceled [
  | true ↦ stops cf_abort
  | false ↦ elim turn.read1 [
    | none ↦ stops cf_read1
    | some k ↦ elim turn.read2 [
      | none ↦ stops cf_read2
      | some m ↦ reads (take (min k size) a) (take (min m size) b)
    ]
  ]
]

-- The loop, `n` bytes compared; `a` and `b` are what the files still have behind the bytes read, and
-- `size` is CMP_BUFFER_SIZE.
module _ (this other : File) (turns : ℕ → Turn) (size : ℕ) where
  unfoldable pub compare_loop : ℕ → ℕ → ℕ → ℕ → ℕ → List ℕ → List ℕ → Option Result
  unfolding read_both compare_bytes final_size
  compare_loop zero turn n this_size other_size a b = none
  compare_loop (suc fuel) turn n this_size other_size a b = elim (read_both size (turns turn) a b) [
    | stops result ↦ some result
    | reads first second ↦ elim (compare_bytes first second) [
      | at_end ↦ some (offset n (this_size + length first) (other_size + length second))
      | differs i ↦ some (offset (n + i) (final_size this) (final_size other))
      | goes_on bytes_read ↦
          compare_loop fuel (turn + 1) (n + bytes_read) (this_size + length first)
            (other_size + length second) (drop (length first) a) (drop (length second) b)
    ]
  ]

module _ (this other : File) (turns : ℕ → Turn) where
  -- The length that tells how much is done, and whether the files are compared at all.
  unfoldable pub compare_size : ℕ
  compare_size =
      if this.is_special
      then if other.is_special then 0 else other.size
      else if other.is_special
      then this.size
      else max this.size other.size

  -- Each turn that goes on takes a byte at least of both files.
  unfoldable pub panel_compare : Option Result
  unfolding compare_size compare_loop
  panel_compare =
      if compare_size == 0 && not (this.is_special && other.is_special)
      then some (offset 0 0 0)
      else if not this.opens
      then some cf_open1
      else if not other.opens
      then some cf_open2
      else compare_loop this other turns (32 * 1024) (suc (length this.bytes)) 0 0 0 0 this.bytes
          other.bytes

-- What panel_act_COMPARE says.
pub data Verdict : Type 0 where
  says_nothing says_open1 says_open2 says_read1 says_read2 says_identical says_prefix : Verdict
  says_differ : ℕ → Verdict

unfoldable pub verdict : Result → Verdict
verdict cf_abort = says_nothing
verdict cf_open1 = says_open1
verdict cf_open2 = says_open2
verdict cf_read1 = says_read1
verdict cf_read2 = says_read2
verdict (offset n this_size other_size) =
    if n == this_size && this_size == other_size
    then says_identical
    else if n == min this_size other_size
    then says_prefix
    else says_differ n

-- `switch ((int)result)`, with the values of CF_ABORT, CF_READ1, CF_READ2, CF_OPEN1 and CF_OPEN2.
unfoldable pub act_compare : Result → Verdict
unfolding verdict
act_compare (offset n this_size other_size) =
    let low = n % 2 ^ 32 in
    if low == 2 ^ 32 - 1
    then says_nothing
    else if low == 2 ^ 32 - 2
    then says_read1
    else if low == 2 ^ 32 - 3
    then says_read2
    else if low == 2 ^ 32 - 4
    then says_open1
    else if low == 2 ^ 32 - 5
    then says_open2
    else verdict (offset n this_size other_size)
act_compare result = verdict result
