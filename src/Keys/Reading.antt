-- ===== src/Keys/Reading.antt =====
-- src/tty.c: `tty_extract_key`, `tty_getc` and `tty_get_key`. What the terminal sends is the list of
-- the results of `tty_read` to come, `none` for a negative one; the signals, the screen and the alarm
-- that shows an unfinished sequence are left out.
use gnu_gnuit.Prelude.{
  ℕ, zero, suc, ◌%◌, Bool, Option, none, some, List, [], ◌∷◌, ◌++◌, ◌==◌, ◌&&◌, ◌||◌, leb, length,
  drop, if◌then◌else◌,
}
use gnu_gnuit.Keys.{TtyKey, KeyList}
use gnu_gnuit.Keys.Search.{
  Match, found, no_match, can_match, is_start, tty_key_search, tty_key_search_restart,
}

-- `keybuf` from `keyindex` on, of which there are `keyno` bytes, and the reads to come.
pub record Terminal : Type 0 where
  pub keybuf : List ℕ
  pub reads : List (Option (List ℕ))

unfoldable pub key_esc : ℕ
key_esc = 27

-- A byte with the 8th bit set is ESC and then the byte without the bit.
unfoldable pub tty_extract_key : ℕ → List ℕ → ℕ × List ℕ
unfolding key_esc
tty_extract_key key rest = if leb 128 key then (key_esc, key % 128 ∷ rest) else (key, rest)

-- The read loop: `none` when nothing comes any more; `some (none, _)` is the result -1.
unfoldable pub read_keys : List (Option (List ℕ)) → Option (Option ℕ × Terminal)
unfolding tty_extract_key
read_keys [] = none
read_keys (none ∷ reads) = read_keys reads
read_keys (some [] ∷ reads) = some (none, record { keybuf = []; reads = reads })
read_keys (some (key ∷ rest) ∷ reads) =
    let (c, keybuf) = tty_extract_key key rest in
    some (some c, record { keybuf = keybuf; reads = reads })

unfoldable pub tty_getc : Terminal → Option (Option ℕ × Terminal)
unfolding read_keys tty_extract_key
tty_getc tty = from tty.keybuf
  where
    from : List ℕ → Option (Option ℕ × Terminal)
    from [] = read_keys tty.reads
    from (key ∷ rest) =
        let (c, keybuf) = tty_extract_key key rest in
        some (some c, record { keybuf = keybuf; reads = tty.reads })

-- What a round of the wait does with the key, or with -1.
unfoldable pub got_key :
    (Terminal → Option (ℕ × Terminal)) → Option (Option ℕ × Terminal) → Option (ℕ × Terminal)
got_key again none = none
got_key again (some (none, tty)) = again tty
got_key again (some (some c, tty)) = some (c, tty)

-- `while ((c = tty_getc()) == -1);` A round takes a read, but for the last.
unfoldable pub wait_loop : ℕ → Terminal → Option (ℕ × Terminal)
unfolding tty_getc got_key
wait_loop zero tty = none
wait_loop (suc fuel) tty = got_key (wait_loop fuel) (tty_getc tty)

unfoldable pub wait_key : Terminal → Option (ℕ × Terminal)
unfolding wait_loop
wait_key tty = wait_loop (suc (length tty.reads)) tty

-- What `tty_get_key` returns: a node, the default key of restricted input, NULL; or it waits.
pub data Pressed {ℓ} (A : Type ℓ) : Type ℓ where
  pressed : TtyKey A → ℕ → Terminal → Pressed A
  typed : ℕ → Terminal → Pressed A
  invalid : Terminal → Pressed A
  waiting : Pressed A

-- `if (c == 0) c = 0xff`
unfoldable pub not_nul : ℕ → ℕ
not_nul c = if c == 0 then 255 else c

-- The loop of the repeat count, of a sequence in the buffer; a round drops a byte at least.
unfoldable pub repeat_loop : ℕ → List ℕ → List ℕ → ℕ × List ℕ
unfolding is_start
repeat_loop zero key_seq keybuf = (1, keybuf)
repeat_loop (suc fuel) key_seq keybuf =
    let rest = repeat_loop fuel key_seq (drop (length key_seq) keybuf) in
    if is_start key_seq keybuf then (suc rest.0, rest.1) else (1, keybuf)

module _ {ℓ} {A : Type ℓ} where
  unfoldable pub with_next : (ℕ → Terminal → Pressed A) → Option (ℕ × Terminal) → Pressed A
  with_next on none = waiting
  with_next on (some (c, tty)) = on c tty

-- Whether the caller asks for the repeat count: where the pointer is NULL, the loop is left out.
module _ {ℓ} {A : Type ℓ} (counted : Bool) where
  -- What a match leads to; `on` reads the next character and goes on from the node searched.
  unfoldable pub after_search :
      List ℕ → Terminal → (List (TtyKey A) → Pressed A) → Match A × List (TtyKey A) → Pressed A
  unfolding repeat_loop
  after_search key_seq tty on (found key, current_key) =
      let (count, keybuf) =
        if counted then repeat_loop (length tty.keybuf) key_seq tty.keybuf else (1, tty.keybuf) in
      pressed key count (record tty { keybuf = keybuf })
  after_search key_seq tty on (no_match, current_key) = invalid tty
  after_search key_seq tty on (can_match, current_key) = on current_key

  -- The loop, `length` characters before its end, with the character read.
  unfoldable pub key_loop : ℕ → List ℕ → List (TtyKey A) → ℕ → Terminal → Pressed A
  unfolding not_nul after_search with_next wait_key tty_key_search
  key_loop zero key_seq current_key c tty = invalid tty
  key_loop (suc n) key_seq current_key c tty =
      let key_seq' = key_seq ++ not_nul c ∷ [] in
      after_search key_seq' tty (λ nodes. with_next (key_loop n key_seq' nodes) (wait_key tty))
        (tty_key_search key_seq' current_key)

unfoldable pub max_key_length : ℕ
max_key_length = 15

unfoldable pub key_interrupt : ℕ
key_interrupt = 7

-- A newline is key_ENTER.
unfoldable pub entered : ℕ → ℕ
entered c = if c == b'\n' || c == b'\r' then 10 else c

-- Whether the repeat count is asked for, the keyboard mode TTY_RESTRICTED_INPUT, and isprint.
module _ {ℓ} {A : Type ℓ} (counted restricted : Bool) (isprint : ℕ → Bool) where
  unfoldable pub start_key : List (TtyKey A) → ℕ → Terminal → Pressed A
  unfolding key_loop entered key_interrupt max_key_length not_nul
  start_key nodes c tty =
      let c' = if restricted then entered (not_nul c) else not_nul c in
      let loop = key_loop counted max_key_length [] nodes c' tty in
      if restricted && (isprint c' || c' == key_interrupt) then typed c' tty else loop

  unfoldable pub tty_get_key : KeyList A → Terminal → Pressed A
  unfolding start_key with_next wait_key tty_key_search_restart
  tty_get_key list tty = with_next (start_key (tty_key_search_restart list)) (wait_key tty)
