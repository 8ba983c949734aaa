-- ===== src/Keys/Tests.antt =====
-- The theorems on the list of key sequences, applied to two keys and a pointer at the second.
use gnu_gnuit.Prelude.{ℕ, ◌≡◌, refl, true, false, leb, none, some, List, [], ◌∷◌}
use gnu_gnuit.Keys.{TtyKey, KeyList, at_most, tty_key_list_insert}
use gnu_gnuit.Keys.Insertion.{InOrder, Split, tty_key_list_insert_lem}
use gnu_gnuit.Keys.Reading.{Terminal, pressed, with_next, wait_key, tty_get_key}
use gnu_gnuit.Keys.ReadingLaws.{whole_start, tty_get_key_lem}

abbrev bound_to : List ℕ → ℕ → TtyKey ℕ
bound_to key_seq command = record { key_seq = key_seq; aux_data = command }

abbrev two_keys : KeyList ℕ
two_keys = record {
  key_list_head = bound_to (b'a' ∷ []) 1 ∷ bound_to (b'c' ∷ []) 2 ∷ [];
  key = some 1;
}

two_keys-InOrder : InOrder two_keys.key_list_head
unfolding at_most
two_keys-InOrder = (refl, (tt, tt))

tty_key_list_insert_example :
    let new = bound_to (b'b' ∷ b'x' ∷ []) 3 in
    let list' = tty_key_list_insert new two_keys in
    InOrder list'.key_list_head
    × ((place : ℕ) × (list'.key ≡ some place)
        × Split new two_keys.key_list_head list'.key_list_head place)
    × (list'.key_list_head
        ≡ (tty_key_list_insert new (record two_keys { key = none })).key_list_head)
tty_key_list_insert_example =
    tty_key_list_insert_lem (bound_to (b'b' ∷ b'x' ∷ []) 3) two_keys b'b' (b'x' ∷ []) refl
      two_keys-InOrder

-- "ccx", behind a failed read and an empty one.
abbrev sent : Terminal
sent = record { keybuf = []; reads = none ∷ some [] ∷ some (b'c' ∷ b'c' ∷ b'x' ∷ []) ∷ [] }

tty_get_key_example :
    tty_get_key true false (λ c. leb 32 c) two_keys sent
    ≡ with_next (whole_start true false (λ c. leb 32 c) two_keys.key_list_head) (wait_key sent)
tty_get_key_example =
    tty_get_key_lem true false (λ c. leb 32 c) two_keys (bound_to (b'a' ∷ []) 1)
      (bound_to (b'c' ∷ []) 2 ∷ []) sent refl two_keys-InOrder

-- The key "c", pressed twice.
sent_run :
    tty_get_key true false (λ c. leb 32 c) two_keys sent
    ≡ pressed (bound_to (b'c' ∷ []) 2) 2 (record { keybuf = b'x' ∷ []; reads = [] })
unfolding tty_get_key
sent_run = refl

-- Once, and one press stays in the buffer, where no count is asked for.
sent_uncounted :
    tty_get_key false false (λ c. leb 32 c) two_keys sent
    ≡ pressed (bound_to (b'c' ∷ []) 2) 1 (record { keybuf = b'c' ∷ b'x' ∷ []; reads = [] })
unfolding tty_get_key
sent_uncounted = refl
