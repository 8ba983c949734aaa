-- ===== src/Prelude/Word.antt =====
-- `size_t` of a 64-bit machine: sums and differences wrap.
use Prim.Native.Nat.{ℕ, ◌+◌, ◌-◌, ◌%◌, ◌^◌, ◌≤◌, ◌<◌}
use mathlib.Core.Path.{◌≡◌}
use native.Mathlib.Omega.{arith}
use gnu_gnuit.Prelude.Tests.{ltb, if◌then◌else◌}

abbrev pub word : ℕ
word = 2 ^ 64

abbrev pub add_size : ℕ → ℕ → ℕ
add_size a b = (a + b) % word

-- `-` on ℕ stops at 0, so the modulus is added first.
abbrev pub sub_size : ℕ → ℕ → ℕ
sub_size a b = (a + word - b) % word

-- Where the true value is in range, nothing wraps.
pub add_size-eq-add : (a b : ℕ) → a + b < word → add_size a b ≡ a + b
add_size-eq-add a b h = omega arith

pub sub_size-eq-sub : (a b : ℕ) → b ≤ a → a < word → sub_size a b ≡ a - b
sub_size-eq-sub a b h k = omega arith

-- A `size_t` that is kept in a 32-bit `int` and read back: the low half, with its sign extended.
abbrev pub through_int : ℕ → ℕ
through_int a = if ltb (a % 2 ^ 32) (2 ^ 31) then a % 2 ^ 32 else a % 2 ^ 32 + (word - 2 ^ 32)

pub through_int_small : (a : ℕ) → a < 2 ^ 31 → through_int a ≡ a
through_int_small a h = ground arith
