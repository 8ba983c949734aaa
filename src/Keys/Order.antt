-- ===== src/Keys/Order.antt =====
-- strcmp orders the key sequences of src/tty.c.
use gnu_gnuit.Prelude.{ℕ, ◌≡◌, refl, true, false, List, [], ◌∷◌, arith}
use gnu_gnuit.Keys.{at_most}

pub at_most_trans : (a b c : List ℕ) → at_most a b ≡ true → at_most b c ≡ true → at_most a c ≡ true
unfolding at_most
at_most_trans [] b c p q = refl
at_most_trans (x ∷ a) [] c p q = absurd (ground arith)
at_most_trans (x ∷ a) (y ∷ b) [] p q = absurd (ground arith)
at_most_trans (x ∷ a) (y ∷ b) (z ∷ c) p q = ground (arith, at_most_trans a b c)

pub at_most_total : (a b : List ℕ) → at_most a b ≡ false → at_most b a ≡ true
unfolding at_most
at_most_total [] b p = absurd (ground arith)
at_most_total (x ∷ a) [] p = refl
at_most_total (x ∷ a) (y ∷ b) p = ground (arith, at_most_total a b)
