-- ===== src/Prelude/Wrap.antt =====
-- Sums of 64-bit words: wrapping round at each step is wrapping round once.
use Prim.Native.Nat.{ℕ, ◌+◌, ◌-◌, ◌%◌, ◌<◌}
use mathlib.Core.Path.{◌≡◌, refl}
use native.Mathlib.Omega.{arith}
use d5net_billing.Prelude.Int.{ℤ, pos_part, neg_part, ◌+ℤ◌, ◌-ℤ◌, +ℤ_parts, -ℤ_parts, eq_of_parts}
use d5net_billing.Prelude.Int64.{IsInt64, wrap64, of_word, two64, ◌+64◌, ◌-64◌}

word : ℤ → ℕ
word z = (pos_part z % two64 + (two64 - neg_part z % two64)) % two64

of_word-word : (z : ℤ) → wrap64 z ≡ of_word (word z)
unfolding wrap64 word
of_word-word z = refl

word_below : (z : ℤ) → word z < two64
unfolding word
word_below z = omega arith

-- A word read as a number is the word, up to 2^64.
of_word_mod :
    (w : ℕ) → w < two64 → (pos_part (of_word w)) % two64 ≡ (neg_part (of_word w) + w) % two64
of_word_mod w h = ground arith

word_mod : (z : ℤ) → (word z + neg_part z) % two64 ≡ pos_part z % two64
unfolding word
word_mod z = omega arith

pub wrap64_mod :
    (z : ℤ)
    → (pos_part (wrap64 z) + neg_part z) % two64 ≡ (neg_part (wrap64 z) + pos_part z) % two64
wrap64_mod z = rw (of_word-word z) (omega (arith, of_word_mod (word z) (word_below z), word_mod z))

pub +64_mod :
    (a b : ℤ)
    → (pos_part (a +64 b) + neg_part a + neg_part b) % two64
      ≡ (neg_part (a +64 b) + pos_part a + pos_part b) % two64
unfolding ◌+64◌
+64_mod a b = omega (arith, wrap64_mod (a +ℤ b), +ℤ_parts a b)

pub -64_mod :
    (a b : ℤ)
    → (pos_part (a -64 b) + neg_part a + pos_part b) % two64
      ≡ (neg_part (a -64 b) + pos_part a + neg_part b) % two64
unfolding ◌-64◌
-64_mod a b = omega (arith, wrap64_mod (a -ℤ b), -ℤ_parts a b)

-- Words that agree modulo 2^64 are the same.
pub eq_of_mod :
    (a b : ℤ)
    → IsInt64 a
    → IsInt64 b
    → (pos_part a + neg_part b) % two64 ≡ (neg_part a + pos_part b) % two64
    → a ≡ b
eq_of_mod a b ha hb h = eq_of_parts a b (omega arith)
