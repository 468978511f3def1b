-- ===== src/Prelude/Int64.antt =====
-- 64-bit amounts. Go's `int64` wraps round; a PostgreSQL `BIGINT` expression that leaves the range
-- makes its statement fail.
use Prim.Native.Nat.{ℕ, ◌+◌, ◌-◌, ◌^◌, ◌%◌, ◌<◌, ◌≤◌}
use mathlib.Core.Path.{◌≡◌}
use mathlib.Core.Bool.{Bool, ◌&&◌}
use mathlib.Core.Option.{Option, none, some}
use native.Mathlib.Omega.{arith}
use d5net_billing.Prelude.Tests.{ltb, leb, if◌then◌else◌}
use d5net_billing.Prelude.Int.{ℤ, pos, negsuc, pos_part, neg_part, sub_ℕ, ◌+ℤ◌, ◌-ℤ◌}

abbrev pub two63 : ℕ
two63 = 2 ^ 63

abbrev pub two64 : ℕ
two64 = 2 ^ 64

-- -2^63 ≤ z < 2^63
abbrev pub IsInt64 : ℤ → Type 0
IsInt64 z = (pos_part z < two63) × (neg_part z ≤ two63)

abbrev pub in_int64 : ℤ → Bool
in_int64 z = ltb (pos_part z) two63 && leb (neg_part z) two63

-- The value of a BIGINT expression; `none` is "bigint out of range".
abbrev pub bigint : ℤ → Option ℤ
bigint z = if in_int64 z then some z else none

-- The bit pattern of a 64-bit word, read as a signed number.
abbrev pub of_word : ℕ → ℤ
of_word w = if ltb w two63 then pos w else sub_ℕ w two64

-- What an int64 holds after an operation whose exact result is `z`.
unfoldable pub wrap64 : ℤ → ℤ
wrap64 z = of_word ((pos_part z % two64 + (two64 - neg_part z % two64)) % two64)

infixl 65 ◌+64◌ ◌-64◌
unfoldable pub ◌+64◌ : ℤ → ℤ → ℤ
a +64 b = wrap64 (a +ℤ b)

unfoldable pub ◌-64◌ : ℤ → ℤ → ℤ
a -64 b = wrap64 (a -ℤ b)

of_word-IsInt64 : (w : ℕ) → w < two64 → IsInt64 (of_word w)
of_word-IsInt64 w h = ground arith

pub wrap64_id : (z : ℤ) → IsInt64 z → wrap64 z ≡ z
unfolding wrap64
wrap64_id (pos n) h = ground arith
wrap64_id (negsuc n) h = ground arith

pub +64_lem : (a b : ℤ) → IsInt64 (a +ℤ b) → a +64 b ≡ a +ℤ b
unfolding ◌+64◌
+64_lem a b h = wrap64_id (a +ℤ b) h

pub -64_lem : (a b : ℤ) → IsInt64 (a -ℤ b) → a -64 b ≡ a -ℤ b
unfolding ◌-64◌
-64_lem a b h = wrap64_id (a -ℤ b) h

pub wrap64-IsInt64 : (z : ℤ) → IsInt64 (wrap64 z)
unfolding wrap64
wrap64-IsInt64 z =
    of_word-IsInt64 ((pos_part z % two64 + (two64 - neg_part z % two64)) % two64) (omega arith)

pub -64-IsInt64 : (a b : ℤ) → IsInt64 (a -64 b)
unfolding ◌-64◌
-64-IsInt64 a b = wrap64-IsInt64 (a -ℤ b)

pub +64-IsInt64 : (a b : ℤ) → IsInt64 (a +64 b)
unfolding ◌+64◌
+64-IsInt64 a b = wrap64-IsInt64 (a +ℤ b)
