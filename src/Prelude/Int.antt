-- ===== src/Prelude/Int.antt =====
-- Go's `int` where a value may be negative: `negsuc n` is -(n + 1). The programs' values stay far
-- from the ends of the 64-bit range, so the type is unbounded.
use Prim.Native.Nat.{ℕ, zero, suc, ◌+◌, ◌-◌}
use mathlib.Core.Bool.{Bool, true, false}
use eywa.Prelude.Tests.{leb, if◌then◌else◌}

pub data ℤ : Type 0 where
  pos : ℕ → ℤ
  negsuc : ℕ → ℤ

abbrev pub pos_part : ℤ → ℕ
pos_part (pos n) = n
pos_part (negsuc n) = 0

abbrev pub neg_part : ℤ → ℕ
neg_part (pos n) = 0
neg_part (negsuc n) = suc n

-- a - b, as an integer.
abbrev pub sub_ℕ : ℕ → ℕ → ℤ
sub_ℕ a b = if leb b a then pos (a - b) else negsuc (b - a - 1)

-- z <= 0
abbrev pub le_zero : ℤ → Bool
le_zero (pos zero) = true
le_zero (pos (suc n)) = false
le_zero (negsuc n) = true

-- The idiom `if z <= 0 { z = d }`.
abbrev pub positive_or : ℤ → ℕ → ℕ
positive_or (pos zero) d = d
positive_or (pos (suc n)) d = suc n
positive_or (negsuc n) d = d

-- a + b
abbrev pub add : ℤ → ℤ → ℤ
add (pos a) (pos b) = pos (a + b)
add (pos a) (negsuc b) = sub_ℕ a (suc b)
add (negsuc a) (pos b) = sub_ℕ b (suc a)
add (negsuc a) (negsuc b) = negsuc (suc (a + b))

-- n < z
abbrev pub below : ℕ → ℤ → Bool
below n (pos m) = leb (suc n) m
below n (negsuc m) = false
