-- ===== src/Base/Int.antt =====
-- Signed integers over the native numbers, and Go's fixed-width conversions and remainder.
use Prim.Native.Nat.{ℕ, ◌+◌, ◌-◌, ◌*◌, ◌%◌, ◌^◌, ◌<◌}
use mathlib.Core.Path.{◌≡◌}
use mathlib.Core.Logic.{◌↔◌}
use mathlib.Core.Bool.{Bool, true, false}
use native.Mathlib.Omega.{arith}
use nodehub.Base.Tests.{Eq, nat_beq, ltb, leb, if◌then◌else◌}

-- `negsuc n` is -(n + 1).
pub data ℤ : Type 0 where
  pos : ℕ → ℤ
  negsuc : ℕ → ℤ

abbrev pub int_beq : ℤ → ℤ → Bool
int_beq (pos a) (pos b) = nat_beq a b
int_beq (negsuc a) (negsuc b) = nat_beq a b
int_beq _ _ = false

pub int_beq_iff : (a b : ℤ) → (int_beq a b ≡ true) ↔ (a ≡ b)
int_beq_iff a b = ground arith

instance abbrev pub int_eq : Eq ℤ
int_eq = record { same = int_beq; same_iff = int_beq_iff }

-- `0 < a`
abbrev pub is_positive : ℤ → Bool
is_positive (pos n) = ltb 0 n
is_positive (negsuc n) = false

abbrev pub two63 : ℕ
two63 = 2 ^ 63

abbrev pub two64 : ℕ
two64 = 2 ^ 64

-- The conversion of a uint64 to an int64 (on a 64-bit platform, `int` too).
unfoldable pub to_int64 : ℕ → ℤ
to_int64 u = if ltb u two63 then pos u else negsuc (two64 - u - 1)

-- Go's `%` by a positive number: the result has the sign of the dividend.
unfoldable pub rem : ℤ → ℕ → ℤ
rem (pos a) n = pos (a % n)
rem (negsuc a) n = if nat_beq ((a + 1) % n) 0 then pos 0 else negsuc ((a + 1) % n - 1)

-- The bits of an int64, and its arithmetic, which wraps.
unfoldable pub of_int64 : ℤ → ℕ
of_int64 (pos n) = n % two64
of_int64 (negsuc n) = (two64 - 1 - n % two64) % two64

unfoldable pub int64_add : ℤ → ℤ → ℤ
unfolding to_int64 of_int64
int64_add a b = to_int64 ((of_int64 a + of_int64 b) % two64)

unfoldable pub int64_sub : ℤ → ℤ → ℤ
unfolding to_int64 of_int64
int64_sub a b = to_int64 ((of_int64 a + two64 - of_int64 b) % two64)

unfoldable pub int64_mul : ℤ → ℤ → ℤ
unfolding to_int64 of_int64
int64_mul a b = to_int64 ((of_int64 a * of_int64 b) % two64)

pub int64_add-pos : (a b : ℕ) → a + b < two63 → int64_add (pos a) (pos b) ≡ pos (a + b)
unfolding int64_add
int64_add-pos a b h = ground arith

pub int64_sub-pos :
    (a b : ℕ)
    → a < two63
    → b < two63
    → int64_sub (pos a) (pos b) ≡ (if leb b a then pos (a - b) else negsuc (b - a - 1))
unfolding int64_sub
int64_sub-pos a b h k = ground arith
