-- ===== src/Base/Int.antt =====
-- Signed integers over the native numbers: Go's `int` fields, and the integer that a 64-bit
-- pattern stands for.
use native.Mathlib.Omega.{arith}
use mathlib.Core.Path.{◌≡◌}
use Prim.Native.Nat.{ℕ, suc, ◌+◌, ◌-◌, ◌≤◌, ◌<◌, ◌^◌, ◌%◌, ◌*◌}
use mathlib.Core.Bool.{Bool, true, false}
use cando.Base.Tests.{ltb, lt→ltb, if◌then◌else◌}

-- `negsuc n` is -(n + 1).
pub data ℤ : Type 0 where
  pos : ℕ → ℤ
  negsuc : ℕ → ℤ

abbrev pub pos_part : ℤ → ℕ
pos_part (pos n) = n
pos_part (negsuc n) = 0

abbrev pub neg_part : ℤ → ℕ
neg_part (pos n) = 0
neg_part (negsuc n) = suc n

infix 50 ◌≤ℤ◌
abbrev pub ◌≤ℤ◌ : ℤ → ℤ → Type 0
a ≤ℤ b = pos_part a + neg_part b ≤ pos_part b + neg_part a

-- `a < b`
abbrev pub ltb_ℤ : ℤ → ℤ → Bool
ltb_ℤ a b = ltb (pos_part a + neg_part b) (pos_part b + neg_part a)

-- `a <= b`
abbrev pub leb_ℤ : ℤ → ℤ → Bool
leb_ℤ a b = if ltb_ℤ b a then false else true

-- `a == 0`
abbrev pub is_zero : ℤ → Bool
is_zero (pos n) = if ltb 0 n then false else true
is_zero (negsuc n) = false

-- The int64 that a bit pattern stands for.
abbrev pub signed64 : ℕ → ℤ
signed64 w = if ltb w (2 ^ 63) then pos w else negsuc (2 ^ 64 - w - 1)

-- The bit pattern of an integer, and the int64 product: both wrap.
abbrev pub word64 : ℤ → ℕ
word64 (pos n) = n % 2 ^ 64
word64 (negsuc n) = 2 ^ 64 - 1 - n % 2 ^ 64

unfoldable pub times64 : ℕ → ℤ → ℤ
times64 k a = signed64 (k * word64 a % 2 ^ 64)

pub times64_exact : (k n : ℕ) → n < 2 ^ 63 → k * n < 2 ^ 63 → times64 k (pos n) ≡ pos (k * n)
unfolding times64
times64_exact k n h p =
    let e : n % 2 ^ 64 ≡ n = omega arith in
    let f : k * n % 2 ^ 64 ≡ k * n = omega arith in rw (e, f, lt→ltb (k * n) (2 ^ 63) p)
