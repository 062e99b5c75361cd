-- ===== src/Prelude/Ints.antt =====
-- Go's `int` on a 64-bit machine: integers, with the wrap-around of a sum written out.
use Prim.Native.Nat.{ℕ, suc, ◌+◌, ◌-◌, ◌*◌, ◌%◌, ◌≤◌, ◌<◌}
use mathlib.Core.Path.{◌≡◌}
use mathlib.Core.Bool.{Bool, false}
use native.Mathlib.Omega.{arith}
use cluster_registry.Prelude.Tests.{ltb, leb, if◌then◌else◌}

-- `negsuc n` is -(n + 1).
pub data ℤ : Type 0 where
  pos : ℕ → ℤ
  negsuc : ℕ → ℤ

abbrev pub pos_part : ℤ → ℕ
pos_part (pos n) = n
pos_part (negsuc n) = 0

abbrev pub neg_part : ℤ → ℕ
neg_part (pos n) = 0
neg_part (negsuc n) = suc n

-- a - b, as an integer.
abbrev sub_ℕ : ℕ → ℕ → ℤ
sub_ℕ a b = if leb b a then pos (a - b) else negsuc (b - a - 1)

abbrev pub ltb_ℤ : ℤ → ℤ → Bool
ltb_ℤ a b = ltb (pos_part a + neg_part b) (pos_part b + neg_part a)

abbrev pub half_range : ℕ
half_range = 9223372036854775808

abbrev full_range : ℕ
full_range = 18446744073709551616

-- The value of the low 64 bits, read in two's complement.
abbrev pub wrap_int : ℤ → ℤ
wrap_int (pos n) =
    if ltb (n % full_range) half_range
    then pos (n % full_range)
    else negsuc (full_range - 1 - n % full_range)
wrap_int (negsuc n) =
    if ltb (n % full_range) half_range
    then negsuc (n % full_range)
    else pos (full_range - 1 - n % full_range)

unfoldable pub add_int : ℤ → ℤ → ℤ
add_int a b = wrap_int (sub_ℕ (pos_part a + pos_part b) (neg_part a + neg_part b))

unfoldable pub sub_int : ℤ → ℤ → ℤ
sub_int a b = wrap_int (sub_ℕ (pos_part a + neg_part b) (neg_part a + pos_part b))

pub add_int_pos : (a b : ℕ) → a + b < half_range → add_int (pos a) (pos b) ≡ pos (a + b)
unfolding add_int
add_int_pos a b h = ground arith

pub sub_int_pos : (a b : ℕ) → a < half_range → b ≤ a → sub_int (pos a) (pos b) ≡ pos (a - b)
unfolding sub_int
sub_int_pos a b h k = ground arith

-- A product of 64-bit integers.
unfoldable pub mul_int : ℤ → ℤ → ℤ
mul_int a b = wrap_int (
    sub_ℕ (pos_part a * pos_part b + neg_part a * neg_part b)
      (pos_part a * neg_part b + neg_part a * pos_part b))

infix 50 ◌≤ℤ◌
abbrev pub ◌≤ℤ◌ : ℤ → ℤ → Type 0
a ≤ℤ b = pos_part a + neg_part b ≤ pos_part b + neg_part a

pub ≤ℤ_of_not_ltb : (a b : ℤ) → ltb_ℤ a b ≡ false → b ≤ℤ a
≤ℤ_of_not_ltb a b h = ground arith

pub ≤ℤ_refl : (a : ℤ) → a ≤ℤ a
≤ℤ_refl a = omega arith

pub ≤ℤ_trans : (a b c : ℤ) → a ≤ℤ b → b ≤ℤ c → a ≤ℤ c
≤ℤ_trans a b c h k = omega arith

wrap_int_idem : (t : ℤ) → wrap_int (wrap_int t) ≡ wrap_int t
wrap_int_idem t = ground arith

-- A product of 64-bit integers is one.
pub mul_int-fits : (a b : ℤ) → wrap_int (mul_int a b) ≡ mul_int a b
unfolding mul_int
mul_int-fits a b = wrap_int_idem (
    sub_ℕ (pos_part a * pos_part b + neg_part a * neg_part b)
      (pos_part a * neg_part b + neg_part a * pos_part b))
