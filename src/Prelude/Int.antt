-- ===== src/Prelude/Int.antt =====
-- Signed integers over the native numbers: Go's `int` and `time.Duration`, within their range.
use Prim.Native.Nat.{ℕ, suc, ◌+◌, ◌-◌, ◌%◌, ◌^◌, ◌≤◌}
use mathlib.Core.Path.{◌≡◌, refl}
use mathlib.Core.Logic.{◌⊎◌, inl, inr}
use mathlib.Core.Bool.{Bool}
use native.Mathlib.Omega.{arith}
use goddgs.Prelude.Tests.{ltb, leb, if◌then◌else◌}

-- `negsuc n` is -(n + 1).
pub data ℤ : Type 0 where
  pos : ℕ → ℤ
  negsuc : ℕ → ℤ

abbrev pub pos_part : ℤ → ℕ
pos_part (pos n) = n
pos_part (negsuc n) = 0

abbrev pub neg_part : ℤ → ℕ
neg_part (pos n) = 0
neg_part (negsuc n) = suc n

abbrev pub sub_ℕ : ℕ → ℕ → ℤ
sub_ℕ a b = if leb b a then pos (a - b) else negsuc (b - a - 1)

infixl 65 ◌+ℤ◌ ◌-ℤ◌
infix 50 ◌≤ℤ◌ ◌<ℤ◌
unfoldable pub ◌+ℤ◌ : ℤ → ℤ → ℤ
a +ℤ b = sub_ℕ (pos_part a + pos_part b) (neg_part a + neg_part b)

unfoldable pub ◌-ℤ◌ : ℤ → ℤ → ℤ
a -ℤ b = sub_ℕ (pos_part a + neg_part b) (neg_part a + pos_part b)

abbrev pub ◌≤ℤ◌ : ℤ → ℤ → Type 0
a ≤ℤ b = pos_part a + neg_part b ≤ pos_part b + neg_part a

abbrev pub ◌<ℤ◌ : ℤ → ℤ → Type 0
a <ℤ b = suc (pos_part a + neg_part b) ≤ pos_part b + neg_part a

abbrev pub ltb_ℤ : ℤ → ℤ → Bool
ltb_ℤ a b = ltb (pos_part a + neg_part b) (pos_part b + neg_part a)

abbrev pub leb_ℤ : ℤ → ℤ → Bool
leb_ℤ a b = leb (pos_part a + neg_part b) (pos_part b + neg_part a)

-- A number as 64-bit arithmetic keeps it, in two's complement.
unfoldable pub int64 : ℕ → ℤ
int64 n = let m = n % 2 ^ 64 in if ltb m (2 ^ 63) then pos m else negsuc (2 ^ 64 - 1 - m)

-- A number that fits stays as it is.
pub int64-of_lt : (n : ℕ) → suc n ≤ 2 ^ 63 → int64 n ≡ pos n
unfolding int64
int64-of_lt n h = ground arith

-- A sum or difference of integers as 64-bit arithmetic keeps it.
unfoldable pub int64_of : ℤ → ℤ
unfolding int64
int64_of (pos n) = int64 n
int64_of (negsuc n) = int64 (2 ^ 64 - 1 - n % 2 ^ 64)

pub int64_of-fits : (a : ℤ) → suc (pos_part a) ≤ 2 ^ 63 → neg_part a ≤ 2 ^ 63 → int64_of a ≡ a
unfolding int64_of int64
int64_of-fits (pos n) small above = int64-of_lt n small
int64_of-fits (negsuc n) small above = ground arith

pub +ℤ_parts :
    (a b : ℤ)
    → pos_part (a +ℤ b) + neg_part a + neg_part b ≡ neg_part (a +ℤ b) + pos_part a + pos_part b
unfolding ◌+ℤ◌
+ℤ_parts a b = ground arith

pub -ℤ_parts :
    (a b : ℤ)
    → pos_part (a -ℤ b) + neg_part a + pos_part b ≡ neg_part (a -ℤ b) + pos_part a + neg_part b
unfolding ◌-ℤ◌
-ℤ_parts a b = ground arith

pub eq_of_parts : (a b : ℤ) → pos_part a + neg_part b ≡ pos_part b + neg_part a → a ≡ b
eq_of_parts a b h = ground arith

-- What `omega` reads of an equation between integers.
pub parts_of_eq : (a b : ℤ) → a ≡ b → pos_part a + neg_part b ≡ pos_part b + neg_part a
parts_of_eq a b h = ground arith

-- An integer has one part only.
pub one_sided : (a : ℤ) → (pos_part a ≡ 0) ⊎ (neg_part a ≡ 0)
one_sided (pos n) = inr refl
one_sided (negsuc n) = inl refl

pub ruleset int_laws = (arith, +ℤ_parts, -ℤ_parts, eq_of_parts)

-- `if v <= 0 { v = def }`, the idiom by which the constructors fill in a default.
unfoldable pub positive_or : ℤ → ℕ → ℕ
positive_or v def = if leb_ℤ v (pos 0) then def else pos_part v

pub positive_or-pos : (v : ℤ) (def : ℕ) → suc 0 ≤ def → suc 0 ≤ positive_or v def
unfolding positive_or
positive_or-pos v def h = ground arith

pub positive_or-of_pos : (n def : ℕ) → suc 0 ≤ n → positive_or (pos n) def ≡ n
unfolding positive_or
positive_or-of_pos n def h = ground arith
