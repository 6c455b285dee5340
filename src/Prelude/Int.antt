-- ===== src/Prelude/Int.antt =====
-- i64 values as integers: the order, and negation with its wrap at the least value.
use Prim.Native.Nat.{ℕ, zero, suc, ◌-◌, ◌^◌}
use mathlib.Core.Path.{◌≡◌}
use mathlib.Core.Bool.{Bool, true, false}
use native.Mathlib.Omega.{arith}
use easy_deploy.Prelude.Tests.{ltb, leb, ◌==◌, if◌then◌else◌}

-- `negsuc n` is -(n + 1).
pub data ℤ : Type 0 where
  pos : ℕ → ℤ
  negsuc : ℕ → ℤ

unfoldable pub le_int : ℤ → ℤ → Bool
le_int (pos a) (pos b) = leb a b
le_int (pos a) (negsuc b) = false
le_int (negsuc a) (pos b) = true
le_int (negsuc a) (negsuc b) = leb b a

unfoldable pub lt_int : ℤ → ℤ → Bool
lt_int (pos a) (pos b) = ltb a b
lt_int (pos a) (negsuc b) = false
lt_int (negsuc a) (pos b) = true
lt_int (negsuc a) (negsuc b) = ltb b a

unfoldable pub eq_int : ℤ → ℤ → Bool
eq_int (pos a) (pos b) = a == b
eq_int (pos a) (negsuc b) = false
eq_int (negsuc a) (pos b) = false
eq_int (negsuc a) (negsuc b) = a == b

abbrev pub i64_min : ℤ
i64_min = negsuc (2 ^ 63 - 1)

neg_int : ℤ → ℤ
neg_int (pos zero) = pos zero
neg_int (pos (suc n)) = negsuc n
neg_int (negsuc n) = pos (suc n)

-- `-x` of a release build: the least value has no opposite and stays.
unfoldable pub neg_i64 : ℤ → ℤ
unfolding neg_int eq_int
neg_i64 x = if eq_int x i64_min then x else neg_int x

pub le_int_refl : (a : ℤ) → le_int a a ≡ true
unfolding le_int
le_int_refl (pos a) = ground arith
le_int_refl (negsuc a) = ground arith

pub le_int_trans : (a b c : ℤ) → le_int a b ≡ true → le_int b c ≡ true → le_int a c ≡ true
unfolding le_int
le_int_trans (pos a) (pos b) (pos c) p q = ground arith
le_int_trans (pos a) (pos b) (negsuc c) p q = ground arith
le_int_trans (pos a) (negsuc b) c p q = ground arith
le_int_trans (negsuc a) (pos b) (pos c) p q = ground arith
le_int_trans (negsuc a) (pos b) (negsuc c) p q = ground arith
le_int_trans (negsuc a) (negsuc b) (pos c) p q = ground arith
le_int_trans (negsuc a) (negsuc b) (negsuc c) p q = ground arith

-- The strict order is the negation of the converse.
pub le_int-eq_false : (a b : ℤ) → le_int a b ≡ false → lt_int b a ≡ true
unfolding le_int lt_int
le_int-eq_false (pos a) (pos b) p = ground arith
le_int-eq_false (pos a) (negsuc b) p = ground arith
le_int-eq_false (negsuc a) (pos b) p = ground arith
le_int-eq_false (negsuc a) (negsuc b) p = ground arith

pub lt_int-eq_false : (a b : ℤ) → lt_int a b ≡ false → le_int b a ≡ true
unfolding le_int lt_int
lt_int-eq_false (pos a) (pos b) p = ground arith
lt_int-eq_false (pos a) (negsuc b) p = ground arith
lt_int-eq_false (negsuc a) (pos b) p = ground arith
lt_int-eq_false (negsuc a) (negsuc b) p = ground arith

pub le_int_antisymm : (a b : ℤ) → le_int a b ≡ true → le_int b a ≡ true → a ≡ b
unfolding le_int
le_int_antisymm (pos a) (pos b) p q = ground arith
le_int_antisymm (pos a) (negsuc b) p q = ground arith
le_int_antisymm (negsuc a) (pos b) p q = ground arith
le_int_antisymm (negsuc a) (negsuc b) p q = ground arith

pub eq_int_sound : (a b : ℤ) → eq_int a b ≡ true → a ≡ b
unfolding eq_int
eq_int_sound (pos a) (pos b) p = ground arith
eq_int_sound (pos a) (negsuc b) p = ground arith
eq_int_sound (negsuc a) (pos b) p = ground arith
eq_int_sound (negsuc a) (negsuc b) p = ground arith

pub eq_int_refl : (a : ℤ) → eq_int a a ≡ true
unfolding eq_int
eq_int_refl (pos a) = ground arith
eq_int_refl (negsuc a) = ground arith
