-- ===== src/Base/Int.antt =====
-- Go's int64: the values -2^63 .. 2^63 - 1 as integers over the native numbers.
use Prim.Native.Nat.{ℕ, zero, suc, ◌+◌, ◌-◌, ◌^◌}
use mathlib.Core.Path.{◌≡◌, refl}
use mathlib.Core.Logic.{◌↔◌}
use mathlib.Core.Bool.{Bool, true, false}
use native.Mathlib.Omega.{arith}
use go_broker.Base.Tests.{ltb, ◌==◌, if◌then◌else◌}

-- `negsuc n` is -(n + 1).
pub data ℤ : Type 0 where
  pos : ℕ → ℤ
  negsuc : ℕ → ℤ

abbrev pub int_eq : ℤ → ℤ → Bool
int_eq (pos a) (pos b) = a == b
int_eq (negsuc a) (negsuc b) = a == b
int_eq _ _ = false

abbrev pub int_lt : ℤ → ℤ → Bool
int_lt (pos a) (pos b) = ltb a b
int_lt (pos a) (negsuc b) = false
int_lt (negsuc a) (pos b) = true
int_lt (negsuc a) (negsuc b) = ltb b a

pub int_eq_iff : (a b : ℤ) → (int_eq a b ≡ true) ↔ (a ≡ b)
int_eq_iff a b = ground arith

pub int_lt_irrefl : (a : ℤ) → int_lt a a ≡ false
int_lt_irrefl a = ground arith

pub int_lt_trans : (a b c : ℤ) → int_lt a b ≡ true → int_lt b c ≡ true → int_lt a c ≡ true
int_lt_trans a b c h k = ground arith

abbrev pub max_int64 : ℕ
max_int64 = 2 ^ 63 - 1

-- x + 1 on int64, which wraps at the largest value.
unfoldable pub int64_succ : ℤ → ℤ
int64_succ (pos n) = if ltb n max_int64 then pos (n + 1) else negsuc max_int64
int64_succ (negsuc zero) = pos 0
int64_succ (negsuc (suc n)) = negsuc n

-- A value of int64 below the largest grows by a step.
pub int_lt-int64_succ : (e : ℤ) → int_lt e (pos max_int64) ≡ true → int_lt e (int64_succ e) ≡ true
unfolding int64_succ
int_lt-int64_succ (pos n) h = ground arith
int_lt-int64_succ (negsuc zero) h = refl
int_lt-int64_succ (negsuc (suc n)) h = ground arith
