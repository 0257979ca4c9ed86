-- ===== src/Base/Int.antt =====
-- Signed machine integers, by their values.
use Prim.Native.Nat.{ℕ, zero, suc, ◌-◌}
use mathlib.Core.Path.{◌≡◌, refl, ap}
use mathlib.Core.Bool.{Bool, true, false}
use native.Mathlib.Omega.{arith}
use anymone.Base.Tests.{ltb, eqb, eqb_iff}
use mathlib.Core.Option.{Option, none, some}

-- `negsuc n` is -(n + 1).
pub data ℤ : Type 0 where
  pos : ℕ → ℤ
  negsuc : ℕ → ℤ

-- `u64::try_from(x).ok()` on an i64
abbrev pub to_unsigned : ℤ → Option ℕ
to_unsigned (pos n) = some n
to_unsigned (negsuc n) = none

-- `x as u64`
abbrev pub as_unsigned : ℤ → ℕ
as_unsigned (pos n) = n
as_unsigned (negsuc n) = 18446744073709551615 - n

-- `<`, `==` and `x - 1` on an i64, away from the least one
abbrev pub ltz : ℤ → ℤ → Bool
ltz (pos a) (pos b) = ltb a b
ltz (pos a) (negsuc b) = false
ltz (negsuc a) (pos b) = true
ltz (negsuc a) (negsuc b) = ltb b a

abbrev pub eqz : ℤ → ℤ → Bool
eqz (pos a) (pos b) = eqb a b
eqz (pos a) (negsuc b) = false
eqz (negsuc a) (pos b) = false
eqz (negsuc a) (negsuc b) = eqb a b

abbrev pub pred : ℤ → ℤ
pred (pos zero) = negsuc 0
pred (pos (suc n)) = pos n
pred (negsuc n) = negsuc (suc n)

pub eqz-eq : (x y : ℤ) → eqz x y ≡ true → x ≡ y
eqz-eq (pos a) (pos b) h = ap pos ((eqb_iff a b).0 h)
eqz-eq (pos a) (negsuc b) h = cc
eqz-eq (negsuc a) (pos b) h = cc
eqz-eq (negsuc a) (negsuc b) h = ap negsuc ((eqb_iff a b).0 h)

pub eqz_refl : (x : ℤ) → eqz x x ≡ true
eqz_refl (pos a) = (eqb_iff a a).1 refl
eqz_refl (negsuc a) = (eqb_iff a a).1 refl

-- `x ≤ y`, as `y < x` failing.
pub ltz_trans_le : (x y z : ℤ) → ltz x y ≡ true → ltz z y ≡ false → ltz x z ≡ true
ltz_trans_le (pos a) (pos b) (pos c) h k = ground arith
ltz_trans_le (pos a) (pos b) (negsuc c) h k = cc
ltz_trans_le (pos a) (negsuc b) z h k = cc
ltz_trans_le (negsuc a) (pos b) (pos c) h k = refl
ltz_trans_le (negsuc a) (pos b) (negsuc c) h k = cc
ltz_trans_le (negsuc a) (negsuc b) (pos c) h k = refl
ltz_trans_le (negsuc a) (negsuc b) (negsuc c) h k = ground arith

pub le_transz : (x y z : ℤ) → ltz y x ≡ false → ltz z y ≡ false → ltz z x ≡ false
le_transz (pos a) (pos b) (pos c) h k = ground arith
le_transz (pos a) (pos b) (negsuc c) h k = cc
le_transz (pos a) (negsuc b) z h k = cc
le_transz (negsuc a) (pos b) (pos c) h k = refl
le_transz (negsuc a) (pos b) (negsuc c) h k = cc
le_transz (negsuc a) (negsuc b) (pos c) h k = refl
le_transz (negsuc a) (negsuc b) (negsuc c) h k = ground arith

-- What is not below and not equal is above.
pub gt_of : (x y : ℤ) → ltz y x ≡ false → eqz x y ≡ false → ltz x y ≡ true
gt_of (pos a) (pos b) h k = ground arith
gt_of (pos a) (negsuc b) h k = cc
gt_of (negsuc a) (pos b) h k = refl
gt_of (negsuc a) (negsuc b) h k = ground arith

pub ltz_trans : (x y z : ℤ) → ltz x y ≡ true → ltz y z ≡ true → ltz x z ≡ true
ltz_trans (pos a) (pos b) (pos c) h k = ground arith
ltz_trans (pos a) (pos b) (negsuc c) h k = cc
ltz_trans (pos a) (negsuc b) z h k = cc
ltz_trans (negsuc a) y (pos c) h k = refl
ltz_trans (negsuc a) (pos b) (negsuc c) h k = cc
ltz_trans (negsuc a) (negsuc b) (negsuc c) h k = ground arith

pub ltz_irrefl : (x : ℤ) → ltz x x ≡ false
ltz_irrefl (pos a) = ground arith
ltz_irrefl (negsuc a) = ground arith
