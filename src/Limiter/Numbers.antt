-- ===== src/Limiter/Numbers.antt =====
-- The numbers of Lua, IEEE doubles, as far as the script of the limiter goes: what it computes
-- with, and the laws of rounded arithmetic that its bounds rest on.
use testovoe_bazis.Common.{
  ℕ, suc, ◌+◌, ◌-◌, ◌*◌, ◌/◌, ◌≤◌, ◌<◌, ◌^◌, ◌≡◌, ◌⊎◌, true, false, Bool, leb, arith, if◌then◌else◌,
}

pub record LuaNumber {u} (N : Type u) : Type u where
  pub add : N → N → N
  pub sub : N → N → N
  pub mul : N → N → N
  pub div : N → N → N
  pub least : N → N → N
  pub greatest : N → N → N
  pub le : N → N → Bool
  pub of_nat : ℕ → N

-- True of doubles while they are finite, with the two zeros as one: `math.min` and `math.max`
-- choose by the order; rounding keeps the order and the sign; and whole numbers below 2 ^ 53 are
-- exact.
pub record IsRounded {u} {N : Type u} (number : LuaNumber N) : Type u where
  pub le_trans : (x y z : N) → number.le x y ≡ true → number.le y z ≡ true → number.le x z ≡ true
  pub least_le : (x y : N) → number.le (number.least x y) x ≡ true
  pub least_le_right : (x y : N) → number.le (number.least x y) y ≡ true
  pub least_of_ge : (x y : N) → number.le y x ≡ true → number.least x y ≡ y
  pub least_eq : (x y : N) → (number.least x y ≡ x) ⊎ (number.least x y ≡ y)
  pub greatest_ge : (x y : N) → number.le x (number.greatest x y) ≡ true
  pub greatest_same : (x : N) → number.greatest x x ≡ x
  pub sub_self : (x : N) → number.sub x x ≡ number.of_nat 0
  pub sub_mono :
      (x y z : N) → number.le x y ≡ true → number.le (number.sub x z) (number.sub y z) ≡ true
  pub sub_pos :
      (x y : N) → number.le y x ≡ true → number.le (number.of_nat 0) (number.sub x y) ≡ true
  pub sub_le :
      (x y : N) → number.le (number.of_nat 0) y ≡ true → number.le (number.sub x y) x ≡ true
  pub add_zero : (x : N) → number.add x (number.of_nat 0) ≡ x
  pub add_pos :
      (x y : N)
      → number.le (number.of_nat 0) x ≡ true
      → number.le (number.of_nat 0) y ≡ true
      → number.le (number.of_nat 0) (number.add x y) ≡ true
  pub mul_pos :
      (x y : N)
      → number.le (number.of_nat 0) x ≡ true
      → number.le (number.of_nat 0) y ≡ true
      → number.le (number.of_nat 0) (number.mul x y) ≡ true
  pub zero_mul : (y : N) → number.mul (number.of_nat 0) y ≡ number.of_nat 0
  pub div_pos :
      (x : N) (n : ℕ)
      → number.le (number.of_nat 0) x ≡ true
      → number.le (number.of_nat 0) (number.div x (number.of_nat (suc n))) ≡ true
  pub of_nat_mono :
      (m n : ℕ) → m ≤ n → n < 2 ^ 53 → number.le (number.of_nat m) (number.of_nat n) ≡ true
  pub of_nat_strict :
      (m n : ℕ) → m < n → n < 2 ^ 53 → number.le (number.of_nat n) (number.of_nat m) ≡ false
  pub of_nat_sub_one :
      (n : ℕ)
      → suc n < 2 ^ 53
      → number.sub (number.of_nat (suc n)) (number.of_nat 1) ≡ number.of_nat n

-- The laws can be met: whole numbers, whose differences stop at 0.
abbrev pub whole : LuaNumber ℕ
whole = record {
  add = λ a b. a + b;
  sub = λ a b. a - b;
  mul = λ a b. a * b;
  div = λ a b. a / b;
  least = λ a b. if leb a b then a else b;
  greatest = λ a b. if leb b a then a else b;
  le = leb;
  of_nat = λ n. n;
}

pub whole-IsRounded : IsRounded whole
whole-IsRounded = record {
  le_trans = λ x y z h k. ground arith;
  least_le = λ x y. ground arith;
  least_le_right = λ x y. ground arith;
  least_of_ge = λ x y h. ground arith;
  least_eq = λ x y. ground arith;
  greatest_ge = λ x y. ground arith;
  greatest_same = λ x. ground arith;
  sub_self = λ x. ground arith;
  sub_mono = λ x y z h. ground arith;
  sub_pos = λ x y h. ground arith;
  sub_le = λ x y h. ground arith;
  add_zero = λ x. omega arith;
  add_pos = λ x y h k. ground arith;
  mul_pos = λ x y h k. ground arith;
  zero_mul = λ y. omega arith;
  div_pos = λ x n h. ground arith;
  of_nat_mono = λ m n h k. ground arith;
  of_nat_strict = λ m n h k. ground arith;
  of_nat_sub_one = λ n h. omega arith;
}
