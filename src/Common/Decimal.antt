-- ===== src/Common/Decimal.antt =====
-- `strconv.FormatInt(v, 10)`, and its inverse on what it prints.
use Prim.Native.Nat.{ℕ, zero, suc, ◌^◌, ◌+◌, ◌*◌, ◌/◌, ◌%◌, ◌-◌, ◌≤◌, ◌<◌}
use mathlib.Core.Path.{◌≡◌, refl, sym, ◌∙◌, ap}
use mathlib.Core.Logic.{inl, inr}
use mathlib.Core.Bool.{true}
use mathlib.Core.List.{[], ◌∷◌}
use native.Mathlib.Omega.{arith}
use testovoe_bazis.Common.Tests.{ltb, leb, Bool-cases, if◌then◌else◌}
use native.Mathlib.Nat.{pow-suc}
use testovoe_bazis.Common.Lists.{length}
use testovoe_bazis.Common.Int.{ℤ, pos, negsuc, pos_part, neg_part}
use testovoe_bazis.Common.Texts.{Text}

-- The digits of `n` in front of `rest`; `n + 1` rounds are enough.
digits_onto : ℕ → ℕ → Text → Text
digits_onto zero n rest = rest
digits_onto (suc fuel) n rest =
    let more = digits_onto fuel (n / 10) ((b'0' + n % 10) ∷ rest) in
    if ltb n 10 then (b'0' + n) ∷ rest else more

unfoldable pub format_int : ℤ → Text
unfolding digits_onto
format_int (pos n) = digits_onto (suc n) n []
format_int (negsuc n) = b'-' ∷ digits_onto (suc (suc n)) (suc n) []

-- The number that a run of digits denotes, after digits worth `acc`.
abbrev pub read_digits : ℕ → Text → ℕ
read_digits acc [] = acc
read_digits acc (c ∷ s) = read_digits (acc * 10 + (c - b'0')) s

read_digits-digits_onto :
    (fuel n : ℕ) (rest : Text)
    → n < fuel
    → read_digits 0 (digits_onto fuel n rest) ≡ read_digits n rest
unfolding digits_onto
read_digits-digits_onto zero n rest h = elim h [ ]
read_digits-digits_onto (suc fuel) n rest h = elim (Bool-cases (ltb n 10)) [
  | inl small ↦ rw small (ap (λ k. read_digits k rest) (omega arith))
  | inr large ↦ rw large (
      read_digits-digits_onto fuel (n / 10) ((b'0' + n % 10) ∷ rest) (ground arith)
      ∙ ap (λ k. read_digits k rest) (omega arith))
]

-- The first character is a digit, so never the minus sign.
abbrev StartsDigit : Text → Type 0
StartsDigit [] = Unit
StartsDigit (c ∷ _) = b'0' ≤ c

digits_onto-StartsDigit :
    (fuel n : ℕ) (rest : Text) → StartsDigit rest → StartsDigit (digits_onto fuel n rest)
unfolding digits_onto
digits_onto-StartsDigit zero n rest h = h
digits_onto-StartsDigit (suc fuel) n rest h = elim (Bool-cases (ltb n 10)) [
  | inl small ↦ rw small (omega arith)
  | inr large ↦
      rw large (digits_onto-StartsDigit fuel (n / 10) ((b'0' + n % 10) ∷ rest) (omega arith))
]

abbrev pub read_int : Text → ℤ
read_int [] = pos 0
read_int (c ∷ s) = if leb b'0' c then pos (read_digits 0 (c ∷ s)) else negsuc (read_digits 0 s - 1)

read_int_digits : (s : Text) → StartsDigit s → read_int s ≡ pos (read_digits 0 s)
read_int_digits [] h = refl
read_int_digits (c ∷ s) h = ground arith

pub read_int-format_int : (v : ℤ) → read_int (format_int v) ≡ v
unfolding format_int
read_int-format_int (pos n) =
    read_int_digits (digits_onto (suc n) n []) (digits_onto-StartsDigit (suc n) n [] tt)
    ∙ ap pos (read_digits-digits_onto (suc n) n [] (omega arith))
read_int-format_int (negsuc n) =
    ap (λ k. negsuc (k - 1)) (read_digits-digits_onto (suc (suc n)) (suc n) [] (omega arith))
    ∙ ap negsuc (omega arith)

-- Two integers that are printed alike are equal.
pub format_int_injective : (a b : ℤ) → format_int a ≡ format_int b → a ≡ b
format_int_injective a b h = sym (read_int-format_int a) ∙ ap read_int h ∙ read_int-format_int b

-- A number of at most `k + 1` digits is printed in at most that many characters.
length-digits_onto :
    (fuel k n : ℕ) (rest : Text)
    → n < 10 ^ suc k
    → length (digits_onto fuel n rest) ≤ suc k + length rest
unfolding digits_onto
length-digits_onto zero k n rest h = omega arith
length-digits_onto (suc fuel) zero n rest h =
    let small : ltb n 10 ≡ true = ground arith in rw small (omega arith)
length-digits_onto (suc fuel) (suc k) n rest h = elim (Bool-cases (ltb n 10)) [
  | inl small ↦ rw small (omega arith)
  | inr large ↦
      let less : n / 10 < 10 ^ suc k = omega (arith, pow-suc 10 (suc k)) in
      rw large (omega (arith, length-digits_onto fuel k (n / 10) ((b'0' + n % 10) ∷ rest) less))
]

-- The magnitude of a 64-bit integer.
abbrev pub Is64 : ℤ → Type 0
Is64 v = (pos_part v < 2 ^ 63) × (neg_part v ≤ 2 ^ 63)

pub length-format_int : (v : ℤ) → Is64 v → length (format_int v) ≤ 20
unfolding format_int
length-format_int (pos n) h = omega (arith, length-digits_onto (suc n) 18 n [] (omega (arith, h)))
length-format_int (negsuc n) h =
    omega (arith, length-digits_onto (suc (suc n)) 18 (suc n) [] (omega (arith, h)))

-- A run of decimal digits.
abbrev pub AreDigits : Text → Type 0
AreDigits [] = Unit
AreDigits (c ∷ s) = (b'0' ≤ c) × (c ≤ b'9') × AreDigits s

digits_onto-AreDigits :
    (fuel n : ℕ) (rest : Text) → AreDigits rest → AreDigits (digits_onto fuel n rest)
unfolding digits_onto
digits_onto-AreDigits zero n rest h = h
digits_onto-AreDigits (suc fuel) n rest h = elim (Bool-cases (ltb n 10)) [
  | inl small ↦ rw small (omega arith, ground arith, h)
  | inr large ↦
      rw large
        (digits_onto-AreDigits fuel (n / 10) ((b'0' + n % 10) ∷ rest) (omega arith, omega arith, h))
]

digits_onto-grows : (fuel n : ℕ) (rest : Text) → length rest ≤ length (digits_onto fuel n rest)
unfolding digits_onto
digits_onto-grows zero n rest = omega arith
digits_onto-grows (suc fuel) n rest = elim (Bool-cases (ltb n 10)) [
  | inl small ↦ rw small (omega arith)
  | inr large ↦ rw large (omega (arith, digits_onto-grows fuel (n / 10) ((b'0' + n % 10) ∷ rest)))
]

digits_onto-pos : (fuel n : ℕ) (rest : Text) → 1 ≤ length (digits_onto (suc fuel) n rest)
unfolding digits_onto
digits_onto-pos fuel n rest = elim (Bool-cases (ltb n 10)) [
  | inl small ↦ rw small (omega arith)
  | inr large ↦ rw large (omega (arith, digits_onto-grows fuel (n / 10) ((b'0' + n % 10) ∷ rest)))
]

-- A decimal form of `n`.
pub record IsDecimal (n : ℕ) (s : Text) : Type 0 where
  pub are_digits : AreDigits s
  pub nonempty : 1 ≤ length s
  pub number : read_digits 0 s ≡ n

digits-IsDecimal : (n : ℕ) → IsDecimal n (digits_onto (suc n) n [])
digits-IsDecimal n = record {
  are_digits = digits_onto-AreDigits (suc n) n [] tt;
  nonempty = digits_onto-pos n n [];
  number = read_digits-digits_onto (suc n) n [] (omega arith);
}

pub format_int_pos-IsDecimal : (n : ℕ) → IsDecimal n (format_int (pos n))
unfolding format_int
format_int_pos-IsDecimal n = digits-IsDecimal n

pub format_int_negsuc-IsDecimal :
    (n : ℕ) → (s : Text) × (format_int (negsuc n) ≡ b'-' ∷ s) × IsDecimal (suc n) s
unfolding format_int
format_int_negsuc-IsDecimal n =
    (digits_onto (suc (suc n)) (suc n) [], refl, digits-IsDecimal (suc n))
