-- ===== src/Http/Numbers.antt =====
-- The numbers of a path and of a query: what is accepted, and that what the service prints is read
-- back.
use testovoe_bazis.Common.{
  ℕ, zero, suc, ◌≡◌, ◌<◌, ◌*◌, ◌+◌, ◌-◌, ◌^◌, refl, ap, ◌∙◌, inl, inr, true, Option, some, none, [],
  ◌∷◌, ℤ, pos, negsuc, ltb, leb, nat_beq, Bool-cases, Option-cases, subst, arith, Text, format_int,
  read_digits, AreDigits, IsDecimal, Is64, format_int_pos-IsDecimal, format_int_negsuc-IsDecimal,
  ok, ◌≤ℤ◌, pos_part,
}
use testovoe_bazis.Http.{parse_digits, parse_nat, parse_int, path_id, as_pos, as_neg}

parse_digits_lem :
    (acc : ℕ) (s : Text) → AreDigits s → parse_digits acc s ≡ some (read_digits acc s)
unfolding parse_digits
parse_digits_lem acc [] h = refl
parse_digits_lem acc (c ∷ s) (low, high, h) =
    let from : leb b'0' c ≡ true = ground arith in
    let to : leb c b'9' ≡ true = ground arith in
    rw (from, to) (parse_digits_lem (acc * 10 + (c - b'0')) s h)

parse_nat_lem : (n : ℕ) (s : Text) → IsDecimal n s → parse_nat s ≡ some n
parse_nat_lem n [] h = absurd (omega (arith, h.nonempty))
parse_nat_lem n (c ∷ s) h = parse_digits_lem 0 (c ∷ s) h.are_digits ∙ ap some h.number

parse_int_unsigned : (n : ℕ) (s : Text) → IsDecimal n s → parse_int s ≡ as_pos (some n)
unfolding parse_int
parse_int_unsigned n [] h = absurd (omega (arith, h.nonempty))
parse_int_unsigned n (c ∷ s) h =
    let digit = h.are_digits.0 in
    let first : parse_int (c ∷ s) ≡ as_pos (parse_nat (c ∷ s)) = ground arith in
    first ∙ ap as_pos (parse_nat_lem n (c ∷ s) h)

parse_int_signed : (s : Text) → parse_int (b'-' ∷ s) ≡ as_neg (parse_nat s)
unfolding parse_int
parse_int_signed s = refl

-- Every 64-bit integer is read back from its decimal form.
pub parse_int-format_int : (v : ℤ) → Is64 v → parse_int (format_int v) ≡ some v
parse_int-format_int (pos n) h =
    let small : ltb n (2 ^ 63) ≡ true = ground arith in
    parse_int_unsigned n (format_int (pos n)) (format_int_pos-IsDecimal n) ∙ rw small refl
parse_int-format_int (negsuc n) h =
    let small : leb (suc n) (2 ^ 63) ≡ true = ground arith in
    let (s, printed, d) = format_int_negsuc-IsDecimal n in
    ap parse_int printed
    ∙ parse_int_signed s
    ∙ ap as_neg (parse_nat_lem (suc n) s d)
    ∙ rw small refl

as_pos-bound : (o : Option ℕ) (v : ℤ) → as_pos o ≡ some v → pos_part v < 2 ^ 63
as_pos-bound none v h = absurd (ground arith)
as_pos-bound (some n) v h = ground arith

as_neg-bound : (o : Option ℕ) (v : ℤ) → as_neg o ≡ some v → pos_part v < 2 ^ 63
as_neg-bound none v h = absurd (ground arith)
as_neg-bound (some zero) v h = ground arith
as_neg-bound (some (suc n)) v h = ground arith

parse_int-bound : (s : Text) (v : ℤ) → parse_int s ≡ some v → pos_part v < 2 ^ 63
unfolding parse_int
parse_int-bound [] v h = absurd (ground arith)
parse_int-bound (c ∷ s) v h = elim (Bool-cases (nat_beq c b'-')) [
  | inl minus ↦ as_neg-bound (parse_nat s) v (ground arith)
  | inr unsigned ↦ elim (Bool-cases (nat_beq c b'+')) [
    | inl plus ↦ as_pos-bound (parse_nat s) v (ground arith)
    | inr digit ↦ as_pos-bound (parse_nat (c ∷ s)) v (ground arith)
  ]
]

-- An id that is accepted in a path is positive and below 2 ^ 63, whatever the path holds.
pub path_id-bounds :
    (raw : Text) (id : ℤ) → path_id raw ≡ ok id → (pos 1 ≤ℤ id) × (pos_part id < 2 ^ 63)
unfolding path_id
path_id-bounds raw id h = elim (Option-cases (parse_int raw)) [
  | inl bad ↦ absurd (ground arith)
  | inr (v, good) ↦
      let same : v ≡ id = ground arith in
      let bound = parse_int-bound raw v good in
      (ground arith, subst (λ (u : ℤ). pos_part u < 2 ^ 63) same bound)
]
