-- ===== src/Limiter/Filling.antt =====
-- The bounds of the token bucket, for any numbers that round as doubles do.
use testovoe_bazis.Common.{
  ℕ, ◌<◌, ◌^◌, ◌≡◌, sym, subst, inl, inr, true, Bool-cases, Option, none, some, ltb, arith,
}
use testovoe_bazis.Limiter.{
  Bucket, live_bucket, stored_tokens, stored_ts, Arguments, refilled, is_allowed, tokens_left,
  run_script, arguments,
}
use testovoe_bazis.Limiter.Numbers.{LuaNumber, IsRounded}

module _ {u} {N : Type u} (number : LuaNumber N) (law : IsRounded number) (limit : ℕ)
    (small : limit < 2 ^ 53) where
  open number use {le, of_nat, add, mul, sub, least, greatest}

  -- A stored bucket holds between 0 and `limit` tokens.
  abbrev pub IsFilled : Option (Bucket N) → Type 0
  IsFilled none = Unit
  IsFilled (some b) = (le (of_nat 0) b.tokens ≡ true) × (le b.tokens (of_nat limit) ≡ true)

  abbrev a : Arguments number
  a = arguments number limit

  zero_le : (n : ℕ) → n < 2 ^ 53 → le (of_nat 0) (of_nat n) ≡ true
  zero_le n h = law.of_nat_mono 0 n (omega arith) h

  live_bucket-IsFilled :
      (clock : ℕ) (b : Option (Bucket N)) → IsFilled b → IsFilled (live_bucket number clock b)
  unfolding live_bucket
  live_bucket-IsFilled clock none h = tt
  live_bucket-IsFilled clock (some b) h = elim (Bool-cases (ltb clock b.expires)) [
    | inl live ↦ rw live h
    | inr gone ↦ rw gone tt
  ]

  stored_tokens-pos :
      (b : Option (Bucket N))
      → IsFilled b
      → le (of_nat 0) (stored_tokens number (of_nat limit) b) ≡ true
  unfolding stored_tokens
  stored_tokens-pos none h = zero_le limit small
  stored_tokens-pos (some b) h = h.0

  refilled-pos :
      (now : N) (b : Option (Bucket N))
      → IsFilled b
      → le (of_nat 0) (refilled number a now b) ≡ true
  unfolding refilled arguments
  refilled-pos now b h =
      let elapsed = greatest (of_nat 0) (sub now (stored_ts number now b)) in
      let refill = number.div (of_nat limit) (of_nat 60) in
      let filled = add (stored_tokens number (of_nat limit) b) (mul elapsed refill) in
      let more = law.add_pos _ _ (stored_tokens-pos b h) (
        law.mul_pos elapsed refill (law.greatest_ge _ _)
          (law.div_pos (of_nat limit) 59 (zero_le limit small))) in
      elim (law.least_eq (of_nat limit) filled) [
        | inl full ↦ subst (λ x. le (of_nat 0) x ≡ true) (sym full) (zero_le limit small)
        | inr rest ↦ subst (λ x. le (of_nat 0) x ≡ true) (sym rest) more
      ]

  refilled-le :
      (now : N) (b : Option (Bucket N)) → le (refilled number a now b) (of_nat limit) ≡ true
  unfolding refilled arguments
  refilled-le now b = law.least_le _ _

  tokens_left-IsFilled :
      (now : N) (b : Option (Bucket N))
      → IsFilled b
      → (le (of_nat 0) (tokens_left number a now b) ≡ true)
        × (le (tokens_left number a now b) (of_nat limit) ≡ true)
  unfolding tokens_left is_allowed arguments
  tokens_left-IsFilled now b h = elim (Bool-cases (le (of_nat 1) (refilled number a now b))) [
    | inl allowed ↦ rw allowed (
      law.sub_pos _ _ allowed,
      law.le_trans _ _ _ (law.sub_le _ _ (zero_le 1 (omega arith))) (refilled-le now b),
    )
    | inr refused ↦ rw refused (refilled-pos now b h, refilled-le now b)
  ]

  -- Whenever the script is run, and whatever time the server gives, a bucket that held between 0 and
  -- `limit` tokens still does.
  pub run_script-IsFilled :
      (seconds : N → ℕ) (now : N) (clock : ℕ) (b : Option (Bucket N))
      → IsFilled b
      → IsFilled (run_script number (arguments number limit) now seconds clock b).1
  unfolding run_script
  run_script-IsFilled seconds now clock b h =
      tokens_left-IsFilled now (live_bucket number clock b) (live_bucket-IsFilled clock b h)
