-- ===== src/Limiter/Bursts.antt =====
-- Requests for one key that come at one instant: at most as many pass as the bucket holds tokens.
use testovoe_bazis.Common.{
  ℕ, zero, suc, ◌+◌, ◌≤◌, ◌<◌, ◌^◌, ◌≡◌, refl, sym, ap, subst, ◌∙◌, inl, inr, true, false,
  Bool-cases, Option, none, some, ltb, leb, arith,
}
use testovoe_bazis.Limiter.{
  Bucket, live_bucket, stored_tokens, stored_ts, Arguments, refilled, is_allowed, tokens_left,
  run_script, arguments, burst, count_allowed,
}
use testovoe_bazis.Limiter.Numbers.{LuaNumber, IsRounded}

module _ {u} {N : Type u} (number : LuaNumber N) (law : IsRounded number) (limit : ℕ)
    (small : limit < 2 ^ 53) (seconds : N → ℕ) (clock : ℕ) (now : N) where
  open number use {le, of_nat, add, mul, sub, least, greatest}

  abbrev a : Arguments number
  a = arguments number limit

  abbrev stored : N → Bucket N
  stored tokens = record {
    tokens = tokens;
    ts = now;
    expires = clock + (seconds (number.div a.capacity a.refill) + 10);
  }

  -- What the script left at this instant is live, and has not been refilled since.
  still_live : (tokens : N) → live_bucket number clock (some (stored tokens)) ≡ some (stored tokens)
  unfolding live_bucket
  still_live tokens =
      let live : ltb clock (stored tokens).expires ≡ true = ground arith in rw live refl

  not_refilled :
      (tokens : N) → refilled number a now (some (stored tokens)) ≡ least (of_nat limit) tokens
  unfolding refilled arguments stored_tokens stored_ts
  not_refilled tokens =
      let refill = number.div (of_nat limit) (of_nat 60) in
      ap (λ e. least (of_nat limit) (add tokens (mul e refill)))
        (ap (λ d. greatest (of_nat 0) d) (law.sub_self now) ∙ law.greatest_same (of_nat 0))
      ∙ ap (λ m. least (of_nat limit) (add tokens m)) (law.zero_mul refill)
      ∙ ap (λ t. least (of_nat limit) t) (law.add_zero tokens)

  abbrev tokens_in : Option (Bucket N) → N
  tokens_in b = refilled number a now (live_bucket number clock b)

  next_tokens : (tokens : N) → tokens_in (some (stored tokens)) ≡ least (of_nat limit) tokens
  next_tokens tokens = ap (refilled number a now) (still_live tokens) ∙ not_refilled tokens

  not_less : (m n : ℕ) → n < 2 ^ 53 → le (of_nat n) (of_nat m) ≡ true → n ≤ m
  not_less m n h k = elim (Bool-cases (leb n m)) [
    | inl within ↦ ground arith
    | inr beyond ↦ absurd (ground (arith, law.of_nat_strict m n (ground arith) h))
  ]

  one_le : (k : ℕ) → suc k < 2 ^ 53 → le (of_nat 1) (of_nat (suc k)) ≡ true
  one_le k h = law.of_nat_mono 1 (suc k) (omega arith) h

  burst_refused :
      (n : ℕ) (b : Option (Bucket N))
      → le (of_nat 1) (tokens_in b) ≡ false
      → count_allowed (burst number seconds clock now a (suc n) b).0
        ≡ count_allowed (burst number seconds clock now a n (some (stored (tokens_in b)))).0
  unfolding burst run_script is_allowed tokens_left arguments
  burst_refused n b h = rw h (omega arith)

  burst_allowed :
      (n : ℕ) (b : Option (Bucket N))
      → le (of_nat 1) (tokens_in b) ≡ true
      → count_allowed (burst number seconds clock now a (suc n) b).0
        ≡ suc (
            count_allowed
              (burst number seconds clock now a n (some (stored (sub (tokens_in b) (of_nat 1))))).0)
  unfolding burst run_script is_allowed tokens_left arguments
  burst_allowed n b h = rw h (omega arith)

  next-le :
      (tokens : N) (k : ℕ)
      → le tokens (of_nat k) ≡ true
      → le (tokens_in (some (stored tokens))) (of_nat k) ≡ true
  next-le tokens k h =
      subst (λ x. le x (of_nat k) ≡ true) (sym (next_tokens tokens))
        (law.le_trans _ _ _ (law.least_le_right (of_nat limit) tokens) h)

  taken-le :
      (tokens : N) (k : ℕ)
      → suc k < 2 ^ 53
      → le tokens (of_nat (suc k)) ≡ true
      → le (sub tokens (of_nat 1)) (of_nat k) ≡ true
  taken-le tokens k h few =
      subst (λ x. le (sub tokens (of_nat 1)) x ≡ true) (law.of_nat_sub_one k h)
        (law.sub_mono tokens (of_nat (suc k)) (of_nat 1) few)

  burst-le :
      (n k : ℕ) (b : Option (Bucket N))
      → k < 2 ^ 53
      → le (tokens_in b) (of_nat k) ≡ true
      → count_allowed (burst number seconds clock now a n b).0 ≤ k
  burst-le zero k b h few = unfold burst in omega arith
  burst-le (suc n) zero b h few =
      let refused : le (of_nat 1) (tokens_in b) ≡ false =
        elim (Bool-cases (le (of_nat 1) (tokens_in b))) [
          | inl more ↦
              absurd (omega (arith, not_less 0 1 (omega arith) (law.le_trans _ _ _ more few)))
          | inr none_left ↦ none_left
        ] in
      omega (
        arith,
        burst_refused n b refused,
        burst-le n zero (some (stored (tokens_in b))) h (next-le _ zero few),
      )
  burst-le (suc n) (suc k) b h few = elim (Bool-cases (le (of_nat 1) (tokens_in b))) [
    | inl allowed ↦
        let left = sub (tokens_in b) (of_nat 1) in
        let kept = next-le left k (taken-le (tokens_in b) k h few) in
        omega
          (arith, burst_allowed n b allowed, burst-le n k (some (stored left)) (omega arith) kept)
    | inr refused ↦ omega (
      arith,
      burst_refused n b refused,
      burst-le n (suc k) (some (stored (tokens_in b))) h (next-le _ (suc k) few),
    )
  ]

  within : (b : Option (Bucket N)) → le (tokens_in b) (of_nat limit) ≡ true
  unfolding refilled arguments
  within b = law.least_le _ _

  -- However many requests for one key come at one instant, and whatever its bucket held before, at
  -- most `limit` of them are allowed.
  pub burst-le-limit :
      (n : ℕ) (b : Option (Bucket N))
      → count_allowed (burst number seconds clock now (arguments number limit) n b).0 ≤ limit
  burst-le-limit n b = burst-le n limit b small (within b)

  least_kept : (k : ℕ) → k ≤ limit → least (of_nat limit) (of_nat k) ≡ of_nat k
  least_kept k h = law.least_of_ge _ _ (law.of_nat_mono k limit h small)

  burst-exact :
      (n k : ℕ) (b : Option (Bucket N))
      → n ≤ k
      → k ≤ limit
      → tokens_in b ≡ of_nat k
      → count_allowed (burst number seconds clock now a n b).0 ≡ n
  burst-exact zero k b h few held = unfold burst in refl
  burst-exact (suc n) zero b h few held = absurd (omega (arith, h))
  burst-exact (suc n) (suc k) b h few held =
      let allowed = subst (λ x. le (of_nat 1) x ≡ true) (sym held) (one_le k (omega arith)) in
      let left : sub (tokens_in b) (of_nat 1) ≡ of_nat k =
        ap (λ x. sub x (of_nat 1)) held ∙ law.of_nat_sub_one k (omega arith) in
      let next =
        next_tokens (sub (tokens_in b) (of_nat 1))
        ∙ ap (λ x. least (of_nat limit) x) left
        ∙ least_kept k (omega arith) in
      omega (
        arith,
        burst_allowed n b allowed,
        burst-exact n k (some (stored (sub (tokens_in b) (of_nat 1)))) (omega arith) (omega arith)
            next,
      )

  full : tokens_in none ≡ of_nat limit
  unfolding refilled arguments live_bucket stored_tokens stored_ts
  full =
      let refill = number.div (of_nat limit) (of_nat 60) in
      ap (λ e. least (of_nat limit) (add (of_nat limit) (mul e refill)))
        (ap (λ d. greatest (of_nat 0) d) (law.sub_self now) ∙ law.greatest_same (of_nat 0))
      ∙ ap (λ m. least (of_nat limit) (add (of_nat limit) m)) (law.zero_mul refill)
      ∙ ap (λ t. least (of_nat limit) t) (law.add_zero (of_nat limit))
      ∙ least_kept limit (omega arith)

  -- A key that has no bucket yet is served: of up to `limit` requests at one instant, all are
  -- allowed.
  pub burst_fresh :
      (n : ℕ)
      → n ≤ limit
      → count_allowed (burst number seconds clock now (arguments number limit) n none).0 ≡ n
  burst_fresh n h = burst-exact n limit none h (omega arith) full
