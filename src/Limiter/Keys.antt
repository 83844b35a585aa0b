-- ===== src/Limiter/Keys.antt =====
-- `RedisLimiter.Allow` and the buckets of all keys.
use testovoe_bazis.Common.{
  ℕ, ◌<◌, ◌^◌, ◌≡◌, ◌≢◌, refl, inl, inr, Bool-cases, Option, none, some, List, [], ◌∷◌, Text,
  text_eq, text_beq, text_beq_iff, arith, All,
}
use testovoe_bazis.Limiter.{
  Bucket, LimiterState, find_bucket, put_bucket, put_left, next_fails, script_of, allow,
}
use testovoe_bazis.Limiter.Numbers.{LuaNumber, IsRounded}
use testovoe_bazis.Limiter.Filling.{IsFilled, run_script-IsFilled}

module _ {u} {N : Type u} where
  find_bucket-put_bucket_other :
      (key other : Text) (b : Bucket N) (bs : List (Text × Bucket N))
      → other ≢ key
      → find_bucket other (put_bucket key b bs) ≡ find_bucket other bs
  unfolding find_bucket put_bucket
  find_bucket-put_bucket_other key other b [] h = ground (arith, text_beq_iff key other)
  find_bucket-put_bucket_other key other b ((k, c) ∷ bs) h =
      let rest = find_bucket-put_bucket_other key other b bs h in
      ground (arith, text_beq_iff k key, text_beq_iff k other, rest)

  find_bucket-put_left_other :
      (key other : Text) (b : Option (Bucket N)) (bs : List (Text × Bucket N))
      → other ≢ key
      → find_bucket other (put_left key b bs) ≡ find_bucket other bs
  find_bucket-put_left_other key other none bs h = refl
  find_bucket-put_left_other key other (some b) bs h = find_bucket-put_bucket_other key other b bs h

module _ {u} {N : Type u} (number : LuaNumber N) (law : IsRounded number) (limit : ℕ)
    (small : limit < 2 ^ 53) where
  -- Every bucket of the limiter holds between 0 and `limit` tokens.
  abbrev pub AreFilled : List (Text × Bucket N) → Type 0
  AreFilled bs = All (λ (p : Text × Bucket N). IsFilled number law limit small (some p.1)) bs

  find_bucket-IsFilled :
      (key : Text) (bs : List (Text × Bucket N))
      → AreFilled bs
      → IsFilled number law limit small (find_bucket key bs)
  unfolding find_bucket
  find_bucket-IsFilled key [] h = tt
  find_bucket-IsFilled key ((k, b) ∷ bs) (p, h) = elim (Bool-cases (text_beq k key)) [
    | inl same ↦ rw same p
    | inr other ↦ rw other (find_bucket-IsFilled key bs h)
  ]

  put_bucket-AreFilled :
      (key : Text) (b : Bucket N) (bs : List (Text × Bucket N))
      → IsFilled number law limit small (some b)
      → AreFilled bs
      → AreFilled (put_bucket key b bs)
  unfolding put_bucket
  put_bucket-AreFilled key b [] p h = (p, tt)
  put_bucket-AreFilled key b ((k, c) ∷ bs) p (q, h) = elim (Bool-cases (text_beq k key)) [
    | inl same ↦ rw same (p, h)
    | inr other ↦ rw other (q, put_bucket-AreFilled key b bs p h)
  ]

  put_left-AreFilled :
      (key : Text) (b : Option (Bucket N)) (bs : List (Text × Bucket N))
      → IsFilled number law limit small b
      → AreFilled bs
      → AreFilled (put_left key b bs)
  put_left-AreFilled key none bs p h = h
  put_left-AreFilled key (some b) bs p h = put_bucket-AreFilled key b bs p h

  -- If every bucket holds between 0 and `limit` tokens, then so does every one after `Allow`,
  -- whatever its key, the time that the server gives, and its answer; and the bucket of any other
  -- key is as it was.
  pub allow-AreFilled :
      (seconds : N → ℕ) (key other : Text) (s : LimiterState N)
      → other ≢ key
      → AreFilled s.buckets
      → AreFilled (allow number seconds limit key s).1.buckets
        × (find_bucket other (allow number seconds limit key s).1.buckets
            ≡ find_bucket other s.buckets)
  unfolding allow
  allow-AreFilled seconds key other s differs h =
      let left = (script_of number seconds limit key s).1 in
      elim (Bool-cases (next_fails s.faults)) [
        | inl failed ↦ rw failed (h, refl)
        | inr answered ↦ rw answered (
          put_left-AreFilled key left s.buckets
              (run_script-IsFilled number law limit small seconds s.now s.clock
                (find_bucket key s.buckets) (find_bucket-IsFilled key s.buckets h))
              h,
          find_bucket-put_left_other key other left s.buckets differs,
        )
      ]
