-- ===== src/Tests/Limits.antt =====
-- The bucket of a key, with whole numbers.
use testovoe_bazis.Common.{ℕ, ◌≡◌, ◌≤◌, refl, none, some, arith, codes, [], ◌∷◌}
use testovoe_bazis.Limiter.{
  Bucket, LimiterState, allow, find_bucket, arguments, burst, count_allowed, run_script,
  live_bucket, stored_tokens, stored_ts, refilled, is_allowed, tokens_left,
}
use testovoe_bazis.Limiter.Numbers.{whole, whole-IsRounded}
use testovoe_bazis.Limiter.Keys.{AreFilled, allow-AreFilled}
use testovoe_bazis.Limiter.Bursts.{burst-le-limit, burst_fresh}

abbrev bucket : Bucket ℕ
bucket = record { tokens = 2; ts = 5; expires = 90 }

-- Three requests find two tokens.
two_of_three : count_allowed (burst whole (λ n. n) 5 5 (arguments whole 100) 3 (some bucket)).0 ≡ 2
unfolding burst run_script is_allowed tokens_left refilled live_bucket stored_tokens stored_ts
    arguments
two_of_three = refl

burst-le-limit_example :
    count_allowed (burst whole (λ n. n) 5 5 (arguments whole 100) 200 (some bucket)).0 ≤ 100
burst-le-limit_example =
    burst-le-limit whole whole-IsRounded 100 (omega arith) (λ n. n) 5 5 200 (some bucket)

burst_fresh_example : count_allowed (burst whole (λ n. n) 5 5 (arguments whole 100) 40 none).0 ≡ 40
burst_fresh_example =
    burst_fresh whole whole-IsRounded 100 (omega arith) (λ n. n) 5 5 40 (omega arith)

abbrev limiter : LimiterState ℕ
limiter = record { buckets = (codes "a", bucket) ∷ []; now = 9; clock = 9; faults = [] }

allow-AreFilled_example :
    AreFilled whole whole-IsRounded 100
      (omega arith)
      (allow whole (λ n. n) 100 (codes "b") limiter).1.buckets
    × (find_bucket (codes "a") (allow whole (λ n. n) 100 (codes "b") limiter).1.buckets
        ≡ find_bucket (codes "a") limiter.buckets)
allow-AreFilled_example =
    allow-AreFilled whole whole-IsRounded 100 (omega arith) (λ n. n) (codes "b") (codes "a") limiter
      (λ h. absurd (ground arith)) ((refl, refl), tt)
