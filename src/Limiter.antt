-- ===== src/Limiter.antt =====
-- internal/ratelimit/redis_limiter.go: the token bucket of a key, as the Lua script keeps it in
-- Redis.
pub mod Numbers
pub mod Filling
pub mod Bursts
pub mod Keys
use testovoe_bazis.Common.{
  ℕ, suc, zero, ◌+◌, Bool, true, false, Option, none, some, List, [], ◌∷◌, if◌then◌else◌, Error,
  Result, ok, err, wrap, plain, foreign, ltb, nat_eq, text_eq, Text, ◌==◌,
}
use Numbers.{LuaNumber}

-- A hash with `tokens` and `ts`, and the second at which it expires.
pub record Bucket {u} (N : Type u) : Type u where
  pub tokens : N
  pub ts : N
  pub expires : ℕ

-- The limiter's part of Redis: the bucket of each key; the time that TIME gives and, for EXPIRE, the
-- clock in whole seconds; and which of the next calls fail.
pub record LimiterState {u} (N : Type u) : Type u where
  pub buckets : List (Text × Bucket N)
  pub now : N
  pub clock : ℕ
  pub faults : List Bool

module _ {u} {N : Type u} where
  unfoldable pub find_bucket : Text → List (Text × Bucket N) → Option (Bucket N)
  find_bucket key [] = none
  find_bucket key ((k, b) ∷ bs) = let rest = find_bucket key bs in if k == key then some b else rest

  unfoldable pub put_bucket : Text → Bucket N → List (Text × Bucket N) → List (Text × Bucket N)
  put_bucket key b [] = (key, b) ∷ []
  put_bucket key b ((k, c) ∷ bs) =
      let rest = put_bucket key b bs in if k == key then (k, b) ∷ bs else (k, c) ∷ rest

  abbrev put_left : Text → Option (Bucket N) → List (Text × Bucket N) → List (Text × Bucket N)
  put_left key none bs = bs
  put_left key (some b) bs = put_bucket key b bs

abbrev next_fails : List Bool → Bool
next_fails [] = false
next_fails (b ∷ _) = b

abbrev later : List Bool → List Bool
later [] = []
later (_ ∷ bs) = bs

module _ {u} {N : Type u} (number : LuaNumber N) where
  open number use {add, sub, mul, div, least, greatest, le, of_nat}

  -- HMGET on the key: both fields are there or neither is.
  unfoldable pub live_bucket : ℕ → Option (Bucket N) → Option (Bucket N)
  live_bucket clock none = none
  live_bucket clock (some b) = if ltb clock b.expires then some b else none

  -- `if tokens == nil then tokens = capacity; ts = now end`
  unfoldable pub stored_tokens : N → Option (Bucket N) → N
  stored_tokens capacity none = capacity
  stored_tokens capacity (some b) = b.tokens

  unfoldable pub stored_ts : N → Option (Bucket N) → N
  stored_ts now none = now
  stored_ts now (some b) = b.ts

  -- What the script is called with: `capacity`, `refill_per_second` and `requested`.
  pub record Arguments : Type u where
    pub capacity : N
    pub refill : N
    pub requested : N

  module _ (a : Arguments) (now : N) where
    -- The tokens once the bucket is refilled.
    unfoldable pub refilled : Option (Bucket N) → N
    refilled b =
        let elapsed = greatest (of_nat 0) (sub now (stored_ts now b)) in
        least a.capacity (add (stored_tokens a.capacity b) (mul elapsed a.refill))

    unfoldable pub is_allowed : Option (Bucket N) → Bool
    is_allowed b = le a.requested (refilled b)

    unfoldable pub tokens_left : Option (Bucket N) → N
    tokens_left b = if is_allowed b then sub (refilled b) a.requested else refilled b

    -- The script, at a clock in whole seconds for EXPIRE: its answer, and the hash it leaves;
    -- `seconds` is `math.ceil` as a count of seconds.
    unfoldable pub run_script : (N → ℕ) → ℕ → Option (Bucket N) → Bool × Option (Bucket N)
    run_script seconds clock stored =
        let b = live_bucket clock stored in
        (
          is_allowed b,
          some (record {
            tokens = tokens_left b;
            ts = now;
            expires = clock + (seconds (div a.capacity a.refill) + 10);
          }),
        )

  -- What `RedisLimiter.Allow` calls the script with: the limit, which is the capacity, a sixtieth of
  -- it a second, and one token.
  unfoldable pub arguments : ℕ → Arguments
  arguments limit = record {
    capacity = of_nat limit;
    refill = div (of_nat limit) (of_nat 60);
    requested = of_nat 1;
  }

  -- The script on the bucket of its key.
  abbrev pub script_of : (N → ℕ) → ℕ → Text → LimiterState N → Bool × Option (Bucket N)
  script_of seconds limit key s =
      run_script (arguments limit) s.now seconds s.clock (find_bucket key s.buckets)

  -- `RedisLimiter.Allow`. A call of the script that fails changes no bucket.
  unfoldable pub allow : (N → ℕ) → ℕ → Text → LimiterState N → Result Bool × LimiterState N
  allow seconds limit key s =
      if next_fails s.faults
      then (
        err (wrap (plain "run rate limit script: %w") (foreign 4)),
        record s { faults = later s.faults },
      )
      else (
        ok (script_of seconds limit key s).0,
        record s {
          faults = later s.faults;
          buckets = put_left key (script_of seconds limit key s).1 s.buckets;
        },
      )

  -- The answers of the script to requests for one key that come at one instant.
  unfoldable pub burst :
      (N → ℕ) → ℕ → N → Arguments → ℕ → Option (Bucket N) → List Bool × Option (Bucket N)
  burst seconds clock now a zero b = ([], b)
  burst seconds clock now a (suc n) b =
      let (allowed, b') = run_script a now seconds clock b in
      let (rest, b'') = burst seconds clock now a n b' in (allowed ∷ rest, b'')

abbrev pub count_allowed : List Bool → ℕ
count_allowed [] = 0
count_allowed (b ∷ bs) = (if b then 1 else 0) + count_allowed bs
