-- ===== src/Http/Limits.antt =====
-- The limiter as middleware, `Handler.RateLimit` of internal/httpapi/middleware.go. The header and
-- the counter of a refusal are left out.
use mathlib.Core.List.{append_cancel_left}
use testovoe_bazis.Common.{
  ◌≡◌, ◌≢◌, ap, sym, true, false, Bool, Option, none, some, ◌++◌, ℤ, Text, codes, format_int,
  format_int_injective, arith, Result, ok, err, Action,
}
use testovoe_bazis.Http.{Response, says}

-- `net.SplitHostPort`: `none` stands for an error.
abbrev host_of : (Text → Option Text) → Text → Text
host_of split address = elim (split address) [ none ↦ address | some host ↦ host ]

-- The bucket of a request: that of its user, or of its host without one.
unfoldable pub rate_key : (Text → Option Text) → Option ℤ → Text → Text
rate_key split (some user_id) address = codes "ratelimit:user:" ++ format_int user_id
rate_key split none address = codes "ratelimit:ip:" ++ host_of split address

module _ {W : Type 0} {A : Type 0} (next : W → Response A × W) where
  abbrev after_limit : Result Bool × W → Response A × W
  after_limit (ok true, w) = next w
  after_limit (ok false, w) =
      (record { status = 429; payload = says (codes "rate limit exceeded") }, w)
  after_limit (err e, w) = next w

  -- A limiter that fails lets the request through.
  unfoldable pub rate_limit :
      (Text → Action W Bool) → (Text → Option Text) → Option ℤ → Text → W → Response A × W
  rate_limit allow split user_id address w = after_limit (allow (rate_key split user_id address) w)

user-ne-host :
    (split : Text → Option Text) (user_id : ℤ) (address address' : Text)
    → rate_key split (some user_id) address ≢ rate_key split none address'
unfolding rate_key
user-ne-host split user_id address address' h = ground arith

-- If a request has the key of a user's bucket, it is a request of that user, from whichever
-- address; so neither another user nor a request without a user draws on it.
pub rate_key_of_user :
    (split : Text → Option Text) (user_id : ℤ) (other : Option ℤ) (address address' : Text)
    → rate_key split (some user_id) address ≡ rate_key split other address'
    → other ≡ some user_id
unfolding rate_key
rate_key_of_user split user_id none address address' h =
    absurd (user-ne-host split user_id address address' h)
rate_key_of_user split user_id (some other) address address' h =
    ap some (
      sym (format_int_injective user_id other (append_cancel_left (codes "ratelimit:user:") _ _ h)))
