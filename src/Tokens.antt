-- ===== src/Tokens.antt =====
-- internal/auth/jwt.go: issuing and checking tokens, and the middleware that asks for one.
pub mod Middleware
use testovoe_bazis.Common.{
  ℕ, ◌+◌, ◌/◌, Bool, true, false, Option, none, some, ℤ, Text, format_int, if◌then◌else◌, Error,
  Result, ok, err, plain, wrap, foreign,
}

-- `Claims` with its registered claims; the times are in seconds, as `jwt.NewNumericDate` cuts them.
pub record Claims : Type 0 where
  pub user_id : ℤ
  pub username : Text
  pub subject : Text
  pub issued_at : ℕ
  pub expires_at : ℕ

-- Whether the method of a token is a `*jwt.SigningMethodHMAC`.
pub data SigningMethod : Type 0 where
  hmac : SigningMethod
  other_method : SigningMethod

-- What `jwt.ParseWithClaims` returns beside an error: the claims if they are of type `*Claims`.
pub record ParsedToken : Type 0 where
  pub claims : Option Claims
  pub is_valid : Bool

-- github.com/golang-jwt/jwt: signing with HS256, and parsing at a time in nanoseconds with a
-- function that gives the key for a method.
pub record JwtLibrary : Type 0 where
  pub signed_string : Claims → Text → Result Text
  pub parse_with_claims : ℕ → Text → (SigningMethod → Result Text) → Result ParsedToken

-- `JWTManager`; `ttl` is in nanoseconds.
pub record JwtManager : Type 0 where
  pub secret : Text
  pub ttl : ℕ

abbrev pub seconds : ℕ → ℕ
seconds t = t / 1000000000

module _ (m : JwtManager) where
  -- The claims of a token that is issued at `now`.
  unfoldable pub new_claims : ℕ → ℤ → Text → Claims
  new_claims now user_id username = record {
    user_id = user_id;
    username = username;
    subject = format_int user_id;
    issued_at = seconds now;
    expires_at = seconds (now + m.ttl);
  }

  -- The function that `Parse` passes to the library.
  unfoldable pub key_for : SigningMethod → Result Text
  key_for hmac = ok m.secret
  key_for other_method = err (foreign 1)

abbrev pub accepted : Bool → Option Claims → Result Claims
accepted true (some claims) = ok claims
accepted true none = err (foreign 2)
accepted false _ = err (foreign 2)

abbrev pub claims_of : Result ParsedToken → Result Claims
claims_of (ok parsed) = accepted parsed.is_valid parsed.claims
claims_of (err e) = err e

module _ (jwt : JwtLibrary) (m : JwtManager) where
  -- `JWTManager.Generate`
  unfoldable pub generate : ℕ → ℤ → Text → Result Text
  generate now user_id username = jwt.signed_string (new_claims m now user_id username) m.secret

  -- `JWTManager.Parse`
  unfoldable pub parse : ℕ → Text → Result Claims
  parse now token = claims_of (jwt.parse_with_claims now token (key_for m))
