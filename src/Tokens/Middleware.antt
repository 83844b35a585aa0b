-- ===== src/Tokens/Middleware.antt =====
-- `AuthMiddleware` of internal/auth/jwt.go.
use testovoe_bazis.Common.{
  ℕ, ◌*◌, ◌<◌, ◌≡◌, ◌⊎◌, ◌↔◌, refl, sym, ap, ◌∙◌, inl, inr, true, false, Bool-cases, Option, none,
  some, Option-cases, [], ◌∷◌, ◌++◌, ℤ, arith, length, Text, text_eq, text_beq, text_beq_iff, codes,
  nat_eq, nat_beq, nat_beq_iff, ◌==◌, if◌then◌else◌, Result, ok, err, Result-cases,
}
use testovoe_bazis.Http.{Response, says}
use testovoe_bazis.Tokens.{
  Claims, JwtLibrary, JwtManager, SigningMethod, hmac, new_claims, key_for, generate, parse,
  claims_of,
}

-- `strings.TrimPrefix(s, prefix)`; the first argument is returned where the prefix is missing.
unfoldable pub without_prefix : Text → Text → Text → Text
without_prefix whole [] s = s
without_prefix whole (c ∷ prefix) [] = whole
without_prefix whole (c ∷ prefix) (d ∷ s) =
    let rest = without_prefix whole prefix s in if c == d then rest else whole

abbrev pub bearer : Text
bearer = codes "Bearer "

abbrev pub trim_bearer : Text → Text
trim_bearer header = without_prefix header bearer header

-- The token of the header `Authorization`.
unfoldable pub bearer_token : Text → Option Text
bearer_token header =
    if header == []
    then none
    else if trim_bearer header == header
    then none
    else some (trim_bearer header)

module _ {W : Type 0} {A : Type 0} (next : ℤ → W → Response A × W) where
  -- `writeUnauthorized`
  abbrev pub unauthorized_response : Response A
  unauthorized_response = record { status = 401; payload = says (codes "unauthorized") }

  abbrev with_claims : Result Claims → W → Response A × W
  with_claims (ok claims) w = next claims.user_id w
  with_claims (err e) w = (unauthorized_response, w)

  abbrev with_token : (Text → Result Claims) → Option Text → W → Response A × W
  with_token parse none w = (unauthorized_response, w)
  with_token parse (some token) w = with_claims (parse token) w

  -- `next` gets the user that `ContextWithUserID` puts into the context.
  unfoldable pub auth_middleware : (Text → Result Claims) → Text → W → Response A × W
  auth_middleware parse header w = with_token parse (bearer_token header) w

-- Trimming either finds the prefix, or gives back the whole.
without_prefix-cases :
    (whole prefix s : Text)
    → (s ≡ prefix ++ without_prefix whole prefix s) ⊎ (without_prefix whole prefix s ≡ whole)
unfolding without_prefix
without_prefix-cases whole [] s = inl refl
without_prefix-cases whole (c ∷ prefix) [] = inr refl
without_prefix-cases whole (c ∷ prefix) (d ∷ s) = elim (Bool-cases (nat_beq c d)) [
  | inl same ↦ elim (without_prefix-cases whole prefix s) [
    | inl found ↦
        inl (rw same (ap (λ x. x ∷ s) (sym ((nat_beq_iff c d).0 same)) ∙ ap (λ r. c ∷ r) found))
    | inr missing ↦ inr (rw same missing)
  ]
  | inr differ ↦ inr (rw differ refl)
]

without_prefix-append : (whole prefix s : Text) → without_prefix whole prefix (prefix ++ s) ≡ s
unfolding without_prefix
without_prefix-append whole [] s = refl
without_prefix-append whole (c ∷ prefix) s =
    rw ((nat_beq_iff c c).1 refl) (without_prefix-append whole prefix s)

-- A header that is longer by the prefix differs from its token.
bearer-ne : (token : Text) → text_beq token (bearer ++ token) ≡ false
bearer-ne token = elim (Bool-cases (text_beq token (bearer ++ token))) [
  | inl same ↦ absurd (omega (arith, ap length ((text_beq_iff token (bearer ++ token)).0 same)))
  | inr differ ↦ differ
]

trimmed-bearer : (header token : Text) → bearer_token header ≡ some token → header ≡ bearer ++ token
unfolding bearer_token
trimmed-bearer header token h = elim (without_prefix-cases header bearer header) [
  | inl found ↦
      let same : trim_bearer header ≡ token = ground arith in found ∙ ap (λ s. bearer ++ s) same
  | inr missing ↦
      let same : text_beq (trim_bearer header) header ≡ true =
        (text_beq_iff (trim_bearer header) header).1 missing in
      absurd (ground arith)
]

bearer_token-append : (token : Text) → bearer_token (bearer ++ token) ≡ some token
unfolding bearer_token text_beq
bearer_token-append token =
    let trimmed : trim_bearer (bearer ++ token) ≡ token =
      without_prefix-append (bearer ++ token) bearer token in
    rw (trimmed, bearer-ne token) refl

-- The middleware reads a token from exactly the headers that are `Bearer `, with its blank, and
-- then the token.
pub bearer_token_iff :
    (header token : Text) → (bearer_token header ≡ some token) ↔ (header ≡ bearer ++ token)
bearer_token_iff header token =
    (trimmed-bearer header token, λ e. ap bearer_token e ∙ bearer_token-append token)

module _ {W : Type 0} {A : Type 0} (next : ℤ → W → Response A × W)
    (parse : Text → Result Claims) where
  -- Either the header is `Bearer ` and a token that can be parsed, and the request goes on as one of
  -- the user whom the claims name; or it is answered with 401 and touches nothing.
  pub auth_middleware-cases :
      (header : Text) (w : W)
      → ((token : Text) × (claims : Claims) × (header ≡ bearer ++ token)
          × (parse token ≡ ok claims)
          × (auth_middleware next parse header w ≡ next claims.user_id w))
        ⊎ (((auth_middleware next parse header w).0.status ≡ 401)
            × ((auth_middleware next parse header w).1 ≡ w))
  unfolding auth_middleware
  auth_middleware-cases header w = elim (Option-cases (bearer_token header)) [
    | inl bare ↦ inr (rw bare (refl, refl))
    | inr (token, read) ↦ elim (Result-cases (parse token)) [
      | inl (claims, good) ↦
          inl (token, claims, trimmed-bearer header token read, good, rw (read, good) refl)
      | inr (e, bad) ↦ inr (rw (read, bad) (refl, refl))
    ]
  ]

-- What the library documents: what it has signed with a key it parses with that key, until the
-- claims expire.
pub record Verifies (jwt : JwtLibrary) : Type 0 where
  pub verifies :
      (claims : Claims) (secret token : Text) (now : ℕ) (key : SigningMethod → Result Text)
      → jwt.signed_string claims secret ≡ ok token
      → key hmac ≡ ok secret
      → now < claims.expires_at * 1000000000
      → jwt.parse_with_claims now token key ≡ ok (record { claims = some claims; is_valid = true })

module _ (jwt : JwtLibrary) (m : JwtManager) where
  key_for_hmac : key_for m hmac ≡ ok m.secret
  unfolding key_for
  key_for_hmac = refl

  parse-generate :
      (issued now : ℕ) (user_id : ℤ) (username token : Text)
      → Verifies jwt
      → generate jwt m issued user_id username ≡ ok token
      → now < (new_claims m issued user_id username).expires_at * 1000000000
      → parse jwt m now token ≡ ok (new_claims m issued user_id username)
  unfolding generate parse
  parse-generate issued now user_id username token v signed fresh = ap claims_of (
      v.verifies (new_claims m issued user_id username) m.secret token now (key_for m) signed
        key_for_hmac fresh)

  -- If the library verifies what it signs, a token that `Generate` has issued to a user lets a
  -- request through as that user, until the second in which it expires.
  pub generate-auth_middleware :
      {W : Type 0} {A : Type 0} (next : ℤ → W → Response A × W) (issued now : ℕ) (user_id : ℤ)
      (username token : Text) (w : W)
      → Verifies jwt
      → generate jwt m issued user_id username ≡ ok token
      → now < (new_claims m issued user_id username).expires_at * 1000000000
      → auth_middleware next (parse jwt m now) (bearer ++ token) w ≡ next user_id w
  unfolding auth_middleware new_claims
  generate-auth_middleware next issued now user_id username token w v signed fresh =
      rw
        (bearer_token-append token, parse-generate issued now user_id username token v signed fresh)
        refl
